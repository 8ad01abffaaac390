-- ===== src/Files.antt =====
-- The file tree that the scripts work on, as far as they use it: directories and files by absolute
-- path, with no links. An operation that the system refuses is an OSError.
pub mod Tree
pub mod Laws
pub mod Move
