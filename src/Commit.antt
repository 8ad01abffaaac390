-- ===== src/Commit.antt =====
-- .trellis/scripts/common: git.py, the retry on a locked index, and safe_commit.py, the paths that an
-- automatic commit stages.
pub mod Git
pub mod Paths
pub mod Laws
