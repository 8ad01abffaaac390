-- ===== src/Yaml.antt =====
-- The YAML subset reader of .trellis/scripts/common/trellis_config.py: its data. The children hold
-- the scalar helpers, the block parser and what is proved of them.
pub mod Scalar
pub mod Block
pub mod Total
