-- ===== src/Adapter.antt =====
-- .trellis/scripts/common/cli_adapter.py: the coding tools, their files and their commands.
pub mod Platforms
pub mod Paths
pub mod Commands
pub mod Detect
pub mod PathLaws
pub mod PlatformLaws
