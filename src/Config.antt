-- ===== src/Config.antt =====
-- .trellis/scripts/common/config.py: the settings read from the parsed config file. A setter of a
-- default that also warns on stderr returns the flag that it warned.
pub mod Values
pub mod Packages
pub mod Laws
