-- ===== src/Pcd.antt =====
-- The pseudo character drivers of custom_drivers/002pseudo_char_driver to 006_pcd_sysfs.
pub mod Core
pub mod Seek
pub mod Transfer
pub mod Readback
mod Tests
