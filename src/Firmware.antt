-- ===== src/Firmware.antt =====
-- The firmware update: firmware/.
pub mod Flavor
pub mod Codes
pub mod Device
pub mod Installer
pub mod Json
pub mod Archive
pub mod Select
pub mod Bundles
