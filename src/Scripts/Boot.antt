-- ===== src/Scripts/Boot.antt =====
-- The script that the guest's init runs at boot.
pub mod Network
pub mod Storage
pub mod Wifi
pub mod Script
pub mod Supplicant
