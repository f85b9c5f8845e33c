-- ===== src/Nv.antt =====
-- The position store of fw/src/nv_store.cpp: a ring of 256 slots in the EEPROM, and the records of
-- the settings and of the IMU calibration.
pub mod Sane
pub mod Records
pub mod Transfers
pub mod Saved
pub mod Slot
pub mod Ring
pub mod Newest
pub mod Store
pub mod Reboot
pub mod Positions
