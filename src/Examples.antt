-- ===== src/Examples.antt =====
-- The theorems at concrete values, and tests, for the code under fw/src.
mod Angles
mod Motion
mod Positions
mod Records
mod Imu
mod Hardware
mod Lens
mod Commands
mod Camera
mod Whole
mod Calibration
mod Drivers
