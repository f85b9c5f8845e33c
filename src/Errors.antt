-- ===== src/Errors.antt =====
-- fw/src/error_codes.h: the error codes of the protocol, and what the host reads.
use astro_uni_board.Base.{ℕ, Bool, true, false}

pub data FwError : Type 0 where
  fw_ok home_timeout move_timeout calib_failed eeprom motor_driver : FwError
  bad_param busy not_calibrated unknown_cmd bad_format not_supported : FwError
  motor_stall sensor imu_vertical not_identified pos_unverified : FwError

pub FwError-discrete : Discrete FwError
FwError-discrete = hlevel

unfoldable pub error_code : FwError → ℕ
error_code fw_ok = 0
error_code home_timeout = 1
error_code move_timeout = 2
error_code calib_failed = 3
error_code eeprom = 4
error_code motor_driver = 5
error_code bad_param = 7
error_code busy = 8
error_code not_calibrated = 9
error_code unknown_cmd = 10
error_code bad_format = 11
error_code not_supported = 12
error_code motor_stall = 13
error_code sensor = 14
error_code imu_vertical = 15
error_code not_identified = 16
error_code pos_unverified = 17

-- The test `e == FW_OK`.
abbrev pub is_ok : FwError → Bool
is_ok fw_ok = true
is_ok _ = false
