-- ===== src/Machine/EnvBlock.antt =====
-- fw/src/protocol_env.cpp: the commands 90 to 99.
use astro_uni_board.Base.{
  ℕ, Bool, true, not, ◌&&◌, ◌||◌, Option, none, some, List, [], ◌∷◌, map, leb, ◌==◌, if◌then◌else◌,
}
use astro_uni_board.Base.Int.{ℤ, pos, negsuc, pos_part, ltb_ℤ}
use astro_uni_board.Errors.{bad_param, busy, sensor, unknown_cmd}
use astro_uni_board.Rotator.Sequences.{rotator_imu_calibrate}
use astro_uni_board.Env.{
  ShtStatus, sht_ok, sht_no_ack, sht_bad_crc, sht_no_data, ShtReading, EnvSensor, env_onboard,
  env_external, env_reading, env_selected,
}
use astro_uni_board.Protocol.{
  Text, Field, dec, num, Reply, ok, int, report, reply_of, proto_split, proto_int32,
}
use astro_uni_board.Machine.{Machine, World, table_of, put_table, nearby, status_any_busy}
use astro_uni_board.Machine.Common.{refuse}

abbrev src_code : EnvSensor → ℕ
src_code env_onboard = 1
src_code env_external = 2

abbrev letter : ℕ → Text
letter c = c ∷ []

abbrev climate_fields : ShtReading → List Field → List Field
climate_fields r rest = dec r.climate.t_deci ∷ num r.climate.rh_deci ∷ dec r.climate.dew_deci ∷ rest

abbrev pub on_sensor : Option EnvSensor → Machine → Machine × Reply
on_sensor none m = refuse m sensor
on_sensor (some s) m =
    (m, report (letter 87) (num (src_code s) ∷ climate_fields (env_reading m.env s) []))

-- Command 90.
unfoldable pub cmd_climate : Machine → Machine × Reply
cmd_climate m = on_sensor (env_selected m.settings.env_select m.env) m

abbrev status_code : ShtStatus → ℕ
status_code sht_ok = 0
status_code sht_no_ack = 1
status_code sht_bad_crc = 2
status_code sht_no_data = 3

-- Command 91.
unfoldable pub sensors_report : Machine → Reply
sensors_report m =
    let o = env_reading m.env env_onboard in
    let x = env_reading m.env env_external in
    report (letter 86) (
      num (status_code o.status)
      ∷ climate_fields o
          (num (status_code x.status) ∷ climate_fields x (num m.env.power_cycles ∷ [])))

-- A value from 0 to `top`, which a command takes alone.
abbrev pub up_to : ℕ → Option ℤ → (ℕ → Machine) → Machine → Machine × Reply
up_to top none act m = refuse m bad_param
up_to top (some v) act m =
    if ltb_ℤ v (pos 0) || ltb_ℤ (pos top) v then refuse m bad_param else (act (pos_part v), ok)

abbrev pub one_up_to : ℕ → List Text → (ℕ → Machine) → Machine → Machine × Reply
one_up_to top (v ∷ []) act m = up_to top (proto_int32 v) act m
one_up_to top _ act m = refuse m bad_param

-- Commands 93 and 98.
abbrev pub set_env_select : Machine → ℕ → Machine
set_env_select m v = record m { settings = record (m.settings) { env_select = v } }

abbrev pub set_rot_guard : Machine → ℕ → Machine
set_rot_guard m v = record m { settings = record (m.settings) { rot_guard = v } }

-- IMU_INVALID
abbrev or_invalid : Option ℤ → ℤ
or_invalid none = negsuc 99998
or_invalid (some v) = v

abbrev pub on_accel : Option (ℤ × ℤ × ℤ) → World → Machine → Machine × Reply
on_accel none w m = refuse m sensor
on_accel (some (x, y, z)) w m = if not w.imu_answering then refuse m sensor else (
  m,
  report (letter 73)
      (dec (or_invalid w.imu_roll) ∷ dec (or_invalid w.imu_tilt) ∷ dec x ∷ dec y ∷ dec z ∷ []),
)

-- Command 94.
unfoldable pub cmd_imu : World → Machine → Machine × Reply
cmd_imu w m = on_accel w.imu_accel w m

-- Command 95.
unfoldable pub cmd_calibrate : World → Machine → Machine × Reply
cmd_calibrate w m =
    let (b, e) = rotator_imu_calibrate (nearby w m) (table_of m) in
    if status_any_busy m
    then refuse m busy
    else if not w.imu_answering
    then refuse m sensor
    else (put_table (record m { tmc = w.drivers }) b, reply_of e)

-- Command 96.
abbrev calibration_report : List ℤ → Reply
calibration_report numbers = report (letter 67) (map dec numbers)

abbrev pub takes_none : ℕ → List Text → Bool
takes_none cmd [] = true
takes_none cmd (v ∷ vs) = not (leb 90 cmd && leb cmd 97 && not (cmd == 93))

-- `calibration` is imuCalData(): the valid flag, g0, n and c.
unfoldable pub env_command : World → List ℤ → ℕ → List Text → Machine → Machine × Reply
env_command w calibration cmd vs m =
    if not (takes_none cmd vs)
    then refuse m bad_param
    else if cmd == 90
    then cmd_climate m
    else if cmd == 91
    then (m, sensors_report m)
    else if cmd == 92
    then (m, int (pos m.settings.env_select))
    else if cmd == 93
    then one_up_to 2 vs (set_env_select m) m
    else if cmd == 94
    then cmd_imu w m
    else if cmd == 95
    then cmd_calibrate w m
    else if cmd == 96
    then (m, calibration_report calibration)
    else if cmd == 97
    then (m, int (if m.settings.rot_guard == 0 then pos 0 else pos 1))
    else if cmd == 98
    then one_up_to 1 vs (set_rot_guard m) m
    else refuse m unknown_cmd

abbrev pub on_env : World → List ℤ → ℕ → Option (List Text) → Machine → Machine × Reply
on_env w calibration cmd none m = refuse m bad_param
on_env w calibration cmd (some vs) m = env_command w calibration cmd vs m

unfoldable pub protocol_env : World → List ℤ → ℕ → Text → Machine → Machine × Reply
protocol_env w calibration cmd params m = on_env w calibration cmd (proto_split params) m
