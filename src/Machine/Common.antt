-- ===== src/Machine/Common.antt =====
-- fw/src/protocol_common.cpp: the commands 20 to 49.
use astro_uni_board.Base.{
  ℕ, ◌+◌, ◌/◌, ◌%◌, ◌^◌, Bool, true, false, not, ◌||◌, Option, none, some, List, [], ◌∷◌, ◌==◌,
  if◌then◌else◌,
}
use astro_uni_board.Base.Int.{ℤ, pos, negsuc, pos_part, ltb_ℤ, eqb_ℤ}
use astro_uni_board.Errors.{FwError, fw_ok, bad_param, busy, eeprom, unknown_cmd, is_ok, error_code}
use astro_uni_board.Settings.{AxisId, axis_foc, axis_rot, DriverMode, stealthchop, spreadcycle, drv}
use astro_uni_board.Nv.Store.{Nv}
use astro_uni_board.Focuser.{focuser_halt}
use astro_uni_board.Rotator.{rotator_halt}
use astro_uni_board.Tmc.{st, tmc_temp_class}
use astro_uni_board.Protocol.{
  Text, dec, num, hex, hex_wide, str, Reply, ok, error, int, report, proto_split, proto_int32,
  proto_axis,
}
use astro_uni_board.Machine.{
  Machine, World, Running, reboots_normal, reboots_to_dfu, board_of, put_board, table_of, put_table,
  status_any_busy,
}
use astro_uni_board.Machine.Status.{
  DevState, dev_init, dev_idle, dev_foc_moving, dev_rot_moving, dev_rot_homing, dev_halting,
  hk_warnings, status_get, status_clear_error,
}
use astro_uni_board.Machine.Drivers.{
  cmd_reset_defaults, cmd_set_driver, set_brightness, on_threshold,
}

-- `nvSaveSettings`, without the times of its writes.
unfoldable pub nv_save_settings : Bool → Nv → Nv × FwError
nv_save_settings saved n =
    if not n.present
    then (n, eeprom)
    else if saved
    then (record n { fault_settings = false; fault_write = false }, fw_ok)
    else (record n { fault_write = true }, eeprom)

abbrev pub refuse : Machine → FwError → Machine × Reply
refuse m e = (m, error e)

-- A command that takes no values.
abbrev pub alone : List Text → Machine × Reply → Machine → Machine × Reply
alone [] r m = r
alone (v ∷ vs) r m = refuse m bad_param

-- Commands 22 and 31: the reply is sent before the device restarts.
unfoldable pub cmd_reboot : Running → Machine → Machine × Reply
cmd_reboot how m = if status_any_busy m then refuse m busy else (record m { running = how }, ok)

unfoldable pub cmd_save : World → Machine → Machine × Reply
cmd_save w m =
    let (n, e) = nv_save_settings w.settings_saved m.nv in
    (record m { nv = n }, if is_ok e then ok else error eeprom)

-- Command 30.
unfoldable pub halt_all : Machine → Machine
halt_all m =
    let m' = put_board m (focuser_halt (board_of m)) in put_table m' (rotator_halt (table_of m'))

abbrev letter : ℕ → Text
letter c = c ∷ []

-- "ASTROUNIBOARD", "REV2" and "FW2.0.0".
abbrev name_text : Text
name_text = 65 ∷ 83 ∷ 84 ∷ 82 ∷ 79 ∷ 85 ∷ 78 ∷ 73 ∷ 66 ∷ 79 ∷ 65 ∷ 82 ∷ 68 ∷ []

abbrev model_text : Text
model_text = 82 ∷ 69 ∷ 86 ∷ 50 ∷ []

abbrev firmware_text : Text
firmware_text = 70 ∷ 87 ∷ 50 ∷ 46 ∷ 48 ∷ 46 ∷ 48 ∷ []

-- Command 32; the serial number is two fields without a comma between them.
unfoldable pub cmd_identify : World → Machine → Machine × Reply
cmd_identify w m = (
  record m { identified = true },
  report name_text (
      str model_text
      ∷ str firmware_text
      ∷ dec (pos 2)
      ∷ hex_wide 8 ((w.uid0 + w.uid2) % 2 ^ 32)
      ∷ hex_wide 4 (w.uid1 / 2 ^ 16)
      ∷ hex 15
      ∷ []),
)

abbrev state_code : DevState → ℕ
state_code dev_init = 0
state_code dev_idle = 1
state_code dev_foc_moving = 2
state_code dev_rot_moving = 3
state_code dev_rot_homing = 4
state_code dev_halting = 5

unfoldable pub status_report : World → Machine → Reply
status_report w m =
    let s = status_get w m in
    report (letter 83) (
      num (state_code s.state)
      ∷ dec s.foc_pos
      ∷ dec s.foc_target
      ∷ dec s.rot_cdeg
      ∷ dec s.rot_target
      ∷ num s.error
      ∷ hex s.flags
      ∷ [])

abbrev pub clears : Option ℤ → Machine → Machine × Reply
clears none m = refuse m bad_param
clears (some v) m = if eqb_ℤ v (pos 0) then (status_clear_error m, ok) else refuse m bad_param

-- Command 34.
unfoldable pub cmd_error : List Text → Machine → Machine × Reply
cmd_error [] m = (m, report (letter 69) (num (error_code m.sticky) ∷ []))
cmd_error (v ∷ []) m = clears (proto_int32 v) m
cmd_error _ m = refuse m bad_param

-- Command 40: the warmer driver, or -1 where one does not answer.
unfoldable pub worst_temp : ℤ → ℤ → ℤ
worst_temp f r = if ltb_ℤ f (pos 0) || ltb_ℤ r (pos 0) then negsuc 0 else if ltb_ℤ r f then f else r

unfoldable pub housekeeping_report : World → Machine → Reply
housekeeping_report w m =
    let f = tmc_temp_class m.tmc axis_foc in
    let r = tmc_temp_class m.tmc axis_rot in
    report (letter 72) (
      dec w.mcu_temp
      ∷ num w.vdda_mv
      ∷ dec (negsuc 0)
      ∷ dec (negsuc 0)
      ∷ dec (worst_temp f r)
      ∷ hex (hk_warnings w m)
      ∷ dec f
      ∷ dec r
      ∷ [])

abbrev pub on_axis : Option AxisId → (AxisId → Reply) → Machine → Machine × Reply
on_axis none answer m = refuse m bad_param
on_axis (some a) answer m = (m, answer a)

-- `axisOnly`
unfoldable pub axis_only : List Text → Option AxisId
axis_only (v ∷ []) = proto_axis v
axis_only _ = none

-- Command 41.
unfoldable pub stall_report : Machine → AxisId → Reply
stall_report m axis =
    let s = st m.tmc axis in
    report (letter 71)
      (num (drv m.settings axis).stall_threshold ∷ dec s.sg_last ∷ dec s.sg_min ∷ dec s.sg_max ∷ [])

abbrev mode_code : DriverMode → ℕ
mode_code stealthchop = 0
mode_code spreadcycle = 1

-- Command 47.
unfoldable pub driver_report : Machine → AxisId → Reply
driver_report m axis =
    let d = drv m.settings axis in
    report (letter 68) (
      num d.run_ma
      ∷ num d.hold_ma
      ∷ num d.microsteps
      ∷ num (mode_code d.mode)
      ∷ num d.idle_off_s
      ∷ [])

unfoldable pub cmd_threshold : List Text → Machine → Machine × Reply
cmd_threshold (a ∷ v ∷ []) m = on_threshold (proto_axis a) (proto_int32 v) m
cmd_threshold _ m = refuse m bad_param

abbrev pub on_brightness : Option ℤ → Machine → Machine × Reply
on_brightness none m = refuse m bad_param
on_brightness (some v) m =
    if ltb_ℤ v (pos 0) || ltb_ℤ (pos 100) v
    then refuse m bad_param
    else if status_any_busy m
    then refuse m busy
    else (set_brightness (pos_part v) m, ok)

unfoldable pub cmd_brightness : List Text → Machine → Machine × Reply
cmd_brightness (v ∷ []) m = on_brightness (proto_int32 v) m
cmd_brightness _ m = refuse m bad_param

-- Command 46.
unfoldable pub reset_report : World → Reply
reset_report w =
    report (letter 82)
      (hex_wide 2 w.reset_flags ∷ num w.last_mark ∷ num (if w.watchdog_reset then 1 else 0) ∷ [])

-- The commands 40 to 48.
unfoldable pub common_setting : World → ℕ → List Text → Machine → Machine × Reply
common_setting w cmd vs m =
    if cmd == 40
    then alone vs (m, housekeeping_report w m) m
    else if cmd == 41
    then on_axis (axis_only vs) (stall_report m) m
    else if cmd == 42
    then cmd_threshold vs m
    else if cmd == 43
    then alone vs (m, int (pos m.settings.led_brightness)) m
    else if cmd == 44
    then cmd_brightness vs m
    else if cmd == 46
    then (m, reset_report w)
    else if cmd == 47
    then on_axis (axis_only vs) (driver_report m) m
    else if cmd == 48
    then cmd_set_driver w vs m
    else refuse m unknown_cmd

unfoldable pub common_command : World → ℕ → List Text → Machine → Machine × Reply
common_command w cmd vs m =
    if cmd == 22
    then alone vs (cmd_reboot reboots_normal m) m
    else if cmd == 31
    then alone vs (cmd_reboot reboots_to_dfu m) m
    else if cmd == 23
    then alone vs (cmd_save w m) m
    else if cmd == 24
    then alone vs (cmd_reset_defaults w m) m
    else if cmd == 25
    then (m, ok)
    else if cmd == 30
    then alone vs (halt_all m, ok) m
    else if cmd == 32
    then alone vs (cmd_identify w m) m
    else if cmd == 33
    then alone vs (m, status_report w m) m
    else if cmd == 34
    then cmd_error vs m
    else common_setting w cmd vs m

abbrev pub on_common : World → ℕ → Option (List Text) → Machine → Machine × Reply
on_common w cmd none m = refuse m bad_param
on_common w cmd (some vs) m = common_command w cmd vs m

unfoldable pub protocol_common : World → ℕ → Text → Machine → Machine × Reply
protocol_common w cmd params m = on_common w cmd (proto_split params) m
