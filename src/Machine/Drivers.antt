-- ===== src/Machine/Drivers.antt =====
-- The driver configuration of both axes as fw/src/protocol_common.cpp changes it: `:24`, `:42`, `:44` and `:48`.
use Prim.Native.Nat.{bit_and}
use astro_uni_board.Base.{
  ℕ, ◌-◌, Bool, false, not, ◌&&◌, ◌||◌, Option, none, some, List, [], ◌∷◌, ltb, ◌==◌, if◌then◌else◌,
}
use astro_uni_board.Base.Int.{ℤ, pos, negsuc, pos_part, ltb_ℤ, eqb_ℤ}
use astro_uni_board.Errors.{bad_param, busy}
use astro_uni_board.Settings.{
  AxisId, axis_foc, axis_rot, DriverMode, stealthchop, spreadcycle, DriverConfig, Settings, drv,
  settings_defaults,
}
use astro_uni_board.Axis
use astro_uni_board.Focuser.{focuser_apply_settings, focuser_rescale}
use astro_uni_board.Rotator.Sequences.{rotator_apply_settings, rotator_rescale}
use astro_uni_board.Tmc.{tmc_apply, set_stall_threshold}
use astro_uni_board.Leds.{percent_of, leds_set_brightness}
use astro_uni_board.Protocol.{Text, Reply, ok, error, reply_of, proto_int32, proto_axis}
use astro_uni_board.Machine.{
  Machine, World, board_of, put_board, table_of, put_table, status_any_busy,
}

unfoldable pub is_power_of_two : ℤ → Bool
is_power_of_two (pos n) = ltb 0 n && (bit_and n (n - 1) == 0)
is_power_of_two (negsuc n) = false

-- The rescaling reads the old settings.
unfoldable pub rescale_axis : ℕ → AxisId → ℕ → ℕ → Machine → Machine
rescale_axis now axis_foc o n m =
    if o == n then m else put_board m (focuser_rescale now o n (board_of m))
rescale_axis now axis_rot o n m =
    if o == n then m else put_table m (rotator_rescale o n (table_of m))

abbrev pub ioin_of : World → AxisId → Option ℕ
ioin_of w axis_foc = w.ioin_foc
ioin_of w axis_rot = w.ioin_rot

abbrev pub apply_to : AxisId → Machine → Machine
apply_to axis_foc m = put_board m (focuser_apply_settings (board_of m))
apply_to axis_rot m = put_table m (rotator_apply_settings (table_of m))

unfoldable pub apply_axis : World → AxisId → Machine → Machine
apply_axis w axis m =
    apply_to axis
      (record m { tmc = (tmc_apply axis (drv m.settings axis) (ioin_of w axis) m.tmc).0 })

abbrev pub put_drv : AxisId → DriverConfig → Settings → Settings
put_drv axis_foc d s = record s { drv_foc = d }
put_drv axis_rot d s = record s { drv_rot = d }

-- `ledsSetBrightness` with the setting that it writes.
unfoldable pub set_brightness : ℕ → Machine → Machine
set_brightness p m = record m {
  settings = record (m.settings) { led_brightness = percent_of p };
  leds = leds_set_brightness p m.leds;
}

-- `cmdResetDefaults`, where nothing moves.
unfoldable pub reset_defaults : World → Machine → Machine
reset_defaults w m =
    let d = settings_defaults in
    let m1 = rescale_axis w.now_ms axis_foc m.settings.drv_foc.microsteps d.drv_foc.microsteps m in
    let m2 =
      rescale_axis w.now_ms axis_rot m1.settings.drv_rot.microsteps d.drv_rot.microsteps m1 in
    let m3 = apply_axis w axis_rot (apply_axis w axis_foc (record m2 { settings = d })) in
    set_brightness m3.settings.led_brightness m3

unfoldable pub cmd_reset_defaults : World → Machine → Machine × Reply
cmd_reset_defaults w m = if status_any_busy m then (m, error busy) else (reset_defaults w m, ok)

-- The values of `:48`; an axis, and five numbers.
pub record DriverArgs : Type 0 where
  pub axis : AxisId
  pub run : ℤ
  pub hold : ℤ
  pub usteps : ℤ
  pub mode : ℤ
  pub idle_off : ℤ

abbrev numbers :
    Option AxisId → Option ℤ → Option ℤ → Option ℤ → Option ℤ → Option ℤ → Option DriverArgs
numbers (some a) (some r) (some h) (some u) (some m) (some i) =
    some (record { axis = a; run = r; hold = h; usteps = u; mode = m; idle_off = i })
numbers _ _ _ _ _ _ = none

unfoldable pub driver_args : List Text → Option DriverArgs
driver_args (a ∷ r ∷ h ∷ u ∷ m ∷ i ∷ []) =
    numbers (proto_axis a) (proto_int32 r) (proto_int32 h) (proto_int32 u) (proto_int32 m)
      (proto_int32 i)
driver_args _ = none

unfoldable pub args_refused : DriverArgs → Bool
args_refused a =
    ltb_ℤ a.run (pos 1)
    || ltb_ℤ (pos 1500) a.run
    || ltb_ℤ a.hold (pos 0)
    || ltb_ℤ a.run a.hold
    || not (is_power_of_two a.usteps)
    || ltb_ℤ (pos 256) a.usteps
    || (not (eqb_ℤ a.mode (pos 0)) && not (eqb_ℤ a.mode (pos 1)))
    || ltb_ℤ a.idle_off (pos 0)
    || ltb_ℤ (pos 3600) a.idle_off

abbrev pub mode_of : ℤ → DriverMode
mode_of m = if eqb_ℤ m (pos 0) then stealthchop else spreadcycle

unfoldable pub new_config : DriverArgs → DriverConfig → DriverConfig
new_config a d = record d {
  run_ma = pos_part a.run;
  hold_ma = pos_part a.hold;
  microsteps = pos_part a.usteps;
  mode = mode_of a.mode;
  idle_off_s = pos_part a.idle_off;
}

unfoldable pub set_driver : World → DriverArgs → Machine → Machine
set_driver w a m =
    let m1 =
      rescale_axis w.now_ms a.axis (drv m.settings a.axis).microsteps (pos_part a.usteps) m in
    apply_axis w a.axis (record m1 {
      settings = put_drv a.axis (new_config a (drv m1.settings a.axis)) (m1.settings);
    })

abbrev pub on_driver_args : World → Option DriverArgs → Machine → Machine × Reply
on_driver_args w none m = (m, error bad_param)
on_driver_args w (some a) m =
    if args_refused a
    then (m, error bad_param)
    else if status_any_busy m
    then (m, error busy)
    else (set_driver w a m, ok)

unfoldable pub cmd_set_driver : World → List Text → Machine → Machine × Reply
cmd_set_driver w vs m = on_driver_args w (driver_args vs) m

-- `:42`; `tmcSetStallThreshold` asks axisAnyBusy().
unfoldable pub set_threshold : AxisId → ℤ → Machine → Machine × Reply
set_threshold axis thr m =
    let (t, c, e) =
      set_stall_threshold axis (pos_part thr) (Axis.busy m.foc_axis || Axis.busy m.rot_axis)
        (drv m.settings axis) m.tmc in
    if ltb_ℤ thr (pos 0) || ltb_ℤ (pos 255) thr
    then (m, error bad_param)
    else if status_any_busy m
    then (m, error busy)
    else (record m { tmc = t; settings = put_drv axis c (m.settings) }, reply_of e)

abbrev pub on_threshold : Option AxisId → Option ℤ → Machine → Machine × Reply
on_threshold (some axis) (some thr) m = set_threshold axis thr m
on_threshold _ _ m = (m, error bad_param)
