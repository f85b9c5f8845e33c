-- ===== src/Rotator.antt =====
-- fw/src/rotator.cpp: the rotator on its axis. The IMU, the driver, the supply and the focuser are
-- answers of the surroundings.
pub mod Moves
pub mod Sequences
pub mod Homing
pub mod Rest
pub mod Fixed
pub mod Course
pub mod Range
use astro_uni_board.Base.{
  ℕ, suc, ◌+◌, ◌*◌, Bool, true, false, not, ◌&&◌, ◌||◌, Option, none, some, ltb, leb, ◌==◌,
  if◌then◌else◌,
}
use astro_uni_board.Base.Int.{ℤ, pos, neg, ◌+ℤ◌, ◌-ℤ◌, ltb_ℤ, leb_ℤ, eqb_ℤ}
use astro_uni_board.Base.Word.{sub32}
use astro_uni_board.Errors.{
  FwError, fw_ok, bad_param, busy, motor_driver, sensor, not_calibrated, imu_vertical, home_timeout,
  calib_failed, eeprom, is_ok,
}
use astro_uni_board.MoveGuard.{MoveGuardIn, move_guard, safe_jog_rot_cdeg}
use astro_uni_board.Settings.{axis_rot, Settings, RotatorSettings}
use astro_uni_board.Axis
use astro_uni_board.Axis.{
  Axis, TimerView, move_to, set_position, set_speed, set_accel, set_reverse, set_idle_off, stop_now,
}
use astro_uni_board.Calc.{
  cdeg_to_steps, steps_to_cdeg, rate_to_steps, rescale_spk, plan_home, plan_correction,
}
use astro_uni_board.Wrap.{wrap_plan_target}
use astro_uni_board.Nv.Store.{
  Bus, Nv, SavedPositions, nv_mark_moving, nv_save_position, load_positions,
}
use astro_uni_board.Board.{status_raise}

pub data Seq : Type 0 where
  seq_none home_settle home_move cal_settle0 cal_move90 cal_settle90 cal_move180 : Seq
  cal_settle180 cal_moveback : Seq

-- The static variables.
pub record Rotator : Type 0 where
  pub angle_idle : ℤ
  pub moving : Bool
  pub move_target : ℤ
  pub halt_requested : Bool
  pub last_complete : Bool
  pub unverified : Bool
  pub suspect : Bool
  pub save_pending : Bool
  pub idle_since_ms : ℕ
  pub seq : Seq
  pub seq_ms : ℕ
  pub home_moves : ℕ
  pub cal_start : ℤ
  pub boot_pending : Bool
  pub boot_ms : ℕ

pub record Turntable : Type 0 where
  pub settings : Settings
  pub rot : Rotator
  pub axis : Axis  -- axisRot
  pub nv : Nv
  pub sticky : FwError

-- What the other parts answer during a call.
pub record Nearby : Type 0 where
  pub safe_mode : Bool  -- statusSafeMode()
  pub foc_busy : Bool  -- focuserBusy()
  pub timer_running : Bool
  pub timer_starts : Bool
  pub answering : Bool  -- tmcAnswering(AXIS_ROT)
  pub applied : Bool  -- tmcApply(AXIS_ROT), where it is called
  pub supply_ok : Bool  -- hkMotorSupplyOk()
  pub imu_answering : Bool
  pub imu_settled : Bool
  pub imu_roll : Option ℤ  -- imuRollCdeg(); `none` is IMU_INVALID
  pub imu_calibrated : Bool
  pub near_vertical : Bool
  pub captured : Bool  -- imuCalCaptureG0(), G90() or G180(), where it is called
  pub finished : FwError  -- imuCalFinish(), where it is called
  pub bus : Bus
  pub now_ms : ℕ

abbrev pub spk : Turntable → ℕ
spk b = b.settings.rot.steps_per_1000_deg

abbrev pub put_nv : Turntable → Nv × Bool → Turntable
put_nv b r = record b { nv = r.0; sticky = if r.1 then status_raise b.sticky eeprom else b.sticky }

abbrev pub raise : FwError → Turntable → Turntable
raise code b = record b { sticky = status_raise b.sticky code }

abbrev pub schedule_save : ℕ → Turntable → Turntable
schedule_save now b = record b { rot = record (b.rot) { save_pending = true; idle_since_ms = now } }

abbrev pub seq_runs : Seq → Bool
seq_runs seq_none = false
seq_runs _ = true

unfoldable pub rotator_busy : Turntable → Bool
rotator_busy b = b.rot.moving || Axis.busy b.axis || seq_runs b.rot.seq

unfoldable pub any_busy : Nearby → Turntable → Bool
any_busy w b = w.foc_busy || rotator_busy b

-- The test of `driverReady`, which raises the fault where it fails.
unfoldable pub driver_ok : Nearby → Bool
driver_ok w = (w.answering || w.applied) && w.supply_ok

-- `focuserBusy()` is `axisFoc.busy()`.
unfoldable pub view_of : Nearby → Turntable → TimerView
view_of w b = record {
  any_busy = w.foc_busy || Axis.busy b.axis;
  running = w.timer_running;
  starts = w.timer_starts;
  now = w.now_ms;
}

unfoldable pub guard : Nearby → Bool → ℤ → Turntable → FwError
guard w absolute delta b = move_guard (record {
  safe_mode = w.safe_mode;
  suspect = b.rot.suspect;
  guard_on = not (b.settings.rot_guard == 0);
  absolute = absolute;
  delta = delta;
  jog_limit = safe_jog_rot_cdeg;
})

-- A target in the microstep where the axis stands.
unfoldable pub arrive_at_once : Nearby → ℤ → Turntable → Turntable
arrive_at_once w goal b =
    let b' : Turntable =
      if eqb_ℤ goal b.rot.angle_idle
      then b
      else schedule_save w.now_ms (record b { rot = record (b.rot) { angle_idle = goal } }) in
    record b' { rot = record (b'.rot) { last_complete = true } }

module _ (first_delay : ℕ → ℕ) where
  -- The end of `startMove`, from the mark in the store on.
  unfoldable pub turn : Nearby → ℤ → Turntable → Turntable × FwError
  turn w goal b =
      let marked = put_nv b (nv_mark_moving w.bus b.settings.drv_foc.microsteps axis_rot b.nv) in
      let (a, ok) = move_to first_delay b.axis (view_of w b) (cdeg_to_steps goal (spk b)) 0 in
      if ok
      then (
        record marked {
          axis = a;
          rot = record (b.rot) {
            moving = true;
            move_target = goal;
            halt_requested = false;
            save_pending = false;
          };
        },
        fw_ok,
      )
      else (record marked { axis = a }, busy)

  unfoldable pub start_move : Nearby → ℤ → Turntable → Turntable × FwError
  start_move w goal b =
      if Axis.busy b.axis
      then (b, busy)
      else if eqb_ℤ (cdeg_to_steps goal (spk b)) b.axis.position
      then (arrive_at_once w goal b, fw_ok)
      else if not (driver_ok w)
      then (raise motor_driver b, motor_driver)
      else turn w goal b

  unfoldable pub rotator_move_to : Nearby → ℤ → Turntable → Turntable × FwError
  rotator_move_to w goal b =
      let g = guard w true (pos 0) b in
      let r = b.settings.rot in
      if ltb_ℤ goal (pos 0) || ltb_ℤ (pos 35999) goal
      then (b, bad_param)
      else if any_busy w b
      then (b, busy)
      else if not (is_ok g)
      then (b, g)
      else elim (wrap_plan_target b.rot.angle_idle goal r.wrap_min r.wrap_max) [
        | none ↦ (b, bad_param)
        | some t ↦ start_move w t b
      ]

  unfoldable pub rotator_move_by : Nearby → ℤ → Turntable → Turntable × FwError
  rotator_move_by w delta b =
      let g = guard w false delta b in
      let t = b.rot.angle_idle +ℤ delta in
      if any_busy w b
      then (b, busy)
      else if not (is_ok g)
      then (b, g)
      else if ltb_ℤ t b.settings.rot.wrap_min || ltb_ℤ b.settings.rot.wrap_max t
      then (b, bad_param)
      else start_move w t b

-- `checkMoveEnd`, where the move has ended.
unfoldable pub end_move : ℕ → Turntable → Turntable
end_move now b =
    let complete = eqb_ℤ b.axis.position (cdeg_to_steps b.rot.move_target (spk b)) in
    let lost = not complete && not b.rot.halt_requested in
    record b {
      rot = record (b.rot) {
        moving = false;
        last_complete = complete;
        angle_idle = if complete then b.rot.move_target else steps_to_cdeg b.axis.position (spk b);
        unverified = lost || b.rot.unverified;
        suspect = lost || b.rot.suspect;
        halt_requested = false;
        save_pending = true;
        idle_since_ms = now;
      };
    }

unfoldable pub check_move_end : ℕ → Turntable → Turntable
check_move_end now b = if not b.rot.moving || Axis.busy b.axis then b else end_move now b

unfoldable pub rotator_halt : Turntable → Turntable
rotator_halt b = record b {
  axis = Axis.halt b.axis;
  rot = record (b.rot) { seq = seq_none; halt_requested = b.rot.moving || b.rot.halt_requested };
}

unfoldable pub rotator_sync : Nearby → ℤ → Turntable → Turntable × FwError
rotator_sync w angle b =
    if ltb_ℤ angle b.settings.rot.wrap_min || ltb_ℤ b.settings.rot.wrap_max angle
    then (b, bad_param)
    else if any_busy w b
    then (b, busy)
    else (
      schedule_save w.now_ms (record b {
        axis = set_position b.axis (cdeg_to_steps angle (spk b));
        rot = record (b.rot) { angle_idle = angle; unverified = false; suspect = false };
      }),
      fw_ok,
    )

unfoldable pub rotator_angle : Turntable → ℤ
rotator_angle b = if b.rot.moving then steps_to_cdeg b.axis.position (spk b) else b.rot.angle_idle

-- The save at the end of `rotatorUpdate`.
unfoldable pub rot_save_when_due : Nearby → Turntable → Turntable
rot_save_when_due w b =
    let b' : Turntable =
      put_nv (record b { rot = record (b.rot) { save_pending = false } })
        (nv_save_position w.bus b.settings.drv_foc.microsteps axis_rot b.rot.angle_idle
          (not b.rot.suspect) b.nv) in
    if b.rot.save_pending && not (rotator_busy b) && leb 2000 (sub32 w.now_ms b.rot.idle_since_ms)
    then b'
    else b
