-- ===== src/Rotator/Sequences.antt =====
-- IMU home (`:77`) and IMU zero calibration (`:95`) of fw/src/rotator.cpp: state machines that
-- `rotatorUpdate` runs, and the whole of that function.
use astro_uni_board.Base.{
  ℕ, ◌+◌, ◌*◌, ◌%◌, Bool, true, false, not, ◌&&◌, ◌||◌, none, some, ltb, leb, ◌==◌, if◌then◌else◌,
}
use astro_uni_board.Base.Int.{ℤ, pos, neg, ◌+ℤ◌, ◌-ℤ◌, ltb_ℤ, leb_ℤ, eqb_ℤ}
use astro_uni_board.Base.Word.{sub32}
use astro_uni_board.Errors.{
  FwError, fw_ok, bad_param, busy, motor_driver, sensor, not_calibrated, imu_vertical, home_timeout,
  calib_failed, eeprom, is_ok,
}
use astro_uni_board.Axis
use astro_uni_board.Axis.{stop_now, set_position, set_speed, set_accel, set_reverse, set_idle_off}
use astro_uni_board.Calc.{cdeg_to_steps, rate_to_steps, rescale_spk, plan_home, plan_correction}
use astro_uni_board.Nv.Store.{load_positions}
use astro_uni_board.Rotator.{
  Turntable, Nearby, Seq, seq_none, home_settle, home_move, cal_settle0, cal_move90, cal_settle90,
  cal_move180, cal_settle180, cal_moveback, spk, raise, schedule_save, rotator_busy, any_busy,
  driver_ok, guard, start_move, check_move_end, rot_save_when_due,
}

abbrev pub home_max_passes : ℕ
home_max_passes = 3

abbrev pub imu_settle_timeout_ms : ℕ
imu_settle_timeout_ms = 5000

abbrev pub boot_home_delay_ms : ℕ
boot_home_delay_ms = 3000

abbrev pub cal_step_cdeg : ℕ
cal_step_cdeg = 9000

abbrev pub to_seq : Seq → Turntable → Turntable
to_seq s b = record b { rot = record (b.rot) { seq = s } }

unfoldable pub set_zero_here : ℕ → Turntable → Turntable
set_zero_here now b = schedule_save now (record b {
  axis = set_position b.axis (pos 0);
  rot = record (b.rot) { angle_idle = pos 0; unverified = false; suspect = false };
})

unfoldable pub abort_seq : FwError → Turntable → Turntable
abort_seq err b =
    let quiet = to_seq seq_none b in
    let stopped : Turntable = record b {
      axis = stop_now b.axis;
      rot = record (b.rot) { seq = seq_none; halt_requested = true };
    } in
    raise err (if Axis.busy b.axis then stopped else quiet)

abbrev pub seq_error : Seq → FwError
seq_error home_settle = home_timeout
seq_error home_move = home_timeout
seq_error _ = calib_failed

-- `settled` gives up, or says whether the IMU has settled.
unfoldable pub gives_up : Nearby → Turntable → Bool
gives_up w b =
    not w.imu_answering
    || (not w.imu_settled && ltb imu_settle_timeout_ms (sub32 w.now_ms b.rot.seq_ms))

unfoldable pub when_settled : Nearby → (Turntable → Turntable) → Turntable → Turntable
when_settled w next b =
    let after = next b in
    if gives_up w b then abort_seq (seq_error b.rot.seq) b else if w.imu_settled then after else b

unfoldable pub begin_settle : Nearby → Seq → Turntable → Turntable
begin_settle w next b = record b { rot = record (b.rot) { seq_ms = w.now_ms; seq = next } }

-- `err == FW_OK || err == FW_ERR_EEPROM`
abbrev pub keeps_cal : FwError → Bool
keeps_cal fw_ok = true
keeps_cal eeprom = true
keeps_cal _ = false

abbrev pub cal_fault : FwError → FwError
cal_fault imu_vertical = calib_failed
cal_fault code = code

-- Within the tolerance.
abbrev pub near_zero : ℕ → ℤ → Bool
near_zero tol d = leb_ℤ (neg tol) d && leb_ℤ d (pos tol)

module _ (first_delay : ℕ → ℕ) where
  -- A homing move to `target`, counted as a pass.
  unfoldable pub home_to : Nearby → ℤ → Turntable → Turntable
  home_to w target b =
      let (c, e) = start_move first_delay w target b in
      if is_ok e
      then record c {
        rot = record (c.rot) { home_moves = (c.rot.home_moves + 1) % 256; seq = home_move };
      }
      else abort_seq home_timeout c

  -- The first pass goes to the planned IMU zero.
  unfoldable pub first_home : Nearby → ℤ → Turntable → Turntable
  first_home w roll b =
      let r = b.settings.rot in
      elim (plan_home b.rot.angle_idle roll r.wrap_min r.wrap_max) [
        | none ↦ abort_seq home_timeout b
        | some t ↦
            if near_zero r.home_tol_cdeg (t -ℤ b.rot.angle_idle)
            then set_zero_here w.now_ms (to_seq seq_none b)
            else home_to w t b
      ]

  -- The later ones correct by the roll that is left.
  unfoldable pub next_home : Nearby → ℤ → Turntable → Turntable
  next_home w roll b =
      let r = b.settings.rot in
      let t = plan_correction b.rot.angle_idle roll r.wrap_min r.wrap_max in
      if near_zero r.home_tol_cdeg roll
      then set_zero_here w.now_ms (to_seq seq_none b)
      else if leb home_max_passes b.rot.home_moves
      then abort_seq home_timeout b
      else if eqb_ℤ t b.rot.angle_idle
      then abort_seq home_timeout b
      else home_to w t b

  unfoldable pub home_step : Nearby → Turntable → Turntable
  home_step w b = elim (w.imu_roll) [
    | none ↦ abort_seq home_timeout b
    | some roll ↦ if b.rot.home_moves == 0 then first_home w roll b else next_home w roll b
  ]

  -- A capture, and the move to the next orientation.
  unfoldable pub cal_step : Nearby → ℤ → Seq → Turntable → Turntable
  cal_step w target next b =
      let (c, e) = start_move first_delay w target b in
      if not w.captured
      then abort_seq calib_failed b
      else if is_ok e
      then to_seq next c
      else abort_seq calib_failed c

  -- The end of a calibration: one that is only not saved is in use too.
  unfoldable pub cal_end : Nearby → Turntable → Turntable
  cal_end w b =
      let quiet = to_seq seq_none b in
      let code = w.finished in
      let zeroed = if keeps_cal code then set_zero_here w.now_ms quiet else quiet in
      if is_ok code then zeroed else raise (cal_fault code) zeroed

  -- A state that waits for a move.
  unfoldable pub when_moved : (Turntable → Turntable) → Turntable → Turntable
  when_moved next b =
      let after = next b in
      if b.rot.moving
      then b
      else if not b.rot.last_complete
      then abort_seq (seq_error b.rot.seq) b
      else after

  abbrev pub run_seq : Seq → Nearby → Turntable → Turntable
  run_seq seq_none w b = b
  run_seq home_settle w b = when_settled w (home_step w) b
  run_seq cal_settle0 w b =
      when_settled w (cal_step w (b.rot.cal_start +ℤ pos cal_step_cdeg) cal_move90) b
  run_seq cal_settle90 w b =
      when_settled w (cal_step w (b.rot.cal_start +ℤ pos (2 * cal_step_cdeg)) cal_move180) b
  run_seq cal_settle180 w b = when_settled w (cal_step w b.rot.cal_start cal_moveback) b
  run_seq home_move w b = when_moved (begin_settle w home_settle) b
  run_seq cal_move90 w b = when_moved (begin_settle w cal_settle90) b
  run_seq cal_move180 w b = when_moved (begin_settle w cal_settle180) b
  run_seq cal_moveback w b = when_moved (cal_end w) b

  unfoldable pub seq_update : Nearby → Turntable → Turntable
  seq_update w b = run_seq b.rot.seq w b

unfoldable pub rotator_imu_home : Nearby → Turntable → Turntable × FwError
rotator_imu_home w b =
    if any_busy w b
    then (b, busy)
    else if w.safe_mode || not w.imu_answering
    then (b, sensor)
    else if not w.imu_calibrated
    then (b, not_calibrated)
    else if w.near_vertical
    then (b, imu_vertical)
    else if not (driver_ok w)
    then (raise motor_driver b, motor_driver)
    else (begin_settle w home_settle (record b { rot = record (b.rot) { home_moves = 0 } }), fw_ok)

unfoldable pub rotator_imu_calibrate : Nearby → Turntable → Turntable × FwError
rotator_imu_calibrate w b =
    let g = guard w true (pos 0) b in
    if any_busy w b
    then (b, busy)
    else if w.safe_mode || not w.imu_answering
    then (b, sensor)
    else if w.near_vertical
    then (b, imu_vertical)
    else if not (is_ok g)
    then (b, g)
    else if ltb_ℤ b.settings.rot.wrap_max (b.rot.angle_idle +ℤ pos (2 * cal_step_cdeg))
    then (b, bad_param)
    else if not (driver_ok w)
    then (raise motor_driver b, motor_driver)
    else (
      begin_settle w cal_settle0
          (record b { rot = record (b.rot) { cal_start = b.rot.angle_idle } }),
      fw_ok,
    )

-- The boot home, once its time has come.
unfoldable pub boot_home_when_due : Nearby → Turntable → Turntable
boot_home_when_due w b =
    if b.rot.boot_pending && leb boot_home_delay_ms (sub32 w.now_ms b.rot.boot_ms)
    then (rotator_imu_home w (record b { rot = record (b.rot) { boot_pending = false } })).0
    else b

unfoldable pub rotator_update : (ℕ → ℕ) → Nearby → Turntable → Turntable
rotator_update first_delay w b =
    rot_save_when_due w
      (boot_home_when_due w (seq_update first_delay w (check_move_end w.now_ms b)))

unfoldable pub rotator_apply_settings : Turntable → Turntable
rotator_apply_settings b =
    let r = b.settings.rot in
    let a =
      set_idle_off
        (set_reverse
          (set_accel (set_speed b.axis (rate_to_steps r.speed (spk b)))
            (rate_to_steps r.accel (spk b)))
          (not (r.reverse == 0)))
        b.settings.drv_rot.idle_off_s in
    record b {
      axis = if rotator_busy b then a else set_position a (cdeg_to_steps b.rot.angle_idle (spk b));
    }

unfoldable pub rotator_begin : Nearby → Turntable → Turntable
rotator_begin w b =
    let sp = load_positions b.nv.slot in
    let c = rotator_apply_settings (record b {
      rot = record (b.rot) {
        angle_idle = sp.rot_cdeg;
        unverified = true;
        suspect = not sp.rot_valid;
        moving = false;
        seq = seq_none;
        save_pending = false;
      };
    }) in
    record c {
      rot = record (c.rot) {
        boot_pending = not (b.settings.rot.boot_home == 0);
        boot_ms = w.now_ms;
      };
    }

unfoldable pub rotator_rescale : ℕ → ℕ → Turntable → Turntable
rotator_rescale o n b = rotator_apply_settings (record b {
  settings = record (b.settings) {
    rot = record (b.settings.rot) { steps_per_1000_deg = rescale_spk (spk b) o n };
  };
})
