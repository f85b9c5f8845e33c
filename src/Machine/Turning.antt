-- ===== src/Machine/Turning.antt =====
-- The cable-wrap range in every history of the board: the rotator's moves (fw/src/rotator.cpp) under
-- the commands of all blocks, the loop and the interrupts.
pub mod Reached
use astro_uni_board.Base.{
  ℕ, ◌≡◌, ◌≤◌, ◌⊎◌, refl, sym, ap, subst, ◌∙◌, Bool, true, false, not, List, arith, ◌==◌, ◌||◌,
  if◌then◌else◌,
}
use astro_uni_board.Base.Int.{ℤ, pos_part, ◌≤ℤ◌, ◌+ℤ◌}
use astro_uni_board.Settings.{
  AxisId, axis_foc, axis_rot, drv, Settings, DriverConfig, settings_defaults, RotatorSettings,
}
use astro_uni_board.Axis.{busy}
use astro_uni_board.Board
use astro_uni_board.Board.{Board, Around}
use astro_uni_board.Focuser.{focuser_halt, focuser_apply_settings, focuser_rescale, focuser_move_to}
use astro_uni_board.Tmc.Checks.{Verdict, goes_on, returns, stops, watch_move}
use astro_uni_board.Env.{Climate}
use astro_uni_board.Rotator.{Rotator, seq_none, rotator_busy}
use astro_uni_board.Rotator.Sequences.{rotator_apply_settings, rotator_rescale}
use astro_uni_board.Rotator.Rest.{resting}
use astro_uni_board.Rotator.Course.{course}
use astro_uni_board.Rotator.Range.{Allowed, Inside, resting-Inside}
use astro_uni_board.Rotator.Range.Commands.{
  update-Inside, calibrates-Inside, halts-Inside, rotator-Inside,
}
use astro_uni_board.Protocol.{
  Route, refuse, to_common, to_focuser, to_rotator, to_env, route, opens_port,
}
use astro_uni_board.Protocol.FocuserBlock.{
  set_max, set_foc_speed, set_foc_accel, set_backlash, set_foc_reverse, set_step_size,
}
use astro_uni_board.Protocol.FocuserCases.{FocuserKept, protocol_focuser-Kept}
use astro_uni_board.Protocol.RotatorCases.{protocol_rotator-Kept}
use astro_uni_board.Machine.{Machine, World, board_of, table_of, nearby, around, status_any_busy}
use astro_uni_board.Machine.Agree.{try_move-Agree, sync-settings, jog-settings, update-settings}
use astro_uni_board.Machine.Drivers.{
  rescale_axis, apply_axis, reset_defaults, DriverArgs, put_drv, new_config, set_driver,
  set_threshold, set_brightness,
}
use astro_uni_board.Machine.Common.{cmd_save, cmd_identify, halt_all}
use astro_uni_board.Machine.CommonCases.{CommonKept, protocol_common-Kept}
use astro_uni_board.Machine.EnvCases.{EnvKept, protocol_env-Kept}
use astro_uni_board.Machine.Quiet.{reset-Quiet, set_driver-Quiet}
use astro_uni_board.Machine.Loop.{
  DriverReads, fault_stop, obey, axis_of, watched, polled, tmc_update, dispatch, handle_line,
  focuser_pass, rotator_pass, nv_pass, env_pass, leds_pass, usb_stage, port_checked,
}
use astro_uni_board.Machine.Actions.{
  Action, host_line, loop_focuser, loop_rotator, loop_nv, loop_leds, loop_drivers, loop_env,
  step_interrupt, usb_setup, port_check, interrupted, react, history, history-kept,
}

-- The range and the rotator's variables are as before.
pub record Beside (m m' : Machine) : Type 0 where
  pub same : m'.rot ≡ m.rot
  pub range : m'.settings.rot ≡ m.settings.rot

pub choose : {m x y : Machine} (c : Bool) → Beside m x → Beside m y → Beside m (if c then x else y)
choose true p q = p
choose false p q = q

pub still : (m : Machine) → Beside m m
still m = record { same = refl; range = refl }

pub record Held (m : Machine) : Type 0 where
  pub held : Inside (table_of m)

pub Beside-Held : (m m' : Machine) → Beside m m' → Held m → Held m'
Beside-Held m m' b p = record { held = record { inside = rw (b.same, b.range) p.held.inside } }

-- The ends of the range alone.
record SameEnds (m m' : Machine) : Type 0 where
  low : m'.settings.rot.wrap_min ≡ m.settings.rot.wrap_min
  high : m'.settings.rot.wrap_max ≡ m.settings.rot.wrap_max

rescale-SameEnds :
    (now : ℕ) (axis : AxisId) (o n : ℕ) (m : Machine) → SameEnds m (rescale_axis now axis o n m)
unfolding rescale_axis focuser_rescale focuser_apply_settings rotator_rescale rotator_apply_settings
rescale-SameEnds now axis_foc o n m = record { low = ground arith; high = ground arith }
rescale-SameEnds now axis_rot o n m = record { low = ground arith; high = ground arith }

apply-SameEnds : (w : World) (axis : AxisId) (m : Machine) → SameEnds m (apply_axis w axis m)
unfolding apply_axis focuser_apply_settings rotator_apply_settings
apply-SameEnds w axis_foc m = record { low = refl; high = refl }
apply-SameEnds w axis_rot m = record { low = refl; high = refl }

put_rot : (axis : AxisId) (c : DriverConfig) (s : Settings) → (put_drv axis c s).rot ≡ s.rot
put_rot axis_foc c s = refl
put_rot axis_rot c s = refl

put-SameEnds : (w : World) (a : DriverArgs) (m : Machine) → SameEnds m (set_driver w a m)
unfolding set_driver
put-SameEnds w a m =
    let m1 =
      rescale_axis w.now_ms a.axis (drv m.settings a.axis).microsteps (pos_part a.usteps) m in
    let c = new_config a (drv m1.settings a.axis) in
    let m2 : Machine = record m1 { settings = put_drv a.axis c (m1.settings) } in
    let p =
      rescale-SameEnds w.now_ms a.axis (drv m.settings a.axis).microsteps (pos_part a.usteps) m in
    let q = apply-SameEnds w a.axis m2 in
    let e = put_rot a.axis c m1.settings in
    record {
      low = q.low ∙ ap RotatorSettings.wrap_min e ∙ p.low;
      high = q.high ∙ ap RotatorSettings.wrap_max e ∙ p.high;
    }

-- A board at rest is in its range, where the range is one.
pub resting-Held :
    (m : Machine)
    → m.settings.rot.wrap_min ≤ℤ m.settings.rot.wrap_max
    → rotator_busy (table_of m) ≡ false
    → Held m
resting-Held m o off =
    let (idle, _, quiet) = resting (table_of m) off in
    record { held = resting-Inside (table_of m) o idle (ap course quiet) }

pub free_rests : (m : Machine) → status_any_busy m ≡ false → rotator_busy (table_of m) ≡ false
unfolding status_any_busy
free_rests m free = ground (arith, free)

reset-ends :
    (w : World) (m : Machine)
    → (reset_defaults w m).settings.rot.wrap_min ≤ℤ (reset_defaults w m).settings.rot.wrap_max
unfolding reset_defaults set_brightness apply_axis focuser_apply_settings rotator_apply_settings
    settings_defaults
reset-ends w m = omega arith

pub threshold-Beside : (axis : AxisId) (v : ℤ) (m : Machine) → Beside m (set_threshold axis v m).0
unfolding set_threshold
threshold-Beside axis_foc v m = record { same = ground arith; range = ground arith }
threshold-Beside axis_rot v m = record { same = ground arith; range = ground arith }

pub common-Held : (w : World) (m : Machine) → Held m → CommonKept Held w m
unfolding cmd_save cmd_identify set_brightness halt_all focuser_halt
common-Held w m p = record {
  stays = p;
  reboots = λ how free. Beside-Held m _ (record { same = refl; range = refl }) p;
  saves = Beside-Held m _ (record { same = refl; range = refl }) p;
  resets = λ free.
      resting-Held (reset_defaults w m) (reset-ends w m)
        ((reset-Quiet w m).rot_rests (free_rests m free));
  halts = record {
    held = record { inside = (halts-Inside (nearby w m) (table_of m) p.held).inside };
  };
  identifies = Beside-Held m _ (record { same = refl; range = refl }) p;
  clears = Beside-Held m _ (record { same = refl; range = refl }) p;
  thresholds = λ axis v. Beside-Held m _ (threshold-Beside axis v m) p;
  dims = λ n free. Beside-Held m _ (record { same = refl; range = refl }) p;
  drives = λ a fine free.
      let e = put-SameEnds w a m in
      resting-Held (set_driver w a m) (rw (e.low, e.high) p.held.inside.ordered)
        ((set_driver-Quiet w a m).rot_rests (free_rests m free));
}

pub env-Held : (w : World) (m : Machine) → Held m → EnvKept Held w m
env-Held w m p = record {
  stays = p;
  selects = λ v small. Beside-Held m _ (record { same = refl; range = refl }) p;
  guards = λ v small. Beside-Held m _ (record { same = refl; range = refl }) p;
  calibrates = λ free. record {
    held = record { inside = (calibrates-Inside (nearby w m) (table_of m) p.held).answered.inside };
  };
}

-- No focuser command touches the range.
pub focuser-range :
    (first_delay : ℕ → ℕ) (w : Around) (b : Board)
    → FocuserKept first_delay (λ c. c.settings.rot ≡ b.settings.rot) w b
unfolding focuser_move_to focuser_halt set_max set_foc_speed set_foc_accel set_backlash
    set_foc_reverse set_step_size focuser_apply_settings
focuser-range first_delay w b = record {
  stays = refl;
  moves = λ v. ap Settings.rot (try_move-Agree first_delay w v true b);
  jogs = λ v. ap Settings.rot (jog-settings first_delay w v b);
  halts = refl;
  syncs = λ v. ap Settings.rot (sync-settings w v b);
  limits = λ v l h. ground arith;
  speeds = λ v. refl;
  accels = λ v. refl;
  backlashes = λ v l h. refl;
  reverses = λ v. ground arith;
  sizes = λ v. refl;
}

obeyed : (axis : AxisId) (v : Verdict) (m : Machine) → Beside m (obey axis v m)
unfolding fault_stop
obeyed axis goes_on m = still m
obeyed axis returns m = still m
obeyed axis_foc (stops code) m = record { same = refl; range = refl }
obeyed axis_rot (stops code) m = record { same = refl; range = refl }

watches :
    (w : World) (r : DriverReads) (axis : AxisId) (m : Machine) → Beside m (watched w r axis m)
unfolding watched
watches w r axis m =
    let p = watch_move axis (drv m.settings axis) w.now_ms (axis_of m axis) r.during_move m.tmc in
    let q = obeyed axis p.1 (record m { tmc = record (p.0) { last_idle = w.now_ms } }) in
    record { same = q.same; range = q.range }

polls : (w : World) (r : DriverReads) (m : Machine) → Beside m (polled w r m)
unfolding polled
polls w r m = record { same = refl; range = refl }

pub tmc_update-Beside : (w : World) (r : DriverReads) (m : Machine) → Beside m (tmc_update w r m)
unfolding tmc_update
tmc_update-Beside w r m = choose (not m.tmc.started) (still m) (
    choose (busy m.foc_axis) (watches w r axis_foc m)
      (choose (busy m.rot_axis) (watches w r axis_rot m) (polls w r m)))

pub nv_pass-Beside : (w : World) (m : Machine) → Beside m (nv_pass w m)
unfolding nv_pass Board.put_nv
nv_pass-Beside w m = choose m.safe (still m) (record { same = refl; range = refl })

pub focuser_pass-Beside : (w : World) (m : Machine) → Beside m (focuser_pass w m)
unfolding focuser_pass
focuser_pass-Beside w m = record { same = refl; range = ap Settings.rot (update-settings _ _) }

pub interrupted-Beside : (axis : AxisId) (m : Machine) → Beside m (interrupted axis m)
interrupted-Beside axis_foc m = record { same = refl; range = refl }
interrupted-Beside axis_rot m = record { same = refl; range = refl }
