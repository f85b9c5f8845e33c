-- ===== src/Examples/Camera.antt =====
-- The rotator (fw/src/rotator.cpp) on a board with the default settings.
use astro_uni_board.Base.{inl, ◌≤◌, ◌≡◌, refl, true, false, some, arith}
use astro_uni_board.Base.Int.{ℤ, pos, negsuc, eqb_ℤ, ◌+ℤ◌, ◌-ℤ◌}
use astro_uni_board.Errors.{fw_ok}
use astro_uni_board.MoveGuard.{move_guard}
use astro_uni_board.Settings.{settings_defaults}
use astro_uni_board.Axis
use astro_uni_board.Axis.{Axis, move_to, prepared}
use astro_uni_board.Calc.{cdeg_to_steps}
use astro_uni_board.Wrap.{wrap_plan_target, wrap_reported, is_nearer, abs_dist, abs64}
use astro_uni_board.Wrap.Best.{InRange}
use astro_uni_board.Rotator.{
  check_move_end, rot_save_when_due, Rotator, Turntable, Nearby, seq_none, home_settle, spk,
  any_busy, rotator_busy, guard, driver_ok, view_of, turn, start_move, rotator_move_to,
  check_move_end, rotator_angle,
}
use astro_uni_board.Rotator.Moves.{turn_ends}
use astro_uni_board.Rotator.Sequences.{
  boot_home_when_due, rotator_update, near_zero, seq_update, when_settled, gives_up, home_step,
  next_home, set_zero_here,
}
use astro_uni_board.Rotator.Homing.{EndsHome, home_trusts, home_ends}
use astro_uni_board.Examples.Motion.{parked, first_delay}
use astro_uni_board.Examples.Positions.{bus_up, first_write}

abbrev upright : Rotator
upright = record {
  angle_idle = pos 0;
  moving = false;
  move_target = pos 0;
  halt_requested = false;
  last_complete = true;
  unverified = true;
  suspect = false;
  save_pending = false;
  idle_since_ms = 0;
  seq = seq_none;
  seq_ms = 0;
  home_moves = 0;
  cal_start = pos 0;
  boot_pending = false;
  boot_ms = 0;
}

abbrev camera : Turntable
camera = record {
  settings = settings_defaults;
  rot = upright;
  axis = record parked { position = pos 0 };
  nv = first_write;
  sticky = fw_ok;
}

abbrev calm : Nearby
calm = record {
  safe_mode = false;
  foc_busy = false;
  timer_running = false;
  timer_starts = true;
  answering = true;
  applied = false;
  supply_ok = true;
  imu_answering = true;
  imu_settled = true;
  imu_roll = some (negsuc 29);
  imu_calibrated = true;
  near_vertical = false;
  captured = true;
  finished = fw_ok;
  bus = bus_up;
  now_ms = 1000;
}

-- To 350 degrees, which is 10 degrees the other way.
accepted : (rotator_move_to first_delay calm (pos 35000) camera).1 ≡ fw_ok
unfolding rotator_move_to any_busy rotator_busy Axis.busy guard move_guard wrap_plan_target
    is_nearer abs_dist abs64 ◌+ℤ◌ ◌-ℤ◌ start_move turn cdeg_to_steps driver_ok view_of move_to
    settings_defaults
accepted = refl

goes : (rotator_move_to first_delay calm (pos 35000) camera).0.rot.moving ≡ true
unfolding rotator_move_to any_busy rotator_busy Axis.busy guard move_guard wrap_plan_target
    is_nearer abs_dist abs64 ◌+ℤ◌ ◌-ℤ◌ start_move turn cdeg_to_steps driver_ok view_of move_to
    settings_defaults
goes = refl

abbrev turned_axis : Axis
turned_axis = record parked { position = negsuc 888 }

there : turned_axis.position ≡ (rotator_move_to first_delay calm (pos 35000) camera).0.axis.target
unfolding rotator_move_to any_busy rotator_busy Axis.busy guard move_guard wrap_plan_target
    is_nearer abs_dist abs64 ◌+ℤ◌ ◌-ℤ◌ start_move turn cdeg_to_steps driver_ok view_of move_to
    prepared settings_defaults
there = refl

turn_ends_example :
    (wrap_reported (
        rotator_angle (
          check_move_end 5 (record ((rotator_move_to first_delay calm (pos 35000) camera).0) {
            axis = turned_axis;
          })))
      ≡ pos 35000)
    × InRange camera.settings.rot.wrap_min camera.settings.rot.wrap_max (
        rotator_angle (
          check_move_end 5 (record ((rotator_move_to first_delay calm (pos 35000) camera).0) {
            axis = turned_axis;
          })))
turn_ends_example =
    turn_ends first_delay calm (pos 35000) camera turned_axis 5 accepted goes refl there

abbrev doubtful : Turntable
doubtful = record camera { rot = record upright { suspect = true } }

guard_is_on : 1 ≤ doubtful.settings.rot_guard
unfolding settings_defaults
guard_is_on = omega arith

-- On the way to 90 degrees, stopped at step 100.
abbrev stalled : Turntable
stalled = record camera {
  axis = record parked { position = pos 100 };
  rot = record upright { moving = true; move_target = pos 9000 };
}

short : eqb_ℤ stalled.axis.position (cdeg_to_steps stalled.rot.move_target (spk stalled)) ≡ false
unfolding cdeg_to_steps settings_defaults
short = refl

-- After three moves of a home, with 0.3 degrees left.
abbrev homing : Turntable
homing = record camera {
  rot = record upright { suspect = true; seq = home_settle; home_moves = 3 };
}

trusted_again : (rotator_update first_delay calm homing).rot.suspect ≡ false
unfolding rotator_update rot_save_when_due boot_home_when_due check_move_end seq_update when_settled
    gives_up home_step next_home set_zero_here settings_defaults rotator_busy Axis.busy
    Axis.set_position
trusted_again = refl

home_trusts_example :
    (homing.rot.seq ≡ home_settle)
    × (calm.imu_settled ≡ true)
    × ((roll : ℤ) × (calm.imu_roll ≡ some roll)
        × (near_zero homing.settings.rot.home_tol_cdeg roll ≡ true))
    × ((rotator_update first_delay calm homing).rot.angle_idle ≡ pos 0)
home_trusts_example =
    home_trusts first_delay calm homing (inl refl) (omega arith) refl trusted_again

home_ends_example : EndsHome homing (seq_update first_delay calm homing)
home_ends_example = home_ends first_delay calm homing refl (omega arith) refl
