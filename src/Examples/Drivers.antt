-- ===== src/Examples/Drivers.antt =====
-- The motor drivers, the sensors and the LEDs at concrete values (fw/src/tmc2209.cpp, env_sht31.cpp and
-- leds.cpp).
use astro_uni_board.Base.{
  List, ◌≡◌, ◌≢◌, ◌≤◌, ◌+◌, ◌*◌, refl, true, false, none, some, [], ◌∷◌, arith,
}
use astro_uni_board.Base.Int.{pos}
use astro_uni_board.Errors.{motor_stall}
use astro_uni_board.Settings.{AxisId, axis_foc, axis_rot, DriverConfig, settings_defaults}
use astro_uni_board.Axis
use astro_uni_board.Axis.{Axis, speed_now}
use astro_uni_board.Tmc.{
  full_scale, run_of, hold_of, driver_regs, DrvState, Tmc, no_reading, st, tmc_answering,
}
use astro_uni_board.Tmc.Checks.{
  failed_read, MoveReads, stops, fresh_stats, fault_check, is_active, is_stalled, stall_check,
  watch_move,
}
use astro_uni_board.Tmc.Current.{IsLargestStep, driver_regs_current}
use astro_uni_board.Tmc.Watch.{IsStall, watch_move-IsStall}
use astro_uni_board.Tmc.Stats.{IsStats, AreStats, unsampled, watch_move-AreStats}
use astro_uni_board.Tmc.Silence.{Pass, tries, watch, StopsAtThird, silent_driver_stops}
use astro_uni_board.Env.{Climate, EnvAnswers, env_begin}
use astro_uni_board.Env.Supply.{worst, cut_count, round_count, cuts_bounded}
use astro_uni_board.Examples.Motion.{parked}

-- The focuser's defaults, with a stall threshold.
abbrev guarded : DriverConfig
guarded = record (settings_defaults.drv_foc) { stall_threshold = 50 }

driver_regs_current_example :
    let r = driver_regs guarded in
    IsLargestStep r.irun (full_scale r.vsense) (run_of guarded)
    × ((hold_of guarded ≢ 0 → IsLargestStep r.ihold (full_scale r.vsense) (hold_of guarded))
        × (hold_of guarded ≡ 0 → r.ihold ≡ 0))
    × (r.ihold ≤ r.irun)
driver_regs_current_example = driver_regs_current guarded

abbrev fresh : DrvState
fresh = record {
  answering = true;
  temp_class = pos 0;
  otpw = false;
  sg_last = no_reading;
  sg_min = no_reading;
  sg_max = no_reading;
  move_start = 700;
  fail_count = 0;
}

abbrev watching : Tmc
watching = record {
  foc = fresh;
  rot = fresh;
  foc_regs = driver_regs guarded;
  rot_regs = driver_regs guarded;
  reset_latched = false;
  started = true;
  last_sg = 900;
  last_fault = 900;
  last_idle = 900;
  idle_next = axis_foc;
}

-- At 900 steps a second since 700 ms.
abbrev cruising : Axis
cruising = record parked {
  motion = Axis.AxisMotion.cruise;
  start_ms = 700;
  ramp = record (parked.ramp) { delay_ticks = 8888 };
}

abbrev stuck : MoveReads
stuck = record { drv_status = some 0; sg_result = some 60; later = cruising }

stuck_stops : (watch_move axis_foc guarded 950 cruising stuck watching).1 ≡ stops motor_stall
unfolding watch_move fresh_stats fault_check stall_check is_active is_stalled settings_defaults
    speed_now Axis.busy
stuck_stops = refl

watch_move-IsStall_example : IsStall guarded 950 stuck
watch_move-IsStall_example =
    watch_move-IsStall axis_foc guarded 950 cruising stuck watching stuck_stops

no_samples : (axis : AxisId) → IsStats (st watching axis)
no_samples axis_foc = unsampled refl refl refl
no_samples axis_rot = unsampled refl refl refl

watching-AreStats : AreStats watching
watching-AreStats = record { of = no_samples }

watch_move-AreStats_example : AreStats (watch_move axis_foc guarded 950 cruising stuck watching).0
watch_move-AreStats_example =
    watch_move-AreStats axis_foc guarded 950 cruising stuck watching watching-AreStats

abbrev unheard : MoveReads
unheard = record { drv_status = none; sg_result = none; later = cruising }

-- The first and the last pass read the status, the second a sample, and the third nothing.
abbrev passes : List Pass
passes =
    record { now = 1000; moving = cruising; reads = unheard }
    ∷ record { now = 1005; moving = cruising; reads = unheard }
    ∷ record { now = 1010; moving = cruising; reads = unheard }
    ∷ record { now = 1100; moving = cruising; reads = unheard }
    ∷ []

three_tries : tries axis_foc guarded passes watching ≡ 3
unfolding watch_move fresh_stats fault_check stall_check failed_read
three_tries = refl

silent_driver_stops_example :
    StopsAtThird axis_foc
      (tries axis_foc guarded passes watching)
      (tmc_answering watching axis_foc)
      (watch axis_foc guarded passes watching)
silent_driver_stops_example =
    silent_driver_stops axis_foc guarded passes watching refl
      ((refl, refl, refl), ((refl, refl, refl), ((refl, refl, refl), ((refl, refl, refl), tt))))

abbrev climate : Climate
climate = record { t_deci = pos 215; rh_deci = 480; dew_deci = pos 99 }

-- No sensor answers.
abbrev nobody_at : EnvAnswers
nobody_at = record {
  now = 5000;
  entered = 5000;
  onboard_acks = false;
  external_acks = false;
  onboard_frame = none;
  external_frame = none;
}

abbrev later : EnvAnswers
later = record nobody_at { now = 5030; entered = 5030 }

cuts_bounded_example :
    3 * cut_count (λ _ _. climate) (nobody_at ∷ nobody_at ∷ later ∷ []) (env_begin 5 5)
    ≤ round_count (λ _ _. climate) (nobody_at ∷ nobody_at ∷ later ∷ []) (env_begin 5 5)
      + worst (env_begin 5 5)
unfolding env_begin
cuts_bounded_example =
    cuts_bounded (λ _ _. climate) (nobody_at ∷ nobody_at ∷ later ∷ []) (env_begin 5 5)
      (record { onboard_few = omega arith; external_few = omega arith })
