-- ===== src/Examples/Motion.antt =====
-- One axis and the step timer (fw/src/axis.cpp, fw/src/step_timer.cpp) on short moves.
use astro_uni_board.Base.{ℕ, ◌≡◌, refl, true, false, none, [], ◌∷◌, arith}
use astro_uni_board.Base.Int.{pos, ◌+ℤ◌, ◌-ℤ◌}
use astro_uni_board.Axis.{
  Axis, TimerView, idle, prepared, move_to, halt, isr_step, isr_run, count_step, after_step,
}
use astro_uni_board.Axis.Delays.{ph_accel, next_ramp}
use astro_uni_board.Axis.Moving.{IsMoving, IsStraight}
use astro_uni_board.Axis.Exact.{IsFree, Arrives, prepared-IsMoving, move_to-Arrives}
use astro_uni_board.Axis.Halt.{Halted, steps_after_halt, Between, halt_stops}
use astro_uni_board.Axis.Events.{
  interrupt, host_halt, fault_stop, loop_pass, run_events, run_events-Between,
}
use astro_uni_board.StepTimer.{Timer}

abbrev pub parked : Axis
parked = record {
  position = pos 100;
  target = pos 100;
  motion = idle;
  lead = 0;
  stopped_flag = false;
  speed = 900;
  accel_rate = 2000;
  idle_off_s = 30;
  reverse = false;
  start_ms = 0;
  ramp = record { phase = ph_accel; delay_ticks = 0; rest_ticks = 0; ramp_n = 0; decel_left = 0 };
  remain = 0;
  total = 0;
  halt_req = false;
  settle = false;
  min_delay = 0;
  dir_step = pos 1;
  dir_high = true;
  enabled = false;
  was_busy = false;
  stop_ms = 0;
  begun = true;
}

abbrev free_timer : TimerView
free_timer = record { any_busy = false; running = false; starts = true; now = 5 }

-- The float 0.676 * 8 MHz * sqrt(2 / 2000), cut.
abbrev pub first_delay : ℕ → ℕ
first_delay a = 171017

parked-IsFree : IsFree parked free_timer
parked-IsFree = record { none_busy = refl; stopped = refl; ready = refl; can_start = refl }

-- Three lead steps and eight counted ones, downwards, after the driver was enabled.
move_to-Arrives_example :
    ((move_to first_delay parked free_timer (pos 92) 3).1 ≡ true)
    × ((move_to first_delay parked free_timer (pos 92) 3).0.target ≡ pos 92)
    × Arrives (move_to first_delay parked free_timer (pos 92) 3).0 12
unfolding ◌-ℤ◌
move_to-Arrives_example =
    move_to-Arrives first_delay parked free_timer (pos 92) 3 parked-IsFree (omega arith)
      (omega arith)

abbrev started : Axis
started = prepared first_delay parked free_timer (pos 400) 0

started-IsMoving : IsMoving started
unfolding ◌-ℤ◌
started-IsMoving =
    (prepared-IsMoving first_delay parked free_timer (pos 400) 0 (omega arith) (omega arith)).0

-- Six interrupts in, the axis stands at 105; halted there it stops seven steps on.
halted_run : (isr_run 20 (halt (isr_run 6 started))).position ≡ pos 112
unfolding isr_run isr_step count_step after_step next_ramp halt prepared ◌-ℤ◌ ◌+ℤ◌
halted_run = refl

midway : Axis
unfolding isr_run isr_step count_step after_step next_ramp prepared ◌-ℤ◌ ◌+ℤ◌
midway = isr_run 6 started

midway-IsMoving : IsMoving midway
unfolding midway
midway-IsMoving = ground arith

midway-IsStraight : IsStraight midway
unfolding midway
midway-IsStraight = ground arith

midway_fresh : midway.settle ≡ true → midway.remain ≡ midway.total
unfolding midway
midway_fresh h = cc

halt_stops_example : Halted midway (steps_after_halt midway)
halt_stops_example = halt_stops midway midway-IsMoving midway-IsStraight midway_fresh

run_events-Between_example :
    Between started
      (run_events
        (interrupt ∷ interrupt ∷ loop_pass 7 ∷ host_halt ∷ interrupt ∷ fault_stop ∷ [])
        started).position
run_events-Between_example =
    run_events-Between
      (interrupt ∷ interrupt ∷ loop_pass 7 ∷ host_halt ∷ interrupt ∷ fault_stop ∷ []) started
      started-IsMoving

abbrev stopped_timer : Timer
stopped_timer = record {
  begun = true;
  active = none;
  wait_ticks = 0;
  arr = 65535;
  counting = false;
}
