-- ===== src/Examples/Calibration.antt =====
-- An IMU calibration on the whole board, at concrete values (fw/src/rotator.cpp).
use astro_uni_board.Base.{arith, ◌⊎◌, ℕ, zero, suc, ◌≡◌, refl, false, true, List, [], ◌∷◌, ◌++◌}
use astro_uni_board.Base.Int.{◌≤ℤ◌, pos, neg, ◌+ℤ◌, ◌-ℤ◌}
use astro_uni_board.Settings.{axis_rot, settings_defaults}
use astro_uni_board.Rotator
use astro_uni_board.Rotator.Course.{course, waits_at}
use astro_uni_board.Protocol.{line, route, proto_split, proto_int32}
use astro_uni_board.Tmc.{tmc_apply}
use astro_uni_board.Machine.{table_of, Machine, World, status_any_busy, nearby}
use astro_uni_board.Machine.Actions.{
  Action, host_line, loop_rotator, step_interrupt, history, react,
}
use astro_uni_board.Machine.Turning.Reached.{within_wrap}
use astro_uni_board.Machine.Calibrating.{captures_in_place}
use astro_uni_board.Machine.Drivers.{apply_axis, rescale_axis, reset_defaults, set_brightness}
use astro_uni_board.Machine.Start.{tmc_begin, setup, nv_started, power_on}
use astro_uni_board.Machine.Loop.{rotator_pass, handle_line, dispatch}
use astro_uni_board.Rotator.Sequences.{
  rotator_update, boot_home_when_due, seq_update, rotator_begin, rotator_apply_settings,
  rotator_imu_calibrate, begin_settle, when_settled, gives_up, cal_step, when_moved,
}
use astro_uni_board.Rotator.{
  rot_save_when_due, check_move_end, rotator_busy, any_busy, rotator_sync, guard, driver_ok,
  start_move, turn, view_of, end_move,
}
use astro_uni_board.Machine.Common.{protocol_common, common_command, cmd_identify}
use astro_uni_board.Machine.EnvBlock.{protocol_env, env_command, cmd_calibrate}
use astro_uni_board.Axis.{
  busy, set_idle_off, set_reverse, set_accel, set_speed, set_position, update, move_to, prepared,
  isr_step, after_step, count_step,
}
use astro_uni_board.Focuser.{focuser_begin, focuser_apply_settings}
use astro_uni_board.Protocol.RotatorBlock.{
  protocol_rotator, rotator_command, rotator_setting, set_spk,
}
use astro_uni_board.Nv.Sane.{load_settings, settings_sane, driver_sane}
use astro_uni_board.MoveGuard.{move_guard}
use astro_uni_board.Calc.{cdeg_to_steps, rate_to_steps}
use astro_uni_board.Axis.Events.{apply}
use astro_uni_board.Axis.Delays.{next_ramp}
use astro_uni_board.Examples.Motion.{first_delay}
use astro_uni_board.Examples.Whole.{bench, empty, some_climate, drivers_up, identify}

-- Both drivers answer.
abbrev studio : World
studio = record bench {
  drivers = record drivers_up {
    foc = record (drivers_up.foc) { answering = true };
    rot = record (drivers_up.rot) { answering = true };
  };
}

-- `:76,0#`, `:85,1000#` and `:95#`: a step is a degree.
abbrev commands : List Action
commands =
    identify
    ∷ host_line studio [] (line (b'7' ∷ b'6' ∷ b',' ∷ b'0' ∷ []))
    ∷ host_line studio [] (line (b'8' ∷ b'5' ∷ b',' ∷ b'1' ∷ b'0' ∷ b'0' ∷ b'0' ∷ []))
    ∷ host_line studio [] (line (b'9' ∷ b'5' ∷ []))
    ∷ loop_rotator studio
    ∷ []

abbrev interrupts : ℕ → List Action
interrupts zero = []
interrupts (suc n) = step_interrupt axis_rot ∷ interrupts n

abbrev quarter : List Action
quarter = commands ++ interrupts 100

abbrev started : Machine
started = setup studio empty

-- The motor has made its steps, and the next pass sees it.
abbrev stepped : Machine
stepped = history first_delay (λ _ _. some_climate) quarter started

abbrev later : Machine
later = rotator_pass first_delay studio stepped

-- The first quarter turn is under way.
abbrev under_way : Machine
under_way = history first_delay (λ _ _. some_climate) commands started

both_reached :
    (rotator_busy (table_of started) ≡ false)
    × (under_way.rot.moving ≡ true)
    × (stepped.rot.moving ≡ true)
    × (course later.rot.seq ≡ waits_at 9000)
unfolding history setup react rotator_pass rotator_update rot_save_when_due boot_home_when_due
    seq_update check_move_end handle_line dispatch route set_brightness nv_started power_on
    protocol_common proto_split common_command cmd_identify protocol_env env_command cmd_calibrate
    status_any_busy busy focuser_begin focuser_apply_settings set_idle_off set_reverse set_accel
    set_speed set_position rotator_busy protocol_rotator rotator_command rotator_setting proto_int32
    set_spk any_busy nearby rotator_sync rotator_begin rotator_apply_settings load_settings
    settings_sane driver_sane settings_defaults rotator_imu_calibrate guard move_guard ◌+ℤ◌
    driver_ok begin_settle when_settled gives_up cal_step start_move update cdeg_to_steps turn
    move_to view_of ◌-ℤ◌ apply prepared isr_step after_step count_step next_ramp rate_to_steps
    end_move when_moved
both_reached = (refl, refl, refl, refl)

captures_in_place_example :
    (later.rot.moving ≡ false)
    × (later.rot.angle_idle ≡ later.rot.cal_start +ℤ pos 9000)
    × (busy later.rot_axis ≡ false)
    × (later.rot_axis.position
        ≡ cdeg_to_steps later.rot.angle_idle later.settings.rot.steps_per_1000_deg)
unfolding setup rotator_begin rotator_apply_settings
captures_in_place_example =
    captures_in_place first_delay (λ _ _. some_climate) quarter studio started 9000 refl
      both_reached.2 both_reached.3

within_wrap_example :
    let s = under_way.settings.rot in
    let t = under_way.rot.move_target in
    (t ≤ℤ s.wrap_max) × ((s.wrap_min ≤ℤ t) ⊎ (under_way.rot.cal_start ≤ℤ t))
unfolding setup rotator_begin rotator_apply_settings settings_defaults load_settings settings_sane
    driver_sane nv_started power_on set_brightness focuser_begin focuser_apply_settings
within_wrap_example =
    within_wrap first_delay (λ _ _. some_climate) commands started both_reached.0 (omega arith)
      both_reached.1

-- `:24#` restores the range -18000..18000 also where the angle is outside it, as after
-- `:75,-36000,0#` and a turn to -30000. A calibration then turns to -21000, below the range.
abbrev far : Machine
far = record started {
  settings = record (started.settings) {
    rot = record (started.settings.rot) { wrap_min = neg 36000; wrap_max = pos 0 };
  };
  rot = record (started.rot) { angle_idle = neg 30000; suspect = false };
}

abbrev restored : Machine
restored = reset_defaults studio far

abbrev turning_below : Rotator.Turntable
turning_below =
    rotator_update first_delay (nearby studio restored)
      (rotator_imu_calibrate (nearby studio restored) (table_of restored)).0

below_range :
    (turning_below.rot.move_target ≡ neg 21000) × (turning_below.settings.rot.wrap_min ≡ neg 18000)
unfolding reset_defaults apply_axis rescale_axis tmc_apply tmc_begin setup rotator_update
    rot_save_when_due boot_home_when_due seq_update check_move_end set_brightness nv_started
    power_on busy focuser_begin focuser_apply_settings set_idle_off set_reverse set_accel set_speed
    set_position rotator_busy any_busy nearby rotator_begin rotator_apply_settings load_settings
    settings_sane driver_sane settings_defaults rotator_imu_calibrate guard move_guard ◌+ℤ◌
    driver_ok begin_settle when_settled gives_up cal_step start_move update cdeg_to_steps turn
    move_to view_of ◌-ℤ◌ prepared next_ramp rate_to_steps
below_range = (refl, refl)
