-- ===== src/Examples/Whole.antt =====
-- The whole board at concrete values: its start and commands of the host (fw/src/main.cpp).
use astro_uni_board.Base.{◌≡◌, ◌⊎◌, refl, true, false, ◌&&◌, some, [], ◌∷◌}
use astro_uni_board.Base.Int.{pos, negsuc}
use astro_uni_board.Errors.{FwError, fw_ok}
use astro_uni_board.Settings.{axis_foc, settings_defaults}
use astro_uni_board.Axis
use astro_uni_board.Rotator
use astro_uni_board.Nv.Sane.{loaded, load_settings}
use astro_uni_board.Tmc.{Tmc, driver_regs}
use astro_uni_board.Env.{Climate}
use astro_uni_board.Protocol.{Line, line, error, opens_port}
use astro_uni_board.Machine.{Machine, World, status_any_busy}
use astro_uni_board.Machine.Locked.{has_number, opened_port_locks}
use astro_uni_board.Machine.Loop.{usb_stage, handle_line}
use astro_uni_board.Machine.Actions.{
  Action, host_line, loop_focuser, loop_rotator, step_interrupt, port_check, react, history,
}
use astro_uni_board.Machine.Common.{protocol_common}
use astro_uni_board.Machine.Lifetime.{setup-IsExclusive, never_both, settings_survive}
use astro_uni_board.Machine.Owner.{OwnerStep, owner, react_refines}
use astro_uni_board.Machine.Refusals.{Untouched, busy_refuses}
use astro_uni_board.Machine.Start.{Found, power_on, setup}
use astro_uni_board.Examples.Motion.{parked, first_delay}
use astro_uni_board.Examples.Positions.{bus_up}

-- An EEPROM that has only blank slots, with the default settings saved in it.
abbrev pub empty : Found
empty = record {
  eeprom = true;
  reads = λ _. true;
  ring = [];
  record_read = loaded settings_defaults;
  regs = driver_regs settings_defaults.drv_foc;
  env_now = 5;
  env_entered = 5;
}

abbrev pub drivers_up : Tmc
drivers_up = (power_on false empty).tmc

abbrev pub bench : World
bench = record {
  now_ms = 1000;
  timer_running = false;
  timer_starts = true;
  drivers = record drivers_up { foc = record (drivers_up.foc) { answering = true } };
  ioin_foc = some 0x21000040;
  ioin_rot = some 0x21000040;
  supply_ok = true;
  bus = bus_up;
  settings_saved = true;
  imu_answering = true;
  imu_settled = true;
  imu_roll = some (pos 120);
  imu_tilt = some (pos 4500);
  imu_accel = some (pos 10, negsuc 20, pos 980);
  imu_calibrated = true;
  near_vertical = false;
  captured = true;
  finished = fw_ok;
  crystal = true;
  v12_low = false;
  mcu_temp = pos 310;
  vdda_mv = 3300;
  reset_flags = 4;
  last_mark = 3;
  watchdog_reset = false;
  uid0 = 17;
  uid1 = 0x123456;
  uid2 = 99;
}

abbrev pub some_climate : Climate
some_climate = record { t_deci = pos 215; rh_deci = 480; dew_deci = pos 99 }

-- `:32#`, `:51,9#` and `:71,4500#`
abbrev pub identify : Action
identify = host_line bench [] (line (b'3' ∷ b'2' ∷ []))

abbrev focus_to : Action
focus_to = host_line bench [] (line (b'5' ∷ b'1' ∷ b',' ∷ b'9' ∷ []))

abbrev turn_to : Action
turn_to = host_line bench [] (line (b'7' ∷ b'1' ∷ b',' ∷ b'4' ∷ b'5' ∷ b'0' ∷ b'0' ∷ []))

never_both_example :
    let m =
      history first_delay
        (λ _ _. some_climate)
        (identify ∷ focus_to ∷ step_interrupt axis_foc ∷ turn_to ∷ loop_rotator bench ∷ [])
        (setup bench empty) in
    (Axis.busy m.foc_axis && Axis.busy m.rot_axis) ≡ false
never_both_example =
    never_both first_delay (λ _ _. some_climate) bench empty
      (identify ∷ focus_to ∷ step_interrupt axis_foc ∷ turn_to ∷ loop_rotator bench ∷ [])

-- `:48,F,800,400,8,0,60#` between the two.
abbrev configure : Action
configure = host_line bench [] (
    line (
      b'4' ∷ b'8' ∷ b',' ∷ b'F' ∷ b',' ∷ b'8' ∷ b'0' ∷ b'0' ∷ b',' ∷ b'4' ∷ b'0' ∷ b'0' ∷ b','
      ∷ b'8' ∷ b',' ∷ b'0' ∷ b',' ∷ b'6' ∷ b'0' ∷ []))

settings_survive_example :
    let s =
      (history first_delay
        (λ _ _. some_climate)
        (identify ∷ configure ∷ [])
        (setup bench empty)).settings in
    load_settings (loaded s) ≡ (s, false)
settings_survive_example =
    settings_survive first_delay (λ _ _. some_climate) bench empty (identify ∷ configure ∷ [])

react_refines_example :
    OwnerStep
      (owner (setup bench empty))
      (owner (react first_delay (λ _ _. some_climate) focus_to (setup bench empty)))
react_refines_example =
    react_refines first_delay (λ _ _. some_climate) focus_to (setup bench empty)
      (setup-IsExclusive bench empty)

-- The rotator's axis moves.
abbrev turning : Machine
turning = record (power_on false empty) {
  rot_axis = record parked { motion = Axis.AxisMotion.cruise };
}

turning_busy : status_any_busy turning ≡ true
unfolding status_any_busy power_on Rotator.rotator_busy Axis.busy
turning_busy = refl

-- `:22#`, a restart.
busy_refuses_example : Untouched turning (protocol_common bench 22 [] turning).0
busy_refuses_example = busy_refuses bench 22 [] turning turning_busy

-- The board was identified; then another program opens the port, pings and tries to move.
abbrev identified_board : Machine
identified_board = history first_delay (λ _ _. some_climate) (identify ∷ []) (setup bench empty)

abbrev ping_line : Line
ping_line = line (b'2' ∷ b'5' ∷ [])

abbrev focus_line : Line
focus_line = line (b'5' ∷ b'1' ∷ b',' ∷ b'9' ∷ [])

packet : opens_port 0x21 0x22 ≡ true
unfolding opens_port
packet = refl

opened_port_locks_example :
    let opened = usb_stage 0x21 0x22 identified_board in
    let now =
      history first_delay
        (λ _ _. some_climate)
        (port_check ∷ host_line bench [] ping_line ∷ loop_focuser bench ∷ [])
        opened in
    let (m', reply) = handle_line first_delay bench [] focus_line now in
    (m' ≡ now) × ((has_number 25 focus_line ≡ true) ⊎ ((e : FwError) × (reply ≡ error e)))
opened_port_locks_example =
    opened_port_locks first_delay (λ _ _. some_climate) 0x21 0x22
      (host_line bench [] ping_line ∷ loop_focuser bench ∷ []) identified_board bench [] focus_line
      packet refl refl
