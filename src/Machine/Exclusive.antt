-- ===== src/Machine/Exclusive.antt =====
-- The two motors share one step timer, so that they must never move at the same time.
use astro_uni_board.Base.{ℕ, ◌≡◌, refl, true, false, not, ◌&&◌, List, arith, Bool-cases, inl, inr}
use astro_uni_board.Base.Int.{ℤ}
use astro_uni_board.Errors.{FwError}
use astro_uni_board.Settings.{AxisId, axis_foc, axis_rot, drv}
use astro_uni_board.Axis
use astro_uni_board.Axis.{Axis, busy}
use astro_uni_board.Axis.Events.{apply, interrupt}
use astro_uni_board.Axis.Rest.{update-StaysIdle}
use astro_uni_board.Board
use astro_uni_board.Focuser.Rest as FocuserRest
use astro_uni_board.Rotator.{rotator_busy}
use astro_uni_board.Rotator.Sequences.{rotator_imu_calibrate}
use astro_uni_board.Rotator.Rest as RotatorRest
use astro_uni_board.Tmc.Checks.{Verdict, goes_on, returns, stops, watch_move}
use astro_uni_board.Env.{Climate}
use astro_uni_board.Protocol.{
  Route, refuse, to_common, to_focuser, to_rotator, to_env, route, opens_port,
}
use astro_uni_board.Protocol.FocuserCases.{protocol_focuser-Kept}
use astro_uni_board.Protocol.RotatorCases.{protocol_rotator-Kept}
use astro_uni_board.Machine.{
  Machine, World, board_of, table_of, put_table, around, nearby, status_any_busy,
}
use astro_uni_board.Machine.Common.{cmd_save, cmd_identify}
use astro_uni_board.Machine.Drivers.{set_brightness}
use astro_uni_board.Machine.CommonCases.{CommonKept, protocol_common-Kept}
use astro_uni_board.Machine.EnvCases.{EnvKept, protocol_env-Kept}
use astro_uni_board.Machine.Loop.{
  DriverReads, fault_stop, obey, axis_of, watched, polled, tmc_update, dispatch, handle_line,
  focuser_pass, rotator_pass, nv_pass, env_pass, leds_pass, usb_stage, port_checked,
}
use astro_uni_board.Machine.Quiet.{
  Quiet, same-Quiet, then-Quiet, choose-Quiet, beside-Quiet, reset-Quiet, set_driver-Quiet,
  set_threshold-Quiet, halt_all-Quiet,
}
use astro_uni_board.Machine.Actions.{
  Action, host_line, loop_focuser, loop_rotator, loop_nv, loop_leds, loop_drivers, loop_env,
  step_interrupt, usb_setup, port_check, interrupted, react, history, history-kept,
}

-- While the focuser's axis is busy, the rotator rests: its axis is idle, no move of it waits for its
-- end, and no homing or calibration runs.
pub record IsExclusive (m : Machine) : Type 0 where
  pub one_moves : (busy m.foc_axis && rotator_busy (table_of m)) ≡ false

-- A change after which neither part is busy that was not, is safe.
Quiet-IsExclusive : (m m' : Machine) → Quiet m m' → IsExclusive m → IsExclusive m'
Quiet-IsExclusive m m' q x = elim (Bool-cases (busy m.foc_axis)) [
  | inl on ↦ record { one_moves = ground (arith, q.rot_rests (ground (arith, on, x.one_moves))) }
  | inr off ↦ record { one_moves = ground (arith, q.foc_rests off) }
]

-- So is one after which the rotator is as before, and the focuser was not started while it was busy.
foc-IsExclusive :
    (m m' : Machine)
    → rotator_busy (table_of m') ≡ rotator_busy (table_of m)
    → (rotator_busy (table_of m) ≡ true → busy m.foc_axis ≡ false → busy m'.foc_axis ≡ false)
    → IsExclusive m
    → IsExclusive m'
foc-IsExclusive m m' same waits x = elim (Bool-cases (rotator_busy (table_of m))) [
  | inl on ↦ record { one_moves = ground (arith, waits on (ground (arith, on, x.one_moves))) }
  | inr off ↦ record { one_moves = ground (arith, same, off) }
]

rot-IsExclusive :
    (m m' : Machine)
    → busy m'.foc_axis ≡ busy m.foc_axis
    → (busy m.foc_axis ≡ true
        → rotator_busy (table_of m) ≡ false
        → rotator_busy (table_of m') ≡ false)
    → IsExclusive m
    → IsExclusive m'
rot-IsExclusive m m' same waits x = elim (Bool-cases (busy m.foc_axis)) [
  | inl on ↦ record { one_moves = ground (arith, waits on (ground (arith, on, x.one_moves))) }
  | inr off ↦ record { one_moves = ground (arith, same, off) }
]

pub common-Kept : (w : World) (m : Machine) → CommonKept (Quiet m) w m
unfolding cmd_save cmd_identify set_brightness
common-Kept w m = record {
  stays = same-Quiet m;
  reboots = λ how free. beside-Quiet m _ refl refl refl;
  saves = beside-Quiet m _ refl refl refl;
  resets = λ free. reset-Quiet w m;
  halts = halt_all-Quiet m;
  identifies = beside-Quiet m _ refl refl refl;
  clears = beside-Quiet m _ refl refl refl;
  thresholds = λ axis v. set_threshold-Quiet axis v m;
  dims = λ p free. beside-Quiet m _ refl refl refl;
  drives = λ a fine free. set_driver-Quiet w a m;
}

calibrate-IsExclusive :
    (w : World) (m : Machine)
    → status_any_busy m ≡ false
    → IsExclusive (
        put_table
          (record m { tmc = w.drivers })
          (rotator_imu_calibrate (nearby w m) (table_of m)).0)
unfolding status_any_busy
calibrate-IsExclusive w m free = record { one_moves = ground (arith, free) }

env-Kept : (w : World) (m : Machine) → IsExclusive m → EnvKept IsExclusive w m
unfolding rotator_busy
env-Kept w m x = record {
  stays = x;
  selects = λ v small. record { one_moves = x.one_moves };
  guards = λ v small. record { one_moves = x.one_moves };
  calibrates = λ free. calibrate-IsExclusive w m free;
}

stop-Quiet : (axis : AxisId) (code : FwError) (m : Machine) → Quiet m (fault_stop axis code m)
unfolding fault_stop rotator_busy Axis.stop_now Axis.busy
stop-Quiet axis_foc code m = record { foc_rests = λ h. refl; rot_rests = λ h. h }
stop-Quiet axis_rot code m = record { foc_rests = λ h. h; rot_rests = λ h. ground (arith, h) }

obey-Quiet : (axis : AxisId) (v : Verdict) (m : Machine) → Quiet m (obey axis v m)
obey-Quiet axis goes_on m = same-Quiet m
obey-Quiet axis returns m = same-Quiet m
obey-Quiet axis (stops code) m = stop-Quiet axis code m

watched-Quiet :
    (w : World) (r : DriverReads) (axis : AxisId) (m : Machine) → Quiet m (watched w r axis m)
unfolding watched
watched-Quiet w r axis m =
    let p = watch_move axis (drv m.settings axis) w.now_ms (axis_of m axis) r.during_move m.tmc in
    let m' : Machine = record m { tmc = record (p.0) { last_idle = w.now_ms } } in
    then-Quiet (beside-Quiet m m' refl refl refl) (obey-Quiet axis p.1 m')

pub tmc-Quiet : (w : World) (r : DriverReads) (m : Machine) → Quiet m (tmc_update w r m)
unfolding tmc_update polled
tmc-Quiet w r m = choose-Quiet (not m.tmc.started) (same-Quiet m) (
    choose-Quiet (busy m.foc_axis) (watched-Quiet w r axis_foc m) (
      choose-Quiet (busy m.rot_axis) (watched-Quiet w r axis_rot m)
        (beside-Quiet m _ refl refl refl)))

pub nv-Quiet : (w : World) (m : Machine) → Quiet m (nv_pass w m)
unfolding nv_pass Board.put_nv
nv-Quiet w m = choose-Quiet m.safe (same-Quiet m) (beside-Quiet m _ refl refl refl)

-- An axis that rests gets no step.
interrupt-rests : (a : Axis) → busy a ≡ false → busy (apply interrupt a) ≡ false
unfolding apply busy
interrupt-rests a h = ground (arith, h)

pub rot_axis-rests :
    (m : Machine) (a : Axis)
    → (busy m.rot_axis ≡ false → busy a ≡ false)
    → rotator_busy (table_of m) ≡ false
    → rotator_busy (table_of (record m { rot_axis = a })) ≡ false
unfolding rotator_busy
rot_axis-rests m a rests h = ground (arith, h, rests)

pub interrupted-Quiet : (axis : AxisId) (m : Machine) → Quiet m (interrupted axis m)
unfolding rotator_busy
interrupted-Quiet axis_foc m = record { foc_rests = interrupt-rests m.foc_axis; rot_rests = λ h. h }
interrupted-Quiet axis_rot m = record {
  foc_rests = λ h. h;
  rot_rests = rot_axis-rests m (apply interrupt m.rot_axis) (interrupt-rests m.rot_axis);
}

pub focuser_pass-Quiet : (w : World) (m : Machine) → Quiet m (focuser_pass w m)
unfolding focuser_pass rotator_busy
focuser_pass-Quiet w m = record {
  foc_rests =
      λ h. (FocuserRest.update-Rests _ _).rests ((update-StaysIdle m.foc_axis w.now_ms).rests h);
  rot_rests = λ h. h;
}

module _ (first_delay : ℕ → ℕ) where
  rotator_pass-IsExclusive :
      (w : World) (m : Machine) → IsExclusive m → IsExclusive (rotator_pass first_delay w m)
  unfolding rotator_pass nearby busy
  rotator_pass-IsExclusive w m x =
      let m' : Machine = record m { rot_axis = Axis.update m.rot_axis w.now_ms } in
      rot-IsExclusive m _ refl
        (λ on h. (RotatorRest.update-Rests first_delay (nearby w m') on (table_of m')).rests (
          rot_axis-rests m (Axis.update m.rot_axis w.now_ms)
            ((update-StaysIdle m.rot_axis w.now_ms).rests) h))
        x

  dispatch-IsExclusive :
      (w : World) (calibration : List ℤ) (r : Route) (m : Machine)
      → IsExclusive m
      → IsExclusive (dispatch first_delay w calibration r m).0
  unfolding dispatch around nearby rotator_busy
  dispatch-IsExclusive w calibration (refuse e) m x = x
  dispatch-IsExclusive w calibration (to_common cmd params) m x =
      Quiet-IsExclusive m _ (protocol_common-Kept (Quiet m) w m (common-Kept w m) cmd params) x
  dispatch-IsExclusive w calibration (to_focuser cmd params) m x =
      foc-IsExclusive m _ refl
        (λ on.
          (protocol_focuser-Kept (FocuserRest.Rests (board_of m)) first_delay (around w m)
            (board_of m) (FocuserRest.focuser-Rests first_delay (around w m) on (board_of m)) cmd
            params).rests)
        x
  dispatch-IsExclusive w calibration (to_rotator cmd params) m x =
      rot-IsExclusive m _ refl
        (λ on.
          (protocol_rotator-Kept (RotatorRest.Rests (table_of m)) first_delay (nearby w m)
            (table_of m) (RotatorRest.rotator-Rests first_delay (nearby w m) on (table_of m)) cmd
            params).rests)
        x
  dispatch-IsExclusive w calibration (to_env cmd params) m x =
      protocol_env-Kept IsExclusive w m (env-Kept w m x) calibration cmd params

  module _ (convert : ℕ → ℕ → Climate) where
    react-IsExclusive :
        (a : Action) (m : Machine) → IsExclusive m → IsExclusive (react first_delay convert a m)
    unfolding react handle_line env_pass leds_pass usb_stage port_checked
    react-IsExclusive (host_line w calibration l) m x =
        dispatch-IsExclusive w calibration (route m.identified l) m x
    react-IsExclusive (loop_focuser w) m x = Quiet-IsExclusive m _ (focuser_pass-Quiet w m) x
    react-IsExclusive (loop_rotator w) m x = rotator_pass-IsExclusive w m x
    react-IsExclusive (loop_nv w) m x = Quiet-IsExclusive m _ (nv-Quiet w m) x
    react-IsExclusive (loop_leds w) m x = Quiet-IsExclusive m _ (beside-Quiet m _ refl refl refl) x
    react-IsExclusive (loop_drivers w r) m x = Quiet-IsExclusive m _ (tmc-Quiet w r m) x
    react-IsExclusive (loop_env a) m x =
        Quiet-IsExclusive m _ (choose-Quiet m.safe (same-Quiet m) (beside-Quiet m _ refl refl refl))
          x
    react-IsExclusive (step_interrupt axis) m x = Quiet-IsExclusive m _ (interrupted-Quiet axis m) x
    react-IsExclusive (usb_setup kind request) m x =
        Quiet-IsExclusive m _
          (choose-Quiet (opens_port kind request) (beside-Quiet m _ refl refl refl) (same-Quiet m))
          x
    react-IsExclusive port_check m x =
        Quiet-IsExclusive m _
          (choose-Quiet m.port_opened (beside-Quiet m _ refl refl refl) (same-Quiet m)) x

    -- Whatever lines the host sends, whatever the hardware answers and however the parts of the loop
    -- and the interrupts follow each other: while the focuser's axis is busy, the rotator's is idle
    -- and no rotator move, homing or calibration is under way, if it was so at the beginning.
    pub history-IsExclusive :
        (actions : List Action) (m : Machine)
        → IsExclusive m
        → IsExclusive (history first_delay convert actions m)
    history-IsExclusive actions m x =
        history-kept first_delay convert IsExclusive react-IsExclusive actions m x
