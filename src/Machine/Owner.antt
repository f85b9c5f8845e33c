-- ===== src/Machine/Owner.antt =====
-- The step timer as a lock: an abstract view of who moves, which every action of the board follows.
use astro_uni_board.Base.{ℕ, ◌≡◌, refl, Bool, true, false, ◌&&◌, List, arith, if◌then◌else◌}
use astro_uni_board.Base.Int.{ℤ}
use astro_uni_board.Axis
use astro_uni_board.Axis.{Axis, busy}
use astro_uni_board.Axis.Rest.{update-StaysIdle}
use astro_uni_board.Focuser.Rest as FocuserRest
use astro_uni_board.Rotator.{rotator_busy}
use astro_uni_board.Rotator.Sequences.{rotator_imu_calibrate}
use astro_uni_board.Rotator.Rest as RotatorRest
use astro_uni_board.Env.{Climate}
use astro_uni_board.Protocol.{
  Route, refuse, to_common, to_focuser, to_rotator, to_env, route, opens_port,
}
use astro_uni_board.Protocol.FocuserCases.{protocol_focuser-Kept}
use astro_uni_board.Protocol.RotatorCases.{protocol_rotator-Kept}
use astro_uni_board.Machine.{
  Machine, World, board_of, table_of, put_table, around, nearby, status_any_busy,
}
use astro_uni_board.Machine.CommonCases.{protocol_common-Kept}
use astro_uni_board.Machine.EnvCases.{EnvKept, protocol_env-Kept}
use astro_uni_board.Machine.Loop.{
  dispatch, handle_line, rotator_pass, env_pass, leds_pass, usb_stage, port_checked,
}
use astro_uni_board.Machine.Quiet.{Quiet, same-Quiet, choose-Quiet, beside-Quiet}
use astro_uni_board.Machine.Exclusive.{
  IsExclusive, common-Kept, tmc-Quiet, nv-Quiet, interrupted-Quiet, focuser_pass-Quiet,
  rot_axis-rests,
}
use astro_uni_board.Machine.Actions.{
  Action, host_line, loop_focuser, loop_rotator, loop_nv, loop_leds, loop_drivers, loop_env,
  step_interrupt, usb_setup, port_check, react,
}

pub data Owner : Type 0 where
  nobody by_focuser by_rotator : Owner

-- The lock is taken where it is free, and given back; it is never handed over.
pub data OwnerStep : Owner → Owner → Type 0 where
  keeps : (o : Owner) → OwnerStep o o
  takes : (o : Owner) → OwnerStep nobody o
  gives_back : (o : Owner) → OwnerStep o nobody

unfoldable pub owner : Machine → Owner
owner m =
    if busy m.foc_axis then by_focuser else if rotator_busy (table_of m) then by_rotator else nobody

-- The one that moves keeps the other from it.
record Waits (m m' : Machine) : Type 0 where
  rot_waits :
      busy m.foc_axis ≡ true
      → rotator_busy (table_of m) ≡ false
      → rotator_busy (table_of m') ≡ false
  foc_waits : rotator_busy (table_of m) ≡ true → busy m.foc_axis ≡ false → busy m'.foc_axis ≡ false

Quiet-Waits : (m m' : Machine) → Quiet m m' → Waits m m'
Quiet-Waits m m' q = record { rot_waits = λ on h. q.rot_rests h; foc_waits = λ on h. q.foc_rests h }

owner_step :
    (f r f' r' : Bool)
    → (f && r) ≡ false
    → (f ≡ true → r ≡ false → r' ≡ false)
    → (r ≡ true → f ≡ false → f' ≡ false)
    → OwnerStep
        (if f then by_focuser else if r then by_rotator else nobody)
        (if f' then by_focuser else if r' then by_rotator else nobody)
owner_step true true f' r' x p q = absurd (cc x)
owner_step true false true r' x p q = keeps by_focuser
owner_step true false false true x p q = absurd (cc (p refl refl))
owner_step true false false false x p q = gives_back by_focuser
owner_step false true true r' x p q = absurd (cc (q refl refl))
owner_step false true false true x p q = keeps by_rotator
owner_step false true false false x p q = gives_back by_rotator
owner_step false false f' r' x p q = takes _

Waits-OwnerStep : (m m' : Machine) → IsExclusive m → Waits m m' → OwnerStep (owner m) (owner m')
unfolding owner
Waits-OwnerStep m m' x w =
    owner_step (busy m.foc_axis) (rotator_busy (table_of m)) (busy m'.foc_axis)
      (rotator_busy (table_of m')) x.one_moves w.rot_waits w.foc_waits

calibrate-Waits :
    (w : World) (m : Machine)
    → status_any_busy m ≡ false
    → Waits m (
        put_table
          (record m { tmc = w.drivers })
          (rotator_imu_calibrate (nearby w m) (table_of m)).0)
unfolding status_any_busy
calibrate-Waits w m free = record {
  rot_waits = λ on h. absurd (ground (arith, free, on));
  foc_waits = λ on h. h;
}

env-Kept : (w : World) (m : Machine) → EnvKept (Waits m) w m
env-Kept w m = record {
  stays = Quiet-Waits m m (same-Quiet m);
  selects = λ v small. Quiet-Waits m _ (beside-Quiet m _ refl refl refl);
  guards = λ v small. Quiet-Waits m _ (beside-Quiet m _ refl refl refl);
  calibrates = λ free. calibrate-Waits w m free;
}

module _ (first_delay : ℕ → ℕ) where
  rotator_pass-Waits : (w : World) (m : Machine) → Waits m (rotator_pass first_delay w m)
  unfolding rotator_pass nearby busy
  rotator_pass-Waits w m =
      let m' : Machine = record m { rot_axis = Axis.update m.rot_axis w.now_ms } in
      record {
        rot_waits = λ on h.
            (RotatorRest.update-Rests first_delay (nearby w m') on (table_of m')).rests (
              rot_axis-rests m (Axis.update m.rot_axis w.now_ms)
                ((update-StaysIdle m.rot_axis w.now_ms).rests) h);
        foc_waits = λ on h. h;
      }

  dispatch-Waits :
      (w : World) (calibration : List ℤ) (r : Route) (m : Machine)
      → Waits m (dispatch first_delay w calibration r m).0
  unfolding dispatch around nearby rotator_busy
  dispatch-Waits w calibration (refuse e) m = Quiet-Waits m m (same-Quiet m)
  dispatch-Waits w calibration (to_common cmd params) m =
      Quiet-Waits m _ (protocol_common-Kept (Quiet m) w m (common-Kept w m) cmd params)
  dispatch-Waits w calibration (to_focuser cmd params) m = record {
    rot_waits = λ on h. h;
    foc_waits = λ on.
        (protocol_focuser-Kept (FocuserRest.Rests (board_of m)) first_delay (around w m)
          (board_of m) (FocuserRest.focuser-Rests first_delay (around w m) on (board_of m)) cmd
          params).rests;
  }
  dispatch-Waits w calibration (to_rotator cmd params) m = record {
    rot_waits = λ on.
        (protocol_rotator-Kept (RotatorRest.Rests (table_of m)) first_delay (nearby w m)
          (table_of m) (RotatorRest.rotator-Rests first_delay (nearby w m) on (table_of m)) cmd
          params).rests;
    foc_waits = λ on h. h;
  }
  dispatch-Waits w calibration (to_env cmd params) m =
      protocol_env-Kept (Waits m) w m (env-Kept w m) calibration cmd params

  react-Waits :
      (convert : ℕ → ℕ → Climate) (a : Action) (m : Machine)
      → Waits m (react first_delay convert a m)
  unfolding react handle_line env_pass leds_pass usb_stage port_checked
  react-Waits convert (host_line w calibration l) m =
      dispatch-Waits w calibration (route m.identified l) m
  react-Waits convert (loop_focuser w) m = Quiet-Waits m _ (focuser_pass-Quiet w m)
  react-Waits convert (loop_rotator w) m = rotator_pass-Waits w m
  react-Waits convert (loop_nv w) m = Quiet-Waits m _ (nv-Quiet w m)
  react-Waits convert (loop_leds w) m = Quiet-Waits m _ (beside-Quiet m _ refl refl refl)
  react-Waits convert (loop_drivers w r) m = Quiet-Waits m _ (tmc-Quiet w r m)
  react-Waits convert (loop_env a) m =
      Quiet-Waits m _ (choose-Quiet m.safe (same-Quiet m) (beside-Quiet m _ refl refl refl))
  react-Waits convert (step_interrupt axis) m = Quiet-Waits m _ (interrupted-Quiet axis m)
  react-Waits convert (usb_setup kind request) m =
      Quiet-Waits m _
        (choose-Quiet (opens_port kind request) (beside-Quiet m _ refl refl refl) (same-Quiet m))
  react-Waits convert port_check m =
      Quiet-Waits m _ (choose-Quiet m.port_opened (beside-Quiet m _ refl refl refl) (same-Quiet m))

  -- Every action of the board is a step of the lock, seen through `owner`: the part that moves keeps
  -- it or gives it back, and the other part starts only after a state in which neither was busy.
  pub react_refines :
      (convert : ℕ → ℕ → Climate) (a : Action) (m : Machine)
      → IsExclusive m
      → OwnerStep (owner m) (owner (react first_delay convert a m))
  react_refines convert a m x = Waits-OwnerStep m _ x (react-Waits convert a m)
