-- ===== src/Machine/Turning/Reached.antt =====
-- Where the rotator's moves can end, whatever happens to the board (fw/src/rotator.cpp, fw/src/main.cpp).
use astro_uni_board.Base.{ℕ, ◌≡◌, ◌⊎◌, refl, true, false, List}
use astro_uni_board.Base.Int.{ℤ, ◌≤ℤ◌}
use astro_uni_board.Axis
use astro_uni_board.Axis.{busy}
use astro_uni_board.Env.{Climate}
use astro_uni_board.Rotator.{rotator_busy}
use astro_uni_board.Rotator.Range.{Inside}
use astro_uni_board.Rotator.Range.Commands.{update-Inside, rotator-Inside}
use astro_uni_board.Protocol.{
  Route, refuse, to_common, to_focuser, to_rotator, to_env, route, opens_port,
}
use astro_uni_board.Protocol.FocuserCases.{protocol_focuser-Kept}
use astro_uni_board.Protocol.RotatorCases.{protocol_rotator-Kept}
use astro_uni_board.Machine.{Machine, World, board_of, table_of, nearby, around}
use astro_uni_board.Machine.CommonCases.{protocol_common-Kept}
use astro_uni_board.Machine.EnvCases.{protocol_env-Kept}
use astro_uni_board.Machine.Loop.{
  dispatch, handle_line, rotator_pass, env_pass, leds_pass, usb_stage, port_checked,
}
use astro_uni_board.Machine.Actions.{
  Action, host_line, loop_focuser, loop_rotator, loop_nv, loop_leds, loop_drivers, loop_env,
  step_interrupt, usb_setup, port_check, react, history, history-kept,
}
use astro_uni_board.Machine.Turning.{
  choose, still, Held, resting-Held, Beside-Held, common-Held, env-Held, focuser-range,
  tmc_update-Beside, nv_pass-Beside, focuser_pass-Beside, interrupted-Beside,
}

module _ (first_delay : ℕ → ℕ) where
  dispatch-Held :
      (w : World) (calibration : List ℤ) (r : Route) (m : Machine)
      → Held m
      → Held (dispatch first_delay w calibration r m).0
  unfolding dispatch
  dispatch-Held w calibration (refuse e) m p = p
  dispatch-Held w calibration (to_common cmd params) m p =
      protocol_common-Kept Held w m (common-Held w m p) cmd params
  dispatch-Held w calibration (to_focuser cmd params) m p =
      Beside-Held m (dispatch first_delay w calibration (to_focuser cmd params) m).0
        (record {
          same = refl;
          range =
              protocol_focuser-Kept (λ c. c.settings.rot ≡ m.settings.rot) first_delay (around w m)
                (board_of m) (focuser-range first_delay (around w m) (board_of m)) cmd params;
        })
        p
  dispatch-Held w calibration (to_rotator cmd params) m p = record {
    held = record {
      inside =
          (protocol_rotator-Kept Inside first_delay (nearby w m) (table_of m)
            (rotator-Inside first_delay (nearby w m) (table_of m) p.held) cmd params).inside;
    };
  }
  dispatch-Held w calibration (to_env cmd params) m p =
      protocol_env-Kept Held w m (env-Held w m p) calibration cmd params

  pass-Held : (w : World) (m : Machine) → Held m → Held (rotator_pass first_delay w m)
  unfolding rotator_pass
  pass-Held w m p =
      let m' : Machine = record m { rot_axis = Axis.update m.rot_axis w.now_ms } in
      let q : Inside (table_of m') = record { inside = p.held.inside } in
      record {
        held = record { inside = (update-Inside first_delay (nearby w m') (table_of m') q).inside };
      }

  module _ (convert : ℕ → ℕ → Climate) where
    react-Held : (a : Action) (m : Machine) → Held m → Held (react first_delay convert a m)
    unfolding react handle_line env_pass leds_pass usb_stage port_checked
    react-Held (host_line w calibration l) m p =
        dispatch-Held w calibration (route m.identified l) m p
    react-Held (loop_focuser w) m p = Beside-Held m _ (focuser_pass-Beside w m) p
    react-Held (loop_rotator w) m p = pass-Held w m p
    react-Held (loop_nv w) m p = Beside-Held m _ (nv_pass-Beside w m) p
    react-Held (loop_leds w) m p = Beside-Held m _ (record { same = refl; range = refl }) p
    react-Held (loop_drivers w r) m p = Beside-Held m _ (tmc_update-Beside w r m) p
    react-Held (loop_env a) m p =
        Beside-Held m _ (choose m.safe (still m) (record { same = refl; range = refl })) p
    react-Held (step_interrupt axis) m p = Beside-Held m _ (interrupted-Beside axis m) p
    react-Held (usb_setup kind request) m p =
        Beside-Held m _
          (choose (opens_port kind request) (record { same = refl; range = refl }) (still m)) p
    react-Held port_check m p =
        Beside-Held m _ (choose m.port_opened (record { same = refl; range = refl }) (still m)) p

    -- A board whose rotator rests, with a wrap range that is not empty: whatever lines, loop passes,
    -- faults and interrupts follow, in any order, a rotator move that is under way has a target at
    -- most the upper end of the range in use, and at least its lower end or the angle where the last
    -- calibration began.
    pub within_wrap :
        (actions : List Action) (m : Machine)
        → rotator_busy (table_of m) ≡ false
        → m.settings.rot.wrap_min ≤ℤ m.settings.rot.wrap_max
        → (history first_delay convert actions m).rot.moving ≡ true
        → let end = history first_delay convert actions m in
          let s = end.settings.rot in
          let t = end.rot.move_target in
          (t ≤ℤ s.wrap_max) × ((s.wrap_min ≤ℤ t) ⊎ (end.rot.cal_start ≤ℤ t))
    within_wrap actions m off ordered going =
        let p =
          history-kept first_delay convert Held react-Held actions m (resting-Held m ordered off) in
        p.held.inside.going going
