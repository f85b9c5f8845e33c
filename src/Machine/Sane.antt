-- ===== src/Machine/Sane.antt =====
-- The settings in use are always ones that the next start takes from the EEPROM (`settingsSane` of
-- fw/src/nv_store.cpp, against the commands that change settings).
use astro_uni_board.Base.{ℕ, ◌≡◌, refl, List}
use astro_uni_board.Base.Int.{ℤ}
use astro_uni_board.Settings.{AxisId, axis_foc, axis_rot, drv}
use astro_uni_board.Board
use astro_uni_board.Rotator.Fixed.{update-Fixed}
use astro_uni_board.Tmc.Checks.{Verdict, goes_on, returns, stops, watch_move}
use astro_uni_board.Env.{Climate}
use astro_uni_board.Protocol.{
  Route, refuse, to_common, to_focuser, to_rotator, to_env, route, opens_port,
}
use astro_uni_board.Protocol.FocuserCases.{protocol_focuser-Kept}
use astro_uni_board.Protocol.RotatorCases.{protocol_rotator-Kept}
use astro_uni_board.Machine.{Machine, World, board_of, table_of, around, nearby}
use astro_uni_board.Machine.Agree.{Agree, update-settings, focuser-Agree, rotator-Agree}
use astro_uni_board.Machine.CommonCases.{protocol_common-Kept}
use astro_uni_board.Machine.EnvCases.{protocol_env-Kept}
use astro_uni_board.Machine.Loop.{
  DriverReads, fault_stop, obey, axis_of, watched, polled, tmc_update, dispatch, handle_line,
  focuser_pass, rotator_pass, nv_pass, env_pass, leds_pass, usb_stage, port_checked,
}
use astro_uni_board.Machine.Actions.{
  Action, host_line, loop_focuser, loop_rotator, loop_nv, loop_leds, loop_drivers, loop_env,
  step_interrupt, usb_setup, port_check, interrupted, react, history, history-kept,
}
use astro_uni_board.Machine.SaneCommands.{
  IsSane, same-IsSane, Agree-IsSane, choose, common-Kept, env-Kept,
}

obeyed-settings :
    (axis : AxisId) (v : Verdict) (m : Machine) → (obey axis v m).settings ≡ m.settings
unfolding fault_stop
obeyed-settings axis goes_on m = refl
obeyed-settings axis returns m = refl
obeyed-settings axis_foc (stops code) m = refl
obeyed-settings axis_rot (stops code) m = refl

watched-IsSane :
    (w : World) (r : DriverReads) (axis : AxisId) (m : Machine)
    → IsSane m
    → IsSane (watched w r axis m)
unfolding watched
watched-IsSane w r axis m s =
    let p = watch_move axis (drv m.settings axis) w.now_ms (axis_of m axis) r.during_move m.tmc in
    let m' : Machine = record m { tmc = record (p.0) { last_idle = w.now_ms } } in
    same-IsSane m _ (obeyed-settings axis p.1 m') s

tmc-IsSane : (w : World) (r : DriverReads) (m : Machine) → IsSane m → IsSane (tmc_update w r m)
unfolding tmc_update polled
tmc-IsSane w r m s = choose _ s (
    choose _ (watched-IsSane w r axis_foc m s)
      (choose _ (watched-IsSane w r axis_rot m s) (same-IsSane m _ refl s)))

nv-IsSane : (w : World) (m : Machine) → IsSane m → IsSane (nv_pass w m)
unfolding nv_pass Board.put_nv
nv-IsSane w m s = choose m.safe s (same-IsSane m _ refl s)

focuser_pass-IsSane : (w : World) (m : Machine) → IsSane m → IsSane (focuser_pass w m)
unfolding focuser_pass
focuser_pass-IsSane w m s = same-IsSane m _ (update-settings _ _) s

interrupted-settings : (axis : AxisId) (m : Machine) → (interrupted axis m).settings ≡ m.settings
interrupted-settings axis_foc m = refl
interrupted-settings axis_rot m = refl

module _ (first_delay : ℕ → ℕ) where
  dispatch-IsSane :
      (w : World) (calibration : List ℤ) (r : Route) (m : Machine)
      → IsSane m
      → IsSane (dispatch first_delay w calibration r m).0
  unfolding dispatch
  dispatch-IsSane w calibration (refuse e) m s = s
  dispatch-IsSane w calibration (to_common cmd params) m s =
      protocol_common-Kept IsSane w m (common-Kept w m s) cmd params
  dispatch-IsSane w calibration (to_focuser cmd params) m s =
      Agree-IsSane m _
        (protocol_focuser-Kept (λ c. Agree m.settings c.settings) first_delay (around w m)
          (board_of m) (focuser-Agree first_delay (around w m) (board_of m)) cmd params)
        s
  dispatch-IsSane w calibration (to_rotator cmd params) m s =
      Agree-IsSane m _
        (protocol_rotator-Kept (λ c. Agree m.settings c.settings) first_delay (nearby w m)
          (table_of m) (rotator-Agree first_delay (nearby w m) (table_of m)) cmd params)
        s
  dispatch-IsSane w calibration (to_env cmd params) m s =
      protocol_env-Kept IsSane w m (env-Kept w m s) calibration cmd params

  rotator_pass-IsSane : (w : World) (m : Machine) → IsSane m → IsSane (rotator_pass first_delay w m)
  unfolding rotator_pass
  rotator_pass-IsSane w m s = same-IsSane m _ (update-Fixed first_delay _ _).fixed s

  module _ (convert : ℕ → ℕ → Climate) where
    react-IsSane : (a : Action) (m : Machine) → IsSane m → IsSane (react first_delay convert a m)
    unfolding react handle_line env_pass leds_pass usb_stage port_checked
    react-IsSane (host_line w calibration l) m s =
        dispatch-IsSane w calibration (route m.identified l) m s
    react-IsSane (loop_focuser w) m s = focuser_pass-IsSane w m s
    react-IsSane (loop_rotator w) m s = rotator_pass-IsSane w m s
    react-IsSane (loop_nv w) m s = nv-IsSane w m s
    react-IsSane (loop_leds w) m s = same-IsSane m _ refl s
    react-IsSane (loop_drivers w r) m s = tmc-IsSane w r m s
    react-IsSane (loop_env a) m s = choose m.safe s (same-IsSane m _ refl s)
    react-IsSane (step_interrupt axis) m s = same-IsSane m _ (interrupted-settings axis m) s
    react-IsSane (usb_setup kind request) m s =
        choose (opens_port kind request) (same-IsSane m _ refl s) s
    react-IsSane port_check m s = choose m.port_opened (same-IsSane m _ refl s) s

    -- From sane settings on, such as the defaults or what a start took from the EEPROM, whatever
    -- commands, loop passes and interrupts follow: the settings in use stay sane, so that the next
    -- start takes them where they were saved at any time between.
    pub history-IsSane :
        (actions : List Action) (m : Machine)
        → IsSane m
        → IsSane (history first_delay convert actions m)
    history-IsSane actions m s = history-kept first_delay convert IsSane react-IsSane actions m s
