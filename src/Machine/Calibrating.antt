-- ===== src/Machine/Calibrating.antt =====
-- The rotator during an IMU calibration, in every history of the board (fw/src/rotator.cpp with the
-- commands of fw/src/protocol.cpp and `faultStop` of fw/src/tmc2209.cpp).
use astro_uni_board.Base.{true, ℕ, ◌≡◌, refl, sym, ap, ◌∙◌, subst, false, List}
use astro_uni_board.Base.Int.{ℤ, pos, ◌+ℤ◌}
use astro_uni_board.Env.{Climate}
use astro_uni_board.Rotator.{spk, seq_none, rotator_busy}
use astro_uni_board.Axis
use astro_uni_board.Axis.{busy}
use astro_uni_board.Calc.{cdeg_to_steps}
use astro_uni_board.Rotator.Fixed.{update-Fixed}
use astro_uni_board.Rotator.Sequences.{rotator_update}
use astro_uni_board.Rotator.Course.Ends.{update_ends}
use astro_uni_board.Rotator.Course.{waits_at, course, Keeps, OnCourse, none-OnCourse}
use astro_uni_board.Rotator.Course.Passes.{update-OnCourse, calibrates-OnCourse}
use astro_uni_board.Rotator.Course.Commands.{halt-OnCourse, rotator-OnCourse}
use astro_uni_board.Protocol.{
  Route, refuse, to_common, to_focuser, to_rotator, to_env, route, opens_port,
}
use astro_uni_board.Protocol.RotatorCases.{protocol_rotator-Kept}
use astro_uni_board.Machine.{Machine, World, table_of, nearby}
use astro_uni_board.Machine.Drivers.{reset_defaults, set_driver, set_brightness}
use astro_uni_board.Machine.Common.{cmd_save, cmd_identify, halt_all}
use astro_uni_board.Machine.CommonCases.{CommonKept, protocol_common-Kept}
use astro_uni_board.Machine.EnvCases.{EnvKept, protocol_env-Kept}
use astro_uni_board.Rotator.Rest.{resting}
use astro_uni_board.Machine.Quiet.{reset-Quiet, set_driver-Quiet}
use astro_uni_board.Machine.Turning.{
  Beside, choose, still, threshold-Beside, tmc_update-Beside, nv_pass-Beside, interrupted-Beside,
  free_rests,
}
use astro_uni_board.Machine.Loop.{
  dispatch, handle_line, focuser_pass, rotator_pass, env_pass, leds_pass, usb_stage, port_checked,
}
use astro_uni_board.Machine.Actions.{
  Action, host_line, loop_focuser, loop_rotator, loop_nv, loop_leds, loop_drivers, loop_env,
  step_interrupt, usb_setup, port_check, react, history, history-kept,
}

-- A board at rest has no calibration under way.
resting-OnCourse : (m : Machine) → rotator_busy (table_of m) ≡ false → OnCourse m.rot
resting-OnCourse m off = none-OnCourse m.rot ((resting (table_of m) off).2)

abbrev Steered : Machine → Type 0
Steered m = OnCourse m.rot

carried : (m m' : Machine) → Beside m m' → Steered m → Steered m'
carried m m' b p = subst OnCourse (sym b.same) p

common-Steered : (w : World) (m : Machine) → Steered m → CommonKept Steered w m
unfolding cmd_save cmd_identify set_brightness halt_all
common-Steered w m p = record {
  stays = p;
  reboots = λ how free. p;
  saves = p;
  resets = λ free.
      resting-OnCourse (reset_defaults w m) ((reset-Quiet w m).rot_rests (free_rests m free));
  halts = halt-OnCourse _;
  identifies = p;
  clears = p;
  thresholds = λ axis v. carried m _ (threshold-Beside axis v m) p;
  dims = λ n free. p;
  drives = λ a fine free.
      resting-OnCourse (set_driver w a m) ((set_driver-Quiet w a m).rot_rests (free_rests m free));
}

env-Steered : (w : World) (m : Machine) → Steered m → EnvKept Steered w m
env-Steered w m p = record {
  stays = p;
  selects = λ v small. p;
  guards = λ v small. p;
  calibrates = λ free. calibrates-OnCourse (nearby w m) (table_of m) p;
}

module _ (first_delay : ℕ → ℕ) where
  dispatch-Steered :
      (w : World) (calibration : List ℤ) (r : Route) (m : Machine)
      → Steered m
      → Steered (dispatch first_delay w calibration r m).0
  unfolding dispatch
  dispatch-Steered w calibration (refuse e) m p = p
  dispatch-Steered w calibration (to_common cmd params) m p =
      protocol_common-Kept Steered w m (common-Steered w m p) cmd params
  dispatch-Steered w calibration (to_focuser cmd params) m p = p
  dispatch-Steered w calibration (to_rotator cmd params) m p =
      protocol_rotator-Kept (λ c. OnCourse c.rot) first_delay (nearby w m) (table_of m)
        (rotator-OnCourse first_delay (nearby w m) (table_of m) p) cmd params
  dispatch-Steered w calibration (to_env cmd params) m p =
      protocol_env-Kept Steered w m (env-Steered w m p) calibration cmd params

  pass-Steered : (w : World) (m : Machine) → Steered m → Steered (rotator_pass first_delay w m)
  unfolding rotator_pass
  pass-Steered w m p = update-OnCourse first_delay _ _ p

  module _ (convert : ℕ → ℕ → Climate) where
    react-Steered : (a : Action) (m : Machine) → Steered m → Steered (react first_delay convert a m)
    unfolding react handle_line focuser_pass env_pass leds_pass usb_stage port_checked
    react-Steered (host_line w calibration l) m p =
        dispatch-Steered w calibration (route m.identified l) m p
    react-Steered (loop_focuser w) m p = p
    react-Steered (loop_rotator w) m p = pass-Steered w m p
    react-Steered (loop_nv w) m p = carried m _ (nv_pass-Beside w m) p
    react-Steered (loop_leds w) m p = p
    react-Steered (loop_drivers w r) m p = carried m _ (tmc_update-Beside w r m) p
    react-Steered (loop_env a) m p =
        carried m _ (choose m.safe (still m) (record { same = refl; range = refl })) p
    react-Steered (step_interrupt axis) m p = carried m _ (interrupted-Beside axis m) p
    react-Steered (usb_setup kind request) m p =
        carried m _
          (choose (opens_port kind request) (record { same = refl; range = refl }) (still m)) p
    react-Steered port_check m p =
        carried m _ (choose m.port_opened (record { same = refl; range = refl }) (still m)) p

    -- From a board with no homing or calibration under way, after any lines, loop passes, faults and
    -- interrupts, in any order: when a rotator move is under way and a pass of the rotator ends it and
    -- makes a calibration wait to capture an orientation, the motor is at rest, at the step of the angle
    -- that the rotator reports. That angle is exactly as far above the start of the calibration as the
    -- capture asks for, a quarter turn or half a turn.
    pub captures_in_place :
        (actions : List Action) (w : World) (m : Machine) (turned : ℕ)
        → m.rot.seq ≡ seq_none
        → (history first_delay convert actions m).rot.moving ≡ true
        → course (rotator_pass first_delay w (history first_delay convert actions m)).rot.seq
          ≡ waits_at turned
        → let after = rotator_pass first_delay w (history first_delay convert actions m) in
          let angle = after.rot.angle_idle in
          (after.rot.moving ≡ false)
          × (angle ≡ after.rot.cal_start +ℤ pos turned)
          × (busy after.rot_axis ≡ false)
          × (after.rot_axis.position ≡ cdeg_to_steps angle after.settings.rot.steps_per_1000_deg)
    unfolding rotator_pass
    captures_in_place actions w m turned quiet going waiting =
        let p =
          history-kept first_delay convert Steered react-Steered actions m
            (none-OnCourse m.rot quiet) in
        let before = history first_delay convert actions m in
        let m' : Machine = record before { rot_axis = Axis.update before.rot_axis w.now_ms } in
        let b = table_of m' in
        let d = rotator_update first_delay (nearby w m') b in
        let q = update-OnCourse first_delay (nearby w m') b p in
        let end = update_ends first_delay (nearby w m') turned b p.keeps going waiting in
        let same = (update-Fixed first_delay (nearby w m') b).fixed in
        let (still, at) = subst (λ c. Keeps c d.rot) waiting q.keeps in
        (
          still,
          at,
          end.idle,
          end.stands
              ∙ ap (λ x. cdeg_to_steps x (spk b)) (sym end.told)
              ∙ ap (λ s. cdeg_to_steps d.rot.angle_idle s.rot.steps_per_1000_deg) (sym same),
        )
