-- ===== src/Machine/Actions.antt =====
-- Everything that happens to the board after its start, in any order: lines of the host, the parts of
-- the loop of fw/src/main.cpp, the interrupts of the step timer and setup packets on the USB port.
use astro_uni_board.Base.{ℕ, List, [], ◌∷◌, ◌++◌, map}
use astro_uni_board.Base.Int.{ℤ}
use astro_uni_board.Settings.{AxisId, axis_foc, axis_rot}
use astro_uni_board.Axis.Events.{apply, interrupt}
use astro_uni_board.Env.{Climate, EnvAnswers}
use astro_uni_board.Protocol.{Line}
use astro_uni_board.Machine.{Machine, World}
use astro_uni_board.Machine.Loop.{
  DriverReads, tmc_update, handle_line, focuser_pass, rotator_pass, nv_pass, env_pass, leds_pass,
  usb_stage, port_checked,
}

pub data Action : Type 0 where
  host_line : World → List ℤ → Line → Action
  loop_focuser loop_rotator loop_nv loop_leds : World → Action
  loop_drivers : World → DriverReads → Action
  loop_env : EnvAnswers → Action
  step_interrupt : AxisId → Action
  usb_setup : ℕ → ℕ → Action
  port_check : Action

abbrev pub interrupted : AxisId → Machine → Machine
interrupted axis_foc m = record m { foc_axis = apply interrupt m.foc_axis }
interrupted axis_rot m = record m { rot_axis = apply interrupt m.rot_axis }

-- The order of `loop`, with the answers to each part; the lines are those that ended since the last
-- pass. The housekeeping samples are answers of the world.
pub record PassInput : Type 0 where
  pub lines : List (World × List ℤ × Line)
  pub focuser : World
  pub rotator : World
  pub drivers : World
  pub driver_reads : DriverReads
  pub env : EnvAnswers
  pub nv : World
  pub leds : World

abbrev line_action : World × List ℤ × Line → Action
line_action (w, calibration, l) = host_line w calibration l

unfoldable pub loop_actions : PassInput → List Action
loop_actions p =
    port_check ∷ map line_action p.lines
    ++ loop_focuser p.focuser
      ∷ loop_rotator p.rotator
      ∷ loop_drivers p.drivers p.driver_reads
      ∷ loop_env p.env
      ∷ loop_nv p.nv
      ∷ loop_leds p.leds
      ∷ []

module _ (first_delay : ℕ → ℕ) (convert : ℕ → ℕ → Climate) where
  unfoldable pub react : Action → Machine → Machine
  react (host_line w calibration l) m = (handle_line first_delay w calibration l m).0
  react (loop_focuser w) m = focuser_pass w m
  react (loop_rotator w) m = rotator_pass first_delay w m
  react (loop_nv w) m = nv_pass w m
  react (loop_leds w) m = leds_pass w m
  react (loop_drivers w r) m = tmc_update w r m
  react (loop_env a) m = env_pass convert a m
  react (step_interrupt axis) m = interrupted axis m
  react (usb_setup kind request) m = usb_stage kind request m
  react port_check m = port_checked m

  unfoldable pub history : List Action → Machine → Machine
  history [] m = m
  history (a ∷ rest) m = history rest (react a m)

  -- A property that every action keeps is kept by every history.
  pub history-kept :
      (P : Machine → Type 0)
      → ((a : Action) (m : Machine) → P m → P (react a m))
      → (actions : List Action) (m : Machine) → P m
      → P (history actions m)
  unfolding history
  history-kept P keeps [] m p = p
  history-kept P keeps (a ∷ rest) m p = history-kept P keeps rest (react a m) (keeps a m p)
