-- ===== src/Machine/Loop.antt =====
-- The main loop of fw/src/main.cpp and what it runs: `handleCommand` (protocol.cpp), `tmcUpdate`
-- (tmc2209.cpp), and the updates of both axes and their modules.
use astro_uni_board.Base.{ℕ, true, false, not, List, if◌then◌else◌}
use astro_uni_board.Base.Int.{ℤ}
use astro_uni_board.Errors.{FwError, motor_driver, is_ok}
use astro_uni_board.Settings.{AxisId, axis_foc, axis_rot, drv}
use astro_uni_board.Axis
use astro_uni_board.Axis.{Axis}
use astro_uni_board.Nv.Store.{nv_update}
use astro_uni_board.Board.{Board, status_raise}
use astro_uni_board.Board
use astro_uni_board.Focuser.{focuser_update}
use astro_uni_board.Rotator.Sequences.{rotator_update}
use astro_uni_board.Tmc.{IdleReads, idle_pass}
use astro_uni_board.Tmc.Checks.{Verdict, goes_on, returns, stops, MoveReads, watch_move}
use astro_uni_board.Env.{Climate, EnvAnswers, env_update}
use astro_uni_board.Leds.{leds_update}
use astro_uni_board.Protocol.{
  Reply, error, Line, Route, refuse, to_common, to_focuser, to_rotator, to_env, route, opens_port,
}
use astro_uni_board.Protocol.FocuserBlock.{protocol_focuser}
use astro_uni_board.Protocol.RotatorBlock.{protocol_rotator}
use astro_uni_board.Machine.{
  Machine, World, board_of, put_board, table_of, put_table, around, nearby, status_any_busy,
}
use astro_uni_board.Machine.Common.{protocol_common}
use astro_uni_board.Machine.EnvBlock.{protocol_env}

-- What the registers answer during a pass of `tmcUpdate`.
pub record DriverReads : Type 0 where
  pub during_move : MoveReads
  pub when_idle : IdleReads

-- `faultStop`
unfoldable pub fault_stop : AxisId → FwError → Machine → Machine
fault_stop axis_foc code m = record m {
  foc_axis = Axis.stop_now m.foc_axis;
  foc = record (m.foc) { unverified = true };
  sticky = status_raise m.sticky code;
}
fault_stop axis_rot code m = record m {
  rot_axis = Axis.stop_now m.rot_axis;
  sticky = status_raise m.sticky code;
}

abbrev pub obey : AxisId → Verdict → Machine → Machine
obey axis goes_on m = m
obey axis returns m = m
obey axis (stops code) m = fault_stop axis code m

abbrev pub axis_of : Machine → AxisId → Axis
axis_of m axis_foc = m.foc_axis
axis_of m axis_rot = m.rot_axis

-- A pass of `tmcUpdate` where `axis` moves.
unfoldable pub watched : World → DriverReads → AxisId → Machine → Machine
watched w r axis m =
    let (t, v) =
      watch_move axis (drv m.settings axis) w.now_ms (axis_of m axis) r.during_move m.tmc in
    obey axis v (record m { tmc = record t { last_idle = w.now_ms } })

-- A pass where none does.
unfoldable pub polled : World → DriverReads → Machine → Machine
polled w r m =
    let (t, fault) = idle_pass m.settings.drv_foc m.settings.drv_rot w.now_ms r.when_idle m.tmc in
    record m { tmc = t; sticky = if fault then status_raise m.sticky motor_driver else m.sticky }

unfoldable pub tmc_update : World → DriverReads → Machine → Machine
tmc_update w r m =
    if not m.tmc.started
    then m
    else if Axis.busy m.foc_axis
    then watched w r axis_foc m
    else if Axis.busy m.rot_axis
    then watched w r axis_rot m
    else polled w r m

unfoldable pub focuser_pass : World → Machine → Machine
focuser_pass w m =
    let m' : Machine = record m { foc_axis = Axis.update m.foc_axis w.now_ms } in
    put_board m' (focuser_update (around w m') (board_of m'))

-- A setup packet on the USB port, in the interrupt.
unfoldable pub usb_stage : ℕ → ℕ → Machine → Machine
usb_stage kind request m = if opens_port kind request then record m { port_opened = true } else m

-- The start of `Protocol::process`: a port that was opened is locked.
unfoldable pub port_checked : Machine → Machine
port_checked m = if m.port_opened then record m { port_opened = false; identified = false } else m

module _ (first_delay : ℕ → ℕ) where
  -- `handleCommand` with the block that answers.
  unfoldable pub dispatch : World → List ℤ → Route → Machine → Machine × Reply
  dispatch w calibration (refuse e) m = (m, error e)
  dispatch w calibration (to_common cmd params) m = protocol_common w cmd params m
  dispatch w calibration (to_focuser cmd params) m =
      let (b, r) = protocol_focuser first_delay (around w m) cmd params (board_of m) in
      (put_board (record m { tmc = w.drivers }) b, r)
  dispatch w calibration (to_rotator cmd params) m =
      let (b, r) = protocol_rotator first_delay (nearby w m) cmd params (table_of m) in
      (put_table (record m { tmc = w.drivers }) b, r)
  dispatch w calibration (to_env cmd params) m = protocol_env w calibration cmd params m

  unfoldable pub handle_line : World → List ℤ → Line → Machine → Machine × Reply
  handle_line w calibration l m = dispatch w calibration (route m.identified l) m

  unfoldable pub rotator_pass : World → Machine → Machine
  rotator_pass w m =
      let m' : Machine = record m { rot_axis = Axis.update m.rot_axis w.now_ms } in
      put_table (record m' { tmc = w.drivers })
        (rotator_update first_delay (nearby w m') (table_of m'))

unfoldable pub nv_pass : World → Machine → Machine
nv_pass w m =
    let b = Board.put_nv (board_of m) (nv_update w.bus m.nv) in if m.safe then m else put_board m b

unfoldable pub env_pass : (ℕ → ℕ → Climate) → EnvAnswers → Machine → Machine
env_pass convert a m = if m.safe then m else record m { env = env_update convert a m.env }

unfoldable pub leds_pass : World → Machine → Machine
leds_pass w m = record m {
  leds =
      leds_update w.now_ms
        (record { fault = not (is_ok m.sticky); any_busy = status_any_busy m; safe_mode = m.safe })
        m.leds;
}
