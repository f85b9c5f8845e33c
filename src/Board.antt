-- ===== src/Board.antt =====
-- The state that the focuser code shares with its surroundings: the static variables of
-- fw/src/focuser.cpp, the objects it calls, and the sticky fault of fw/src/status.cpp.
use astro_uni_board.Base.{ℕ, Bool, ◌||◌, if◌then◌else◌}
use astro_uni_board.Base.Int.{ℤ}
use astro_uni_board.Errors.{FwError, eeprom, is_ok}
use astro_uni_board.Settings.{Settings}
use astro_uni_board.Axis.{Axis, TimerView, busy}
use astro_uni_board.Nv.Store.{Bus, Nv}

pub record Focuser : Type 0 where
  pub unverified : Bool
  pub last_dir : ℤ
  pub move_dir : ℤ
  pub save_pending : Bool
  pub idle_since : ℕ

pub record Board : Type 0 where
  pub settings : Settings
  pub foc : Focuser
  pub axis : Axis  -- axisFoc
  pub nv : Nv
  pub sticky : FwError

-- What the other parts answer during a call.
pub record Around : Type 0 where
  pub safe_mode : Bool  -- statusSafeMode()
  pub rot_busy : Bool  -- rotatorBusy()
  pub rot_axis_busy : Bool  -- axisRot.busy()
  pub timer_running : Bool
  pub timer_starts : Bool
  pub answering : Bool  -- tmcAnswering(AXIS_FOC)
  pub applied : Bool  -- tmcApply(AXIS_FOC), where it is called
  pub supply_ok : Bool  -- hkMotorSupplyOk()
  pub bus : Bus
  pub now_ms : ℕ

-- The first fault is kept until it is cleared.
unfoldable pub status_raise : FwError → FwError → FwError
status_raise sticky code = if is_ok sticky then code else sticky

abbrev pub raise : FwError → Board → Board
raise code b = record b { sticky = status_raise b.sticky code }

-- The store after a call of it, with the fault that it raised.
unfoldable pub put_nv : Board → Nv × Bool → Board
put_nv b r = record b { nv = r.0; sticky = if r.1 then status_raise b.sticky eeprom else b.sticky }

-- statusAnyBusy() || axisAnyBusy()
unfoldable pub any_busy : Around → Board → Bool
any_busy w b = busy b.axis || w.rot_busy || (busy b.axis || w.rot_axis_busy)

unfoldable pub view_of : Around → Board → TimerView
view_of w b = record {
  any_busy = busy b.axis || w.rot_axis_busy;
  running = w.timer_running;
  starts = w.timer_starts;
  now = w.now_ms;
}
