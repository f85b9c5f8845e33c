-- ===== src/Machine.antt =====
-- The whole board: the state behind all modules of fw/src, and the part of it that each of them works
-- on. A `World` is what the hardware answers during one call.
pub mod Status
pub mod Drivers
pub mod Common
pub mod EnvBlock
pub mod Loop
pub mod CommonCases
pub mod EnvCases
pub mod Actions
pub mod Quiet
pub mod Exclusive
pub mod Agree
pub mod SaneCommands
pub mod Sane
pub mod Refusals
pub mod Start
pub mod Lifetime
pub mod Owner
pub mod Locked
pub mod Calibrating
pub mod Turning
use astro_uni_board.Base.{ℕ, Bool, true, false, not, ◌&&◌, ◌||◌, Option, none, some, if◌then◌else◌}
use astro_uni_board.Base.Int.{ℤ}
use astro_uni_board.Errors.{FwError, is_ok}
use astro_uni_board.Settings.{AxisId, axis_foc, axis_rot, Settings}
use astro_uni_board.Axis
use astro_uni_board.Axis.{Axis}
use astro_uni_board.Nv.Store.{Bus, Nv}
use astro_uni_board.Board.{Focuser, Board, Around}
use astro_uni_board.Rotator.{Rotator, Turntable, Nearby, rotator_busy}
use astro_uni_board.Tmc.{Tmc, tmc_answering}
use astro_uni_board.Env.{Env}
use astro_uni_board.Leds.{Leds}

-- What a restart leads to.
pub data Running : Type 0 where
  runs reboots_normal reboots_to_dfu : Running

pub record Machine : Type 0 where
  pub settings : Settings
  pub nv : Nv
  pub foc : Focuser
  pub foc_axis : Axis
  pub rot : Rotator
  pub rot_axis : Axis
  pub tmc : Tmc
  pub env : Env
  pub leds : Leds
  pub sticky : FwError
  pub safe : Bool
  pub ready : Bool
  pub identified : Bool
  pub port_opened : Bool  -- usbPortOpened
  pub running : Running

pub record World : Type 0 where
  pub now_ms : ℕ
  pub timer_running : Bool
  pub timer_starts : Bool
  pub drivers : Tmc  -- after the call of tmcApply that a move may make
  pub ioin_foc : Option ℕ  -- IOIN in the other calls of tmcApply
  pub ioin_rot : Option ℕ
  pub supply_ok : Bool  -- hkMotorSupplyOk()
  pub bus : Bus
  pub settings_saved : Bool  -- saveRecord() of the settings
  pub imu_answering : Bool
  pub imu_settled : Bool
  pub imu_roll : Option ℤ
  pub imu_tilt : Option ℤ
  pub imu_accel : Option (ℤ × ℤ × ℤ)
  pub imu_calibrated : Bool
  pub near_vertical : Bool
  pub captured : Bool
  pub finished : FwError
  pub crystal : Bool  -- clockFromCrystal()
  pub v12_low : Bool
  pub mcu_temp : ℤ
  pub vdda_mv : ℕ
  pub reset_flags : ℕ
  pub last_mark : ℕ
  pub watchdog_reset : Bool
  pub uid0 : ℕ
  pub uid1 : ℕ
  pub uid2 : ℕ

abbrev pub board_of : Machine → Board
board_of m = record {
  settings = m.settings;
  foc = m.foc;
  axis = m.foc_axis;
  nv = m.nv;
  sticky = m.sticky;
}

abbrev pub put_board : Machine → Board → Machine
put_board m b = record m {
  settings = b.settings;
  foc = b.foc;
  foc_axis = b.axis;
  nv = b.nv;
  sticky = b.sticky;
}

abbrev pub table_of : Machine → Turntable
table_of m = record {
  settings = m.settings;
  rot = m.rot;
  axis = m.rot_axis;
  nv = m.nv;
  sticky = m.sticky;
}

abbrev pub put_table : Machine → Turntable → Machine
put_table m b = record m {
  settings = b.settings;
  rot = b.rot;
  rot_axis = b.axis;
  nv = b.nv;
  sticky = b.sticky;
}

-- What the focuser code sees of the rest.
unfoldable pub around : World → Machine → Around
around w m = record {
  safe_mode = m.safe;
  rot_busy = rotator_busy (table_of m);
  rot_axis_busy = Axis.busy m.rot_axis;
  timer_running = w.timer_running;
  timer_starts = w.timer_starts;
  answering = tmc_answering m.tmc axis_foc;
  applied = tmc_answering w.drivers axis_foc;
  supply_ok = w.supply_ok;
  bus = w.bus;
  now_ms = w.now_ms;
}

-- What the rotator code sees of the rest.
unfoldable pub nearby : World → Machine → Nearby
nearby w m = record {
  safe_mode = m.safe;
  foc_busy = Axis.busy m.foc_axis;
  timer_running = w.timer_running;
  timer_starts = w.timer_starts;
  answering = tmc_answering m.tmc axis_rot;
  applied = tmc_answering w.drivers axis_rot;
  supply_ok = w.supply_ok;
  imu_answering = w.imu_answering;
  imu_settled = w.imu_settled;
  imu_roll = w.imu_roll;
  imu_calibrated = w.imu_calibrated;
  near_vertical = w.near_vertical;
  captured = w.captured;
  finished = w.finished;
  bus = w.bus;
  now_ms = w.now_ms;
}

unfoldable pub status_any_busy : Machine → Bool
status_any_busy m = Axis.busy m.foc_axis || rotator_busy (table_of m)
