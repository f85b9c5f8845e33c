-- ===== src/Machine/Start.antt =====
-- `setup` of fw/src/main.cpp: from a reset to the first pass of the loop.
use astro_uni_board.Base.{ℕ, Bool, true, false, List, if◌then◌else◌}
use astro_uni_board.Base.Int.{pos}
use astro_uni_board.Errors.{fw_ok}
use astro_uni_board.Settings.{axis_foc, axis_rot, Settings, settings_defaults}
use astro_uni_board.Axis.{Axis, idle}
use astro_uni_board.Axis.Delays.{ph_accel}
use astro_uni_board.Nv.Slot.{PosSlot}
use astro_uni_board.Nv.Store.{Nv, blank_slot, nv_begin}
use astro_uni_board.Nv.Sane.{Loaded, load_settings}
use astro_uni_board.Focuser.{focuser_begin}
use astro_uni_board.Rotator.{seq_none}
use astro_uni_board.Rotator.Sequences.{rotator_begin}
use astro_uni_board.Tmc.{DriverRegs, DrvState, Tmc, no_reading, tmc_apply}
use astro_uni_board.Env.{env_begin}
use astro_uni_board.Machine.{Machine, World, runs, board_of, put_board, table_of, put_table, nearby}
use astro_uni_board.Machine.Drivers.{set_brightness}

-- What a start finds.
pub record Found : Type 0 where
  pub eeprom : Bool  -- a chip acknowledges one of the two addresses
  pub reads : ℕ → Bool  -- which pages of the ring can be read
  pub ring : List PosSlot
  pub record_read : Loaded  -- loadRecord() of the settings
  pub regs : DriverRegs  -- what the drivers hold
  pub env_now : ℕ
  pub env_entered : ℕ

-- The axes after `Axis::begin`.
abbrev fresh_axis : Axis
fresh_axis = record {
  position = pos 0;
  target = pos 0;
  motion = idle;
  lead = 0;
  stopped_flag = false;
  speed = 1;
  accel_rate = 1;
  idle_off_s = 0;
  reverse = false;
  start_ms = 0;
  ramp = record { phase = ph_accel; delay_ticks = 0; rest_ticks = 0; ramp_n = 0; decel_left = 0 };
  remain = 0;
  total = 0;
  halt_req = false;
  settle = false;
  min_delay = 0;
  dir_step = pos 1;
  dir_high = false;
  enabled = false;
  was_busy = false;
  stop_ms = 0;
  begun = true;
}

abbrev fresh_driver : DrvState
fresh_driver = record {
  answering = false;
  temp_class = no_reading;
  otpw = false;
  sg_last = no_reading;
  sg_min = no_reading;
  sg_max = no_reading;
  move_start = 0xFFFFFFFF;
  fail_count = 0;
}

abbrev fresh_nv : List PosSlot → Nv
fresh_nv slots = record {
  present = false;
  fault_missing = true;
  fault_settings = false;
  fault_imu = false;
  fault_write = false;
  fault_read = false;
  last_write_ms = 0;
  write_cycle = false;
  slot = blank_slot;
  next_slot = 0;
  pos_pending = false;
  ring = slots;
}

-- The static variables, `statusBegin`, the default settings and `ledsBegin`.
unfoldable pub power_on : Bool → Found → Machine
power_on safe_mode f = record {
  settings = settings_defaults;
  nv = fresh_nv f.ring;
  foc = record {
    unverified = true;
    last_dir = pos 0;
    move_dir = pos 0;
    save_pending = false;
    idle_since = 0;
  };
  foc_axis = fresh_axis;
  rot = record {
    angle_idle = pos 0;
    moving = false;
    move_target = pos 0;
    halt_requested = false;
    last_complete = true;
    unverified = true;
    suspect = true;
    save_pending = false;
    idle_since_ms = 0;
    seq = seq_none;
    seq_ms = 0;
    home_moves = 0;
    cal_start = pos 0;
    boot_pending = false;
    boot_ms = 0;
  };
  rot_axis = fresh_axis;
  tmc = record {
    foc = fresh_driver;
    rot = fresh_driver;
    foc_regs = f.regs;
    rot_regs = f.regs;
    reset_latched = false;
    started = false;
    last_sg = 0;
    last_fault = 0;
    last_idle = 0;
    idle_next = axis_foc;
  };
  env = env_begin f.env_now f.env_entered;
  leds = record {
    on_status = true;
    on_act = false;
    duty = 64;
    phase = 0;
    timer_runs = false;
    brightness = 100;
    lit_status = true;
    lit_act = false;
  };
  sticky = fw_ok;
  safe = safe_mode;
  ready = false;
  identified = false;
  port_opened = false;
  running = runs;
}

-- `nvBegin` where it is called, with the settings that it loads.
unfoldable pub nv_started : Found → Machine → Machine
nv_started f m =
    let (s, fault) = load_settings f.record_read in
    if m.safe then m else record m {
      settings = if f.eeprom then s else settings_defaults;
      nv = nv_begin f.eeprom fault f.reads m.nv;
    }

-- `tmcBegin`
unfoldable pub tmc_begin : World → Settings → Tmc → Tmc
tmc_begin w s t =
    let t1 = (tmc_apply axis_foc s.drv_foc w.ioin_foc (record t { started = true })).0 in
    record ((tmc_apply axis_rot s.drv_rot w.ioin_rot t1).0) { last_idle = w.now_ms }

unfoldable pub setup : World → Found → Machine
setup w f =
    let m0 = power_on w.watchdog_reset f in
    let m1 = nv_started f (set_brightness m0.settings.led_brightness m0) in
    let m2 = set_brightness m1.settings.led_brightness m1 in
    let m3 : Machine = record m2 { tmc = tmc_begin w m2.settings m2.tmc } in
    let m4 = put_board m3 (focuser_begin (board_of m3)) in
    let m5 = put_table m4 (rotator_begin (nearby w m4) (table_of m4)) in record m5 { ready = true }
