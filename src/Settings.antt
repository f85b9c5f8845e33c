-- ===== src/Settings.antt =====
-- fw/src/settings.h and settings.cpp: the running settings and the compiled-in defaults.
use astro_uni_board.Base.{ℕ}
use astro_uni_board.Base.Int.{ℤ, pos, negsuc}

pub data AxisId : Type 0 where
  axis_foc axis_rot : AxisId

pub data DriverMode : Type 0 where
  stealthchop spreadcycle : DriverMode

pub record DriverConfig : Type 0 where
  pub run_ma : ℕ
  pub hold_ma : ℕ
  pub microsteps : ℕ
  pub mode : DriverMode
  pub stall_threshold : ℕ
  pub idle_off_s : ℕ

pub record FocuserSettings : Type 0 where
  pub max_pos : ℤ
  pub speed : ℕ
  pub accel : ℕ
  pub backlash : ℕ
  pub reverse : ℕ
  pub step_size : ℕ

pub record RotatorSettings : Type 0 where
  pub wrap_min : ℤ
  pub wrap_max : ℤ
  pub speed : ℕ
  pub accel : ℕ
  pub reverse : ℕ
  pub steps_per_1000_deg : ℕ
  pub boot_home : ℕ
  pub home_tol_cdeg : ℕ

-- `drv[AXIS_COUNT]` is a pair of fields.
pub record Settings : Type 0 where
  pub drv_foc : DriverConfig
  pub drv_rot : DriverConfig
  pub foc : FocuserSettings
  pub rot : RotatorSettings
  pub env_select : ℕ
  pub led_brightness : ℕ
  pub rot_guard : ℕ

abbrev pub drv : Settings → AxisId → DriverConfig
drv s axis_foc = s.drv_foc
drv s axis_rot = s.drv_rot

unfoldable pub settings_defaults : Settings
settings_defaults = record {
  drv_foc = record {
    run_ma = 900;
    hold_ma = 450;
    microsteps = 4;
    mode = stealthchop;
    stall_threshold = 0;
    idle_off_s = 30;
  };
  drv_rot = record {
    run_ma = 650;
    hold_ma = 325;
    microsteps = 16;
    mode = stealthchop;
    stall_threshold = 0;
    idle_off_s = 0;
  };
  foc = record {
    max_pos = pos 8100;
    speed = 900;
    accel = 2000;
    backlash = 0;
    reverse = 0;
    step_size = 111;
  };
  rot = record {
    wrap_min = negsuc 17999;
    wrap_max = pos 18000;
    speed = 1200;
    accel = 2400;
    reverse = 0;
    steps_per_1000_deg = 88889;
    boot_home = 0;
    home_tol_cdeg = 50;
  };
  env_select = 0;
  led_brightness = 100;
  rot_guard = 1;
}
