-- ===== src/Nv/Sane.antt =====
-- Which settings `nvBegin` of fw/src/nv_store.cpp takes from the EEPROM (`settingsSane`).
use Prim.Native.Nat.{bit_and}
use astro_uni_board.Base.{◌-◌, Bool, true, false, not, ◌&&◌, ◌||◌, ltb, leb, ◌==◌, if◌then◌else◌}
use astro_uni_board.Settings.{DriverConfig, Settings, settings_defaults}

-- One axis; a mode is one of the two by its type.
unfoldable pub driver_sane : DriverConfig → Bool
driver_sane d =
    if d.run_ma == 0 || ltb 1500 d.run_ma || ltb d.run_ma d.hold_ma
    then false
    else not (
        d.microsteps == 0
        || ltb 256 d.microsteps
        || not (bit_and d.microsteps (d.microsteps - 1) == 0))

unfoldable pub settings_sane : Settings → Bool
settings_sane s =
    driver_sane s.drv_foc
    && driver_sane s.drv_rot
    && (leb s.env_select 2 && leb s.led_brightness 100 && leb s.rot_guard 1)

-- What a load of the settings gives, and whether it is a fault: `bad` is a record that is damaged, `blank`
-- says that there is none.
pub data Loaded : Type 0 where
  blank bad : Loaded
  loaded : Settings → Loaded

unfoldable pub load_settings : Loaded → Settings × Bool
load_settings blank = (settings_defaults, false)
load_settings bad = (settings_defaults, true)
load_settings (loaded s) = if settings_sane s then (s, false) else (settings_defaults, true)
