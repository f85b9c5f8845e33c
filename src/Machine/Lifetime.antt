-- ===== src/Machine/Lifetime.antt =====
-- What holds from every start of the board on (fw/src/main.cpp).
use astro_uni_board.Base.{ℕ, ◌≡◌, refl, Bool, true, false, ◌&&◌, List, arith}
use astro_uni_board.Nv.Sane.{Loaded, blank, bad, loaded, settings_sane, load_settings}
use astro_uni_board.Axis
use astro_uni_board.Axis.{set_position, set_speed, set_accel, set_reverse, set_idle_off}
use astro_uni_board.Focuser.{focuser_begin, focuser_apply_settings}
use astro_uni_board.Rotator.{rotator_busy}
use astro_uni_board.Rotator.Sequences.{rotator_begin, rotator_apply_settings}
use astro_uni_board.Env.{Climate}
use astro_uni_board.Machine.{Machine, World}
use astro_uni_board.Machine.Drivers.{set_brightness}
use astro_uni_board.Machine.Exclusive.{IsExclusive, history-IsExclusive}
use astro_uni_board.Machine.Sane.{history-IsSane}
use astro_uni_board.Machine.SaneCommands.{IsSane, brightness_sane, defaults_sane}
use astro_uni_board.Machine.Actions.{Action, history}
use astro_uni_board.Machine.Start.{Found, power_on, nv_started, setup}

-- Whatever the EEPROM holds, what is taken from it is sane.
loaded_sane : (l : Loaded) → settings_sane (load_settings l).0 ≡ true
unfolding load_settings
loaded_sane blank = defaults_sane
loaded_sane bad = defaults_sane
loaded_sane (loaded s) = ground (arith, defaults_sane)

nv_started-sane :
    (f : Found) (m : Machine)
    → settings_sane m.settings ≡ true
    → settings_sane (nv_started f m).settings ≡ true
unfolding nv_started
nv_started-sane f m h = ground (arith, h, loaded_sane f.record_read, defaults_sane)

-- The settings after `nvBegin`.
abbrev taken : World → Found → Machine
taken w f =
    let m0 = power_on w.watchdog_reset f in
    nv_started f (set_brightness m0.settings.led_brightness m0)

setup-settings :
    (w : World) (f : Found)
    → (setup w f).settings
      ≡ (set_brightness (taken w f).settings.led_brightness (taken w f)).settings
unfolding setup focuser_begin focuser_apply_settings rotator_begin rotator_apply_settings
setup-settings w f = refl

dimmed-sane :
    (p : ℕ) (m : Machine)
    → settings_sane m.settings ≡ true
    → settings_sane (set_brightness p m).settings ≡ true
unfolding set_brightness
dimmed-sane p m h = brightness_sane p m.settings h

power_on-sane : (safe : Bool) (f : Found) → settings_sane (power_on safe f).settings ≡ true
unfolding power_on
power_on-sane safe f = defaults_sane

setup-IsSane : (w : World) (f : Found) → IsSane (setup w f)
setup-IsSane w f =
    let m0 = power_on w.watchdog_reset f in
    let first = dimmed-sane m0.settings.led_brightness m0 (power_on-sane w.watchdog_reset f) in
    let second = nv_started-sane f (set_brightness m0.settings.led_brightness m0) first in
    record {
      sane =
          rw (setup-settings w f)
            (dimmed-sane (taken w f).settings.led_brightness (taken w f) second);
    }

pub setup-IsExclusive : (w : World) (f : Found) → IsExclusive (setup w f)
unfolding setup power_on set_brightness nv_started focuser_begin focuser_apply_settings
    rotator_begin rotator_apply_settings rotator_busy Axis.busy set_position set_speed set_accel
    set_reverse set_idle_off
setup-IsExclusive w f = record { one_moves = ground arith }

-- From every start of the board on, whatever the EEPROM holds, the host sends and the hardware
-- answers, in any order of the loop's parts and the interrupts: the two motors never move at the
-- same time.
pub never_both :
    (first_delay : ℕ → ℕ) (convert : ℕ → ℕ → Climate) (w : World) (f : Found)
    (actions : List Action)
    → let m = history first_delay convert actions (setup w f) in
      (Axis.busy m.foc_axis && Axis.busy m.rot_axis) ≡ false
unfolding rotator_busy
never_both first_delay convert w f actions =
    let x = history-IsExclusive first_delay convert actions (setup w f) (setup-IsExclusive w f) in
    ground (arith, x.one_moves)

-- At every time after a start the settings in use are ones that the next start takes, if they are
-- saved then and the record reads back: that start has exactly these settings and sees no fault.
pub settings_survive :
    (first_delay : ℕ → ℕ) (convert : ℕ → ℕ → Climate) (w : World) (f : Found)
    (actions : List Action)
    → let s = (history first_delay convert actions (setup w f)).settings in
      load_settings (loaded s) ≡ (s, false)
unfolding load_settings
settings_survive first_delay convert w f actions =
    let x = history-IsSane first_delay convert actions (setup w f) (setup-IsSane w f) in
    rw x.sane refl
