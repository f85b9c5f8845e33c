-- ===== src/Machine/SaneCommands.antt =====
-- The commands that change settings keep them sane (`settingsSane` of fw/src/nv_store.cpp).
use Prim.Native.Nat.{bit_and}
use astro_uni_board.Base.{
  ℕ, ◌-◌, ◌≤◌, ◌≡◌, refl, sym, subst, ◌∙◌, Bool, true, false, not, ◌||◌, arith, ltb, ◌==◌,
  if◌then◌else◌,
}
use astro_uni_board.Base.Int.{ℤ, pos, negsuc, pos_part, ltb_ℤ}
use astro_uni_board.Settings.{
  AxisId, axis_foc, axis_rot, DriverConfig, Settings, settings_defaults, drv,
}
use astro_uni_board.Nv.Sane.{driver_sane, settings_sane}
use astro_uni_board.Focuser.{focuser_apply_settings, focuser_halt, focuser_rescale}
use astro_uni_board.Rotator.{rotator_halt}
use astro_uni_board.Rotator.Fixed.{calibrate-Fixed}
use astro_uni_board.Rotator.Sequences.{rotator_apply_settings, rotator_rescale}
use astro_uni_board.Leds.{percent_of}
use astro_uni_board.Tmc.{set_stall_threshold}
use astro_uni_board.Machine.{Machine, World, table_of, nearby}
use astro_uni_board.Machine.Agree.{Agree, same_fields-Agree, equal-Agree, Agree-sane}
use astro_uni_board.Machine.Common.{halt_all, cmd_save, cmd_identify}
use astro_uni_board.Machine.CommonCases.{CommonKept}
use astro_uni_board.Machine.EnvCases.{EnvKept}
use astro_uni_board.Machine.Drivers.{
  is_power_of_two, rescale_axis, apply_axis, put_drv, reset_defaults, DriverArgs, args_refused,
  new_config, set_driver, set_threshold, set_brightness,
}

pub record IsSane (m : Machine) : Type 0 where
  pub sane : settings_sane m.settings ≡ true

pub Agree-IsSane : (m m' : Machine) → Agree m.settings m'.settings → IsSane m → IsSane m'
Agree-IsSane m m' a s = record { sane = Agree-sane m.settings m'.settings a s.sane }

pub same-IsSane : (m m' : Machine) → m'.settings ≡ m.settings → IsSane m → IsSane m'
same-IsSane m m' e s = Agree-IsSane m m' (equal-Agree m.settings m'.settings e) s

pub choose : {x y : Machine} (c : Bool) → IsSane x → IsSane y → IsSane (if c then x else y)
choose true p q = p
choose false p q = q

choose-Agree :
    (s : Settings) (x y : Machine) (c : Bool)
    → Agree s x.settings
    → Agree s y.settings
    → Agree s (if c then x else y).settings
choose-Agree s x y true p q = p
choose-Agree s x y false p q = q

-- A rescaling changes the steps of the focuser or the rotator only.
rescale_axis-Agree :
    (now : ℕ) (axis : AxisId) (o n : ℕ) (m : Machine)
    → Agree m.settings (rescale_axis now axis o n m).settings
unfolding rescale_axis focuser_rescale focuser_apply_settings rotator_rescale rotator_apply_settings
rescale_axis-Agree now axis_foc o n m =
    same_fields-Agree m.settings _ (ground arith) (ground arith) (ground arith) (ground arith)
      (ground arith)
rescale_axis-Agree now axis_rot o n m =
    same_fields-Agree m.settings _ (ground arith) (ground arith) (ground arith) (ground arith)
      (ground arith)

apply_axis-settings :
    (w : World) (axis : AxisId) (m : Machine) → (apply_axis w axis m).settings ≡ m.settings
unfolding apply_axis focuser_apply_settings rotator_apply_settings
apply_axis-settings w axis_foc m = refl
apply_axis-settings w axis_rot m = refl

usteps_sane :
    (u : ℤ)
    → is_power_of_two u ≡ true
    → ltb_ℤ (pos 256) u ≡ false
    → (pos_part u == 0 || ltb 256 (pos_part u) || not (bit_and (pos_part u) (pos_part u - 1) == 0))
      ≡ false
unfolding is_power_of_two
usteps_sane (pos n) p h = ground (arith, p, h)
usteps_sane (negsuc n) p h = absurd (cc p)

current_sane :
    (run hold : ℤ)
    → ltb_ℤ run (pos 1) ≡ false
    → ltb_ℤ (pos 1500) run ≡ false
    → ltb_ℤ hold (pos 0) ≡ false
    → ltb_ℤ run hold ≡ false
    → (pos_part run == 0 || ltb 1500 (pos_part run) || ltb (pos_part run) (pos_part hold)) ≡ false
current_sane run hold a b c d = ground (arith, a, b, c, d)

-- The tests of `:48` that matter here.
tests_passed :
    (a : DriverArgs)
    → args_refused a ≡ false
    → (ltb_ℤ a.run (pos 1) ≡ false)
      × (ltb_ℤ (pos 1500) a.run ≡ false)
      × (ltb_ℤ a.hold (pos 0) ≡ false)
      × (ltb_ℤ a.run a.hold ≡ false)
      × (is_power_of_two a.usteps ≡ true)
      × (ltb_ℤ (pos 256) a.usteps ≡ false)
unfolding args_refused
tests_passed a fine = (
  ground (arith, fine),
  ground (arith, fine),
  ground (arith, fine),
  ground (arith, fine),
  ground (arith, fine),
  ground (arith, fine),
)

-- What `:48` accepts is a configuration that is sane.
accepted_sane :
    (a : DriverArgs) (d : DriverConfig)
    → args_refused a ≡ false
    → driver_sane (new_config a d) ≡ true
unfolding new_config driver_sane
accepted_sane a d fine =
    let t = tests_passed a fine in
    rw (current_sane a.run a.hold t.0 t.1 t.2 t.3, usteps_sane a.usteps t.4 t.5) refl

put_drv-sane :
    (axis : AxisId) (d : DriverConfig) (s : Settings)
    → driver_sane d ≡ true
    → settings_sane s ≡ true
    → settings_sane (put_drv axis d s) ≡ true
unfolding settings_sane
put_drv-sane axis_foc d s good h = ground (arith, good, h)
put_drv-sane axis_rot d s good h = ground (arith, good, h)

set_driver-IsSane :
    (w : World) (a : DriverArgs) (m : Machine)
    → IsSane m
    → args_refused a ≡ false
    → IsSane (set_driver w a m)
unfolding set_driver
set_driver-IsSane w a m s fine =
    let m1 =
      rescale_axis w.now_ms a.axis (drv m.settings a.axis).microsteps (pos_part a.usteps) m in
    let old =
      Agree-sane m.settings m1.settings
        (rescale_axis-Agree w.now_ms a.axis (drv m.settings a.axis).microsteps (pos_part a.usteps)
          m)
        s.sane in
    let d = new_config a (drv m1.settings a.axis) in
    let m2 : Machine = record m1 { settings = put_drv a.axis d m1.settings } in
    record {
      sane =
          rw (apply_axis-settings w a.axis m2)
            (put_drv-sane a.axis d m1.settings (accepted_sane a (drv m1.settings a.axis) fine) old);
    }

pub brightness_sane :
    (p : ℕ) (s : Settings)
    → settings_sane s ≡ true
    → settings_sane (record s { led_brightness = percent_of p }) ≡ true
unfolding settings_sane
brightness_sane p s h = ground (arith, h)

pub defaults_sane : settings_sane settings_defaults ≡ true
unfolding settings_sane driver_sane settings_defaults
defaults_sane = refl

-- The settings are the defaults, and applied.
back_to_defaults :
    (w : World) (m : Machine)
    → let m' =
        apply_axis w axis_rot (apply_axis w axis_foc (record m { settings = settings_defaults })) in
      IsSane (set_brightness m'.settings.led_brightness m')
unfolding set_brightness
back_to_defaults w m =
    let d : Machine = record m { settings = settings_defaults } in
    let e : (apply_axis w axis_rot (apply_axis w axis_foc d)).settings ≡ settings_defaults =
      apply_axis-settings w axis_rot (apply_axis w axis_foc d) ∙ apply_axis-settings w axis_foc d in
    let p = (apply_axis w axis_rot (apply_axis w axis_foc d)).settings.led_brightness in
    record {
      sane = brightness_sane p _ (subst (λ s. settings_sane s ≡ true) (sym e) defaults_sane);
    }

reset-IsSane : (w : World) (m : Machine) → IsSane (reset_defaults w m)
unfolding reset_defaults
reset-IsSane w m =
    let d = settings_defaults in
    let m1 = rescale_axis w.now_ms axis_foc m.settings.drv_foc.microsteps d.drv_foc.microsteps m in
    let m2 =
      rescale_axis w.now_ms axis_rot m1.settings.drv_rot.microsteps d.drv_rot.microsteps m1 in
    back_to_defaults w m2

threshold-IsSane :
    (axis : AxisId) (v : ℤ) (m : Machine) → IsSane m → IsSane (set_threshold axis v m).0
unfolding set_threshold set_stall_threshold settings_sane driver_sane
threshold-IsSane axis_foc v m s = record { sane = ground (arith, s.sane) }
threshold-IsSane axis_rot v m s = record { sane = ground (arith, s.sane) }

pub common-Kept : (w : World) (m : Machine) → IsSane m → CommonKept IsSane w m
unfolding cmd_save halt_all focuser_halt rotator_halt cmd_identify set_brightness
common-Kept w m s = record {
  stays = s;
  reboots = λ how free. same-IsSane m _ refl s;
  saves = same-IsSane m _ refl s;
  resets = λ free. reset-IsSane w m;
  halts = same-IsSane m _ refl s;
  identifies = same-IsSane m _ refl s;
  clears = same-IsSane m _ refl s;
  thresholds = λ axis v. threshold-IsSane axis v m s;
  dims = λ p free. record { sane = brightness_sane p m.settings s.sane };
  drives = λ a fine free. set_driver-IsSane w a m s fine;
}

select_sane :
    (v : ℕ) (s : Settings)
    → v ≤ 2
    → settings_sane s ≡ true
    → settings_sane (record s { env_select = v }) ≡ true
unfolding settings_sane
select_sane v s small h = ground (arith, small, h)

guard_sane :
    (v : ℕ) (s : Settings)
    → v ≤ 1
    → settings_sane s ≡ true
    → settings_sane (record s { rot_guard = v }) ≡ true
unfolding settings_sane
guard_sane v s small h = ground (arith, small, h)

pub env-Kept : (w : World) (m : Machine) → IsSane m → EnvKept IsSane w m
env-Kept w m s = record {
  stays = s;
  selects = λ v small. record { sane = select_sane v m.settings small s.sane };
  guards = λ v small. record { sane = guard_sane v m.settings small s.sane };
  calibrates = λ free. same-IsSane m _ (calibrate-Fixed (nearby w m) (table_of m)).fixed s;
}
