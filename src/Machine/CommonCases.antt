-- ===== src/Machine/CommonCases.antt =====
-- What a command of fw/src/protocol_common.cpp can do to the board: a property that each of its
-- operations keeps is kept by every command.
use astro_uni_board.Base.{
  ℕ, ◌≡◌, refl, Bool, true, false, ◌||◌, Option, none, some, List, [], ◌∷◌, ◌==◌, if◌then◌else◌,
}
use astro_uni_board.Base.Int.{ℤ, pos, pos_part, ltb_ℤ, eqb_ℤ}
use astro_uni_board.Settings.{AxisId}
use astro_uni_board.Protocol.{Text, Reply, proto_split, proto_int32, proto_axis}
use astro_uni_board.Machine.{
  Machine, World, Running, reboots_normal, reboots_to_dfu, status_any_busy,
}
use astro_uni_board.Machine.Status.{status_clear_error}
use astro_uni_board.Machine.Drivers.{
  reset_defaults, cmd_reset_defaults, DriverArgs, driver_args, args_refused, set_driver,
  cmd_set_driver, on_driver_args, set_brightness, set_threshold, on_threshold,
}
use astro_uni_board.Machine.Common.{
  alone, cmd_reboot, cmd_save, halt_all, cmd_identify, cmd_error, clears, cmd_threshold,
  cmd_brightness, on_brightness, on_axis, axis_only, stall_report, driver_report, common_setting,
  common_command, on_common, protocol_common,
}

-- The operations behind the commands; some are refused while something moves.
pub record CommonKept (P : Machine → Type 0) (w : World) (m : Machine) : Type 0 where
  pub stays : P m
  pub reboots : (how : Running) → status_any_busy m ≡ false → P (record m { running = how })
  pub saves : P (cmd_save w m).0
  pub resets : status_any_busy m ≡ false → P (reset_defaults w m)
  pub halts : P (halt_all m)
  pub identifies : P (cmd_identify w m).0
  pub clears : P (status_clear_error m)
  pub thresholds : (axis : AxisId) (v : ℤ) → P (set_threshold axis v m).0
  pub dims : (p : ℕ) → status_any_busy m ≡ false → P (set_brightness p m)
  pub drives :
      (a : DriverArgs) → args_refused a ≡ false → status_any_busy m ≡ false → P (set_driver w a m)

record Kept (P : Machine → Type 0) (r : Machine × Reply) : Type 0 where
  kept : P r.0

module _ (P : Machine → Type 0) where
  choose :
      (c : Bool) {x y : Machine × Reply}
      → (c ≡ true → Kept P x)
      → Kept P y
      → Kept P (if c then x else y)
  choose true k l = k refl
  choose false k l = l

  unless :
      (c : Bool) {x y : Machine × Reply}
      → Kept P x
      → (c ≡ false → Kept P y)
      → Kept P (if c then x else y)
  unless true k l = k
  unless false k l = l refl

  by_itself :
      (vs : List Text) (r : Machine × Reply) (m : Machine) → Kept P r → P m → Kept P (alone vs r m)
  by_itself [] r m k p = k
  by_itself (v ∷ vs) r m k p = record { kept = p }

  module _ (w : World) (m : Machine) (k : CommonKept P w m) where
    same : (r : Reply) → Kept P (m, r)
    same r = record { kept = k.stays }

    rebooted : (how : Running) → Kept P (cmd_reboot how m)
    unfolding cmd_reboot
    rebooted how =
        unless (status_any_busy m) (same _) (λ free. record { kept = k.reboots how free })

    reset : Kept P (cmd_reset_defaults w m)
    unfolding cmd_reset_defaults
    reset = unless (status_any_busy m) (same _) (λ free. record { kept = k.resets free })

    cleared : (o : Option ℤ) → Kept P (clears o m)
    cleared none = same _
    cleared (some v) = unless (eqb_ℤ v (pos 0)) (record { kept = k.clears }) (λ _. same _)

    error_read : (vs : List Text) → Kept P (cmd_error vs m)
    unfolding cmd_error
    error_read [] = same _
    error_read (v ∷ []) = cleared (proto_int32 v)
    error_read (v ∷ u ∷ vs) = same _

    told : (o : Option AxisId) (answer : AxisId → Reply) → Kept P (on_axis o answer m)
    told none answer = same _
    told (some a) answer = same _

    thresholded : (a : Option AxisId) (o : Option ℤ) → Kept P (on_threshold a o m)
    thresholded none o = same _
    thresholded (some a) none = same _
    thresholded (some a) (some v) = record { kept = k.thresholds a v }

    threshold_set : (vs : List Text) → Kept P (cmd_threshold vs m)
    unfolding cmd_threshold
    threshold_set [] = same _
    threshold_set (a ∷ []) = same _
    threshold_set (a ∷ v ∷ []) = thresholded (proto_axis a) (proto_int32 v)
    threshold_set (a ∷ v ∷ u ∷ vs) = same _

    dimmed : (o : Option ℤ) → Kept P (on_brightness o m)
    dimmed none = same _
    dimmed (some v) = unless (ltb_ℤ v (pos 0) || ltb_ℤ (pos 100) v) (same _) (λ _.
        unless (status_any_busy m) (same _) (λ free. record { kept = k.dims (pos_part v) free }))

    brightness_set : (vs : List Text) → Kept P (cmd_brightness vs m)
    unfolding cmd_brightness
    brightness_set [] = same _
    brightness_set (v ∷ []) = dimmed (proto_int32 v)
    brightness_set (v ∷ u ∷ vs) = same _

    driven : (o : Option DriverArgs) → Kept P (on_driver_args w o m)
    driven none = same _
    driven (some a) = unless (args_refused a) (same _) (λ fine.
        unless (status_any_busy m) (same _) (λ free. record { kept = k.drives a fine free }))

    driver_set : (vs : List Text) → Kept P (cmd_set_driver w vs m)
    unfolding cmd_set_driver
    driver_set vs = driven (driver_args vs)

    setting : (cmd : ℕ) (vs : List Text) → Kept P (common_setting w cmd vs m)
    unfolding common_setting
    setting cmd vs =
        choose (cmd == 40) (λ _. by_itself vs _ m (same _) k.stays)
          (choose (cmd == 41) (λ _. told (axis_only vs) (stall_report m))
            (choose (cmd == 42) (λ _. threshold_set vs)
              (choose (cmd == 43) (λ _. by_itself vs _ m (same _) k.stays)
                (choose (cmd == 44) (λ _. brightness_set vs)
                  (choose (cmd == 46) (λ _. same _)
                    (choose (cmd == 47) (λ _. told (axis_only vs) (driver_report m))
                      (choose (cmd == 48) (λ _. driver_set vs) (same _))))))))

    commanded : (cmd : ℕ) (vs : List Text) → Kept P (common_command w cmd vs m)
    unfolding common_command
    commanded cmd vs =
        choose (cmd == 22) (λ _. by_itself vs _ m (rebooted reboots_normal) k.stays)
          (choose (cmd == 31) (λ _. by_itself vs _ m (rebooted reboots_to_dfu) k.stays)
            (choose (cmd == 23) (λ _. by_itself vs _ m (record { kept = k.saves }) k.stays)
              (choose (cmd == 24) (λ _. by_itself vs _ m reset k.stays)
                (choose (cmd == 25) (λ _. same _)
                  (choose (cmd == 30) (λ _. by_itself vs _ m (record { kept = k.halts }) k.stays)
                    (choose (cmd == 32)
                      (λ _. by_itself vs _ m (record { kept = k.identifies }) k.stays)
                      (choose (cmd == 33) (λ _. by_itself vs _ m (same _) k.stays)
                        (choose (cmd == 34) (λ _. error_read vs) (setting cmd vs)))))))))

    answered : (cmd : ℕ) (o : Option (List Text)) → P (on_common w cmd o m).0
    answered cmd none = k.stays
    answered cmd (some vs) = (commanded cmd vs).kept

    pub protocol_common-Kept : (cmd : ℕ) (params : Text) → P (protocol_common w cmd params m).0
    unfolding protocol_common
    protocol_common-Kept cmd params = answered cmd (proto_split params)
