-- ===== src/Machine/EnvCases.antt =====
-- What a command of fw/src/protocol_env.cpp can do to the board.
use astro_uni_board.Base.{
  ℕ, ◌≡◌, ◌≤◌, refl, Bool, true, false, not, ◌||◌, Option, none, some, List, [], ◌∷◌, arith, ◌==◌,
  if◌then◌else◌,
}
use astro_uni_board.Base.Int.{ℤ, pos, pos_part, ltb_ℤ}
use astro_uni_board.Rotator.Sequences.{rotator_imu_calibrate}
use astro_uni_board.Env.{EnvSensor, env_selected}
use astro_uni_board.Protocol.{Text, Reply, proto_split, proto_int32}
use astro_uni_board.Machine.{Machine, World, table_of, put_table, nearby, status_any_busy}
use astro_uni_board.Machine.EnvBlock.{
  on_sensor, cmd_climate, up_to, one_up_to, set_env_select, set_rot_guard, on_accel, cmd_imu,
  cmd_calibrate, takes_none, env_command, on_env, protocol_env,
}

pub record EnvKept (P : Machine → Type 0) (w : World) (m : Machine) : Type 0 where
  pub stays : P m
  pub selects : (v : ℕ) → v ≤ 2 → P (set_env_select m v)
  pub guards : (v : ℕ) → v ≤ 1 → P (set_rot_guard m v)
  pub calibrates :
      status_any_busy m ≡ false
      → P (
          put_table
            (record m { tmc = w.drivers })
            (rotator_imu_calibrate (nearby w m) (table_of m)).0)

record Kept (P : Machine → Type 0) (r : Machine × Reply) : Type 0 where
  kept : P r.0

module _ (P : Machine → Type 0) where
  choose :
      (c : Bool) {x y : Machine × Reply}
      → Kept P x
      → (c ≡ false → Kept P y)
      → Kept P (if c then x else y)
  choose true k l = k
  choose false k l = l refl

  module _ (w : World) (m : Machine) (k : EnvKept P w m) where
    same : (r : Reply) → Kept P (m, r)
    same r = record { kept = k.stays }

    sensed : (o : Option EnvSensor) → Kept P (on_sensor o m)
    sensed none = same _
    sensed (some s) = same _

    accelerated : (o : Option (ℤ × ℤ × ℤ)) → Kept P (on_accel o w m)
    accelerated none = same _
    accelerated (some (x, y, z)) = choose (not w.imu_answering) (same _) (λ _. same _)

    bounded :
        (top : ℕ) (o : Option ℤ) (act : ℕ → Machine)
        → ((v : ℕ) → v ≤ top → P (act v))
        → Kept P (up_to top o act m)
    bounded top none act keeps = same _
    bounded top (some v) act keeps =
        choose (ltb_ℤ v (pos 0) || ltb_ℤ (pos top) v) (same _)
          (λ e. record { kept = keeps (pos_part v) (ground (arith, e)) })

    one_bounded :
        (top : ℕ) (vs : List Text) (act : ℕ → Machine)
        → ((v : ℕ) → v ≤ top → P (act v))
        → Kept P (one_up_to top vs act m)
    one_bounded top [] act keeps = same _
    one_bounded top (v ∷ []) act keeps = bounded top (proto_int32 v) act keeps
    one_bounded top (v ∷ u ∷ vs) act keeps = same _

    climate : Kept P (cmd_climate m)
    unfolding cmd_climate
    climate = sensed (env_selected m.settings.env_select m.env)

    imu : Kept P (cmd_imu w m)
    unfolding cmd_imu
    imu = accelerated w.imu_accel

    calibrated : Kept P (cmd_calibrate w m)
    unfolding cmd_calibrate
    calibrated =
        choose (status_any_busy m) (same _)
          (λ free. choose (not w.imu_answering) (same _) (λ _. record { kept = k.calibrates free }))

    commanded :
        (calibration : List ℤ) (cmd : ℕ) (vs : List Text)
        → Kept P (env_command w calibration cmd vs m)
    unfolding env_command
    commanded calibration cmd vs = choose (not (takes_none cmd vs)) (same _) (λ _.
        choose (cmd == 90) climate (λ _. choose (cmd == 91) (same _) (λ _.
          choose (cmd == 92) (same _) (λ _.
            choose (cmd == 93) (one_bounded 2 vs (set_env_select m) k.selects) (λ _.
              choose (cmd == 94) imu (λ _. choose (cmd == 95) calibrated (λ _.
                choose (cmd == 96) (same _) (λ _. choose (cmd == 97) (same _) (λ _.
                  choose (cmd == 98) (one_bounded 1 vs (set_rot_guard m) k.guards)
                    (λ _. same _))))))))))

    answered :
        (calibration : List ℤ) (cmd : ℕ) (o : Option (List Text))
        → P (on_env w calibration cmd o m).0
    answered calibration cmd none = k.stays
    answered calibration cmd (some vs) = (commanded calibration cmd vs).kept

    pub protocol_env-Kept :
        (calibration : List ℤ) (cmd : ℕ) (params : Text)
        → P (protocol_env w calibration cmd params m).0
    unfolding protocol_env
    protocol_env-Kept calibration cmd params = answered calibration cmd (proto_split params)
