-- ===== src/Protocol/RotatorCases.antt =====
-- What a command of fw/src/protocol_rotator.cpp can do to the board: a property that each of its
-- operations keeps is kept by every command.
use astro_uni_board.Base.{
  ℕ, Bool, true, false, Option, none, some, List, [], ◌∷◌, ◌==◌, if◌then◌else◌,
}
use astro_uni_board.Base.Int.{ℤ, pos}
use astro_uni_board.Base.Word.{int32}
use astro_uni_board.Errors.{bad_param}
use astro_uni_board.Rotator.{
  Turntable, Nearby, rotator_angle, rotator_halt, rotator_sync, rotator_move_to, rotator_move_by,
}
use astro_uni_board.Rotator.Sequences.{rotator_imu_home}
use astro_uni_board.Protocol.{Text, Reply, error, int, two, proto_split}
use astro_uni_board.Protocol.RotatorBlock.{
  replied_rot, no_more, one_number, one_in_range, on_value, two_numbers, set_range, on_range,
  set_rot_speed, set_rot_accel, set_rot_reverse, set_spk, set_boot_home, set_home_tol,
  rotator_setting, rotator_command, on_values, protocol_rotator,
}

-- The operations behind the commands.
pub record RotatorKept (first_delay : ℕ → ℕ) (P : Turntable → Type 0) (w : Nearby) (b : Turntable)
    : Type 0 where
  pub stays : P b
  pub moves : (v : ℤ) → P (rotator_move_to first_delay w v b).0
  pub jogs : (v : ℤ) → P (rotator_move_by first_delay w v b).0
  pub halts : P (rotator_halt b)
  pub ranges : (mn mx : ℤ) → P (set_range w mn mx b).0
  pub syncs : (v : ℤ) → P (rotator_sync w v b).0
  pub homes : P (rotator_imu_home w b).0
  pub speeds : (v : ℤ) → P (set_rot_speed b v).0
  pub accels : (v : ℤ) → P (set_rot_accel b v).0
  pub reverses : (v : ℤ) → P (set_rot_reverse w b v).0
  pub scales : (v : ℤ) → P (set_spk w b v).0
  pub boot_homes : (v : ℤ) → P (set_boot_home b v).0
  pub tolerances : (v : ℤ) → P (set_home_tol b v).0

record Kept (P : Turntable → Type 0) (r : Turntable × Reply) : Type 0 where
  kept : P r.0

module _ (P : Turntable → Type 0) where
  choose : (c : Bool) {x y : Turntable × Reply} → Kept P x → Kept P y → Kept P (if c then x else y)
  choose true k l = k
  choose false k l = l

  got : (vs : List Text) (r : Reply) (b : Turntable) → P b → Kept P (no_more vs r b)
  got [] r b p = record { kept = p }
  got (v ∷ vs) r b p = record { kept = p }

  given :
      (o : Option ℤ) (act : ℤ → Turntable × Reply) (b : Turntable)
      → P b
      → ((v : ℤ) → P (act v).0)
      → Kept P (on_value o act b)
  given none act b p keeps = record { kept = p }
  given (some v) act b p keeps = record { kept = keeps v }

  module _ (first_delay : ℕ → ℕ) (w : Nearby) (b : Turntable)
      (k : RotatorKept first_delay P w b) where
    ranged : (p : Option ℤ × Option ℤ) → Kept P (on_range w p b)
    ranged (some mn, some mx) = record { kept = k.ranges mn mx }
    ranged (none, o) = record { kept = k.stays }
    ranged (some mn, none) = record { kept = k.stays }

    setting : (cmd : ℕ) (vs : List Text) → Kept P (rotator_setting w cmd vs b)
    unfolding rotator_setting
    setting cmd vs =
        let r = b.settings.rot in
        choose (cmd == 78) (got vs (int (int32 (pos r.speed))) b k.stays) (
          choose (cmd == 79)
            (given (one_in_range vs (pos 10) (pos 3600)) (set_rot_speed b) b k.stays k.speeds)
            (choose (cmd == 80) (got vs (int (int32 (pos r.accel))) b k.stays) (
              choose (cmd == 81)
                (given (one_in_range vs (pos 10) (pos 36000)) (set_rot_accel b) b k.stays k.accels)
                (choose (cmd == 82)
                  (got vs (int (if r.reverse == 0 then pos 0 else pos 1)) b k.stays)
                  (choose (cmd == 83)
                    (given (one_in_range vs (pos 0) (pos 1)) (set_rot_reverse w b) b k.stays
                      k.reverses)
                    (choose (cmd == 84) (got vs (int (int32 (pos r.steps_per_1000_deg))) b k.stays)
                      (choose (cmd == 85)
                        (given (one_in_range vs (pos 1000) (pos 10000000)) (set_spk w b) b k.stays
                          k.scales)
                        (choose (cmd == 86)
                          (got vs (int (if r.boot_home == 0 then pos 0 else pos 1)) b k.stays)
                          (choose (cmd == 87)
                            (given (one_in_range vs (pos 0) (pos 1)) (set_boot_home b) b k.stays
                              k.boot_homes)
                            (choose (cmd == 88) (got vs (int (pos r.home_tol_cdeg)) b k.stays) (
                              choose (cmd == 89)
                                (given (one_in_range vs (pos 5) (pos 500)) (set_home_tol b) b
                                  k.stays k.tolerances)
                                (record { kept = k.stays }))))))))))))

    homed :
        (vs : List Text)
        → Kept P
            (elim vs [ [] ↦ replied_rot (rotator_imu_home w b) | _ ∷ _ ↦ (b, error bad_param) ])
    homed [] = record { kept = k.homes }
    homed (v ∷ vs) = record { kept = k.stays }

    commanded : (cmd : ℕ) (vs : List Text) → Kept P (rotator_command first_delay w cmd vs b)
    unfolding rotator_command
    commanded cmd vs = choose (cmd == 70) (got vs (int (rotator_angle b)) b k.stays) (
        choose (cmd == 71)
          (given (one_number vs) (λ v. replied_rot (rotator_move_to first_delay w v b)) b k.stays
            k.moves)
          (choose (cmd == 72)
            (given (one_number vs) (λ v. replied_rot (rotator_move_by first_delay w v b)) b k.stays
              k.jogs)
            (choose (cmd == 73) (record { kept = k.halts })
              (choose (cmd == 74)
                (got vs (two b.settings.rot.wrap_min b.settings.rot.wrap_max) b k.stays)
                (choose (cmd == 75) (ranged (two_numbers vs)) (
                  choose (cmd == 76)
                    (given (one_number vs) (λ v. replied_rot (rotator_sync w v b)) b k.stays
                      k.syncs)
                    (choose (cmd == 77) (homed vs) (setting cmd vs))))))))

    answered : (cmd : ℕ) (o : Option (List Text)) → P (on_values first_delay w cmd o b).0
    answered cmd none = pick (cmd == 73)
      where
        pick : (c : Bool) → P (if c then rotator_halt b else b)
        pick true = k.halts
        pick false = k.stays
    answered cmd (some vs) = (commanded cmd vs).kept

    pub protocol_rotator-Kept :
        (cmd : ℕ) (params : Text) → P (protocol_rotator first_delay w cmd params b).0
    unfolding protocol_rotator
    protocol_rotator-Kept cmd params = answered cmd (proto_split params)
