-- ===== src/Protocol/FocuserCases.antt =====
-- What a command of fw/src/protocol_focuser.cpp can do to the board: a property that each of its
-- operations keeps is kept by every command.
use astro_uni_board.Base.{
  ℕ, ◌≡◌, refl, Bool, true, false, Option, none, some, arith, ◌==◌, if◌then◌else◌,
}
use astro_uni_board.Base.Int.{ℤ, pos, ◌≤ℤ◌}
use astro_uni_board.Base.Word.{int32}
use astro_uni_board.Board.{Board, Around}
use astro_uni_board.Focuser.{focuser_move_to, focuser_move_by, focuser_halt, focuser_sync}
use astro_uni_board.Protocol.{Text, Reply, one_value, no_value}
use astro_uni_board.Protocol.FocuserBlock.{
  getter, setter_of, setter, set_max, set_foc_speed, set_foc_accel, set_backlash, set_foc_reverse,
  set_step_size, focuser_setting, protocol_focuser, int32_min, int32_top, replied,
}

one_value-range :
    (params : Text) (lo hi v : ℤ) → one_value params lo hi ≡ some v → (lo ≤ℤ v) × (v ≤ℤ hi)
unfolding one_value
one_value-range params lo hi v h = ground arith

-- The operations behind the commands, with the ranges of their values.
pub record FocuserKept (first_delay : ℕ → ℕ) (P : Board → Type 0) (w : Around) (b : Board)
    : Type 0 where
  pub stays : P b
  pub moves : (v : ℤ) → P (focuser_move_to first_delay w v b).0
  pub jogs : (v : ℤ) → P (focuser_move_by first_delay w v b).0
  pub halts : P (focuser_halt b)
  pub syncs : (v : ℤ) → P (focuser_sync w v b).0
  pub limits : (v : ℤ) → pos 1 ≤ℤ v → v ≤ℤ pos 10000000 → P (set_max b v).0
  pub speeds : (v : ℤ) → P (set_foc_speed b v).0
  pub accels : (v : ℤ) → P (set_foc_accel b v).0
  pub backlashes : (v : ℤ) → pos 0 ≤ℤ v → v ≤ℤ pos 10000 → P (set_backlash b v).0
  pub reverses : (v : ℤ) → P (set_foc_reverse b v).0
  pub sizes : (v : ℤ) → P (set_step_size b v).0

-- The state that an answer comes with has the property.
record Kept (P : Board → Type 0) (r : Board × Reply) : Type 0 where
  kept : P r.0

module _ (P : Board → Type 0) where
  choose : (c : Bool) {x y : Board × Reply} → Kept P x → Kept P y → Kept P (if c then x else y)
  choose true k l = k
  choose false k l = l

  got : (params : Text) (v : ℤ) (b : Board) → P b → Kept P (getter params v b)
  unfolding getter
  got params v b p = choose (no_value params) (record { kept = p }) (record { kept = p })

  set_of :
      (o : Option ℤ) (act : ℤ → Board × Reply) (b : Board)
      → P b
      → ((v : ℤ) → o ≡ some v → P (act v).0)
      → Kept P (setter_of o act b)
  set_of none act b p keeps = record { kept = p }
  set_of (some v) act b p keeps = record { kept = keeps v refl }

  given :
      (params : Text) (lo hi : ℤ) (act : ℤ → Board × Reply) (b : Board)
      → P b
      → ((v : ℤ) → lo ≤ℤ v → v ≤ℤ hi → P (act v).0)
      → Kept P (setter params lo hi act b)
  unfolding setter
  given params lo hi act b p keeps =
      set_of (one_value params lo hi) act b p
        (λ v e. let (l, h) = one_value-range params lo hi v e in keeps v l h)

  module _ (first_delay : ℕ → ℕ) (w : Around) (b : Board) (k : FocuserKept first_delay P w b) where
    setting : (cmd : ℕ) (params : Text) → Kept P (focuser_setting cmd params b)
    unfolding focuser_setting
    setting cmd params = choose (cmd == 54) (got params b.settings.foc.max_pos b k.stays) (
        choose (cmd == 55) (given params (pos 1) (pos 10000000) (set_max b) b k.stays k.limits) (
          choose (cmd == 58) (got params (int32 (pos b.settings.foc.speed)) b k.stays) (
            choose (cmd == 59)
              (given params (pos 1) (pos 20000) (set_foc_speed b) b k.stays (λ v l h. k.speeds v))
              (choose (cmd == 60) (got params (int32 (pos b.settings.foc.accel)) b k.stays) (
                choose (cmd == 61)
                  (given params (pos 1) (pos 100000) (set_foc_accel b) b k.stays
                    (λ v l h. k.accels v))
                  (choose (cmd == 62) (got params (int32 (pos b.settings.foc.backlash)) b k.stays) (
                    choose (cmd == 63)
                      (given params (pos 0) (pos 10000) (set_backlash b) b k.stays k.backlashes)
                      (choose (cmd == 64)
                        (got params (if b.settings.foc.reverse == 0 then pos 0 else pos 1) b
                          k.stays)
                        (choose (cmd == 65)
                          (given params (pos 0) (pos 1) (set_foc_reverse b) b k.stays
                            (λ v l h. k.reverses v))
                          (choose (cmd == 66)
                            (got params (int32 (pos b.settings.foc.step_size)) b k.stays)
                            (choose (cmd == 67)
                              (given params (pos 0) (pos 100000) (set_step_size b) b k.stays
                                (λ v l h. k.sizes v))
                              (record { kept = k.stays }))))))))))))

    answered : (cmd : ℕ) (params : Text) → Kept P (protocol_focuser first_delay w cmd params b)
    unfolding protocol_focuser
    answered cmd params = choose (cmd == 50) (got params b.axis.position b k.stays) (
        choose (cmd == 51)
          (given params int32_min int32_top (λ v. replied (focuser_move_to first_delay w v b)) b
            k.stays (λ v l h. k.moves v))
          (choose (cmd == 52)
            (given params int32_min int32_top (λ v. replied (focuser_move_by first_delay w v b)) b
              k.stays (λ v l h. k.jogs v))
            (choose (cmd == 53)
              (choose (no_value params) (record { kept = k.halts }) (record { kept = k.stays }))
              (choose (cmd == 56)
                (given params int32_min int32_top (λ v. replied (focuser_sync w v b)) b k.stays
                  (λ v l h. k.syncs v))
                (setting cmd params)))))

    pub protocol_focuser-Kept :
        (cmd : ℕ) (params : Text) → P (protocol_focuser first_delay w cmd params b).0
    protocol_focuser-Kept cmd params = (answered cmd params).kept
