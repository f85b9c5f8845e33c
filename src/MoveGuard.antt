-- ===== src/MoveGuard.antt =====
-- fw/src/move_guard.cpp: which host moves are allowed while a position is not trustworthy.
use astro_uni_board.Base.{ℕ, Bool, not, ◌||◌, if◌then◌else◌}
use astro_uni_board.Base.Int.{ℤ, pos, neg, ltb_ℤ}
use astro_uni_board.Errors.{FwError, fw_ok, pos_unverified}

abbrev pub safe_jog_foc_steps : ℕ
safe_jog_foc_steps = 200

abbrev pub safe_jog_rot_cdeg : ℕ
safe_jog_rot_cdeg = 1000

pub record MoveGuardIn : Type 0 where
  pub safe_mode : Bool
  pub suspect : Bool
  pub guard_on : Bool
  pub absolute : Bool
  pub delta : ℤ
  pub jog_limit : ℕ

unfoldable pub move_guard : MoveGuardIn → FwError
move_guard g =
    if not g.suspect
    then fw_ok
    else if g.safe_mode
    then if g.absolute
      then pos_unverified
      else if ltb_ℤ (pos g.jog_limit) g.delta || ltb_ℤ g.delta (neg g.jog_limit)
      then pos_unverified
      else fw_ok
    else if g.guard_on
    then pos_unverified
    else fw_ok
