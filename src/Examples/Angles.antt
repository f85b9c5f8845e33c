-- ===== src/Examples/Angles.antt =====
-- The planner and the conversions (fw/src/rotator_wrap.cpp, fw/src/rotator_calc.cpp) at angles that
-- fw/test/test_wrap checks too.
use astro_uni_board.Base.{◌≤◌, ◌≡◌, refl, ◌⊎◌, ◌↔◌, true, none, some, arith}
use astro_uni_board.Base.Int.{ℤ, pos, negsuc, magnitude, ◌+ℤ◌, ◌-ℤ◌}
use astro_uni_board.Wrap.{wrap_plan_target, abs_dist, abs64, is_nearer}
use astro_uni_board.Wrap.Best.{InRange}
use astro_uni_board.Wrap.Plan.{
  IsTurnOf, is_rejected, distance, plan_target_sound, plan_target_complete,
}
use astro_uni_board.Calc.{cdeg_to_steps, plan_home, is_less_wound}
use astro_uni_board.Calc.Home.{IsBounded, turned, plan_home_sound}

-- From +170 degrees to 190 degrees the move goes through 0 to -170.
plan_through_zero :
    wrap_plan_target (pos 17000) (pos 19000) (negsuc 17999) (pos 18000) ≡ some (negsuc 16999)
unfolding wrap_plan_target is_nearer abs_dist abs64 ◌+ℤ◌ ◌-ℤ◌
plan_through_zero = refl

-- A tie goes to the less wound candidate.
plan_tie : wrap_plan_target (negsuc 17999) (pos 0) (negsuc 35999) (pos 0) ≡ some (pos 0)
unfolding wrap_plan_target is_nearer abs_dist abs64 ◌+ℤ◌ ◌-ℤ◌
plan_tie = refl

plan_none : wrap_plan_target (pos 0) (pos 18000) (negsuc 8999) (pos 9000) ≡ none
unfolding wrap_plan_target is_nearer abs_dist abs64 ◌+ℤ◌ ◌-ℤ◌
plan_none = refl

plan_target_sound_example :
    InRange (negsuc 17999) (pos 18000) (negsuc 16999)
    × IsTurnOf (pos 19000) (negsuc 16999)
    × ((c : ℤ)
        → IsTurnOf (pos 19000) c
        → InRange (negsuc 17999) (pos 18000) c
        → distance (negsuc 16999) (pos 17000) ≤ distance c (pos 17000))
plan_target_sound_example =
    plan_target_sound (pos 17000) (pos 19000) (negsuc 17999) (pos 18000) (negsuc 16999)
      plan_through_zero

plan_target_complete_example :
    (wrap_plan_target (pos 0) (pos 18000) (negsuc 8999) (pos 9000) ≡ none) ↔ (
      (is_rejected (pos 18000) (negsuc 8999) (pos 9000) ≡ true)
      ⊎ ((c : ℤ) → IsTurnOf (pos 18000) c → InRange (negsuc 8999) (pos 9000) c → ⊥))
plan_target_complete_example = plan_target_complete (pos 0) (pos 18000) (negsuc 8999) (pos 9000)

steps_default : cdeg_to_steps (negsuc 8999) 88889 ≡ negsuc 7999
unfolding cdeg_to_steps
steps_default = refl

-- One turn too far, the IMU says that the zero lies 350 degrees back: the cable is unwound.
home_unwinds : plan_home (pos 35000) (negsuc 999) (negsuc 35999) (pos 36000) ≡ some (pos 0)
unfolding plan_home is_less_wound abs64 ◌+ℤ◌ ◌-ℤ◌
home_unwinds = refl

home_bounds : IsBounded (pos 35000) (negsuc 999) (negsuc 35999) (pos 36000)
unfolding ◌-ℤ◌
home_bounds = omega arith

plan_home_sound_example :
    InRange (negsuc 35999) (pos 36000) (pos 0)
    × ((k : ℤ) × (pos 0 ≡ turned (pos 35000 -ℤ negsuc 999) k))
    × ((k : ℤ)
        → InRange (negsuc 35999) (pos 36000) (turned (pos 35000 -ℤ negsuc 999) k)
        → magnitude (pos 0) ≤ magnitude (turned (pos 35000 -ℤ negsuc 999) k))
plan_home_sound_example =
    plan_home_sound (pos 35000) (negsuc 999) (negsuc 35999) (pos 36000) (pos 0) home_bounds
      home_unwinds
