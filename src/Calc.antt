-- ===== src/Calc.antt =====
-- fw/src/rotator_calc.cpp: steps, centidegrees, rates and the IMU home plans. The int64_t values are
-- unbounded integers here: every product below fits in one.
pub mod Round
pub mod Home
use astro_uni_board.Base.{
  ℕ, suc, ◌+◌, ◌-◌, ◌*◌, ◌/◌, ◌^◌, Bool, ◌&&◌, ◌||◌, Option, none, List, [], ◌∷◌, map, ltb, ◌==◌,
  if◌then◌else◌,
}
use astro_uni_board.Base.Int.{ℤ, pos, negsuc, neg, ◌+ℤ◌, ◌-ℤ◌, ltb_ℤ, eqb_ℤ}
use astro_uni_board.Wrap.{full_turn, abs64, pick}

abbrev pub int32_max : ℕ
int32_max = 2147483647

abbrev pub uint32_max : ℕ
uint32_max = 4294967295

-- num / den rounded half away from zero (den > 0)
unfoldable pub div_round : ℤ → ℕ → ℤ
div_round (pos n) den = pos ((n + den / 2) / den)
div_round (negsuc n) den = neg ((suc n + den / 2) / den)

unfoldable pub sat32 : ℤ → ℤ
sat32 v =
    if ltb_ℤ (pos int32_max) v
    then pos int32_max
    else if ltb_ℤ v (negsuc int32_max)
    then negsuc int32_max
    else v

-- A signed factor times an unsigned one.
abbrev pub times : ℤ → ℕ → ℤ
times (pos n) k = pos (n * k)
times (negsuc n) k = neg (suc n * k)

unfoldable pub cdeg_to_steps : ℤ → ℕ → ℤ
unfolding div_round sat32
cdeg_to_steps cdeg spk = sat32 (div_round (times cdeg spk) 100000)

unfoldable pub steps_to_cdeg : ℤ → ℕ → ℤ
unfolding div_round sat32
steps_to_cdeg steps spk = if spk == 0 then pos 0 else sat32 (div_round (times steps 100000) spk)

unfoldable pub rate_to_steps : ℕ → ℕ → ℕ
rate_to_steps rate spk =
    let v = (rate * spk + 100000 / 2) / 100000 in
    if ltb v 1 then 1 else if ltb uint32_max v then uint32_max else v

unfoldable pub rescale_spk : ℕ → ℕ → ℕ → ℕ
rescale_spk spk old_usteps new_usteps =
    if old_usteps == 0
    then spk
    else let v = (spk * new_usteps + old_usteps / 2) / old_usteps in
      if ltb v 1 then 1 else if ltb uint32_max v then uint32_max else v

-- Less wound; then nearer to `current`.
unfoldable pub is_less_wound : ℤ → ℤ → ℤ → Bool
is_less_wound current c best =
    let ac = abs64 c in
    let ab = abs64 best in
    ltb_ℤ ac ab || (eqb_ℤ ac ab && ltb_ℤ (abs64 (c -ℤ current)) (abs64 (best -ℤ current)))

abbrev pub turns : List ℤ
turns = negsuc 2 ∷ negsuc 1 ∷ negsuc 0 ∷ pos 0 ∷ pos 1 ∷ pos 2 ∷ pos 3 ∷ []

unfoldable pub plan_home : ℤ → ℤ → ℤ → ℤ → Option ℤ
unfolding pick
plan_home current roll wrap_min wrap_max =
    let zero_angle = current -ℤ roll in
    pick (is_less_wound current) wrap_min wrap_max none
      (map (λ k. zero_angle +ℤ times k full_turn) turns)

unfoldable pub plan_correction : ℤ → ℤ → ℤ → ℤ → ℤ
plan_correction current roll wrap_min wrap_max =
    let t = current -ℤ roll in
    let t' = if ltb_ℤ t wrap_min then wrap_min else t in if ltb_ℤ wrap_max t' then wrap_max else t'
