-- ===== src/Calc/Round.antt =====
-- How far the conversions of fw/src/rotator_calc.cpp between steps and centidegrees are exact.
use astro_uni_board.Base.{ℕ, zero, suc, ◌+◌, ◌*◌, ◌/◌, ◌≤◌, ◌<◌, ◌≡◌, refl, ap, arith}
use astro_uni_board.Base.Int.{ℤ, pos, negsuc, neg, magnitude, ◌≤ℤ◌}
use astro_uni_board.Calc.{int32_max, div_round, sat32, times, cdeg_to_steps, steps_to_cdeg}

-- A rounded quotient, times its divisor, is within half a divisor of the dividend.
round_error :
    (n d : ℕ) → 0 < d → ((n + d / 2) / d * d ≤ n + d / 2) × (n + d / 2 < (n + d / 2) / d * d + d)
round_error n d h = (grind arith, grind arith)

sat32-fits : (v : ℤ) → magnitude v ≤ int32_max → sat32 v ≡ v
unfolding sat32
sat32-fits v h = ground arith

-- The number of steps that a magnitude of centidegrees rounds to, and back.
abbrev steps_of : ℕ → ℕ → ℕ
steps_of c spk = (c * spk + 50000) / 100000

abbrev cdeg_of : ℕ → ℕ → ℕ
cdeg_of s spk = (s * 100000 + spk / 2) / spk

steps_of-cdeg_of : (s spk : ℕ) → 0 < spk → spk < 100000 → steps_of (cdeg_of s spk) spk ≡ s
steps_of-cdeg_of s spk h k = let (a, b) = round_error (s * 100000) spk h in omega arith

magnitude-neg : (k : ℕ) → magnitude (neg k) ≡ k
magnitude-neg zero = refl
magnitude-neg (suc k) = refl

zero_product : (k : ℕ) → 0 * k ≡ 0
zero_product k = omega arith

times-neg : (k m : ℕ) → times (neg k) m ≡ neg (k * m)
times-neg zero m = rw zero_product
times-neg (suc k) m = refl

half_below : (d : ℕ) → 0 < d → (0 + d / 2) / d ≡ 0
half_below d h = grind arith

div_round-neg : (k d : ℕ) → 0 < d → div_round (neg k) d ≡ neg ((k + d / 2) / d)
unfolding div_round
div_round-neg zero d h = rw (half_below d h)
div_round-neg (suc k) d h = refl

cdeg_to_steps-pos :
    (c spk : ℕ) → steps_of c spk ≤ int32_max → cdeg_to_steps (pos c) spk ≡ pos (steps_of c spk)
unfolding cdeg_to_steps
cdeg_to_steps-pos c spk h = sat32-fits _ h

cdeg_to_steps-neg :
    (c spk : ℕ) → steps_of c spk ≤ int32_max → cdeg_to_steps (neg c) spk ≡ neg (steps_of c spk)
unfolding cdeg_to_steps
cdeg_to_steps-neg c spk h =
    rw (times-neg c spk, div_round-neg (c * spk) 100000 (omega arith))
      (sat32-fits _ (rw magnitude-neg h))

steps_to_cdeg-pos :
    (s spk : ℕ)
    → 0 < spk
    → cdeg_of s spk ≤ int32_max
    → steps_to_cdeg (pos s) spk ≡ pos (cdeg_of s spk)
unfolding steps_to_cdeg
steps_to_cdeg-pos s spk h k = ground (arith, sat32-fits (pos (cdeg_of s spk)))

steps_to_cdeg-neg :
    (s spk : ℕ)
    → 0 < spk
    → cdeg_of s spk ≤ int32_max
    → steps_to_cdeg (neg s) spk ≡ neg (cdeg_of s spk)
unfolding steps_to_cdeg
steps_to_cdeg-neg s spk h k =
    rw (times-neg s 100000, div_round-neg (s * 100000) spk h)
      (ground (arith, sat32-fits (neg (cdeg_of s spk)), magnitude-neg (cdeg_of s spk)))

-- With fewer than 100000 microsteps per 1000 degrees (the default is 88889), a step position turned
-- into an angle and back is the same position, as long as the angle fits an int32_t.
pub steps_roundtrip :
    (s : ℤ) (spk : ℕ)
    → 0 < spk
    → spk < 100000
    → magnitude s ≤ int32_max
    → (magnitude s * 100000 + spk / 2) / spk ≤ int32_max
    → cdeg_to_steps (steps_to_cdeg s spk) spk ≡ s
steps_roundtrip (pos n) spk h k small fits =
    let back = steps_of-cdeg_of n spk h k in
    rw (steps_to_cdeg-pos n spk h fits)
      (rw (cdeg_to_steps-pos (cdeg_of n spk) spk (rw back small)) (ap pos back))
steps_roundtrip (negsuc n) spk h k small fits =
    let back = steps_of-cdeg_of (suc n) spk h k in
    rw (steps_to_cdeg-neg (suc n) spk h fits)
      (rw (cdeg_to_steps-neg (cdeg_of (suc n) spk) spk (rw back small)) (ap neg back))

sat32_mono : (v w : ℤ) → v ≤ℤ w → sat32 v ≤ℤ sat32 w
unfolding sat32
sat32_mono v w h = ground arith

product_mono : (a b k : ℕ) → a ≤ b → a * k ≤ b * k
product_mono a b k h = grind arith

neg-le-pos : (a b : ℕ) → neg a ≤ℤ pos b
neg-le-pos zero b = omega arith
neg-le-pos (suc a) b = omega arith

neg_mono : (a b : ℕ) → a ≤ b → neg b ≤ℤ neg a
neg_mono zero zero h = omega arith
neg_mono zero (suc b) h = omega arith
neg_mono (suc a) zero h = absurd (omega arith)
neg_mono (suc a) (suc b) h = omega arith

div_round_mono :
    (c d : ℤ) (spk : ℕ) → c ≤ℤ d → div_round (times c spk) 100000 ≤ℤ div_round (times d spk) 100000
div_round_mono (pos c) (pos d) spk h =
    unfold div_round in omega (arith, product_mono c d spk (omega arith))
div_round_mono (pos c) (negsuc d) spk h = absurd (omega arith)
div_round_mono (negsuc c) (pos d) spk h =
    rw (div_round-neg (suc c * spk) 100000 (omega arith))
      (unfold div_round in neg-le-pos ((suc c * spk + 50000) / 100000) ((d * spk + 50000) / 100000))
div_round_mono (negsuc c) (negsuc d) spk h =
    rw
      (
        div_round-neg (suc c * spk) 100000 (omega arith),
        div_round-neg (suc d * spk) 100000 (omega arith),
      )
      (neg_mono _ _ (omega (arith, product_mono (suc d) (suc c) spk (omega arith))))

-- The step position grows with the angle, saturation included: an angle between two others has a
-- step position between theirs.
pub cdeg_to_steps_mono : (a b : ℤ) (spk : ℕ) → a ≤ℤ b → cdeg_to_steps a spk ≤ℤ cdeg_to_steps b spk
unfolding cdeg_to_steps
cdeg_to_steps_mono a b spk h =
    sat32_mono (div_round (times a spk) 100000) (div_round (times b spk) 100000)
      (div_round_mono a b spk h)
