-- ===== src/Calc/Home.antt =====
-- The plans of IMU home in fw/src/rotator_calc.cpp: the first pass and the corrections.
use astro_uni_board.Base.{
  ℕ, zero, suc, ◌+◌, ◌*◌, ◌≤◌, ◌≡◌, refl, subst, ◌↔◌, ◌⊎◌, inl, inr, Bool, true, false, ◌&&◌, ◌||◌,
  none, some, List, [], ◌∷◌, map, arith, ltb, ◌==◌,
}
use astro_uni_board.Base.Int.{
  ℤ, pos, negsuc, neg, magnitude, magnitude-parts, neg_parts, pos_part, neg_part, ◌+ℤ◌, ◌-ℤ◌, ◌≤ℤ◌,
  +ℤ_parts, int_laws,
}
use astro_uni_board.Wrap.{full_turn}
use astro_uni_board.Wrap.Best.{InRange, Among, Unbeaten, IsPreference, Best, NoneFits, pick-Best}
use astro_uni_board.Wrap.Plan.{distance, abs64-pos}
use astro_uni_board.Calc.{times, is_less_wound, turns, plan_home, plan_correction}

record Keys : Type 0 where
  wound : ℕ
  dist : ℕ

prefers : Keys → Keys → Bool
prefers c b =
    ltb (c.wound + 0) (b.wound + 0)
    || ((c.wound + 0 == b.wound + 0) && ltb (c.dist + 0) (b.dist + 0))

keys : ℤ → ℤ → Keys
keys current c = record { wound = magnitude c; dist = distance c current }

is_less_wound-prefers :
    (current c b : ℤ) → is_less_wound current c b ≡ prefers (keys current c) (keys current b)
unfolding is_less_wound prefers keys
is_less_wound-prefers current c b =
    rw (abs64-pos c, abs64-pos b, abs64-pos (c -ℤ current), abs64-pos (b -ℤ current))

prefers-asym : (x y : Keys) → prefers x y ≡ true → prefers y x ≡ false
unfolding prefers
prefers-asym x y h = ground arith

prefers-between : (x y z : Keys) → prefers x y ≡ false → prefers y z ≡ false → prefers x z ≡ false
unfolding prefers
prefers-between x y z h k = ground arith

prefers-wound : (x y : Keys) → prefers x y ≡ false → y.wound ≤ x.wound
unfolding prefers
prefers-wound x y h = ground arith

is_less_wound-IsPreference : (current : ℤ) → IsPreference (is_less_wound current)
is_less_wound-IsPreference current = record {
  asym = λ x y h. rw is_less_wound-prefers (prefers-asym _ _ (rw is_less_wound-prefers at h));
  between = λ x y z h k. rw is_less_wound-prefers (
      prefers-between _ (keys current y) _ (rw is_less_wound-prefers at h)
        (rw is_less_wound-prefers at k));
}

is_less_wound-magnitude :
    (current c b : ℤ) → is_less_wound current c b ≡ false → magnitude b ≤ magnitude c
unfolding keys
is_less_wound-magnitude current c b h =
    prefers-wound (keys current c) (keys current b) (rw is_less_wound-prefers at h)

-- `c` is the angle `z` turned by `k` full turns.
abbrev pub turned : ℤ → ℤ → ℤ
turned z k = z +ℤ times k full_turn

module _ (better : ℤ → ℤ → Bool) (z lo hi : ℤ) where
  Unbeaten-Among :
      (r c : ℤ) (ks : List ℤ)
      → Unbeaten better lo hi r (map (turned z) ks)
      → Among c (map (turned z) ks)
      → InRange lo hi c
      → better c r ≡ false
  Unbeaten-Among r c [] u m fits = absurd m
  Unbeaten-Among r c (k ∷ ks) u (inl e) fits = rw e (u.0 (rw e at fits))
  Unbeaten-Among r c (k ∷ ks) u (inr m) fits = Unbeaten-Among r c ks u.1 m fits

  none-Among :
      (c : ℤ) (ks : List ℤ)
      → NoneFits better lo hi (map (turned z) ks)
      → Among c (map (turned z) ks)
      → InRange lo hi c
      → ⊥
  none-Among c [] n m fits = m
  none-Among c (k ∷ ks) n (inl e) fits = n.0 (rw e at fits)
  none-Among c (k ∷ ks) n (inr m) fits = none-Among c ks n.1 m fits

  Among-turns : (c : ℤ) (ks : List ℤ) → Among c (map (turned z) ks) → (k : ℤ) × (c ≡ turned z k)
  Among-turns c [] m = absurd m
  Among-turns c (k ∷ ks) (inl e) = (k, e)
  Among-turns c (k ∷ ks) (inr m) = Among-turns c ks m

turned-up :
    (z : ℤ) (k : ℕ)
    → pos_part (turned z (pos k)) + neg_part z
      ≡ neg_part (turned z (pos k)) + pos_part z + k * 36000
turned-up z k = omega int_laws

turned-down :
    (z : ℤ) (k : ℕ)
    → pos_part (turned z (negsuc k)) + neg_part z + suc k * 36000
      ≡ neg_part (turned z (negsuc k)) + pos_part z
turned-down z k = omega (arith, +ℤ_parts z (neg (suc k * 36000)), neg_parts (suc k * 36000))

too_far_up :
    (z lo hi : ℤ) (k : ℕ)
    → magnitude z ≤ 54000
    → hi ≤ℤ pos 36000
    → InRange lo hi (turned z (pos (suc (suc (suc (suc k))))))
    → ⊥
too_far_up z lo hi k a c f = omega (arith, magnitude-parts z, turned-up z (suc (suc (suc (suc k)))))

too_far_down :
    (z lo hi : ℤ) (k : ℕ)
    → magnitude z ≤ 54000
    → negsuc 35999 ≤ℤ lo
    → InRange lo hi (turned z (negsuc (suc (suc (suc k)))))
    → ⊥
too_far_down z lo hi k a b f = omega (arith, magnitude-parts z, turned-down z (suc (suc (suc k))))

-- Seven turns are enough: the saved angle, the roll and the wrap range are bounded.
turn-Among :
    (z lo hi k : ℤ)
    → magnitude z ≤ 54000
    → negsuc 35999 ≤ℤ lo
    → hi ≤ℤ pos 36000
    → InRange lo hi (turned z k)
    → Among (turned z k) (map (turned z) turns)
turn-Among z lo hi (pos zero) a b c f = inr (inr (inr (inl refl)))
turn-Among z lo hi (pos (suc zero)) a b c f = inr (inr (inr (inr (inl refl))))
turn-Among z lo hi (pos (suc (suc zero))) a b c f = inr (inr (inr (inr (inr (inl refl)))))
turn-Among z lo hi (pos (suc (suc (suc zero)))) a b c f =
    inr (inr (inr (inr (inr (inr (inl refl))))))
turn-Among z lo hi (pos (suc (suc (suc (suc k))))) a b c f = absurd (too_far_up z lo hi k a c f)
turn-Among z lo hi (negsuc zero) a b c f = inr (inr (inl refl))
turn-Among z lo hi (negsuc (suc zero)) a b c f = inr (inl refl)
turn-Among z lo hi (negsuc (suc (suc zero))) a b c f = inl refl
turn-Among z lo hi (negsuc (suc (suc (suc k)))) a b c f = absurd (too_far_down z lo hi k a b f)

plan_home_cases :
    (current roll lo hi : ℤ)
    → let plan = plan_home current roll lo hi in
      let cs = map (turned (current -ℤ roll)) turns in
      ((plan ≡ none) × NoneFits (is_less_wound current) lo hi cs)
      ⊎ ((r : ℤ) × (plan ≡ some r) × Best (is_less_wound current) lo hi cs r)
unfolding plan_home
plan_home_cases current roll lo hi =
    pick-Best (is_less_wound current) lo hi (is_less_wound-IsPreference current)
      (map (turned (current -ℤ roll)) turns)

pub plan_home-InRange :
    (current roll lo hi t : ℤ) → plan_home current roll lo hi ≡ some t → InRange lo hi t
plan_home-InRange current roll lo hi t h = elim (plan_home_cases current roll lo hi) [
  | inl (e, _) ↦ cc
  | inr (r, e, (fits, _, _)) ↦ let same : r ≡ t = cc in subst (InRange lo hi) same fits
]

-- The bounds that the settings and the IMU keep: the IMU zero is at most one and a half turns away,
-- and the wrap range is within one turn either way.
abbrev pub IsBounded : ℤ → ℤ → ℤ → ℤ → Type 0
IsBounded current roll lo hi =
    (magnitude (current -ℤ roll) ≤ 54000) × (negsuc 35999 ≤ℤ lo) × (hi ≤ℤ pos 36000)

-- The home plan is the IMU zero up to full turns, inside the wrap range, and of all such angles the
-- one nearest to 0, so that homing unwinds the cable.
pub plan_home_sound :
    (current roll lo hi t : ℤ)
    → IsBounded current roll lo hi
    → plan_home current roll lo hi ≡ some t
    → InRange lo hi t
      × ((k : ℤ) × (t ≡ turned (current -ℤ roll) k))
      × ((k : ℤ)
          → InRange lo hi (turned (current -ℤ roll) k)
          → magnitude t ≤ magnitude (turned (current -ℤ roll) k))
plan_home_sound current roll lo hi t b h = elim (plan_home_cases current roll lo hi) [
  | inl (e, _) ↦ cc
  | inr (r, e, (fits, m, u)) ↦
      let same : r ≡ t = cc in
      let z = current -ℤ roll in
      (
        subst (InRange lo hi) same fits,
        Among-turns (is_less_wound current) z lo hi t turns
            (subst (λ x. Among x (map (turned z) turns)) same m),
        λ k f. is_less_wound-magnitude current (turned z k) t (
            Unbeaten-Among (is_less_wound current) z lo hi t (turned z k) turns
              (subst (λ x. Unbeaten (is_less_wound current) lo hi x (map (turned z) turns)) same u)
              (turn-Among z lo hi k b.0 b.1 b.2 f) f),
      )
]

-- Homing finds no plan exactly when no full turn of the IMU zero lies inside the wrap range.
pub plan_home_complete :
    (current roll lo hi : ℤ)
    → IsBounded current roll lo hi
    → (plan_home current roll lo hi ≡ none)
      ↔ ((k : ℤ) → InRange lo hi (turned (current -ℤ roll) k) → ⊥)
plan_home_complete current roll lo hi b = elim (plan_home_cases current roll lo hi) [
  | inl (e, n) ↦
      let z = current -ℤ roll in
      (
        λ _ k f.
            none-Among (is_less_wound current) z lo hi (turned z k) turns n
              (turn-Among z lo hi k b.0 b.1 b.2 f) f,
        λ _. e,
      )
  | inr (r, e, (fits, m, _)) ↦
      let z = current -ℤ roll in
      let (k, turn) = Among-turns (is_less_wound current) z lo hi r turns m in
      (λ nothing. cc, λ impossible. absurd (impossible k (subst (InRange lo hi) turn fits)))
]

-- A correction never leaves the wrap range, and is exact where the corrected angle lies inside it.
pub plan_correction_clamps :
    (current roll lo hi : ℤ)
    → lo ≤ℤ hi
    → InRange lo hi (plan_correction current roll lo hi)
      × (InRange lo hi (current -ℤ roll) → plan_correction current roll lo hi ≡ current -ℤ roll)
unfolding plan_correction
plan_correction_clamps current roll lo hi h = (ground arith, λ f. ground arith)
