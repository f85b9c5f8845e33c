-- ===== src/Wrap/Plan.antt =====
-- What `wrapPlanTarget` (fw/src/rotator_wrap.cpp) chooses.
use astro_uni_board.Base.{
  ℕ, ◌+◌, ◌≤◌, ◌↔◌, subst, ◌≡◌, ◌⊎◌, inl, inr, Bool, true, false, ◌&&◌, ◌||◌, none, some, arith,
  ltb, ◌==◌, Bool-cases,
}
use astro_uni_board.Base.Int.{ℤ, pos, pos_part, neg_part, magnitude, ◌+ℤ◌, ◌-ℤ◌, ltb_ℤ}
use astro_uni_board.Wrap.{full_turn, abs_dist, abs64, is_nearer, candidates, wrap_plan_target}
use astro_uni_board.Wrap.Best.{InRange, Among, Unbeaten, IsPreference, Best, NoneFits, pick-Best}

-- The distance of two angles, as a number.
abbrev pub distance : ℤ → ℤ → ℕ
distance a b = magnitude (a -ℤ b)

pub abs_dist-pos : (a b : ℤ) → abs_dist a b ≡ pos (distance a b)
unfolding abs_dist ◌-ℤ◌
abs_dist-pos a b = ground arith

pub abs64-pos : (a : ℤ) → abs64 a ≡ pos (magnitude a)
unfolding abs64 ◌-ℤ◌
abs64-pos a = ground arith

-- The preference on its four keys: distance, magnitude, and the two parts of the angle.
record Keys : Type 0 where
  dist : ℕ
  wound : ℕ
  up : ℕ
  down : ℕ

prefers : Keys → Keys → Bool
prefers c b =
    ltb (c.dist + 0) (b.dist + 0)
    || ((c.dist + 0 == b.dist + 0)
        && (ltb (c.wound + 0) (b.wound + 0)
            || ((c.wound + 0 == b.wound + 0) && ltb (b.up + c.down) (c.up + b.down))))

keys : ℤ → ℤ → Keys
keys current c = record {
  dist = distance c current;
  wound = magnitude c;
  up = pos_part c;
  down = neg_part c;
}

is_nearer-prefers :
    (current c b : ℤ) → is_nearer current c b ≡ prefers (keys current c) (keys current b)
unfolding is_nearer prefers keys
is_nearer-prefers current c b =
    rw (abs_dist-pos c current, abs_dist-pos b current, abs64-pos c, abs64-pos b)

prefers-asym : (x y : Keys) → prefers x y ≡ true → prefers y x ≡ false
unfolding prefers
prefers-asym x y h = ground arith

prefers-between : (x y z : Keys) → prefers x y ≡ false → prefers y z ≡ false → prefers x z ≡ false
unfolding prefers
prefers-between x y z h k = ground arith

prefers-dist : (x y : Keys) → prefers x y ≡ false → y.dist ≤ x.dist
unfolding prefers
prefers-dist x y h = ground arith

is_nearer-IsPreference : (current : ℤ) → IsPreference (is_nearer current)
is_nearer-IsPreference current = record {
  asym = λ x y h. rw is_nearer-prefers (prefers-asym _ _ (rw is_nearer-prefers at h));
  between = λ x y z h k. rw is_nearer-prefers (
      prefers-between _ (keys current y) _ (rw is_nearer-prefers at h) (rw is_nearer-prefers at k));
}

is_nearer-dist :
    (current c b : ℤ) → is_nearer current c b ≡ false → distance b current ≤ distance c current
unfolding keys
is_nearer-dist current c b h =
    prefers-dist (keys current c) (keys current b) (rw is_nearer-prefers at h)

-- The signed angles that mean `target`.
abbrev pub IsTurnOf : ℤ → ℤ → Type 0
IsTurnOf target t = (t ≡ target -ℤ pos full_turn) ⊎ (t ≡ target) ⊎ (t ≡ target +ℤ pos full_turn)

abbrev pub is_rejected : ℤ → ℤ → ℤ → Bool
is_rejected target wrap_min wrap_max =
    ltb_ℤ target (pos 0) || ltb_ℤ (pos 35999) target || ltb_ℤ wrap_max wrap_min

Unbeaten-turn :
    (current target lo hi r c : ℤ)
    → Unbeaten (is_nearer current) lo hi r (candidates target)
    → IsTurnOf target c
    → InRange lo hi c
    → distance r current ≤ distance c current
Unbeaten-turn current target lo hi r c u (inl e) fits =
    is_nearer-dist current c r (rw e (u.0 (rw e at fits)))
Unbeaten-turn current target lo hi r c u (inr (inl e)) fits =
    is_nearer-dist current c r (rw e (u.1.0 (rw e at fits)))
Unbeaten-turn current target lo hi r c u (inr (inr e)) fits =
    is_nearer-dist current c r (rw e (u.1.1.0 (rw e at fits)))

no_turn_fits :
    (better : ℤ → ℤ → Bool) (target lo hi c : ℤ)
    → NoneFits better lo hi (candidates target)
    → IsTurnOf target c
    → InRange lo hi c
    → ⊥
no_turn_fits better target lo hi c n (inl e) fits = n.0 (rw e at fits)
no_turn_fits better target lo hi c n (inr (inl e)) fits = n.1.0 (rw e at fits)
no_turn_fits better target lo hi c n (inr (inr e)) fits = n.1.1.0 (rw e at fits)

Among-IsTurnOf : (target c : ℤ) → Among c (candidates target) → IsTurnOf target c
Among-IsTurnOf target c (inl e) = inl e
Among-IsTurnOf target c (inr (inl e)) = inr (inl e)
Among-IsTurnOf target c (inr (inr (inl e))) = inr (inr e)
Among-IsTurnOf target c (inr (inr (inr f))) = absurd f

plan_target_cases :
    (current target lo hi : ℤ)
    → let plan = wrap_plan_target current target lo hi in
      ((is_rejected target lo hi ≡ true) × (plan ≡ none))
      ⊎ ((plan ≡ none) × NoneFits (is_nearer current) lo hi (candidates target))
      ⊎ ((r : ℤ) × (plan ≡ some r) × Best (is_nearer current) lo hi (candidates target) r)
unfolding wrap_plan_target
plan_target_cases current target lo hi = elim (Bool-cases (is_rejected target lo hi)) [
  | inl bad ↦ inl (bad, ground arith)
  | inr good ↦
      elim (pick-Best (is_nearer current) lo hi (is_nearer-IsPreference current)
        (candidates target)) [
          | inl (e, n) ↦ inr (inl (ground arith, n))
          | inr (r, e, best) ↦ inr (inr (r, ground arith, best))
        ]
]

-- A planned angle is one of the turns of the target, inside the range, and no turn of the target
-- inside the range is nearer to the current angle.
pub plan_target_sound :
    (current target lo hi t : ℤ)
    → wrap_plan_target current target lo hi ≡ some t
    → InRange lo hi t
      × IsTurnOf target t
      × ((c : ℤ) → IsTurnOf target c → InRange lo hi c → distance t current ≤ distance c current)
plan_target_sound current target lo hi t h = elim (plan_target_cases current target lo hi) [
  | inl (_, e) ↦ cc
  | inr (inl (e, _)) ↦ cc
  | inr (inr (r, e, (k, m, u))) ↦
      let same : r ≡ t = cc in
      (
        subst (InRange lo hi) same k,
        Among-IsTurnOf target t (subst (λ x. Among x (candidates target)) same m),
        λ c turn fits.
            Unbeaten-turn current target lo hi t c
              (subst (λ x. Unbeaten (is_nearer current) lo hi x (candidates target)) same u) turn
              fits,
      )
]

IsTurnOf-Among : (target c : ℤ) → IsTurnOf target c → Among c (candidates target)
IsTurnOf-Among target c (inl e) = inl e
IsTurnOf-Among target c (inr (inl e)) = inr (inl e)
IsTurnOf-Among target c (inr (inr e)) = inr (inr (inl e))

rejected_none :
    (current target lo hi : ℤ)
    → is_rejected target lo hi ≡ true
    → wrap_plan_target current target lo hi ≡ none
unfolding wrap_plan_target
rejected_none current target lo hi h = ground arith

-- A plan fails exactly when the target is outside 0..35999, the range is empty, or no turn of the
-- target lies inside the range.
pub plan_target_complete :
    (current target lo hi : ℤ)
    → (wrap_plan_target current target lo hi ≡ none)
      ↔ ((is_rejected target lo hi ≡ true) ⊎ ((c : ℤ) → IsTurnOf target c → InRange lo hi c → ⊥))
plan_target_complete current target lo hi = elim (plan_target_cases current target lo hi) [
  | inl (bad, e) ↦ (λ _. inl bad, λ _. e)
  | inr (inl (e, n)) ↦ (
    λ _. inr (λ c turn fits. no_turn_fits (is_nearer current) target lo hi c n turn fits),
    λ _. e,
  )
  | inr (inr (r, e, (k, m, _))) ↦ (
    λ none_here. cc,
    elim [
      | inl bad ↦ rejected_none current target lo hi bad
      | inr nothing ↦ absurd (nothing r (Among-IsTurnOf target r m) k)
    ],
  )
]
