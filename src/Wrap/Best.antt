-- ===== src/Wrap/Best.antt =====
-- The candidate loop of rotator_wrap.cpp and rotator_calc.cpp, for any order of preference.
use astro_uni_board.Base.{
  ◌≡◌, refl, ◌⊎◌, inl, inr, Bool, true, false, ◌||◌, none, some, List, [], ◌∷◌, arith, Bool-cases,
}
use astro_uni_board.Base.Int.{ℤ, ◌≤ℤ◌, ltb_ℤ}
use astro_uni_board.Wrap.{pick}

abbrev pub InRange : ℤ → ℤ → ℤ → Type 0
InRange lo hi c = (lo ≤ℤ c) × (c ≤ℤ hi)

abbrev pub Among : ℤ → List ℤ → Type 0
Among r [] = ⊥
Among r (c ∷ cs) = (r ≡ c) ⊎ Among r cs

-- What makes a test of preference a strict weak order.
pub record IsPreference (better : ℤ → ℤ → Bool) : Type 0 where
  pub asym : (x y : ℤ) → better x y ≡ true → better y x ≡ false
  pub between : (x y z : ℤ) → better x y ≡ false → better y z ≡ false → better x z ≡ false

module _ (better : ℤ → ℤ → Bool) (lo hi : ℤ) where
  -- No candidate of the list that lies in the range is better than `r`.
  abbrev pub Unbeaten : ℤ → List ℤ → Type 0
  Unbeaten r [] = Unit {0}
  Unbeaten r (c ∷ cs) = (InRange lo hi c → better c r ≡ false) × Unbeaten r cs

  abbrev pub NoneFits : List ℤ → Type 0
  NoneFits [] = Unit {0}
  NoneFits (c ∷ cs) = (InRange lo hi c → ⊥) × NoneFits cs

  abbrev pub Best : List ℤ → ℤ → Type 0
  Best cs r = InRange lo hi r × Among r cs × Unbeaten r cs

  out_of_range : (c : ℤ) → (ltb_ℤ c lo || ltb_ℤ hi c) ≡ true → InRange lo hi c → ⊥
  out_of_range c e h = ground arith

  in_range : (c : ℤ) → (ltb_ℤ c lo || ltb_ℤ hi c) ≡ false → InRange lo hi c
  in_range c e = ground arith

  module _ (pref : IsPreference better) where
    refl_false : (x : ℤ) → better x x ≡ false
    refl_false x = elim (Bool-cases (better x x)) [ inl e ↦ pref.asym x x e | inr e ↦ e ]

    -- From a candidate in hand, the loop ends with one that neither it nor any other beats.
    pick-some-Best :
        (b : ℤ) (cs : List ℤ)
        → InRange lo hi b
        → (r : ℤ) × (pick better lo hi (some b) cs ≡ some r) × Best (b ∷ cs) r
    unfolding pick
    pick-some-Best b [] h = (b, refl, (h, inl refl, ((λ _. refl_false b), tt)))
    pick-some-Best b (c ∷ cs) h = elim (Bool-cases (ltb_ℤ c lo || ltb_ℤ hi c)) [
      | inl out ↦
          let (r, e, (k, m, u)) = pick-some-Best b cs h in
          (r, ground arith, (k, ground arith, (u.0, ((λ x. absurd (out_of_range c out x)), u.1))))
      | inr fits ↦ elim (Bool-cases (better c b)) [
        | inl wins ↦
            let (r, e, (k, m, u)) = pick-some-Best c cs (in_range c fits) in
            (
              r,
              ground arith,
              (
                k,
                ground arith,
                ((λ _. pref.between b c r (pref.asym c b wins) (u.0 (in_range c fits))), u),
              ),
            )
        | inr loses ↦
            let (r, e, (k, m, u)) = pick-some-Best b cs h in
            (
              r,
              ground arith,
              (k, ground arith, (u.0, ((λ _. pref.between c b r loses (u.0 h)), u.1))),
            )
      ]
    ]

    -- The loop finds a best candidate, or none of them fits.
    pub pick-Best :
        (cs : List ℤ)
        → ((pick better lo hi none cs ≡ none) × NoneFits cs)
          ⊎ ((r : ℤ) × (pick better lo hi none cs ≡ some r) × Best cs r)
    unfolding pick
    pick-Best [] = inl (refl, tt)
    pick-Best (c ∷ cs) = elim (Bool-cases (ltb_ℤ c lo || ltb_ℤ hi c)) [
      | inl out ↦ elim (pick-Best cs) [
        | inl (e, n) ↦ inl (ground arith, (out_of_range c out, n))
        | inr (r, e, (k, m, u)) ↦
            inr (r, ground arith, (k, inr m, ((λ x. absurd (out_of_range c out x)), u)))
      ]
      | inr fits ↦
          let (r, e, best) = pick-some-Best c cs (in_range c fits) in inr (r, ground arith, best)
    ]
