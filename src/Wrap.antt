-- ===== src/Wrap.antt =====
-- fw/src/rotator_wrap.cpp: the cable-wrap planner. Angles are centidegrees, as unbounded integers;
-- the source computes in int64_t, which holds every value below.
pub mod Best
pub mod Plan
pub mod Reported
use astro_uni_board.Base.{
  ℕ, ◌%◌, Bool, ◌&&◌, ◌||◌, Option, none, some, List, [], ◌∷◌, if◌then◌else◌,
}
use astro_uni_board.Base.Int.{ℤ, pos, negsuc, neg, ◌+ℤ◌, ◌-ℤ◌, ltb_ℤ, eqb_ℤ}

abbrev pub full_turn : ℕ
full_turn = 36000

unfoldable pub abs_dist : ℤ → ℤ → ℤ
abs_dist a b = if ltb_ℤ b a then a -ℤ b else b -ℤ a

unfoldable pub abs64 : ℤ → ℤ
abs64 a = if ltb_ℤ a (pos 0) then pos 0 -ℤ a else a

-- The body of the two candidate loops: `best` is the best candidate so far.
unfoldable pub consider : (ℤ → ℤ → Bool) → ℤ → ℤ → Option ℤ → ℤ → Option ℤ
consider better wrap_min wrap_max best c =
    if ltb_ℤ c wrap_min || ltb_ℤ wrap_max c
    then best
    else elim best [ none ↦ some c | some b ↦ if better c b then some c else some b ]

unfoldable pub pick : (ℤ → ℤ → Bool) → ℤ → ℤ → Option ℤ → List ℤ → Option ℤ
unfolding consider
pick better wrap_min wrap_max best [] = best
pick better wrap_min wrap_max best (c ∷ cs) =
    pick better wrap_min wrap_max (consider better wrap_min wrap_max best c) cs

-- Nearer to `current`; at the same distance less wound; then the larger one.
unfoldable pub is_nearer : ℤ → ℤ → ℤ → Bool
is_nearer current c best =
    let dc = abs_dist c current in
    let db = abs_dist best current in
    ltb_ℤ dc db
    || (eqb_ℤ dc db
        && (ltb_ℤ (abs64 c) (abs64 best) || (eqb_ℤ (abs64 c) (abs64 best) && ltb_ℤ best c)))

abbrev pub candidates : ℤ → List ℤ
candidates target = (target -ℤ pos full_turn) ∷ target ∷ (target +ℤ pos full_turn) ∷ []

unfoldable pub wrap_plan_target : ℤ → ℤ → ℤ → ℤ → Option ℤ
unfolding pick
wrap_plan_target current target wrap_min wrap_max =
    if ltb_ℤ target (pos 0) || ltb_ℤ (pos 35999) target || ltb_ℤ wrap_max wrap_min
    then none
    else pick (is_nearer current) wrap_min wrap_max none (candidates target)

-- C++ `%` keeps the sign of the dividend.
abbrev pub rem_ℤ : ℤ → ℕ → ℤ
rem_ℤ (pos n) m = pos (n % m)
rem_ℤ (negsuc n) m = neg ((ℕ.suc n) % m)

unfoldable pub wrap_reported : ℤ → ℤ
wrap_reported a = let r = rem_ℤ a full_turn in if ltb_ℤ r (pos 0) then r +ℤ pos full_turn else r
