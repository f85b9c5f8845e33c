-- ===== src/Protocol/Lists.antt =====
-- `protoSplit` (fw/src/protocol.cpp) takes apart what commas join.
use astro_uni_board.Base.{
  ℕ, ◌≤◌, ◌≡◌, ◌≢◌, refl, true, false, ◌||◌, some, List, [], ◌∷◌, ◌++◌, arith, length, ◌==◌,
}
use astro_uni_board.Protocol.{Text, split_commas, some_empty, checked_values, values, proto_split}

-- The values with a comma between two of them.
unfoldable pub join_commas : List Text → Text
join_commas [] = []
join_commas (v ∷ []) = v
join_commas (v ∷ w ∷ vs) = v ++ 44 ∷ join_commas (w ∷ vs)

-- No comma inside.
abbrev pub CommaFree : Text → Type 0
CommaFree [] = Unit
CommaFree (c ∷ cs) = (c ≢ 44) × CommaFree cs

-- A value that can be sent: not empty, and no comma inside.
abbrev pub IsValue : Text → Type 0
IsValue [] = ⊥
IsValue (c ∷ cs) = CommaFree (c ∷ cs)

abbrev pub AllValues : List Text → Type 0
AllValues [] = Unit
AllValues (v ∷ vs) = IsValue v × AllValues vs

split_commas-last : (v : Text) → CommaFree v → split_commas v ≡ v ∷ []
unfolding split_commas
split_commas-last [] h = refl
split_commas-last (c ∷ cs) (n, h) = ground (arith, split_commas-last cs h)

split_commas-more :
    (v rest : Text) → CommaFree v → split_commas (v ++ 44 ∷ rest) ≡ v ∷ split_commas rest
unfolding split_commas
split_commas-more [] rest h = refl
split_commas-more (c ∷ cs) rest (n, h) = ground (arith, split_commas-more cs rest h)

IsValue-CommaFree : (v : Text) → IsValue v → CommaFree v
IsValue-CommaFree [] h = absurd h
IsValue-CommaFree (c ∷ cs) h = h

split_commas-join_commas :
    (v : Text) (vs : List Text) → AllValues (v ∷ vs) → split_commas (join_commas (v ∷ vs)) ≡ v ∷ vs
unfolding join_commas
split_commas-join_commas v [] (h, _) = split_commas-last v (IsValue-CommaFree v h)
split_commas-join_commas v (w ∷ vs) (h, k) =
    rw
      (
        split_commas-more v (join_commas (w ∷ vs)) (IsValue-CommaFree v h),
        split_commas-join_commas w vs k,
      )
      refl

AllValues-some_empty : (vs : List Text) → AllValues vs → some_empty vs ≡ false
unfolding some_empty
AllValues-some_empty [] h = refl
AllValues-some_empty ([] ∷ vs) (h, k) = absurd h
AllValues-some_empty ((c ∷ cs) ∷ vs) (h, k) = AllValues-some_empty vs k

checked_values-values :
    (vs : List Text) → AllValues vs → length vs ≤ 6 → checked_values vs ≡ some vs
checked_values-values vs h few = rw (AllValues-some_empty vs h) (ground arith)

values-join_commas :
    (vs : List Text) → AllValues vs → length vs ≤ 6 → values (join_commas vs) ≡ some vs
unfolding join_commas
values-join_commas [] h few = refl
values-join_commas ([] ∷ vs) (h, k) few = absurd h
values-join_commas ((c ∷ cs) ∷ []) h few =
    rw (split_commas-join_commas (c ∷ cs) [] h) (checked_values-values ((c ∷ cs) ∷ []) h few)
values-join_commas ((c ∷ cs) ∷ w ∷ vs) h few =
    rw (split_commas-join_commas (c ∷ cs) (w ∷ vs) h)
      (checked_values-values ((c ∷ cs) ∷ w ∷ vs) h few)

-- The parameters that a host sends, at most six, none empty or with a comma inside, joined by commas
-- after one blank or comma, are the values that the handler gets.
pub proto_split-join_commas :
    (sep : ℕ) (vs : List Text)
    → (sep == 32 || sep == 44) ≡ true
    → AllValues vs
    → length vs ≤ 6
    → proto_split (sep ∷ join_commas vs) ≡ some vs
unfolding proto_split
proto_split-join_commas sep vs e h few = rw e (values-join_commas vs h few)
