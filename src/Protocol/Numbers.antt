-- ===== src/Protocol/Numbers.antt =====
-- `protoInt32` (fw/src/protocol.cpp) against numerals of any length.
use astro_uni_board.Base.{
  ℕ, suc, ◌+◌, ◌-◌, ◌*◌, ◌≤◌, ◌<◌, ◌≡◌, ◌↔◌, refl, ◌⊎◌, inl, inr, Bool, true, false, Option, none,
  some, [], ◌∷◌, arith, ltb, ◌==◌, Bool-cases, if◌then◌else◌,
}
use astro_uni_board.Base.Int.{ℤ, pos, negsuc, neg, ◌≤ℤ◌}
use astro_uni_board.Protocol.{
  Text, is_digit, is_sign, digits_loop, magnitude_of, in_int32, signed, proto_int32,
}

-- The number that digits write after `v`, however large.
unfoldable value_after : ℕ → Text → Option ℕ
value_after v [] = some v
value_after v (c ∷ cs) =
    let rest = value_after (v * 10 + (c - 48)) cs in if is_digit c then rest else none

-- A decimal numeral with an optional sign: the number that it writes, of any size.
abbrev unsigned : Text → Option ℕ
unsigned [] = none
unsigned (c ∷ cs) = value_after 0 (c ∷ cs)

abbrev with_sign : Bool → Option ℕ → Option ℤ
with_sign minus none = none
with_sign minus (some n) = some (if minus then neg n else pos n)

unfoldable pub numeral : Text → Option ℤ
unfolding value_after
numeral [] = none
numeral (c ∷ cs) =
    if is_sign c then with_sign (c == 45) (unsigned cs) else with_sign false (unsigned (c ∷ cs))

abbrev pub IsInt32 : ℤ → Type 0
IsInt32 v = (negsuc 2147483647 ≤ℤ v) × (v ≤ℤ pos 2147483647)

-- What the loop finds: the value, or nothing since there is none or it is too large.
abbrev Cut : Option ℕ → Option ℕ → Type 0
Cut found value = (found ≡ value) ⊎ ((found ≡ none) × ((n : ℕ) → value ≡ some n → 2147483648 < n))

value_after-le : (cs : Text) (v n : ℕ) → value_after v cs ≡ some n → v ≤ n
unfolding value_after
value_after-le [] v n h = ground arith
value_after-le (c ∷ cs) v n h = ground (arith, value_after-le cs (v * 10 + (c - 48)) n)

digits_loop-Cut : (cs : Text) (v : ℕ) → Cut (digits_loop v cs) (value_after v cs)
unfolding digits_loop value_after
digits_loop-Cut [] v = inl refl
digits_loop-Cut (c ∷ cs) v = elim (Bool-cases (is_digit c)) [
  | inr other ↦ rw other (inl refl)
  | inl digit ↦ rw digit (elim (Bool-cases (ltb 2147483648 (v * 10 + (c - 48)))) [
    | inl big ↦
        rw big
          (inr (refl, λ n e. let le = value_after-le cs (v * 10 + (c - 48)) n e in ground arith))
    | inr small ↦ rw small (digits_loop-Cut cs (v * 10 + (c - 48)))
  ])
]

in_int32-exact :
    (minus : Bool) (n : ℕ) (v : ℤ)
    → (in_int32 minus n ≡ some v) ↔ ((with_sign minus (some n) ≡ some v) × IsInt32 v)
in_int32-exact true ℕ.zero v = ground arith
in_int32-exact true (suc n) v = ground arith
in_int32-exact false n v = ground arith

in_int32-large :
    (minus : Bool) (n : ℕ) (v : ℤ)
    → 2147483648 < n
    → with_sign minus (some n) ≡ some v
    → IsInt32 v
    → ⊥
in_int32-large true ℕ.zero v h e i = absurd (omega arith)
in_int32-large true (suc n) v h e i = ground arith
in_int32-large false n v h e i = ground arith

signed-exact :
    (minus : Bool) (found value : Option ℕ) (v : ℤ)
    → Cut found value
    → (signed minus found ≡ some v) ↔ ((with_sign minus value ≡ some v) × IsInt32 v)
signed-exact minus found none v (inl e) = rw e (λ h. ground arith, λ h. ground arith)
signed-exact minus found (some n) v (inl e) = rw e (in_int32-exact minus n v)
signed-exact minus found none v (inr (e, large)) = rw e (λ h. ground arith, λ h. ground arith)
signed-exact minus found (some n) v (inr (e, large)) =
    rw e (λ h. ground arith, λ h. absurd (in_int32-large minus n v (large n refl) h.0 h.1))

magnitude_of-Cut : (s : Text) → Cut (magnitude_of s) (unsigned s)
unfolding magnitude_of
magnitude_of-Cut [] = inl refl
magnitude_of-Cut (c ∷ cs) = digits_loop-Cut (c ∷ cs) 0

-- A parameter is read as the number v exactly if it is a decimal numeral of v, of any length, with at
-- most one sign and nothing else, and v is in the range of an int32_t.
pub proto_int32-numeral :
    (s : Text) (v : ℤ) → (proto_int32 s ≡ some v) ↔ ((numeral s ≡ some v) × IsInt32 v)
unfolding proto_int32 numeral
proto_int32-numeral [] v = (λ h. ground arith, λ h. ground arith)
proto_int32-numeral (c ∷ cs) v = elim (Bool-cases (is_sign c)) [
  | inl sign ↦
      rw sign (signed-exact (c == 45) (magnitude_of cs) (unsigned cs) v (magnitude_of-Cut cs))
  | inr bare ↦
      rw bare (
        signed-exact false (magnitude_of (c ∷ cs)) (unsigned (c ∷ cs)) v
          (magnitude_of-Cut (c ∷ cs)))
]
