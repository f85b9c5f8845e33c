-- ===== src/Nv/Transfers.antt =====
-- What the chunked transfers of fw/src/nv_store.cpp do to the bytes of the EEPROM.
use astro_uni_board.Base.{
  ℕ, zero, suc, ◌+◌, ◌-◌, ◌%◌, ◌≤◌, ◌<◌, ◌≡◌, ◌≢◌, refl, sym, ap, ◌∙◌, ◌⊎◌, inl, inr, Bool, true,
  false, none, some, List, [], ◌∷◌, ◌++◌, length, take, drop, ◌==◌, arith, if◌then◌else◌,
  Bool-cases, length-drop,
}
use astro_uni_board.Nv.Records.{Memory, Chip, cells, written, smaller, read_loop, write_loop}

-- A write changes only the bytes that it is given.
pub written-outside :
    (bs : List ℕ) (mem : Memory) (a i : ℕ)
    → (i < a) ⊎ (a + length bs ≤ i)
    → written mem a bs i ≡ mem i
unfolding written
written-outside [] mem a i out = refl
written-outside (b ∷ bs) mem a i out =
    let rest =
      written-outside bs (λ j. if j == a then b else mem j) (a + 1) i
        (elim out [ inl l ↦ inl (omega arith) | inr h ↦ inr (omega arith) ]) in
    let other : (i == a) ≡ false = elim out [ inl l ↦ ground arith | inr h ↦ ground arith ] in
    rw (rest, other) refl

pub cells-written :
    (bs : List ℕ) (mem : Memory) (a : ℕ) → cells (written mem a bs) a (length bs) ≡ bs
unfolding cells written
cells-written [] mem a = refl
cells-written (b ∷ bs) mem a =
    let mem' : Memory = λ j. if j == a then b else mem j in
    let here = written-outside bs mem' (a + 1) a (inl (omega arith)) in
    let this : (a == a) ≡ true = ground arith in rw (here, this, cells-written bs mem' (a + 1)) refl

pub cells-append :
    (m n : ℕ) (mem : Memory) (a : ℕ) → cells mem a (m + n) ≡ cells mem a m ++ cells mem (a + m) n
unfolding cells
cells-append zero n mem a =
    let e : a + 0 ≡ a = omega arith in let f : 0 + n ≡ n = omega arith in rw (e, f) refl
cells-append (suc m) n mem a =
    let e : suc m + n ≡ suc (m + n) = omega arith in
    let f : a + suc m ≡ a + 1 + m = omega arith in rw (e, f, cells-append m n mem (a + 1)) refl

written-append :
    (n : ℕ) (bs : List ℕ) (mem : Memory) (a : ℕ)
    → n ≤ length bs
    → written (written mem a (take n bs)) (a + n) (drop n bs) ≡ written mem a bs
unfolding written
written-append zero bs mem a h = let e : a + 0 ≡ a = omega arith in rw e refl
written-append (suc n) [] mem a h = absurd (omega (arith, h))
written-append (suc n) (b ∷ bs) mem a h =
    let f : a + suc n ≡ a + 1 + n = omega arith in
    rw f (written-append n bs (λ i. if i == a then b else mem i) (a + 1) (omega (arith, h)))

pub smaller_bounds :
    (n m : ℕ) → n ≢ 0 → m ≢ 0 → (smaller n m ≤ n) × (smaller n m ≤ m) × (1 ≤ smaller n m)
smaller_bounds n m h k = ground (arith, h, k)

-- Every transfer succeeds.
module _ (reads : ℕ → Bool) (fine : (a : ℕ) → reads a ≡ true) where
  pub read_all :
      (fuel n : ℕ) (mem : Memory) (a : ℕ)
      → n ≤ fuel
      → read_loop fuel reads mem a n ≡ some (cells mem a n)
  unfolding read_loop cells
  read_all zero n mem a h = let e : n ≡ 0 = omega (arith, h) in rw e refl
  read_all (suc fuel) n mem a h = elim (Bool-cases (n == 0)) [
    | inl e ↦ let z : n ≡ 0 = ground (arith, e) in rw z refl
    | inr e ↦
        let some_left : n ≢ 0 = λ z. ground (arith, e, z) in
        let b = smaller_bounds n 32 some_left (λ z. absurd (omega (arith, z))) in
        let len : ℕ = smaller n 32 in
        let rest = read_all fuel (n - len) mem (a + len) (omega (arith, b.2, h)) in
        let whole : len + (n - len) ≡ n = omega (arith, b.0) in
        rw (e, fine a, rest)
          (ap some (sym (cells-append len (n - len) mem a) ∙ ap (cells mem a) whole))
  ]

-- A chip that takes every chunk and stores what it takes.
pub record IsSound (chip : Chip) : Type 0 where
  pub taken : (a : ℕ) → chip.takes a ≡ true
  pub kept : (a : ℕ) (bs : List ℕ) (mem : Memory) → chip.keeps a bs mem ≡ written mem a bs

module _ (chip : Chip) (sound : IsSound chip) where
  pub write_all :
      (fuel : ℕ) (bs : List ℕ) (mem : Memory) (a : ℕ)
      → length bs ≤ fuel
      → write_loop fuel chip mem a bs ≡ (written mem a bs, true)
  unfolding write_loop written
  write_all zero [] mem a h = refl
  write_all zero (b ∷ bs) mem a h = absurd (omega (arith, h))
  write_all (suc fuel) [] mem a h = refl
  write_all (suc fuel) (b ∷ bs) mem a h =
      let all : List ℕ = b ∷ bs in
      let room : ℕ = 16 - a % 16 in
      let len : ℕ = smaller room (length all) in
      let s =
        smaller_bounds room (length all) (λ z. absurd (omega (arith, z)))
          (λ z. absurd (omega (arith, z))) in
      let left = length-drop len all in
      let rest =
        write_all fuel (drop len all) (written mem a (take len all)) (a + len)
          (omega (arith, left, s.2, h)) in
      let e : (length all == 0) ≡ false = ground arith in
      rw (e, sound.taken a, sound.kept a (take len all) mem, rest, written-append len all mem a s.1)
        refl

pub written-two :
    (xs ys : List ℕ) (mem : Memory) (a : ℕ)
    → written mem a (xs ++ ys) ≡ written (written mem a xs) (a + length xs) ys
unfolding written
written-two [] ys mem a = let e : a + 0 ≡ a = omega arith in rw e refl
written-two (x ∷ xs) ys mem a =
    let e : a + suc (length xs) ≡ a + 1 + length xs = omega arith in
    rw e (written-two xs ys (λ i. if i == a then x else mem i) (a + 1))

pub cells-outside :
    (n : ℕ) (bs : List ℕ) (mem : Memory) (a b : ℕ)
    → a + n ≤ b
    → cells (written mem b bs) a n ≡ cells mem a n
unfolding cells
cells-outside zero bs mem a b h = refl
cells-outside (suc n) bs mem a b h =
    let here = written-outside bs mem b a (inl (omega (arith, h))) in
    rw (here, cells-outside n bs mem (a + 1) b (omega (arith, h))) refl

-- A read fails, or it gives the bytes that are there.
pub read_cases :
    (fuel : ℕ) (reads : ℕ → Bool) (mem : Memory) (a n : ℕ)
    → (read_loop fuel reads mem a n ≡ none) ⊎ (read_loop fuel reads mem a n ≡ some (cells mem a n))
unfolding read_loop cells
read_cases zero reads mem a n = elim (Bool-cases (n == 0)) [
  | inl e ↦ let z : n ≡ 0 = ground (arith, e) in inr (rw z refl)
  | inr e ↦ inl (rw e refl)
]
read_cases (suc fuel) reads mem a n = elim (Bool-cases (n == 0)) [
  | inl e ↦ let z : n ≡ 0 = ground (arith, e) in inr (rw z refl)
  | inr e ↦
      let len : ℕ = smaller n 32 in
      let some_left : n ≢ 0 = λ z. ground (arith, e, z) in
      let b = smaller_bounds n 32 some_left (λ z. absurd (omega (arith, z))) in
      let whole : len + (n - len) ≡ n = omega (arith, b.0) in
      elim (Bool-cases (reads a)) [
        | inr f ↦ inl (rw (e, f) refl)
        | inl f ↦ elim (read_cases fuel reads mem (a + len) (n - len)) [
          | inl r ↦ inl (rw (e, f, r) refl)
          | inr r ↦ inr (
              rw (e, f, r)
                (ap some (sym (cells-append len (n - len) mem a) ∙ ap (cells mem a) whole)))
        ]
      ]
]
