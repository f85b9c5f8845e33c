-- ===== src/Nv/Newest.antt =====
-- The boot scan of fw/src/nv_store.cpp finds the newest slot, wherever it stands in the ring and
-- also where the sequence numbers have wrapped.
use astro_uni_board.Base.{
  ℕ, suc, ◌+◌, ◌<◌, ◌≡◌, refl, Bool, true, none, some, List, [], ◌∷◌, arith, get_elem?, set,
}
use astro_uni_board.Base.Word.{word, sub32}
use astro_uni_board.Nv.Slot.{PosSlot, is_valid}
use astro_uni_board.Nv.Ring.{Found, take_slot, scan_slots, scan_pages}

-- `s` is blank or torn, or was written before `x`, by less than half the range of the counter.
abbrev pub Older : PosSlot → PosSlot → Type 0
Older x s =
    is_valid s ≡ true → (s.seq < word) × (0 < sub32 x.seq s.seq) × (sub32 x.seq s.seq < 2147483648)

abbrev pub AllOlder : PosSlot → List PosSlot → Type 0
AllOlder x [] = Unit {0}
AllOlder x (s ∷ ss) = Older x s × AllOlder x ss

-- All slots but that of index `k`.
abbrev pub OlderExcept : PosSlot → ℕ → List PosSlot → Type 0
OlderExcept x k [] = Unit {0}
OlderExcept x ℕ.zero (s ∷ ss) = AllOlder x ss
OlderExcept x (suc k) (s ∷ ss) = Older x s × OlderExcept x k ss

-- The best slot so far is older than `x`, if there is one.
abbrev BestOlder : PosSlot → Found → Type 0
BestOlder x none = Unit {0}
BestOlder x (some (b, j)) =
    (b.seq < word) × (0 < sub32 x.seq b.seq) × (sub32 x.seq b.seq < 2147483648)

scan_past :
    (x : PosSlot) (j i : ℕ) (ss : List PosSlot)
    → x.seq < word
    → AllOlder x ss
    → scan_slots (some (x, j)) i ss ≡ some (x, j)
unfolding scan_slots take_slot
scan_past x j i [] h older = refl
scan_past x j i (s ∷ ss) h older = ground (arith, scan_past x j (suc i) ss h older.1)

take-Older :
    (x s : PosSlot) (i : ℕ) (best : Found)
    → BestOlder x best
    → Older x s
    → BestOlder x (take_slot best s i)
unfolding take_slot
take-Older x s i none b older = ground arith
take-Older x s i (some (y, j)) b older = ground arith

take_newest :
    (x : PosSlot) (i : ℕ) (best : Found)
    → BestOlder x best
    → is_valid x ≡ true
    → take_slot best x i ≡ some (x, i)
unfolding take_slot
take_newest x i none b v = ground arith
take_newest x i (some (y, j)) b v = ground arith

scan_newest_from :
    (x : PosSlot) (best : Found) (i k : ℕ) (ss : List PosSlot)
    → x.seq < word
    → is_valid x ≡ true
    → BestOlder x best
    → get_elem? ss k ≡ some x
    → OlderExcept x k ss
    → scan_slots best i ss ≡ some (x, i + k)
unfolding scan_slots
scan_newest_from x best i k [] h v b e older = cc
scan_newest_from x best i ℕ.zero (s ∷ ss) h v b e older =
    let same : s ≡ x = cc in
    let here : i + 0 ≡ i = omega arith in
    rw (same, take_newest x i best b v, here) (scan_past x i (suc i) ss h older)
scan_newest_from x best i (suc k) (s ∷ ss) h v b e older =
    let there : i + suc k ≡ suc i + k = omega arith in
    rw there (
      scan_newest_from x (take_slot best s i) (suc i) k ss h v (take-Older x s i best b older.0) e
        older.1)

-- A valid slot that all others of the ring are older than is what the scan finds, with its index.
pub scan_newest :
    (x : PosSlot) (k : ℕ) (ss : List PosSlot)
    → x.seq < word
    → is_valid x ≡ true
    → get_elem? ss k ≡ some x
    → OlderExcept x k ss
    → scan_slots none 0 ss ≡ some (x, k)
scan_newest x k ss h v e older =
    let start : 0 + k ≡ k = omega arith in
    rw start at (scan_newest_from x none 0 k ss h v tt e older)

-- Where all pages can be read, the scan by pages is the scan by slots.
pub scan_pages-slots :
    (reads : ℕ → Bool) (best : Found) (i : ℕ) (ss : List PosSlot)
    → ((j : ℕ) → reads j ≡ true)
    → scan_pages reads best i ss ≡ some (scan_slots best i ss)
unfolding scan_pages scan_slots
scan_pages-slots reads best i [] all = refl
scan_pages-slots reads best i (s ∷ []) all = rw (all i)
scan_pages-slots reads best i (s ∷ t ∷ ss) all =
    rw (all i)
      (scan_pages-slots reads (take_slot (take_slot best s i) t (suc i)) (suc (suc i)) ss all)

AllOlder-set :
    (x y : PosSlot) (j : ℕ) (ss : List PosSlot)
    → Older x y
    → AllOlder x ss
    → AllOlder x (set ss j y)
AllOlder-set x y j [] o older = tt
AllOlder-set x y ℕ.zero (s ∷ ss) o older = (o, older.1)
AllOlder-set x y (suc j) (s ∷ ss) o older = (older.0, AllOlder-set x y j ss o older.1)

-- A write to another slot of something older than `x`, or of a torn slot, leaves `x` the newest.
pub OlderExcept-set :
    (x y : PosSlot) (k j : ℕ) (ss : List PosSlot)
    → Older x y
    → OlderExcept x k ss
    → OlderExcept x k (set ss j y)
OlderExcept-set x y k j [] o older = tt
OlderExcept-set x y ℕ.zero ℕ.zero (s ∷ ss) o older = older
OlderExcept-set x y ℕ.zero (suc j) (s ∷ ss) o older = AllOlder-set x y j ss o older
OlderExcept-set x y (suc k) ℕ.zero (s ∷ ss) o older = (o, older.1)
OlderExcept-set x y (suc k) (suc j) (s ∷ ss) o older =
    (older.0, OlderExcept-set x y k j ss o older.1)
