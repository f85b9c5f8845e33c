-- ===== src/Nv/Ring.antt =====
-- `scanRing` of fw/src/nv_store.cpp. The ring is the list of its slots, in the order of addresses.
use astro_uni_board.Base.{ℕ, suc, Bool, Option, none, some, List, [], ◌∷◌, if◌then◌else◌}
use astro_uni_board.Nv.Slot.{PosSlot, is_valid, seq_after}

abbrev pub ring_slots : ℕ
ring_slots = 256

-- The best slot so far, with its index.
abbrev pub Found : Type 0
Found = Option (PosSlot × ℕ)

unfoldable pub take_slot : Found → PosSlot → ℕ → Found
take_slot best s i =
    if is_valid s
    then elim best [
      | none ↦ some (s, i)
      | some (b, j) ↦ if seq_after s.seq b.seq then some (s, i) else some (b, j)
    ]
    else best

unfoldable pub scan_slots : Found → ℕ → List PosSlot → Found
scan_slots best i [] = best
scan_slots best i (s ∷ ss) = scan_slots (take_slot best s i) (suc i) ss

-- The pages that the scan reads, two slots each: it gives up (`none`) at a page that cannot be read.
unfoldable pub scan_pages : (ℕ → Bool) → Found → ℕ → List PosSlot → Option Found
scan_pages reads best i [] = some best
scan_pages reads best i (s ∷ []) = if reads i then some (take_slot best s i) else none
scan_pages reads best i (s ∷ t ∷ ss) =
    let rest = scan_pages reads (take_slot (take_slot best s i) t (suc i)) (suc (suc i)) ss in
    if reads i then rest else none
