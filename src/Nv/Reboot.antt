-- ===== src/Nv/Reboot.antt =====
-- What a restart finds in the position ring of fw/src/nv_store.cpp.
use astro_uni_board.Base.{
  ℕ, suc, ◌+◌, ◌%◌, ◌≤◌, ◌<◌, ◌≡◌, ◌≢◌, refl, sym, ◌∙◌, ◌⊎◌, Bool, true, false, none, some, List,
  [], ◌∷◌, arith, length, get_elem?, set, length-set, get_elem?-set_self,
}
use astro_uni_board.Base.Word.{word, u32, sub32}
use astro_uni_board.Nv.Slot.{PosSlot, is_valid, slot_crc, with_crc}
use astro_uni_board.Nv.Ring.{ring_slots}
use astro_uni_board.Nv.Newest.{AllOlder, OlderExcept, scan_newest, scan_pages-slots}
use astro_uni_board.Nv.Store.{Bus, Nv, nv_update, usteps_code, queue_position, nv_begin}

-- The valid slots of the ring were written at most `k` queued states before `seq`.
abbrev pub Aged : ℕ → ℕ → List PosSlot → Type 0
Aged k seq [] = Unit {0}
Aged k seq (s ∷ ss) = (is_valid s ≡ true → (s.seq < word) × (sub32 seq s.seq ≤ k)) × Aged k seq ss

-- The store between two operations.
pub record IsOk (k : ℕ) (n : Nv) : Type 0 where
  pub whole : length n.ring ≡ ring_slots
  pub in_ring : n.next_slot < ring_slots
  pub seq_fits : n.slot.seq < word
  pub plain : (n.slot.bit6 ≡ false) × (n.slot.bit7 ≡ false)
  pub aged : Aged k n.slot.seq n.ring

-- The newest state stands in the ring, and the next write goes elsewhere.
pub record IsStored (n : Nv) (j : ℕ) : Type 0 where
  pub there : get_elem? n.ring j ≡ some n.slot
  pub valid : is_valid n.slot ≡ true
  pub newest : OlderExcept n.slot j n.ring
  pub fits : n.slot.seq < word
  pub elsewhere : n.next_slot ≢ j
  pub follows : n.next_slot ≡ (j + 1) % ring_slots

-- The bus is up and the chip free: nothing delays the write.
pub record IsUp (b : Bus) (n : Nv) : Type 0 where
  pub has_chip : n.present ≡ true
  pub free : (n.write_cycle ≡ false) ⊎ (b.acks ≡ true)
  pub accepts : b.takes ≡ true

Aged-AllOlder :
    (k seq : ℕ) (x : PosSlot) (ss : List PosSlot)
    → k + 1 < 2147483648
    → seq < word
    → x.seq ≡ u32 (seq + 1)
    → Aged k seq ss
    → AllOlder x ss
Aged-AllOlder k seq x [] h f e a = tt
Aged-AllOlder k seq x (s ∷ ss) h f e a = (
  λ v.
      let (fits, age) = a.0 v in
      (fits, rw e (omega (arith, fits, age)), rw e (omega (arith, fits, age))),
  Aged-AllOlder k seq x ss h f e a.1,
)

older_overwritten :
    (x y : PosSlot) (k : ℕ) (ss : List PosSlot) → AllOlder x ss → OlderExcept x k (set ss k y)
older_overwritten x y k [] a = tt
older_overwritten x y ℕ.zero (s ∷ ss) a = a.1
older_overwritten x y (suc k) (s ∷ ss) a = (a.0, older_overwritten x y k ss a.1)

usteps_code-le : (usteps : ℕ) → usteps_code usteps ≤ 9
unfolding usteps_code
usteps_code-le usteps = ground arith

slot_crc-with_crc : (s : PosSlot) → slot_crc (with_crc s) ≡ slot_crc s
unfolding slot_crc with_crc
slot_crc-with_crc s = refl

with_crc-valid :
    (s : PosSlot)
    → (s.bit6 ≡ false) × (s.bit7 ≡ false)
    → s.reserved ≤ 9
    → is_valid (with_crc s) ≡ true
unfolding is_valid with_crc
with_crc-valid s plain h = ground (arith, slot_crc-with_crc s)

-- The state that `queue_position` writes.
abbrev pub queued : ℕ → PosSlot → PosSlot
queued usteps s = with_crc (record s { seq = u32 (s.seq + 1); reserved = usteps_code usteps })

pub record Written (usteps : ℕ) (n n' : Nv) : Type 0 where
  pub slot_eq : n'.slot ≡ queued usteps n.slot
  pub ring_eq : n'.ring ≡ set n.ring n.next_slot (queued usteps n.slot)
  pub next_eq : n'.next_slot ≡ (n.next_slot + 1) % ring_slots

pub queue_position-Written :
    (b : Bus) (usteps : ℕ) (n : Nv) → IsUp b n → Written usteps n (queue_position b usteps n).0
unfolding queue_position nv_update
queue_position-Written b usteps n up = ground arith

queued-AllOlder :
    (k usteps : ℕ) (n : Nv) → IsOk k n → k + 1 < 2147483648 → AllOlder (queued usteps n.slot) n.ring
queued-AllOlder k usteps n ok h =
    Aged-AllOlder k n.slot.seq (queued usteps n.slot) n.ring h ok.seq_fits (unfold with_crc in refl)
      ok.aged

queued-valid : (k usteps : ℕ) (n : Nv) → IsOk k n → is_valid (queued usteps n.slot) ≡ true
queued-valid k usteps n ok = with_crc-valid _ ok.plain (usteps_code-le usteps)

-- A queued state that the chip takes is the newest of the ring.
pub queue_position-IsStored :
    (b : Bus) (k usteps : ℕ) (n : Nv)
    → IsOk k n
    → k + 1 < 2147483648
    → IsUp b n
    → IsStored (queue_position b usteps n).0 n.next_slot
queue_position-IsStored b k usteps n ok h up =
    let w = queue_position-Written b usteps n up in
    record {
      there =
          rw (w.ring_eq, w.slot_eq)
            (get_elem?-set_self n.ring n.next_slot (queued usteps n.slot)
              (omega (arith, ok.whole, ok.in_ring)));
      valid = rw w.slot_eq (queued-valid k usteps n ok);
      newest =
          rw (w.ring_eq, w.slot_eq)
            (older_overwritten (queued usteps n.slot) (queued usteps n.slot) n.next_slot n.ring
              (queued-AllOlder k usteps n ok h));
      fits = rw w.slot_eq (unfold with_crc in omega arith);
      elsewhere = λ e. omega (arith, w.next_eq, ok.in_ring);
      follows = w.next_eq;
    }

-- A start finds the newest state, and goes on writing where the run before would have.
pub boot-IsStored :
    (n : Nv) (j : ℕ) (settings_bad : Bool) (reads : ℕ → Bool)
    → IsStored n j
    → ((i : ℕ) → reads i ≡ true)
    → ((nv_begin true settings_bad reads n).slot ≡ n.slot)
      × ((nv_begin true settings_bad reads n).next_slot ≡ n.next_slot)
unfolding nv_begin
boot-IsStored n j settings_bad reads st all =
    let found = scan_newest n.slot j n.ring st.fits st.valid st.there st.newest in
    rw (scan_pages-slots reads none 0 n.ring all, found) (refl, sym st.follows)

Aged-later :
    (k seq : ℕ) (x : PosSlot) (ss : List PosSlot)
    → k + 1 < 2147483648
    → seq < word
    → x.seq ≡ u32 (seq + 1)
    → Aged k seq ss
    → Aged (k + 1) x.seq ss
Aged-later k seq x [] h f e a = tt
Aged-later k seq x (s ∷ ss) h f e a = (
  λ v. let (fits, age) = a.0 v in rw e (omega (arith, fits, age)),
  Aged-later k seq x ss h f e a.1,
)

Aged-queued :
    (k seq i : ℕ) (x : PosSlot) (ss : List PosSlot)
    → k + 1 < 2147483648
    → seq < word
    → x.seq ≡ u32 (seq + 1)
    → Aged k seq ss
    → Aged (k + 1) x.seq (set ss i x)
Aged-queued k seq i x [] h f e a = tt
Aged-queued k seq ℕ.zero x (s ∷ ss) h f e a =
    ((λ v. rw e (omega arith)), Aged-later k seq x ss h f e a.1)
Aged-queued k seq (suc i) x (s ∷ ss) h f e a = (
  λ v. let (fits, age) = a.0 v in rw e (omega (arith, fits, age)),
  Aged-queued k seq i x ss h f e a.1,
)

-- What the boot scan relies on is kept by every state that the chip takes.
pub queue_position-IsOk :
    (b : Bus) (k usteps : ℕ) (n : Nv)
    → IsOk k n
    → k + 1 < 2147483648
    → IsUp b n
    → IsOk (k + 1) (queue_position b usteps n).0
queue_position-IsOk b k usteps n ok h up =
    let w = queue_position-Written b usteps n up in
    record {
      whole = rw w.ring_eq (length-set n.ring n.next_slot (queued usteps n.slot) ∙ ok.whole);
      in_ring = omega (arith, w.next_eq);
      seq_fits = rw w.slot_eq (unfold with_crc in omega arith);
      plain = rw w.slot_eq (unfold with_crc in ok.plain);
      aged =
          rw (w.ring_eq, w.slot_eq)
            (Aged-queued k n.slot.seq n.next_slot (queued usteps n.slot) n.ring h ok.seq_fits
              (unfold with_crc in refl) ok.aged);
    }
