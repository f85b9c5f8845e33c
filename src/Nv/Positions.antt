-- ===== src/Nv/Positions.antt =====
-- Positions across a restart: `nvSavePosition` and `nvMarkMoving` of fw/src/nv_store.cpp, then
-- `nvBegin` and `nvLoadPositions`.
use astro_uni_board.Base.{
  ℕ, ◌+◌, ◌<◌, ◌≡◌, refl, ◌∙◌, inl, inr, Bool, true, false, ◌&&◌, arith, Bool-cases, ◌==◌, ◌^◌, ◌≤◌,
  suc, zero,
}
use astro_uni_board.Base.Int.{ℤ, eqb_ℤ, eq_of_parts}
use astro_uni_board.Settings.{AxisId, axis_foc, axis_rot}
use astro_uni_board.Nv.Slot.{SlotFlags, PosSlot, with_crc}
use astro_uni_board.Nv.Store.{
  Bus, Nv, usteps_code, queue_position, nv_mark_moving, nv_save_position, SavedPositions,
  load_positions, nv_begin, nothing_new, saved_slot, moving_bit, mark, same_bool, same_flags,
  saved_flags,
}
use astro_uni_board.Nv.Reboot.{
  IsOk, IsStored, IsUp, queued, queue_position-Written, queue_position-IsStored, boot-IsStored,
}

abbrev pub other : AxisId → AxisId
other axis_foc = axis_rot
other axis_rot = axis_foc

abbrev pub saved_valid : AxisId → SavedPositions → Bool
saved_valid axis_foc sp = sp.foc_valid
saved_valid axis_rot sp = sp.rot_valid

abbrev pub saved_value : AxisId → SavedPositions → ℤ
saved_value axis_foc sp = sp.foc_pos
saved_value axis_rot sp = sp.rot_cdeg

-- What `after` says of an axis, and that it says of the other one what `before` does.
abbrev pub Says : AxisId → Bool → ℤ → SavedPositions → SavedPositions → Type 0
Says axis valid value before after =
    (saved_valid axis after ≡ valid)
    × (saved_value axis after ≡ value)
    × (saved_valid (other axis) after ≡ saved_valid (other axis) before)
    × (saved_value (other axis) after ≡ saved_value (other axis) before)

saved_slot-Says :
    (usteps : ℕ) (axis : AxisId) (value : ℤ) (verified : Bool) (s : PosSlot)
    → Says axis verified value
        (load_positions s)
        (load_positions (queued usteps (saved_slot axis value verified s)))
unfolding load_positions with_crc
saved_slot-Says usteps axis_foc value verified s = ground arith
saved_slot-Says usteps axis_rot value verified s = ground arith

and_true : (a b : Bool) → (a && b) ≡ true → (a ≡ true) × (b ≡ true)
and_true a b h = ground arith

same_bool-eq : (a b : Bool) → same_bool a b ≡ true → a ≡ b
same_bool-eq a b h = ground arith

record SameFlags (f g : SlotFlags) : Type 0 where
  foc_moving : f.foc_moving ≡ g.foc_moving
  rot_moving : f.rot_moving ≡ g.rot_moving
  foc_saved : f.foc_saved ≡ g.foc_saved
  rot_saved : f.rot_saved ≡ g.rot_saved
  foc_unverified : f.foc_unverified ≡ g.foc_unverified
  rot_unverified : f.rot_unverified ≡ g.rot_unverified

same_flags-SameFlags : (f g : SlotFlags) → same_flags f g ≡ true → SameFlags f g
unfolding same_flags
same_flags-SameFlags f g h =
    let h7 = and_true _ _ h in
    let h6 = and_true _ _ h7.0 in
    let h5 = and_true _ _ h6.0 in
    let h4 = and_true _ _ h5.0 in
    let h3 = and_true _ _ h4.0 in
    let h2 = and_true _ _ h3.0 in
    let h1 = and_true _ _ h2.0 in
    record {
      foc_moving = same_bool-eq _ _ h1.0;
      rot_moving = same_bool-eq _ _ h1.1;
      foc_saved = same_bool-eq _ _ h2.1;
      rot_saved = same_bool-eq _ _ h3.1;
      foc_unverified = same_bool-eq _ _ h4.1;
      rot_unverified = same_bool-eq _ _ h5.1;
    }

nothing_new-Says :
    (usteps : ℕ) (axis : AxisId) (value : ℤ) (verified : Bool) (s : PosSlot)
    → nothing_new usteps axis value verified s ≡ true
    → Says axis verified value (load_positions s) (load_positions s)
unfolding load_positions
nothing_new-Says usteps axis_foc value verified s h =
    let h2 = and_true _ (s.reserved == usteps_code usteps) h in
    let h1 = and_true _ (eqb_ℤ value s.foc_pos) h2.0 in
    let same = same_flags-SameFlags (saved_flags axis_foc verified s.flags) s.flags h1.0 in
    ground (
      arith,
      eq_of_parts value s.foc_pos,
      same.foc_moving,
      same.foc_saved,
      same.foc_unverified,
      h1.1,
    )
nothing_new-Says usteps axis_rot value verified s h =
    let h1 = and_true _ (eqb_ℤ value s.rot_cdeg) h in
    let same = same_flags-SameFlags (saved_flags axis_rot verified s.flags) s.flags h1.0 in
    ground (
      arith,
      eq_of_parts value s.rot_cdeg,
      same.rot_moving,
      same.rot_saved,
      same.rot_unverified,
      h1.1,
    )

marked-Says :
    (usteps : ℕ) (axis : AxisId) (s : PosSlot)
    → Says axis false
        (saved_value axis (load_positions s))
        (load_positions s)
        (load_positions (queued usteps (record s { flags = mark axis s.flags })))
unfolding load_positions with_crc
marked-Says usteps axis_foc s = ground arith
marked-Says usteps axis_rot s = ground arith

already_marked-Says :
    (axis : AxisId) (s : PosSlot)
    → moving_bit axis s.flags ≡ true
    → Says axis false (saved_value axis (load_positions s)) (load_positions s) (load_positions s)
unfolding load_positions
already_marked-Says axis_foc s h = ground arith
already_marked-Says axis_rot s h = ground arith

-- A settled store whose chip answers, with room for one more sequence number.
pub record IsSettled (b : Bus) (n : Nv) : Type 0 where
  pub age : ℕ
  pub young : age + 1 < 2147483648
  pub ok : IsOk age n
  pub place : ℕ
  pub stored : IsStored n place
  pub up : IsUp b n

-- The positions that a start loads after the chip took what `n` holds.
abbrev pub after_boot : Bool → (ℕ → Bool) → Nv → SavedPositions
after_boot settings_bad reads n = load_positions (nv_begin true settings_bad reads n).slot

boot_queued :
    (b : Bus) (usteps : ℕ) (n : Nv) (s : PosSlot) (settings_bad : Bool) (reads : ℕ → Bool)
    → IsSettled b n
    → (s.seq ≡ n.slot.seq) × (s.bit6 ≡ n.slot.bit6) × (s.bit7 ≡ n.slot.bit7)
    → ((i : ℕ) → reads i ≡ true)
    → (nv_begin true settings_bad reads (queue_position b usteps (record n { slot = s })).0).slot
      ≡ queued usteps s
boot_queued b usteps n s settings_bad reads t same all =
    let m : Nv = record n { slot = s } in
    let ok : IsOk t.age m = record {
      whole = t.ok.whole;
      in_ring = t.ok.in_ring;
      seq_fits = rw same.0 t.ok.seq_fits;
      plain = (same.1 ∙ t.ok.plain.0, same.2 ∙ t.ok.plain.1);
      aged = rw same.0 t.ok.aged;
    } in
    let up : IsUp b m = record {
      has_chip = t.up.has_chip;
      free = t.up.free;
      accepts = t.up.accepts;
    } in
    let st = queue_position-IsStored b t.age usteps m ok t.young up in
    (boot-IsStored (queue_position b usteps m).0 n.next_slot settings_bad reads st all).0
    ∙ (queue_position-Written b usteps m up).slot_eq

abbrev SamePlain : PosSlot → PosSlot → Type 0
SamePlain s n = (s.seq ≡ n.seq) × (s.bit6 ≡ n.bit6) × (s.bit7 ≡ n.bit7)

saved_slot-plain :
    (axis : AxisId) (value : ℤ) (verified : Bool) (s : PosSlot)
    → SamePlain (saved_slot axis value verified s) s
saved_slot-plain axis_foc value verified s = (refl, refl, refl)
saved_slot-plain axis_rot value verified s = (refl, refl, refl)

mark-plain : (axis : AxisId) (s : PosSlot) → SamePlain (record s { flags = mark axis s.flags }) s
mark-plain axis_foc s = (refl, refl, refl)
mark-plain axis_rot s = (refl, refl, refl)

usteps_code-pow : (k : ℕ) → k ≤ 8 → usteps_code (2 ^ k) ≡ k + 1
unfolding usteps_code
usteps_code-pow zero h = refl
usteps_code-pow (suc zero) h = refl
usteps_code-pow (suc (suc zero)) h = refl
usteps_code-pow (suc (suc (suc zero))) h = refl
usteps_code-pow (suc (suc (suc (suc zero)))) h = refl
usteps_code-pow (suc (suc (suc (suc (suc zero))))) h = refl
usteps_code-pow (suc (suc (suc (suc (suc (suc zero)))))) h = refl
usteps_code-pow (suc (suc (suc (suc (suc (suc (suc zero))))))) h = refl
usteps_code-pow (suc (suc (suc (suc (suc (suc (suc (suc zero)))))))) h = refl
usteps_code-pow (suc (suc (suc (suc (suc (suc (suc (suc (suc k))))))))) h = absurd (omega arith)

-- A saved position survives a restart, where the EEPROM was found, has no write under way and takes the
-- slot, where the state in use is already in its ring, and where the reads of the restart succeed: the
-- axis has the saved value, valid exactly if it was saved as verified, and the other axis what was
-- stored for it before. Where the store already said the same nothing is written, and that holds too.
-- A first save on an erased chip and a save that waits for a write cycle are not covered.
pub save_then_boot :
    (b : Bus) (usteps : ℕ) (axis : AxisId) (value : ℤ) (verified : Bool) (n : Nv)
    (settings_bad : Bool) (reads : ℕ → Bool)
    → IsSettled b n
    → ((i : ℕ) → reads i ≡ true)
    → Says axis verified value
        (load_positions n.slot)
        (after_boot settings_bad reads (nv_save_position b usteps axis value verified n).0)
unfolding nv_save_position
save_then_boot b usteps axis value verified n settings_bad reads t all =
    elim (Bool-cases (nothing_new usteps axis value verified n.slot)) [
      | inl old ↦
          rw (old, (boot-IsStored n t.place settings_bad reads t.stored all).0)
            (nothing_new-Says usteps axis value verified n.slot old)
      | inr new ↦
          rw
            (
              new,
              boot_queued b usteps n (saved_slot axis value verified n.slot) settings_bad reads t
                  (saved_slot-plain axis value verified n.slot) all,
            )
            (saved_slot-Says usteps axis value verified n.slot)
    ]

-- Power fails during a move, where the EEPROM was found, has no write under way and takes the mark,
-- where the state in use is already in its ring, and where the reads of the next start succeed: after
-- the mark of the move, the start finds the axis not valid, at the last saved value, and the other axis
-- as it was. A mark that has to wait for a write cycle, or that the chip does not take, is not covered.
pub mark_then_boot :
    (b : Bus) (usteps : ℕ) (axis : AxisId) (n : Nv) (settings_bad : Bool) (reads : ℕ → Bool)
    → IsSettled b n
    → ((i : ℕ) → reads i ≡ true)
    → Says axis false
        (saved_value axis (load_positions n.slot))
        (load_positions n.slot)
        (after_boot settings_bad reads (nv_mark_moving b usteps axis n).0)
unfolding nv_mark_moving
mark_then_boot b usteps axis n settings_bad reads t all =
    elim (Bool-cases (moving_bit axis n.slot.flags)) [
      | inl old ↦
          rw (old, (boot-IsStored n t.place settings_bad reads t.stored all).0)
            (already_marked-Says axis n.slot old)
      | inr new ↦
          rw
            (
              new,
              boot_queued b usteps n (record (n.slot) { flags = mark axis n.slot.flags })
                  settings_bad reads t (mark-plain axis n.slot) all,
            )
            (marked-Says usteps axis n.slot)
    ]

-- A start knows the microstep setting that a focuser position is counted in: every setting that the
-- driver has (a power of two up to 256) comes back.
pub usteps_roundtrip :
    (k : ℕ) (s : PosSlot) → k ≤ 8 → (load_positions (queued (2 ^ k) s)).foc_usteps ≡ 2 ^ k
unfolding load_positions with_crc
usteps_roundtrip k s h = rw (usteps_code-pow k h) (ground arith)
