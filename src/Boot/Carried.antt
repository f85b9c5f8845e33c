-- ===== src/Boot/Carried.antt =====
-- What a reset carries over (fw/src/bootloader.cpp, diag.cpp).
use astro_uni_board.Base.{ℕ, ◌%◌, ◌≡◌, ◌≢◌, refl, false, List, [], ◌∷◌, ◌==◌, arith}
use Prim.Native.Nat.{bit_or}
use astro_uni_board.Boot.{
  Backup, dfu_magic, Entry, firmware, system_bootloader, dfu_check_at_boot, diag_boot, Trace, marks,
  notes, notes_or, Ending, reboots_to_dfu, reboots_normal, by_watchdog, leave, end_run, traced,
  firmware_run,
}

-- The mark and the note that a run ends with.
abbrev pub mark_after : ℕ → List Trace → ℕ
mark_after m [] = m
mark_after m (marks n ∷ rest) = mark_after n rest
mark_after m (notes v ∷ rest) = mark_after m rest
mark_after m (notes_or v ∷ rest) = mark_after m rest

abbrev pub note_after : ℕ → List Trace → ℕ
note_after n [] = n
note_after n (marks m ∷ rest) = note_after n rest
note_after n (notes v ∷ rest) = note_after v rest
note_after n (notes_or v ∷ rest) = note_after (bit_or n v) rest

abbrev pub entry_after : Ending → Entry
entry_after reboots_to_dfu = system_bootloader
entry_after reboots_normal = firmware
entry_after by_watchdog = firmware

traced_lem :
    (ts : List Trace) (r : Backup)
    → traced ts r ≡ record r { bkp1 = mark_after r.bkp1 ts; bkp2 = note_after r.bkp2 ts }
unfolding traced leave
traced_lem [] r = refl
traced_lem (marks m ∷ rest) r = traced_lem rest (record r { bkp1 = m })
traced_lem (notes v ∷ rest) r = traced_lem rest (record r { bkp2 = v })
traced_lem (notes_or v ∷ rest) r = traced_lem rest (record r { bkp2 = bit_or r.bkp2 v })

firmware_next :
    (csr csr' : ℕ) (ts : List Trace) (r : Backup)
    → r.bkp0 ≢ dfu_magic
    → let left = traced ts (diag_boot csr r).0 in
      let (next, entry) = dfu_check_at_boot left in
      let (after, diag) = diag_boot csr' next in
      (entry ≡ firmware)
      × (next.bkp0 ≢ dfu_magic)
      × ((dfu_check_at_boot next).1 ≡ firmware)
      × (diag.last_mark ≡ mark_after 0 ts % 256)
      × (diag.last_note ≡ note_after 0 ts)
unfolding dfu_check_at_boot diag_boot
firmware_next csr csr' ts r h =
    let no : (r.bkp0 == dfu_magic) ≡ false = ground (arith, h) in
    rw (traced_lem ts) (simp no (refl, h, refl, refl, refl))

-- After a run of the firmware, which began with the magic word absent: the next reset enters the system
-- bootloader exactly if the run ended by the command for it, and clears the magic word, so that the
-- reset after it enters the firmware. The firmware then reads the last mark and the last note of
-- the run, the watchdog's reset included.
pub reset_carries :
    (csr csr' : ℕ) (ts : List Trace) (ending : Ending) (r : Backup)
    → r.bkp0 ≢ dfu_magic
    → let left = firmware_run csr ts ending r in
      let (next, entry) = dfu_check_at_boot left in
      let (after, diag) = diag_boot csr' next in
      (entry ≡ entry_after ending)
      × (next.bkp0 ≢ dfu_magic)
      × ((dfu_check_at_boot next).1 ≡ firmware)
      × (diag.last_mark ≡ mark_after 0 ts % 256)
      × (diag.last_note ≡ note_after 0 ts)
unfolding firmware_run dfu_check_at_boot diag_boot end_run
reset_carries csr csr' ts reboots_to_dfu r h =
    rw (traced_lem ts) (refl, (λ e. absurd (omega (arith, e))), refl, refl, refl)
reset_carries csr csr' ts reboots_normal r h = firmware_next csr csr' ts r h
reset_carries csr csr' ts by_watchdog r h = firmware_next csr csr' ts r h
