-- ===== src/Focuser/Saves.antt =====
-- The position of the focuser across a restart (fw/src/focuser.cpp).
use astro_uni_board.Base.{
  ℕ, ◌≤◌, ◌<◌, ◌≡◌, refl, ap, ◌∙◌, List, [], ◌∷◌, Bool, true, false, not, arith,
}
use astro_uni_board.Base.Word.{word, sub32}
use astro_uni_board.Settings.{axis_foc}
use astro_uni_board.Axis
use astro_uni_board.Axis.{Axis, idle, just_stopped}
use astro_uni_board.Nv.Store.{load_positions, nv_save_position}
use astro_uni_board.Nv.Positions.{Says, IsSettled, after_boot, save_then_boot}
use astro_uni_board.Board.{Board, Around, put_nv}
use astro_uni_board.Focuser.{foc_usteps, note_stop, saved_now, save_when_due, focuser_update}

note_stop-parts :
    (now : ℕ) (b : Board)
    → b.axis.motion ≡ idle
    → b.axis.stopped_flag ≡ true
    → ((note_stop now b).foc.save_pending ≡ true)
      × ((note_stop now b).foc.idle_since ≡ now)
      × ((note_stop now b).foc.unverified ≡ b.foc.unverified)
      × ((note_stop now b).axis ≡ record (b.axis) { stopped_flag = false })
      × ((note_stop now b).nv ≡ b.nv)
      × ((note_stop now b).settings ≡ b.settings)
unfolding note_stop just_stopped
note_stop-parts now b still flagged = ground arith

first_pass :
    (w : Around) (b : Board)
    → b.axis.motion ≡ idle
    → b.axis.stopped_flag ≡ true
    → w.now_ms < word
    → focuser_update w b ≡ note_stop w.now_ms b
unfolding focuser_update save_when_due note_stop just_stopped
first_pass w b still flagged small = ground arith

second_pass :
    (v : Around) (c : Board)
    → c.axis.motion ≡ idle
    → c.axis.stopped_flag ≡ false
    → c.foc.save_pending ≡ true
    → 2000 ≤ sub32 v.now_ms c.foc.idle_since
    → (focuser_update v c).nv
      ≡ (nv_save_position v.bus
          (foc_usteps c)
          axis_foc
          c.axis.position
          (not c.foc.unverified)
          c.nv).0
unfolding focuser_update save_when_due note_stop just_stopped saved_now put_nv Axis.busy
second_pass v c still unflagged due later = ground arith

-- Passes of the loop, one after the other.
abbrev pub passes : List Around → Board → Board
passes [] b = b
passes (w ∷ ws) b = passes ws (focuser_update w b)

-- All of them come within 2000 ms after `since`.
abbrev pub AreEarly : ℕ → List Around → Type 0
AreEarly since [] = Unit {0}
AreEarly since (w ∷ ws) = (sub32 w.now_ms since < 2000) × AreEarly since ws

early_pass :
    (w : Around) (c : Board)
    → c.axis.motion ≡ idle
    → c.axis.stopped_flag ≡ false
    → sub32 w.now_ms c.foc.idle_since < 2000
    → focuser_update w c ≡ c
unfolding focuser_update save_when_due note_stop just_stopped
early_pass w c still unflagged early = ground (arith, still, unflagged, early)

early_passes :
    (ws : List Around) (c : Board)
    → c.axis.motion ≡ idle
    → c.axis.stopped_flag ≡ false
    → AreEarly c.foc.idle_since ws
    → passes ws c ≡ c
early_passes [] c still unflagged early = refl
early_passes (w ∷ ws) c still unflagged (now, rest) =
    ap (passes ws) (early_pass w c still unflagged now) ∙ early_passes ws c still unflagged rest

-- A stopped focuser is saved: after the pass that sees the stop, any passes in the next 2000 ms and one
-- pass later than that, a restart finds the position where it stopped, valid exactly if it was trusted,
-- and the rotator as it was. The EEPROM is there, has no write waiting and takes the write, its ring
-- holds the state in use, and the reads of the start succeed.
pub stop_saved :
    (w v : Around) (ws : List Around) (b : Board) (settings_bad : Bool) (reads : ℕ → Bool)
    → b.axis.motion ≡ idle
    → b.axis.stopped_flag ≡ true
    → w.now_ms < word
    → AreEarly w.now_ms ws
    → 2000 ≤ sub32 v.now_ms w.now_ms
    → IsSettled v.bus b.nv
    → ((i : ℕ) → reads i ≡ true)
    → Says axis_foc
        (not b.foc.unverified)
        b.axis.position
        (load_positions b.nv.slot)
        (after_boot settings_bad reads (focuser_update v (passes ws (focuser_update w b))).nv)
stop_saved w v ws b settings_bad reads still flagged small early later settled all =
    let c = note_stop w.now_ms b in
    let (due, since, trust, stands, same_nv, same_settings) =
      note_stop-parts w.now_ms b still flagged in
    let first : passes ws (focuser_update w b) ≡ passes ws c =
      ap (passes ws) (first_pass w b still flagged small) in
    let waits = first ∙ early_passes ws c (rw stands still) (rw stands refl) (rw since early) in
    rw
      (
        waits,
        second_pass v c (rw stands still) (rw stands refl) due (rw since later),
        stands,
        trust,
        same_nv,
      )
      (save_then_boot v.bus (foc_usteps c) axis_foc b.axis.position (not b.foc.unverified) b.nv
        settings_bad reads settled all)
