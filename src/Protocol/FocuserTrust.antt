-- ===== src/Protocol/FocuserTrust.antt =====
-- How the focuser's position is trusted again (fw/src/focuser.cpp, fw/src/protocol_focuser.cpp).
use astro_uni_board.Base.{
  ℕ, ◌<◌, ◌≡◌, ◌⊎◌, inl, inr, refl, ap, ◌∙◌, Bool, true, false, List, [], ◌∷◌, arith, Bool-cases,
}
use astro_uni_board.Base.Int.{ℤ, ◌+ℤ◌, magnitude}
use astro_uni_board.Errors.{is_ok}
use astro_uni_board.Board.{Board, Around, put_nv}
use astro_uni_board.Focuser.{
  focuser_apply_settings, start_move, try_move, note_stop, saved_now, save_when_due, focuser_update,
  focuser_move_to, focuser_move_by, focuser_halt, focuser_sync, focuser_rescale,
}
use astro_uni_board.Focuser.Moves.{untrusted_refuses}
use astro_uni_board.Protocol.FocuserBlock.{
  set_max, set_foc_speed, set_foc_accel, set_backlash, set_foc_reverse, set_step_size,
}
use astro_uni_board.Protocol.FocuserCases.{FocuserKept, protocol_focuser-Kept}
use astro_uni_board.Protocol.FocuserHistory.{
  FocEvent, command, rescale, pass, on_axis, distrust, react, history,
}

-- `c` is `b` after a sync that was accepted.
abbrev pub AfterSync : Board → Board → Type 0
AfterSync b c =
    (w : Around) × (v : ℤ) × (is_ok (focuser_sync w v b).1 ≡ true) × (c ≡ (focuser_sync w v b).0)

-- Still not trusted, or synced.
pub record Distrusts (b c : Board) : Type 0 where
  pub distrusts : (c.foc.unverified ≡ true) ⊎ AfterSync b c

as_before :
    (b c : Board) → c.foc.unverified ≡ b.foc.unverified → b.foc.unverified ≡ true → Distrusts b c
as_before b c e lost = record { distrusts = inl (e ∙ lost) }

refused_sync :
    (w : Around) (v : ℤ) (b : Board)
    → is_ok (focuser_sync w v b).1 ≡ false
    → (focuser_sync w v b).0 ≡ b
unfolding focuser_sync
refused_sync w v b e = ground (arith, e)

sync-Distrusts :
    (w : Around) (v : ℤ) (b : Board) → b.foc.unverified ≡ true → Distrusts b (focuser_sync w v b).0
sync-Distrusts w v b lost = elim (Bool-cases (is_ok (focuser_sync w v b).1)) [
  | inl taken ↦ record { distrusts = inr (w, v, taken, refl) }
  | inr not_taken ↦ as_before b _ (ap (λ c. c.foc.unverified) (refused_sync w v b not_taken)) lost
]

update-trust : (w : Around) (b : Board) → (focuser_update w b).foc.unverified ≡ b.foc.unverified
unfolding focuser_update note_stop save_when_due saved_now put_nv
update-trust w b = ground arith

rescale-trust :
    (now o n : ℕ) (b : Board) → (focuser_rescale now o n b).foc.unverified ≡ b.foc.unverified
unfolding focuser_rescale focuser_apply_settings
rescale-trust now o n b = ground arith

module _ (first_delay : ℕ → ℕ) where
  try_move-trust :
      (w : Around) (goal : ℤ) (absolute : Bool) (b : Board)
      → (try_move first_delay w goal absolute b).0.foc.unverified ≡ b.foc.unverified
  unfolding try_move start_move put_nv
  try_move-trust w goal absolute b = ground arith

  jog-trust :
      (w : Around) (v : ℤ) (b : Board)
      → (focuser_move_by first_delay w v b).0.foc.unverified ≡ b.foc.unverified
  unfolding focuser_move_by
  jog-trust w v b = ground (arith, try_move-trust w (b.axis.position +ℤ v) false b)

  focuser-Distrusts :
      (w : Around) (b : Board) → b.foc.unverified ≡ true → FocuserKept first_delay (Distrusts b) w b
  unfolding focuser_move_to focuser_halt set_max set_foc_speed set_foc_accel set_backlash
      set_foc_reverse set_step_size focuser_apply_settings
  focuser-Distrusts w b lost = record {
    stays = as_before b b refl lost;
    moves = λ v. as_before b _ (try_move-trust w v true b) lost;
    jogs = λ v. as_before b _ (jog-trust w v b) lost;
    halts = as_before b (focuser_halt b) refl lost;
    syncs = λ v. sync-Distrusts w v b lost;
    limits = λ v l h. as_before b (set_max b v).0 (ground arith) lost;
    speeds = λ v. as_before b (set_foc_speed b v).0 refl lost;
    accels = λ v. as_before b (set_foc_accel b v).0 refl lost;
    backlashes = λ v l h. as_before b (set_backlash b v).0 refl lost;
    reverses = λ v. as_before b (set_foc_reverse b v).0 (ground arith) lost;
    sizes = λ v. as_before b (set_step_size b v).0 refl lost;
  }

  react-Distrusts :
      (e : FocEvent) (b : Board) → b.foc.unverified ≡ true → Distrusts b (react first_delay e b)
  unfolding react
  react-Distrusts (command w cmd params) b lost =
      protocol_focuser-Kept (Distrusts b) first_delay w b (focuser-Distrusts w b lost) cmd params
  react-Distrusts (rescale now o n) b lost = as_before b _ (rescale-trust now o n b) lost
  react-Distrusts (pass w) b lost = as_before b _ (update-trust w b) lost
  react-Distrusts (on_axis e) b lost = as_before b _ refl lost
  react-Distrusts distrust b lost = record { distrusts = inl refl }

  -- One of the events was a sync that was accepted.
  abbrev pub Synced : List FocEvent → Board → Type 0
  Synced [] b = ⊥
  Synced (e ∷ es) b = AfterSync b (react first_delay e b) ⊎ Synced es (react first_delay e b)

  history-trust :
      (es : List FocEvent) (b : Board)
      → b.foc.unverified ≡ true
      → Synced es b ⊎ ((history first_delay es b).foc.unverified ≡ true)
  unfolding history
  history-trust [] b lost = inr lost
  history-trust (e ∷ es) b lost = elim ((react-Distrusts e b lost).distrusts) [
    | inr synced ↦ inl (inl synced)
    | inl still ↦ elim (history-trust es (react first_delay e b) still) [
      | inl synced ↦ inl (inr synced)
      | inr lost' ↦ inr lost'
    ]
  ]

  -- From a position that is not trusted on, after any commands 50 to 69, passes, stops, interrupts and
  -- changes of the microsteps, in any order: a sync was accepted among them, or in safe mode no absolute
  -- move and no jog of more than 200 steps is accepted, and the refusal changes nothing.
  pub safe_mode_holds :
      (es : List FocEvent) (w : Around) (p d : ℤ) (b : Board)
      → b.foc.unverified ≡ true
      → w.safe_mode ≡ true
      → 200 < magnitude d
      → let c = history first_delay es b in
        Synced es b
        ⊎ (((focuser_move_to first_delay w p c).0 ≡ c)
            × (is_ok (focuser_move_to first_delay w p c).1 ≡ false)
            × ((focuser_move_by first_delay w d c).0 ≡ c)
            × (is_ok (focuser_move_by first_delay w d c).1 ≡ false))
  safe_mode_holds es w p d b lost safe far = elim (history-trust es b lost) [
    | inl synced ↦ inl synced
    | inr still ↦
        inr (untrusted_refuses first_delay w p d (history first_delay es b) safe still far)
  ]
