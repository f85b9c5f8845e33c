-- ===== src/Rotator/Homing.antt =====
-- The passes of an IMU home (fw/src/rotator.cpp).
use astro_uni_board.Base.{
  ℕ, ◌≤◌, ◌≡◌, ◌⊎◌, refl, sym, subst, ◌∙◌, leb, Bool-cases, inl, inr, true, false, none, some,
  arith, Option-cases,
}
use astro_uni_board.Base.Int.{ℤ, pos}
use astro_uni_board.Calc.{plan_correction}
use astro_uni_board.Rotator.{
  Turntable, Nearby, seq_none, home_settle, home_move, arrive_at_once, turn, start_move,
  check_move_end, end_move, rot_save_when_due,
}
use astro_uni_board.Rotator.Sequences.{
  near_zero, set_zero_here, abort_seq, when_settled, home_to, next_home, home_step, seq_update,
  gives_up, when_moved, begin_settle, rotator_imu_home, boot_home_when_due, rotator_update,
}
use astro_uni_board.Errors.{home_timeout}
use astro_uni_board.Board.{status_raise}

-- How a home ends: at the angle 0, which is trusted, or with the fault that it timed out.
abbrev pub EndsHome : Turntable → Turntable → Type 0
EndsHome b c =
    (c.rot.seq ≡ seq_none)
    × (((c.rot.angle_idle ≡ pos 0) × (c.rot.suspect ≡ false))
        ⊎ (c.sticky ≡ status_raise b.sticky home_timeout))

module _ (first_delay : ℕ → ℕ) where
  start_move-suspect :
      (w : Nearby) (t : ℤ) (b : Turntable)
      → (start_move first_delay w t b).0.rot.suspect ≡ b.rot.suspect
  unfolding start_move turn arrive_at_once
  start_move-suspect w t b = ground arith

  home_to-suspect :
      (w : Nearby) (t : ℤ) (b : Turntable) → (home_to first_delay w t b).rot.suspect ≡ b.rot.suspect
  unfolding home_to abort_seq
  home_to-suspect w t b = ground (arith, start_move-suspect w t b)

  next_home-trust :
      (w : Nearby) (roll : ℤ) (b : Turntable)
      → b.rot.suspect ≡ true
      → (next_home first_delay w roll b).rot.suspect ≡ false
      → (near_zero b.settings.rot.home_tol_cdeg roll ≡ true)
        × ((next_home first_delay w roll b).rot.angle_idle ≡ pos 0)
  unfolding next_home set_zero_here abort_seq
  next_home-trust w roll b lost found = ground (
    arith,
    home_to-suspect w
        (plan_correction b.rot.angle_idle roll b.settings.rot.wrap_min b.settings.rot.wrap_max) b,
  )

  settled-home_step :
      (w : Nearby) (b : Turntable)
      → b.rot.seq ≡ home_settle
      → b.rot.suspect ≡ true
      → (seq_update first_delay w b).rot.suspect ≡ false
      → (w.imu_settled ≡ true) × (seq_update first_delay w b ≡ home_step first_delay w b)
  unfolding seq_update when_settled abort_seq
  settled-home_step w b settling lost found = ground arith

  home_step-next_home :
      (w : Nearby) (roll : ℤ) (b : Turntable)
      → 1 ≤ b.rot.home_moves
      → w.imu_roll ≡ some roll
      → home_step first_delay w b ≡ next_home first_delay w roll b
  unfolding home_step
  home_step-next_home w roll b moved e = ground arith

  home_step-blind :
      (w : Nearby) (b : Turntable)
      → w.imu_roll ≡ none
      → (home_step first_delay w b).rot.suspect ≡ b.rot.suspect
  unfolding home_step abort_seq
  home_step-blind w b e = ground arith

  settled_trusts :
      (w : Nearby) (b : Turntable)
      → b.rot.seq ≡ home_settle
      → 1 ≤ b.rot.home_moves
      → b.rot.suspect ≡ true
      → (seq_update first_delay w b).rot.suspect ≡ false
      → (w.imu_settled ≡ true)
        × ((roll : ℤ) × (w.imu_roll ≡ some roll)
            × (near_zero b.settings.rot.home_tol_cdeg roll ≡ true))
        × ((seq_update first_delay w b).rot.angle_idle ≡ pos 0)
  settled_trusts w b settling moved lost found =
      let (settled, step) = settled-home_step w b settling lost found in
      let found_step = subst (λ c. c.rot.suspect ≡ false) step found in
      elim (Option-cases (w.imu_roll)) [
        | inl nothing ↦ absurd (cc (home_step-blind w b nothing))
        | inr (roll, e) ↦
            let next = home_step-next_home w roll b moved e in
            let (near, zero_angle) =
              next_home-trust w roll b lost (subst (λ c. c.rot.suspect ≡ false) next found_step) in
            (settled, (roll, e, near), rw (step, next) zero_angle)
      ]

  -- The pass before the sequence: a move that ends does not restore trust.
  check-lost :
      (now : ℕ) (b : Turntable)
      → b.rot.suspect ≡ true
      → let c = check_move_end now b in
        (c.rot.suspect ≡ true)
        × (c.rot.seq ≡ b.rot.seq)
        × (c.rot.home_moves ≡ b.rot.home_moves)
        × (c.settings ≡ b.settings)
  unfolding check_move_end end_move
  check-lost now b lost = (ground (arith, lost), ground arith, ground arith, ground arith)

  -- And after it: neither the boot home nor the save does.
  boot-same :
      (w : Nearby) (b : Turntable)
      → let c = boot_home_when_due w b in
        (c.rot.suspect ≡ b.rot.suspect) × (c.rot.angle_idle ≡ b.rot.angle_idle)
  unfolding boot_home_when_due rotator_imu_home begin_settle
  boot-same w b = (ground arith, ground arith)

  save-same :
      (w : Nearby) (b : Turntable)
      → let c = rot_save_when_due w b in
        (c.rot.suspect ≡ b.rot.suspect) × (c.rot.angle_idle ≡ b.rot.angle_idle)
  unfolding rot_save_when_due
  save-same w b = (ground arith, ground arith)

  after-same :
      (w : Nearby) (b : Turntable)
      → let c = rot_save_when_due w (boot_home_when_due w b) in
        (c.rot.suspect ≡ b.rot.suspect) × (c.rot.angle_idle ≡ b.rot.angle_idle)
  after-same w b =
      let p = boot-same w b in
      let q = save-same w (boot_home_when_due w b) in (q.0 ∙ p.0, q.1 ∙ p.1)

  moved-suspect :
      (w : Nearby) (b : Turntable)
      → b.rot.seq ≡ home_move
      → (seq_update first_delay w b).rot.suspect ≡ b.rot.suspect
  unfolding seq_update when_moved begin_settle abort_seq
  moved-suspect w b e = ground (arith, e)

  -- In a whole pass of the rotator during a home that has made its first move: an angle that was not
  -- trusted is trusted afterwards only where the home waited for the IMU, the IMU has settled and it
  -- reads a roll within the tolerance of zero; the angle is then 0.
  pub home_trusts :
      (w : Nearby) (b : Turntable)
      → (b.rot.seq ≡ home_settle) ⊎ (b.rot.seq ≡ home_move)
      → 1 ≤ b.rot.home_moves
      → b.rot.suspect ≡ true
      → (rotator_update first_delay w b).rot.suspect ≡ false
      → (b.rot.seq ≡ home_settle)
        × (w.imu_settled ≡ true)
        × ((roll : ℤ) × (w.imu_roll ≡ some roll)
            × (near_zero b.settings.rot.home_tol_cdeg roll ≡ true))
        × ((rotator_update first_delay w b).rot.angle_idle ≡ pos 0)
  unfolding rotator_update
  home_trusts w b homing moved lost found =
      let c = check_move_end w.now_ms b in
      let (still_lost, same_seq, same_moves, same_settings) = check-lost w.now_ms b lost in
      let tail = after-same w (seq_update first_delay w c) in
      let now_found = sym tail.0 ∙ found in
      elim homing [
        | inl e ↦
            let (settled, (roll, r, near), zero_angle) =
              settled_trusts w c (same_seq ∙ e) (rw same_moves moved) still_lost now_found in
            (
              e,
              settled,
              (roll, r, subst (λ s. near_zero s.rot.home_tol_cdeg roll ≡ true) same_settings near),
              tail.1 ∙ zero_angle,
            )
        | inr e ↦
            let stays = moved-suspect w c (same_seq ∙ e) in
            absurd (ground (arith, sym now_found ∙ stays ∙ still_lost))
      ]

  abort-EndsHome : (b : Turntable) → EndsHome b (abort_seq home_timeout b)
  unfolding abort_seq
  abort-EndsHome b = (ground arith, inr (ground arith))

  late-EndsHome :
      (w : Nearby) (roll : ℤ) (b : Turntable)
      → 3 ≤ b.rot.home_moves
      → EndsHome b (next_home first_delay w roll b)
  unfolding next_home set_zero_here
  late-EndsHome w roll b moved = elim (Bool-cases (near_zero b.settings.rot.home_tol_cdeg roll)) [
    | inl near ↦ rw near (refl, inl (refl, refl))
    | inr far ↦
        let stop : leb 3 b.rot.home_moves ≡ true = ground (arith, moved) in
        rw (far, stop) (abort-EndsHome b)
  ]

  step-EndsHome :
      (w : Nearby) (b : Turntable) → 3 ≤ b.rot.home_moves → EndsHome b (home_step first_delay w b)
  unfolding home_step
  step-EndsHome w b moved = elim (Option-cases (w.imu_roll)) [
    | inl e ↦
        let stops : home_step first_delay w b ≡ abort_seq home_timeout b = ground (arith, e) in
        subst (EndsHome b) (sym stops) (abort-EndsHome b)
    | inr (roll, e) ↦
        let goes = home_step-next_home w roll b (omega (arith, moved)) e in
        subst (EndsHome b) (sym goes) (late-EndsHome w roll b moved)
  ]

  -- At the pass of a home that finds the IMU settled after three moves, the sequence is over: the angle
  -- is 0 and trusted, or the fault of a home that timed out is raised.
  pub home_ends :
      (w : Nearby) (b : Turntable)
      → b.rot.seq ≡ home_settle
      → 3 ≤ b.rot.home_moves
      → w.imu_settled ≡ true
      → EndsHome b (seq_update first_delay w b)
  unfolding seq_update when_settled
  home_ends w b settling moved settled = elim (Bool-cases (gives_up w b)) [
    | inl up ↦
        let stops : seq_update first_delay w b ≡ abort_seq home_timeout b =
          ground (arith, settling, up) in
        subst (EndsHome b) (sym stops) (abort-EndsHome b)
    | inr on ↦
        let goes : seq_update first_delay w b ≡ home_step first_delay w b =
          ground (arith, settling, on, settled) in
        subst (EndsHome b) (sym goes) (step-EndsHome w b moved)
  ]
