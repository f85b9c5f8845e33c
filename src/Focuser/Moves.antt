-- ===== src/Focuser/Moves.antt =====
-- Which moves of the focuser start, and where they end (fw/src/focuser.cpp).
use astro_uni_board.Base.{
  ℕ, ◌+◌, ◌<◌, ◌≡◌, refl, Bool, true, false, not, ◌&&◌, ◌||◌, arith, if◌then◌else◌,
}
use astro_uni_board.Base.Int.{apart, ℤ, pos, negsuc, magnitude, ◌+ℤ◌, ◌-ℤ◌, ltb_ℤ, eqb_ℤ}
use astro_uni_board.Errors.{fw_ok, is_ok}
use astro_uni_board.MoveGuard.{move_guard, safe_jog_foc_steps}
use astro_uni_board.Settings.{axis_foc}
use astro_uni_board.Axis.Exact.{IsFree, Arrives, move_length, settle_count, move_to-Arrives}
use astro_uni_board.Nv.Store.{nv_mark_moving}
use astro_uni_board.Board.{Board, Around, put_nv, any_busy, view_of}
use astro_uni_board.Focuser.{
  foc_usteps, lead_of, start_move, try_move, focuser_move_to, focuser_move_by,
}
use astro_uni_board.Focuser.Limits.{Within, IsLimited, distance-le, lead_of-le}

jump_back : (p d : ℤ) → (p +ℤ d) -ℤ p ≡ d
unfolding ◌+ℤ◌ ◌-ℤ◌
jump_back p d = ground arith

module _ (first_delay : ℕ → ℕ) where
  refused_far :
      (w : Around) (goal : ℤ) (absolute : Bool) (b : Board)
      → w.safe_mode ≡ true
      → b.foc.unverified ≡ true
      → (absolute ≡ false → safe_jog_foc_steps < magnitude (goal -ℤ b.axis.position))
      → ((try_move first_delay w goal absolute b).0 ≡ b)
        × (is_ok (try_move first_delay w goal absolute b).1 ≡ false)
  unfolding try_move move_guard
  refused_far w goal absolute b safe lost far = ground arith

  -- In safe mode, with the position not trusted, no absolute move and no jog of more than 200 steps is
  -- accepted, and the refusal changes nothing.
  pub untrusted_refuses :
      (w : Around) (p d : ℤ) (b : Board)
      → w.safe_mode ≡ true
      → b.foc.unverified ≡ true
      → 200 < magnitude d
      → ((focuser_move_to first_delay w p b).0 ≡ b)
        × (is_ok (focuser_move_to first_delay w p b).1 ≡ false)
        × ((focuser_move_by first_delay w d b).0 ≡ b)
        × (is_ok (focuser_move_by first_delay w d b).1 ≡ false)
  unfolding focuser_move_to focuser_move_by
  untrusted_refuses w p d b safe lost far =
      let q = refused_far w p true b safe lost (λ e. absurd (cc e)) in
      let r =
        refused_far w (b.axis.position +ℤ d) false b safe lost
          (λ _. rw (jump_back b.axis.position d) far) in
      (q.0, q.1, ground (arith, r), ground (arith, r))

-- Nothing stands against a move to `goal`.
pub record MayMove (w : Around) (b : Board) (goal : ℤ) : Type 0 where
  pub inside : Within b.settings.foc.max_pos goal
  pub away : eqb_ℤ goal b.axis.position ≡ false
  pub quiet : any_busy w b ≡ false
  pub trusted : (w.safe_mode && b.foc.unverified) ≡ false
  pub driven : (w.answering || w.applied) ≡ true
  pub supplied : w.supply_ok ≡ true
  pub timer_free : w.timer_running ≡ false
  pub timer_begun : w.timer_starts ≡ true
  pub pins_known : b.axis.begun ≡ true

-- The direction of a move, and its take-up.
abbrev pub direction : ℤ → ℤ → ℤ
direction p goal = if ltb_ℤ p goal then pos 1 else negsuc 0

abbrev pub take_up : Board → ℤ → ℕ
take_up b goal = lead_of b (direction b.axis.position goal)

MayMove-IsFree :
    (w : Around) (b : Board) (goal : ℤ) → MayMove w b goal → IsFree b.axis (view_of w b)
unfolding any_busy view_of
MayMove-IsFree w b goal m = ground (arith, m.quiet, m.timer_free, m.timer_begun, m.pins_known)

module _ (first_delay : ℕ → ℕ) where
  move_to-start_move :
      (w : Around) (b : Board) (goal : ℤ)
      → MayMove w b goal
      → focuser_move_to first_delay w goal b ≡ start_move first_delay w goal b
  unfolding focuser_move_to try_move move_guard
  move_to-start_move w b goal m =
      ground (arith, m.inside, m.away, m.quiet, m.trusted, m.driven, m.supplied)

  -- A move to a position inside the limits, with nothing busy, the position trusted (or no safe mode)
  -- and the driver ready, is accepted; the store is told first that the focuser moves; and the focuser
  -- stands at the requested position after exactly the distance and the take-up, one step each.
  pub focuser_move_to-Arrives :
      (w : Around) (b : Board) (goal : ℤ)
      → IsLimited b
      → MayMove w b goal
      → let r = focuser_move_to first_delay w goal b in
        (r.1 ≡ fw_ok)
        × (r.0.nv ≡ (nv_mark_moving w.bus (foc_usteps b) axis_foc b.nv).0)
        × (r.0.axis.target ≡ goal)
        × Arrives r.0.axis
            (settle_count (not b.axis.enabled) + move_length b.axis goal (take_up b goal))
  unfolding start_move put_nv
  focuser_move_to-Arrives w b goal s m =
      let lead = take_up b goal in
      let some_steps = apart goal b.axis.position m.away in
      let far =
        distance-le b.settings.foc.max_pos goal b.axis.position m.inside s.here s.max_ok.1 in
      let (started, there, end) =
        move_to-Arrives first_delay b.axis (view_of w b) goal lead (MayMove-IsFree w b goal m)
          (omega (arith, some_steps))
          (omega (arith, far, lead_of-le b (direction b.axis.position goal), s.lash_ok)) in
      rw (move_to-start_move w b goal m, started) (refl, refl, there, end)
