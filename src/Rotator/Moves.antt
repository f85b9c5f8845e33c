-- ===== src/Rotator/Moves.antt =====
-- The moves of the rotator (fw/src/rotator.cpp): what is refused, and the angle that a move ends at.
use astro_uni_board.Base.{ℕ, ◌≤◌, ◌≡◌, subst, sym, inl, inr, true, false, some, arith, Option-cases}
use astro_uni_board.Base.Int.{ℤ, magnitude, ◌-ℤ◌, apart, eqb_ℤ}
use astro_uni_board.Errors.{fw_ok, is_ok}
use astro_uni_board.MoveGuard.{move_guard}
use astro_uni_board.Axis
use astro_uni_board.Axis.{Axis, TimerView, idle, motion_busy, move_to, prepared}
use astro_uni_board.Calc.{cdeg_to_steps, steps_to_cdeg}
use astro_uni_board.Wrap.{wrap_plan_target, wrap_reported}
use astro_uni_board.Wrap.Best.{InRange}
use astro_uni_board.Wrap.Plan.{plan_target_sound}
use astro_uni_board.Wrap.Reported.{reported-plan}
use astro_uni_board.Rotator.{
  Turntable, Nearby, spk, any_busy, rotator_busy, view_of, guard, arrive_at_once, turn, start_move,
  rotator_move_to, rotator_move_by, end_move, check_move_end, rotator_angle,
}

eqb_refl : (a : ℤ) → eqb_ℤ a a ≡ true
eqb_refl a = ground arith

module _ (first_delay : ℕ → ℕ) where
  move_to-target :
      (a : Axis) (t : TimerView) (goal : ℤ)
      → 1 ≤ magnitude (goal -ℤ a.position)
      → (move_to first_delay a t goal 0).1 ≡ true
      → (move_to first_delay a t goal 0).0.target ≡ goal
  unfolding move_to prepared
  move_to-target a t goal far h = ground arith

  -- While the angle is suspect and the guard is on, outside of safe mode, no move to an angle and no
  -- move by one is accepted, and the refusal changes nothing.
  pub suspect_blocks :
      (w : Nearby) (goal delta : ℤ) (b : Turntable)
      → b.rot.suspect ≡ true
      → w.safe_mode ≡ false
      → 1 ≤ b.settings.rot_guard
      → ((rotator_move_to first_delay w goal b).0 ≡ b)
        × (is_ok (rotator_move_to first_delay w goal b).1 ≡ false)
        × ((rotator_move_by first_delay w delta b).0 ≡ b)
        × (is_ok (rotator_move_by first_delay w delta b).1 ≡ false)
  unfolding rotator_move_to rotator_move_by guard move_guard
  suspect_blocks w goal delta b lost loaded on = ground arith

  -- What a move that goes on sets.
  record Turns (b c : Turntable) (t : ℤ) : Type 0 where
    to_target : c.rot.move_target ≡ t
    axis_target : c.axis.target ≡ cdeg_to_steps t (spk b)
    same_settings : c.settings ≡ b.settings

  start_move-Turns :
      (w : Nearby) (t : ℤ) (b : Turntable)
      → b.rot.moving ≡ false
      → (start_move first_delay w t b).1 ≡ fw_ok
      → (start_move first_delay w t b).0.rot.moving ≡ true
      → Turns b (start_move first_delay w t b).0 t
  unfolding start_move turn arrive_at_once
  start_move-Turns w t b still accepted goes = ground (
    arith,
    apart (cdeg_to_steps t (spk b)) b.axis.position,
    move_to-target b.axis (view_of w b) (cdeg_to_steps t (spk b)),
  )

  -- What an accepted move was.
  record Accepted (w : Nearby) (goal : ℤ) (b : Turntable) (t : ℤ) : Type 0 where
    plan :
        wrap_plan_target b.rot.angle_idle goal b.settings.rot.wrap_min b.settings.rot.wrap_max
        ≡ some t
    start : rotator_move_to first_delay w goal b ≡ start_move first_delay w t b
    still : b.rot.moving ≡ false

  rotator_move_to-Accepted :
      (w : Nearby) (goal : ℤ) (b : Turntable)
      → (rotator_move_to first_delay w goal b).1 ≡ fw_ok
      → (t : ℤ) × Accepted w goal b t
  unfolding rotator_move_to any_busy rotator_busy
  rotator_move_to-Accepted w goal b accepted =
      let r = b.settings.rot in
      elim (Option-cases (wrap_plan_target b.rot.angle_idle goal r.wrap_min r.wrap_max)) [
        | inl nothing ↦ absurd (ground arith)
        | inr (t, planned) ↦
            (t, record { plan = planned; start = ground arith; still = ground arith })
      ]

  end_at :
      (now : ℕ) (b c : Turntable) (t : ℤ) (a : Axis)
      → Turns b c t
      → c.rot.moving ≡ true
      → a.motion ≡ idle
      → a.position ≡ c.axis.target
      → rotator_angle (check_move_end now (record c { axis = a })) ≡ t
  unfolding check_move_end end_move rotator_angle Axis.busy
  end_at now b c t a v goes stopped there =
      ground
        (arith, v.to_target, v.axis_target, v.same_settings, eqb_refl (cdeg_to_steps t (spk b)))

  -- A move to an angle that is accepted and needs motion: when the axis has stopped at its target, the
  -- main loop sets the angle to one inside the wrap range that is reported as exactly the angle that
  -- the host asked for, whatever the steps per degree round to.
  pub turn_ends :
      (w : Nearby) (goal : ℤ) (b : Turntable) (a : Axis) (now : ℕ)
      → let r = rotator_move_to first_delay w goal b in
        r.1 ≡ fw_ok
        → r.0.rot.moving ≡ true
        → a.motion ≡ idle
        → a.position ≡ r.0.axis.target
        → (wrap_reported (rotator_angle (check_move_end now (record (r.0) { axis = a }))) ≡ goal)
          × InRange b.settings.rot.wrap_min b.settings.rot.wrap_max
              (rotator_angle (check_move_end now (record (r.0) { axis = a })))
  turn_ends w goal b a now accepted goes stopped there =
      let (t, k) = rotator_move_to-Accepted w goal b accepted in
      let c = (rotator_move_to first_delay w goal b).0 in
      let v =
        start_move-Turns w t b k.still (subst (λ x. x.1 ≡ fw_ok) k.start accepted)
          (subst (λ x. x.0.rot.moving ≡ true) k.start goes) in
      let e = end_at now b c t a (subst (λ x. Turns b x.0 t) (sym k.start) v) goes stopped there in
      let lo = b.settings.rot.wrap_min in
      let hi = b.settings.rot.wrap_max in
      rw e (
        reported-plan b.rot.angle_idle goal lo hi t k.plan,
        (plan_target_sound b.rot.angle_idle goal lo hi t k.plan).0,
      )

-- A move that stopped short of its target with no halt asked for, as after a stall or a driver fault,
-- leaves the angle suspect and unverified, and asks for a save.
pub stall_suspects :
    (now : ℕ) (b : Turntable)
    → b.rot.moving ≡ true
    → b.axis.motion ≡ idle
    → b.rot.halt_requested ≡ false
    → eqb_ℤ b.axis.position (cdeg_to_steps b.rot.move_target (spk b)) ≡ false
    → let c = check_move_end now b in
      (c.rot.suspect ≡ true)
      × (c.rot.unverified ≡ true)
      × (c.rot.save_pending ≡ true)
      × (rotator_angle c ≡ steps_to_cdeg b.axis.position (spk b))
unfolding check_move_end end_move rotator_angle Axis.busy
stall_suspects now b goes stopped unasked short = ground arith
