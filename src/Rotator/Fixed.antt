-- ===== src/Rotator/Fixed.antt =====
-- The rotator's moves and sequences leave the settings alone (fw/src/rotator.cpp).
use astro_uni_board.Base.{
  ℕ, ◌≡◌, refl, Bool, true, false, arith, Option-cases, inl, inr, if◌then◌else◌,
}
use astro_uni_board.Base.Int.{ℤ, ◌+ℤ◌}
use astro_uni_board.Errors.{FwError}
use astro_uni_board.Calc.{plan_home, plan_correction}
use astro_uni_board.Wrap.{wrap_plan_target}
use astro_uni_board.Rotator.{
  Turntable, Nearby, Seq, seq_none, home_settle, home_move, cal_settle0, cal_move90, cal_settle90,
  cal_move180, cal_settle180, cal_moveback, arrive_at_once, turn, start_move, rotator_move_to,
  rotator_move_by, check_move_end, end_move, rot_save_when_due,
}
use astro_uni_board.Rotator.Sequences.{
  set_zero_here, abort_seq, when_settled, when_moved, begin_settle, home_to, first_home, next_home,
  home_step, cal_step, cal_end, run_seq, seq_update, rotator_imu_home, rotator_imu_calibrate,
  boot_home_when_due, rotator_update,
}

-- The settings are the same.
pub record Fixed (b c : Turntable) : Type 0 where
  pub fixed : c.settings ≡ b.settings

choose : {b x y : Turntable} (c : Bool) → Fixed b x → Fixed b y → Fixed b (if c then x else y)
choose true p q = p
choose false p q = q

same-Fixed : (b : Turntable) → Fixed b b
same-Fixed b = record { fixed = refl }

abort-Fixed : (e : FwError) (b : Turntable) → Fixed b (abort_seq e b)
unfolding abort_seq
abort-Fixed e b = record { fixed = ground arith }

settled-Fixed :
    (w : Nearby) (next : Turntable → Turntable) (b : Turntable)
    → Fixed b (next b)
    → Fixed b (when_settled w next b)
unfolding when_settled
settled-Fixed w next b p = choose _ (abort-Fixed _ b) (choose w.imu_settled p (same-Fixed b))

save-Fixed : (w : Nearby) (b : Turntable) → Fixed b (rot_save_when_due w b)
unfolding rot_save_when_due
save-Fixed w b = choose _ (record { fixed = refl }) (same-Fixed b)

check-Fixed : (now : ℕ) (b : Turntable) → Fixed b (check_move_end now b)
unfolding check_move_end end_move
check-Fixed now b = choose _ (same-Fixed b) (record { fixed = refl })

pub imu_home-Fixed : (w : Nearby) (b : Turntable) → Fixed b (rotator_imu_home w b).0
unfolding rotator_imu_home begin_settle
imu_home-Fixed w b = record { fixed = ground arith }

pub calibrate-Fixed : (w : Nearby) (b : Turntable) → Fixed b (rotator_imu_calibrate w b).0
unfolding rotator_imu_calibrate begin_settle
calibrate-Fixed w b = record { fixed = ground arith }

boot-Fixed : (w : Nearby) (b : Turntable) → Fixed b (boot_home_when_due w b)
unfolding boot_home_when_due
boot-Fixed w b = choose _ (record { fixed = (imu_home-Fixed w _).fixed }) (same-Fixed b)

zero-Fixed : (now : ℕ) (b c : Turntable) → c.settings ≡ b.settings → Fixed b (set_zero_here now c)
unfolding set_zero_here
zero-Fixed now b c e = record { fixed = e }

module _ (first_delay : ℕ → ℕ) where
  pub start-Fixed :
      (w : Nearby) (goal : ℤ) (b : Turntable) → Fixed b (start_move first_delay w goal b).0
  unfolding start_move turn arrive_at_once
  start-Fixed w goal b = record { fixed = ground arith }

  pub move_to-Fixed :
      (w : Nearby) (v : ℤ) (b : Turntable) → Fixed b (rotator_move_to first_delay w v b).0
  unfolding rotator_move_to
  move_to-Fixed w v b =
      let r = b.settings.rot in
      record {
        fixed = elim (Option-cases (wrap_plan_target b.rot.angle_idle v r.wrap_min r.wrap_max)) [
          | inl e ↦ ground (arith, e)
          | inr (t, e) ↦ ground (arith, e, (start-Fixed w t b).fixed)
        ];
      }

  pub move_by-Fixed :
      (w : Nearby) (v : ℤ) (b : Turntable) → Fixed b (rotator_move_by first_delay w v b).0
  unfolding rotator_move_by
  move_by-Fixed w v b = record {
    fixed = ground (arith, (start-Fixed w (b.rot.angle_idle +ℤ v) b).fixed);
  }

  home_to-Fixed : (w : Nearby) (t : ℤ) (b : Turntable) → Fixed b (home_to first_delay w t b)
  unfolding home_to abort_seq
  home_to-Fixed w t b = record { fixed = ground (arith, (start-Fixed w t b).fixed) }

  first-Fixed : (w : Nearby) (roll : ℤ) (b : Turntable) → Fixed b (first_home first_delay w roll b)
  unfolding first_home abort_seq set_zero_here
  first-Fixed w roll b =
      let r = b.settings.rot in
      record {
        fixed = elim (Option-cases (plan_home b.rot.angle_idle roll r.wrap_min r.wrap_max)) [
          | inl e ↦ ground (arith, e)
          | inr (t, e) ↦ ground (arith, e, (home_to-Fixed w t b).fixed)
        ];
      }

  next-Fixed : (w : Nearby) (roll : ℤ) (b : Turntable) → Fixed b (next_home first_delay w roll b)
  unfolding next_home abort_seq set_zero_here
  next-Fixed w roll b =
      let r = b.settings.rot in
      let t = plan_correction b.rot.angle_idle roll r.wrap_min r.wrap_max in
      record { fixed = ground (arith, (home_to-Fixed w t b).fixed) }

  step-Fixed : (w : Nearby) (b : Turntable) → Fixed b (home_step first_delay w b)
  unfolding home_step abort_seq
  step-Fixed w b = record {
    fixed = elim (Option-cases (w.imu_roll)) [
      | inl e ↦ ground (arith, e)
      | inr (roll, e) ↦ ground (arith, e, (first-Fixed w roll b).fixed, (next-Fixed w roll b).fixed)
    ];
  }

  cal_step-Fixed :
      (w : Nearby) (t : ℤ) (next : Seq) (b : Turntable) → Fixed b (cal_step first_delay w t next b)
  unfolding cal_step abort_seq
  cal_step-Fixed w t next b = record { fixed = ground (arith, (start-Fixed w t b).fixed) }

  cal_end-Fixed : (w : Nearby) (b : Turntable) → Fixed b (cal_end first_delay w b)
  unfolding cal_end set_zero_here
  cal_end-Fixed w b = record { fixed = ground arith }

  moved-Fixed :
      (next : Turntable → Turntable) (b : Turntable)
      → Fixed b (next b)
      → Fixed b (when_moved first_delay next b)
  unfolding when_moved
  moved-Fixed next b p = choose b.rot.moving (same-Fixed b) (choose _ (abort-Fixed _ b) p)

  begin-Fixed : (w : Nearby) (next : Seq) (b : Turntable) → Fixed b (begin_settle w next b)
  unfolding begin_settle
  begin-Fixed w next b = record { fixed = refl }

  run-Fixed : (s : Seq) (w : Nearby) (b : Turntable) → Fixed b (run_seq first_delay s w b)
  run-Fixed seq_none w b = same-Fixed b
  run-Fixed home_settle w b = settled-Fixed w _ b (step-Fixed w b)
  run-Fixed cal_settle0 w b = settled-Fixed w _ b (cal_step-Fixed w _ _ b)
  run-Fixed cal_settle90 w b = settled-Fixed w _ b (cal_step-Fixed w _ _ b)
  run-Fixed cal_settle180 w b = settled-Fixed w _ b (cal_step-Fixed w _ _ b)
  run-Fixed home_move w b = moved-Fixed _ b (begin-Fixed w _ b)
  run-Fixed cal_move90 w b = moved-Fixed _ b (begin-Fixed w _ b)
  run-Fixed cal_move180 w b = moved-Fixed _ b (begin-Fixed w _ b)
  run-Fixed cal_moveback w b = moved-Fixed _ b (cal_end-Fixed w b)

  -- A pass of `rotatorUpdate` leaves the settings alone.
  pub update-Fixed : (w : Nearby) (b : Turntable) → Fixed b (rotator_update first_delay w b)
  unfolding rotator_update seq_update
  update-Fixed w b =
      let b1 = check_move_end w.now_ms b in
      let b2 = seq_update first_delay w b1 in
      let b3 = boot_home_when_due w b2 in
      let run = run-Fixed b1.rot.seq w b1 in
      record {
        fixed = cc (
          (check-Fixed w.now_ms b).fixed,
          run.fixed,
          (boot-Fixed w b2).fixed,
          (save-Fixed w b3).fixed,
        );
      }
