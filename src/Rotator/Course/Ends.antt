-- ===== src/Rotator/Course/Ends.antt =====
-- The pass in which a turn of an IMU calibration ends (fw/src/rotator.cpp).
use astro_uni_board.Base.{
  ℕ, ◌≡◌, ◌⊎◌, refl, sym, ap, subst, ◌∙◌, true, false, Bool-cases, inl, inr, arith,
}
use astro_uni_board.Calc.{cdeg_to_steps}
use astro_uni_board.Axis
use astro_uni_board.Rotator.{
  Turntable, Nearby, spk, Seq, seq_none, home_settle, home_move, cal_settle0, cal_move90,
  cal_settle90, cal_move180, cal_settle180, cal_moveback, end_move, check_move_end,
  rot_save_when_due,
}
use astro_uni_board.Rotator.Sequences.{
  abort_seq, when_settled, begin_settle, set_zero_here, home_step, cal_end, when_moved, run_seq,
  seq_update, rotator_imu_home, boot_home_when_due, rotator_update,
}
use astro_uni_board.Rotator.Course.{course, Keeps, Course, anywhere, waits_at}
use astro_uni_board.Rotator.Course.Passes.{home_step-course}

-- `d` stands where the turn of `b` had to end.
pub record EndsAt (b d : Turntable) : Type 0 where
  pub idle : Axis.busy d.axis ≡ false
  pub stands : d.axis.position ≡ cdeg_to_steps b.rot.move_target (spk b)
  pub told : d.rot.angle_idle ≡ b.rot.move_target

-- A course that is not to wait.
elsewhere : (c : Course) (n : ℕ) → c ≡ anywhere → c ≡ waits_at n → ⊥
elsewhere c n e f = cc (e, f)

check_on :
    (now : ℕ) (b : Turntable)
    → b.rot.moving ≡ true
    → Axis.busy b.axis ≡ true
    → check_move_end now b ≡ b
unfolding check_move_end
check_on now b on going = rw (on, going) refl

check_off :
    (now : ℕ) (b : Turntable)
    → b.rot.moving ≡ true
    → Axis.busy b.axis ≡ false
    → check_move_end now b ≡ end_move now b
unfolding check_move_end
check_off now b on still = rw (on, still) refl

module _ (first_delay : ℕ → ℕ) where
  -- A sequence that waits for a move, at a pass where the move has ended.
  settled_at :
      (w : Nearby) (next : Seq) (now n : ℕ) (b : Turntable)
      → Axis.busy b.axis ≡ false
      → course (when_moved first_delay (begin_settle w next) (end_move now b)).rot.seq ≡ waits_at n
      → EndsAt b (when_moved first_delay (begin_settle w next) (end_move now b))
  unfolding when_moved begin_settle abort_seq end_move
  settled_at w next now n b still e = elim (Bool-cases ((end_move now b).rot.last_complete)) [
    | inl done ↦ record {
      idle = ground (arith, still, done);
      stands = ground (arith, done);
      told = ground (arith, done);
    }
    | inr cut ↦ absurd (ground (arith, cut, e))
  ]

  home-course :
      (w : Nearby) (b : Turntable)
      → b.rot.seq ≡ home_settle
      → course (when_settled w (home_step first_delay w) b).rot.seq ≡ anywhere
  unfolding when_settled abort_seq
  home-course w b e = ground (arith, ap course e, home_step-course first_delay w b)

  back-course :
      (w : Nearby) (now : ℕ) (b : Turntable)
      → course (when_moved first_delay (cal_end first_delay w) (end_move now b)).rot.seq ≡ anywhere
  unfolding when_moved cal_end abort_seq end_move set_zero_here
  back-course w now b = ground arith

  moving_same :
      (next : Turntable → Turntable) (b : Turntable)
      → b.rot.moving ≡ true
      → when_moved first_delay next b ≡ b
  unfolding when_moved
  moving_same next b on = rw on refl

  -- While the move goes on, no sequence begins to wait.
  turns_on :
      (s : Seq) (w : Nearby) (n : ℕ) (b : Turntable)
      → b.rot.seq ≡ s
      → Keeps (course s) b.rot
      → b.rot.moving ≡ true
      → course (run_seq first_delay s w b).rot.seq ≡ waits_at n
      → ⊥
  turns_on seq_none w n b q k on e = elsewhere _ n (ap course q) e
  turns_on home_settle w n b q k on e = elsewhere _ n (home-course w b q) e
  turns_on cal_settle0 w n b q k on e = absurd (cc (on, k.0))
  turns_on cal_settle90 w n b q k on e = absurd (cc (on, k.0))
  turns_on cal_settle180 w n b q k on e = absurd (cc (on, k.0))
  turns_on home_move w n b q k on e =
      elsewhere _ n (ap (λ c. course c.rot.seq) (moving_same _ b on) ∙ ap course q) e
  turns_on cal_move90 w n b q k on e = cc (
      sym e
      ∙ ap (λ c. course c.rot.seq) (moving_same (begin_settle w cal_settle90) b on)
      ∙ ap course q)
  turns_on cal_move180 w n b q k on e = cc (
      sym e
      ∙ ap (λ c. course c.rot.seq) (moving_same (begin_settle w cal_settle180) b on)
      ∙ ap course q)
  turns_on cal_moveback w n b q k on e =
      cc (
        sym e ∙ ap (λ c. course c.rot.seq) (moving_same (cal_end first_delay w) b on) ∙ ap course q)

  ends_at :
      (s : Seq) (w : Nearby) (now n : ℕ) (b : Turntable)
      → b.rot.seq ≡ s
      → Keeps (course s) b.rot
      → b.rot.moving ≡ true
      → Axis.busy b.axis ≡ false
      → course (run_seq first_delay s w (end_move now b)).rot.seq ≡ waits_at n
      → EndsAt b (run_seq first_delay s w (end_move now b))
  unfolding end_move
  ends_at seq_none w now n b q k on still e = absurd (elsewhere _ n (ap course q) e)
  ends_at home_settle w now n b q k on still e =
      absurd (elsewhere _ n (home-course w (end_move now b) q) e)
  ends_at cal_settle0 w now n b q k on still e = absurd (cc (on, k.0))
  ends_at cal_settle90 w now n b q k on still e = absurd (cc (on, k.0))
  ends_at cal_settle180 w now n b q k on still e = absurd (cc (on, k.0))
  ends_at home_move w now n b q k on still e = settled_at w home_settle now n b still e
  ends_at cal_move90 w now n b q k on still e = settled_at w cal_settle90 now n b still e
  ends_at cal_move180 w now n b q k on still e = settled_at w cal_settle180 now n b still e
  ends_at cal_moveback w now n b q k on still e = absurd (elsewhere _ n (back-course w now b) e)

  -- The boot home and the save come after it, and leave the axis alone.
  tail-axis :
      (w : Nearby) (d : Turntable)
      → let c = rot_save_when_due w (boot_home_when_due w d) in
        (c.axis ≡ d.axis) × (c.rot.angle_idle ≡ d.rot.angle_idle)
  unfolding rot_save_when_due boot_home_when_due rotator_imu_home begin_settle
  tail-axis w d = (ground arith, ground arith)

  tail-seq :
      (w : Nearby) (d : Turntable)
      → let c = rot_save_when_due w (boot_home_when_due w d) in
        (c.rot.seq ≡ d.rot.seq) ⊎ (c.rot.seq ≡ home_settle)
  unfolding rot_save_when_due boot_home_when_due rotator_imu_home begin_settle
  tail-seq w d = ground arith

  waits_before :
      (w : Nearby) (n : ℕ) (d : Turntable)
      → course (rot_save_when_due w (boot_home_when_due w d)).rot.seq ≡ waits_at n
      → course d.rot.seq ≡ waits_at n
  waits_before w n d e = elim (tail-seq w d) [
    | inl same ↦ ap course (sym same) ∙ e
    | inr home ↦ absurd (elsewhere _ n (ap course home) e)
  ]

  run_ends :
      (w : Nearby) (n : ℕ) (b : Turntable)
      → Keeps (course b.rot.seq) b.rot
      → b.rot.moving ≡ true
      → course (seq_update first_delay w (check_move_end w.now_ms b)).rot.seq ≡ waits_at n
      → EndsAt b (seq_update first_delay w (check_move_end w.now_ms b))
  unfolding seq_update end_move
  run_ends w n b k on e = elim (Bool-cases (Axis.busy b.axis)) [
    | inl busy ↦
        let same = check_on w.now_ms b on busy in
        absurd (
          turns_on b.rot.seq w n b refl k on
            (ap (λ c. course (run_seq first_delay c.rot.seq w c).rot.seq) (sym same) ∙ e))
    | inr still ↦
        let same = check_off w.now_ms b on still in
        subst (λ c. EndsAt b (run_seq first_delay c.rot.seq w c)) (sym same)
          (ends_at b.rot.seq w w.now_ms n b refl k on still
            (ap (λ c. course (run_seq first_delay c.rot.seq w c).rot.seq) (sym same) ∙ e))
  ]

  -- The pass in which a sequence begins to wait, while a move is under way: the move has ended, at its
  -- target.
  pub update_ends :
      (w : Nearby) (n : ℕ) (b : Turntable)
      → Keeps (course b.rot.seq) b.rot
      → b.rot.moving ≡ true
      → course (rotator_update first_delay w b).rot.seq ≡ waits_at n
      → EndsAt b (rotator_update first_delay w b)
  unfolding rotator_update
  update_ends w n b k on e =
      let d = seq_update first_delay w (check_move_end w.now_ms b) in
      let end = run_ends w n b k on (waits_before w n d e) in
      let (same_axis, same_angle) = tail-axis w d in
      record {
        idle = ap Axis.busy same_axis ∙ end.idle;
        stands = ap Axis.Axis.position same_axis ∙ end.stands;
        told = same_angle ∙ end.told;
      }
