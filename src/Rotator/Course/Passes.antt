-- ===== src/Rotator/Course/Passes.antt =====
-- The passes and the commands of the rotator during an IMU calibration (fw/src/rotator.cpp).
use astro_uni_board.Base.{
  ℕ, ◌≡◌, refl, sym, subst, Bool, true, false, not, ◌&&◌, ◌||◌, leb, arith, if◌then◌else◌,
  Bool-cases, Option-cases, inl, inr,
}
use astro_uni_board.Base.Int.{ltb_ℤ, ℤ, pos, negsuc, ◌+ℤ◌}
use astro_uni_board.Base.Word.{sub32}
use astro_uni_board.Calc.{plan_home, plan_correction}
use astro_uni_board.Errors.{FwError, is_ok, sensor, imu_vertical, bad_param}
use astro_uni_board.Rotator.{
  Turntable, Nearby, Rotator, Seq, seq_none, home_settle, home_move, cal_settle0, cal_move90,
  cal_settle90, cal_move180, cal_settle180, cal_moveback, rotator_busy, any_busy, rot_save_when_due,
  guard, driver_ok,
}
use astro_uni_board.Rotator.Sequences.{
  abort_seq, begin_settle, set_zero_here, home_to, first_home, next_home, home_step, cal_end,
  run_seq, seq_update, rotator_imu_home, rotator_imu_calibrate, boot_home_when_due, rotator_update,
}
use astro_uni_board.Rotator.Course.{
  Course, course, Keeps, turns_to, waits_at, anywhere, OnCourse, free-OnCourse, none-OnCourse,
  either-OnCourse, waiting, check-OnCourse, cal_step-OnCourse, when_settled-OnCourse,
  when_moved-OnCourse,
}
use astro_uni_board.Rotator.Rest.{resting}

plus_nothing : (z : ℤ) → z ≡ z +ℤ pos 0
unfolding ◌+ℤ◌
plus_nothing (pos n) = ground arith
plus_nothing (negsuc n) = ground arith

pub rests_too : (w : Nearby) (b : Turntable) → any_busy w b ≡ false → rotator_busy b ≡ false
unfolding any_busy
rests_too w b off = ground (arith, off)

-- A command that is refused while anything is busy.
free_only :
    (w : Nearby) (b : Turntable) (x y : Turntable × FwError)
    → OnCourse x.0.rot
    → (any_busy w b ≡ false → OnCourse y.0.rot)
    → OnCourse (if any_busy w b then x else y).0.rot
free_only w b x y p q = elim (Bool-cases (any_busy w b)) [
  | inl on ↦ subst (λ t. OnCourse (if t then x else y).0.rot) (sym on) p
  | inr off ↦ subst (λ t. OnCourse (if t then x else y).0.rot) (sym off) (q off)
]

record Answers (r : Turntable × FwError) : Type 0 where
  answered : OnCourse r.0.rot

refused :
    (t : Bool) {x y : Turntable × FwError} → Answers x → Answers y → Answers (if t then x else y)
refused true p q = p
refused false p q = q

-- The flags of the saves and of the boot home are not part of the course.
flagged :
    (c : Course) (save boot : Bool) (r : Rotator)
    → Keeps c r
    → Keeps c (record r { save_pending = save; boot_pending = boot })
flagged anywhere save boot r k = tt
flagged (waits_at n) save boot r k = k
flagged (turns_to n) save boot r k = k

pub homes-OnCourse :
    (w : Nearby) (b : Turntable) → OnCourse b.rot → OnCourse (rotator_imu_home w b).0.rot
unfolding rotator_imu_home begin_settle
homes-OnCourse w b p = free_only w b _ _ p (λ off.
    let still = (resting b (rests_too w b off)).2 in free-OnCourse _ (ground (arith, still)))

pub calibrates-OnCourse :
    (w : Nearby) (b : Turntable) → OnCourse b.rot → OnCourse (rotator_imu_calibrate w b).0.rot
unfolding rotator_imu_calibrate begin_settle
calibrates-OnCourse w b p = free_only w b _ _ p (λ off.
    let still = (resting b (rests_too w b off)).0 in
    let p' : (e : FwError) → Answers (b, e) = λ e. record { answered = p } in
    (refused (w.safe_mode || not w.imu_answering) (p' sensor) (
      refused w.near_vertical (p' imu_vertical) (
        refused (not (is_ok (guard w true (pos 0) b))) (p' _) (
          refused (ltb_ℤ b.settings.rot.wrap_max (b.rot.angle_idle +ℤ pos 18000)) (p' bad_param) (
            refused (not (driver_ok w)) (record { answered = p })
              (record {
                answered = waiting 0 cal_settle0 _ refl refl (still, plus_nothing b.rot.angle_idle);
              })))))).answered)

module _ (first_delay : ℕ → ℕ) where
  -- Homing has no course to keep.
  home_to-course :
      (w : Nearby) (t : ℤ) (b : Turntable) → course (home_to first_delay w t b).rot.seq ≡ anywhere
  unfolding home_to abort_seq
  home_to-course w t b = ground arith

  first_home-course :
      (w : Nearby) (roll : ℤ) (b : Turntable)
      → course (first_home first_delay w roll b).rot.seq ≡ anywhere
  unfolding first_home abort_seq set_zero_here
  first_home-course w roll b =
      let r = b.settings.rot in
      elim (Option-cases (plan_home b.rot.angle_idle roll r.wrap_min r.wrap_max)) [
        | inl e ↦ ground (arith, e)
        | inr (t, e) ↦ ground (arith, e, home_to-course w t b)
      ]

  next_home-course :
      (w : Nearby) (roll : ℤ) (b : Turntable)
      → course (next_home first_delay w roll b).rot.seq ≡ anywhere
  unfolding next_home abort_seq set_zero_here
  next_home-course w roll b = ground (
    arith,
    home_to-course w
        (plan_correction b.rot.angle_idle roll b.settings.rot.wrap_min b.settings.rot.wrap_max) b,
  )

  pub home_step-course :
      (w : Nearby) (b : Turntable) → course (home_step first_delay w b).rot.seq ≡ anywhere
  unfolding home_step abort_seq
  home_step-course w b = elim (Option-cases (w.imu_roll)) [
    | inl e ↦ ground (arith, e)
    | inr (roll, e) ↦ ground (arith, e, first_home-course w roll b, next_home-course w roll b)
  ]

  home_step-OnCourse : (w : Nearby) (b : Turntable) → OnCourse (home_step first_delay w b).rot
  home_step-OnCourse w b = free-OnCourse _ (home_step-course w b)

  settle-OnCourse :
      (w : Nearby) (n : ℕ) (next : Seq) (b : Turntable)
      → course next ≡ waits_at n
      → Keeps (turns_to n) b.rot
      → b.rot.moving ≡ false
      → b.rot.last_complete ≡ true
      → OnCourse (begin_settle w next b).rot
  unfolding begin_settle
  settle-OnCourse w n next b e k off done =
      waiting n next (record (b.rot) { seq_ms = w.now_ms; seq = next }) e refl (off, k.1 off done)

  cal_end-OnCourse : (w : Nearby) (b : Turntable) → OnCourse (cal_end first_delay w b).rot
  unfolding cal_end set_zero_here
  cal_end-OnCourse w b = none-OnCourse _ (ground arith)

  settles-OnCourse :
      (w : Nearby) (next : Seq) (b : Turntable)
      → course next ≡ anywhere
      → OnCourse (begin_settle w next b).rot
  unfolding begin_settle
  settles-OnCourse w next b e = free-OnCourse _ e

  run_seq-OnCourse :
      (s : Seq) (w : Nearby) (b : Turntable)
      → b.rot.seq ≡ s
      → Keeps (course s) b.rot
      → OnCourse b.rot
      → OnCourse (run_seq first_delay s w b).rot
  run_seq-OnCourse seq_none w b e k p = p
  run_seq-OnCourse home_settle w b e k p =
      when_settled-OnCourse first_delay w _ b p (home_step-OnCourse w b)
  run_seq-OnCourse home_move w b e k p =
      when_moved-OnCourse first_delay _ b p (λ off done. settles-OnCourse w home_settle b refl)
  run_seq-OnCourse cal_settle0 w b e k p =
      when_settled-OnCourse first_delay w _ b p
        (cal_step-OnCourse first_delay w 9000 _ cal_move90 b refl refl k.0)
  run_seq-OnCourse cal_move90 w b e k p =
      when_moved-OnCourse first_delay _ b p (settle-OnCourse w 9000 cal_settle90 b refl k)
  run_seq-OnCourse cal_settle90 w b e k p =
      when_settled-OnCourse first_delay w _ b p
        (cal_step-OnCourse first_delay w 18000 _ cal_move180 b refl refl k.0)
  run_seq-OnCourse cal_move180 w b e k p =
      when_moved-OnCourse first_delay _ b p (settle-OnCourse w 18000 cal_settle180 b refl k)
  run_seq-OnCourse cal_settle180 w b e k p =
      when_settled-OnCourse first_delay w _ b p
        (cal_step-OnCourse first_delay w 0 _ cal_moveback b refl (plus_nothing b.rot.cal_start) k.0)
  run_seq-OnCourse cal_moveback w b e k p =
      when_moved-OnCourse first_delay _ b p (λ off done. cal_end-OnCourse w b)

  seq_update-OnCourse :
      (w : Nearby) (b : Turntable) → OnCourse b.rot → OnCourse (seq_update first_delay w b).rot
  unfolding seq_update
  seq_update-OnCourse w b p = run_seq-OnCourse b.rot.seq w b refl p.keeps p

  boot-OnCourse :
      (w : Nearby) (b : Turntable) → OnCourse b.rot → OnCourse (boot_home_when_due w b).rot
  unfolding boot_home_when_due
  boot-OnCourse w b p =
      let b' : Turntable = record b { rot = record (b.rot) { boot_pending = false } } in
      either-OnCourse (b.rot.boot_pending && leb 3000 (sub32 w.now_ms b.rot.boot_ms))
        (rotator_imu_home w b').0 b
        (homes-OnCourse w b'
          (record { keeps = flagged (course b.rot.seq) b.rot.save_pending false b.rot p.keeps }))
        p

  save-OnCourse :
      (w : Nearby) (b : Turntable) → OnCourse b.rot → OnCourse (rot_save_when_due w b).rot
  unfolding rot_save_when_due
  save-OnCourse w b p =
      either-OnCourse
        (b.rot.save_pending
          && not (rotator_busy b)
          && leb 2000 (sub32 w.now_ms b.rot.idle_since_ms))
        _ b (record { keeps = flagged (course b.rot.seq) false b.rot.boot_pending b.rot p.keeps }) p

  pub update-OnCourse :
      (w : Nearby) (b : Turntable) → OnCourse b.rot → OnCourse (rotator_update first_delay w b).rot
  unfolding rotator_update
  update-OnCourse w b p =
      save-OnCourse w _ (boot-OnCourse w _ (seq_update-OnCourse w _ (check-OnCourse w.now_ms b p)))
