-- ===== src/Rotator/Range/Passes.antt =====
-- The passes of a home and of a calibration, and the cable-wrap range (fw/src/rotator.cpp).
use astro_uni_board.Base.{
  ℕ, ◌≤◌, ◌≡◌, sym, subst, not, ◌&&◌, leb, ◌==◌, Option-cases, inl, inr, arith, if◌then◌else◌,
}
use astro_uni_board.Base.Int.{ℤ, pos, ◌+ℤ◌, ◌-ℤ◌, ◌≤ℤ◌, eqb_ℤ, int_laws}
use astro_uni_board.Base.Word.{sub32}
use astro_uni_board.Errors.{is_ok, home_timeout}
use astro_uni_board.Settings.{RotatorSettings}
use astro_uni_board.Calc.{plan_home, plan_correction}
use astro_uni_board.Calc.Home.{plan_home-InRange}
use astro_uni_board.Rotator.{
  Turntable, Nearby, Seq, seq_none, home_settle, home_move, cal_settle0, cal_move90, cal_settle90,
  cal_move180, cal_settle180, cal_moveback, rotator_busy, start_move, rot_save_when_due,
}
use astro_uni_board.Rotator.Sequences.{
  near_zero, abort_seq, gives_up, when_settled, begin_settle, set_zero_here, home_to, first_home,
  next_home, home_step, cal_step, cal_end, when_moved, run_seq,
}
use astro_uni_board.Rotator.Fixed.{start-Fixed}
use astro_uni_board.Rotator.Course.{course, start_move-cal}
use astro_uni_board.Rotator.Range.{
  Allowed, Room, Inside, ended-Inside, choose, abort-Inside, start_move-Inside,
}

correction-Allowed :
    (s : RotatorSettings) (angle roll start : ℤ)
    → s.wrap_min ≤ℤ s.wrap_max
    → Allowed s start (plan_correction angle roll s.wrap_min s.wrap_max)
unfolding plan_correction
correction-Allowed s angle roll start o = (ground (arith, o), inl (ground (arith, o)))

-- The targets of a calibration.
quarter-Allowed :
    (s : RotatorSettings) (start : ℤ) (n : ℕ)
    → n ≤ 18000
    → start +ℤ pos 18000 ≤ℤ s.wrap_max
    → Allowed s start (start +ℤ pos n)
quarter-Allowed s start n h room = (omega int_laws, inr (omega int_laws))

back-Allowed :
    (s : RotatorSettings) (start : ℤ) → start +ℤ pos 18000 ≤ℤ s.wrap_max → Allowed s start start
back-Allowed s start room = (omega int_laws, inr (omega arith))

pub saved-Inside : (w : Nearby) (b : Turntable) → Inside b → Inside (rot_save_when_due w b)
unfolding rot_save_when_due
saved-Inside w b p =
    choose
      (b.rot.save_pending && not (rotator_busy b) && leb 2000 (sub32 w.now_ms b.rot.idle_since_ms))
      (record {
        inside = record {
          ordered = p.inside.ordered;
          going = p.inside.going;
          room = p.inside.room;
        };
      })
      p

settles :
    (w : Nearby) (next : Seq) (b : Turntable)
    → Room (course next) b.rot.cal_start b.settings.rot.wrap_max
    → Inside b
    → Inside (begin_settle w next b)
unfolding begin_settle
settles w next b r p = record {
  inside = record { ordered = p.inside.ordered; going = p.inside.going; room = r };
}

settled :
    (w : Nearby) (next : Turntable → Turntable) (b : Turntable)
    → Inside b
    → Inside (next b)
    → Inside (when_settled w next b)
unfolding when_settled
settled w next b p q = choose (gives_up w b) (abort-Inside _ b p) (choose w.imu_settled q p)

zeroed :
    (now : ℕ) (b : Turntable)
    → Inside b
    → Inside (set_zero_here now (record b { rot = record (b.rot) { seq = seq_none } }))
unfolding set_zero_here
zeroed now b p = record {
  inside = record { ordered = p.inside.ordered; going = p.inside.going; room = tt };
}

ends-Inside :
    (first_delay : ℕ → ℕ) (w : Nearby) (b : Turntable) → Inside b → Inside (cal_end first_delay w b)
unfolding cal_end set_zero_here
ends-Inside first_delay w b p =
    ended-Inside b (cal_end first_delay w b)
      (record {
        low = ground arith;
        high = ground arith;
        moves = ground arith;
        target = ground arith;
        start = ground arith;
      })
      (ground arith) p

module _ (first_delay : ℕ → ℕ) where
  moved :
      (next : Turntable → Turntable) (b : Turntable)
      → Inside b
      → Inside (next b)
      → Inside (when_moved first_delay next b)
  unfolding when_moved
  moved next b p q = choose b.rot.moving p (choose (not b.rot.last_complete) (abort-Inside _ b p) q)

  homes_to :
      (w : Nearby) (t : ℤ) (b : Turntable)
      → Allowed b.settings.rot b.rot.cal_start t
      → Inside b
      → Inside (home_to first_delay w t b)
  unfolding home_to
  homes_to w t b a p =
      let (c, e) = start_move first_delay w t b in
      let q = (start_move-Inside first_delay w t b a p).answered in
      choose (is_ok e)
        (record {
          inside = record { ordered = q.inside.ordered; going = q.inside.going; room = tt };
        })
        (abort-Inside home_timeout c q)

  first_home-Inside :
      (w : Nearby) (roll : ℤ) (b : Turntable) → Inside b → Inside (first_home first_delay w roll b)
  unfolding first_home
  first_home-Inside w roll b p =
      let r = b.settings.rot in
      elim (Option-cases (plan_home b.rot.angle_idle roll r.wrap_min r.wrap_max)) [
        | inl e ↦
            let stops : first_home first_delay w roll b ≡ abort_seq home_timeout b =
              ground (arith, e) in
            subst Inside (sym stops) (abort-Inside home_timeout b p)
        | inr (t, e) ↦
            let f = plan_home-InRange b.rot.angle_idle roll r.wrap_min r.wrap_max t e in
            let goes : first_home first_delay w roll b ≡ (
                if near_zero r.home_tol_cdeg (t -ℤ b.rot.angle_idle)
                then set_zero_here w.now_ms (record b { rot = record (b.rot) { seq = seq_none } })
                else home_to first_delay w t b) =
              ground (arith, e) in
            subst Inside (sym goes) (
              choose (near_zero r.home_tol_cdeg (t -ℤ b.rot.angle_idle)) (zeroed w.now_ms b p)
                (homes_to w t b (f.1, inl f.0) p))
      ]

  next_home-Inside :
      (w : Nearby) (roll : ℤ) (b : Turntable) → Inside b → Inside (next_home first_delay w roll b)
  unfolding next_home
  next_home-Inside w roll b p =
      let r = b.settings.rot in
      let t = plan_correction b.rot.angle_idle roll r.wrap_min r.wrap_max in
      choose (near_zero r.home_tol_cdeg roll) (zeroed w.now_ms b p) (
        choose (leb 3 b.rot.home_moves) (abort-Inside home_timeout b p) (
          choose (eqb_ℤ t b.rot.angle_idle) (abort-Inside home_timeout b p) (
            homes_to w t b
              (correction-Allowed r b.rot.angle_idle roll b.rot.cal_start p.inside.ordered) p)))

  home_step-Inside : (w : Nearby) (b : Turntable) → Inside b → Inside (home_step first_delay w b)
  unfolding home_step
  home_step-Inside w b p = elim (Option-cases (w.imu_roll)) [
    | inl e ↦
        let stops : home_step first_delay w b ≡ abort_seq home_timeout b = ground (arith, e) in
        subst Inside (sym stops) (abort-Inside home_timeout b p)
    | inr (roll, e) ↦
        let goes : home_step first_delay w b ≡ (
            if b.rot.home_moves == 0
            then first_home first_delay w roll b
            else next_home first_delay w roll b) =
          ground (arith, e) in
        subst Inside (sym goes) (
          choose (b.rot.home_moves == 0) (first_home-Inside w roll b p)
            (next_home-Inside w roll b p))
  ]

  steps-Inside :
      (w : Nearby) (t : ℤ) (next : Seq) (b : Turntable)
      → Allowed b.settings.rot b.rot.cal_start t
      → Room (course next) b.rot.cal_start b.settings.rot.wrap_max
      → Inside b
      → Inside (cal_step first_delay w t next b)
  unfolding cal_step
  steps-Inside w t next b a room p =
      let (c, e) = start_move first_delay w t b in
      let q = (start_move-Inside first_delay w t b a p).answered in
      let same = (start-Fixed first_delay w t b).fixed in
      choose (not w.captured) (abort-Inside _ b p) (
        choose (is_ok e)
          (record {
            inside = record {
              ordered = q.inside.ordered;
              going = q.inside.going;
              room = rw (start_move-cal first_delay w t b, same) room;
            };
          })
          (abort-Inside _ c q))

  pub ran-Inside :
      (s : Seq) (w : Nearby) (b : Turntable)
      → Room (course s) b.rot.cal_start b.settings.rot.wrap_max
      → Inside b
      → Inside (run_seq first_delay s w b)
  ran-Inside seq_none w b r p = p
  ran-Inside home_settle w b r p = settled w _ b p (home_step-Inside w b p)
  ran-Inside home_move w b r p = moved _ b p (settles w home_settle b tt p)
  ran-Inside cal_settle0 w b r p = settled w _ b p (
      steps-Inside w _ cal_move90 b
        (quarter-Allowed b.settings.rot b.rot.cal_start 9000 (omega arith) r) r p)
  ran-Inside cal_move90 w b r p = moved _ b p (settles w cal_settle90 b r p)
  ran-Inside cal_settle90 w b r p = settled w _ b p (
      steps-Inside w _ cal_move180 b
        (quarter-Allowed b.settings.rot b.rot.cal_start 18000 (omega arith) r) r p)
  ran-Inside cal_move180 w b r p = moved _ b p (settles w cal_settle180 b r p)
  ran-Inside cal_settle180 w b r p =
      settled w _ b p
        (steps-Inside w _ cal_moveback b (back-Allowed b.settings.rot b.rot.cal_start r) r p)
  ran-Inside cal_moveback w b r p = moved _ b p (ends-Inside first_delay w b p)
