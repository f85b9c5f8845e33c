-- ===== src/Rotator/Course.antt =====
-- Where the rotator stands during an IMU calibration (`:95` of fw/src/rotator.cpp).
pub mod Passes
pub mod Commands
pub mod Ends
use astro_uni_board.Base.{
  ℕ, ◌+◌, ◌*◌, ◌≡◌, ◌≢◌, refl, sym, ap, subst, ◌∙◌, Bool, true, false, not, ◌&&◌, ◌||◌, Option,
  none, some, leb, ◌==◌, arith, if◌then◌else◌, Bool-cases, Option-cases, inl, inr,
}
use astro_uni_board.Base.Int.{ℤ, pos, ◌+ℤ◌, eqb_ℤ, eq_of_parts, int_laws}
use astro_uni_board.Calc.{plan_home, plan_correction, cdeg_to_steps, steps_to_cdeg}
use astro_uni_board.Errors.{FwError, is_ok}
use astro_uni_board.Axis
use astro_uni_board.Axis.{Axis}
use astro_uni_board.Rotator.{
  Turntable, Nearby, Rotator, spk, Seq, seq_none, home_settle, home_move, cal_settle0, cal_move90,
  cal_settle90, cal_move180, cal_settle180, cal_moveback, rotator_busy, any_busy, start_move, turn,
  arrive_at_once, end_move, check_move_end, rotator_halt, rotator_sync, rotator_move_to,
  rotator_move_by, rot_save_when_due,
}
use astro_uni_board.Rotator.Sequences.{
  abort_seq, gives_up, when_settled, begin_settle, set_zero_here, home_to, first_home, next_home,
  home_step, cal_step, cal_end, when_moved, run_seq, seq_update, rotator_imu_home,
  rotator_imu_calibrate, boot_home_when_due, rotator_update,
}

-- What a state of the sequence asks for: to wait at, or to turn to, an angle counted from the start.
pub data Course : Type 0 where
  anywhere : Course
  waits_at turns_to : ℕ → Course

abbrev pub course : Seq → Course
course cal_settle0 = waits_at 0
course cal_move90 = turns_to 9000
course cal_settle90 = waits_at 9000
course cal_move180 = turns_to 18000
course cal_settle180 = waits_at 18000
course cal_moveback = turns_to 0
course _ = anywhere

abbrev pub Keeps : Course → Rotator → Type 0
Keeps anywhere r = Unit {0}
Keeps (waits_at n) r = (r.moving ≡ false) × (r.angle_idle ≡ r.cal_start +ℤ pos n)
Keeps (turns_to n) r =
    (r.moving ≡ true → r.move_target ≡ r.cal_start +ℤ pos n)
    × (r.moving ≡ false → r.last_complete ≡ true → r.angle_idle ≡ r.cal_start +ℤ pos n)

pub record OnCourse (r : Rotator) : Type 0 where
  pub keeps : Keeps (course r.seq) r

pub free-OnCourse : (r : Rotator) → course r.seq ≡ anywhere → OnCourse r
free-OnCourse r e = record { keeps = subst (λ c. Keeps c r) (sym e) tt }

pub none-OnCourse : (r : Rotator) → r.seq ≡ seq_none → OnCourse r
none-OnCourse r e = free-OnCourse r (ap course e)

-- An operation that leaves a busy rotator alone, and starts no sequence.
pub refusing-OnCourse :
    (b c : Turntable)
    → (rotator_busy b ≡ true → c ≡ b)
    → (rotator_busy b ≡ false → c.rot.seq ≡ seq_none)
    → OnCourse b.rot
    → OnCourse c.rot
refusing-OnCourse b c same quiet p = elim (Bool-cases (rotator_busy b)) [
  | inl on ↦ subst (λ t. OnCourse t.rot) (sym (same on)) p
  | inr off ↦ none-OnCourse c.rot (quiet off)
]

pub given-OnCourse :
    (t : Bool) (b c : Turntable)
    → (t ≡ true → OnCourse b.rot)
    → (t ≡ false → OnCourse c.rot)
    → OnCourse (if t then b else c).rot
given-OnCourse true b c p q = p refl
given-OnCourse false b c p q = q refl

pub either-OnCourse :
    (t : Bool) (b c : Turntable)
    → OnCourse b.rot
    → OnCourse c.rot
    → OnCourse (if t then b else c).rot
either-OnCourse true b c p q = p
either-OnCourse false b c p q = q

pub turning :
    (n : ℕ) (next : Seq) (r : Rotator)
    → course next ≡ turns_to n
    → r.seq ≡ next
    → Keeps (turns_to n) r
    → OnCourse r
turning n next r e q k = record { keeps = subst (λ c. Keeps c r) (sym (ap course q ∙ e)) k }

pub waiting :
    (n : ℕ) (next : Seq) (r : Rotator)
    → course next ≡ waits_at n
    → r.seq ≡ next
    → Keeps (waits_at n) r
    → OnCourse r
waiting n next r e q k = record { keeps = subst (λ c. Keeps c r) (sym (ap course q ∙ e)) k }

ended :
    (c : Course) (now : ℕ) (b : Turntable)
    → b.rot.moving ≡ true
    → Keeps c b.rot
    → Keeps c (end_move now b).rot
unfolding end_move
ended anywhere now b m k = tt
ended (waits_at n) now b m k = absurd (ground (arith, m, k.0))
ended (turns_to n) now b m k =
    let complete = eqb_ℤ b.axis.position (cdeg_to_steps b.rot.move_target (spk b)) in
    let idle : Bool → ℤ =
      λ t. if t then b.rot.move_target else steps_to_cdeg b.axis.position (spk b) in
    ((λ e. absurd (ground (arith, e))), (λ off done. ap idle done ∙ k.0 m))

pub check-OnCourse :
    (now : ℕ) (b : Turntable) → OnCourse b.rot → OnCourse (check_move_end now b).rot
unfolding check_move_end end_move
check-OnCourse now b p = elim (Bool-cases b.rot.moving) [
  | inl m ↦
      either-OnCourse (not b.rot.moving || Axis.busy b.axis) b (end_move now b) p
        (record { keeps = ended (course b.rot.seq) now b m p.keeps })
  | inr m ↦
      let t : (not b.rot.moving || Axis.busy b.axis) ≡ true = ground (arith, m) in
      subst (λ x. OnCourse (if x then b else end_move now b).rot) (sym t) p
]

pub abort-OnCourse : (e : FwError) (b : Turntable) → OnCourse (abort_seq e b).rot
unfolding abort_seq
abort-OnCourse e b = none-OnCourse _ (ground arith)

module _ (first_delay : ℕ → ℕ) where
  pub start_move-seq :
      (w : Nearby) (goal : ℤ) (b : Turntable)
      → (start_move first_delay w goal b).0.rot.seq ≡ b.rot.seq
  unfolding start_move turn arrive_at_once
  start_move-seq w goal b = ground arith

  pub start_move-cal :
      (w : Nearby) (goal : ℤ) (b : Turntable)
      → (start_move first_delay w goal b).0.rot.cal_start ≡ b.rot.cal_start
  unfolding start_move turn arrive_at_once
  start_move-cal w goal b = ground arith

  -- A move that starts is under way, or it is over at once.
  start_move-goal :
      (w : Nearby) (goal : ℤ) (b : Turntable)
      → b.rot.moving ≡ false
      → let (c, e) = start_move first_delay w goal b in
        is_ok e ≡ true
        → (c.rot.moving ≡ true → c.rot.move_target ≡ goal)
          × (c.rot.moving ≡ false → c.rot.angle_idle ≡ goal)
  unfolding start_move turn arrive_at_once
  start_move-goal w goal b still h =
      (λ on. ground (arith, still, h, on), λ off. ground (arith, still, h, off))

  pub cal_step-OnCourse :
      (w : Nearby) (n : ℕ) (target : ℤ) (next : Seq) (b : Turntable)
      → course next ≡ turns_to n
      → target ≡ b.rot.cal_start +ℤ pos n
      → b.rot.moving ≡ false
      → OnCourse (cal_step first_delay w target next b).rot
  unfolding cal_step
  cal_step-OnCourse w n target next b e t still =
      let (c, err) = start_move first_delay w target b in
      given-OnCourse (not w.captured) _ _ (λ f. abort-OnCourse _ b)
        (λ f.
          given-OnCourse (is_ok err) _ _
            (λ g.
              let k = start_move-goal w target b still g in
              let from = ap (λ z. z +ℤ pos n) (sym (start_move-cal w target b)) in
              turning n next (record (c.rot) { seq = next }) e refl
                ((λ on. k.0 on ∙ t ∙ from), (λ off done. k.1 off ∙ t ∙ from)))
            (λ g. abort-OnCourse _ c))

  pub when_settled-OnCourse :
      (w : Nearby) (next : Turntable → Turntable) (b : Turntable)
      → OnCourse b.rot
      → OnCourse (next b).rot
      → OnCourse (when_settled w next b).rot
  unfolding when_settled
  when_settled-OnCourse w next b p q =
      either-OnCourse (gives_up w b) _ _ (abort-OnCourse _ b)
        (either-OnCourse w.imu_settled (next b) b q p)

  pub when_moved-OnCourse :
      (next : Turntable → Turntable) (b : Turntable)
      → OnCourse b.rot
      → (b.rot.moving ≡ false → b.rot.last_complete ≡ true → OnCourse (next b).rot)
      → OnCourse (when_moved first_delay next b).rot
  unfolding when_moved
  when_moved-OnCourse next b p q =
      given-OnCourse b.rot.moving b _ (λ on. p)
        (λ off.
          given-OnCourse (not b.rot.last_complete) _ _ (λ cut. abort-OnCourse _ b)
            (λ done. q off (ground (arith, done))))
