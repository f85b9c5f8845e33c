-- ===== src/Axis/Halt.antt =====
-- A halt ends the move within the steps that the ramp up took, and short of the target or at it
-- (fw/src/axis.cpp).
use astro_uni_board.Base.{
  if◌then◌else◌, sym, subst, ℕ, suc, ◌+◌, ◌-◌, ◌≤◌, ◌<◌, ◌≡◌, ◌≢◌, ◌⊎◌, inl, inr, Bool, true, false,
  some, arith, ◌==◌, Bool-cases, Option-cases,
}
use astro_uni_board.Base.Int.{ℤ}
use astro_uni_board.Base.Word.{word}
use astro_uni_board.Axis.{Axis, halt, after_step, count_step, isr_step, isr_run}
use astro_uni_board.Axis.Delays.{ph_accel, ph_run, ph_decel, Ramp, next_ramp}
use astro_uni_board.Axis.RampLaws.{IsSound, next_ramp-IsSound}
use astro_uni_board.Axis.Moving.{
  IsMoving, IsStraight, HasStopped, Toward, Counted, count_step-Counted, isr_step-active,
  isr_run-suc, isr_run-idle,
}

-- The position is where `a` stood, or at the target, or between.
abbrev pub Between : Axis → ℤ → Type 0
Between a p = (k : ℕ) × (k ≤ a.remain - a.lead) × Toward a.dir_step p a.target k

-- How many steps the ramp still takes once a halt is pending.
abbrev pub steps_to_stop : Ramp → ℕ
steps_to_stop s = elim (s.phase) [
  | ph_accel ↦ s.ramp_n + 2
  | ph_run ↦ s.ramp_n + 1
  | ph_decel ↦ s.decel_left
]

abbrev IsStopping : Bool → Ramp → Type 0
IsStopping h s = (h ≡ true) ⊎ (s.phase ≡ ph_decel)

next_ramp-stopping :
    (h : Bool) (r m total : ℕ) (s s' : Ramp)
    → IsSound s (suc r) total
    → total < word
    → IsStopping h s
    → next_ramp h r m s ≡ some s'
    → (s'.phase ≡ ph_decel) × (suc s'.decel_left ≤ steps_to_stop s)
unfolding next_ramp
next_ramp-stopping h r m total s s' v fits (inl on) e = ground arith
next_ramp-stopping h r m total s s' v fits (inr slowing) e = ground arith

-- One interrupt of a move that is stopping: it is over, or it has a step less to make.
record Slows (a b : Axis) : Type 0 where
  moving : IsMoving b
  slowing : b.phase ≡ ph_decel
  fewer : suc b.decel_left ≤ steps_to_stop a.ramp
  quiet : b.settle ≡ false
  closer : b.remain - b.lead ≤ a.remain - a.lead
  same_dir : b.dir_step ≡ a.dir_step
  same_goal : b.target ≡ a.target

after_step-stopping :
    (a c : Axis) (r : ℕ)
    → Counted a c r
    → IsMoving a
    → a.settle ≡ false
    → IsStopping a.halt_req a.ramp
    → (HasStopped (after_step c).0 × Between a (after_step c).0.position) ⊎ Slows a (after_step c).0
unfolding after_step
after_step-stopping a c ℕ.zero k v quiet s =
    inl (ground arith, (0 - c.lead, k.one_less, ground arith))
after_step-stopping a c (suc r) k v quiet s =
    elim (Option-cases (next_ramp c.halt_req c.remain c.min_delay c.ramp)) [
      | inl stops ↦ inl (ground arith, (suc r - c.lead, k.one_less, ground arith))
      | inr (s', goes) ↦ inr (
          ground (
            arith,
            next_ramp-IsSound c.halt_req c.remain c.min_delay c.total c.ramp s',
            next_ramp-stopping c.halt_req c.remain c.min_delay c.total c.ramp s',
          ))
    ]

steps_to_stop_pos : (a : Axis) → IsMoving a → 0 < steps_to_stop a.ramp
steps_to_stop_pos a v = ground (arith, v.sound.decel_started)

steps_to_stop_slow : (s : Ramp) → s.phase ≡ ph_decel → steps_to_stop s ≡ s.decel_left
steps_to_stop_slow s e = ground arith

Between-trans : (a b : Axis) (p : ℤ) → Slows a b → Between b p → Between a p
Between-trans a b p w (k, h, t) =
    (k, omega (arith, w.closer), ground (arith, w.same_dir, w.same_goal))

isr_step-stopping :
    (a : Axis)
    → IsMoving a
    → IsStopping a.halt_req a.ramp
    → a.settle ≡ false
    → (HasStopped (isr_step a).0 × Between a (isr_step a).0.position) ⊎ Slows a (isr_step a).0
isr_step-stopping a v s quiet = rw (isr_step-active a quiet) (
    after_step-stopping a (count_step a) (a.remain - 1)
      (count_step-Counted a (a.remain - 1) v (omega arith)) v quiet s)

stopping_run :
    (m : ℕ) (a : Axis)
    → IsMoving a
    → IsStopping a.halt_req a.ramp
    → a.settle ≡ false
    → steps_to_stop a.ramp ≤ m
    → HasStopped (isr_run m a) × Between a (isr_run m a).position
stopping_run ℕ.zero a v s quiet h = absurd (omega (arith, steps_to_stop_pos a v))
stopping_run (suc m) a v s quiet h = elim (isr_step-stopping a v s quiet) [
  | inl (stopped, between) ↦
      rw (isr_run-suc m a v.is_busy, isr_run-idle m (isr_step a).0 stopped.is_idle)
        (stopped, between)
  | inr w ↦
      let b = (isr_step a).0 in
      let end =
        stopping_run m b w.moving (inr w.slowing) w.quiet
          (omega (arith, steps_to_stop_slow b.ramp w.slowing, w.fewer)) in
      rw (isr_run-suc m a v.is_busy) (end.0, Between-trans a b _ w end.1)
]

halted-IsMoving :
    (a : Axis)
    → IsMoving a
    → IsStraight a
    → a.remain ≢ a.total
    → IsMoving (halt a)
      × IsStopping (halt a).halt_req (halt a).ramp
      × ((halt a).settle ≡ a.settle)
      × (steps_to_stop (halt a).ramp ≡ steps_to_stop a.ramp)
unfolding halt
halted-IsMoving a v w started = (ground (arith, v.sound), ground arith, ground arith, ground arith)

steps_to_stop-le : (a : Axis) → IsMoving a → steps_to_stop a.ramp ≤ a.ramp_n + 2
steps_to_stop-le a v = ground (arith, v.sound.decel_started)

Between-halt : (a : Axis) (p : ℤ) → Between (halt a) p → a.remain ≢ a.total → Between a p
unfolding halt
Between-halt a p (k, h, t) started = (k, ground arith, ground arith)

halt_at_once :
    (a : Axis)
    → IsMoving a
    → IsStraight a
    → a.remain ≡ a.total
    → HasStopped (halt a) × Between a (halt a).position
unfolding halt
halt_at_once a v w e = (ground arith, (a.remain - a.lead, omega arith, ground arith))

-- The steps that a halt may take: none before the first step of the move, and after it two more than
-- it took to speed up.
abbrev pub steps_after_halt : Axis → ℕ
steps_after_halt a = if a.remain == a.total then 0 else a.ramp_n + 2

-- A halted move has stopped after `n` steps, at a position from where the axis was at the halt to the
-- target.
abbrev pub Halted : Axis → ℕ → Type 0
Halted a n = HasStopped (isr_run n (halt a)) × Between a (isr_run n (halt a)).position

-- A halted move has stopped after `steps_after_halt` steps at most: at once where it had made no step
-- yet. The position is then where the axis was at the halt, at the target, or between the two.
pub halt_stops :
    (a : Axis)
    → IsMoving a
    → IsStraight a
    → (a.settle ≡ true → a.remain ≡ a.total)
    → Halted a (steps_after_halt a)
unfolding isr_run
halt_stops a v w fresh = elim (Bool-cases (a.remain == a.total)) [
  | inl same ↦
      subst (λ t. Halted a (if t then 0 else a.ramp_n + 2)) (sym same)
        (halt_at_once a v w (ground arith))
  | inr started ↦
      let ne : a.remain ≢ a.total = ground arith in
      let (moving, stopping, same_settle, same_bound) = halted-IsMoving a v w ne in
      let quiet : (halt a).settle ≡ false = ground (arith, same_settle) in
      let end =
        stopping_run (a.ramp_n + 2) (halt a) moving stopping quiet
          (omega (arith, same_bound, steps_to_stop-le a v)) in
      subst (λ t. Halted a (if t then 0 else a.ramp_n + 2)) (sym started)
        (end.0, Between-halt a _ end.1 ne)
]
