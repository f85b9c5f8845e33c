-- ===== src/Axis/Moving.antt =====
-- The invariant of a running move (fw/src/axis.cpp) and what one interrupt does to it.
use astro_uni_board.Base.{
  ℕ, suc, ◌+◌, ◌-◌, ◌≤◌, ◌<◌, ◌≡◌, refl, ◌∙◌, ◌⊎◌, inl, inr, true, false, arith, Option-cases,
}
use astro_uni_board.Base.Int.{ℤ, pos, negsuc, pos_part, neg_part, ◌+ℤ◌}
use astro_uni_board.Base.Word.{word}
use astro_uni_board.Axis.{
  Axis, idle, motion_busy, is_halting, count_step, after_step, isr_step, isr_run,
}
use astro_uni_board.Axis.Delays.{next_ramp}
use astro_uni_board.Axis.RampLaws.{
  IsSound, EndsAtTarget, next_ramp-IsSound, next_ramp-none, next_ramp-EndsAtTarget,
}

-- `b` lies `n` above `a`.
abbrev pub Above : ℤ → ℤ → ℕ → Type 0
Above a b n = pos_part b + neg_part a ≡ pos_part a + neg_part b + n

-- `n` steps in the direction lead from `p` to `goal`.
abbrev pub Toward : ℤ → ℤ → ℤ → ℕ → Type 0
Toward dir p goal n = ((dir ≡ pos 1) × Above p goal n) ⊎ ((dir ≡ negsuc 0) × Above goal p n)

-- A move under way: the lead steps and then the counted steps that are left end at the target.
pub record IsMoving (a : Axis) : Type 0 where
  pub is_busy : motion_busy a.motion ≡ true
  pub toward : Toward a.dir_step a.position a.target (a.remain - a.lead)
  pub lead_le : a.lead ≤ a.remain
  pub left : 0 < a.remain
  pub fits : a.total < word
  pub sound : IsSound a.ramp a.remain a.total

-- No halt was asked for.
pub record IsStraight (a : Axis) : Type 0 where
  pub no_halt : a.halt_req ≡ false
  pub not_halting : is_halting a.motion ≡ false
  pub ends : EndsAtTarget a.ramp a.remain

-- The axis made its last step and reports it once.
pub record HasStopped (a : Axis) : Type 0 where
  pub is_idle : a.motion ≡ idle
  pub flagged : a.stopped_flag ≡ true
  pub none_left : a.remain ≡ 0
  pub no_request : a.halt_req ≡ false

-- What `count_step` leaves, with `r` steps to go.
pub record Counted (a b : Axis) (r : ℕ) : Type 0 where
  pub remain_eq : b.remain ≡ r
  pub toward : Toward b.dir_step b.position b.target (r - b.lead)
  pub lead_le : b.lead ≤ r
  pub sound : IsSound b.ramp (suc r) b.total
  pub fits : b.total < word
  pub same_ramp : b.ramp ≡ a.ramp
  pub same_motion : b.motion ≡ a.motion
  pub same_halt : b.halt_req ≡ a.halt_req
  pub same_target : b.target ≡ a.target
  pub same_dir : b.dir_step ≡ a.dir_step
  pub one_less : r - b.lead ≤ a.remain - a.lead
  pub same_settle : b.settle ≡ a.settle

pub count_step-Counted :
    (a : Axis) (r : ℕ) → IsMoving a → a.remain ≡ suc r → Counted a (count_step a) r
unfolding count_step ◌+ℤ◌
count_step-Counted a r v e = ground (arith, v.sound.used)

pub record Continues (a b : Axis) (r : ℕ) : Type 0 where
  pub moving : IsMoving b
  pub steps_left : b.remain ≡ r
  pub settled : b.settle ≡ false
  pub goal : b.target ≡ a.target

after_step-IsStraight :
    (a c : Axis) (r : ℕ)
    → Counted a c (suc r)
    → motion_busy a.motion ≡ true
    → IsStraight a
    → a.settle ≡ false
    → a.remain ≡ suc (suc r)
    → Continues a (after_step c).0 (suc r) × IsStraight (after_step c).0
unfolding after_step
after_step-IsStraight a c r k b w quiet e =
    elim (Option-cases (next_ramp c.halt_req c.remain c.min_delay c.ramp)) [
      | inl stops ↦
          absurd (ground (arith, next_ramp-none c.halt_req c.remain c.min_delay c.total c.ramp))
      | inr (s, goes) ↦ ground (
        arith,
        next_ramp-IsSound c.halt_req c.remain c.min_delay c.total c.ramp s,
        next_ramp-EndsAtTarget c.remain c.min_delay c.total c.ramp s,
      )
    ]

pub isr_step-active : (a : Axis) → a.settle ≡ false → isr_step a ≡ after_step (count_step a)
unfolding isr_step
isr_step-active a quiet = simp quiet

-- With more than one step to go an unhalted move goes on, one step further.
pub isr_step-IsStraight :
    (a : Axis) (r : ℕ)
    → IsMoving a
    → IsStraight a
    → a.settle ≡ false
    → a.remain ≡ suc (suc r)
    → Continues a (isr_step a).0 (suc r) × IsStraight (isr_step a).0
isr_step-IsStraight a r v w quiet e = rw (isr_step-active a quiet) (
    after_step-IsStraight a (count_step a) r (count_step-Counted a (suc r) v e) v.is_busy w quiet e)

-- The last step of an unhalted move ends at the target, the lead steps run off.
pub isr_step-last :
    (a : Axis)
    → IsMoving a
    → a.settle ≡ false
    → a.remain ≡ 1
    → HasStopped (isr_step a).0 × ((isr_step a).0.position ≡ a.target) × ((isr_step a).0.lead ≡ 0)
unfolding after_step
isr_step-last a v quiet e =
    rw (isr_step-active a quiet) (ground (arith, count_step-Counted a 0 v e))

pub isr_run-suc :
    (n : ℕ) (a : Axis) → motion_busy a.motion ≡ true → isr_run (suc n) a ≡ isr_run n (isr_step a).0
unfolding isr_run
isr_run-suc n a b = simp b

pub isr_run-idle : (n : ℕ) (a : Axis) → a.motion ≡ idle → isr_run n a ≡ a
unfolding isr_run
isr_run-idle ℕ.zero a b = refl
isr_run-idle (suc n) a b = simp b

-- An unhalted move makes exactly the steps that are left, is busy before the last one, and then
-- stands at its target with no lead step left.
pub run_straight :
    (r : ℕ) (a : Axis)
    → IsMoving a
    → IsStraight a
    → a.settle ≡ false
    → a.remain ≡ suc r
    → HasStopped (isr_run (suc r) a)
      × ((isr_run (suc r) a).position ≡ a.target)
      × ((isr_run (suc r) a).lead ≡ 0)
run_straight ℕ.zero a v w quiet e =
    let last = isr_step-last a v quiet e in
    rw (isr_run-suc 0 a v.is_busy, isr_run-idle 0 (isr_step a).0 last.0.is_idle) last
run_straight (suc r) a v w quiet e =
    let (goes, straight) = isr_step-IsStraight a r v w quiet e in
    let end = run_straight r (isr_step a).0 goes.moving straight goes.settled goes.steps_left in
    rw (isr_run-suc (suc r) a v.is_busy) (end.0, end.1 ∙ goes.goal, end.2)

pub run_busy :
    (k r : ℕ) (a : Axis)
    → IsMoving a
    → IsStraight a
    → a.settle ≡ false
    → a.remain ≡ suc r
    → k ≤ r
    → motion_busy (isr_run k a).motion ≡ true
unfolding isr_run
run_busy ℕ.zero r a v w quiet e h = v.is_busy
run_busy (suc k) ℕ.zero a v w quiet e h = absurd (omega arith)
run_busy (suc k) (suc r) a v w quiet e h =
    let (goes, straight) = isr_step-IsStraight a r v w quiet e in
    rw (isr_run-suc k a v.is_busy)
      (run_busy k r (isr_step a).0 goes.moving straight goes.settled goes.steps_left (omega arith))
