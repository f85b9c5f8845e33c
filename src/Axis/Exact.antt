-- ===== src/Axis/Exact.antt =====
-- A move that is not halted ends exactly at its target (fw/src/axis.cpp).
use astro_uni_board.Base.{
  ℕ, suc, ◌+◌, ◌-◌, ◌<◌, ◌≡◌, refl, ◌∙◌, inl, inr, Bool, true, false, not, arith, Bool-cases,
}
use astro_uni_board.Base.Int.{ℤ, magnitude, magnitude-parts, ◌-ℤ◌, -ℤ_parts}
use astro_uni_board.Base.Word.{word}
use astro_uni_board.Axis.{Axis, TimerView, motion_busy, prepared, move_to, isr_step, isr_run}
use astro_uni_board.Axis.Moving.{
  IsMoving, IsStraight, HasStopped, isr_run-suc, run_straight, run_busy,
}

-- The steps of a move: the distance and the lead steps.
abbrev pub move_length : Axis → ℤ → ℕ → ℕ
move_length a goal lead_steps = magnitude (goal -ℤ a.position) + lead_steps

-- One interrupt more where the driver has to be enabled first.
abbrev pub settle_count : Bool → ℕ
settle_count true = 1
settle_count false = 0

-- The timer is free for this axis.
pub record IsFree (a : Axis) (t : TimerView) : Type 0 where
  pub none_busy : t.any_busy ≡ false
  pub stopped : t.running ≡ false
  pub ready : a.begun ≡ true
  pub can_start : t.starts ≡ true

module _ (first_delay : ℕ → ℕ) where
  pub prepared-IsMoving :
      (a : Axis) (t : TimerView) (goal : ℤ) (lead_steps : ℕ)
      → 0 < move_length a goal lead_steps
      → move_length a goal lead_steps < word
      → IsMoving (prepared first_delay a t goal lead_steps)
        × IsStraight (prepared first_delay a t goal lead_steps)
  unfolding prepared
  prepared-IsMoving a t goal lead_steps some_steps fits =
      ground (arith, magnitude-parts (goal -ℤ a.position), -ℤ_parts goal a.position)

  pub move_to-prepared :
      (a : Axis) (t : TimerView) (goal : ℤ) (lead_steps : ℕ)
      → IsFree a t
      → 0 < move_length a goal lead_steps
      → move_to first_delay a t goal lead_steps ≡ (prepared first_delay a t goal lead_steps, true)
  unfolding move_to
  move_to-prepared a t goal lead_steps free some_steps = ground arith

-- The first interrupt only waits where the driver was just enabled.
record Settled (a b : Axis) : Type 0 where
  moving : IsMoving b
  straight : IsStraight b
  quiet : b.settle ≡ false
  steps : b.remain ≡ a.remain
  goal : b.target ≡ a.target

settle_first : (a : Axis) → IsMoving a → IsStraight a → a.settle ≡ true → Settled a (isr_step a).0
unfolding isr_step
settle_first a v w e = ground arith

-- What a run of interrupts has to show for the move of `a`.
pub record Arrives (a : Axis) (n : ℕ) : Type 0 where
  pub stopped : HasStopped (isr_run n a)
  pub at_target : (isr_run n a).position ≡ a.target
  pub lead_done : (isr_run n a).lead ≡ 0
  pub busy_before : (k : ℕ) → k < n → motion_busy (isr_run k a).motion ≡ true

Arrives-settled :
    (r : ℕ) (a : Axis)
    → IsMoving a
    → IsStraight a
    → a.settle ≡ false
    → a.remain ≡ suc r
    → Arrives a (suc r)
Arrives-settled r a v w quiet e =
    let end = run_straight r a v w quiet e in
    record {
      stopped = end.0;
      at_target = end.1;
      lead_done = end.2;
      busy_before = λ k h. run_busy k r a v w quiet e (omega arith);
    }

Arrives-settling :
    (r : ℕ) (a : Axis)
    → IsMoving a
    → IsStraight a
    → a.settle ≡ true
    → a.remain ≡ suc r
    → Arrives a (suc (suc r))
Arrives-settling r a v w e n = record {
  stopped = rw (isr_run-suc (suc r) a v.is_busy) rest.stopped;
  at_target = rw (isr_run-suc (suc r) a v.is_busy) (rest.at_target ∙ first.goal);
  lead_done = rw (isr_run-suc (suc r) a v.is_busy) rest.lead_done;
  busy_before = waiting;
}
  where
    first : Settled a (isr_step a).0
    first = settle_first a v w e

    rest : Arrives (isr_step a).0 (suc r)
    rest =
        Arrives-settled r (isr_step a).0 first.moving first.straight first.quiet (first.steps ∙ n)

    waiting : (k : ℕ) → k < suc (suc r) → motion_busy (isr_run k a).motion ≡ true
    waiting ℕ.zero h = unfold isr_run in v.is_busy
    waiting (suc k) h = rw (isr_run-suc k a v.is_busy) (rest.busy_before k (omega arith))

arrives :
    (a : Axis)
    → IsMoving a
    → IsStraight a
    → (n : ℕ) (r : ℕ) → a.remain ≡ suc r
    → n ≡ settle_count a.settle + suc r
    → Arrives a n
arrives a v w n r e h = elim (Bool-cases a.settle) [
  | inl on ↦ let count : n ≡ suc (suc r) = ground arith in rw count (Arrives-settling r a v w on e)
  | inr off ↦ let count : n ≡ suc r = ground arith in rw count (Arrives-settled r a v w off e)
]

module _ (first_delay : ℕ → ℕ) where
  -- A move that the axis accepts makes exactly the distance and the lead steps, one for each
  -- interrupt after the wait for the driver; it is busy until the last one and then stands at the
  -- requested target, with no lead step left, and reports that it stopped.
  pub move_to-Arrives :
      (a : Axis) (t : TimerView) (goal : ℤ) (lead_steps : ℕ)
      → IsFree a t
      → 0 < move_length a goal lead_steps
      → move_length a goal lead_steps < word
      → let b = (move_to first_delay a t goal lead_steps).0 in
        let n = settle_count (not a.enabled) + move_length a goal lead_steps in
        ((move_to first_delay a t goal lead_steps).1 ≡ true) × (b.target ≡ goal) × Arrives b n
  move_to-Arrives a t goal lead_steps free some_steps fits =
      let (v, w) = prepared-IsMoving first_delay a t goal lead_steps some_steps fits in
      rw (move_to-prepared first_delay a t goal lead_steps free some_steps) (
        refl,
        unfold prepared in refl,
        arrives (prepared first_delay a t goal lead_steps) v w _ (move_length a goal lead_steps - 1)
            (unfold prepared in omega arith) (unfold prepared in omega arith),
      )
