-- ===== src/Axis/Events.antt =====
-- Interrupts, halts, fault stops and loop passes of one axis in any order (fw/src/axis.cpp). The
-- firmware keeps each of them whole: `halt` and `stopNow` run with the interrupts off.
use astro_uni_board.Base.{
  ℕ, suc, ◌-◌, ◌≤◌, ◌≡◌, refl, ◌∙◌, ◌⊎◌, inl, inr, true, List, [], ◌∷◌, arith, Bool-cases,
  Option-cases, if◌then◌else◌,
}
use astro_uni_board.Axis.{
  Axis, idle, motion_busy, halt, stop_now, update, just_stopped, set_speed, set_accel, after_step,
  count_step, isr_step,
}
use astro_uni_board.Axis.Delays.{next_ramp}
use astro_uni_board.Axis.RampLaws.{next_ramp-IsSound}
use astro_uni_board.Axis.Moving.{IsMoving, Counted, count_step-Counted, isr_step-active}
use astro_uni_board.Axis.Halt.{Between}

pub data Event : Type 0 where
  interrupt host_halt fault_stop read_flag : Event
  loop_pass new_speed new_accel : ℕ → Event

-- The timer is off while the axis is idle, so no interrupt comes then.
unfoldable pub apply : Event → Axis → Axis
apply interrupt a = if motion_busy a.motion then (isr_step a).0 else a
apply host_halt a = halt a
apply fault_stop a = stop_now a
apply read_flag a = (just_stopped a).0
apply (loop_pass now) a = update a now
apply (new_speed v) a = set_speed a v
apply (new_accel v) a = set_accel a v

unfoldable pub run_events : List Event → Axis → Axis
run_events [] a = a
run_events (e ∷ es) a = run_events es (apply e a)

-- `b` is `a` further on its way.
pub record Goes (a b : Axis) : Type 0 where
  pub moving : IsMoving b
  pub closer : b.remain - b.lead ≤ a.remain - a.lead
  pub same_dir : b.dir_step ≡ a.dir_step
  pub same_goal : b.target ≡ a.target

abbrev pub Underway : Axis → Axis → Type 0
Underway a b = ((b.motion ≡ idle) × Between a b.position) ⊎ Goes a b

after_step-Underway :
    (a c : Axis) (r : ℕ) → Counted a c r → IsMoving a → Underway a (after_step c).0
unfolding after_step
after_step-Underway a c ℕ.zero k v = inl (ground arith, (0 - c.lead, k.one_less, ground arith))
after_step-Underway a c (suc r) k v =
    elim (Option-cases (next_ramp c.halt_req c.remain c.min_delay c.ramp)) [
      | inl stops ↦ inl (ground arith, (suc r - c.lead, k.one_less, ground arith))
      | inr (s, goes) ↦
          inr (ground (arith, next_ramp-IsSound c.halt_req c.remain c.min_delay c.total c.ramp s))
    ]

settle-Goes : (a : Axis) → IsMoving a → a.settle ≡ true → Goes a (isr_step a).0
unfolding isr_step
settle-Goes a v e = ground arith

isr_step-Underway : (a : Axis) → IsMoving a → Underway a (isr_step a).0
isr_step-Underway a v = elim (Bool-cases a.settle) [
  | inl on ↦ inr (settle-Goes a v on)
  | inr off ↦ rw (isr_step-active a off) (
      after_step-Underway a (count_step a) (a.remain - 1)
        (count_step-Counted a (a.remain - 1) v (omega arith)) v)
]

to_go_now : (a : Axis) → IsMoving a → Between a a.position
to_go_now a v = (a.remain - a.lead, omega arith, v.toward)

stopped_here : (a b : Axis) → IsMoving a → b.motion ≡ idle → b.position ≡ a.position → Underway a b
stopped_here a b v e p = inl (e, rw p (to_go_now a v))

halt-position : (a : Axis) → (halt a).position ≡ a.position
unfolding halt
halt-position a = ground arith

halt-Underway : (a : Axis) → IsMoving a → Underway a (halt a)
halt-Underway a v = elim (Bool-cases (motion_busy (halt a).motion)) [
  | inl on ↦ inr (unfold halt in ground (arith, v.sound))
  | inr off ↦ stopped_here a (halt a) v (ground arith) (halt-position a)
]

-- One event of a moving axis.
pub apply-Underway : (e : Event) (a : Axis) → IsMoving a → Underway a (apply e a)
unfolding apply
apply-Underway interrupt a v = rw (v.is_busy) (isr_step-Underway a v)
apply-Underway host_halt a v = halt-Underway a v
apply-Underway fault_stop a v =
    stopped_here a (stop_now a) v (unfold stop_now in refl) (unfold stop_now in refl)
apply-Underway read_flag a v = inr (unfold just_stopped in ground (arith, v.sound))
apply-Underway (loop_pass now) a v = inr (unfold update in ground (arith, v.sound))
apply-Underway (new_speed n) a v = inr (unfold set_speed in ground (arith, v.sound))
apply-Underway (new_accel n) a v = inr (unfold set_accel in ground (arith, v.sound))

pub apply-idle :
    (e : Event) (a : Axis)
    → a.motion ≡ idle
    → ((apply e a).motion ≡ idle) × ((apply e a).position ≡ a.position)
unfolding apply halt stop_now just_stopped update set_speed set_accel
apply-idle interrupt a h = ground arith
apply-idle host_halt a h = ground arith
apply-idle fault_stop a h = (refl, refl)
apply-idle read_flag a h = (h, refl)
apply-idle (loop_pass now) a h = (h, refl)
apply-idle (new_speed n) a h = (h, refl)
apply-idle (new_accel n) a h = (h, refl)

Underway-trans : (a b c : Axis) → Goes a b → Underway b c → Underway a c
Underway-trans a b c g (inl (stopped, (k, h, t))) =
    inl (stopped, (k, omega (arith, g.closer), ground (arith, g.same_dir, g.same_goal)))
Underway-trans a b c g (inr w) = inr (record {
  moving = w.moving;
  closer = omega (arith, g.closer, w.closer);
  same_dir = w.same_dir ∙ g.same_dir;
  same_goal = w.same_goal ∙ g.same_goal;
})

apply-keeps : (e : Event) (a b : Axis) → Underway a b → Underway a (apply e b)
apply-keeps e a b (inl (stopped, between)) =
    let (still, here) = apply-idle e b stopped in inl (still, rw here between)
apply-keeps e a b (inr g) = Underway-trans a b (apply e b) g (apply-Underway e b g.moving)

run_events-keeps : (es : List Event) (a b : Axis) → Underway a b → Underway a (run_events es b)
unfolding run_events
run_events-keeps [] a b u = u
run_events-keeps (e ∷ es) a b u = run_events-keeps es a (apply e b) (apply-keeps e a b u)

Underway-Between : (a b : Axis) → Underway a b → Between a b.position
Underway-Between a b (inl (_, between)) = between
Underway-Between a b (inr g) =
    (b.remain - b.lead, g.closer, ground (arith, g.moving.toward, g.same_dir, g.same_goal))

-- Whatever interrupts, halts, fault stops, loop passes and settings follow a move's start, in any
-- order, the counted position stays between where the axis stood and the target of the move.
pub run_events-Between :
    (es : List Event) (a : Axis) → IsMoving a → Between a (run_events es a).position
run_events-Between es a v = Underway-Between a (run_events es a) (
    run_events-keeps es a a
      (inr (record { moving = v; closer = omega arith; same_dir = refl; same_goal = refl })))
