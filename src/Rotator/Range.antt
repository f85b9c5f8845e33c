-- ===== src/Rotator/Range.antt =====
-- The cable-wrap range: where the moves of fw/src/rotator.cpp may end.
pub mod Passes
pub mod Commands
use astro_uni_board.Base.{
  ℕ, ◌≤◌, ◌+◌, ◌≡◌, ◌⊎◌, refl, sym, subst, ◌∙◌, Bool, true, false, not, ◌||◌, Option-cases, inl,
  inr, arith, if◌then◌else◌,
}
use astro_uni_board.Base.Int.{ℤ, pos, ◌+ℤ◌, ◌≤ℤ◌, eqb_ℤ}
use astro_uni_board.Errors.{FwError, busy}
use astro_uni_board.Settings.{RotatorSettings}
use astro_uni_board.Axis
use astro_uni_board.Calc.{cdeg_to_steps}
use astro_uni_board.Rotator.{
  Turntable, Nearby, Rotator, Seq, spk, driver_ok, view_of, arrive_at_once, turn, start_move,
  end_move, check_move_end,
}
use astro_uni_board.Rotator.Sequences.{abort_seq, gives_up, when_settled, when_moved}
use astro_uni_board.Rotator.Course.{Course, course, anywhere, waits_at, turns_to}

-- A target is at most the upper end, and at least the lower end or the start of a calibration.
abbrev pub Allowed : RotatorSettings → ℤ → ℤ → Type 0
Allowed s start t = (t ≤ℤ s.wrap_max) × ((s.wrap_min ≤ℤ t) ⊎ (start ≤ℤ t))

-- A calibration has room for its half turn.
abbrev pub Room : Course → ℤ → ℤ → Type 0
Room anywhere start top = Unit {0}
Room (waits_at n) start top = start +ℤ pos 18000 ≤ℤ top
Room (turns_to n) start top = start +ℤ pos 18000 ≤ℤ top

pub record IsInside (s : RotatorSettings) (r : Rotator) : Type 0 where
  pub ordered : s.wrap_min ≤ℤ s.wrap_max
  pub going : r.moving ≡ true → Allowed s r.cal_start r.move_target
  pub room : Room (course r.seq) r.cal_start s.wrap_max

pub record Inside (b : Turntable) : Type 0 where
  pub inside : IsInside b.settings.rot b.rot

-- The fields that count are as before; a sequence may have ended.
pub record Alike (b c : Turntable) : Type 0 where
  pub low : c.settings.rot.wrap_min ≡ b.settings.rot.wrap_min
  pub high : c.settings.rot.wrap_max ≡ b.settings.rot.wrap_max
  pub moves : c.rot.moving ≡ b.rot.moving
  pub target : c.rot.move_target ≡ b.rot.move_target
  pub start : c.rot.cal_start ≡ b.rot.cal_start

pub Alike-going :
    (b c : Turntable)
    → Alike b c
    → Inside b
    → c.rot.moving ≡ true
    → Allowed c.settings.rot c.rot.cal_start c.rot.move_target
Alike-going b c a p h = rw (a.low, a.high, a.target, a.start) (p.inside.going (sym a.moves ∙ h))

-- Whatever the sequence is now, there is room for it.
pub Alike-Inside :
    (b c : Turntable)
    → Alike b c
    → Room (course c.rot.seq) b.rot.cal_start b.settings.rot.wrap_max
    → Inside b
    → Inside c
Alike-Inside b c a r p = record {
  inside = record {
    ordered = rw (a.low, a.high) p.inside.ordered;
    going = Alike-going b c a p;
    room = rw (a.start, a.high) r;
  };
}

pub ended-Inside : (b c : Turntable) → Alike b c → course c.rot.seq ≡ anywhere → Inside b → Inside c
ended-Inside b c a e p =
    Alike-Inside b c a (subst (λ k. Room k b.rot.cal_start b.settings.rot.wrap_max) (sym e) tt) p

pub resting-Inside :
    (c : Turntable)
    → c.settings.rot.wrap_min ≤ℤ c.settings.rot.wrap_max
    → c.rot.moving ≡ false
    → course c.rot.seq ≡ anywhere
    → Inside c
resting-Inside c o still e = record {
  inside = record {
    ordered = o;
    going = λ h. absurd (ground (arith, still, h));
    room = subst (λ k. Room k c.rot.cal_start c.settings.rot.wrap_max) (sym e) tt;
  };
}

pub choose : (t : Bool) {b c : Turntable} → Inside b → Inside c → Inside (if t then b else c)
choose true p q = p
choose false p q = q

pub abort-Inside : (e : FwError) (b : Turntable) → Inside b → Inside (abort_seq e b)
unfolding abort_seq
abort-Inside e b p =
    ended-Inside b (abort_seq e b)
      (record {
        low = ground arith;
        high = ground arith;
        moves = ground arith;
        target = ground arith;
        start = ground arith;
      })
      (ground arith) p

pub check-Inside : (now : ℕ) (b : Turntable) → Inside b → Inside (check_move_end now b)
unfolding check_move_end end_move
check-Inside now b p = choose (not b.rot.moving || Axis.busy b.axis) p (record {
  inside = record {
    ordered = p.inside.ordered;
    going = λ h. absurd (ground (arith, h));
    room = p.inside.room;
  };
})

-- The answer of an operation keeps the range.
pub record Answers {R : Type 0} (r : Turntable × R) : Type 0 where
  pub answered : Inside r.0

pub refused :
    {R : Type 0} (t : Bool) {x y : Turntable × R}
    → Answers x
    → Answers y
    → Answers (if t then x else y)
refused true p q = p
refused false p q = q

arrive-Inside :
    (w : Nearby) (goal : ℤ) (b : Turntable) → Inside b → Inside (arrive_at_once w goal b)
unfolding arrive_at_once
arrive-Inside w goal b p =
    let same : (arrive_at_once w goal b).rot.seq ≡ b.rot.seq = ground arith in
    Alike-Inside b (arrive_at_once w goal b)
      (record {
        low = ground arith;
        high = ground arith;
        moves = ground arith;
        target = ground arith;
        start = ground arith;
      })
      (subst (λ s. Room (course s) b.rot.cal_start b.settings.rot.wrap_max) (sym same)
        p.inside.room)
      p

module _ (first_delay : ℕ → ℕ) where
  turn-Inside :
      (w : Nearby) (goal : ℤ) (b : Turntable)
      → Allowed b.settings.rot b.rot.cal_start goal
      → Inside b
      → Answers (turn first_delay w goal b)
  unfolding turn
  turn-Inside w goal b a p =
      refused (Axis.move_to first_delay b.axis (view_of w b) (cdeg_to_steps goal (spk b)) 0).1
        (record {
          answered = record {
            inside = record { ordered = p.inside.ordered; going = λ h. a; room = p.inside.room };
          };
        })
        (record { answered = record { inside = p.inside } })

  -- A move that starts to an allowed target.
  pub start_move-Inside :
      (w : Nearby) (goal : ℤ) (b : Turntable)
      → Allowed b.settings.rot b.rot.cal_start goal
      → Inside b
      → Answers (start_move first_delay w goal b)
  unfolding start_move
  start_move-Inside w goal b a p =
      let stays : (e : FwError) → Answers (b, e) = λ e. record { answered = p } in
      refused (Axis.busy b.axis) (stays busy) (
        refused (eqb_ℤ (cdeg_to_steps goal (spk b)) b.axis.position)
          (record { answered = arrive-Inside w goal b p })
          (refused (not (driver_ok w)) (record { answered = record { inside = p.inside } })
            (turn-Inside w goal b a p)))
