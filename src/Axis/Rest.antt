-- ===== src/Axis/Rest.antt =====
-- What starts an axis (fw/src/axis.cpp): only `moveTo`, and not while an axis is busy.
use astro_uni_board.Base.{ℕ, ◌≡◌, refl, true, false, arith}
use astro_uni_board.Base.Int.{ℤ}
use astro_uni_board.Axis.{
  Axis, TimerView, busy, move_to, halt, stop_now, update, set_position, just_stopped,
}

-- An axis that rests in `a` rests in `a'`.
pub record StaysIdle (a a' : Axis) : Type 0 where
  pub rests : busy a ≡ false → busy a' ≡ false

pub same-StaysIdle : (a : Axis) → StaysIdle a a
same-StaysIdle a = record { rests = λ h. h }

pub then-StaysIdle : (a b c : Axis) → StaysIdle a b → StaysIdle b c → StaysIdle a c
then-StaysIdle a b c p q = record { rests = λ h. q.rests (p.rests h) }

pub move_to-StaysIdle :
    (first_delay : ℕ → ℕ) (a : Axis) (t : TimerView) (goal : ℤ) (lead : ℕ)
    → t.any_busy ≡ true
    → StaysIdle a (move_to first_delay a t goal lead).0
unfolding move_to
move_to-StaysIdle first_delay a t goal lead other = rw other (same-StaysIdle a)

pub halt-StaysIdle : (a : Axis) → StaysIdle a (halt a)
unfolding halt busy
halt-StaysIdle a = record { rests = λ h. ground (arith, h) }

pub stop_now-idle : (a : Axis) → busy (stop_now a) ≡ false
unfolding stop_now busy
stop_now-idle a = refl

pub update-StaysIdle : (a : Axis) (now : ℕ) → StaysIdle a (update a now)
unfolding update busy
update-StaysIdle a now = record { rests = λ h. h }

pub set_position-StaysIdle : (a : Axis) (p : ℤ) → StaysIdle a (set_position a p)
unfolding set_position busy
set_position-StaysIdle a p = record { rests = λ h. ground (arith, h) }

pub just_stopped-StaysIdle : (a : Axis) → StaysIdle a (just_stopped a).0
unfolding just_stopped busy
just_stopped-StaysIdle a = record { rests = λ h. h }
