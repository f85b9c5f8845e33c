-- ===== src/StepTimer.antt =====
-- fw/src/step_timer.cpp: the one timer behind both axes. The 16-bit counter runs from 0 to `arr` and
-- then interrupts; longer periods are cut into silent pieces.
pub mod Period
use astro_uni_board.Base.{
  ℕ, suc, ◌+◌, ◌-◌, Bool, true, false, not, ◌&&◌, ◌||◌, Option, none, some, ltb, leb, ◌==◌,
  if◌then◌else◌,
}
use astro_uni_board.Settings.{AxisId, axis_foc, axis_rot}

pub record Timer : Type 0 where
  pub begun : Bool
  pub active : Option AxisId
  pub wait_ticks : ℕ
  pub arr : ℕ
  pub counting : Bool

unfoldable pub load_period : Timer → ℕ → Timer
load_period t ticks =
    let n = if ltb ticks 2 then 2 else ticks in
    if leb n 65536
    then record t { arr = n - 1; wait_ticks = 0 }
    else record t { arr = 32767; wait_ticks = n - 32768 }

-- The second part is the axis whose `isrStep` is called, if any.
unfoldable pub on_update : Timer → Timer × Option AxisId
on_update t = if t.wait_ticks == 0 then (t, t.active) else (load_period t t.wait_ticks, none)

abbrev pub same_axis : AxisId → AxisId → Bool
same_axis axis_foc axis_foc = true
same_axis axis_rot axis_rot = true
same_axis _ _ = false

abbrev held_by_other : Option AxisId → AxisId → Bool
held_by_other none axis = false
held_by_other (some other) axis = not (same_axis other axis)

unfoldable pub timer_start : Timer → AxisId → Timer × Bool
unfolding load_period
timer_start t axis =
    if not t.begun
    then (t, false)
    else if held_by_other t.active axis
    then (t, false)
    else (record (load_period t 160) { active = some axis; counting = true }, true)

unfoldable pub timer_stop : Timer → Timer
timer_stop t = record t { counting = false; wait_ticks = 0; active = none }

abbrev pub timer_running : Timer → Bool
timer_running t = elim (t.active) [ none ↦ false | some _ ↦ true ]

-- Ticks from now to the next call of `isrStep`; `none` if that takes more interrupts than `fuel`.
unfoldable pub ticks_to_step : ℕ → Timer → Option ℕ
unfolding on_update
ticks_to_step ℕ.zero t = none
ticks_to_step (suc fuel) t =
    let rest = ticks_to_step fuel (on_update t).0 in
    if t.wait_ticks == 0
    then some (t.arr + 1)
    else elim rest [ none ↦ none | some n ↦ some (t.arr + 1 + n) ]
