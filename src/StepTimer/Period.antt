-- ===== src/StepTimer/Period.antt =====
-- The pieces of a long period add up to it (fw/src/step_timer.cpp).
use astro_uni_board.Base.{ℕ, ◌≤◌, ◌<◌, arith, ltb, if◌then◌else◌}
use astro_uni_board.StepTimer.{Timer, load_period}

abbrev pub at_least_two : ℕ → ℕ
at_least_two n = if ltb n 2 then 2 else n

-- Every piece fits the 16-bit counter, and none is shorter than two ticks.
pub load_period-arr :
    (t : Timer) (ticks : ℕ) → (1 ≤ (load_period t ticks).arr) × ((load_period t ticks).arr < 65536)
unfolding load_period
load_period-arr t ticks = ground arith
