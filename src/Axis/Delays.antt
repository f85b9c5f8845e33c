-- ===== src/Axis/Delays.antt =====
-- The ramp of `Axis::isrStep` (fw/src/axis.cpp): the recursion for the delay to the next step, and
-- the change of its phase.
use astro_uni_board.Base.{
  ℕ, ◌+◌, ◌*◌, ◌/◌, Bool, ◌||◌, Option, none, some, ltb, leb, ◌==◌, if◌then◌else◌,
}
use astro_uni_board.Base.Word.{u32, sub32}

pub data Phase : Type 0 where
  ph_accel ph_run ph_decel : Phase

-- The fields of the axis that the ramp owns, as they are between two interrupts.
pub record Ramp : Type 0 where
  pub phase : Phase
  pub delay_ticks : ℕ
  pub rest_ticks : ℕ
  pub ramp_n : ℕ
  pub decel_left : ℕ

abbrev smaller : ℕ → ℕ → ℕ
smaller r n = if ltb r n then r else n

-- One step faster: the delay falls by (2 d + rest) / (4 n + 1), not below the cruise period.
unfoldable pub speed_up : ℕ → Ramp → Ramp
speed_up min_delay s =
    let x = u32 (2 * s.delay_ticks + s.rest_ticks) in
    let div = u32 (4 * s.ramp_n + 1) in
    let q = x / div in
    let d = sub32 s.delay_ticks q in
    if leb d min_delay
    then record s { delay_ticks = min_delay; rest_ticks = 0; phase = ph_run }
    else record s { delay_ticks = d; rest_ticks = sub32 x (q * div) }

-- One step slower: the delay grows by (2 d + rest) / (4 k - 1), k = steps left to stop.
unfoldable pub slow_down : Ramp → Ramp
slow_down s =
    let x = u32 (2 * s.delay_ticks + s.rest_ticks) in
    let div = sub32 (u32 (4 * s.decel_left)) 1 in
    let q = x / div in
    record s { delay_ticks = u32 (s.delay_ticks + q); rest_ticks = sub32 x (q * div) }

-- The three branches of the interrupt, with `r` steps left; `none` where the halt is finished.
unfoldable pub accel_branch : Bool → ℕ → ℕ → Ramp → Option Ramp
unfolding speed_up slow_down
accel_branch h r min_delay s =
    let n = u32 (s.ramp_n + 1) in
    let s' : Ramp = record s { ramp_n = n } in
    if h || leb r n
    then some (slow_down (record s' { decel_left = smaller r n; phase = ph_decel }))
    else some (speed_up min_delay s')

unfoldable pub run_branch : Bool → ℕ → Ramp → Option Ramp
unfolding slow_down
run_branch h r s =
    let n = s.ramp_n in
    if h || leb r n
    then some (slow_down (record s { decel_left = smaller r n; phase = ph_decel; rest_ticks = 0 }))
    else some s

unfoldable pub decel_branch : Ramp → Option Ramp
unfolding slow_down
decel_branch s =
    let k = sub32 s.decel_left 1 in
    if k == 0 then none else some (slow_down (record s { decel_left = k }))

abbrev by_phase : Phase → Bool → ℕ → ℕ → Ramp → Option Ramp
by_phase ph_accel h r min_delay s = accel_branch h r min_delay s
by_phase ph_run h r min_delay s = run_branch h r s
by_phase ph_decel h r min_delay s = decel_branch s

-- Phase change and new delay after a step that leaves `r` steps to go.
unfoldable pub next_ramp : Bool → ℕ → ℕ → Ramp → Option Ramp
unfolding accel_branch run_branch decel_branch
next_ramp h r min_delay s = by_phase s.phase h r min_delay s
