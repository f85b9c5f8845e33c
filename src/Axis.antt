-- ===== src/Axis.antt =====
-- fw/src/axis.cpp: one stepper axis. A move is set up by `move_to`; from then on the step timer
-- interrupt calls `isr_step` until the axis is idle. A method returns the new axis. Positions are
-- unbounded integers; the counters and delays are uint32_t and wrap.
-- Pins: `enabled` is the driver's EN, `dir_high` its DIR, and `IsrAction` tells of the STEP pulse and
-- of what the interrupt asks of the timer. Of the timer an axis sees `TimerView` alone.
pub mod Delays
pub mod RampLaws
pub mod Moving
pub mod Exact
pub mod Halt
pub mod Events
pub mod Rest
use astro_uni_board.Base.{
  ℕ, suc, ◌+◌, ◌-◌, ◌*◌, ◌/◌, ◌<◌, Bool, true, false, not, ◌&&◌, ◌||◌, Option, none, some, ltb, leb,
  ◌==◌, if◌then◌else◌,
}
use astro_uni_board.Base.Int.{ℤ, pos, negsuc, magnitude, ◌+ℤ◌, ◌-ℤ◌, leb_ℤ}
use astro_uni_board.Base.Word.{u32, sub32}
use Delays.{Phase, ph_accel, ph_run, ph_decel, Ramp, next_ramp}

pub data AxisMotion : Type 0 where
  idle accel cruise decel halting : AxisMotion

pub record Axis : Type 0 where
  pub position : ℤ
  pub target : ℤ
  pub motion : AxisMotion
  pub lead : ℕ
  pub stopped_flag : Bool
  pub speed : ℕ
  pub accel_rate : ℕ
  pub idle_off_s : ℕ
  pub reverse : Bool
  pub start_ms : ℕ
  pub ramp : Ramp
  pub open ramp use *
  pub remain : ℕ
  pub total : ℕ
  pub halt_req : Bool
  pub settle : Bool
  pub min_delay : ℕ
  pub dir_step : ℤ
  pub dir_high : Bool
  pub enabled : Bool
  pub was_busy : Bool
  pub stop_ms : ℕ
  pub begun : Bool  -- stepSet, stepClr and stepMask are known

abbrev pub step_timer_hz : ℕ
step_timer_hz = 8000000

abbrev pub max_step_hz : ℕ
max_step_hz = 50000

abbrev pub settle_ticks : ℕ
settle_ticks = 16000

abbrev pub motion_busy : AxisMotion → Bool
motion_busy idle = false
motion_busy _ = true

abbrev pub is_halting : AxisMotion → Bool
is_halting halting = true
is_halting _ = false

unfoldable pub busy : Axis → Bool
busy a = motion_busy a.motion

unfoldable pub speed_now : Axis → ℕ
speed_now a =
    if not (motion_busy a.motion)
    then 0
    else if a.delay_ticks == 0
    then 0
    else step_timer_hz / a.delay_ticks

abbrev same_bool : Bool → Bool → Bool
same_bool true b = b
same_bool false b = not b

-- `speed ? speed : 1`
abbrev pub at_least_one : ℕ → ℕ
at_least_one n = if n == 0 then 1 else n

-- What `moveTo` asks: is an axis busy, does the timer run, would it start, and the time.
pub record TimerView : Type 0 where
  pub any_busy : Bool
  pub running : Bool
  pub starts : Bool
  pub now : ℕ

-- The period at full speed.
unfoldable pub cruise_delay : ℕ → ℕ
cruise_delay speed =
    let v = at_least_one speed in step_timer_hz / (if ltb max_step_hz v then max_step_hz else v)

-- `first_delay` is the C library's float 0.676 F sqrt(2 / a), cut to a whole number.
module _ (first_delay : ℕ → ℕ) where
  unfoldable pub start_delay : Axis → ℕ
  unfolding cruise_delay
  start_delay a =
      let c = first_delay (at_least_one a.accel_rate) in
      let c0 = if ltb 16000000 c then 16000000 else c in
      if ltb c0 (cruise_delay a.speed) then cruise_delay a.speed else c0

  -- The fields that `moveTo` sets before it starts the timer.
  unfoldable pub prepared : Axis → TimerView → ℤ → ℕ → Axis
  unfolding start_delay
  prepared a t goal lead_steps =
      let diff = goal -ℤ a.position in
      let fwd = leb_ℤ (pos 0) diff in
      record a {
        target = goal;
        motion = accel;
        lead = lead_steps;
        stopped_flag = false;
        start_ms = t.now;
        ramp = record {
          phase = ph_accel;
          delay_ticks = start_delay a;
          rest_ticks = 0;
          ramp_n = 0;
          decel_left = 0;
        };
        remain = u32 (magnitude diff + lead_steps);
        total = u32 (magnitude diff + lead_steps);
        halt_req = false;
        settle = not a.enabled;
        min_delay = cruise_delay a.speed;
        dir_step = if fwd then pos 1 else negsuc 0;
        dir_high = not (same_bool fwd a.reverse);
        enabled = true;
        was_busy = true;
      }

  unfoldable pub move_to : Axis → TimerView → ℤ → ℕ → Axis × Bool
  move_to a t goal lead_steps =
      if t.any_busy || t.running || not a.begun
      then (a, false)
      else if (magnitude (goal -ℤ a.position) == 0) && (lead_steps == 0)
      then (a, true)
      else if t.starts
      then (prepared a t goal lead_steps, true)
      else (record (prepared a t goal lead_steps) { motion = idle; remain = 0 }, false)

-- `stepTimerStop` is called by the first branch of `halt` if the timer runs for this axis.
unfoldable pub halt : Axis → Axis
halt a =
    if motion_busy a.motion && not (is_halting a.motion)
    then if a.remain == a.total
      then record a { remain = 0; motion = idle; stopped_flag = true }
      else record a { halt_req = true; motion = halting }
    else a

unfoldable pub stop_now : Axis → Axis
stop_now a = record a {
  motion = idle;
  stopped_flag = motion_busy a.motion || a.stopped_flag;
  remain = 0;
  halt_req = false;
}

-- The bookkeeping of every loop pass: idle-off, and hold current where idle-off is 0.
unfoldable pub update : Axis → ℕ → Axis
update a now =
    let b = motion_busy a.motion in
    let stop = if a.was_busy && not b then now else a.stop_ms in
    let off =
      not b
      && a.enabled
      && not (a.idle_off_s == 0)
      && leb (u32 (a.idle_off_s * 1000)) (sub32 now stop) in
    let on = if off then false else a.enabled in
    record a {
      stop_ms = stop;
      was_busy = b;
      enabled = if not b && not on && (a.idle_off_s == 0) then true else on;
    }

unfoldable pub set_position : Axis → ℤ → Axis
set_position a p = if motion_busy a.motion then a else record a { position = p }

unfoldable pub just_stopped : Axis → Axis × Bool
just_stopped a = (record a { stopped_flag = false }, a.stopped_flag)

unfoldable pub set_speed : Axis → ℕ → Axis
set_speed a v = record a { speed = at_least_one v }

unfoldable pub set_accel : Axis → ℕ → Axis
set_accel a v = record a { accel_rate = at_least_one v }

unfoldable pub set_reverse : Axis → Bool → Axis
set_reverse a r = record a { reverse = r }

unfoldable pub set_idle_off : Axis → ℕ → Axis
set_idle_off a s = record a { idle_off_s = s }

-- What an interrupt does besides: it waits for the driver with no pulse, or makes one STEP pulse and
-- schedules the next interrupt or stops the timer.
pub data IsrAction : Type 0 where
  waits : ℕ → IsrAction
  steps : ℕ → IsrAction
  finishes : IsrAction

unfoldable pub finish_isr : Axis → Axis
finish_isr a = record a { remain = 0; halt_req = false; motion = idle; stopped_flag = true }

-- A lead step is not counted in the position.
unfoldable pub count_step : Axis → Axis
count_step a =
    let left = sub32 a.remain 1 in
    if a.lead == 0
    then record a { position = a.position +ℤ a.dir_step; remain = left }
    else record a { lead = a.lead - 1; remain = left }

abbrev motion_of : Phase → AxisMotion
motion_of ph_accel = accel
motion_of ph_run = cruise
motion_of ph_decel = decel

-- What follows the pulse.
unfoldable pub after_step : Axis → Axis × IsrAction
unfolding finish_isr
after_step a =
    if a.remain == 0
    then (finish_isr a, finishes)
    else elim (next_ramp a.halt_req a.remain a.min_delay a.ramp) [
      | none ↦ (finish_isr (record a { ramp = record (a.ramp) { decel_left = 0 } }), finishes)
      | some s ↦ (
        record a {
          ramp = s;
          halt_req = false;
          motion = if is_halting a.motion then halting else motion_of s.phase;
        },
        steps s.delay_ticks,
      )
    ]

unfoldable pub isr_step : Axis → Axis × IsrAction
isr_step a =
    if a.settle
    then (record a { settle = false }, waits settle_ticks)
    else after_step (count_step a)

-- The interrupts of a move: none comes once the timer is stopped.
unfoldable pub isr_run : ℕ → Axis → Axis
isr_run ℕ.zero a = a
isr_run (suc n) a = let rest = isr_run n (isr_step a).0 in if motion_busy a.motion then rest else a
