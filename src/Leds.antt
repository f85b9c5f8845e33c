-- ===== src/Leds.antt =====
-- fw/src/leds.cpp: the two LEDs and their dimming. A LED's bit of the masks is a Boolean field, and an
-- output is true where the LED is lit (the pins are active low).
pub mod Brightness
use astro_uni_board.Base.{
  ℕ, suc, zero, ◌+◌, ◌*◌, ◌/◌, ◌%◌, Bool, true, false, not, ◌&&◌, ◌||◌, ltb, leb, ◌==◌,
  if◌then◌else◌,
}

pub record Leds : Type 0 where
  pub on_status : Bool  -- onMask
  pub on_act : Bool
  pub duty : ℕ
  pub phase : ℕ
  pub timer_runs : Bool
  pub brightness : ℕ  -- settings.ledBrightness
  pub lit_status : Bool
  pub lit_act : Bool

abbrev pub pwm_steps : ℕ
pwm_steps = 64

-- The interrupt of the timer.
unfoldable pub pwm_tick : Leds → Leds
pwm_tick l =
    let lit = ltb l.phase l.duty in
    record l {
      lit_status = lit && l.on_status;
      lit_act = lit && l.on_act;
      phase = (l.phase + 1) % pwm_steps;
    }

unfoldable pub drive_direct : Leds → Leds
drive_direct l =
    let off = l.brightness == 0 in
    record l { lit_status = not off && l.on_status; lit_act = not off && l.on_act }

abbrev same : Bool → Bool → Bool
same true b = b
same false b = not b

-- `ledSet` of both LEDs, one after the other.
unfoldable pub led_set_status : Bool → Leds → Leds
unfolding drive_direct
led_set_status on l =
    let l' : Leds = record l { on_status = on } in
    if same on l.on_status
    then l
    else if l.brightness == 0 || leb 100 l.brightness
    then drive_direct l'
    else l'

unfoldable pub led_set_act : Bool → Leds → Leds
unfolding drive_direct
led_set_act on l =
    let l' : Leds = record l { on_act = on } in
    if same on l.on_act
    then l
    else if l.brightness == 0 || leb 100 l.brightness
    then drive_direct l'
    else l'

-- What the patterns are made from.
pub record Activity : Type 0 where
  pub fault : Bool  -- statusError() != FW_OK
  pub any_busy : Bool
  pub safe_mode : Bool

unfoldable pub status_pattern : ℕ → Activity → Bool
status_pattern now a = if a.fault then now / 100 % 2 == 0 else true

unfoldable pub act_pattern : ℕ → Activity → Bool
act_pattern now a =
    if a.any_busy then now / 50 % 2 == 0 else ltb (now % (if a.safe_mode then 250 else 1000)) 60

unfoldable pub leds_update : ℕ → Activity → Leds → Leds
leds_update now a l = led_set_act (act_pattern now a) (led_set_status (status_pattern now a) l)

abbrev pub percent_of : ℕ → ℕ
percent_of p = if ltb 100 p then 100 else p

unfoldable pub duty_of : ℕ → ℕ
duty_of percent =
    let d = (percent * percent * pwm_steps + 5000) / 10000 in
    if ltb 0 percent && (d == 0) then 1 else d

-- `pwmTimer` is there, from the end of `ledsBegin` on.
unfoldable pub leds_set_brightness : ℕ → Leds → Leds
unfolding duty_of drive_direct
leds_set_brightness p l =
    let percent = percent_of p in
    let l' : Leds = record l { brightness = percent; duty = duty_of percent } in
    if percent == 0 || percent == 100
    then drive_direct (record l' { timer_runs = false })
    else record l' { timer_runs = true }
