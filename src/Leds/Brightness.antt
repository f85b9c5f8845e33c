-- ===== src/Leds/Brightness.antt =====
-- How bright the LEDs of fw/src/leds.cpp are.
use astro_uni_board.Base.{
  ℕ, suc, zero, ◌+◌, ◌*◌, ◌%◌, ◌-◌, ◌≤◌, ◌<◌, ◌≡◌, refl, Bool, true, ltb, if◌then◌else◌, arith,
}
use native.Mathlib.Nat.{mul-le-mul_left, mul-le-mul_right, le_trans}
use astro_uni_board.Leds.{Leds, pwm_tick, duty_of, leds_set_brightness}

-- The ticks of `n` that light the status LED.
unfoldable pub lit_ticks : ℕ → Leds → ℕ
lit_ticks zero l = 0
lit_ticks (suc n) l =
    let l' = pwm_tick l in let rest = lit_ticks n l' in if l'.lit_status then rest + 1 else rest

-- The ticks of `n` that find the phase below the duty.
abbrev below : ℕ → ℕ → ℕ → ℕ
below n phase duty = if ltb n (duty - phase) then n else duty - phase

lit_ticks-suc :
    (n : ℕ) (l : Leds)
    → lit_ticks (suc n) l
      ≡ (if (pwm_tick l).lit_status then lit_ticks n (pwm_tick l) + 1 else lit_ticks n (pwm_tick l))
unfolding lit_ticks
lit_ticks-suc n l = refl

-- What a tick does, where the status LED is on.
record Ticked (l l' : Leds) : Type 0 where
  lit : l'.lit_status ≡ ltb l.phase l.duty
  on : l'.on_status ≡ true
  same_duty : l'.duty ≡ l.duty
  next_phase : l'.phase ≡ (l.phase + 1) % 64

pwm_tick-Ticked : (l : Leds) → l.on_status ≡ true → Ticked l (pwm_tick l)
unfolding pwm_tick
pwm_tick-Ticked l on = record {
  lit = ground (arith, on);
  on = on;
  same_duty = refl;
  next_phase = refl;
}

below_next :
    (lit : Bool) (n rest phase duty next duty' : ℕ)
    → lit ≡ ltb phase duty
    → duty ≤ 64
    → phase + suc n ≤ 64
    → next ≡ (phase + 1) % 64
    → duty' ≡ duty
    → rest ≡ below n next duty'
    → (if lit then rest + 1 else rest) ≡ below (suc n) phase duty
below_next lit n rest phase duty next duty' l d p e same r = ground arith

lit_from :
    (n : ℕ) (l : Leds)
    → l.on_status ≡ true
    → l.duty ≤ 64
    → l.phase + n ≤ 64
    → lit_ticks n l ≡ below n l.phase l.duty
unfolding lit_ticks
lit_from zero l on d p = ground arith
lit_from (suc n) l on d p =
    let t = pwm_tick-Ticked l on in
    let rest = lit_from n (pwm_tick l) t.on (rw t.same_duty d) (ground (arith, t.next_phase)) in
    rw (lit_ticks-suc n l) (
      below_next (pwm_tick l).lit_status n (lit_ticks n (pwm_tick l)) l.phase l.duty
        (pwm_tick l).phase (pwm_tick l).duty t.lit d p t.next_phase t.same_duty rest)

duty_of_square :
    (p q : ℕ)
    → p * p ≤ q * q
    → p ≤ q
    → q * q ≤ 10000
    → (duty_of p ≤ duty_of q) × (duty_of q ≤ 64) × (0 < q → 0 < duty_of q)
unfolding duty_of
duty_of_square p q sq le small = ground arith

square_le : (p q : ℕ) → p ≤ q → p * p ≤ q * q
square_le p q le = le_trans (mul-le-mul_left p le) (mul-le-mul_right q le)

-- A higher brightness of up to 100 percent never lights the LEDs for fewer ticks of the 64 of a
-- period, and a brightness above 0 lights them in one tick at least.
pub duty_of_mono :
    (p q : ℕ)
    → p ≤ q
    → q ≤ 100
    → (duty_of p ≤ duty_of q) × (duty_of q ≤ 64) × (0 < q → 0 < duty_of q)
duty_of_mono p q le small = duty_of_square p q (square_le p q le) le (square_le q 100 small)

top_duty : duty_of 99 ≡ 63
unfolding duty_of
top_duty = refl

dimmed :
    (p : ℕ) (l : Leds)
    → 0 < p
    → p < 100
    → let l' = leds_set_brightness p l in
      (l'.duty ≡ duty_of p) × (l'.phase ≡ l.phase) × (l'.on_status ≡ l.on_status)
unfolding leds_set_brightness
dimmed p l some_light not_full = ground arith

-- After the brightness is set to 1..99 percent, at the start of a period, a status LED that is on is
-- lit in exactly `duty_of p` of the next 64 ticks: in one at least, and not in all of them for less
-- than 100 percent.
pub period-lit :
    (p : ℕ) (l : Leds)
    → 0 < p
    → p < 100
    → l.on_status ≡ true
    → l.phase ≡ 0
    → (lit_ticks 64 (leds_set_brightness p l) ≡ duty_of p) × (0 < duty_of p) × (duty_of p < 64)
period-lit p l some_light not_full on start =
    let l' = leds_set_brightness p l in
    let d = dimmed p l some_light not_full in
    let bounds = duty_of_mono p p (omega arith) (omega arith) in
    let less = duty_of_mono p 99 (omega arith) (omega arith) in
    let ticks = lit_from 64 l' (rw d.2 on) (rw d.0 bounds.1) (rw (d.1, start) (omega arith)) in
    (
      rw ticks (ground (arith, d, start, bounds)),
      bounds.2 some_light,
      ground (arith, less, top_duty),
    )
