-- ===== src/Tmc/Watch.antt =====
-- What the watch of a move does with the answers it gets (`watchMove` of fw/src/tmc2209.cpp).
use astro_uni_board.Base.{
  ℕ, ◌*◌, ◌%◌, ◌≤◌, ◌≡◌, ◌≢◌, refl, inl, inr, true, Option, none, some, arith, leb, ◌==◌,
  if◌then◌else◌, Bool-cases,
}
use astro_uni_board.Base.Word.{sub32}
use astro_uni_board.Errors.{motor_stall}
use astro_uni_board.Settings.{AxisId, axis_foc, axis_rot, DriverConfig}
use astro_uni_board.Axis
use astro_uni_board.Axis.{Axis, speed_now}
use astro_uni_board.Tmc.{stall_min_fullsteps, stall_blank_ms, is_stealth, DrvState, Tmc, st, put_st}
use astro_uni_board.Tmc.Checks.{
  Verdict, goes_on, returns, stops, MoveReads, fresh_stats, failed_read, on_status, fault_check,
  is_active, is_stalled, on_sample, stall_check, and_then, watch_move,
}

pub st-put_st : (axis : AxisId) (s : DrvState) (t : Tmc) → st (put_st axis s t) axis ≡ s
st-put_st axis_foc s t = refl
st-put_st axis_rot s t = refl

-- A sample that may stop a move.
pub record IsStall (c : DriverConfig) (now : ℕ) (reads : MoveReads) : Type 0 where
  pub armed : c.stall_threshold ≢ 0
  pub stealth : is_stealth c.mode ≡ true
  pub moving : Axis.busy reads.later ≡ true
  pub after_blank : stall_blank_ms ≤ sub32 now reads.later.start_ms
  pub fast_enough :
      stall_min_fullsteps * (if c.microsteps == 0 then 1 else c.microsteps) ≤ speed_now reads.later
  pub sample : ℕ
  pub answered : reads.sg_result ≡ some sample
  pub low : sample % 1024 ≤ 2 * c.stall_threshold

failed_read_stall : (axis : AxisId) (t : Tmc) → (failed_read axis t).1 ≢ stops motor_stall
unfolding failed_read
failed_read_stall axis t h = ground (arith, h)

sample_stall :
    (axis : AxisId) (c : DriverConfig) (now : ℕ) (a : Axis) (r : Option ℕ) (t : Tmc)
    → (on_sample axis c now a r t).1 ≡ stops motor_stall
    → (k : ℕ) × (r ≡ some k)
      × (Axis.busy a ≡ true)
      × (is_active c now a ≡ true)
      × (is_stalled c (k % 1024) ≡ true)
sample_stall axis c now a none t h = absurd (failed_read_stall axis t h)
sample_stall axis c now a (some k) t h =
    (k, refl, ground (arith, h), ground (arith, h), ground (arith, h))

status_stall :
    (axis : AxisId) (ds : Option ℕ) (t : Tmc) → (on_status axis ds t).1 ≢ stops motor_stall
status_stall axis none t h = failed_read_stall axis t h
status_stall axis (some ds) t h = ground (arith, h)

fault_stall :
    (axis : AxisId) (now : ℕ) (ds : Option ℕ) (t : Tmc)
    → (fault_check axis now ds t).1 ≢ stops motor_stall
unfolding fault_check
fault_stall axis now ds t = elim (Bool-cases (leb 100 (sub32 now t.last_fault))) [
  | inl e ↦ rw e (status_stall axis ds (record t { last_fault = now }))
  | inr e ↦ rw e (λ h. absurd (cc h))
]

is_stall :
    (c : DriverConfig) (now : ℕ) (reads : MoveReads) (k : ℕ)
    → reads.sg_result ≡ some k
    → Axis.busy reads.later ≡ true
    → is_active c now reads.later ≡ true
    → is_stalled c (k % 1024) ≡ true
    → IsStall c now reads
unfolding is_active is_stalled
is_stall c now reads k answer busy active stalled = record {
  armed = ground (arith, stalled);
  stealth = ground (arith, stalled);
  moving = busy;
  after_blank = ground (arith, active);
  fast_enough = ground (arith, active);
  sample = k;
  answered = answer;
  low = ground (arith, stalled);
}

check-IsStall :
    (axis : AxisId) (c : DriverConfig) (now : ℕ) (reads : MoveReads) (t : Tmc)
    → (stall_check axis c now reads.later reads.sg_result t).1 ≡ stops motor_stall
    → IsStall c now reads
unfolding stall_check
check-IsStall axis c now reads t = elim (Bool-cases (leb 20 (sub32 now t.last_sg))) [
  | inl e ↦ rw e (λ h.
      let q = sample_stall axis c now reads.later reads.sg_result (record t { last_sg = now }) h in
      is_stall c now reads q.0 q.1 q.2 q.3 q.4)
  | inr e ↦ rw e (λ h. absurd (cc h))
]

and_then_stall :
    (x : Tmc × Verdict) (next : Tmc → Tmc × Verdict)
    → x.1 ≢ stops motor_stall
    → (and_then x next).1 ≡ stops motor_stall
    → (next x.0).1 ≡ stops motor_stall
and_then_stall (t, goes_on) next n h = h
and_then_stall (t, returns) next n h = absurd (n h)
and_then_stall (t, stops e) next n h = absurd (n h)

-- A move is stopped for a stall only where a stall threshold is set, in StealthChop, while the axis
-- still moves, 200 ms or more after its start and at 100 full steps a second or more, by an answered
-- sample that is not above twice the threshold.
pub watch_move-IsStall :
    (axis : AxisId) (c : DriverConfig) (now : ℕ) (a : Axis) (reads : MoveReads) (t : Tmc)
    → (watch_move axis c now a reads t).1 ≡ stops motor_stall
    → IsStall c now reads
unfolding watch_move
watch_move-IsStall axis c now a reads t h =
    let x = fault_check axis now reads.drv_status (fresh_stats axis a.start_ms now t) in
    check-IsStall axis c now reads x.0 (
      and_then_stall x (stall_check axis c now reads.later reads.sg_result)
        (fault_stall axis now reads.drv_status (fresh_stats axis a.start_ms now t)) h)
