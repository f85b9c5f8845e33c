-- ===== src/Tmc/Checks.antt =====
-- The checks of a running move (`watchMove` of fw/src/tmc2209.cpp).
use astro_uni_board.Base.{
  ℕ, ◌+◌, ◌*◌, ◌%◌, Bool, false, not, ◌&&◌, ◌||◌, Option, none, some, leb, ◌==◌, if◌then◌else◌,
}
use astro_uni_board.Base.Int.{pos, ltb_ℤ}
use astro_uni_board.Base.Word.{sub32}
use astro_uni_board.Errors.{FwError, motor_driver, motor_stall}
use astro_uni_board.Settings.{AxisId, DriverConfig}
use astro_uni_board.Axis
use astro_uni_board.Axis.{Axis, speed_now}
use astro_uni_board.Tmc.{
  stall_min_fullsteps, stall_blank_ms, move_fail_limit, is_stealth, DrvState, no_reading, Tmc, st,
  put_st, bit_set, has_fault,
}

-- What a check of a running move says: go on, return, or `faultStop` with a code.
pub data Verdict : Type 0 where
  goes_on returns : Verdict
  stops : FwError → Verdict

-- What the reads during a move answer, and the axis as it is after them.
pub record MoveReads : Type 0 where
  pub drv_status : Option ℕ
  pub sg_result : Option ℕ
  pub later : Axis

unfoldable pub fresh_stats : AxisId → ℕ → ℕ → Tmc → Tmc
fresh_stats axis start now t =
    if (st t axis).move_start == start
    then t
    else record (put_st axis
        (record (st t axis) {
          move_start = start;
          sg_last = no_reading;
          sg_min = no_reading;
          sg_max = no_reading;
          fail_count = 0;
        })
        t) { last_sg = now; last_fault = now }

-- A read that failed: the third in a row stops the move.
unfoldable pub failed_read : AxisId → Tmc → Tmc × Verdict
failed_read axis t =
    let s = st t axis in
    let n = (s.fail_count + 1) % 256 in
    if leb move_fail_limit n
    then (
      put_st axis (record s { fail_count = n; answering = false; temp_class = no_reading }) t,
      stops motor_driver,
    )
    else (put_st axis (record s { fail_count = n }) t, returns)

abbrev pub on_status : AxisId → Option ℕ → Tmc → Tmc × Verdict
on_status axis none t = failed_read axis t
on_status axis (some ds) t = (
  put_st axis (record (st t axis) { fail_count = 0; otpw = bit_set 0 ds }) t,
  if has_fault ds then stops motor_driver else goes_on,
)

unfoldable pub fault_check : AxisId → ℕ → Option ℕ → Tmc → Tmc × Verdict
fault_check axis now ds t =
    if leb 100 (sub32 now t.last_fault)
    then on_status axis ds (record t { last_fault = now })
    else (t, goes_on)

-- A sample that counts: after the blank time, above the lowest speed.
unfoldable pub is_active : DriverConfig → ℕ → Axis → Bool
is_active c now a =
    leb stall_blank_ms (sub32 now a.start_ms)
    && leb (stall_min_fullsteps * (if c.microsteps == 0 then 1 else c.microsteps)) (speed_now a)

unfoldable pub counted : ℕ → DrvState → DrvState
counted sg s = record s {
  sg_last = pos sg;
  sg_min = if ltb_ℤ s.sg_min (pos 0) || ltb_ℤ (pos sg) s.sg_min then pos sg else s.sg_min;
  sg_max = if ltb_ℤ s.sg_max (pos sg) then pos sg else s.sg_max;
}

unfoldable pub is_stalled : DriverConfig → ℕ → Bool
is_stalled c sg =
    not (c.stall_threshold == 0) && is_stealth c.mode && leb sg (2 * c.stall_threshold)

abbrev pub on_sample : AxisId → DriverConfig → ℕ → Axis → Option ℕ → Tmc → Tmc × Verdict
on_sample axis c now a none t = failed_read axis t
on_sample axis c now a (some r) t =
    let s : DrvState = record (st t axis) { fail_count = 0 } in
    let sg = r % 1024 in
    if not (Axis.busy a) || not (is_active c now a)
    then (put_st axis s t, returns)
    else (put_st axis (counted sg s) t, if is_stalled c sg then stops motor_stall else returns)

unfoldable pub stall_check : AxisId → DriverConfig → ℕ → Axis → Option ℕ → Tmc → Tmc × Verdict
stall_check axis c now a r t =
    if leb 20 (sub32 now t.last_sg)
    then on_sample axis c now a r (record t { last_sg = now })
    else (t, returns)

abbrev pub and_then : Tmc × Verdict → (Tmc → Tmc × Verdict) → Tmc × Verdict
and_then (t, goes_on) next = next t
and_then (t, returns) next = (t, returns)
and_then (t, stops e) next = (t, stops e)

-- `a` is the axis that runs.
unfoldable pub watch_move : AxisId → DriverConfig → ℕ → Axis → MoveReads → Tmc → Tmc × Verdict
watch_move axis c now a reads t =
    and_then (fault_check axis now reads.drv_status (fresh_stats axis a.start_ms now t))
      (stall_check axis c now reads.later reads.sg_result)
