-- ===== src/Tmc.antt =====
-- fw/src/tmc2209.cpp: the two motor drivers. TMCStepper is not modelled: a register that the firmware
-- writes is a field of `DriverRegs`, and what a register read answers is an argument, `none` where
-- its CRC is wrong. A 32-bit register is a number, and its bits are taken by division.
pub mod Current
pub mod Checks
pub mod Watch
pub mod Stats
pub mod Silence
use astro_uni_board.Base.{
  ℕ, ◌+◌, ◌-◌, ◌*◌, ◌/◌, ◌%◌, ◌^◌, Bool, true, false, not, ◌&&◌, ◌||◌, Option, none, some, ltb, leb,
  ◌==◌, if◌then◌else◌,
}
use astro_uni_board.Base.Int.{ℤ, pos, negsuc, ltb_ℤ}
use astro_uni_board.Base.Word.{sub32}
use astro_uni_board.Errors.{FwError, fw_ok, busy, motor_driver, motor_stall}
use astro_uni_board.Settings.{
  AxisId, axis_foc, axis_rot, DriverMode, stealthchop, spreadcycle, DriverConfig,
}
use astro_uni_board.Axis
use astro_uni_board.Axis.{Axis, speed_now}

abbrev pub max_run_ma : ℕ
max_run_ma = 1500

abbrev pub stall_min_fullsteps : ℕ
stall_min_fullsteps = 100

abbrev pub stall_blank_ms : ℕ
stall_blank_ms = 200

abbrev pub move_fail_limit : ℕ
move_fail_limit = 3

-- The current scale for a current in mA and a full scale voltage in mV.
unfoldable pub cs_for : ℕ → ℕ → ℕ
cs_for ma vfs =
    let cs1 = ma * 58831 / (vfs * 10000) in
    let low = if ltb cs1 1 then 1 else cs1 in (if ltb 32 low then 32 else low) - 1

unfoldable pub tcool_for : DriverConfig → ℕ
tcool_for c = if c.stall_threshold == 0 then 0 else 12000000 / (256 * stall_min_fullsteps)

-- What `tmcApply` writes.
pub record DriverRegs : Type 0 where
  pub i_scale_analog : Bool
  pub multistep_filt : Bool
  pub toff : ℕ
  pub blank_time : ℕ
  pub hstrt : ℕ
  pub hend : ℕ
  pub intpol : Bool
  pub vsense : Bool
  pub irun : ℕ
  pub ihold : ℕ
  pub iholddelay : ℕ
  pub tpowerdown : ℕ
  pub microsteps : ℕ
  pub spread : Bool
  pub pwm_autoscale : Bool
  pub pwm_autograd : Bool
  pub tpwmthrs : ℕ
  pub sgthrs : ℕ
  pub tcoolthrs : ℕ

abbrev pub is_stealth : DriverMode → Bool
is_stealth stealthchop = true
is_stealth spreadcycle = false

abbrev pub full_scale : Bool → ℕ
full_scale true = 180
full_scale false = 325

abbrev pub run_of : DriverConfig → ℕ
run_of c = if ltb max_run_ma c.run_ma then max_run_ma else c.run_ma

abbrev pub hold_of : DriverConfig → ℕ
hold_of c = if ltb (run_of c) c.hold_ma then run_of c else c.hold_ma

-- The high sensitivity is taken where the run current fits it.
unfoldable pub driver_regs : DriverConfig → DriverRegs
driver_regs c =
    let vs = ltb (cs_for (run_of c) 325) 16 in
    record {
      i_scale_analog = false;
      multistep_filt = true;
      toff = 4;
      blank_time = 24;
      hstrt = 5;
      hend = 0;
      intpol = true;
      vsense = vs;
      irun = cs_for (run_of c) (full_scale vs);
      ihold = if hold_of c == 0 then 0 else cs_for (hold_of c) (full_scale vs);
      iholddelay = 6;
      tpowerdown = 20;
      microsteps = if c.microsteps == 0 then 1 else c.microsteps;
      spread = not (is_stealth c.mode);
      pwm_autoscale = true;
      pwm_autograd = true;
      tpwmthrs = 0;
      sgthrs = c.stall_threshold;
      tcoolthrs = tcool_for c;
    }

pub record DrvState : Type 0 where
  pub answering : Bool
  pub temp_class : ℤ
  pub otpw : Bool
  pub sg_last : ℤ
  pub sg_min : ℤ
  pub sg_max : ℤ
  pub move_start : ℕ
  pub fail_count : ℕ

abbrev pub no_reading : ℤ
no_reading = negsuc 0

pub record Tmc : Type 0 where
  pub foc : DrvState
  pub rot : DrvState
  pub foc_regs : DriverRegs  -- as last written
  pub rot_regs : DriverRegs
  pub reset_latched : Bool
  pub started : Bool
  pub last_sg : ℕ
  pub last_fault : ℕ
  pub last_idle : ℕ
  pub idle_next : AxisId

abbrev pub st : Tmc → AxisId → DrvState
st t axis_foc = t.foc
st t axis_rot = t.rot

abbrev pub put_st : AxisId → DrvState → Tmc → Tmc
put_st axis_foc s t = record t { foc = s }
put_st axis_rot s t = record t { rot = s }

abbrev put_regs : AxisId → DriverRegs → Tmc → Tmc
put_regs axis_foc r t = record t { foc_regs = r }
put_regs axis_rot r t = record t { rot_regs = r }

abbrev pub regs : Tmc → AxisId → DriverRegs
regs t axis_foc = t.foc_regs
regs t axis_rot = t.rot_regs

-- A good answer of IOIN has the version 0x21.
abbrev version_ok : Option ℕ → Bool
version_ok none = false
version_ok (some ioin) = ioin / 2 ^ 24 == 0x21

unfoldable pub tmc_apply : AxisId → DriverConfig → Option ℕ → Tmc → Tmc × Bool
unfolding driver_regs
tmc_apply axis c ioin t =
    let good = version_ok ioin in
    let s = st t axis in
    if not t.started then (t, false) else (
      put_st axis
          (record s {
            answering = good;
            temp_class = if good then s.temp_class else no_reading;
            fail_count = 0;
          })
          (put_regs axis (driver_regs c) t),
      good,
    )

abbrev pub tmc_answering : Tmc → AxisId → Bool
tmc_answering t axis = (st t axis).answering

-- Bit k of a register.
abbrev pub bit_set : ℕ → ℕ → Bool
bit_set k r = r / 2 ^ k % 2 == 1

-- The bits of DRV_FAULT_MASK: 1 to 5.
abbrev pub has_fault : ℕ → Bool
has_fault ds = not (ds / 2 % 32 == 0)

unfoldable pub temp_class_of : ℕ → ℤ
temp_class_of ds =
    if bit_set 11 ds
    then pos 157
    else if bit_set 10 ds
    then pos 150
    else if bit_set 9 ds
    then pos 143
    else if bit_set 8 ds
    then pos 120
    else pos 0

unfoldable pub tmc_temp_class : Tmc → AxisId → ℤ
tmc_temp_class t axis = if tmc_answering t axis then (st t axis).temp_class else no_reading

-- TMC_WARN_OTPW is 2 and TMC_WARN_RESET is 4.
unfoldable pub tmc_warnings : Tmc → ℕ
tmc_warnings t = (if t.foc.otpw || t.rot.otpw then 2 else 0) + (if t.reset_latched then 4 else 0)

abbrev pub silent : AxisId → Tmc → Tmc
silent axis t =
    put_st axis (record (st t axis) { answering = false; temp_class = no_reading; otpw = false }) t

-- What the reads of an idle poll answer.
pub record IdleReads : Type 0 where
  pub gstat : Option ℕ
  pub ioin : Option ℕ
  pub drv_status : Option ℕ

-- The end of `pollIdle`: the status was asked for.
unfoldable pub note_status : AxisId → Option ℕ → Tmc → Tmc × Bool
note_status axis none t = (silent axis t, false)
note_status axis (some ds) t = (
  put_st axis
      (record (st t axis) { answering = true; temp_class = temp_class_of ds; otpw = bit_set 0 ds })
      t,
  has_fault ds,
)

-- The driver came back, or was reset by a supply dip: its configuration is written again.
unfoldable pub restored : AxisId → DriverConfig → ℕ → IdleReads → Tmc → Tmc × Bool
unfolding tmc_apply
restored axis c g reads t =
    let t' : Tmc = record t { reset_latched = bit_set 0 g || t.reset_latched } in
    if not (tmc_answering t axis) || bit_set 0 g then tmc_apply axis c reads.ioin t' else (t, true)

abbrev after_gstat : AxisId → DriverConfig → Option ℕ → IdleReads → Tmc → Tmc × Bool
after_gstat axis c none reads t = (silent axis t, false)
after_gstat axis c (some g) reads t =
    let (t', goes) = restored axis c g reads t in
    let status = note_status axis reads.drv_status t' in if goes then status else (t', false)

-- The second part is `statusRaise(FW_ERR_MOTOR_DRIVER)`.
unfoldable pub poll_idle : AxisId → DriverConfig → IdleReads → Tmc → Tmc × Bool
unfolding restored note_status
poll_idle axis c reads t = after_gstat axis c reads.gstat reads t

abbrev next_axis : AxisId → AxisId
next_axis axis_foc = axis_rot
next_axis axis_rot = axis_foc

-- `tmcUpdate` where no axis moves.
unfoldable pub idle_pass : DriverConfig → DriverConfig → ℕ → IdleReads → Tmc → Tmc × Bool
idle_pass foc rot now reads t =
    let c : DriverConfig = elim (t.idle_next) [ axis_foc ↦ foc | axis_rot ↦ rot ] in
    let polled =
      poll_idle t.idle_next c reads
        (record t { last_idle = now; idle_next = next_axis t.idle_next }) in
    if t.started && leb 500 (sub32 now t.last_idle) then polled else (t, false)

abbrev with_threshold : DriverConfig → ℕ → DriverConfig
with_threshold c thr = record c { stall_threshold = thr }

-- `tmcSetStallThreshold`: the new configuration, where it is accepted.
unfoldable pub set_stall_threshold :
    AxisId → ℕ → Bool → DriverConfig → Tmc → Tmc × DriverConfig × FwError
set_stall_threshold axis thr any_busy c t =
    let c' = with_threshold c thr in
    let r : DriverRegs = record (regs t axis) { sgthrs = thr; tcoolthrs = tcool_for c' } in
    if any_busy then (t, c, busy) else (if t.started then put_regs axis r t else t, c', fw_ok)
