-- ===== src/Imu/Driver.antt =====
-- fw/src/imu_mpu6000.cpp: presence, sampling, the low-pass filter and the captures of a calibration. What
-- the transfers of a call answer is an argument.
use astro_uni_board.Base.{
  ℕ, ◌+◌, ◌*◌, Bool, true, false, not, ◌&&◌, ◌||◌, Option, none, some, ltb, leb, ◌==◌,
  if◌then◌else◌,
}
use astro_uni_board.Base.Int.{ℤ, pos}
use astro_uni_board.Base.Word.{sub32, int16, of_pattern16}
use astro_uni_board.Errors.{FwError, calib_failed}
use astro_uni_board.Nv.Store.{Nv}
use astro_uni_board.Nv.Records.{Chip, Memory}
use astro_uni_board.Imu.{Float, Vec, ImuCalibration, no_calibration, ◌⊕◌, ◌⊖◌, ◌⊗◌, ◌⊘◌}
use astro_uni_board.Imu.Geometry.{
  Calibrated, refused, accepted, whole, calibrate, cal_valid, near_vertical, roll_cdeg, tilt_cdeg,
}
use astro_uni_board.Imu.Stored.{nv_load_imu_cal, nv_save_imu_cal}

-- The static variables.
pub record Imu (F : Type 0) : Type 0 where
  pub cal : ImuCalibration
  pub begun : Bool
  pub answering : Bool
  pub have_sample : Bool
  pub filt : Vec F
  pub fresh_samples : ℕ
  pub last_sample : ℕ
  pub last_good : ℕ
  pub last_probe : ℕ
  pub last_check : ℕ
  pub cap0_ok : Bool
  pub cap90_ok : Bool
  pub cap180_ok : Bool
  pub cap0 : Vec F
  pub cap90 : Vec F
  pub cap180 : Vec F

-- The transfers of `configure`: what WHO_AM_I and PWR_MGMT_1 read, and which registers take a write.
pub record Probe : Type 0 where
  pub who : Option ℕ
  pub takes : ℕ → Bool
  pub power : Option ℕ

-- Those of `imuUpdate`: PWR_MGMT_1, the six bytes from ACCEL_XOUT_H on, as three pairs, and a probe.
pub record ImuReads : Type 0 where
  pub power : Option ℕ
  pub accel : Option (Vec (ℕ × ℕ))
  pub probe : Probe

abbrev reads_as : Option ℕ → ℕ → Bool
reads_as none n = false
reads_as (some v) n = v == n

unfoldable pub configure : Probe → Bool
configure p =
    reads_as p.who 0x68
    && (p.takes 0x6B && (p.takes 0x6C && (p.takes 0x1A && (p.takes 0x19 && p.takes 0x1C))))
    && reads_as p.power 8

abbrev pub drop_captures : {F : Type 0} → Imu F → Imu F
drop_captures i = record i { cap0_ok = false; cap90_ok = false; cap180_ok = false }

unfoldable pub start_answering : {F : Type 0} → ℕ → Imu F → Imu F
start_answering now i = record i {
  answering = true;
  have_sample = false;
  fresh_samples = 0;
  last_good = now;
  last_sample = now;
  last_check = now;
}

unfoldable pub lose : {F : Type 0} → ℕ → Imu F → Imu F
lose now i = record i {
  answering = false;
  have_sample = false;
  fresh_samples = 0;
  cap0_ok = false;
  cap90_ok = false;
  cap180_ok = false;
  last_probe = now;
}

unfoldable pub imu_restart_filter : {F : Type 0} → Imu F → Imu F
imu_restart_filter i = record i { fresh_samples = 0 }

abbrev pub live : {F : Type 0} → Imu F → Bool
live i = i.answering && i.have_sample

abbrev pub settle_samples : ℕ
settle_samples = 40

unfoldable pub imu_settled : {F : Type 0} → Imu F → Bool
imu_settled i = live i && leb settle_samples i.fresh_samples

-- The captures: each keeps the filtered reading if the IMU has settled and the ones before it are there.
unfoldable pub capture_g0 : {F : Type 0} → Imu F → Imu F × Bool
unfolding imu_settled
capture_g0 i =
    let d = drop_captures i in
    if not (imu_settled i) then (d, false) else (record d { cap0 = i.filt; cap0_ok = true }, true)

unfoldable pub capture_g90 : {F : Type 0} → Imu F → Imu F × Bool
unfolding imu_settled
capture_g90 {F} i =
    let d : Imu F = record i { cap90_ok = false } in
    if not i.cap0_ok || not (imu_settled i)
    then (d, false)
    else (record d { cap90 = i.filt; cap90_ok = true }, true)

unfoldable pub capture_g180 : {F : Type 0} → Imu F → Imu F × Bool
unfolding imu_settled
capture_g180 {F} i =
    let d : Imu F = record i { cap180_ok = false } in
    if not i.cap0_ok || not i.cap90_ok || not (imu_settled i)
    then (d, false)
    else (record d { cap180 = i.filt; cap180_ok = true }, true)

-- The calibration that a start uses.
abbrev pub usable_cal : (F : Type 0) ⦃f : Float F⦄ → Option ImuCalibration → ImuCalibration
usable_cal F ⦃f⦄ none = no_calibration
usable_cal F ⦃f⦄ (some c) = if cal_valid F c then c else no_calibration

module _ {F : Type 0} ⦃f : Float F⦄ where
  abbrev pub mg : ℕ × ℕ → F
  mg (hi, lo) = f.of_int (of_pattern16 (hi * 256 + lo)) ⊗ (whole 1000 ⊘ whole 16384)

  abbrev pub reading : Vec (ℕ × ℕ) → Vec F
  reading b = record { x = mg b.x; y = mg b.y; z = mg b.z }

  abbrev pub blend : F → F → F
  blend old new = old ⊕ f.ratio (pos 25) 2 ⊗ (new ⊖ old)

  -- A sample, into the filter.
  unfoldable pub filtered : Vec F → Imu F → Imu F
  filtered s i =
      let old = i.filt in
      let mixed : Vec F = record {
        x = blend old.x s.x;
        y = blend old.y s.y;
        z = blend old.z s.z;
      } in
      record i {
        filt = if not i.have_sample || i.fresh_samples == 0 then s else mixed;
        have_sample = true;
        fresh_samples = if ltb i.fresh_samples 0xFFFF then i.fresh_samples + 1 else i.fresh_samples;
      }

  -- The check of PWR_MGMT_1, by what it reads.
  unfoldable pub checked : ℕ → Option ℕ → Probe → Imu F → Imu F
  unfolding lose configure imu_restart_filter
  checked now none p i = if leb 500 (sub32 now i.last_good) then lose now i else i
  checked now (some v) p i =
      let good : Imu F = record i { last_good = now } in
      if v == 8 then good else if configure p then imu_restart_filter good else good

  -- The sample, by what it reads.
  unfoldable pub sampled : ℕ → Option (Vec (ℕ × ℕ)) → Imu F → Imu F
  unfolding lose filtered
  sampled now none i = if leb 500 (sub32 now i.last_good) then lose now i else i
  sampled now (some b) i = filtered (reading b) (record i { last_good = now })

  unfoldable pub imu_update : ℕ → ImuReads → Imu F → Imu F
  unfolding configure start_answering checked sampled
  imu_update now r i =
      let probed : Imu F = record i { last_probe = now } in
      if not i.begun
      then i
      else if not i.answering
      then if ltb (sub32 now i.last_probe) 1000
        then i
        else if configure r.probe
        then start_answering now probed
        else probed
      else if leb 1000 (sub32 now i.last_check)
      then checked now r.power r.probe (record i { last_check = now })
      else if ltb (sub32 now i.last_sample) 20
      then i
      else sampled now r.accel (record i { last_sample = now })

  unfoldable pub imu_begin : ℕ → Probe → (ℕ → Bool) → Memory → Nv → Imu F → Imu F × Nv
  unfolding configure start_answering lose nv_load_imu_cal cal_valid
  imu_begin now p reads mem nv i =
      let (nv', loaded) = nv_load_imu_cal reads mem nv in
      let i' : Imu F = record i { begun = true; cal = usable_cal F loaded; last_probe = now } in
      (if configure p then start_answering now i' else lose now i', nv')

  -- IMU_INVALID is `none`.
  unfoldable pub imu_roll : Imu F → Option ℤ
  imu_roll i = if not (live i) || not (i.cal.valid == 1) then none else roll_cdeg i.cal i.filt

  unfoldable pub imu_tilt : Imu F → Option ℤ
  imu_tilt i = if not (live i) || not (i.cal.valid == 1) then none else tilt_cdeg i.cal i.filt

  unfoldable pub imu_near_vertical : Imu F → Bool
  imu_near_vertical i = live i && (i.cal.valid == 1 && near_vertical i.cal i.filt)

  -- `none` is the result false.
  unfoldable pub imu_accel : Imu F → Option (ℤ × ℤ × ℤ)
  imu_accel i =
      let v = i.filt in
      if not (live i)
      then none
      else some (int16 (f.round v.x), int16 (f.round v.y), int16 (f.round v.z))

  -- The end of `imuCalFinish`, with the save.
  abbrev pub on_calibrated :
      Calibrated → Chip → (ℕ → Bool) → ℕ → ℕ → Memory → Nv → Imu F → Imu F × Memory × Nv × FwError
  on_calibrated (refused e) chip reads room pad mem nv i = (i, mem, nv, e)
  on_calibrated (accepted c) chip reads room pad mem nv i =
      let (mem', nv', e) = nv_save_imu_cal chip reads room pad mem nv c in
      (record i { cal = c }, mem', nv', e)

  unfoldable pub imu_cal_finish :
      Chip → (ℕ → Bool) → ℕ → ℕ → Memory → Nv → Imu F → Imu F × Memory × Nv × FwError
  unfolding calibrate nv_save_imu_cal
  imu_cal_finish chip reads room pad mem nv i =
      if not i.cap0_ok || not i.cap90_ok || not i.cap180_ok
      then (i, mem, nv, calib_failed)
      else on_calibrated (calibrate i.cap0 i.cap90 i.cap180) chip reads room pad mem nv
          (drop_captures i)
