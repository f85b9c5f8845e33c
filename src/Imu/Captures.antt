-- ===== src/Imu/Captures.antt =====
-- The three captures of a calibration (fw/src/imu_mpu6000.cpp), between anything else that happens.
use astro_uni_board.Base.{ℕ, ◌≡◌, refl, Bool, true, false, Option, none, some, List, [], ◌∷◌, arith}
use astro_uni_board.Errors.{FwError, calib_failed}
use astro_uni_board.Nv.Store.{Nv}
use astro_uni_board.Nv.Records.{Chip, Memory}
use astro_uni_board.Imu.{Float, Vec, no_calibration}
use astro_uni_board.Imu.Geometry.{Calibrated, refused, accepted, whole, calibrate}
use astro_uni_board.Imu.Driver.{
  Imu, ImuReads, Probe, start_answering, lose, imu_restart_filter, drop_captures, filtered, checked,
  sampled, imu_update, imu_begin, capture_g0, capture_g90, capture_g180, imu_cal_finish,
  on_calibrated,
}

-- What a save at the end of a calibration meets.
pub record SaveInput : Type 0 where
  pub chip : Chip
  pub reads : ℕ → Bool
  pub room : ℕ
  pub pad : ℕ
  pub mem : Memory
  pub nv : Nv

pub data ImuEvent : Type 0 where
  updates : ℕ → ImuReads → ImuEvent
  restarts takes0 takes90 takes180 : ImuEvent
  finishes : SaveInput → ImuEvent

abbrev pub starts_over : List ImuEvent → Bool
starts_over [] = false
starts_over (takes0 ∷ rest) = true
starts_over (e ∷ rest) = starts_over rest

module _ {F : Type 0} ⦃f : Float F⦄ where
  -- The static variables after a reset.
  abbrev pub imu_off : Imu F
  imu_off =
      let zero3 : Vec F = record { x = whole 0; y = whole 0; z = whole 0 } in
      record {
        cal = no_calibration;
        begun = false;
        answering = false;
        have_sample = false;
        filt = zero3;
        fresh_samples = 0;
        last_sample = 0;
        last_good = 0;
        last_probe = 0;
        last_check = 0;
        cap0_ok = false;
        cap90_ok = false;
        cap180_ok = false;
        cap0 = zero3;
        cap90 = zero3;
        cap180 = zero3;
      }

  abbrev pub finish : SaveInput → Imu F → Imu F × Memory × Nv × FwError
  finish s i = imu_cal_finish s.chip s.reads s.room s.pad s.mem s.nv i

  unfoldable pub happens : ImuEvent → Imu F → Imu F
  happens (updates now r) i = imu_update now r i
  happens restarts i = imu_restart_filter i
  happens takes0 i = (capture_g0 i).0
  happens takes90 i = (capture_g90 i).0
  happens takes180 i = (capture_g180 i).0
  happens (finishes s) i = (finish s i).0

  unfoldable pub happen : List ImuEvent → Imu F → Imu F
  happen [] i = i
  happen (e ∷ rest) i = happen rest (happens e i)

  -- A first capture is there only while the chip answers.
  record IsTied (i : Imu F) : Type 0 where
    tied : i.answering ≡ false → i.cap0_ok ≡ false

  lose-IsTied : (now : ℕ) (i : Imu F) → IsTied (lose now i)
  unfolding lose
  lose-IsTied now i = ground arith

  checked-IsTied :
      (now : ℕ) (o : Option ℕ) (p : Probe) (i : Imu F) → IsTied i → IsTied (checked now o p i)
  unfolding checked imu_restart_filter
  checked-IsTied now none p i t = ground (arith, lose-IsTied now i)
  checked-IsTied now (some v) p i t = ground arith

  sampled-IsTied :
      (now : ℕ) (o : Option (Vec (ℕ × ℕ))) (i : Imu F) → IsTied i → IsTied (sampled now o i)
  unfolding sampled filtered
  sampled-IsTied now none i t = ground (arith, lose-IsTied now i)
  sampled-IsTied now (some b) i t = ground arith

  update-IsTied : (now : ℕ) (r : ImuReads) (i : Imu F) → IsTied i → IsTied (imu_update now r i)
  unfolding imu_update start_answering
  update-IsTied now r i t =
      let c = checked-IsTied now r.power r.probe (record i { last_check = now }) (ground arith) in
      let s = sampled-IsTied now r.accel (record i { last_sample = now }) (ground arith) in
      ground (arith, c, s)

  done-IsTied :
      (k : Calibrated) (s : SaveInput) (i : Imu F)
      → IsTied i
      → IsTied (on_calibrated k s.chip s.reads s.room s.pad s.mem s.nv i).0
  done-IsTied (refused e) s i t = t
  done-IsTied (accepted c) s i t = ground arith

  happens-IsTied : (e : ImuEvent) (i : Imu F) → IsTied i → IsTied (happens e i)
  unfolding happens imu_restart_filter capture_g0 capture_g90 capture_g180 imu_cal_finish
  happens-IsTied (updates now r) i t = update-IsTied now r i t
  happens-IsTied restarts i t = ground arith
  happens-IsTied takes0 i t = ground arith
  happens-IsTied takes90 i t = ground arith
  happens-IsTied takes180 i t = ground arith
  happens-IsTied (finishes s) i t =
      let d = done-IsTied (calibrate i.cap0 i.cap90 i.cap180) s (drop_captures i) (ground arith) in
      ground (arith, d)

  happen-IsTied : (es : List ImuEvent) (i : Imu F) → IsTied i → IsTied (happen es i)
  unfolding happen
  happen-IsTied [] i t = t
  happen-IsTied (e ∷ rest) i t = happen-IsTied rest (happens e i) (happens-IsTied e i t)

  -- Only a new g0 capture brings the first capture back.
  checked-cap0 :
      (now : ℕ) (o : Option ℕ) (p : Probe) (i : Imu F)
      → i.cap0_ok ≡ false
      → (checked now o p i).cap0_ok ≡ false
  unfolding checked imu_restart_filter lose
  checked-cap0 now none p i h = ground arith
  checked-cap0 now (some v) p i h = ground arith

  sampled-cap0 :
      (now : ℕ) (o : Option (Vec (ℕ × ℕ))) (i : Imu F)
      → i.cap0_ok ≡ false
      → (sampled now o i).cap0_ok ≡ false
  unfolding sampled filtered lose
  sampled-cap0 now none i h = ground arith
  sampled-cap0 now (some b) i h = ground arith

  update-cap0 :
      (now : ℕ) (r : ImuReads) (i : Imu F)
      → i.cap0_ok ≡ false
      → (imu_update now r i).cap0_ok ≡ false
  unfolding imu_update start_answering
  update-cap0 now r i h =
      let c = checked-cap0 now r.power r.probe (record i { last_check = now }) h in
      let s = sampled-cap0 now r.accel (record i { last_sample = now }) h in ground (arith, c, s)

  happen-cap0 :
      (es : List ImuEvent) (i : Imu F)
      → i.cap0_ok ≡ false
      → starts_over es ≡ false
      → (happen es i).cap0_ok ≡ false
  unfolding happen happens imu_restart_filter capture_g90 capture_g180 imu_cal_finish
  happen-cap0 [] i h n = h
  happen-cap0 (updates now r ∷ rest) i h n =
      happen-cap0 rest (imu_update now r i) (update-cap0 now r i h) n
  happen-cap0 (restarts ∷ rest) i h n = happen-cap0 rest (imu_restart_filter i) h n
  happen-cap0 (takes0 ∷ rest) i h n = absurd (ground (arith, n))
  happen-cap0 (takes90 ∷ rest) i h n = happen-cap0 rest (capture_g90 i).0 (ground arith) n
  happen-cap0 (takes180 ∷ rest) i h n = happen-cap0 rest (capture_g180 i).0 (ground arith) n
  happen-cap0 (finishes s ∷ rest) i h n = happen-cap0 rest (finish s i).0 (ground arith) n

  begin-IsTied :
      (now : ℕ) (p : Probe) (reads : ℕ → Bool) (mem : Memory) (nv : Nv)
      → IsTied (imu_begin now p reads mem nv imu_off).0
  unfolding imu_begin start_answering lose
  begin-IsTied now p reads mem nv = ground arith

  -- Whatever happens after a start: once the chip is lost, a calibration ends with an error, and leaves the
  -- stored and the used calibration as they are, unless it starts over with a new g0 capture.
  pub lost_calibration_fails :
      (now : ℕ) (p : Probe) (reads : ℕ → Bool) (mem : Memory) (nv : Nv)
      (before after : List ImuEvent) (s : SaveInput)
      → let lost = happen before (imu_begin now p reads mem nv imu_off).0 in
        let i = happen after lost in
        lost.answering ≡ false
        → starts_over after ≡ false
        → finish s i ≡ (i, s.mem, s.nv, calib_failed)
  unfolding imu_cal_finish
  lost_calibration_fails now p reads mem nv before after s gone n =
      let start = (imu_begin now p reads mem nv imu_off).0 in
      let t = happen-IsTied before start (begin-IsTied now p reads mem nv) in
      let c = happen-cap0 after (happen before start) (t.tied gone) n in rw c refl
