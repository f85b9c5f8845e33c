-- ===== src/Imu/Settling.antt =====
-- What imuRestartFilter and imuSettled of fw/src/imu_mpu6000.cpp promise the rotator.
use astro_uni_board.Base.{
  ℕ, ◌+◌, ◌≤◌, ◌≡◌, ◌≢◌, true, Option, none, some, List, [], ◌∷◌, ◌==◌, arith, Bool-cases, inl, inr,
}
use astro_uni_board.Imu.{Float, Vec}
use astro_uni_board.Imu.Driver.{
  Imu, ImuReads, Probe, start_answering, lose, imu_restart_filter, imu_settled, reading, filtered,
  checked, sampled, imu_update,
}

-- The passes that read the accelerometer.
abbrev pub answered : Option (Vec (ℕ × ℕ)) → ℕ
answered none = 0
answered (some b) = 1

unfoldable pub readings : List (ℕ × ImuReads) → ℕ
readings [] = 0
readings ((now, r) ∷ rest) = answered r.accel + readings rest

module _ {F : Type 0} ⦃f : Float F⦄ where
  -- Passes of the main loop, each at its time and with its answers.
  unfoldable pub passes : List (ℕ × ImuReads) → Imu F → Imu F
  passes [] i = i
  passes ((now, r) ∷ rest) i = passes rest (imu_update now r i)

  -- Two states that differ in the filter only, and not even there once there is a sample.
  record Twins (i j : Imu F) : Type 0 where
    begun_eq : i.begun ≡ j.begun
    answering_eq : i.answering ≡ j.answering
    sample_eq : i.have_sample ≡ j.have_sample
    fresh_eq : i.fresh_samples ≡ j.fresh_samples
    last_sample_eq : i.last_sample ≡ j.last_sample
    last_good_eq : i.last_good ≡ j.last_good
    last_probe_eq : i.last_probe ≡ j.last_probe
    last_check_eq : i.last_check ≡ j.last_check
    filt_eq : i.fresh_samples ≢ 0 → i.filt ≡ j.filt

  lose-Twins : (now : ℕ) (i j : Imu F) → Twins i j → Twins (lose now i) (lose now j)
  unfolding lose
  lose-Twins now i j t = ground arith

  filtered-Twins : (s : Vec F) (i j : Imu F) → Twins i j → Twins (filtered s i) (filtered s j)
  unfolding filtered
  filtered-Twins s i j t = elim (Bool-cases (i.fresh_samples == 0)) [
    | inl none_yet ↦ ground (arith, t, none_yet)
    | inr some_yet ↦
        let counted : i.fresh_samples ≢ 0 = λ z. ground (arith, some_yet, z) in
        ground (arith, t, t.filt_eq counted)
  ]

  checked-Twins :
      (now : ℕ) (o : Option ℕ) (p : Probe) (i j : Imu F)
      → Twins i j
      → Twins (checked now o p i) (checked now o p j)
  unfolding checked imu_restart_filter
  checked-Twins now none p i j t = ground (arith, lose-Twins now i j t)
  checked-Twins now (some v) p i j t = ground arith

  sampled-Twins :
      (now : ℕ) (o : Option (Vec (ℕ × ℕ))) (i j : Imu F)
      → Twins i j
      → Twins (sampled now o i) (sampled now o j)
  unfolding sampled
  sampled-Twins now none i j t = ground (arith, lose-Twins now i j t)
  sampled-Twins now (some b) i j t =
      filtered-Twins (reading b) (record i { last_good = now }) (record j { last_good = now })
        (ground arith)

  update-Twins :
      (now : ℕ) (r : ImuReads) (i j : Imu F)
      → Twins i j
      → Twins (imu_update now r i) (imu_update now r j)
  unfolding imu_update start_answering
  update-Twins now r i j t =
      let c =
        checked-Twins now r.power r.probe (record i { last_check = now })
          (record j { last_check = now }) (ground arith) in
      let s =
        sampled-Twins now r.accel (record i { last_sample = now }) (record j { last_sample = now })
          (ground arith) in
      ground (arith, c, s)

  passes-Twins :
      (us : List (ℕ × ImuReads)) (i j : Imu F) → Twins i j → Twins (passes us i) (passes us j)
  unfolding passes
  passes-Twins [] i j t = t
  passes-Twins ((now, r) ∷ rest) i j t = passes-Twins rest _ _ (update-Twins now r i j t)

  sampled-fresh :
      (now : ℕ) (o : Option (Vec (ℕ × ℕ))) (i : Imu F)
      → (sampled now o i).fresh_samples ≤ answered o + i.fresh_samples
  unfolding sampled
  sampled-fresh now none i = ground arith
  sampled-fresh now (some b) i = ground arith

  checked-fresh :
      (now : ℕ) (o : Option ℕ) (p : Probe) (i : Imu F)
      → (checked now o p i).fresh_samples ≤ i.fresh_samples
  unfolding checked
  checked-fresh now none p i = ground arith
  checked-fresh now (some v) p i = ground arith

  update-fresh :
      (now : ℕ) (r : ImuReads) (i : Imu F)
      → (imu_update now r i).fresh_samples ≤ answered r.accel + i.fresh_samples
  unfolding imu_update
  update-fresh now r i = ground (
    arith,
    checked-fresh now r.power r.probe (record i { last_check = now }),
    sampled-fresh now r.accel (record i { last_sample = now }),
  )

  passes-fresh :
      (us : List (ℕ × ImuReads)) (i : Imu F)
      → (passes us i).fresh_samples ≤ readings us + i.fresh_samples
  unfolding passes readings
  passes-fresh [] i = omega arith
  passes-fresh ((now, r) ∷ rest) i =
      omega (arith, update-fresh now r i, passes-fresh rest (imu_update now r i))

  settled-Twins :
      (i j : Imu F)
      → Twins i j
      → imu_settled i ≡ true
      → (40 ≤ i.fresh_samples) × (imu_settled j ≡ true) × (i.filt ≡ j.filt)
  unfolding imu_settled
  settled-Twins i j t h =
      let enough : 40 ≤ i.fresh_samples = ground (arith, h) in
      let same : i.filt ≡ j.filt = t.filt_eq (λ z. omega (arith, z, enough)) in
      (enough, ground (arith, t, h), same)

  -- After imuRestartFilter and any passes, an IMU that has settled has taken at least 40 readings since
  -- then, and what was in the filter before has no part in the filtered value: with anything else in it
  -- the IMU has settled as well, at the same value.
  pub restart_forgets :
      (us : List (ℕ × ImuReads)) (i : Imu F) (before : Vec F)
      → let a = passes us (imu_restart_filter i) in
        let b = passes us (imu_restart_filter (record i { filt = before })) in
        imu_settled a ≡ true → (40 ≤ readings us) × (imu_settled b ≡ true) × (a.filt ≡ b.filt)
  unfolding imu_restart_filter
  restart_forgets us i before h =
      let start : Imu F = imu_restart_filter i in
      let other : Imu F = imu_restart_filter (record i { filt = before }) in
      let t = passes-Twins us start other (ground arith) in
      let n = passes-fresh us start in
      let s = settled-Twins (passes us start) (passes us other) t h in
      (omega (arith, n, s.0), s.1, s.2)
