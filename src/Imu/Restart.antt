-- ===== src/Imu/Restart.antt =====
-- From imuCalFinish to the next imuBegin (fw/src/imu_mpu6000.cpp, imu_math.cpp and nv_store.cpp).
use astro_uni_board.Base.{
  ℕ, ◌≤◌, ◌≡◌, ◌≢◌, refl, sym, subst, ap, ◌∙◌, Bool, true, false, not, ◌||◌, some, arith,
  Bool-cases, inl, inr,
}
use astro_uni_board.Base.Int.{ℤ, pos, negsuc}
use astro_uni_board.Base.Word.{pattern16, of_pattern16}
use astro_uni_board.Errors.{FwError, fw_ok, is_ok}
use astro_uni_board.Nv.Store.{Nv}
use astro_uni_board.Nv.Records.{Memory}
use astro_uni_board.Imu.{Float, Vec, ImuCalibration}
use astro_uni_board.Imu.Geometry.{
  Calibrated, refused, accepted, whole, to_i16, rounded, calibration_of, refuse_if, calibrate,
  cal_valid,
}
use astro_uni_board.Imu.Stored.{nv_load_imu_cal, nv_save_imu_cal}
use astro_uni_board.Imu.Kept.{IsInt16, AreInt16, IsUsable, save_then_load_cal}
use astro_uni_board.Imu.Driver.{
  Imu, Probe, configure, start_answering, lose, drop_captures, imu_begin, imu_cal_finish,
  on_calibrated,
}
use astro_uni_board.Imu.Captures.{SaveInput, finish}

pattern16-lt : (v : ℤ) → pattern16 v ≤ 65535
pattern16-lt (pos n) = omega arith
pattern16-lt (negsuc n) = omega arith

of_pattern16-IsInt16 : (n : ℕ) → n ≤ 65535 → IsInt16 (of_pattern16 n)
of_pattern16-IsInt16 n h = ground (arith, h)

-- What is accepted is usable, and what is refused comes with an error.
record IsSound (k : Calibrated) : Type 0 where
  usable : (c : ImuCalibration) → k ≡ accepted c → IsUsable c
  failing : k ≢ refused fw_ok

refused_or :
    (b : Bool) (e : FwError) (x : Calibrated)
    → is_ok e ≡ false
    → IsSound x
    → IsSound (refuse_if b e x)
unfolding refuse_if
refused_or true e x n h = record {
  usable = λ c k. absurd (ground (arith, k));
  failing = λ k. ground (arith, k, n);
}
refused_or false e x n h = h

accepted-IsSound : (c : ImuCalibration) → IsUsable c → IsSound (accepted c)
accepted-IsSound c u = record {
  usable = λ d k. subst IsUsable (ground (arith, k)) u;
  failing = λ k. ground (arith, k);
}

module _ {F : Type 0} ⦃f : Float F⦄ where
  to_i16-IsInt16 : (v : F) → IsInt16 (to_i16 v)
  unfolding to_i16
  to_i16-IsInt16 v =
      let r = of_pattern16-IsInt16 (pattern16 (f.round v)) (pattern16-lt (f.round v)) in
      elim (Bool-cases (f.lt (whole 32767) v)) [
        | inl h ↦ rw h (omega arith)
        | inr h ↦ elim (Bool-cases (f.lt v (f.of_int (negsuc 32767)))) [
          | inl k ↦ rw (h, k) (omega arith)
          | inr k ↦ rw (h, k) r
        ]
      ]

  rounded-AreInt16 : (v : Vec F) → AreInt16 (rounded v)
  unfolding to_i16
  rounded-AreInt16 v = record {
    x_fits = to_i16-IsInt16 v.x;
    y_fits = to_i16-IsInt16 v.y;
    z_fits = to_i16-IsInt16 v.z;
  }

  calibration_of-IsUsable : (g n c : Vec F) → IsUsable (calibration_of g n c)
  unfolding calibration_of
  calibration_of-IsUsable g n c = record {
    is_valid = refl;
    g0_fits = rounded-AreInt16 g;
    n_fits = rounded-AreInt16 _;
    c_fits = rounded-AreInt16 c;
  }

  calibrate-IsSound : (a b d : Vec F) → IsSound (calibrate a b d)
  unfolding calibrate
  calibrate-IsSound a b d = refused_or _ _ _ refl (
      refused_or _ _ _ refl (
        refused_or _ _ _ refl (
          refused_or _ _ _ refl (
            refused_or _ _ _ refl (
              refused_or _ _ _ refl
                (refused_or _ _ _ refl (accepted-IsSound _ (calibration_of-IsUsable _ _ _))))))))

  -- What a calibration that succeeds leaves: it is in use, it fits its struct, and its save succeeded.
  done-IsUsable :
      (k : Calibrated) (s : SaveInput) (i i' : Imu F) (mem' : Memory) (nv' : Nv)
      → IsSound k
      → on_calibrated k s.chip s.reads s.room s.pad s.mem s.nv i ≡ (i', mem', nv', fw_ok)
      → IsUsable i'.cal
        × (nv_save_imu_cal s.chip s.reads s.room s.pad s.mem s.nv i'.cal ≡ (mem', nv', fw_ok))
  done-IsUsable (refused e) s i i' mem' nv' k h = absurd (k.failing (ap (λ p. refused p.3) h))
  done-IsUsable (accepted c) s i i' mem' nv' k h =
      let same : c ≡ i'.cal = ap (λ p. p.0.cal) h in
      let saved : nv_save_imu_cal s.chip s.reads s.room s.pad s.mem s.nv c ≡ (mem', nv', fw_ok) =
        ap (λ p. (p.1, p.2, p.3)) h in
      (
        subst IsUsable same (k.usable c refl),
        ap (nv_save_imu_cal s.chip s.reads s.room s.pad s.mem s.nv) (sym same) ∙ saved,
      )

  finish-IsUsable :
      (s : SaveInput) (i i' : Imu F) (mem' : Memory) (nv' : Nv)
      → finish s i ≡ (i', mem', nv', fw_ok)
      → IsUsable i'.cal
        × (nv_save_imu_cal s.chip s.reads s.room s.pad s.mem s.nv i'.cal ≡ (mem', nv', fw_ok))
  unfolding imu_cal_finish
  finish-IsUsable s i i' mem' nv' h =
      elim (Bool-cases (not i.cap0_ok || not i.cap90_ok || not i.cap180_ok)) [
        | inl missing ↦ absurd (ground (arith, missing, ap (λ p. p.3) h))
        | inr there ↦
            done-IsUsable (calibrate i.cap0 i.cap90 i.cap180) s (drop_captures i) i' mem' nv'
              (calibrate-IsSound i.cap0 i.cap90 i.cap180) (rw there at h)
      ]

  begin-cal :
      (now : ℕ) (p : Probe) (reads : ℕ → Bool) (mem : Memory) (nv : Nv) (i : Imu F)
      (c : ImuCalibration)
      → nv_load_imu_cal reads mem nv ≡ (nv, some c)
      → cal_valid F c ≡ true
      → (imu_begin now p reads mem nv i).0.cal ≡ c
  unfolding imu_begin start_answering lose
  begin-cal now p reads mem nv i c h v = elim (Bool-cases (configure p)) [
    | inl t ↦ rw (h, t, v) refl
    | inr t ↦ rw (h, t, v) refl
  ]

  -- A calibration that ends with FW_OK, whatever happened on the bus, is the one in use after every later
  -- start at which the EEPROM is found and its reads succeed, if it passes the plausibility test
  -- (imuMathCalValid) that a start makes.
  pub calibration_survives :
      (s : SaveInput) (i i' start : Imu F) (mem' : Memory) (nv' later : Nv) (now : ℕ) (p : Probe)
      (reads : ℕ → Bool)
      → finish s i ≡ (i', mem', nv', fw_ok)
      → ((a : ℕ) → reads a ≡ true)
      → later.present ≡ true
      → cal_valid F i'.cal ≡ true
      → (imu_begin now p reads mem' later start).0.cal ≡ i'.cal
  calibration_survives s i i' start mem' nv' later now p reads h fine here v =
      let d = finish-IsUsable s i i' mem' nv' h in
      begin-cal now p reads mem' later start i'.cal
        (save_then_load_cal reads s.chip s.reads s.room s.pad s.mem mem' s.nv nv' later i'.cal fine
          d.0 d.1 here)
        v
