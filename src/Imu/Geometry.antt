-- ===== src/Imu/Geometry.antt =====
-- fw/src/imu_math.cpp: the calibration from three captures, and roll and tilt from it.
use astro_uni_board.Base.{ℕ, Bool, true, not, ◌&&◌, ◌||◌, Option, none, some, ◌==◌, if◌then◌else◌}
use astro_uni_board.Base.Int.{ℤ, pos, negsuc, ltb_ℤ}
use astro_uni_board.Base.Word.{int16}
use astro_uni_board.Errors.{FwError, calib_failed, imu_vertical}
use astro_uni_board.Imu.{Float, Vec, ImuCalibration, ◌⊕◌, ◌⊖◌, ◌⊗◌, ◌⊘◌}

-- What `imuMathCalibrate` returns: FW_OK and what it fills, or an error.
pub data Calibrated : Type 0 where
  refused : FwError → Calibrated
  accepted : ImuCalibration → Calibrated

-- An early return of an error.
unfoldable pub refuse_if : Bool → FwError → Calibrated → Calibrated
refuse_if b e next = if b then refused e else next

abbrev pub clamp_cdeg : ℤ → ℤ
clamp_cdeg r =
    if ltb_ℤ (pos 18000) r then pos 18000 else if ltb_ℤ r (negsuc 17999) then negsuc 17999 else r

module _ {F : Type 0} ⦃f : Float F⦄ where
  abbrev pub whole : ℕ → F
  whole n = f.of_int (pos n)

  abbrev pub rad_to_cdeg : F
  rad_to_cdeg = whole 18000 ⊘ f.ratio (pos 314159265) 8

  unfoldable pub dot : Vec F → Vec F → F
  dot a b = a.x ⊗ b.x ⊕ a.y ⊗ b.y ⊕ a.z ⊗ b.z

  unfoldable pub cross : Vec F → Vec F → Vec F
  cross a b = record {
    x = a.y ⊗ b.z ⊖ a.z ⊗ b.y;
    y = a.z ⊗ b.x ⊖ a.x ⊗ b.z;
    z = a.x ⊗ b.y ⊖ a.y ⊗ b.x;
  }

  unfoldable pub norm : Vec F → F
  unfolding dot
  norm a = f.sqrt (dot a a)

  unfoldable pub sub3 : Vec F → Vec F → Vec F
  sub3 a b = record { x = a.x ⊖ b.x; y = a.y ⊖ b.y; z = a.z ⊖ b.z }

  abbrev pub over : Vec F → F → Vec F
  over a l = record { x = a.x ⊘ l; y = a.y ⊘ l; z = a.z ⊘ l }

  abbrev pub floats : Vec ℤ → Vec F
  floats v = record { x = f.of_int v.x; y = f.of_int v.y; z = f.of_int v.z }

  -- `calN`; `calG0` and `calC` are `floats` of their field.
  unfoldable pub cal_n : ImuCalibration → Vec F
  unfolding norm
  cal_n c = let n : Vec F = floats c.n in let l = norm n in if f.lt (whole 0) l then over n l else n

  unfoldable pub to_i16 : F → ℤ
  to_i16 v =
      if f.lt (whole 32767) v
      then pos 32767
      else if f.lt v (f.of_int (negsuc 32767))
      then negsuc 32767
      else int16 (f.round v)

  -- What is left of a vector in the plane normal to the unit vector n.
  unfoldable pub in_plane : Vec F → Vec F → Vec F
  unfolding dot
  in_plane n a =
      let an = dot a n in record { x = a.x ⊖ an ⊗ n.x; y = a.y ⊖ an ⊗ n.y; z = a.z ⊖ an ⊗ n.z }

  unfoldable pub angle_about : Vec F → Vec F → Vec F → F
  unfolding in_plane dot cross
  angle_about n a b =
      let ap = in_plane n a in let bp = in_plane n b in f.atan2 (dot n (cross ap bp)) (dot ap bp)

  unfoldable pub one_g : Vec F → Bool
  unfolding norm
  one_g v = let l = norm v in f.le (whole 700) l && f.le l (whole 1300)

  -- The circumcentre of three points, by the way from the first one to the others and the normal w.
  unfoldable pub centre : Vec F → Vec F → Vec F → Vec F → Vec F
  unfolding dot cross
  centre g0 d1 e w =
      let two_ww = whole 2 ⊗ dot w w in
      let t1 = cross e w in
      let t2 = cross w d1 in
      let k1 = dot d1 d1 ⊘ two_ww in
      let k2 = dot e e ⊘ two_ww in
      record {
        x = g0.x ⊕ k1 ⊗ t1.x ⊕ k2 ⊗ t2.x;
        y = g0.y ⊕ k1 ⊗ t1.y ⊕ k2 ⊗ t2.y;
        z = g0.z ⊕ k1 ⊗ t1.z ⊕ k2 ⊗ t2.z;
      }

  -- Less than 70 or more than 110 degrees.
  unfoldable pub is_off : F → Bool
  is_off s =
      let lo = f.acos (f.ratio (pos 3420) 4) in
      let hi = f.ratio (pos 314159265) 8 ⊖ lo in f.lt s lo || f.lt hi s

  abbrev pub rounded : Vec F → Vec ℤ
  unfolding to_i16
  rounded v = record { x = to_i16 v.x; y = to_i16 v.y; z = to_i16 v.z }

  unfoldable pub calibration_of : Vec F → Vec F → Vec F → ImuCalibration
  unfolding to_i16
  calibration_of g0 n cp = record {
    valid = 1;
    g0 = rounded g0;
    n = rounded (record { x = n.x ⊗ whole 10000; y = n.y ⊗ whole 10000; z = n.z ⊗ whole 10000 });
    c = rounded cp;
  }

  unfoldable pub calibrate : Vec F → Vec F → Vec F → Calibrated
  unfolding one_g norm dot cross sub3 in_plane centre angle_about is_off calibration_of
  calibrate g0 g90 g180 =
      let d1 = sub3 g90 g0 in
      let d2 = sub3 g180 g90 in
      let r = (norm d1 ⊕ norm d2) ⊗ f.ratio (pos 5) 1 ⊗ f.ratio (pos 70710678) 8 in
      let nr = cross d1 d2 in
      let ln = norm nr in
      let n = over nr ln in
      let e = sub3 g180 g0 in
      let w = cross d1 e in
      let cp = in_plane n (centre g0 d1 e w) in
      let steps =
        is_off (angle_about n (sub3 g0 cp) (sub3 g90 cp))
        || is_off (angle_about n (sub3 g90 cp) (sub3 g180 cp)) in
      refuse_if (not (one_g g0) || not (one_g g90) || not (one_g g180)) calib_failed (
        refuse_if (f.lt r (f.ratio (pos 3420) 4 ⊗ norm g0)) imu_vertical (
          refuse_if (f.le ln (whole 0)) calib_failed (
            refuse_if (f.le (f.ratio (pos 9397) 4) (f.abs (dot n g0) ⊘ norm g0)) imu_vertical (
              refuse_if (f.le (dot w w) (whole 0)) calib_failed (
                refuse_if (f.lt (whole 300) (norm cp)) calib_failed
                  (refuse_if steps calib_failed (accepted (calibration_of g0 n cp))))))))

  unfoldable pub near_vertical : ImuCalibration → Vec F → Bool
  unfolding sub3 norm dot cal_n
  near_vertical c raw =
      let g = sub3 raw (floats c.c) in
      let lg = norm g in
      if f.le lg (whole 0) then true else f.le (f.ratio (pos 9397) 4) (f.abs (dot (cal_n c) g) ⊘ lg)

  -- `none` is IMU_MATH_INVALID.
  unfoldable pub roll_cdeg : ImuCalibration → Vec F → Option ℤ
  unfolding near_vertical cal_n sub3 angle_about
  roll_cdeg c raw =
      let a = angle_about (cal_n c) (sub3 (floats c.g0) (floats c.c)) (sub3 raw (floats c.c)) in
      if near_vertical c raw then none else some (clamp_cdeg (f.round (a ⊗ rad_to_cdeg)))

  unfoldable pub tilt_cdeg : ImuCalibration → Vec F → Option ℤ
  unfolding sub3 norm cross dot cal_n
  tilt_cdeg c raw =
      let g = sub3 raw (floats c.c) in
      let n = cal_n c in
      let t = f.atan2 (norm (cross n g)) (dot n g) in
      if f.le (norm g) (whole 0) then none else some (f.round (t ⊗ rad_to_cdeg))

unfoldable pub cal_valid : (F : Type 0) ⦃f : Float F⦄ → ImuCalibration → Bool
unfolding norm
cal_valid F ⦃f⦄ c =
    let ln = norm (floats c.n) in
    let lg = norm (floats c.g0) in
    c.valid == 1
    && (f.le (whole 9000) ln
        && f.le ln (whole 11000)
        && f.le (whole 700) lg
        && f.le lg (whole 1300)
        && f.le (norm (floats c.c)) (whole 300))
