-- ===== src/Examples/Imu.antt =====
-- The IMU at concrete values, in a fixed-point arithmetic.
use astro_uni_board.Base.{
  ℕ, zero, suc, ◌+◌, ◌-◌, ◌≤◌, ◌*◌, ◌/◌, ◌^◌, ◌≡◌, refl, Bool, true, false, none, some, List, [],
  ◌∷◌,
}
use astro_uni_board.Base.Int.{ℤ, pos, negsuc, neg, magnitude, ◌+ℤ◌, ◌-ℤ◌, ◌*ℤ◌, ltb_ℤ, leb_ℤ}
use astro_uni_board.Errors.{FwError, fw_ok, calib_failed}
use astro_uni_board.Nv.Slot.{crc16}
use astro_uni_board.Nv.Store.{Nv, blank_slot}
use astro_uni_board.Nv.Records.{
  Memory, cells, written, read_loop, write_loop, read_bytes, write_bytes, header_for, header_bytes,
  record_crc, save_record,
}
use astro_uni_board.Imu.{Float, Vec, ImuCalibration}
use astro_uni_board.Imu.Geometry.{refuse_if, calibrate, cal_valid}
use astro_uni_board.Imu.Stored.{cal_bytes, imu_wanted, nv_save_imu_cal}
use astro_uni_board.Imu.Driver.{
  Imu, ImuReads, Probe, imu_cal_finish, imu_begin, imu_update, imu_settled, imu_restart_filter,
}
use astro_uni_board.Imu.Settling.{passes, readings, restart_forgets}
use astro_uni_board.Imu.Captures.{
  SaveInput, takes90, imu_off, finish, happen, lost_calibration_fails,
}
use astro_uni_board.Imu.Restart.{calibration_survives}

-- A number is counted in units of 10 ^ -12.
abbrev unit : ℕ
unit = 10 ^ 12

-- a / b, towards 0.
abbrev over : ℤ → ℕ → ℤ
over (pos n) d = pos (n / d)
over (negsuc n) d = neg (suc n / d)

abbrev by_sign : ℤ → ℤ → ℤ
by_sign (pos n) q = q
by_sign (negsuc n) q = pos 0 -ℤ q

root_loop : ℕ → ℕ → ℕ → ℕ
root_loop zero n r = r
root_loop (suc fuel) n r = root_loop fuel n ((r + n / (r + 1)) / 2)

-- Every angle is a right one, and the arc cosine of 0.342 is 1.2217.
instance abbrev fixed_point : Float ℤ
unfolding root_loop ◌+ℤ◌ ◌-ℤ◌ ◌*ℤ◌
fixed_point = record {
  add = λ a b. a +ℤ b;
  sub = λ a b. a -ℤ b;
  mul = λ a b. over (a *ℤ b) unit;
  div = λ a b. by_sign b (over (a *ℤ pos unit) (magnitude b));
  sqrt = λ a. pos (root_loop 100 (magnitude a * unit) (magnitude a * unit));
  abs = λ a. pos (magnitude a);
  acos = λ a. pos 1221700000000;
  atan2 = λ a b. pos 1570796326795;
  lt = ltb_ℤ;
  le = leb_ℤ;
  of_int = λ v. v *ℤ pos unit;
  ratio = λ a k. over (a *ℤ pos unit) (10 ^ k);
  round = λ a. over a unit;
}

abbrev mg_vec : ℤ → ℤ → ℤ → Vec ℤ
unfolding ◌*ℤ◌
mg_vec x y z = record { x = x *ℤ pos unit; y = y *ℤ pos unit; z = z *ℤ pos unit }

abbrev three_captures : Imu ℤ
three_captures = record (imu_off {F = ℤ}) {
  begun = true;
  answering = true;
  have_sample = true;
  cap0_ok = true;
  cap90_ok = true;
  cap180_ok = true;
  cap0 = mg_vec (pos 1000) (pos 0) (pos 0);
  cap90 = mg_vec (pos 0) (pos 1000) (pos 0);
  cap180 = mg_vec (negsuc 999) (pos 0) (pos 0);
}

abbrev blank_nv : Nv
blank_nv = record {
  present = true;
  fault_missing = false;
  fault_settings = false;
  fault_imu = false;
  fault_write = false;
  fault_read = false;
  last_write_ms = 0;
  write_cycle = false;
  slot = blank_slot;
  next_slot = 0;
  pos_pending = false;
  ring = [];
}

abbrev always : ℕ → Bool
always a = true

abbrev fine_bus : SaveInput
fine_bus = record {
  chip = record { takes = always; keeps = λ a bs mem. written mem a bs };
  reads = always;
  room = 84;
  pad = 0;
  mem = λ a. 255;
  nv = blank_nv;
}

abbrev finished : Imu ℤ × Memory × Nv × FwError
finished = finish fine_bus three_captures

abbrev level_calibration : ImuCalibration
level_calibration = record {
  valid = 1;
  g0 = record { x = pos 1000; y = pos 0; z = pos 0 };
  n = record { x = pos 0; y = pos 0; z = pos 10000 };
  c = record { x = pos 0; y = pos 0; z = pos 0 };
}

calibrated : finished.0.cal ≡ level_calibration
unfolding fixed_point mg_vec imu_cal_finish calibrate refuse_if nv_save_imu_cal
calibrated = refl

saves : finished ≡ (finished.0, finished.1, finished.2, fw_ok)
unfolding fixed_point mg_vec imu_cal_finish calibrate refuse_if nv_save_imu_cal save_record
    write_bytes write_loop written read_bytes read_loop cells header_for header_bytes record_crc
    crc16 cal_bytes imu_wanted
saves = refl

is_plausible : cal_valid ℤ finished.0.cal ≡ true
unfolding fixed_point mg_vec imu_cal_finish calibrate refuse_if nv_save_imu_cal cal_valid
is_plausible = refl

abbrev silent : Probe
silent = record { who = none; takes = always; power = none }

calibration_survives_example :
    (imu_begin 0 silent always finished.1 blank_nv (imu_off {F = ℤ})).0.cal ≡ finished.0.cal
calibration_survives_example =
    calibration_survives fine_bus three_captures finished.0 imu_off finished.1 finished.2 blank_nv 0
      silent always saves (λ a. refl) refl is_plausible

-- Fifty passes, 20 ms apart, that read gravity.
abbrev gravity : ImuReads
gravity = record {
  power = some 8;
  accel = some (record { x = (64, 0); y = (0, 0); z = (0, 0) });
  probe = silent;
}

steady : ℕ → List (ℕ × ImuReads)
steady zero = []
steady (suc n) = (1000 - 20 * suc n, gravity) ∷ steady n

abbrev watching : Imu ℤ
watching = record three_captures { last_sample = 4294967000; last_check = 0 }

settles : imu_settled (passes (steady 45) (imu_restart_filter watching)) ≡ true
unfolding fixed_point mg_vec steady passes imu_settled imu_restart_filter imu_update
settles = refl

restart_forgets_example :
    let a = passes (steady 45) (imu_restart_filter watching) in
    let b =
      passes
        (steady 45)
        (imu_restart_filter (record watching { filt = mg_vec (pos 5) (pos 6) (pos 7) })) in
    (40 ≤ readings (steady 45)) × (imu_settled b ≡ true) × (a.filt ≡ b.filt)
restart_forgets_example =
    restart_forgets (steady 45) watching (mg_vec (pos 5) (pos 6) (pos 7)) settles

-- The chip does not answer at the start.
silent_start :
    (happen [] (imu_begin 0 silent always (λ a. 255) blank_nv (imu_off {F = ℤ})).0).answering
    ≡ false
unfolding happen imu_begin
silent_start = refl

lost_calibration_fails_example :
    let i =
      happen
        (takes90 ∷ [])
        (happen [] (imu_begin 0 silent always (λ a. 255) blank_nv (imu_off {F = ℤ})).0) in
    finish fine_bus i ≡ (i, fine_bus.mem, fine_bus.nv, calib_failed)
lost_calibration_fails_example =
    lost_calibration_fails 0 silent always (λ a. 255) blank_nv [] (takes90 ∷ []) fine_bus
      silent_start refl
