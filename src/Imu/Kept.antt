-- ===== src/Imu/Kept.antt =====
-- A calibration comes back from the EEPROM as it was saved (fw/src/nv_store.cpp, nv_store.h).
use astro_uni_board.Base.{
  ℕ, ◌+◌, ◌-◌, ◌*◌, ◌/◌, ◌%◌, ◌≡◌, refl, ap, ◌∙◌, Bool, true, false, not, Option, some, List, ◌==◌,
  arith, if◌then◌else◌,
}
use astro_uni_board.Base.Int.{ℤ, pos, negsuc, ◌≤ℤ◌}
use astro_uni_board.Base.Word.{pattern16}
use astro_uni_board.Errors.{FwError, fw_ok, eeprom}
use astro_uni_board.Nv.Store.{Nv}
use astro_uni_board.Nv.Records.{Chip, Memory, load_ok, save_record}
use astro_uni_board.Nv.Saved.{CanHold, saved_loads}
use astro_uni_board.Imu.{Vec, ImuCalibration}
use astro_uni_board.Imu.Stored.{
  cal_bytes, cal_of_bytes, word_at, imu_wanted, on_loaded, nv_load_imu_cal, nv_save_imu_cal,
}

-- The range of an int16_t.
abbrev pub IsInt16 : ℤ → Type 0
IsInt16 v = (negsuc 32767 ≤ℤ v) × (v ≤ℤ pos 32767)

pub record AreInt16 (v : Vec ℤ) : Type 0 where
  pub x_fits : IsInt16 v.x
  pub y_fits : IsInt16 v.y
  pub z_fits : IsInt16 v.z

pub record IsUsable (c : ImuCalibration) : Type 0 where
  pub is_valid : c.valid ≡ 1
  pub g0_fits : AreInt16 c.g0
  pub n_fits : AreInt16 c.n
  pub c_fits : AreInt16 c.c

pub word_comes_back : (v : ℤ) → IsInt16 v → word_at (pattern16 v % 256) (pattern16 v / 256) ≡ v
word_comes_back (pos n) h =
    let whole : n % 65536 / 256 * 256 + n % 65536 % 256 ≡ n = omega (arith, h) in
    ground (arith, h, whole)
word_comes_back (negsuc n) h =
    let whole : (65535 - n % 65536) / 256 * 256 + (65535 - n % 65536) % 256 ≡ 65535 - n =
      omega (arith, h) in
    ground (arith, h, whole)

vec_comes_back :
    (v : Vec ℤ)
    → AreInt16 v
    → record {
      x = word_at (pattern16 v.x % 256) (pattern16 v.x / 256);
      y = word_at (pattern16 v.y % 256) (pattern16 v.y / 256);
      z = word_at (pattern16 v.z % 256) (pattern16 v.z / 256);
    }
      ≡ v
vec_comes_back v h =
    rw (word_comes_back v.x h.x_fits, word_comes_back v.y h.y_fits, word_comes_back v.z h.z_fits)
      refl

cal_comes_back : (pad : ℕ) (c : ImuCalibration) → IsUsable c → cal_of_bytes (cal_bytes pad c) ≡ c
unfolding cal_of_bytes cal_bytes
cal_comes_back pad c u =
    let g = vec_comes_back c.g0 u.g0_fits in
    let n = vec_comes_back c.n u.n_fits in let o = vec_comes_back c.c u.c_fits in rw (g, n, o) refl

saved_then :
    (present saved : Bool) (mem left mem' : Memory) (nv bad good nv' : Nv)
    → let result : Memory × Nv × FwError =
        if not present
        then (mem, nv, eeprom)
        else if not saved
        then (left, bad, eeprom)
        else (left, good, fw_ok) in
      result ≡ (mem', nv', fw_ok) → ◌≡◌ {A = Memory × Bool} (left, saved) (mem', true)
saved_then false saved mem left mem' nv bad good nv' e = absurd (ground (arith, ap (λ p. p.2) e))
saved_then true false mem left mem' nv bad good nv' e = absurd (ground (arith, ap (λ p. p.2) e))
saved_then true true mem left mem' nv bad good nv' e = ap (λ p. (p.0, true)) e

when_present :
    (b : Bool) (x y : Nv × Option ImuCalibration) → b ≡ true → (if not b then x else y) ≡ y
when_present b x y e = rw e refl

loaded_valid :
    (nv : Nv) (bytes : List ℕ) (c : ImuCalibration)
    → cal_of_bytes bytes ≡ c
    → c.valid ≡ 1
    → on_loaded (load_ok bytes) nv ≡ (nv, some c)
loaded_valid nv bytes c e v = let t : (c.valid == 1) ≡ true = ground (arith, v) in rw (e, t) refl

can_hold : (pad : ℕ) (c : ImuCalibration) → CanHold imu_wanted (cal_bytes pad c)
unfolding imu_wanted cal_bytes
can_hold pad c = record {
  not_empty = λ e. absurd (omega (arith, e));
  fits = omega arith;
  same_length = refl;
  versioned = λ e. absurd (omega (arith, e));
  not_erased = omega arith;
}

-- A calibration whose save is reported as done, whatever happened on the bus, is the one that a later
-- start loads while reads succeed, provided that it is marked valid and its numbers fit an int16_t.
pub save_then_load_cal :
    (reads : ℕ → Bool) (chip : Chip) (seen : ℕ → Bool) (room pad : ℕ) (mem mem' : Memory)
    (nv nv' later : Nv) (c : ImuCalibration)
    → ((a : ℕ) → reads a ≡ true)
    → IsUsable c
    → nv_save_imu_cal chip seen room pad mem nv c ≡ (mem', nv', fw_ok)
    → later.present ≡ true
    → nv_load_imu_cal reads mem' later ≡ (later, some c)
unfolding nv_load_imu_cal nv_save_imu_cal
save_then_load_cal reads chip seen room pad mem mem' nv nv' later c fine u e p =
    let w = imu_wanted in
    let (left, ok) = save_record chip seen room mem w.addr w.magic w.version (cal_bytes pad c) in
    let done = saved_then nv.present ok mem left mem' nv _ _ nv' e in
    let r =
      saved_loads reads fine chip seen room mem mem' w (cal_bytes pad c) (can_hold pad c) done in
    when_present later.present _ _ p
    ∙ ap (λ l. on_loaded l later) r
    ∙ loaded_valid later (cal_bytes pad c) c (cal_comes_back pad c u) u.is_valid
