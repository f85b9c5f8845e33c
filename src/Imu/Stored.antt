-- ===== src/Imu/Stored.antt =====
-- The IMU calibration in the EEPROM: nvLoadImuCal and nvSaveImuCal of fw/src/nv_store.cpp, with the
-- bytes of the struct ImuCalibration (nv_store.h): little-endian, with one byte of padding behind `valid`.
use astro_uni_board.Base.{
  ℕ, ◌+◌, ◌*◌, ◌/◌, ◌%◌, Bool, true, false, not, Option, none, some, List, [], ◌∷◌, ◌==◌,
  if◌then◌else◌,
}
use astro_uni_board.Base.Int.{ℤ}
use astro_uni_board.Base.Word.{pattern16, of_pattern16}
use astro_uni_board.Errors.{FwError, fw_ok, eeprom}
use astro_uni_board.Nv.Store.{Nv}
use astro_uni_board.Nv.Records.{
  Chip, Memory, LoadResult, load_blank, load_bad, load_ok, Wanted, load_record, save_record,
}
use astro_uni_board.Imu.{Vec, ImuCalibration, no_calibration}

abbrev pub bytes16 : ℤ → List ℕ → List ℕ
bytes16 v rest = pattern16 v % 256 ∷ pattern16 v / 256 ∷ rest

abbrev pub vec_bytes : Vec ℤ → List ℕ → List ℕ
vec_bytes v rest = bytes16 v.x (bytes16 v.y (bytes16 v.z rest))

-- `pad` is what the byte of padding holds.
unfoldable pub cal_bytes : ℕ → ImuCalibration → List ℕ
cal_bytes pad c = c.valid ∷ pad ∷ vec_bytes c.g0 (vec_bytes c.n (vec_bytes c.c []))

abbrev pub word_at : ℕ → ℕ → ℤ
word_at lo hi = of_pattern16 (hi * 256 + lo)

-- A list of another length is never read.
unfoldable pub cal_of_bytes : List ℕ → ImuCalibration
cal_of_bytes
      (v ∷ pad ∷ a ∷ b ∷ c ∷ d ∷ e ∷ f ∷ g ∷ h ∷ i ∷ j ∷ k ∷ l ∷ m ∷ n ∷ o ∷ p ∷ q ∷ r ∷ []) =
    record {
      valid = v;
      g0 = record { x = word_at a b; y = word_at c d; z = word_at e f };
      n = record { x = word_at g h; y = word_at i j; z = word_at k l };
      c = record { x = word_at m n; y = word_at o p; z = word_at q r };
    }
cal_of_bytes _ = no_calibration

-- NV_IMU_ADDR, NV_IMU_AREA, NV_MAGIC_IMU, NV_IMU_VERSION and `ImuCalibration c{}`.
unfoldable pub imu_wanted : Wanted
unfolding cal_bytes
imu_wanted = record {
  addr = 0x0400;
  area = 0x0080;
  magic = 0x4955;
  version = 2;
  defaults = cal_bytes 0 no_calibration;
}

abbrev pub on_loaded : LoadResult → Nv → Nv × Option ImuCalibration
on_loaded load_bad nv = (record nv { fault_imu = true }, none)
on_loaded load_blank nv = (nv, none)
on_loaded (load_ok bytes) nv =
    let c = cal_of_bytes bytes in (nv, if c.valid == 1 then some c else none)

-- `none` is the result false.
unfoldable pub nv_load_imu_cal : (ℕ → Bool) → Memory → Nv → Nv × Option ImuCalibration
unfolding cal_of_bytes load_record imu_wanted
nv_load_imu_cal reads mem nv =
    if not nv.present then (nv, none) else on_loaded (load_record reads mem imu_wanted) nv

-- `room` is sizeof(Settings), which a static_assert puts at sizeof(ImuCalibration) at least.
unfoldable pub nv_save_imu_cal :
    Chip → (ℕ → Bool) → ℕ → ℕ → Memory → Nv → ImuCalibration → Memory × Nv × FwError
unfolding save_record imu_wanted cal_bytes
nv_save_imu_cal chip reads room pad mem nv cal =
    let w = imu_wanted in
    let (mem', saved) =
      save_record chip reads room mem w.addr w.magic w.version (cal_bytes pad cal) in
    if not nv.present
    then (mem, nv, eeprom)
    else if not saved
    then (mem', record nv { fault_write = true }, eeprom)
    else (mem', record nv { fault_imu = false; fault_write = false }, fw_ok)
