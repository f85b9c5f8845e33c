-- ===== src/Imu.antt =====
-- The IMU of the board: fw/src/imu_math.cpp and imu_mpu6000.cpp, and its calibration in the EEPROM. The
-- single-precision numbers are a type with the operations that the code calls; no law of theirs is used.
pub mod Geometry
pub mod Stored
pub mod Kept
pub mod Driver
pub mod Settling
pub mod Captures
pub mod Restart
use astro_uni_board.Base.{ℕ, Bool}
use astro_uni_board.Base.Int.{ℤ, pos}

-- `ratio a k` is the literal a / 10 ^ k, and `round` is lroundf.
pub record Float (F : Type 0) : Type 0 where
  pub add : F → F → F
  pub sub : F → F → F
  pub mul : F → F → F
  pub div : F → F → F
  pub sqrt : F → F
  pub abs : F → F
  pub acos : F → F
  pub atan2 : F → F → F
  pub lt : F → F → Bool
  pub le : F → F → Bool
  pub of_int : ℤ → F
  pub ratio : ℤ → ℕ → F
  pub round : F → ℤ

-- ImuV3 over floats, `int16_t[3]` over integers.
pub record Vec (A : Type 0) : Type 0 where
  pub x : A
  pub y : A
  pub z : A

pub record ImuCalibration : Type 0 where
  pub valid : ℕ
  pub g0 : Vec ℤ
  pub n : Vec ℤ
  pub c : Vec ℤ

abbrev zeros : Vec ℤ
zeros = record { x = pos 0; y = pos 0; z = pos 0 }

-- `ImuCalibration{}`
abbrev pub no_calibration : ImuCalibration
no_calibration = record { valid = 0; g0 = zeros; n = zeros; c = zeros }

module _ {F : Type 0} ⦃f : Float F⦄ where
  infixl 65 ◌⊕◌ ◌⊖◌
  infixl 70 ◌⊗◌ ◌⊘◌
  abbrev pub ◌⊕◌ : F → F → F
  a ⊕ b = f.add a b

  abbrev pub ◌⊖◌ : F → F → F
  a ⊖ b = f.sub a b

  abbrev pub ◌⊗◌ : F → F → F
  a ⊗ b = f.mul a b

  abbrev pub ◌⊘◌ : F → F → F
  a ⊘ b = f.div a b
