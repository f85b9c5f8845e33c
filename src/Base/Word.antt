-- ===== src/Base/Word.antt =====
-- uint32_t arithmetic: the wrap-around is written out.
use astro_uni_board.Base.Int.{ℤ, pos, negsuc}
use astro_uni_board.Base.Tests.{ltb, if◌then◌else◌}
use Prim.Native.Nat.{ℕ, ◌+◌, ◌-◌, ◌%◌, ◌^◌}

abbrev pub word : ℕ
word = 2 ^ 32

abbrev pub u32 : ℕ → ℕ
u32 n = n % word

-- a - b; `-` on ℕ stops at 0, so the modulus is added first.
abbrev pub sub32 : ℕ → ℕ → ℕ
sub32 a b = (a + word - b) % word

-- The bit pattern of an int32_t.
abbrev pub pattern32 : ℤ → ℕ
pattern32 (pos n) = n % word
pattern32 (negsuc n) = word - 1 - n % word

-- The conversion `(int32_t)v`.
abbrev pub int32 : ℤ → ℤ
int32 v = if ltb (pattern32 v) (2 ^ 31) then pos (pattern32 v) else negsuc (word - 1 - pattern32 v)

-- The bit pattern of an int16_t, and the conversion `(int16_t)v`.
abbrev pub pattern16 : ℤ → ℕ
pattern16 (pos n) = n % 65536
pattern16 (negsuc n) = 65535 - n % 65536

abbrev pub of_pattern16 : ℕ → ℤ
of_pattern16 n = if ltb n 32768 then pos n else negsuc (65535 - n)

abbrev pub int16 : ℤ → ℤ
int16 v = of_pattern16 (pattern16 v)
