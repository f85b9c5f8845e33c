-- ===== src/Nv/Slot.antt =====
-- `PosSlot` of fw/src/nv_store.cpp, its bytes and its CRC.
use Prim.Native.Nat.{bit_and, bit_xor}
use astro_uni_board.Base.{
  ℕ, ◌+◌, ◌*◌, ◌/◌, ◌%◌, ◌<◌, arith, Bool, true, false, not, ◌&&◌, ◌||◌, List, [], ◌∷◌, ltb, ◌==◌,
  if◌then◌else◌,
}
use astro_uni_board.Base.Int.{ℤ}
use astro_uni_board.Base.Word.{sub32, pattern32}

-- The bits of the flag byte, the lowest first.
pub record SlotFlags : Type 0 where
  pub foc_moving : Bool
  pub rot_moving : Bool
  pub foc_saved : Bool
  pub rot_saved : Bool
  pub foc_unverified : Bool
  pub rot_unverified : Bool
  pub bit6 : Bool
  pub bit7 : Bool

pub record PosSlot : Type 0 where
  pub seq : ℕ
  pub foc_pos : ℤ
  pub rot_cdeg : ℤ
  pub flags : SlotFlags
  pub open flags use *
  pub reserved : ℕ
  pub crc : ℕ

abbrev bit : Bool → ℕ → ℕ
bit true n = n
bit false n = 0

flag_byte : SlotFlags → ℕ
flag_byte f =
    bit f.foc_moving 1
    + bit f.rot_moving 2
    + bit f.foc_saved 4
    + bit f.rot_saved 8
    + bit f.foc_unverified 16
    + bit f.rot_unverified 32
    + bit f.bit6 64
    + bit f.bit7 128

-- Little endian.
bytes32 : ℕ → List ℕ → List ℕ
bytes32 n rest = n % 256 ∷ (n / 256) % 256 ∷ (n / 65536) % 256 ∷ (n / 16777216) % 256 ∷ rest

-- The first 14 bytes of a slot.
slot_bytes : PosSlot → List ℕ
unfolding flag_byte bytes32
slot_bytes s = bytes32 s.seq (
    bytes32 (pattern32 s.foc_pos)
      (bytes32 (pattern32 s.rot_cdeg) (flag_byte s.flags ∷ s.reserved ∷ [])))

-- CRC-16/CCITT-FALSE.
crc_bit : ℕ → ℕ
crc_bit c = if bit_and c 0x8000 == 0 then c * 2 % 65536 else bit_xor (c * 2) 0x1021 % 65536

unfoldable pub crc16 : ℕ → List ℕ → ℕ
unfolding crc_bit
crc16 c [] = c
crc16 c (b ∷ bs) =
    crc16
      (crc_bit
        (crc_bit (crc_bit (crc_bit (crc_bit (crc_bit (crc_bit (crc_bit (bit_xor c (b * 256))))))))))
      bs

crc_bit-lt : (c : ℕ) → crc_bit c < 65536
unfolding crc_bit
crc_bit-lt c = ground arith

pub crc16-lt : (bytes : List ℕ) (c : ℕ) → c < 65536 → crc16 c bytes < 65536
unfolding crc16
crc16-lt [] c small = small
crc16-lt (b ∷ bs) c small = crc16-lt bs _ (crc_bit-lt _)

unfoldable pub slot_crc : PosSlot → ℕ
unfolding slot_bytes crc16
slot_crc s = crc16 0xFFFF (slot_bytes s)

-- A slot that the boot scan takes: blank bytes are 0xFF and fail the first test.
unfoldable pub is_valid : PosSlot → Bool
is_valid s = not (s.bit6 || s.bit7 || ltb 9 s.reserved || not (s.crc == slot_crc s))

-- `(int32_t)(a - b) > 0`
abbrev pub seq_after : ℕ → ℕ → Bool
seq_after a b = let d = sub32 a b in ltb 0 d && ltb d 2147483648

-- The CRC covers all fields but itself.
unfoldable pub with_crc : PosSlot → PosSlot
with_crc s = record s { crc = slot_crc s }
