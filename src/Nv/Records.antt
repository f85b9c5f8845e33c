-- ===== src/Nv/Records.antt =====
-- The records of fw/src/nv_store.cpp, settings and the IMU calibration: a header and a payload, as the
-- bytes of the EEPROM. Which transfers over I2C succeed is an argument, by the address that they start at,
-- and so is what the chip makes of a chunk that it takes: it may be protected, or worn out.
use astro_uni_board.Base.{
  ℕ, zero, suc, ◌+◌, ◌-◌, ◌*◌, ◌/◌, ◌%◌, Bool, true, false, not, ◌&&◌, ◌||◌, Option, none, some,
  List, [], ◌∷◌, ◌++◌, length, take, drop, ltb, leb, ◌==◌, if◌then◌else◌,
}
use astro_uni_board.Nv.Slot.{crc16}

abbrev pub Memory : Type 0
Memory = ℕ → ℕ

-- The bytes from `a` on.
unfoldable pub cells : Memory → ℕ → ℕ → List ℕ
cells mem a zero = []
cells mem a (suc n) = mem a ∷ cells mem (a + 1) n

-- What a chip that stores the bytes it takes holds then.
unfoldable pub written : Memory → ℕ → List ℕ → Memory
written mem a [] = mem
written mem a (b ∷ bs) = written (λ i. if i == a then b else mem i) (a + 1) bs

-- The chip as a write meets it: which chunks it takes, and what it then holds.
pub record Chip : Type 0 where
  pub takes : ℕ → Bool
  pub keeps : ℕ → List ℕ → Memory → Memory

abbrev pub smaller : ℕ → ℕ → ℕ
smaller a b = if ltb b a then b else a

abbrev pub then_bytes : List ℕ → Option (List ℕ) → Option (List ℕ)
then_bytes bs none = none
then_bytes bs (some cs) = some (bs ++ cs)

-- The loop of `readBytes`; each pass takes a byte at least, so that fuel `n` is enough.
unfoldable pub read_loop : ℕ → (ℕ → Bool) → Memory → ℕ → ℕ → Option (List ℕ)
read_loop zero reads mem a n = if n == 0 then some [] else none
read_loop (suc fuel) reads mem a n =
    let len = smaller n 32 in
    let rest = read_loop fuel reads mem (a + len) (n - len) in
    if n == 0 then some [] else if not (reads a) then none else then_bytes (cells mem a len) rest

unfoldable pub read_bytes : (ℕ → Bool) → Memory → ℕ → ℕ → Option (List ℕ)
unfolding read_loop
read_bytes reads mem a n = read_loop n reads mem a n

-- The loop of `writeBytes`: a chunk ends where its page of 16 bytes does.
unfoldable pub write_loop : ℕ → Chip → Memory → ℕ → List ℕ → Memory × Bool
write_loop zero chip mem a bs = (mem, length bs == 0)
write_loop (suc fuel) chip mem a bs =
    let len = smaller (16 - a % 16) (length bs) in
    let rest = write_loop fuel chip (chip.keeps a (take len bs) mem) (a + len) (drop len bs) in
    if length bs == 0 then (mem, true) else if not (chip.takes a) then (mem, false) else rest

unfoldable pub write_bytes : Chip → Memory → ℕ → List ℕ → Memory × Bool
unfolding write_loop
write_bytes chip mem a bs = write_loop (length bs) chip mem a bs

pub record NvHeader : Type 0 where
  pub magic : ℕ
  pub version : ℕ
  pub reserved : ℕ
  pub size : ℕ  -- `length`
  pub crc : ℕ

-- The first six bytes, and all eight.
abbrev pub crc_part : NvHeader → List ℕ
crc_part h =
    h.magic % 256 ∷ h.magic / 256 ∷ h.version ∷ h.reserved ∷ h.size % 256 ∷ h.size / 256 ∷ []

unfoldable pub header_bytes : NvHeader → List ℕ
header_bytes h =
    h.magic % 256
    ∷ h.magic / 256
    ∷ h.version
    ∷ h.reserved
    ∷ h.size % 256
    ∷ h.size / 256
    ∷ h.crc % 256
    ∷ h.crc / 256
    ∷ []

unfoldable pub record_crc : NvHeader → List ℕ → ℕ
record_crc h payload = crc16 (crc16 0xFFFF (crc_part h)) payload

abbrev pub is_blank : List ℕ → Bool
is_blank [] = true
is_blank (b ∷ bs) = if b == 255 then is_blank bs else false

pub data LoadResult : Type 0 where
  load_blank load_bad : LoadResult
  load_ok : List ℕ → LoadResult

-- The record that is looked for.
pub record Wanted : Type 0 where
  pub addr : ℕ
  pub area : ℕ
  pub magic : ℕ
  pub version : ℕ
  pub defaults : List ℕ  -- what the caller has put into the struct

abbrev pub check_payload : NvHeader → List ℕ → Option (List ℕ) → LoadResult
check_payload h defaults none = load_bad
check_payload h defaults (some payload) =
    if record_crc h payload == h.crc then load_ok (payload ++ drop h.size defaults) else load_bad

-- The tests of a header that is not blank.
unfoldable pub check_header : (ℕ → Bool) → Memory → Wanted → NvHeader → LoadResult
unfolding read_bytes
check_header reads mem w h =
    let size = length w.defaults in
    if not (h.magic == w.magic)
    then load_blank
    else if h.version == 0 || ltb w.version h.version
    then load_bad
    else if h.size == 0 || ltb (w.area - 8) h.size
    then load_bad
    else if (if h.version == w.version then not (h.size == size) else leb size h.size)
    then load_bad
    else check_payload h w.defaults (read_bytes reads mem (w.addr + 8) h.size)

abbrev pub on_header : (ℕ → Bool) → Memory → Wanted → Option (List ℕ) → LoadResult
on_header reads mem w (some (a ∷ b ∷ v ∷ r ∷ l ∷ m ∷ c ∷ d ∷ [])) =
    let h : NvHeader = record {
      magic = b * 256 + a;
      version = v;
      reserved = r;
      size = m * 256 + l;
      crc = d * 256 + c;
    } in
    if is_blank (a ∷ b ∷ v ∷ r ∷ l ∷ m ∷ c ∷ d ∷ []) then load_blank else check_header reads mem w h
on_header reads mem w _ = load_bad

unfoldable pub load_record : (ℕ → Bool) → Memory → Wanted → LoadResult
unfolding check_header read_bytes
load_record reads mem w = on_header reads mem w (read_bytes reads mem w.addr 8)

-- The header of a save.
unfoldable pub header_for : ℕ → ℕ → List ℕ → NvHeader
unfolding record_crc
header_for magic version src =
    let h : NvHeader = record {
      magic = magic;
      version = version;
      reserved = 255;
      size = length src;
      crc = 0;
    } in
    record h { crc = record_crc h src }

abbrev pub same_bytes : List ℕ → List ℕ → Bool
same_bytes [] [] = true
same_bytes (a ∷ rest) (b ∷ bs) = if a == b then same_bytes rest bs else false
same_bytes _ _ = false

abbrev pub read_back : List ℕ → Option (List ℕ) → Bool
read_back bs none = false
read_back bs (some cs) = same_bytes bs cs

-- `saveRecord`: `room` is `sizeof(Settings)`, the payload that its buffer has room for.
unfoldable pub save_record : Chip → (ℕ → Bool) → ℕ → Memory → ℕ → ℕ → ℕ → List ℕ → Memory × Bool
unfolding write_bytes read_bytes header_for header_bytes
save_record chip reads room mem addr magic version src =
    let bs = header_bytes (header_for magic version src) ++ src in
    let (mem', ok) = write_bytes chip mem addr bs in
    if ltb room (length src)
    then (mem, false)
    else (mem', ok && read_back bs (read_bytes reads mem' addr (length bs)))
