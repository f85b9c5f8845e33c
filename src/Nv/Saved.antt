-- ===== src/Nv/Saved.antt =====
-- A record that was saved reads back (fw/src/nv_store.cpp).
use astro_uni_board.Base.{
  ℕ, zero, suc, ◌+◌, ◌-◌, ◌*◌, ◌/◌, ◌%◌, ◌≤◌, ◌<◌, ◌≡◌, ◌≢◌, refl, sym, ap, ◌∙◌, inl, inr, Bool,
  true, false, not, ◌&&◌, ◌||◌, Option, some, List, [], ◌∷◌, ◌++◌, length, take, drop, ltb, leb,
  ◌==◌, arith, if◌then◌else◌, Bool-cases,
}
use astro_uni_board.Nv.Records.{
  Chip, Memory, cells, written, read_bytes, write_bytes, NvHeader, header_bytes, record_crc,
  load_ok, Wanted, is_blank, check_payload, check_header, on_header, load_record, header_for,
  same_bytes, read_back, save_record,
}
use astro_uni_board.Nv.Transfers.{
  cells-written, cells-append, read_all, write_all, read_cases, IsSound,
}

same_bytes_refl : (bs : List ℕ) → same_bytes bs bs ≡ true
same_bytes_refl [] = refl
same_bytes_refl (b ∷ bs) = let e : (b == b) ≡ true = ground arith in rw (e, same_bytes_refl bs) refl

module _ (chip : Chip) (reads : ℕ → Bool) (sound : IsSound chip)
    (all_read : (a : ℕ) → reads a ≡ true) where
  -- What a save leaves, and that it reports success.
  saved_bytes :
      (mem : Memory) (addr magic version : ℕ) (src : List ℕ) (room : ℕ)
      → length src ≤ room
      → save_record chip reads room mem addr magic version src
        ≡ (written mem addr (header_bytes (header_for magic version src) ++ src), true)
  unfolding save_record write_bytes read_bytes
  saved_bytes mem addr magic version src room small =
      let t : ltb room (length src) ≡ false = ground (arith, small) in
      let bs = header_bytes (header_for magic version src) ++ src in
      let w = write_all chip sound (length bs) bs mem addr (omega arith) in
      let r =
        read_all reads all_read (length bs) (length bs) (written mem addr bs) addr (omega arith) in
      rw (t, w, r, cells-written bs mem addr, same_bytes_refl bs) refl

-- A 16-bit number comes back from its two bytes.
two_bytes : (n : ℕ) → n / 256 * 256 + n % 256 ≡ n
two_bytes n = omega arith

drop-all : (xs : List ℕ) (n : ℕ) → length xs ≤ n → drop n xs ≡ []
drop-all [] zero h = refl
drop-all [] (suc n) h = refl
drop-all (x ∷ xs) zero h = absurd (omega (arith, h))
drop-all (x ∷ xs) (suc n) h = drop-all xs n (omega (arith, h))

append-nil : (xs : List ℕ) → xs ++ [] ≡ xs
append-nil [] = refl
append-nil (x ∷ xs) = ap (λ ys. x ∷ ys) (append-nil xs)

payload_taken :
    (h : NvHeader) (defaults src : List ℕ) (o : Option (List ℕ))
    → o ≡ some src
    → h.crc ≡ record_crc h src
    → length defaults ≤ h.size
    → check_payload h defaults o ≡ load_ok src
payload_taken h defaults src o e c small =
    let same : (record_crc h src == h.crc) ≡ true = ground (arith, c) in
    rw (e, same, drop-all defaults h.size small, append-nil src) refl

-- The header is the one that is wanted, and the payload is what its CRC says.
accepted :
    (reads : ℕ → Bool) (mem : Memory) (w : Wanted) (h : NvHeader) (src : List ℕ)
    → h.magic ≡ w.magic
    → h.version ≡ w.version
    → h.size ≡ length src
    → h.crc ≡ record_crc h src
    → w.version ≢ 0
    → length src ≢ 0
    → length src ≤ w.area - 8
    → length w.defaults ≡ length src
    → read_bytes reads mem (w.addr + 8) h.size ≡ some src
    → check_header reads mem w h ≡ load_ok src
unfolding check_header
accepted reads mem w h src m v s c v0 s0 fits same read =
    let t1 : (h.magic == w.magic) ≡ true = ground (arith, m) in
    let t2 : (h.version == 0 || ltb w.version h.version) ≡ false = ground (arith, v, v0) in
    let t3 : (h.size == 0 || ltb (w.area - 8) h.size) ≡ false = ground (arith, s, s0, fits) in
    let t4 : (if h.version == w.version
          then not (h.size == length w.defaults)
          else leb (length w.defaults) h.size)
        ≡ false =
      ground (arith, v, s, same) in
    rw (t1, t2, t3, t4) (payload_taken h w.defaults src _ read c (omega (arith, s, same)))

-- What is asked of a save: the payload is not empty, has the length that the load expects and fits
-- the area, and the version is neither 0, which no load takes, nor that of an erased byte.
pub record CanHold (w : Wanted) (src : List ℕ) : Type 0 where
  pub not_empty : length src ≢ 0
  pub fits : length src ≤ w.area - 8
  pub same_length : length w.defaults ≡ length src
  pub versioned : w.version ≢ 0
  pub not_erased : w.version < 255

not_blank : (a b v : ℕ) (bs : List ℕ) → v < 255 → is_blank (a ∷ b ∷ v ∷ bs) ≡ false
not_blank a b v bs h = ground (arith, h)

same_bytes_eq : (bs cs : List ℕ) → same_bytes bs cs ≡ true → bs ≡ cs
same_bytes_eq [] [] e = refl
same_bytes_eq [] (c ∷ cs) e = absurd (ground (arith, e))
same_bytes_eq (b ∷ bs) [] e = absurd (ground (arith, e))
same_bytes_eq (b ∷ bs) (c ∷ cs) e = elim (Bool-cases (b == c)) [
  | inl t ↦
      let same : b ≡ c = ground (arith, t) in
      let rest : same_bytes bs cs ≡ true = ground (arith, e, t) in
      rw (same, same_bytes_eq bs cs rest) refl
  | inr t ↦ absurd (ground (arith, e, t))
]

read_back-cells :
    (reads : ℕ → Bool) (mem : Memory) (a : ℕ) (bs : List ℕ)
    → read_back bs (read_bytes reads mem a (length bs)) ≡ true
    → cells mem a (length bs) ≡ bs
unfolding read_bytes
read_back-cells reads mem a bs e = elim (read_cases (length bs) reads mem a (length bs)) [
  | inl r ↦ absurd (ground (arith, e, r))
  | inr r ↦ sym (same_bytes_eq bs _ (sym (ap (read_back bs) r) ∙ e))
]

kept_bytes :
    (reads : ℕ → Bool) (b ok : Bool) (mem left mem' : Memory) (a : ℕ) (bs : List ℕ)
    → let good = read_back bs (read_bytes reads left a (length bs)) in
      let result : Memory × Bool = if b then (mem, false) else (left, ok && good) in
      result ≡ (mem', true) → cells mem' a (length bs) ≡ bs
kept_bytes reads true ok mem left mem' a bs e = absurd (ground (arith, ap (λ p. p.1) e))
kept_bytes reads false false mem left mem' a bs e = absurd (ground (arith, ap (λ p. p.1) e))
kept_bytes reads false true mem left mem' a bs e =
    ap (λ m. cells m a (length bs)) (sym (ap (λ p. p.0) e))
    ∙ read_back-cells reads left a bs (ap (λ p. p.1) e)

-- A save that is reported as done has read its bytes back.
save-cells :
    (chip : Chip) (reads : ℕ → Bool) (room : ℕ) (mem mem' : Memory) (addr magic version : ℕ)
    (src : List ℕ)
    → save_record chip reads room mem addr magic version src ≡ (mem', true)
    → let bs = header_bytes (header_for magic version src) ++ src in
      cells mem' addr (length bs) ≡ bs
unfolding save_record
save-cells chip reads room mem mem' addr magic version src e =
    let bs = header_bytes (header_for magic version src) ++ src in
    let (left, ok) = write_bytes chip mem addr bs in
    kept_bytes reads (ltb room (length src)) ok mem left mem' addr bs e

module _ (reads : ℕ → Bool) (all_read : (a : ℕ) → reads a ≡ true) where
  header_reads :
      (mem : Memory) (addr : ℕ) (h : NvHeader) (src : List ℕ)
      → cells mem addr (length (header_bytes h ++ src)) ≡ header_bytes h ++ src
      → (read_bytes reads mem addr 8 ≡ some (header_bytes h))
        × (read_bytes reads mem (addr + 8) (length src) ≡ some src)
  unfolding read_bytes header_bytes cells
  header_reads mem addr h src e =
      let whole : 8 + length src ≡ length (header_bytes h ++ src) = omega arith in
      let both = sym (cells-append 8 (length src) mem addr) ∙ ap (cells mem addr) whole ∙ e in
      (
        read_all reads all_read 8 8 mem addr (omega arith) ∙ ap some (ap (take 8) both),
        read_all reads all_read (length src) (length src) mem (addr + 8) (omega arith)
            ∙ ap some (ap (drop 8) both),
      )

  -- The bytes of a saved header are read as that header.
  header_accepted :
      (mem : Memory) (w : Wanted) (src : List ℕ)
      → w.version < 255
      → on_header reads mem w (some (header_bytes (header_for w.magic w.version src)))
        ≡ check_header reads mem w (header_for w.magic w.version src)
  unfolding header_bytes header_for
  header_accepted mem w src v =
      let h = header_for w.magic w.version src in
      rw
        (
          not_blank (w.magic % 256) (w.magic / 256) w.version _ v,
          two_bytes w.magic,
          two_bytes (length src),
          two_bytes h.crc,
        )
        refl

  -- Whatever the save of a record finds on the bus, and whatever the chip makes of the bytes that it
  -- takes: when the save reports success, then from there on, while reads succeed, the record loads as exactly the payload that was saved. The payload is not empty,
  -- has the length that the load expects and fits the area, and the version is neither 0 nor that of an erased byte.
  pub saved_loads :
      (chip : Chip) (seen : ℕ → Bool) (room : ℕ) (mem mem' : Memory) (w : Wanted) (src : List ℕ)
      → CanHold w src
      → save_record chip seen room mem w.addr w.magic w.version src ≡ (mem', true)
      → load_record reads mem' w ≡ load_ok src
  unfolding load_record header_for record_crc
  saved_loads chip seen room mem mem' w src can e =
      let h = header_for w.magic w.version src in
      let r =
        header_reads mem' w.addr h src
          (save-cells chip seen room mem mem' w.addr w.magic w.version src e) in
      ap (on_header reads mem' w) r.0
      ∙ header_accepted mem' w src can.not_erased
      ∙ accepted reads mem' w h src refl refl refl refl can.versioned can.not_empty can.fits
          can.same_length r.1

  -- A save of a payload that its buffer has room for, while every transfer succeeds and the chip stores
  -- what it takes, reports success, and
  -- from then on the record loads as exactly the payload that was saved. The payload is not empty,
  -- has the length that the load expects and fits the area, and the version is neither 0 nor that of an erased byte.
  pub save_then_load :
      (chip : Chip) (room : ℕ) (mem : Memory) (w : Wanted) (src : List ℕ)
      → IsSound chip
      → CanHold w src
      → length src ≤ room
      → let (mem', ok) = save_record chip reads room mem w.addr w.magic w.version src in
        (ok ≡ true) × (load_record reads mem' w ≡ load_ok src)
  save_then_load chip room mem w src sound can small =
      let s = saved_bytes chip reads sound all_read mem w.addr w.magic w.version src room small in
      let mem' = written mem w.addr (header_bytes (header_for w.magic w.version src) ++ src) in
      (
        ap (λ p. p.1) s,
        ap (λ p. load_record reads p.0 w) s ∙ saved_loads chip reads room mem mem' w src can s,
      )
