-- ===== src/Housekeeping.antt =====
-- fw/src/housekeeping.cpp: the die temperature, VDDA and the +12 V check, from the ADC. What a conversion
-- reads is an argument, and so are the factory calibration and the revision of the board. The sums and
-- products of the source are of 32 bits.
use astro_uni_board.Base.{
  ℕ, zero, suc, ◌+◌, ◌*◌, ◌/◌, ◌%◌, ◌≤◌, ◌<◌, ◌≡◌, ◌↔◌, refl, Bool, true, false, not, ltb, ◌==◌,
  arith, if◌then◌else◌,
}
use astro_uni_board.Base.Int.{ℤ, pos, negsuc, neg, ◌+ℤ◌, ◌-ℤ◌, ◌*ℤ◌}
use astro_uni_board.Base.Word.{u32, sub32, int16}

pub record Hk : Type 0 where
  pub mcu_temp : ℤ
  pub vdda : ℕ
  pub last_sample : ℕ
  pub v12_low : Bool

-- The conversions of each channel, in their order.
pub record Adc : Type 0 where
  pub ref : ℕ → ℕ
  pub temp : ℕ → ℕ
  pub v12 : ℕ → ℕ

-- What the chip maker has measured, and at which temperatures.
pub record Factory : Type 0 where
  pub vrefint_cal : ℕ
  pub ts_cal1 : ℕ
  pub ts_cal2 : ℕ
  pub cal1_temp : ℤ
  pub cal2_temp : ℤ

-- The sum of the first n conversions.
unfoldable pub summed : ℕ → (ℕ → ℕ) → ℕ
summed zero read = 0
summed (suc n) read = u32 (summed n read + read n)

-- +12 V in mV.
unfoldable pub v12_mv : Adc → Hk → ℕ
unfolding summed
v12_mv adc h =
    let va = if h.vdda == 0 then 3300 else h.vdda in
    u32 (u32 (summed 8 adc.v12 * va) / 8 / 4095 * 11)

unfoldable pub hk_motor_supply_ok : Bool → Adc → Hk → Hk × Bool
unfolding v12_mv
hk_motor_supply_ok rev21 adc h =
    let low = ltb (v12_mv adc h) 9000 in
    if rev21 then (record h { v12_low = low }, not low) else (h, true)

-- a / b of the source, towards 0.
abbrev quot : ℤ → ℤ → ℤ
quot (pos a) (pos b) = pos (a / b)
quot (pos a) (negsuc b) = neg (a / suc b)
quot (negsuc a) (pos b) = neg (suc a / b)
quot (negsuc a) (negsuc b) = pos (suc a / suc b)

unfoldable pub vdda_of : ℕ → Factory → ℕ
vdda_of ref f = u32 (u32 (f.vrefint_cal * 3000) * 16) / ref % 65536

-- The temperature in tenths of a degree, from the sum of its conversions.
unfoldable pub temp_of : ℕ → ℕ → Factory → ℤ
unfolding ◌+ℤ◌ ◌-ℤ◌ ◌*ℤ◌
temp_of raw vdda f =
    let ts = pos (u32 (raw * vdda) / 3000 / 16) in
    int16 (
      quot ((ts -ℤ pos f.ts_cal1) *ℤ (f.cal2_temp -ℤ f.cal1_temp) *ℤ pos 10)
        (pos f.ts_cal2 -ℤ pos f.ts_cal1)
      +ℤ f.cal1_temp *ℤ pos 10)

unfoldable pub sample_all : Bool → Adc → Factory → Hk → Hk
unfolding summed vdda_of temp_of hk_motor_supply_ok
sample_all rev21 adc f h =
    let ref = summed 16 adc.ref in
    let vdda = vdda_of ref f in
    let t = temp_of (summed 16 adc.temp) vdda f in
    let h' : Hk = record h {
      vdda = vdda;
      mcu_temp = if f.ts_cal2 == f.ts_cal1 then h.mcu_temp else t;
    } in
    if ref == 0 then h else (hk_motor_supply_ok rev21 adc h').0

abbrev pub hk_interval_ms : ℕ
hk_interval_ms = 1500

unfoldable pub hk_begin : Bool → ℕ → Adc → Factory → Hk → Hk
unfolding sample_all
hk_begin rev21 now adc f h = record (sample_all rev21 adc f h) { last_sample = now }

unfoldable pub hk_update : Bool → Bool → ℕ → Adc → Factory → Hk → Hk
unfolding sample_all
hk_update rev21 any_busy now adc f h =
    if any_busy
    then h
    else if ltb (sub32 now h.last_sample) hk_interval_ms
    then h
    else sample_all rev21 adc f (record h { last_sample = now })

-- The sum itself.
pub total : ℕ → (ℕ → ℕ) → ℕ
total zero read = 0
total (suc n) read = total n read + read n

total-le : (n : ℕ) (read : ℕ → ℕ) → ((i : ℕ) → read i ≤ 4095) → total n read ≤ n * 4095
unfolding total
total-le zero read h = omega arith
total-le (suc n) read h = grind (arith, total-le n read h, h n)

summed-total :
    (n : ℕ) (read : ℕ → ℕ) → ((i : ℕ) → read i ≤ 4095) → n ≤ 16 → summed n read ≡ total n read
unfolding summed total
summed-total zero read h k = refl
summed-total (suc n) read h k =
    omega (arith, summed-total n read h (omega (arith, k)), total-le n read h, h n, k)

product_bound : (a b c d : ℕ) → a ≤ c → b ≤ d → a * b ≤ c * d
product_bound a b c d p q = grind arith

ltb_congr : (a b c d : ℕ) → (a < b) ↔ (c < d) → ltb a b ≡ ltb c d
ltb_congr a b c d h = ground (arith, h)

judged :
    (p : ℕ) → p ≤ 8 * 4095 * 65535 → ltb (u32 (u32 p / 8 / 4095 * 11)) 9000 ≡ ltb p (819 * 8 * 4095)
judged p h =
    let e : u32 (u32 p / 8 / 4095 * 11) ≡ p / 8 / 4095 * 11 = omega (arith, h) in
    let whole : (p / 8 / 4095 * 11 < 9000) ↔ (p < 819 * 8 * 4095) =
      (λ k. omega (arith, k), λ k. omega (arith, k)) in
    rw e (ltb_congr (p / 8 / 4095 * 11) 9000 p (819 * 8 * 4095) whole)

not-false_iff : (b : Bool) (a c : ℕ) → b ≡ ltb a c → (not b ≡ false) ↔ (a < c)
not-false_iff b a c e = (λ h. ground (arith, e, h), λ h. ground (arith, e, h))

-- The pin reads +12 V divided by 11 (R33 and R34). On a board of revision 2.1, with 12-bit
-- conversions and VDDA measured, no sum or product of the check wraps: the check fails, and the supply
-- is marked as low, exactly if eight conversions say less than 819 mV on the pin, on average. That is
-- less than 9009 mV: the millivolts of the pin are cut off before they are multiplied by 11.
pub supply_exact :
    (adc : Adc) (h : Hk)
    → ((i : ℕ) → adc.v12 i ≤ 4095)
    → 1 ≤ h.vdda
    → h.vdda < 65536
    → let (h', fine) = hk_motor_supply_ok true adc h in
      ((fine ≡ false) ↔ (total 8 adc.v12 * h.vdda < 819 * 8 * 4095)) × (h'.v12_low ≡ not fine)
unfolding hk_motor_supply_ok v12_mv
supply_exact adc h narrow measured small =
    let s = summed-total 8 adc.v12 narrow (omega arith) in
    let t = total-le 8 adc.v12 narrow in
    let p = product_bound (total 8 adc.v12) h.vdda (8 * 4095) 65535 t (omega (arith, small)) in
    let va : (if h.vdda == 0 then 3300 else h.vdda) ≡ h.vdda = ground (arith, measured) in
    let e = judged (total 8 adc.v12 * h.vdda) p in
    rw (va, s) (not-false_iff _ (total 8 adc.v12 * h.vdda) (819 * 8 * 4095) e, ground arith)
