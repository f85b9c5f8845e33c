-- ===== src/Clock.antt =====
-- fw/src/clock_config.cpp: the clock tree. Which calls of the HAL succeed is an argument.
use astro_uni_board.Base.{
  ℕ, ◌*◌, ◌/◌, ◌≡◌, Bool, true, false, not, ◌&&◌, ◌||◌, Option, none, some, arith, if◌then◌else◌,
}

-- The oscillator that feeds the PLL, and its dividers.
pub record Pll : Type 0 where
  pub input_hz : ℕ
  pub m : ℕ
  pub n : ℕ
  pub p : ℕ
  pub q : ℕ
  pub r : ℕ

abbrev pub vco_hz : Pll → ℕ
vco_hz c = c.input_hz / c.m * c.n

pub data UsbClock : Type 0 where
  usb_from_pll usb_from_hsi48 : UsbClock

-- `trimmed`: HSI48 is corrected by the start-of-frame packets of the host.
pub record Clocks : Type 0 where
  pub pll : Pll
  pub usb : UsbClock
  pub trimmed : Bool
  pub crystal : Bool  -- hseRunning

-- HAL_RCC_OscConfig, HAL_RCC_ClockConfig and HAL_RCCEx_PeriphCLKConfig, for the crystal and after it.
pub record HalAnswers : Type 0 where
  pub hse_osc : Bool
  pub hse_buses : Bool
  pub hse_usb : Bool
  pub hsi_osc : Bool
  pub hsi_buses : Bool
  pub hsi_usb : Bool

abbrev pub hse_pll : Pll
hse_pll = record { input_hz = 8000000; m = 1; n = 24; p = 2; q = 4; r = 3 }

abbrev pub hsi_pll : Pll
hsi_pll = record { input_hz = 16000000; m = 1; n = 8; p = 2; q = 2; r = 2 }

unfoldable pub clock_from_hse : HalAnswers → Option Clocks
clock_from_hse h =
    if not h.hse_osc || not h.hse_buses
    then none
    else if h.hse_usb
    then some (record { pll = hse_pll; usb = usb_from_pll; trimmed = false; crystal = true })
    else none

-- `none` is Error_Handler, which does not return.
unfoldable pub clock_from_hsi : HalAnswers → Option Clocks
clock_from_hsi h =
    if not h.hsi_osc || not h.hsi_buses
    then none
    else if not h.hsi_usb
    then none
    else some (record { pll = hsi_pll; usb = usb_from_hsi48; trimmed = true; crystal = false })

abbrev pub or_else : Option Clocks → Option Clocks → Option Clocks
or_else none b = b
or_else (some c) b = some c

unfoldable pub system_clock_config : HalAnswers → Option Clocks
unfolding clock_from_hse clock_from_hsi
system_clock_config h = or_else (clock_from_hse h) (clock_from_hsi h)

abbrev pub usb_hz : Clocks → ℕ
usb_hz c = elim (c.usb) [ usb_from_pll ↦ vco_hz c.pll / c.pll.q | usb_from_hsi48 ↦ 48000000 ]

-- When the clock set-up returns, the core runs at 64 MHz and USB at 48 MHz, and the crystal is in use
-- exactly if every call for it succeeded; without it, USB has the HSI48 clock, which is trimmed.
pub clocks_right :
    (h : HalAnswers) (c : Clocks)
    → system_clock_config h ≡ some c
    → (vco_hz c.pll / c.pll.r ≡ 64000000)
      × (usb_hz c ≡ 48000000)
      × (c.trimmed ≡ not c.crystal)
      × (c.crystal ≡ (h.hse_osc && (h.hse_buses && h.hse_usb)))
unfolding system_clock_config clock_from_hse clock_from_hsi
clocks_right h c e = ground (arith, e)
