-- ===== src/Boot.antt =====
-- fw/src/bootloader.cpp and diag.cpp: what the backup registers carry across a reset. A run of the
-- firmware is the marks and notes that it leaves and the reset that ends it.
pub mod Carried
use astro_uni_board.Base.{
  ℕ, ◌*◌, ◌/◌, ◌%◌, ◌^◌, Bool, true, false, not, List, [], ◌∷◌, ◌==◌, if◌then◌else◌,
}
use Prim.Native.Nat.{bit_or}

-- BKP0R to BKP2R of TAMP.
pub record Backup : Type 0 where
  pub bkp0 : ℕ
  pub bkp1 : ℕ
  pub bkp2 : ℕ

-- The static variables of diag.cpp.
pub record Diag : Type 0 where
  pub reset_flags : ℕ
  pub last_mark : ℕ
  pub last_note : ℕ

abbrev pub dfu_magic : ℕ
dfu_magic = 0xDF0B007B

-- Where a reset leads to.
pub data Entry : Type 0 where
  firmware system_bootloader : Entry

unfoldable pub dfu_check_at_boot : Backup → Backup × Entry
dfu_check_at_boot r =
    if not (r.bkp0 == dfu_magic) then (r, firmware) else (record r { bkp0 = 0 }, system_bootloader)

-- `diagBoot`, by what RCC_CSR holds.
unfoldable pub diag_boot : ℕ → Backup → Backup × Diag
diag_boot csr r = (
  record r { bkp1 = 0; bkp2 = 0 },
  record { reset_flags = csr / 2 ^ 24 * 2 ^ 24; last_mark = r.bkp1 % 256; last_note = r.bkp2 },
)

-- IWDGRSTF is bit 29.
unfoldable pub diag_watchdog_reset : Diag → Bool
diag_watchdog_reset d = d.reset_flags / 2 ^ 29 % 2 == 1

unfoldable pub diag_reset_flags : Diag → ℕ
diag_reset_flags d = d.reset_flags / 2 ^ 24

-- `diagMark`, `diagNote` and `diagNoteOr`, and the way out of a run.
pub data Trace : Type 0 where
  marks notes notes_or : ℕ → Trace

pub data Ending : Type 0 where
  reboots_to_dfu reboots_normal by_watchdog : Ending

unfoldable pub leave : Trace → Backup → Backup
leave (marks m) r = record r { bkp1 = m }
leave (notes v) r = record r { bkp2 = v }
leave (notes_or v) r = record r { bkp2 = bit_or r.bkp2 v }

unfoldable pub end_run : Ending → Backup → Backup
end_run reboots_to_dfu r = record r { bkp0 = dfu_magic }
end_run reboots_normal r = r
end_run by_watchdog r = r

-- A run of the firmware, from `diagBoot` on.
unfoldable pub traced : List Trace → Backup → Backup
traced [] r = r
traced (t ∷ rest) r = traced rest (leave t r)

unfoldable pub firmware_run : ℕ → List Trace → Ending → Backup → Backup
unfolding traced end_run diag_boot
firmware_run csr ts ending r = end_run ending (traced ts (diag_boot csr r).0)
