-- ===== src/Examples/Hardware.antt =====
-- The +12 V check and the backup registers at concrete values.
use astro_uni_board.Base.{◌*◌, ◌%◌, ◌<◌, ◌≡◌, ◌≢◌, ◌↔◌, refl, true, false, not, [], ◌∷◌, arith}
use astro_uni_board.Base.Int.{pos}
use astro_uni_board.Housekeeping.{Hk, Adc, total, hk_motor_supply_ok, supply_exact}
use astro_uni_board.Boot.{
  Backup, dfu_magic, firmware, dfu_check_at_boot, diag_boot, marks, notes_or, by_watchdog,
  firmware_run,
}
use astro_uni_board.Boot.Carried.{reset_carries, mark_after, note_after, entry_after}

-- The pin reads 1000 of 4095, and VDDA is 3300 mV: 8.8 V.
abbrev weak : Adc
weak = record { ref = λ i. 1500; temp = λ i. 1000; v12 = λ i. 1000 }

abbrev measured : Hk
measured = record { mcu_temp = pos 250; vdda = 3300; last_sample = 0; v12_low = false }

supply_exact_example :
    let (h', fine) = hk_motor_supply_ok true weak measured in
    ((fine ≡ false) ↔ (total 8 weak.v12 * 3300 < 819 * 8 * 4095)) × (h'.v12_low ≡ not fine)
supply_exact_example = supply_exact weak measured (λ i. omega arith) (omega arith) (omega arith)

weak_refuses : (hk_motor_supply_ok true weak measured).1 ≡ false
unfolding hk_motor_supply_ok
weak_refuses = refl

abbrev fresh_registers : Backup
fresh_registers = record { bkp0 = 0; bkp1 = 77; bkp2 = 5 }

-- The run stops in tmcUpdate, and the watchdog ends it.
reset_carries_example :
    let ts = marks 10 ∷ notes_or 4 ∷ marks 22 ∷ [] in
    let left = firmware_run 0 ts by_watchdog fresh_registers in
    let (next, entry) = dfu_check_at_boot left in
    let (after, diag) = diag_boot 0x20000000 next in
    (entry ≡ entry_after by_watchdog)
    × (next.bkp0 ≢ dfu_magic)
    × ((dfu_check_at_boot next).1 ≡ firmware)
    × (diag.last_mark ≡ mark_after 0 ts % 256)
    × (diag.last_note ≡ note_after 0 ts)
reset_carries_example =
    reset_carries 0 0x20000000 (marks 10 ∷ notes_or 4 ∷ marks 22 ∷ []) by_watchdog fresh_registers
      (λ e. absurd (omega (arith, e)))
