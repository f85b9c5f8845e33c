-- ===== src/Examples/Records.antt =====
-- The records of fw/src/nv_store.cpp at a concrete payload.
use astro_uni_board.Base.{
  ℕ, ◌≡◌, refl, Bool, true, false, List, [], ◌∷◌, arith, ◌==◌, not, replicate,
}
use astro_uni_board.Nv.Records.{
  Chip, Memory, cells, written, read_loop, write_loop, read_bytes, write_bytes, Wanted, header_for,
  header_bytes, record_crc, load_record, load_ok, load_bad, load_blank, save_record,
}
use astro_uni_board.Nv.Slot.{crc16}
use astro_uni_board.Nv.Transfers.{IsSound}
use astro_uni_board.Nv.Saved.{CanHold, saved_loads, save_then_load}

abbrev erased_chip : Memory
erased_chip i = 255

-- The record of the IMU calibration, cut to three bytes.
abbrev imu_record : Wanted
imu_record = record {
  addr = 1024;
  area = 128;
  magic = 0x4955;
  version = 2;
  defaults = replicate 3 0;
}

abbrev imu_bytes : List ℕ
imu_bytes = 17 ∷ 4 ∷ 200 ∷ []

imu_record-CanHold : CanHold imu_record imu_bytes
imu_record-CanHold = record {
  not_empty = λ e. absurd (omega (arith, e));
  fits = omega arith;
  same_length = refl;
  versioned = λ e. absurd (omega (arith, e));
  not_erased = omega arith;
}

abbrev always : ℕ → Bool
always i = true

-- A transfer that starts at byte 1024 fails.
abbrev one_fails : ℕ → Bool
one_fails i = not (i == 1024)

abbrev pub good_chip : Chip
good_chip = record { takes = always; keeps = λ a bs mem. written mem a bs }

good_chip-IsSound : IsSound good_chip
good_chip-IsSound = record { taken = λ a. refl; kept = λ a bs mem. refl }

-- A chip that is protected acknowledges and stores nothing; the save reads back and fails.
abbrev protected : Chip
protected = record { takes = always; keeps = λ a bs mem. mem }

protected_fails : (save_record protected always 83 erased_chip 1024 0x4955 2 imu_bytes).1 ≡ false
unfolding save_record write_bytes write_loop read_bytes read_loop cells header_for header_bytes
    record_crc crc16
protected_fails = refl

abbrev imu_save : Memory × Bool
imu_save = save_record good_chip always 83 erased_chip 1024 0x4955 2 imu_bytes

imu_saved : imu_save ≡ (imu_save.0, true)
unfolding save_record write_bytes write_loop written read_bytes read_loop cells header_for
    header_bytes record_crc crc16
imu_saved = refl

-- A blank chip, and a header that cannot be read.
blank_loads : load_record always erased_chip imu_record ≡ load_blank
unfolding load_record read_bytes read_loop cells
blank_loads = refl

unread_is_bad : load_record one_fails erased_chip imu_record ≡ load_bad
unfolding load_record read_bytes read_loop cells
unread_is_bad = refl

saved_loads_example : load_record always imu_save.0 imu_record ≡ load_ok imu_bytes
saved_loads_example =
    saved_loads always (λ a. refl) good_chip always 83 erased_chip imu_save.0 imu_record imu_bytes
      imu_record-CanHold imu_saved

save_then_load_example :
    (imu_save.1 ≡ true) × (load_record always imu_save.0 imu_record ≡ load_ok imu_bytes)
save_then_load_example =
    save_then_load always (λ a. refl) good_chip 83 erased_chip imu_record imu_bytes
      good_chip-IsSound imu_record-CanHold (omega arith)
