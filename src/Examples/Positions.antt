-- ===== src/Examples/Positions.antt =====
-- The position ring (fw/src/nv_store.cpp), from a blank chip on.
use astro_uni_board.Base.{
  ℕ, suc, zero, ◌≡◌, refl, inl, inr, true, false, [], ◌∷◌, arith, replicate, length-replicate,
}
use astro_uni_board.Base.Int.{pos, negsuc}
use astro_uni_board.Settings.{axis_foc, axis_rot}
use astro_uni_board.Nv.Slot.{PosSlot, is_valid, with_crc, crc16}
use astro_uni_board.Nv.Store.{
  Bus, Nv, queue_position, nv_mark_moving, nv_save_position, nv_update, load_positions, blank_slot,
  usteps_code,
}
use astro_uni_board.Nv.Reboot.{Aged, IsOk, IsUp, queue_position-IsOk, queue_position-IsStored}
use astro_uni_board.Nv.Positions.{Says, IsSettled, after_boot, save_then_boot, mark_then_boot}

-- The check value of CRC-16/CCITT-FALSE.
crc_check :
    crc16 0xFFFF (b'1' ∷ b'2' ∷ b'3' ∷ b'4' ∷ b'5' ∷ b'6' ∷ b'7' ∷ b'8' ∷ b'9' ∷ []) ≡ 0x29B1
unfolding crc16
crc_check = refl

abbrev erased_slot : PosSlot
erased_slot = record {
  seq = 4294967295;
  foc_pos = negsuc 0;
  rot_cdeg = negsuc 0;
  flags = record {
    foc_moving = true;
    rot_moving = true;
    foc_saved = true;
    rot_saved = true;
    foc_unverified = true;
    rot_unverified = true;
    bit6 = true;
    bit7 = true;
  };
  reserved = 255;
  crc = 65535;
}

abbrev pub bus_up : Bus
bus_up = record { acks = true; takes = true; now = 100 }

abbrev fresh : Nv
fresh = record {
  present = true;
  fault_missing = false;
  fault_settings = false;
  fault_imu = false;
  fault_write = false;
  fault_read = false;
  last_write_ms = 0;
  write_cycle = false;
  slot = blank_slot;
  next_slot = 0;
  pos_pending = false;
  ring = replicate 256 erased_slot;
}

erased_invalid : is_valid erased_slot ≡ false
unfolding is_valid
erased_invalid = refl

erased-Aged : (n : ℕ) → Aged 0 0 (replicate n erased_slot)
erased-Aged zero = tt
erased-Aged (suc n) = ((λ v. absurd (cc erased_invalid)), erased-Aged n)

fresh-IsOk : IsOk 0 fresh
fresh-IsOk = record {
  whole = length-replicate 256 erased_slot;
  in_ring = omega arith;
  seq_fits = omega arith;
  plain = (refl, refl);
  aged = erased-Aged 256;
}

fresh-IsUp : IsUp bus_up fresh
fresh-IsUp = record { has_chip = refl; free = inl refl; accepts = refl }

-- The first state written to a blank chip, with 4 microsteps.
unfoldable pub first_write : Nv
unfolding queue_position nv_update with_crc usteps_code
first_write = (queue_position bus_up 4 fresh).0

pub first_write-IsSettled : IsSettled bus_up first_write
unfolding first_write
first_write-IsSettled = record {
  age = 1;
  young = omega arith;
  ok = queue_position-IsOk bus_up 0 4 fresh fresh-IsOk (omega arith) fresh-IsUp;
  place = 0;
  stored = queue_position-IsStored bus_up 0 4 fresh fresh-IsOk (omega arith) fresh-IsUp;
  up = record { has_chip = refl; free = inr refl; accepts = refl };
}

save_then_boot_example :
    Says axis_foc true (pos 500) (load_positions first_write.slot) (
      after_boot false
        (λ _. true)
        (nv_save_position bus_up 4 axis_foc (pos 500) true first_write).0)
save_then_boot_example =
    save_then_boot bus_up 4 axis_foc (pos 500) true first_write false (λ _. true)
      first_write-IsSettled (λ _. refl)

mark_then_boot_example :
    Says axis_rot false
      (pos 0)
      (load_positions first_write.slot)
      (after_boot false (λ _. true) (nv_mark_moving bus_up 4 axis_rot first_write).0)
unfolding first_write load_positions
mark_then_boot_example =
    mark_then_boot bus_up 4 axis_rot first_write false (λ _. true) first_write-IsSettled (λ _. refl)
