-- ===== src/Nv/Store.antt =====
-- The operations on positions of fw/src/nv_store.cpp. Each takes what the I2C bus and the clock
-- answer during the call; a `true` beside the new state means `statusRaise(FW_ERR_EEPROM)`.
use astro_uni_board.Base.{
  ℕ, suc, ◌+◌, ◌-◌, ◌/◌, ◌%◌, ◌^◌, Bool, true, false, not, ◌&&◌, ◌||◌, Option, none, some, List,
  set, ltb, ◌==◌, if◌then◌else◌,
}
use astro_uni_board.Base.Int.{ℤ, pos, eqb_ℤ}
use astro_uni_board.Base.Word.{u32, sub32}
use astro_uni_board.Settings.{AxisId, axis_foc, axis_rot}
use astro_uni_board.Nv.Slot.{SlotFlags, PosSlot, with_crc}
use astro_uni_board.Nv.Ring.{Found, ring_slots, scan_pages}

pub record Bus : Type 0 where
  pub acks : Bool  -- the chip acknowledges its address
  pub takes : Bool  -- the chip takes a slot
  pub now : ℕ

pub record Nv : Type 0 where
  pub present : Bool  -- nvEepromAddress
  pub fault_missing : Bool
  pub fault_settings : Bool
  pub fault_imu : Bool
  pub fault_write : Bool
  pub fault_read : Bool
  pub last_write_ms : ℕ
  pub write_cycle : Bool
  pub slot : PosSlot  -- `pos`: the newest state
  pub next_slot : ℕ
  pub pos_pending : Bool
  pub ring : List PosSlot  -- the EEPROM itself

abbrev pub ready_timeout_ms : ℕ
ready_timeout_ms = 10

unfoldable pub nv_fault : Nv → Bool
nv_fault n = n.fault_missing || n.fault_settings || n.fault_imu || n.fault_write || n.fault_read

unfoldable pub ready_now : Bus → Nv → Nv × Bool
ready_now b n =
    if not n.write_cycle
    then (n, true)
    else if b.acks
    then (record n { write_cycle = false }, true)
    else if ltb ready_timeout_ms (sub32 b.now n.last_write_ms)
    then (record n { write_cycle = false; fault_write = true }, false)
    else (n, false)

-- The chip is ready: the slot is written, or stays pending.
unfoldable pub write_slot : Bus → Nv → Nv × Bool
write_slot b n =
    let s = with_crc n.slot in
    if b.takes
    then (
      record n {
        slot = s;
        ring = set n.ring n.next_slot s;
        next_slot = (n.next_slot + 1) % ring_slots;
        pos_pending = false;
        last_write_ms = b.now;
        write_cycle = true;
      },
      false,
    )
    else (
      record n { slot = s; fault_write = true; last_write_ms = b.now; write_cycle = true },
      not n.fault_write,
    )

unfoldable pub nv_update : Bus → Nv → Nv × Bool
unfolding ready_now write_slot
nv_update b n =
    if not n.pos_pending || not n.present
    then (n, false)
    else let (n', ready) = ready_now b n in if ready then write_slot b n' else (n', false)

-- log2(microsteps) + 1; `left` is how far the code may still grow.
usteps_loop : ℕ → ℕ → ℕ → ℕ
usteps_loop ℕ.zero usteps c = c
usteps_loop (suc left) usteps c =
    let rest = usteps_loop left (usteps / 2) (c + 1) in if ltb 1 usteps then rest else c

unfoldable pub usteps_code : ℕ → ℕ
unfolding usteps_loop
usteps_code usteps = usteps_loop 8 usteps 1

-- `usteps` is `settings.drv[AXIS_FOC].microsteps`.
unfoldable pub queue_position : Bus → ℕ → Nv → Nv × Bool
queue_position b usteps n = nv_update b (record n {
  slot = record (n.slot) { seq = u32 (n.slot.seq + 1); reserved = usteps_code usteps };
  pos_pending = true;
})

abbrev pub moving_bit : AxisId → SlotFlags → Bool
moving_bit axis_foc f = f.foc_moving
moving_bit axis_rot f = f.rot_moving

abbrev pub mark : AxisId → SlotFlags → SlotFlags
mark axis_foc f = record f { foc_moving = true }
mark axis_rot f = record f { rot_moving = true }

unfoldable pub nv_mark_moving : Bus → ℕ → AxisId → Nv → Nv × Bool
nv_mark_moving b usteps axis n =
    if moving_bit axis n.slot.flags
    then (n, false)
    else queue_position b usteps
        (record n { slot = record (n.slot) { flags = mark axis n.slot.flags } })

abbrev pub same_bool : Bool → Bool → Bool
same_bool true b = b
same_bool false b = not b

unfoldable pub same_flags : SlotFlags → SlotFlags → Bool
same_flags f g =
    same_bool f.foc_moving g.foc_moving
    && same_bool f.rot_moving g.rot_moving
    && same_bool f.foc_saved g.foc_saved
    && same_bool f.rot_saved g.rot_saved
    && same_bool f.foc_unverified g.foc_unverified
    && same_bool f.rot_unverified g.rot_unverified
    && same_bool f.bit6 g.bit6
    && same_bool f.bit7 g.bit7

abbrev pub saved_flags : AxisId → Bool → SlotFlags → SlotFlags
saved_flags axis_foc verified f = record f {
  foc_moving = false;
  foc_saved = true;
  foc_unverified = not verified;
}
saved_flags axis_rot verified f = record f {
  rot_moving = false;
  rot_saved = true;
  rot_unverified = not verified;
}

-- Nothing is written where the slot would say the same.
abbrev pub nothing_new : ℕ → AxisId → ℤ → Bool → PosSlot → Bool
nothing_new usteps axis_foc value verified s =
    same_flags (saved_flags axis_foc verified s.flags) s.flags
    && eqb_ℤ value s.foc_pos
    && (s.reserved == usteps_code usteps)
nothing_new usteps axis_rot value verified s =
    same_flags (saved_flags axis_rot verified s.flags) s.flags && eqb_ℤ value s.rot_cdeg

abbrev pub saved_slot : AxisId → ℤ → Bool → PosSlot → PosSlot
saved_slot axis_foc value verified s = record s {
  flags = saved_flags axis_foc verified s.flags;
  foc_pos = value;
}
saved_slot axis_rot value verified s = record s {
  flags = saved_flags axis_rot verified s.flags;
  rot_cdeg = value;
}

unfoldable pub nv_save_position : Bus → ℕ → AxisId → ℤ → Bool → Nv → Nv × Bool
nv_save_position b usteps axis value verified n =
    if nothing_new usteps axis value verified n.slot
    then (n, false)
    else queue_position b usteps (record n { slot = saved_slot axis value verified n.slot })

pub record SavedPositions : Type 0 where
  pub foc_valid : Bool
  pub foc_pos : ℤ
  pub foc_usteps : ℕ
  pub rot_valid : Bool
  pub rot_cdeg : ℤ

unfoldable pub load_positions : PosSlot → SavedPositions
load_positions s = record {
  foc_valid = s.foc_saved && not (s.foc_moving || s.foc_unverified);
  foc_pos = s.foc_pos;
  foc_usteps = if s.reserved == 0 then 0 else 2 ^ (s.reserved - 1);
  rot_valid = s.rot_saved && not (s.rot_moving || s.rot_unverified);
  rot_cdeg = s.rot_cdeg;
}

abbrev pub blank_slot : PosSlot
blank_slot = record {
  seq = 0;
  foc_pos = pos 0;
  rot_cdeg = pos 0;
  flags = record {
    foc_moving = false;
    rot_moving = false;
    foc_saved = false;
    rot_saved = false;
    foc_unverified = false;
    rot_unverified = false;
    bit6 = false;
    bit7 = false;
  };
  reserved = 0;
  crc = 0;
}

-- What `scanRing` leaves: a page that cannot be read keeps the cleared state.
abbrev pub scanned : Option Found → Nv → Nv
scanned none n = record n { fault_read = true }
scanned (some none) n = n
scanned (some (some (s, i))) n = record n { slot = s; next_slot = (i + 1) % ring_slots }

-- `nvBegin`: `found` tells whether the chip acknowledges at one of its addresses, `settings_bad`
-- whether the settings record was rejected, `reads` which pages can be read.
unfoldable pub nv_begin : Bool → Bool → (ℕ → Bool) → Nv → Nv
nv_begin found settings_bad reads n =
    let n' : Nv = record n {
      present = found;
      fault_missing = not found;
      fault_settings = found && settings_bad;
      fault_imu = false;
      fault_write = false;
      fault_read = false;
      slot = blank_slot;
      next_slot = 0;
      pos_pending = false;
      write_cycle = false;
    } in
    if found then scanned (scan_pages reads none 0 n.ring) n' else n'
