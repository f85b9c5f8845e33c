-- ===== src/Machine/Status.antt =====
-- fw/src/status.cpp: the snapshot that `:33#` reports, and the warnings of `:40#`.
use astro_uni_board.Base.{ℕ, ◌+◌, Bool, true, false, not, ◌||◌, ◌==◌, if◌then◌else◌}
use astro_uni_board.Base.Int.{ℤ, negsuc}
use astro_uni_board.Errors.{fw_ok, error_code}
use astro_uni_board.Axis
use astro_uni_board.Axis.{is_halting}
use astro_uni_board.Wrap.{wrap_reported}
use astro_uni_board.Nv.Store.{nv_fault}
use astro_uni_board.Focuser.{focuser_target}
use astro_uni_board.Rotator.{Seq, seq_none, rotator_busy, rotator_angle}
use astro_uni_board.Tmc.{tmc_warnings}
use astro_uni_board.Env.{is_sht_ok}
use astro_uni_board.Machine.{Machine, World, board_of, table_of}

pub data DevState : Type 0 where
  dev_init dev_idle dev_foc_moving dev_rot_moving dev_rot_homing dev_halting : DevState

pub record DeviceStatus : Type 0 where
  pub state : DevState
  pub foc_pos : ℤ
  pub foc_target : ℤ
  pub rot_cdeg : ℤ
  pub rot_target : ℤ
  pub error : ℕ
  pub flags : ℕ

abbrev seq_active : Seq → Bool
seq_active seq_none = false
seq_active _ = true

unfoldable pub dev_state : Machine → DevState
dev_state m =
    if not m.ready
    then dev_init
    else if seq_active m.rot.seq
    then dev_rot_homing
    else if is_halting m.foc_axis.motion || is_halting m.rot_axis.motion
    then dev_halting
    else if Axis.busy m.foc_axis
    then dev_foc_moving
    else if rotator_busy (table_of m)
    then dev_rot_moving
    else dev_idle

-- `hkWarnings`, HW_REV 21 included.
unfoldable pub hk_warnings : World → Machine → ℕ
hk_warnings w m = tmc_warnings m.tmc + (if w.crystal then 0 else 8) + (if w.v12_low then 16 else 0)

abbrev flag : Bool → ℕ → ℕ
flag true n = n
flag false n = 0

-- The bits of `StatusFlag`.
unfoldable pub status_flags : World → Machine → ℕ
status_flags w m =
    flag m.foc.unverified 1
    + flag m.rot.unverified 2
    + flag (nv_fault m.nv) 4
    + flag (not (hk_warnings w m == 0)) 8
    + flag m.rot.suspect 512
    + (if m.safe
        then 256 + 128
        else (flag (is_sht_ok m.env.onboard.reading.status) 16
            + flag (is_sht_ok m.env.external.reading.status) 32
            + flag w.imu_answering 64
            + flag (not w.imu_calibrated) 128))

unfoldable pub status_get : World → Machine → DeviceStatus
status_get w m = record {
  state = dev_state m;
  foc_pos = m.foc_axis.position;
  foc_target = focuser_target (board_of m);
  rot_cdeg = wrap_reported (rotator_angle (table_of m));
  rot_target = if m.rot.moving then wrap_reported m.rot.move_target else negsuc 0;
  error = error_code m.sticky;
  flags = status_flags w m;
}

-- `statusClearError`
abbrev pub status_clear_error : Machine → Machine
status_clear_error m = record m { sticky = fw_ok; tmc = record (m.tmc) { reset_latched = false } }
