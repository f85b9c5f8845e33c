-- ===== src/Focuser.antt =====
-- fw/src/focuser.cpp: the focuser on its axis.
pub mod Limits
pub mod Moves
pub mod Saves
pub mod Rest
use astro_uni_board.Base.{
  ℕ, suc, ◌+◌, ◌-◌, ◌*◌, ◌/◌, Bool, true, false, not, ◌&&◌, ◌||◌, ltb, leb, ◌==◌, if◌then◌else◌,
}
use astro_uni_board.Base.Int.{ℤ, pos, negsuc, neg, pos_part, ◌+ℤ◌, ◌-ℤ◌, ltb_ℤ, eqb_ℤ}
use astro_uni_board.Base.Word.{word, u32, sub32, int32}
use astro_uni_board.Errors.{FwError, fw_ok, bad_param, busy, motor_driver, is_ok}
use astro_uni_board.MoveGuard.{MoveGuardIn, move_guard, safe_jog_foc_steps}
use astro_uni_board.Settings.{AxisId, axis_foc, Settings, DriverConfig, FocuserSettings}
use astro_uni_board.Axis
use astro_uni_board.Axis.{
  move_to, set_position, just_stopped, set_speed, set_accel, set_reverse, set_idle_off,
}
use astro_uni_board.Calc.{times}
use astro_uni_board.Nv.Store.{SavedPositions, nv_mark_moving, nv_save_position, load_positions}
use astro_uni_board.Board.{Focuser, Board, Around, raise, put_nv, any_busy, view_of}

abbrev pub position_save_delay_ms : ℕ
position_save_delay_ms = 2000

-- C++ `/` rounds towards 0.
abbrev pub div_ℤ : ℤ → ℕ → ℤ
div_ℤ (pos n) d = pos (n / d)
div_ℤ (negsuc n) d = neg (suc n / d)

abbrev pub foc_usteps : Board → ℕ
foc_usteps b = b.settings.drv_foc.microsteps

unfoldable pub focuser_apply_settings : Board → Board
focuser_apply_settings b =
    let f = b.settings.foc in
    record b {
      axis =
          set_idle_off
            (set_reverse (set_accel (set_speed b.axis f.speed) f.accel) (not (f.reverse == 0)))
            b.settings.drv_foc.idle_off_s;
    }

-- The saved position, in the microsteps of the settings.
unfoldable pub boot_position : SavedPositions → ℕ → ℤ
boot_position sp usteps =
    if not (sp.foc_usteps == 0) && not (usteps == 0) && not (sp.foc_usteps == usteps)
    then int32 (div_ℤ (times sp.foc_pos usteps) sp.foc_usteps)
    else sp.foc_pos

unfoldable pub focuser_begin : Board → Board
focuser_begin b =
    let sp = load_positions b.nv.slot in
    focuser_apply_settings (record b {
      axis = set_position b.axis (boot_position sp (foc_usteps b));
      foc = record (b.foc) {
        unverified = not sp.foc_valid;
        last_dir = pos 0;
        move_dir = pos 0;
        save_pending = false;
      };
    })

-- The first test of `focuserUpdate`.
unfoldable pub note_stop : ℕ → Board → Board
note_stop now b =
    let (a, stopped) = just_stopped b.axis in
    let f = b.foc in
    if stopped
    then record b {
      axis = a;
      foc = record f {
        last_dir =
            if not (eqb_ℤ f.move_dir (pos 0)) && (a.lead == 0) then f.move_dir else f.last_dir;
        move_dir = pos 0;
        save_pending = true;
        idle_since = now;
      };
    }
    else record b { axis = a }

unfoldable pub saved_now : Around → Board → Board
saved_now w b =
    put_nv (record b { foc = record (b.foc) { save_pending = false } })
      (nv_save_position w.bus (foc_usteps b) axis_foc b.axis.position (not b.foc.unverified) b.nv)

-- The second test of `focuserUpdate`.
unfoldable pub save_when_due : Around → Board → Board
save_when_due w b =
    if b.foc.save_pending
      && not (Axis.busy b.axis)
      && leb position_save_delay_ms (sub32 w.now_ms b.foc.idle_since)
    then saved_now w b
    else b

unfoldable pub focuser_update : Around → Board → Board
focuser_update w b = save_when_due w (note_stop w.now_ms b)

-- Backlash is taken up where the direction changes.
unfoldable pub lead_of : Board → ℤ → ℕ
lead_of b dir =
    if not (eqb_ℤ b.foc.last_dir (pos 0)) && not (eqb_ℤ dir b.foc.last_dir)
    then b.settings.foc.backlash
    else 0

module _ (first_delay : ℕ → ℕ) where
  -- The end of `moveTo`, from the mark in the store on.
  unfoldable pub start_move : Around → ℤ → Board → Board × FwError
  start_move w goal b =
      let dir = if ltb_ℤ b.axis.position goal then pos 1 else negsuc 0 in
      let marked = put_nv b (nv_mark_moving w.bus (foc_usteps b) axis_foc b.nv) in
      let (a, ok) = move_to first_delay b.axis (view_of w b) goal (lead_of b dir) in
      if ok
      then (
        record marked { axis = a; foc = record (b.foc) { move_dir = dir; save_pending = false } },
        fw_ok,
      )
      else (record marked { axis = a }, busy)

  -- The static `moveTo`.
  unfoldable pub try_move : Around → ℤ → Bool → Board → Board × FwError
  try_move w goal absolute b =
      let g = move_guard (record {
        safe_mode = w.safe_mode;
        suspect = b.foc.unverified;
        guard_on = false;
        absolute = absolute;
        delta = goal -ℤ b.axis.position;
        jog_limit = safe_jog_foc_steps;
      }) in
      if ltb_ℤ goal (pos 0) || ltb_ℤ b.settings.foc.max_pos goal
      then (b, bad_param)
      else if any_busy w b
      then (b, busy)
      else if not (is_ok g)
      then (b, g)
      else if eqb_ℤ goal b.axis.position
      then (b, fw_ok)
      else if not (w.answering || w.applied) || not w.supply_ok
      then (raise motor_driver b, motor_driver)
      else start_move w goal b

  unfoldable pub focuser_move_to : Around → ℤ → Board → Board × FwError
  focuser_move_to w goal b = try_move w goal true b

  unfoldable pub focuser_move_by : Around → ℤ → Board → Board × FwError
  focuser_move_by w delta b =
      let t = b.axis.position +ℤ delta in
      if ltb_ℤ t (pos 0) || ltb_ℤ b.settings.foc.max_pos t
      then (b, bad_param)
      else try_move w t false b

unfoldable pub focuser_halt : Board → Board
focuser_halt b = record b { axis = Axis.halt b.axis }

unfoldable pub focuser_sync : Around → ℤ → Board → Board × FwError
focuser_sync w p b =
    if ltb_ℤ p (pos 0) || ltb_ℤ b.settings.foc.max_pos p
    then (b, bad_param)
    else if Axis.busy b.axis
    then (b, busy)
    else (
      put_nv
          (record b {
            axis = set_position b.axis p;
            foc = record (b.foc) { unverified = false; save_pending = false };
          })
          (nv_save_position w.bus (foc_usteps b) axis_foc p true b.nv),
      fw_ok,
    )

unfoldable pub focuser_target : Board → ℤ
focuser_target b = if Axis.busy b.axis then b.axis.target else negsuc 0

abbrev pub focuser_set_unverified : Board → Board
focuser_set_unverified b = record b { foc = record (b.foc) { unverified = true } }

unfoldable pub scale : ℤ → ℕ → ℕ → ℤ
scale v o n = div_ℤ (times v n) o

unfoldable pub clamp64 : ℤ → ℤ → ℤ → ℤ
clamp64 v lo hi = if ltb_ℤ v lo then lo else if ltb_ℤ hi v then hi else v

-- The new settings; the values are in 0..2^31-1, so that the conversion to uint32_t keeps them.
unfoldable pub rescaled : FocuserSettings → ℕ → ℕ → FocuserSettings
rescaled f o n = record f {
  max_pos = clamp64 (scale f.max_pos o n) (pos 1) (pos 10000000);
  speed = pos_part (clamp64 (scale (pos f.speed) o n) (pos 1) (pos 20000));
  accel = pos_part (clamp64 (scale (pos f.accel) o n) (pos 1) (pos 100000));
  backlash = pos_part (clamp64 (scale (pos f.backlash) o n) (pos 0) (pos 10000));
}

unfoldable pub focuser_rescale : ℕ → ℕ → ℕ → Board → Board
focuser_rescale now o n b =
    let f = rescaled b.settings.foc o n in
    let b' : Board = focuser_apply_settings (record b {
      settings = record (b.settings) { foc = f };
      axis = set_position b.axis (clamp64 (scale b.axis.position o n) (pos 0) f.max_pos);
    }) in
    if o == 0 || n == 0 || o == n || Axis.busy b.axis then b else record b' {
      foc = record (b.foc) { save_pending = true; idle_since = sub32 now position_save_delay_ms };
    }
