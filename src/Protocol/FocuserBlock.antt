-- ===== src/Protocol/FocuserBlock.antt =====
-- fw/src/protocol_focuser.cpp: the commands 50 to 69.
use astro_uni_board.Base.{ℕ, ◌&&◌, Option, none, some, ◌==◌, if◌then◌else◌}
use astro_uni_board.Base.Int.{ℤ, pos, negsuc, pos_part, ltb_ℤ}
use astro_uni_board.Base.Word.{int32}
use astro_uni_board.Errors.{FwError, bad_param, busy, unknown_cmd}
use astro_uni_board.Settings.{FocuserSettings}
use astro_uni_board.Axis
use astro_uni_board.Board.{Board, Around}
use astro_uni_board.Focuser.{
  focuser_apply_settings, focuser_move_to, focuser_move_by, focuser_halt, focuser_sync,
  focuser_target,
}
use astro_uni_board.Protocol.{Text, Reply, ok, error, int, reply_of, one_value, no_value}

abbrev pub int32_min : ℤ
int32_min = negsuc 2147483647

abbrev pub int32_top : ℤ
int32_top = pos 2147483647

abbrev pub with_foc : Board → FocuserSettings → Board
with_foc b f = record b { settings = record (b.settings) { foc = f } }

-- A getter, and a setter of one value.
unfoldable pub getter : Text → ℤ → Board → Board × Reply
getter params v b = if no_value params then (b, int v) else (b, error bad_param)

abbrev pub setter_of : Option ℤ → (ℤ → Board × Reply) → Board → Board × Reply
setter_of none act b = (b, error bad_param)
setter_of (some v) act b = act v

unfoldable pub setter : Text → ℤ → ℤ → (ℤ → Board × Reply) → Board → Board × Reply
setter params lo hi act b = setter_of (one_value params lo hi) act b

abbrev pub replied : Board × FwError → Board × Reply
replied (b, e) = (b, reply_of e)

-- `:55`: not below where the focuser is, or is going.
unfoldable pub set_max : Board → ℤ → Board × Reply
set_max b v =
    let floor =
      if Axis.busy b.axis && ltb_ℤ b.axis.position (focuser_target b)
      then focuser_target b
      else b.axis.position in
    if ltb_ℤ v floor
    then (b, error bad_param)
    else (with_foc b (record (b.settings.foc) { max_pos = v }), ok)

-- `:59`, `:61`, `:63`, `:65` and `:67`
unfoldable pub set_foc_speed : Board → ℤ → Board × Reply
set_foc_speed b v =
    (focuser_apply_settings (with_foc b (record (b.settings.foc) { speed = pos_part v })), ok)

unfoldable pub set_foc_accel : Board → ℤ → Board × Reply
set_foc_accel b v =
    (focuser_apply_settings (with_foc b (record (b.settings.foc) { accel = pos_part v })), ok)

unfoldable pub set_backlash : Board → ℤ → Board × Reply
set_backlash b v = (with_foc b (record (b.settings.foc) { backlash = pos_part v }), ok)

unfoldable pub set_foc_reverse : Board → ℤ → Board × Reply
set_foc_reverse b v = if Axis.busy b.axis then (b, error busy) else (
  focuser_apply_settings (with_foc b (record (b.settings.foc) { reverse = pos_part v })),
  ok,
)

unfoldable pub set_step_size : Board → ℤ → Board × Reply
set_step_size b v = (with_foc b (record (b.settings.foc) { step_size = pos_part v }), ok)

-- The commands without motion: 54 to 69 but 56.
unfoldable pub focuser_setting : ℕ → Text → Board → Board × Reply
focuser_setting cmd params b =
    let f = b.settings.foc in
    if cmd == 54
    then getter params f.max_pos b
    else if cmd == 55
    then setter params (pos 1) (pos 10000000) (set_max b) b
    else if cmd == 58
    then getter params (int32 (pos f.speed)) b
    else if cmd == 59
    then setter params (pos 1) (pos 20000) (set_foc_speed b) b
    else if cmd == 60
    then getter params (int32 (pos f.accel)) b
    else if cmd == 61
    then setter params (pos 1) (pos 100000) (set_foc_accel b) b
    else if cmd == 62
    then getter params (int32 (pos f.backlash)) b
    else if cmd == 63
    then setter params (pos 0) (pos 10000) (set_backlash b) b
    else if cmd == 64
    then getter params (if f.reverse == 0 then pos 0 else pos 1) b
    else if cmd == 65
    then setter params (pos 0) (pos 1) (set_foc_reverse b) b
    else if cmd == 66
    then getter params (int32 (pos f.step_size)) b
    else if cmd == 67
    then setter params (pos 0) (pos 100000) (set_step_size b) b
    else (b, error unknown_cmd)

module _ (first_delay : ℕ → ℕ) where
  unfoldable pub protocol_focuser : Around → ℕ → Text → Board → Board × Reply
  protocol_focuser w cmd params b =
      if cmd == 50
      then getter params b.axis.position b
      else if cmd == 51
      then setter params int32_min int32_top (λ v. replied (focuser_move_to first_delay w v b)) b
      else if cmd == 52
      then setter params int32_min int32_top (λ v. replied (focuser_move_by first_delay w v b)) b
      else if cmd == 53
      then if no_value params then (focuser_halt b, ok) else (b, error bad_param)
      else if cmd == 56
      then setter params int32_min int32_top (λ v. replied (focuser_sync w v b)) b
      else focuser_setting cmd params b
