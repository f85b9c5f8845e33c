-- ===== src/Focuser/Rest.antt =====
-- What starts the focuser (fw/src/focuser.cpp): nothing, while the rotator is busy.
use astro_uni_board.Base.{ℕ, ◌≡◌, Bool, true, false, arith}
use astro_uni_board.Base.Int.{ℤ, ◌+ℤ◌}
use astro_uni_board.Axis.{
  busy, set_position, set_speed, set_accel, set_reverse, set_idle_off, just_stopped,
}
use astro_uni_board.Axis.Rest.{StaysIdle, same-StaysIdle, halt-StaysIdle}
use astro_uni_board.Board.{Board, Around, any_busy, put_nv}
use astro_uni_board.Focuser.{
  focuser_apply_settings, note_stop, saved_now, save_when_due, focuser_update, try_move,
  focuser_move_to, focuser_move_by, focuser_halt, focuser_sync, focuser_rescale,
}
use astro_uni_board.Protocol.FocuserBlock.{
  set_max, set_foc_speed, set_foc_accel, set_backlash, set_foc_reverse, set_step_size,
}
use astro_uni_board.Protocol.FocuserCases.{FocuserKept}

abbrev pub Rests : Board → Board → Type 0
Rests b c = StaysIdle b.axis c.axis

apply-Rests : (b : Board) → Rests b (focuser_apply_settings b)
unfolding focuser_apply_settings set_speed set_accel set_reverse set_idle_off busy
apply-Rests b = record { rests = λ h. h }

pub rescale-Rests : (now o n : ℕ) (b : Board) → Rests b (focuser_rescale now o n b)
unfolding focuser_rescale focuser_apply_settings set_speed set_accel set_reverse set_idle_off
    set_position busy
rescale-Rests now o n b = record { rests = λ h. ground (arith, h) }

pub apply_settings-Rests : (b : Board) → Rests b (focuser_apply_settings b)
apply_settings-Rests b = apply-Rests b

pub halt-Rests : (b : Board) → Rests b (focuser_halt b)
unfolding focuser_halt
halt-Rests b = halt-StaysIdle b.axis

sync-Rests : (w : Around) (p : ℤ) (b : Board) → Rests b (focuser_sync w p b).0
unfolding focuser_sync put_nv set_position busy
sync-Rests w p b = record { rests = λ h. ground (arith, h) }

pub update-Rests : (w : Around) (b : Board) → Rests b (focuser_update w b)
unfolding focuser_update note_stop save_when_due saved_now put_nv busy just_stopped
update-Rests w b = record { rests = λ h. ground (arith, h) }

setting-Rests :
    (b : Board) (v : ℤ)
    → Rests b (set_max b v).0
      × Rests b (set_foc_speed b v).0
      × Rests b (set_foc_accel b v).0
      × Rests b (set_backlash b v).0
      × Rests b (set_foc_reverse b v).0
      × Rests b (set_step_size b v).0
unfolding set_max set_foc_speed set_foc_accel set_backlash set_foc_reverse set_step_size busy
    focuser_apply_settings set_speed set_accel set_reverse set_idle_off
setting-Rests b v = (
  record { rests = λ h. ground (arith, h) },
  record { rests = λ h. h },
  record { rests = λ h. h },
  record { rests = λ h. h },
  record { rests = λ h. ground (arith, h) },
  record { rests = λ h. h },
)

module _ (first_delay : ℕ → ℕ) (w : Around) (other : w.rot_busy ≡ true) where
  try_move-same :
      (goal : ℤ) (absolute : Bool) (b : Board) → (try_move first_delay w goal absolute b).0 ≡ b
  unfolding try_move any_busy
  try_move-same goal absolute b = ground (arith, other)

  moves-same : (v : ℤ) (b : Board) → (focuser_move_to first_delay w v b).0 ≡ b
  unfolding focuser_move_to
  moves-same v b = try_move-same v true b

  jogs-same : (v : ℤ) (b : Board) → (focuser_move_by first_delay w v b).0 ≡ b
  unfolding focuser_move_by
  jogs-same v b = ground (arith, try_move-same (b.axis.position +ℤ v) false b)

  -- No command starts the focuser then.
  pub focuser-Rests : (b : Board) → FocuserKept first_delay (Rests b) w b
  focuser-Rests b = record {
    stays = same-StaysIdle b.axis;
    moves = λ v. rw (moves-same v b) (same-StaysIdle b.axis);
    jogs = λ v. rw (jogs-same v b) (same-StaysIdle b.axis);
    halts = halt-Rests b;
    syncs = λ v. sync-Rests w v b;
    limits = λ v l h. (setting-Rests b v).0;
    speeds = λ v. (setting-Rests b v).1;
    accels = λ v. (setting-Rests b v).2;
    backlashes = λ v l h. (setting-Rests b v).3;
    reverses = λ v. (setting-Rests b v).4;
    sizes = λ v. (setting-Rests b v).5;
  }
