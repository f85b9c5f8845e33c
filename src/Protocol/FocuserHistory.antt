-- ===== src/Protocol/FocuserHistory.antt =====
-- The soft limits of the focuser (fw/src/focuser.cpp) under every command of the host
-- (fw/src/protocol_focuser.cpp) and every event of the motor.
use astro_uni_board.Base.{ℕ, true, false, List, [], ◌∷◌, arith}
use astro_uni_board.Base.Int.{ℤ, pos, negsuc, ◌≤ℤ◌, ◌+ℤ◌}
use astro_uni_board.Axis
use astro_uni_board.Axis.{set_speed, set_accel, set_reverse, set_idle_off}
use astro_uni_board.Axis.Events.{Event, host_halt, apply}
use astro_uni_board.Board.{Board, Around}
use astro_uni_board.Focuser.{
  focuser_apply_settings, focuser_update, focuser_move_to, focuser_move_by, focuser_halt,
  focuser_target, focuser_rescale, focuser_set_unverified,
}
use astro_uni_board.Focuser.Limits.{
  IsLimited, apply-IsSafe, update-IsLimited, sync-IsLimited, rescale-IsLimited, try_move-IsLimited,
}
use astro_uni_board.Protocol.{Text}
use astro_uni_board.Protocol.FocuserCases.{FocuserKept, protocol_focuser-Kept}
use astro_uni_board.Protocol.FocuserBlock.{
  set_max, set_foc_speed, set_foc_accel, set_backlash, set_foc_reverse, set_step_size,
  protocol_focuser,
}

set_max-IsLimited :
    (b : Board) (v : ℤ) → IsLimited b → pos 1 ≤ℤ v → v ≤ℤ pos 10000000 → IsLimited (set_max b v).0
unfolding set_max focuser_target Axis.busy
set_max-IsLimited b v s l h = ground (arith, s.max_ok)

set_foc_speed-IsLimited : (b : Board) (v : ℤ) → IsLimited b → IsLimited (set_foc_speed b v).0
unfolding set_foc_speed focuser_apply_settings set_speed set_accel set_reverse set_idle_off
set_foc_speed-IsLimited b v s = ground (arith, s.max_ok)

set_foc_accel-IsLimited : (b : Board) (v : ℤ) → IsLimited b → IsLimited (set_foc_accel b v).0
unfolding set_foc_accel focuser_apply_settings set_speed set_accel set_reverse set_idle_off
set_foc_accel-IsLimited b v s = ground (arith, s.max_ok)

set_backlash-IsLimited :
    (b : Board) (v : ℤ) → IsLimited b → pos 0 ≤ℤ v → v ≤ℤ pos 10000 → IsLimited (set_backlash b v).0
unfolding set_backlash
set_backlash-IsLimited b (pos n) s l h = ground (arith, s.max_ok)
set_backlash-IsLimited b (negsuc n) s l h = absurd (omega arith)

set_foc_reverse-IsLimited : (b : Board) (v : ℤ) → IsLimited b → IsLimited (set_foc_reverse b v).0
unfolding set_foc_reverse focuser_apply_settings set_speed set_accel set_reverse set_idle_off
    Axis.busy
set_foc_reverse-IsLimited b v s = ground (arith, s.max_ok)

set_step_size-IsLimited : (b : Board) (v : ℤ) → IsLimited b → IsLimited (set_step_size b v).0
unfolding set_step_size
set_step_size-IsLimited b v s = ground (arith, s.max_ok)

halt-IsLimited : (b : Board) → IsLimited b → IsLimited (focuser_halt b)
unfolding focuser_halt apply
halt-IsLimited b s = apply-IsSafe host_halt b.settings.foc b.axis s

-- What can happen to the focuser after its start: commands 50 to 69 with any parameters, changes of
-- the microsteps, passes of the main loop, interrupts and fault stops, and the loss of trust after them.
pub data FocEvent : Type 0 where
  command : Around → ℕ → Text → FocEvent
  rescale : ℕ → ℕ → ℕ → FocEvent
  pass : Around → FocEvent
  on_axis : Event → FocEvent
  distrust : FocEvent

module _ (first_delay : ℕ → ℕ) where
  replied-move :
      (w : Around) (v : ℤ) (b : Board)
      → IsLimited b
      → IsLimited (focuser_move_to first_delay w v b).0
  unfolding focuser_move_to
  replied-move w v b s = try_move-IsLimited first_delay w v true b s

  replied-jog :
      (w : Around) (v : ℤ) (b : Board)
      → IsLimited b
      → IsLimited (focuser_move_by first_delay w v b).0
  unfolding focuser_move_by
  replied-jog w v b s =
      ground (arith, s.max_ok, try_move-IsLimited first_delay w (b.axis.position +ℤ v) false b s)

  -- No command of the focuser breaks the limits.
  focuser-Kept : (w : Around) (b : Board) → IsLimited b → FocuserKept first_delay IsLimited w b
  focuser-Kept w b s = record {
    stays = s;
    moves = λ v. replied-move w v b s;
    jogs = λ v. replied-jog w v b s;
    halts = halt-IsLimited b s;
    syncs = λ v. sync-IsLimited w v b s;
    limits = λ v l h. set_max-IsLimited b v s l h;
    speeds = λ v. set_foc_speed-IsLimited b v s;
    accels = λ v. set_foc_accel-IsLimited b v s;
    backlashes = λ v l h. set_backlash-IsLimited b v s l h;
    reverses = λ v. set_foc_reverse-IsLimited b v s;
    sizes = λ v. set_step_size-IsLimited b v s;
  }

  unfoldable pub react : FocEvent → Board → Board
  react (command w cmd params) b = (protocol_focuser first_delay w cmd params b).0
  react (rescale now o n) b = focuser_rescale now o n b
  react (pass w) b = focuser_update w b
  react (on_axis e) b = record b { axis = apply e b.axis }
  react distrust b = focuser_set_unverified b

  unfoldable pub history : List FocEvent → Board → Board
  history [] b = b
  history (e ∷ es) b = history es (react e b)

  react-IsLimited : (e : FocEvent) (b : Board) → IsLimited b → IsLimited (react e b)
  unfolding react
  react-IsLimited (command w cmd params) b s =
      protocol_focuser-Kept IsLimited first_delay w b (focuser-Kept w b s) cmd params
  react-IsLimited (rescale now o n) b s = rescale-IsLimited now o n b s
  react-IsLimited (pass w) b s = update-IsLimited w b s
  react-IsLimited (on_axis e) b s = apply-IsSafe e b.settings.foc b.axis s
  react-IsLimited distrust b s = ground (arith, s.max_ok)

  -- From a position inside the soft limits on, whatever commands 50 to 69 with whatever parameters the
  -- host sends, whatever the interrupts and the loop passes do and however the microsteps change, in
  -- any order, the counted position is in 0..max, and a move under way has its target there.
  pub history-IsLimited : (es : List FocEvent) (b : Board) → IsLimited b → IsLimited (history es b)
  unfolding history
  history-IsLimited [] b s = s
  history-IsLimited (e ∷ es) b s = history-IsLimited es (react e b) (react-IsLimited e b s)
