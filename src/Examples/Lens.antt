-- ===== src/Examples/Lens.antt =====
-- The focuser (fw/src/focuser.cpp) on a board with the default settings.
use astro_uni_board.Base.{List, ◌⊎◌, ◌≡◌, refl, inl, true, false, [], ◌∷◌, arith}
use astro_uni_board.Base.Int.{pos, ◌-ℤ◌}
use astro_uni_board.Errors.{fw_ok, is_ok}
use astro_uni_board.Settings.{axis_foc, settings_defaults}
use astro_uni_board.Axis
use astro_uni_board.Axis.Exact.{Arrives}
use astro_uni_board.Axis.Events.{interrupt}
use astro_uni_board.Nv.Store.{nv_mark_moving, load_positions}
use astro_uni_board.Nv.Positions.{Says, after_boot}
use astro_uni_board.Board.{Board, Around, any_busy}
use astro_uni_board.Focuser.{focuser_move_to, focuser_move_by, focuser_update, lead_of}
use astro_uni_board.Focuser.Limits.{IsLimited}
use astro_uni_board.Focuser.Moves.{MayMove, focuser_move_to-Arrives}
use astro_uni_board.Focuser.Saves.{passes, stop_saved}
use astro_uni_board.Protocol.FocuserHistory.{
  FocEvent, command, pass, on_axis, history, history-IsLimited,
}
use astro_uni_board.Protocol.FocuserTrust.{Synced, safe_mode_holds}
use astro_uni_board.Examples.Motion.{parked, first_delay}
use astro_uni_board.Examples.Positions.{bus_up, first_write, first_write-IsSettled}

-- It went up last, and a move down takes up 7 steps.
abbrev lens : Board
lens = record {
  settings = record settings_defaults { foc = record (settings_defaults.foc) { backlash = 7 } };
  foc = record {
    unverified = true;
    last_dir = pos 1;
    move_dir = pos 0;
    save_pending = false;
    idle_since = 0;
  };
  axis = parked;
  nv = first_write;
  sticky = fw_ok;
}

abbrev calm : Around
calm = record {
  safe_mode = false;
  rot_busy = false;
  rot_axis_busy = false;
  timer_running = false;
  timer_starts = true;
  answering = true;
  applied = false;
  supply_ok = true;
  bus = bus_up;
  now_ms = 1000;
}

lens-IsLimited : IsLimited lens
unfolding settings_defaults
lens-IsLimited = record {
  max_ok = ground arith;
  lash_ok = omega arith;
  here = ground arith;
  going = inl refl;
}

history-IsLimited_example : IsLimited (
    history first_delay
      (command calm 51 (b',' ∷ b'9' ∷ [])
        ∷ on_axis interrupt
        ∷ on_axis interrupt
        ∷ command calm 53 []
        ∷ pass calm
        ∷ [])
      lens)
history-IsLimited_example =
    history-IsLimited first_delay
      (command calm 51 (b',' ∷ b'9' ∷ [])
        ∷ on_axis interrupt
        ∷ on_axis interrupt
        ∷ command calm 53 []
        ∷ pass calm
        ∷ [])
      lens lens-IsLimited

-- A halt, a pass and a command that is refused.
abbrev quiet_events : List FocEvent
quiet_events = command calm 53 [] ∷ pass calm ∷ command calm 51 (b',' ∷ []) ∷ []

abbrev unsynced : Board
unsynced = history first_delay quiet_events lens

safe_mode_holds_example :
    Synced first_delay quiet_events lens
    ⊎ (((focuser_move_to first_delay (record calm { safe_mode = true }) (pos 300) unsynced).0
          ≡ unsynced)
        × (is_ok
              (focuser_move_to first_delay (record calm { safe_mode = true }) (pos 300) unsynced).1
            ≡ false)
        × ((focuser_move_by first_delay (record calm { safe_mode = true }) (pos 201) unsynced).0
            ≡ unsynced)
        × (is_ok
              (focuser_move_by first_delay (record calm { safe_mode = true }) (pos 201) unsynced).1
            ≡ false))
safe_mode_holds_example =
    safe_mode_holds first_delay quiet_events (record calm { safe_mode = true }) (pos 300) (pos 201)
      lens refl refl (omega arith)

lens-MayMove : MayMove calm lens (pos 92)
unfolding any_busy settings_defaults Axis.busy
lens-MayMove = record {
  inside = ground arith;
  away = refl;
  quiet = refl;
  trusted = refl;
  driven = refl;
  supplied = refl;
  timer_free = refl;
  timer_begun = refl;
  pins_known = refl;
}

-- Seven take-up steps and eight counted ones, after the driver was enabled.
focuser_move_to-Arrives_example :
    ((focuser_move_to first_delay calm (pos 92) lens).1 ≡ fw_ok)
    × ((focuser_move_to first_delay calm (pos 92) lens).0.nv
        ≡ (nv_mark_moving bus_up 4 axis_foc first_write).0)
    × ((focuser_move_to first_delay calm (pos 92) lens).0.axis.target ≡ pos 92)
    × Arrives (focuser_move_to first_delay calm (pos 92) lens).0.axis 16
unfolding lead_of ◌-ℤ◌ settings_defaults
focuser_move_to-Arrives_example =
    focuser_move_to-Arrives first_delay calm lens (pos 92) lens-IsLimited lens-MayMove

-- After a stop at 100: the pass that sees it, two early ones, and one 2001 ms later.
abbrev early : List Around
early = record calm { now_ms = 1500 } ∷ record calm { now_ms = 2999 } ∷ []

stop_saved_example : Says axis_foc false (pos 100) (load_positions first_write.slot) (
    after_boot false
      (λ _. true)
      (focuser_update
        (record calm { now_ms = 3001 })
        (passes early
          (focuser_update calm (record lens { axis = record parked { stopped_flag = true } })))).nv)
stop_saved_example =
    stop_saved calm (record calm { now_ms = 3001 }) early
      (record lens { axis = record parked { stopped_flag = true } }) false (λ _. true) refl refl
      (omega arith) (omega arith, (omega arith, tt)) (omega arith) first_write-IsSettled (λ _. refl)
