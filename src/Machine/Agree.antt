-- ===== src/Machine/Agree.antt =====
-- The part of the settings that `settingsSane` of fw/src/nv_store.cpp looks at, and the operations of
-- the focuser and the rotator that leave it alone.
use astro_uni_board.Base.{ℕ, ◌≡◌, refl, Bool, true, false, arith}
use astro_uni_board.Base.Int.{ℤ, pos, ◌+ℤ◌}
use astro_uni_board.Settings.{Settings}
use astro_uni_board.Board
use astro_uni_board.Board.{Board, Around}
use astro_uni_board.Nv.Sane.{settings_sane}
use astro_uni_board.Focuser.{
  focuser_apply_settings, note_stop, saved_now, save_when_due, focuser_update, start_move, try_move,
  focuser_move_to, focuser_move_by, focuser_halt, focuser_sync,
}
use astro_uni_board.Rotator.{Turntable, Nearby, rotator_halt, rotator_sync}
use astro_uni_board.Rotator.Fixed.{move_to-Fixed, move_by-Fixed, imu_home-Fixed}
use astro_uni_board.Rotator.Sequences.{rotator_apply_settings}
use astro_uni_board.Protocol.FocuserBlock.{
  set_max, set_foc_speed, set_foc_accel, set_backlash, set_foc_reverse, set_step_size,
}
use astro_uni_board.Protocol.RotatorBlock.{
  set_range, set_rot_speed, set_rot_accel, set_rot_reverse, set_spk,
}
use astro_uni_board.Protocol.FocuserCases.{FocuserKept}
use astro_uni_board.Protocol.RotatorCases.{RotatorKept}

-- The part of the settings that is looked at is as before.
pub record Agree (s s' : Settings) : Type 0 where
  pub same_foc : s'.drv_foc ≡ s.drv_foc
  pub same_rot : s'.drv_rot ≡ s.drv_rot
  pub same_env : s'.env_select ≡ s.env_select
  pub same_led : s'.led_brightness ≡ s.led_brightness
  pub same_guard : s'.rot_guard ≡ s.rot_guard

pub agree : (s : Settings) → Agree s s
agree s = record {
  same_foc = refl;
  same_rot = refl;
  same_env = refl;
  same_led = refl;
  same_guard = refl;
}

-- Only the parts `foc` and `rot` differ.
pub same_fields-Agree :
    (s s' : Settings)
    → s'.drv_foc ≡ s.drv_foc
    → s'.drv_rot ≡ s.drv_rot
    → s'.env_select ≡ s.env_select
    → s'.led_brightness ≡ s.led_brightness
    → s'.rot_guard ≡ s.rot_guard
    → Agree s s'
same_fields-Agree s s' a b c d e = record {
  same_foc = a;
  same_rot = b;
  same_env = c;
  same_led = d;
  same_guard = e;
}

pub equal-Agree : (s s' : Settings) → s' ≡ s → Agree s s'
equal-Agree s s' e = record {
  same_foc = cc e;
  same_rot = cc e;
  same_env = cc e;
  same_led = cc e;
  same_guard = cc e;
}

pub Agree-sane : (s s' : Settings) → Agree s s' → settings_sane s ≡ true → settings_sane s' ≡ true
unfolding settings_sane
Agree-sane s s' a h = rw (a.same_foc, a.same_rot, a.same_env, a.same_led, a.same_guard) h

pub try_move-Agree :
    (first_delay : ℕ → ℕ) (w : Around) (goal : ℤ) (absolute : Bool) (b : Board)
    → (try_move first_delay w goal absolute b).0.settings ≡ b.settings
unfolding try_move start_move Board.put_nv
try_move-Agree first_delay w goal absolute b = ground arith

pub update-settings : (w : Around) (b : Board) → (focuser_update w b).settings ≡ b.settings
unfolding focuser_update note_stop save_when_due saved_now Board.put_nv
update-settings w b = ground arith

pub sync-settings : (w : Around) (v : ℤ) (b : Board) → (focuser_sync w v b).0.settings ≡ b.settings
unfolding focuser_sync Board.put_nv
sync-settings w v b = ground arith

max-Agree : (v : ℤ) (b : Board) → Agree b.settings (set_max b v).0.settings
unfolding set_max
max-Agree v b = record {
  same_foc = ground arith;
  same_rot = ground arith;
  same_env = ground arith;
  same_led = ground arith;
  same_guard = ground arith;
}

reverse-Agree : (v : ℤ) (b : Board) → Agree b.settings (set_foc_reverse b v).0.settings
unfolding set_foc_reverse focuser_apply_settings
reverse-Agree v b = record {
  same_foc = ground arith;
  same_rot = ground arith;
  same_env = ground arith;
  same_led = ground arith;
  same_guard = ground arith;
}

pub jog-settings :
    (first_delay : ℕ → ℕ) (w : Around) (v : ℤ) (b : Board)
    → (focuser_move_by first_delay w v b).0.settings ≡ b.settings
unfolding focuser_move_by
jog-settings first_delay w v b =
    ground (arith, try_move-Agree first_delay w (b.axis.position +ℤ v) false b)

-- No focuser command touches that part.
pub focuser-Agree :
    (first_delay : ℕ → ℕ) (w : Around) (b : Board)
    → FocuserKept first_delay (λ c. Agree b.settings c.settings) w b
unfolding focuser_move_to focuser_halt set_foc_speed set_foc_accel set_backlash set_step_size
    focuser_apply_settings
focuser-Agree first_delay w b = record {
  stays = agree b.settings;
  moves = λ v. equal-Agree b.settings _ (try_move-Agree first_delay w v true b);
  jogs = λ v. equal-Agree b.settings _ (jog-settings first_delay w v b);
  halts = agree b.settings;
  syncs = λ v. equal-Agree b.settings _ (sync-settings w v b);
  limits = λ v l h. max-Agree v b;
  speeds = λ v. same_fields-Agree b.settings _ refl refl refl refl refl;
  accels = λ v. same_fields-Agree b.settings _ refl refl refl refl refl;
  backlashes = λ v l h. same_fields-Agree b.settings _ refl refl refl refl refl;
  reverses = λ v. reverse-Agree v b;
  sizes = λ v. same_fields-Agree b.settings _ refl refl refl refl refl;
}

sync_rot-settings :
    (w : Nearby) (v : ℤ) (b : Turntable) → (rotator_sync w v b).0.settings ≡ b.settings
unfolding rotator_sync
sync_rot-settings w v b = ground arith

rot_refusing-Agree :
    (w : Nearby) (mn mx v : ℤ) (b : Turntable)
    → Agree b.settings (set_range w mn mx b).0.settings
      × Agree b.settings (set_rot_reverse w b v).0.settings
      × Agree b.settings (set_spk w b v).0.settings
unfolding set_range set_rot_reverse set_spk rotator_apply_settings
rot_refusing-Agree w mn mx v b = (
  same_fields-Agree b.settings _ (ground arith) (ground arith) (ground arith) (ground arith)
      (ground arith),
  same_fields-Agree b.settings _ (ground arith) (ground arith) (ground arith) (ground arith)
      (ground arith),
  same_fields-Agree b.settings _ (ground arith) (ground arith) (ground arith) (ground arith)
      (ground arith),
)

-- Nor does any rotator command.
pub rotator-Agree :
    (first_delay : ℕ → ℕ) (w : Nearby) (b : Turntable)
    → RotatorKept first_delay (λ c. Agree b.settings c.settings) w b
unfolding rotator_halt set_rot_speed set_rot_accel rotator_apply_settings
rotator-Agree first_delay w b = record {
  stays = agree b.settings;
  moves = λ v. equal-Agree b.settings _ (move_to-Fixed first_delay w v b).fixed;
  jogs = λ v. equal-Agree b.settings _ (move_by-Fixed first_delay w v b).fixed;
  halts = agree b.settings;
  ranges = λ mn mx. (rot_refusing-Agree w mn mx (pos 0) b).0;
  syncs = λ v. equal-Agree b.settings _ (sync_rot-settings w v b);
  homes = equal-Agree b.settings _ (imu_home-Fixed w b).fixed;
  speeds = λ v. same_fields-Agree b.settings _ refl refl refl refl refl;
  accels = λ v. same_fields-Agree b.settings _ refl refl refl refl refl;
  reverses = λ v. (rot_refusing-Agree w v v v b).1;
  scales = λ v. (rot_refusing-Agree w v v v b).2;
  boot_homes = λ v. same_fields-Agree b.settings _ refl refl refl refl refl;
  tolerances = λ v. same_fields-Agree b.settings _ refl refl refl refl refl;
}
