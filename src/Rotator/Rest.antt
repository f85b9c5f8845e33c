-- ===== src/Rotator/Rest.antt =====
-- What starts the rotator (fw/src/rotator.cpp): nothing, while the focuser is busy.
use astro_uni_board.Base.{ℕ, ◌≡◌, refl, Bool, true, false, ◌&&◌, arith, leb, if◌then◌else◌}
use astro_uni_board.Base.Int.{ℤ}
use astro_uni_board.Base.Word.{sub32}
use astro_uni_board.Axis
use astro_uni_board.Axis.{Axis, set_position, set_speed, set_accel, set_reverse, set_idle_off, halt}
use astro_uni_board.Rotator.{
  Turntable, Nearby, Seq, seq_none, rotator_busy, any_busy, check_move_end, rotator_halt,
  rotator_sync, rotator_move_to, rotator_move_by, rot_save_when_due,
}
use astro_uni_board.Rotator.Sequences.{
  run_seq, seq_update, rotator_imu_home, rotator_imu_calibrate, boot_home_when_due, rotator_update,
  rotator_apply_settings, rotator_rescale,
}
use astro_uni_board.Protocol.RotatorBlock.{
  set_range, set_rot_speed, set_rot_accel, set_rot_reverse, set_spk, set_boot_home, set_home_tol,
}
use astro_uni_board.Protocol.RotatorCases.{RotatorKept}

-- A rotator that rests in `b` rests in `c`.
pub record Rests (b c : Turntable) : Type 0 where
  pub rests : rotator_busy b ≡ false → rotator_busy c ≡ false

choose : {b x y : Turntable} (c : Bool) → Rests b x → Rests b y → Rests b (if c then x else y)
choose true p q = p
choose false p q = q

pub same-Rests : (b : Turntable) → Rests b b
same-Rests b = record { rests = λ h. h }

pub apply_settings-Rests : (b : Turntable) → Rests b (rotator_apply_settings b)
unfolding rotator_apply_settings rotator_busy set_speed set_accel set_reverse set_idle_off
    set_position Axis.busy
apply_settings-Rests b = record { rests = λ h. ground (arith, h) }

pub rescale-Rests : (o n : ℕ) (b : Turntable) → Rests b (rotator_rescale o n b)
unfolding rotator_rescale rotator_apply_settings rotator_busy set_speed set_accel set_reverse
    set_idle_off set_position Axis.busy
rescale-Rests o n b = record { rests = λ h. ground (arith, h) }

pub halt-Rests : (b : Turntable) → Rests b (rotator_halt b)
unfolding rotator_halt rotator_busy halt Axis.busy
halt-Rests b = record { rests = λ h. ground (arith, h) }

sync-Rests : (w : Nearby) (v : ℤ) (b : Turntable) → Rests b (rotator_sync w v b).0
unfolding rotator_sync rotator_busy set_position Axis.busy
sync-Rests w v b = record { rests = λ h. ground (arith, h) }

range-Rests : (w : Nearby) (mn mx : ℤ) (b : Turntable) → Rests b (set_range w mn mx b).0
unfolding set_range rotator_busy
range-Rests w mn mx b = record { rests = λ h. ground (arith, h) }

-- The settings are changed and applied, or refused.
with_settings-Rests :
    (b c : Turntable) → rotator_busy c ≡ rotator_busy b → Rests b (rotator_apply_settings c)
with_settings-Rests b c same = record { rests = λ h. (apply_settings-Rests c).rests (rw same h) }

setting-Rests :
    (w : Nearby) (v : ℤ) (b : Turntable)
    → Rests b (set_rot_speed b v).0
      × Rests b (set_rot_accel b v).0
      × Rests b (set_boot_home b v).0
      × Rests b (set_home_tol b v).0
unfolding set_rot_speed set_rot_accel rotator_busy
setting-Rests w v b = (
  with_settings-Rests b _ refl,
  with_settings-Rests b _ refl,
  record { rests = λ h. h },
  record { rests = λ h. h },
)

pub resting :
    (b : Turntable)
    → rotator_busy b ≡ false
    → (b.rot.moving ≡ false) × (Axis.busy b.axis ≡ false) × (b.rot.seq ≡ seq_none)
unfolding rotator_busy
resting b h = ground (arith, h)

save-Rests : (w : Nearby) (b : Turntable) → Rests b (rot_save_when_due w b)
unfolding rot_save_when_due rotator_busy
save-Rests w b = record { rests = λ h. ground (arith, h) }

check_same : (now : ℕ) (b : Turntable) → b.rot.moving ≡ false → check_move_end now b ≡ b
unfolding check_move_end
check_same now b still = ground (arith, still)

run_same :
    (first_delay : ℕ → ℕ) (s : Seq) (w : Nearby) (b : Turntable)
    → s ≡ seq_none
    → run_seq first_delay s w b ≡ b
run_same first_delay s w b e = rw e refl

seq_same :
    (first_delay : ℕ → ℕ) (w : Nearby) (b : Turntable)
    → b.rot.seq ≡ seq_none
    → seq_update first_delay w b ≡ b
unfolding seq_update
seq_same first_delay w b e = run_same first_delay b.rot.seq w b e

module _ (first_delay : ℕ → ℕ) (w : Nearby) (other : w.foc_busy ≡ true) where
  moves-same : (v : ℤ) (b : Turntable) → (rotator_move_to first_delay w v b).0 ≡ b
  unfolding rotator_move_to any_busy
  moves-same v b = ground (arith, other)

  jogs-same : (v : ℤ) (b : Turntable) → (rotator_move_by first_delay w v b).0 ≡ b
  unfolding rotator_move_by any_busy
  jogs-same v b = ground (arith, other)

  homes-same : (b : Turntable) → (rotator_imu_home w b).0 ≡ b
  unfolding rotator_imu_home any_busy
  homes-same b = ground (arith, other)

  pub calibrates-same : (b : Turntable) → (rotator_imu_calibrate w b).0 ≡ b
  unfolding rotator_imu_calibrate any_busy
  calibrates-same b = ground (arith, other)

  boot-Rests : (b : Turntable) → Rests b (boot_home_when_due w b)
  unfolding boot_home_when_due rotator_busy
  boot-Rests b =
      let b' : Turntable = record b { rot = record (b.rot) { boot_pending = false } } in
      let p : Rests b b' = record { rests = λ h. h } in
      rw (homes-same b')
        (choose (b.rot.boot_pending && leb 3000 (sub32 w.now_ms b.rot.boot_ms)) p (same-Rests b))

  -- A pass of the loop finds nothing to do for a rotator that rests, but to save.
  pub update-Rests : (b : Turntable) → Rests b (rotator_update first_delay w b)
  unfolding rotator_update
  update-Rests b = record {
    rests = λ h.
        let r = resting b h in
        rw (check_same w.now_ms b r.0, seq_same first_delay w b r.2)
          ((save-Rests w (boot_home_when_due w b)).rests ((boot-Rests b).rests h));
  }

  reverses-Rests : (v : ℤ) (b : Turntable) → Rests b (set_rot_reverse w b v).0
  unfolding set_rot_reverse any_busy
  reverses-Rests v b = record { rests = λ h. ground (arith, other, h) }

  scales-Rests : (v : ℤ) (b : Turntable) → Rests b (set_spk w b v).0
  unfolding set_spk any_busy
  scales-Rests v b = record { rests = λ h. ground (arith, other, h) }

  -- No command starts the rotator then.
  pub rotator-Rests : (b : Turntable) → RotatorKept first_delay (Rests b) w b
  rotator-Rests b = record {
    stays = same-Rests b;
    moves = λ v. rw (moves-same v b) (same-Rests b);
    jogs = λ v. rw (jogs-same v b) (same-Rests b);
    halts = halt-Rests b;
    ranges = λ mn mx. range-Rests w mn mx b;
    syncs = λ v. sync-Rests w v b;
    homes = rw (homes-same b) (same-Rests b);
    speeds = λ v. (setting-Rests w v b).0;
    accels = λ v. (setting-Rests w v b).1;
    reverses = λ v. reverses-Rests v b;
    scales = λ v. scales-Rests v b;
    boot_homes = λ v. (setting-Rests w v b).2;
    tolerances = λ v. (setting-Rests w v b).3;
  }
