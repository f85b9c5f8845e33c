-- ===== src/Rotator/Course/Commands.antt =====
-- The commands of fw/src/protocol_rotator.cpp during an IMU calibration.
use astro_uni_board.Base.{ℕ, ◌≡◌, refl, sym, subst, arith, Option-cases, inl, inr}
use astro_uni_board.Base.Int.{ℤ, ◌+ℤ◌}
use astro_uni_board.Wrap.{wrap_plan_target}
use astro_uni_board.Rotator.{
  Turntable, Nearby, any_busy, rotator_halt, rotator_sync, rotator_move_to, rotator_move_by,
}
use astro_uni_board.Rotator.Sequences.{rotator_apply_settings, rotator_rescale}
use astro_uni_board.Rotator.Rest.{resting}
use astro_uni_board.Rotator.Course.{OnCourse, none-OnCourse, refusing-OnCourse, start_move-seq}
use astro_uni_board.Rotator.Course.Passes.{homes-OnCourse}
use astro_uni_board.Protocol.RotatorBlock.{
  set_range, set_rot_speed, set_rot_accel, set_rot_reverse, set_spk,
}
use astro_uni_board.Protocol.RotatorCases.{RotatorKept}

pub same_rot-OnCourse : (b c : Turntable) → c.rot ≡ b.rot → OnCourse b.rot → OnCourse c.rot
same_rot-OnCourse b c e p = subst OnCourse (sym e) p

pub halt-OnCourse : (b : Turntable) → OnCourse (rotator_halt b).rot
unfolding rotator_halt
halt-OnCourse b = none-OnCourse _ refl

sync-OnCourse :
    (w : Nearby) (v : ℤ) (b : Turntable) → OnCourse b.rot → OnCourse (rotator_sync w v b).0.rot
unfolding rotator_sync any_busy
sync-OnCourse w v b p =
    refusing-OnCourse b (rotator_sync w v b).0 (λ on. ground (arith, on))
      (λ off. let still = (resting b off).2 in ground (arith, off, still)) p

range-rot : (w : Nearby) (mn mx : ℤ) (b : Turntable) → (set_range w mn mx b).0.rot ≡ b.rot
unfolding set_range
range-rot w mn mx b = ground arith

reverse-rot : (w : Nearby) (v : ℤ) (b : Turntable) → (set_rot_reverse w b v).0.rot ≡ b.rot
unfolding set_rot_reverse rotator_apply_settings
reverse-rot w v b = ground arith

spk-rot : (w : Nearby) (v : ℤ) (b : Turntable) → (set_spk w b v).0.rot ≡ b.rot
unfolding set_spk rotator_rescale rotator_apply_settings
spk-rot w v b = ground arith

speed-rot :
    (v : ℤ) (b : Turntable)
    → ((set_rot_speed b v).0.rot ≡ b.rot) × ((set_rot_accel b v).0.rot ≡ b.rot)
unfolding set_rot_speed set_rot_accel rotator_apply_settings
speed-rot v b = (refl, refl)

module _ (first_delay : ℕ → ℕ) (w : Nearby) (b : Turntable) (p : OnCourse b.rot) where
  moves-OnCourse : (v : ℤ) → OnCourse (rotator_move_to first_delay w v b).0.rot
  unfolding rotator_move_to any_busy
  moves-OnCourse v =
      let r = b.settings.rot in
      refusing-OnCourse b (rotator_move_to first_delay w v b).0 (λ on. ground (arith, on))
        (λ off.
          let still = (resting b off).2 in
          elim (Option-cases (wrap_plan_target b.rot.angle_idle v r.wrap_min r.wrap_max)) [
            | inl e ↦ ground (arith, e, still)
            | inr (t, e) ↦ ground (arith, e, still, start_move-seq first_delay w t b)
          ])
        p

  jogs-OnCourse : (v : ℤ) → OnCourse (rotator_move_by first_delay w v b).0.rot
  unfolding rotator_move_by any_busy
  jogs-OnCourse v =
      refusing-OnCourse b (rotator_move_by first_delay w v b).0 (λ on. ground (arith, on))
        (λ off.
          let still = (resting b off).2 in
          ground (arith, still, start_move-seq first_delay w (b.rot.angle_idle +ℤ v) b))
        p

  pub rotator-OnCourse : RotatorKept first_delay (λ c. OnCourse c.rot) w b
  rotator-OnCourse = record {
    stays = p;
    moves = moves-OnCourse;
    jogs = jogs-OnCourse;
    halts = halt-OnCourse b;
    ranges = λ mn mx. same_rot-OnCourse b (set_range w mn mx b).0 (range-rot w mn mx b) p;
    syncs = λ v. sync-OnCourse w v b p;
    homes = homes-OnCourse w b p;
    speeds = λ v. same_rot-OnCourse b (set_rot_speed b v).0 ((speed-rot v b).0) p;
    accels = λ v. same_rot-OnCourse b (set_rot_accel b v).0 ((speed-rot v b).1) p;
    reverses = λ v. same_rot-OnCourse b (set_rot_reverse w b v).0 (reverse-rot w v b) p;
    scales = λ v. same_rot-OnCourse b (set_spk w b v).0 (spk-rot w v b) p;
    boot_homes = λ v. p;
    tolerances = λ v. p;
  }
