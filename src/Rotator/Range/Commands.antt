-- ===== src/Rotator/Range/Commands.antt =====
-- The commands and the update of the rotator, and the cable-wrap range (fw/src/rotator.cpp and
-- fw/src/protocol_rotator.cpp).
use astro_uni_board.Base.{
  ℕ, ◌≡◌, refl, sym, ap, subst, Bool, true, false, not, ◌&&◌, ◌||◌, Option, none, some, leb, inl,
  arith, if◌then◌else◌,
}
use astro_uni_board.Base.Int.{ℤ, pos, negsuc, ◌+ℤ◌, ltb_ℤ}
use astro_uni_board.Base.Word.{sub32}
use astro_uni_board.Errors.{FwError, is_ok, sensor, imu_vertical, bad_param, not_calibrated, busy}
use astro_uni_board.Wrap.{wrap_plan_target}
use astro_uni_board.Wrap.Plan.{plan_target_sound}
use astro_uni_board.Rotator.{
  Rotator, Turntable, Nearby, any_busy, rotator_angle, guard, driver_ok, start_move, rotator_halt,
  rotator_sync, rotator_move_to, rotator_move_by, check_move_end,
}
use astro_uni_board.Rotator.Sequences.{
  begin_settle, seq_update, rotator_imu_home, rotator_imu_calibrate, boot_home_when_due,
  rotator_update, rotator_apply_settings, rotator_rescale,
}
use astro_uni_board.Rotator.Rest.{resting}
use astro_uni_board.Rotator.Course.{course}
use astro_uni_board.Rotator.Course.Passes.{rests_too}
use astro_uni_board.Rotator.Range.{
  Allowed, Room, Alike-Inside, Inside, resting-Inside, choose, check-Inside, Answers, refused,
  start_move-Inside,
}
use astro_uni_board.Rotator.Range.Passes.{saved-Inside, ran-Inside}
use astro_uni_board.Protocol.{Reply, error}
use astro_uni_board.Protocol.RotatorBlock.{
  set_range, set_rot_speed, set_rot_accel, set_rot_reverse, set_spk, set_boot_home, set_home_tol,
}
use astro_uni_board.Protocol.RotatorCases.{RotatorKept}

unless :
    {R : Type 0} (t : Bool) {x y : Turntable × R}
    → Answers x
    → (t ≡ false → Answers y)
    → Answers (if t then x else y)
unless true p q = p
unless false p q = q refl

module _ (w : Nearby) (b : Turntable) (p : Inside b) where
  stays : (e : FwError) → Answers (b, e)
  stays e = record { answered = p }

  pub homes-Inside : Answers (rotator_imu_home w b)
  unfolding rotator_imu_home begin_settle
  homes-Inside = refused (any_busy w b) (stays busy) (
      refused (w.safe_mode || not w.imu_answering) (stays sensor) (
        refused (not w.imu_calibrated) (stays not_calibrated) (
          refused w.near_vertical (stays imu_vertical) (
            refused (not (driver_ok w)) (record { answered = record { inside = p.inside } })
              (record {
                answered = record {
                  inside = record { ordered = p.inside.ordered; going = p.inside.going; room = tt };
                };
              })))))

  -- A calibration starts from rest, and where its half turn fits.
  pub calibrates-Inside : Answers (rotator_imu_calibrate w b)
  unfolding rotator_imu_calibrate begin_settle
  calibrates-Inside = unless (any_busy w b) (stays busy) (λ off.
      let still = (resting b (rests_too w b off)).0 in
      refused (w.safe_mode || not w.imu_answering) (stays sensor) (
        refused w.near_vertical (stays imu_vertical) (
          refused (not (is_ok (guard w true (pos 0) b))) (stays (guard w true (pos 0) b)) (
            unless (ltb_ℤ b.settings.rot.wrap_max (b.rot.angle_idle +ℤ pos 18000)) (stays bad_param)
              (λ fits.
                refused (not (driver_ok w)) (record { answered = record { inside = p.inside } })
                  (record {
                    answered = record {
                      inside = record {
                        ordered = p.inside.ordered;
                        going = λ h. absurd (ground (arith, still, h));
                        room = ground (arith, fits);
                      };
                    };
                  }))))))

  syncs-Inside : (v : ℤ) → Answers (rotator_sync w v b)
  unfolding rotator_sync
  syncs-Inside v =
      refused (ltb_ℤ v b.settings.rot.wrap_min || ltb_ℤ b.settings.rot.wrap_max v) (stays bad_param)
        (refused (any_busy w b) (stays busy) (record {
          answered = record {
            inside = record {
              ordered = p.inside.ordered;
              going = p.inside.going;
              room = p.inside.room;
            };
          };
        }))

  said : (e : FwError) → Answers {R = Reply} (b, error e)
  said e = record { answered = p }

  -- A new range is set at rest, and has 0 in it.
  ranges-Inside : (mn mx : ℤ) → Answers (set_range w mn mx b)
  unfolding set_range
  ranges-Inside mn mx =
      unless
        (ltb_ℤ mn (negsuc 35999) || ltb_ℤ (pos 0) mn || ltb_ℤ mx (pos 0) || ltb_ℤ (pos 36000) mx)
        (said bad_param)
        (λ bounds. unless (any_busy w b) (said busy) (λ off.
          let (still, _, quiet) = resting b (rests_too w b off) in
          refused (ltb_ℤ (rotator_angle b) mn || ltb_ℤ mx (rotator_angle b)) (said bad_param)
            (record {
              answered = resting-Inside _ (ground (arith, bounds)) still (ap course quiet);
            })))

  same_ends :
      (c : Turntable)
      → c.rot ≡ b.rot
      → c.settings.rot.wrap_min ≡ b.settings.rot.wrap_min
      → c.settings.rot.wrap_max ≡ b.settings.rot.wrap_max
      → Inside c
  same_ends c e low high =
      Alike-Inside b c
        (record {
          low = low;
          high = high;
          moves = ap Rotator.moving e;
          target = ap Rotator.move_target e;
          start = ap Rotator.cal_start e;
        })
        (subst (λ r. Room (course r.seq) b.rot.cal_start b.settings.rot.wrap_max) (sym e)
          p.inside.room)
        p

  reverses-Inside : (v : ℤ) → Inside (set_rot_reverse w b v).0
  unfolding set_rot_reverse rotator_apply_settings
  reverses-Inside v =
      same_ends (set_rot_reverse w b v).0 (ground arith) (ground arith) (ground arith)

  scales-Inside : (v : ℤ) → Inside (set_spk w b v).0
  unfolding set_spk rotator_rescale rotator_apply_settings
  scales-Inside v = same_ends (set_spk w b v).0 (ground arith) (ground arith) (ground arith)

  speeds-Inside : (v : ℤ) → Inside (set_rot_speed b v).0 × Inside (set_rot_accel b v).0
  unfolding set_rot_speed set_rot_accel rotator_apply_settings
  speeds-Inside v = (
    same_ends (set_rot_speed b v).0 refl refl refl,
    same_ends (set_rot_accel b v).0 refl refl refl,
  )

  pub halts-Inside : Inside (rotator_halt b)
  unfolding rotator_halt
  halts-Inside = record {
    inside = record { ordered = p.inside.ordered; going = p.inside.going; room = tt };
  }

boots-Inside : (w : Nearby) (b : Turntable) → Inside b → Inside (boot_home_when_due w b)
unfolding boot_home_when_due
boots-Inside w b p =
    let b' : Turntable = record b { rot = record (b.rot) { boot_pending = false } } in
    let p' : Inside b' = record {
      inside = record { ordered = p.inside.ordered; going = p.inside.going; room = p.inside.room };
    } in
    choose (b.rot.boot_pending && leb 3000 (sub32 w.now_ms b.rot.boot_ms))
      (homes-Inside w b' p').answered p

module _ (first_delay : ℕ → ℕ) (w : Nearby) (b : Turntable) (p : Inside b) where
  pub update-Inside : Inside (rotator_update first_delay w b)
  unfolding rotator_update seq_update
  update-Inside =
      let c = check_move_end w.now_ms b in
      let q = check-Inside w.now_ms b p in
      saved-Inside w _ (boots-Inside w _ (ran-Inside first_delay c.rot.seq w c q.inside.room q))

  planned :
      (o : Option ℤ)
      → ((t : ℤ) → o ≡ some t → Allowed b.settings.rot b.rot.cal_start t)
      → Answers {R = FwError}
          (elim o [ none ↦ (b, bad_param) | some t ↦ start_move first_delay w t b ])
  planned none a = record { answered = p }
  planned (some t) a = start_move-Inside first_delay w t b (a t refl) p

  moves-Inside : (v : ℤ) → Answers (rotator_move_to first_delay w v b)
  unfolding rotator_move_to
  moves-Inside v =
      let r = b.settings.rot in
      let plan = wrap_plan_target b.rot.angle_idle v r.wrap_min r.wrap_max in
      refused (ltb_ℤ v (pos 0) || ltb_ℤ (pos 35999) v) (stays w b p bad_param) (
        refused (any_busy w b) (stays w b p busy) (
          refused (not (is_ok (guard w true (pos 0) b))) (stays w b p (guard w true (pos 0) b)) (
            planned plan (λ t e.
              let (fits, _, _) = plan_target_sound b.rot.angle_idle v r.wrap_min r.wrap_max t e in
              (fits.1, inl fits.0)))))

  jogs-Inside : (v : ℤ) → Answers (rotator_move_by first_delay w v b)
  unfolding rotator_move_by
  jogs-Inside v =
      let t = b.rot.angle_idle +ℤ v in
      refused (any_busy w b) (stays w b p busy) (
        refused (not (is_ok (guard w false v b))) (stays w b p (guard w false v b)) (
          unless (ltb_ℤ t b.settings.rot.wrap_min || ltb_ℤ b.settings.rot.wrap_max t)
            (stays w b p bad_param)
            (λ fits.
              start_move-Inside first_delay w t b (ground (arith, fits), inl (ground (arith, fits)))
                p)))

  pub rotator-Inside : RotatorKept first_delay Inside w b
  rotator-Inside = record {
    stays = p;
    moves = λ v. (moves-Inside v).answered;
    jogs = λ v. (jogs-Inside v).answered;
    halts = halts-Inside w b p;
    ranges = λ mn mx. (ranges-Inside w b p mn mx).answered;
    syncs = λ v. (syncs-Inside w b p v).answered;
    homes = (homes-Inside w b p).answered;
    speeds = λ v. (speeds-Inside w b p v).0;
    accels = λ v. (speeds-Inside w b p v).1;
    reverses = reverses-Inside w b p;
    scales = scales-Inside w b p;
    boot_homes = λ v. same_ends w b p (set_boot_home b v).0 refl refl refl;
    tolerances = λ v. same_ends w b p (set_home_tol b v).0 refl refl refl;
  }
