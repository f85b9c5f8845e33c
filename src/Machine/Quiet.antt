-- ===== src/Machine/Quiet.antt =====
-- Which operations of the board start no axis.
use astro_uni_board.Base.{ℕ, ◌≡◌, refl, Bool, true, false, arith, ◌==◌, if◌then◌else◌}
use astro_uni_board.Base.Int.{ℤ}
use astro_uni_board.Settings.{AxisId, axis_foc, axis_rot}
use astro_uni_board.Axis.{busy}
use astro_uni_board.Focuser.{focuser_halt}
use astro_uni_board.Focuser.Rest as FocuserRest
use astro_uni_board.Rotator.{rotator_busy}
use astro_uni_board.Rotator.Rest as RotatorRest
use astro_uni_board.Machine.{Machine, World, board_of, table_of}
use astro_uni_board.Machine.Drivers.{
  rescale_axis, apply_to, apply_axis, reset_defaults, DriverArgs, set_driver, set_threshold,
  set_brightness,
}
use astro_uni_board.Machine.Common.{halt_all}

-- Both rest after it, if they did before.
pub record Quiet (m m' : Machine) : Type 0 where
  pub foc_rests : busy m.foc_axis ≡ false → busy m'.foc_axis ≡ false
  pub rot_rests : rotator_busy (table_of m) ≡ false → rotator_busy (table_of m') ≡ false

pub same-Quiet : (m : Machine) → Quiet m m
same-Quiet m = record { foc_rests = λ h. h; rot_rests = λ h. h }

pub then-Quiet : {a b c : Machine} → Quiet a b → Quiet b c → Quiet a c
then-Quiet p q = record {
  foc_rests = λ h. q.foc_rests (p.foc_rests h);
  rot_rests = λ h. q.rot_rests (p.rot_rests h);
}

pub choose-Quiet :
    {a x y : Machine} (c : Bool) → Quiet a x → Quiet a y → Quiet a (if c then x else y)
choose-Quiet true p q = p
choose-Quiet false p q = q

rescale_axis-Quiet :
    (now : ℕ) (axis : AxisId) (o n : ℕ) (m : Machine) → Quiet m (rescale_axis now axis o n m)
unfolding rescale_axis rotator_busy
rescale_axis-Quiet now axis_foc o n m = choose-Quiet (o == n) (same-Quiet m) record {
  foc_rests = (FocuserRest.rescale-Rests now o n (board_of m)).rests;
  rot_rests = λ h. h;
}
rescale_axis-Quiet now axis_rot o n m =
    choose-Quiet (o == n) (same-Quiet m)
      record { foc_rests = λ h. h; rot_rests = (RotatorRest.rescale-Rests o n (table_of m)).rests }

apply_to-Quiet : (axis : AxisId) (m : Machine) → Quiet m (apply_to axis m)
unfolding rotator_busy
apply_to-Quiet axis_foc m = record {
  foc_rests = (FocuserRest.apply_settings-Rests (board_of m)).rests;
  rot_rests = λ h. h;
}
apply_to-Quiet axis_rot m = record {
  foc_rests = λ h. h;
  rot_rests = (RotatorRest.apply_settings-Rests (table_of m)).rests;
}

-- Nothing but fields that no axis reads is changed.
pub beside-Quiet :
    (m m' : Machine)
    → m'.foc_axis ≡ m.foc_axis
    → m'.rot ≡ m.rot
    → m'.rot_axis ≡ m.rot_axis
    → Quiet m m'
unfolding rotator_busy
beside-Quiet m m' f r x = record { foc_rests = λ h. rw f h; rot_rests = λ h. rw (r, x) h }

apply_axis-Quiet : (w : World) (axis : AxisId) (m : Machine) → Quiet m (apply_axis w axis m)
unfolding apply_axis
apply_axis-Quiet w axis m = then-Quiet (beside-Quiet m _ refl refl refl) (apply_to-Quiet axis _)

pub reset-Quiet : (w : World) (m : Machine) → Quiet m (reset_defaults w m)
unfolding reset_defaults set_brightness
reset-Quiet w m = then-Quiet (rescale_axis-Quiet w.now_ms axis_foc _ _ m) (
    then-Quiet (rescale_axis-Quiet w.now_ms axis_rot _ _ _) (
      then-Quiet (beside-Quiet _ _ refl refl refl) (
        then-Quiet (apply_axis-Quiet w axis_foc _)
          (then-Quiet (apply_axis-Quiet w axis_rot _) (beside-Quiet _ _ refl refl refl)))))

pub set_driver-Quiet : (w : World) (a : DriverArgs) (m : Machine) → Quiet m (set_driver w a m)
unfolding set_driver
set_driver-Quiet w a m =
    then-Quiet (rescale_axis-Quiet w.now_ms a.axis _ _ m)
      (then-Quiet (beside-Quiet _ _ refl refl refl) (apply_axis-Quiet w a.axis _))

pub set_threshold-Quiet : (axis : AxisId) (v : ℤ) (m : Machine) → Quiet m (set_threshold axis v m).0
unfolding set_threshold rotator_busy
set_threshold-Quiet axis v m = record {
  foc_rests = λ h. ground (arith, h);
  rot_rests = λ h. ground (arith, h);
}

pub halt_all-Quiet : (m : Machine) → Quiet m (halt_all m)
unfolding halt_all rotator_busy focuser_halt
halt_all-Quiet m = record {
  foc_rests = (FocuserRest.halt-Rests (board_of m)).rests;
  rot_rests = λ h. (RotatorRest.halt-Rests (table_of m)).rests h;
}
