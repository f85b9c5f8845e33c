-- ===== src/Protocol/RotatorBlock.antt =====
-- fw/src/protocol_rotator.cpp: the commands 70 to 89.
use astro_uni_board.Base.{
  ℕ, ◌≡◌, refl, ◌⊎◌, ◌||◌, Option, none, some, List, [], ◌∷◌, arith, ◌==◌, if◌then◌else◌,
}
use astro_uni_board.Base.Int.{ℤ, pos, negsuc, pos_part, ltb_ℤ, ◌≤ℤ◌}
use astro_uni_board.Base.Word.{int32}
use astro_uni_board.Errors.{FwError, bad_param, busy, unknown_cmd}
use astro_uni_board.Settings.{RotatorSettings}
use astro_uni_board.Wrap.Best.{InRange}
use astro_uni_board.Rotator.{
  Turntable, Nearby, any_busy, rotator_angle, rotator_halt, rotator_sync, rotator_move_to,
  rotator_move_by,
}
use astro_uni_board.Rotator.Sequences.{rotator_apply_settings, rotator_imu_home}
use astro_uni_board.Protocol.{Text, Reply, ok, error, int, two, reply_of, proto_split, proto_int32}

abbrev with_rot : Turntable → RotatorSettings → Turntable
with_rot b r = record b { settings = record (b.settings) { rot = r } }

abbrev pub replied_rot : Turntable × FwError → Turntable × Reply
replied_rot (b, e) = (b, reply_of e)

-- A getter takes no parameters.
abbrev pub no_more : List Text → Reply → Turntable → Turntable × Reply
no_more [] answer b = (b, answer)
no_more (v ∷ vs) answer b = (b, error bad_param)

-- The number that is the one parameter, and `oneValue`.
abbrev pub one_number : List Text → Option ℤ
one_number (v ∷ []) = proto_int32 v
one_number _ = none

abbrev pub one_in_range : List Text → ℤ → ℤ → Option ℤ
one_in_range vs lo hi = elim (one_number vs) [
  | none ↦ none
  | some v ↦ if ltb_ℤ v lo || ltb_ℤ hi v then none else some v
]

abbrev pub on_value : Option ℤ → (ℤ → Turntable × Reply) → Turntable → Turntable × Reply
on_value none act b = (b, error bad_param)
on_value (some v) act b = act v

-- `:75`
abbrev pub two_numbers : List Text → Option ℤ × Option ℤ
two_numbers (v ∷ w ∷ []) = (proto_int32 v, proto_int32 w)
two_numbers _ = (none, none)

unfoldable pub set_range : Nearby → ℤ → ℤ → Turntable → Turntable × Reply
set_range w mn mx b =
    let angle = rotator_angle b in
    if ltb_ℤ mn (negsuc 35999) || ltb_ℤ (pos 0) mn || ltb_ℤ mx (pos 0) || ltb_ℤ (pos 36000) mx
    then (b, error bad_param)
    else if any_busy w b
    then (b, error busy)
    else if ltb_ℤ angle mn || ltb_ℤ mx angle
    then (b, error bad_param)
    else (with_rot b (record (b.settings.rot) { wrap_min = mn; wrap_max = mx }), ok)

abbrev pub on_range : Nearby → Option ℤ × Option ℤ → Turntable → Turntable × Reply
on_range w (some mn, some mx) b = set_range w mn mx b
on_range w (none, _) b = (b, error bad_param)
on_range w (some mn, none) b = (b, error bad_param)

-- `:79`, `:81`, `:83` and `:85`
unfoldable pub set_rot_speed : Turntable → ℤ → Turntable × Reply
set_rot_speed b v =
    (rotator_apply_settings (with_rot b (record (b.settings.rot) { speed = pos_part v })), ok)

unfoldable pub set_rot_accel : Turntable → ℤ → Turntable × Reply
set_rot_accel b v =
    (rotator_apply_settings (with_rot b (record (b.settings.rot) { accel = pos_part v })), ok)

unfoldable pub set_rot_reverse : Nearby → Turntable → ℤ → Turntable × Reply
set_rot_reverse w b v = if any_busy w b then (b, error busy) else (
  rotator_apply_settings (with_rot b (record (b.settings.rot) { reverse = pos_part v })),
  ok,
)

unfoldable pub set_spk : Nearby → Turntable → ℤ → Turntable × Reply
set_spk w b v = if any_busy w b then (b, error busy) else (
  rotator_apply_settings (with_rot b (record (b.settings.rot) { steps_per_1000_deg = pos_part v })),
  ok,
)

-- `:87` and `:89`
abbrev pub set_boot_home : Turntable → ℤ → Turntable × Reply
set_boot_home b v = (with_rot b (record (b.settings.rot) { boot_home = pos_part v }), ok)

abbrev pub set_home_tol : Turntable → ℤ → Turntable × Reply
set_home_tol b v = (with_rot b (record (b.settings.rot) { home_tol_cdeg = pos_part v }), ok)

-- The commands 78 to 89.
unfoldable pub rotator_setting : Nearby → ℕ → List Text → Turntable → Turntable × Reply
rotator_setting w cmd vs b =
    let r = b.settings.rot in
    if cmd == 78
    then no_more vs (int (int32 (pos r.speed))) b
    else if cmd == 79
    then on_value (one_in_range vs (pos 10) (pos 3600)) (set_rot_speed b) b
    else if cmd == 80
    then no_more vs (int (int32 (pos r.accel))) b
    else if cmd == 81
    then on_value (one_in_range vs (pos 10) (pos 36000)) (set_rot_accel b) b
    else if cmd == 82
    then no_more vs (int (if r.reverse == 0 then pos 0 else pos 1)) b
    else if cmd == 83
    then on_value (one_in_range vs (pos 0) (pos 1)) (set_rot_reverse w b) b
    else if cmd == 84
    then no_more vs (int (int32 (pos r.steps_per_1000_deg))) b
    else if cmd == 85
    then on_value (one_in_range vs (pos 1000) (pos 10000000)) (set_spk w b) b
    else if cmd == 86
    then no_more vs (int (if r.boot_home == 0 then pos 0 else pos 1)) b
    else if cmd == 87
    then on_value (one_in_range vs (pos 0) (pos 1)) (set_boot_home b) b
    else if cmd == 88
    then no_more vs (int (pos r.home_tol_cdeg)) b
    else if cmd == 89
    then on_value (one_in_range vs (pos 5) (pos 500)) (set_home_tol b) b
    else (b, error unknown_cmd)

module _ (first_delay : ℕ → ℕ) where
  unfoldable pub rotator_command : Nearby → ℕ → List Text → Turntable → Turntable × Reply
  rotator_command w cmd vs b =
      if cmd == 70
      then no_more vs (int (rotator_angle b)) b
      else if cmd == 71
      then on_value (one_number vs) (λ v. replied_rot (rotator_move_to first_delay w v b)) b
      else if cmd == 72
      then on_value (one_number vs) (λ v. replied_rot (rotator_move_by first_delay w v b)) b
      else if cmd == 73
      then (rotator_halt b, ok)
      else if cmd == 74
      then no_more vs (two b.settings.rot.wrap_min b.settings.rot.wrap_max) b
      else if cmd == 75
      then on_range w (two_numbers vs) b
      else if cmd == 76
      then on_value (one_number vs) (λ v. replied_rot (rotator_sync w v b)) b
      else if cmd == 77
      then elim vs [ [] ↦ replied_rot (rotator_imu_home w b) | _ ∷ _ ↦ (b, error bad_param) ]
      else rotator_setting w cmd vs b

  abbrev pub on_values : Nearby → ℕ → Option (List Text) → Turntable → Turntable × Reply
  on_values w cmd none b = (if cmd == 73 then rotator_halt b else b, error bad_param)
  on_values w cmd (some vs) b = rotator_command w cmd vs b

  unfoldable pub protocol_rotator : Nearby → ℕ → Text → Turntable → Turntable × Reply
  protocol_rotator w cmd params b = on_values w cmd (proto_split params) b

  on_values-halt :
      (w : Nearby) (o : Option (List Text)) (b : Turntable)
      → (on_values w 73 o b).0 ≡ rotator_halt b
  unfolding rotator_command
  on_values-halt w none b = refl
  on_values-halt w (some vs) b = refl

  -- Stopping wins: command 73 halts the rotator whatever follows it on the line, malformed parameters
  -- included.
  pub protocol_rotator-rotator_halt :
      (w : Nearby) (params : Text) (b : Turntable)
      → (protocol_rotator w 73 params b).0 ≡ rotator_halt b
  unfolding protocol_rotator
  protocol_rotator-rotator_halt w params b = on_values-halt w (proto_split params) b

-- A wrap range that is accepted contains 0 and the current angle and is at most one turn to each side;
-- one that is not changes nothing.
pub set_range-bounds :
    (w : Nearby) (mn mx : ℤ) (b : Turntable)
    → let c = (set_range w mn mx b).0 in
      (((set_range w mn mx b).1 ≡ ok)
        × (negsuc 35999 ≤ℤ c.settings.rot.wrap_min)
        × (c.settings.rot.wrap_min ≤ℤ pos 0)
        × (pos 0 ≤ℤ c.settings.rot.wrap_max)
        × (c.settings.rot.wrap_max ≤ℤ pos 36000)
        × InRange c.settings.rot.wrap_min c.settings.rot.wrap_max (rotator_angle b))
      ⊎ (c ≡ b)
unfolding set_range
set_range-bounds w mn mx b = ground arith
