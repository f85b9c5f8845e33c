-- ===== src/Focuser/Limits.antt =====
-- The soft limits of the focuser (fw/src/focuser.cpp), whatever the host and the motor do.
use astro_uni_board.Base.{
  ℕ, ◌≤◌, ◌<◌, ◌≡◌, refl, ◌⊎◌, inl, inr, Bool, false, not, ◌&&◌, ◌||◌, arith, ◌==◌, Bool-cases,
  if◌then◌else◌,
}
use astro_uni_board.Base.Int.{ℤ, pos, negsuc, pos_part, magnitude, ◌-ℤ◌, ◌≤ℤ◌, ltb_ℤ}
use astro_uni_board.Settings.{FocuserSettings}
use astro_uni_board.Axis
use astro_uni_board.Axis.{
  Axis, TimerView, idle, motion_busy, prepared, move_to, set_position, just_stopped, set_speed,
  set_accel, set_reverse, set_idle_off,
}
use astro_uni_board.Axis.Moving.{IsMoving}
use astro_uni_board.Axis.Exact.{move_length, prepared-IsMoving}
use astro_uni_board.Axis.Events.{Event, apply, apply-Underway, apply-idle}
use astro_uni_board.Board.{Board, Around, put_nv, view_of}
use astro_uni_board.Focuser.{
  focuser_apply_settings, note_stop, saved_now, save_when_due, focuser_update, lead_of, start_move,
  try_move, focuser_sync, focuser_rescale, rescaled, clamp64, scale,
}

-- Inside the soft limits.
abbrev pub Within : ℤ → ℤ → Type 0
Within max p = (pos 0 ≤ℤ p) × (p ≤ℤ max)

pub record IsSafe (f : FocuserSettings) (a : Axis) : Type 0 where
  pub max_ok : (pos 0 ≤ℤ f.max_pos) × (f.max_pos ≤ℤ pos 10000000)
  pub lash_ok : f.backlash ≤ 10000
  pub here : Within f.max_pos a.position
  pub going : (a.motion ≡ idle) ⊎ (IsMoving a × Within f.max_pos a.target)

abbrev pub IsLimited : Board → Type 0
IsLimited b = IsSafe b.settings.foc b.axis

-- One event of the axis.
pub apply-IsSafe : (e : Event) (f : FocuserSettings) (a : Axis) → IsSafe f a → IsSafe f (apply e a)
apply-IsSafe e f a s = elim (s.going) [
  | inl still ↦
      let (quiet, place) = apply-idle e a still in
      record { max_ok = s.max_ok; lash_ok = s.lash_ok; here = rw place (s.here); going = inl quiet }
  | inr (v, t) ↦ elim (apply-Underway e a v) [
    | inl (quiet, (k, h, way)) ↦ record {
      max_ok = s.max_ok;
      lash_ok = s.lash_ok;
      here = ground (arith, s.here);
      going = inl quiet;
    }
    | inr g ↦ record {
      max_ok = s.max_ok;
      lash_ok = s.lash_ok;
      here = ground (arith, s.here, g.moving.toward, g.same_goal);
      going = inr (g.moving, rw (g.same_goal) t);
    }
  ]
]

pub lead_of-le : (b : Board) (dir : ℤ) → lead_of b dir ≤ b.settings.foc.backlash
unfolding lead_of
lead_of-le b dir = ground arith

pub distance-le :
    (max goal p : ℤ)
    → Within max goal
    → Within max p
    → max ≤ℤ pos 10000000
    → magnitude (goal -ℤ p) ≤ 10000000
unfolding ◌-ℤ◌
distance-le max goal p g h m = ground arith

module _ (first_delay : ℕ → ℕ) where
  prepared-IsSafe :
      (f : FocuserSettings) (a : Axis) (t : TimerView) (goal : ℤ) (lead : ℕ)
      → IsSafe f a
      → Within f.max_pos goal
      → lead ≤ f.backlash
      → 0 < move_length a goal lead
      → IsSafe f (prepared first_delay a t goal lead)
  prepared-IsSafe f a t goal lead s g l some =
      let far = distance-le f.max_pos goal a.position g s.here s.max_ok.1 in
      let v = prepared-IsMoving first_delay a t goal lead some (omega (arith, far, l, s.lash_ok)) in
      record {
        max_ok = s.max_ok;
        lash_ok = s.lash_ok;
        here = unfold prepared in s.here;
        going = inr (v.0, unfold prepared in g);
      }

  move_to-IsSafe :
      (f : FocuserSettings) (a : Axis) (t : TimerView) (goal : ℤ) (lead : ℕ)
      → IsSafe f a
      → Within f.max_pos goal
      → lead ≤ f.backlash
      → IsSafe f (move_to first_delay a t goal lead).0
  unfolding move_to prepared
  move_to-IsSafe f a t goal lead s g l =
      elim (Bool-cases (t.any_busy || t.running || not a.begun)) [
        | inl h ↦ rw h s
        | inr h ↦ rw h (elim (Bool-cases ((magnitude (goal -ℤ a.position) == 0) && (lead == 0))) [
          | inl e ↦ rw e s
          | inr e ↦
              let p = prepared-IsSafe f a t goal lead s g l (ground arith) in
              rw e (elim (Bool-cases t.starts) [
                | inl k ↦ rw k p
                | inr k ↦ rw k (record {
                  max_ok = p.max_ok;
                  lash_ok = p.lash_ok;
                  here = p.here;
                  going = inl refl;
                })
              ])
        ])
      ]

  start_move-IsLimited :
      (w : Around) (goal : ℤ) (b : Board)
      → IsLimited b
      → Within b.settings.foc.max_pos goal
      → IsLimited (start_move first_delay w goal b).0
  unfolding start_move put_nv
  start_move-IsLimited w goal b s g =
      let dir = if ltb_ℤ b.axis.position goal then pos 1 else negsuc 0 in
      let lead = lead_of b dir in
      let m = move_to-IsSafe b.settings.foc b.axis (view_of w b) goal lead s g (lead_of-le b dir) in
      elim (Bool-cases (move_to first_delay b.axis (view_of w b) goal lead).1) [
        | inl started ↦ rw started m
        | inr refused ↦ rw refused m
      ]

  pub try_move-IsLimited :
      (w : Around) (goal : ℤ) (absolute : Bool) (b : Board)
      → IsLimited b
      → IsLimited (try_move first_delay w goal absolute b).0
  unfolding try_move
  try_move-IsLimited w goal absolute b s = ground (arith, start_move-IsLimited w goal b s)

pub focuser_apply_settings-IsLimited :
    (b : Board) → IsLimited b → IsLimited (focuser_apply_settings b)
unfolding focuser_apply_settings set_speed set_accel set_reverse set_idle_off
focuser_apply_settings-IsLimited b s = ground (arith, s.max_ok)

pub update-IsLimited : (w : Around) (b : Board) → IsLimited b → IsLimited (focuser_update w b)
unfolding focuser_update save_when_due saved_now note_stop just_stopped put_nv
update-IsLimited w b s = ground (arith, s.max_ok)

pub sync-IsLimited :
    (w : Around) (p : ℤ) (b : Board) → IsLimited b → IsLimited (focuser_sync w p b).0
unfolding focuser_sync put_nv set_position Axis.busy
sync-IsLimited w p b s = ground (arith, s.max_ok)

clamp64-bounds : (v lo hi : ℤ) → lo ≤ℤ hi → (lo ≤ℤ clamp64 v lo hi) × (clamp64 v lo hi ≤ℤ hi)
unfolding clamp64
clamp64-bounds v lo hi h = ground arith

clamp64-size : (v : ℤ) (hi : ℕ) → pos_part (clamp64 v (pos 0) (pos hi)) ≤ hi
unfolding clamp64
clamp64-size v hi = ground arith

idle_of : (a : Axis) → Axis.busy a ≡ false → a.motion ≡ idle
unfolding Axis.busy
idle_of a h = ground arith

rescaled-IsSafe :
    (f : FocuserSettings) (a : Axis) (o n : ℕ)
    → a.motion ≡ idle
    → IsSafe
        (rescaled f o n)
        (set_position a (clamp64 (scale a.position o n) (pos 0) (rescaled f o n).max_pos))
unfolding rescaled set_position
rescaled-IsSafe f a o n still =
    let m = clamp64 (scale f.max_pos o n) (pos 1) (pos 10000000) in
    let (m_low, m_high) =
      clamp64-bounds (scale f.max_pos o n) (pos 1) (pos 10000000) (omega arith) in
    rw still (record {
      max_ok = (omega (arith, m_low), m_high);
      lash_ok = clamp64-size (scale (pos f.backlash) o n) 10000;
      here = clamp64-bounds (scale a.position o n) (pos 0) m (omega (arith, m_low));
      going = inl refl;
    })

pub rescale-IsLimited :
    (now o n : ℕ) (b : Board) → IsLimited b → IsLimited (focuser_rescale now o n b)
unfolding focuser_rescale
rescale-IsLimited now o n b s = elim (Bool-cases (o == 0 || n == 0 || o == n || Axis.busy b.axis)) [
  | inl skip ↦ rw skip s
  | inr free ↦
      let r = rescaled-IsSafe b.settings.foc b.axis o n (idle_of b.axis (ground arith)) in
      rw free (
        focuser_apply_settings-IsLimited
          (record b {
            settings = record (b.settings) { foc = rescaled b.settings.foc o n };
            axis =
                set_position b.axis (
                  clamp64 (scale b.axis.position o n) (pos 0)
                    (rescaled b.settings.foc o n).max_pos);
          })
          r)
]
