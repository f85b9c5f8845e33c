-- ===== src/Machine/Locked.antt =====
-- The identify gate of fw/src/protocol.cpp on the whole board: from the moment a host opens the port.
use astro_uni_board.Base.{
  ℕ, ◌+◌, ◌-◌, ◌*◌, ◌≡◌, refl, ap, ◌∙◌, ◌⊎◌, inl, inr, Bool, true, false, not, ◌&&◌, ◌||◌, List, [],
  ◌∷◌, ◌==◌, arith, if◌then◌else◌, Bool-cases,
}
use astro_uni_board.Base.Int.{ℤ}
use astro_uni_board.Errors.{FwError, bad_format, not_identified}
use astro_uni_board.Axis.{busy}
use astro_uni_board.Settings.{AxisId, axis_foc, axis_rot}
use astro_uni_board.Env.{Climate}
use astro_uni_board.Tmc.Checks.{Verdict, goes_on, returns, stops}
use astro_uni_board.Protocol.{
  Text, Line, line, too_long, is_digit, refuse, to_common, route, c_string, error, opens_port,
}
use astro_uni_board.Machine.{Machine, World}
use astro_uni_board.Machine.Common.{common_command, protocol_common}
use astro_uni_board.Machine.Loop.{
  DriverReads, dispatch, handle_line, obey, fault_stop, watched, polled, tmc_update, focuser_pass,
  rotator_pass, nv_pass, env_pass, leds_pass, usb_stage, port_checked,
}
use astro_uni_board.Machine.Actions.{
  Action, host_line, loop_focuser, loop_rotator, loop_nv, loop_leds, loop_drivers, loop_env,
  step_interrupt, usb_setup, port_check, interrupted, react, history,
}

-- A line with that command number.
abbrev pub has_number : ℕ → Line → Bool
has_number n (line (a ∷ b ∷ params)) = is_digit a && (is_digit b && ((a - 48) * 10 + (b - 48) == n))
has_number n _ = false

-- The identify command is `:32#`, the ping `:25#`.
abbrev pub unlocks : List Action → Bool
unlocks [] = false
unlocks (host_line w calibration l ∷ rest) = if has_number 32 l then true else unlocks rest
unlocks (a ∷ rest) = unlocks rest

-- What a locked board makes of a line that is no identify command.
Locked : Line → Type 0
Locked l =
    ((e : FwError) × (route false l ≡ refuse e))
    ⊎ ((has_number 25 l ≡ true) × ((params : Text) × (route false l ≡ to_common 25 params)))

route-Locked : (l : Line) → has_number 32 l ≡ false → Locked l
unfolding route Locked
route-Locked too_long h = inl (_, refl)
route-Locked (line []) h = inl (_, refl)
route-Locked (line (a ∷ [])) h = inl (_, refl)
route-Locked (line (a ∷ b ∷ params)) h =
    let number : ℕ = (a - 48) * 10 + (b - 48) in
    elim (Bool-cases (not (is_digit a) || not (is_digit b))) [
      | inl d ↦ inl (bad_format, rw d refl)
      | inr d ↦ elim (Bool-cases (number == 25)) [
        | inl p ↦
            let ping : number ≡ 25 = ground (arith, p) in
            inr (ground (arith, d, p), (c_string params, rw (d, ping) refl))
        | inr p ↦
            let other : (number == 32) ≡ false = ground (arith, h, d) in
            inl (not_identified, rw (d, p, other) refl)
      ]
    ]

-- A ping answers, and does no more.
ping_lem : (w : World) (params : Text) (m : Machine) → (protocol_common w 25 params m).0 ≡ m
unfolding protocol_common common_command
ping_lem w params m = ground arith

obey-identified :
    (axis : AxisId) (v : Verdict) (m : Machine) → (obey axis v m).identified ≡ m.identified
unfolding fault_stop
obey-identified axis goes_on m = refl
obey-identified axis returns m = refl
obey-identified axis_foc (stops code) m = refl
obey-identified axis_rot (stops code) m = refl

drivers-identified :
    (w : World) (r : DriverReads) (m : Machine) → (tmc_update w r m).identified ≡ m.identified
unfolding tmc_update polled watched
drivers-identified w r m = elim (Bool-cases m.tmc.started) [
  | inr off ↦ rw off refl
  | inl on ↦ elim (Bool-cases (busy m.foc_axis)) [
    | inl f ↦ rw (on, f) (obey-identified axis_foc _ _)
    | inr f ↦ elim (Bool-cases (busy m.rot_axis)) [
      | inl g ↦ rw (on, f, g) (obey-identified axis_rot _ _)
      | inr g ↦ rw (on, f, g) refl
    ]
  ]
]

interrupted-identified :
    (axis : AxisId) (m : Machine) → (interrupted axis m).identified ≡ m.identified
interrupted-identified axis_foc m = refl
interrupted-identified axis_rot m = refl

stage_flags :
    (kind request : ℕ) (m : Machine)
    → opens_port kind request ≡ true
    → (usb_stage kind request m).port_opened ≡ true
unfolding usb_stage
stage_flags kind request m o = ground (arith, o)

locks : (m : Machine) → m.port_opened ≡ true → (port_checked m).identified ≡ false
unfolding port_checked
locks m o = ground (arith, o)

kept_either :
    (b : Bool) (m c : Machine)
    → m.identified ≡ false
    → c.identified ≡ false
    → (if b then m else c).identified ≡ false
kept_either true m c p q = p
kept_either false m c p q = q

unlocks-cons :
    (a : Action) (rest : List Action)
    → unlocks (a ∷ rest) ≡ false
    → (unlocks (a ∷ []) ≡ false) × (unlocks rest ≡ false)
unlocks-cons (host_line w calibration l) rest n = ground (arith, n)
unlocks-cons (loop_focuser w) rest n = (refl, n)
unlocks-cons (loop_rotator w) rest n = (refl, n)
unlocks-cons (loop_nv w) rest n = (refl, n)
unlocks-cons (loop_leds w) rest n = (refl, n)
unlocks-cons (loop_drivers w r) rest n = (refl, n)
unlocks-cons (loop_env a) rest n = (refl, n)
unlocks-cons (step_interrupt axis) rest n = (refl, n)
unlocks-cons (usb_setup kind request) rest n = (refl, n)
unlocks-cons port_check rest n = (refl, n)

module _ (first_delay : ℕ → ℕ) where
  -- What a locked board answers to a line, if that is no identify command.
  pub locked_line :
      (w : World) (calibration : List ℤ) (l : Line) (m : Machine)
      → m.identified ≡ false
      → has_number 32 l ≡ false
      → let (m', reply) = handle_line first_delay w calibration l m in
        (m' ≡ m) × ((has_number 25 l ≡ true) ⊎ ((e : FwError) × (reply ≡ error e)))
  unfolding handle_line dispatch Locked
  locked_line w calibration l m locked h =
      let gate = ap (λ b. route b l) locked in
      elim (route-Locked l h) [
        | inl (e, r) ↦ let refused = gate ∙ r in rw refused (refl, inr (e, refl))
        | inr (ping, (params, r)) ↦
            let pinged = gate ∙ r in rw pinged (ping_lem w params m, inl ping)
      ]

  module _ (convert : ℕ → ℕ → Climate) where
    react-identified :
        (a : Action) (m : Machine)
        → unlocks (a ∷ []) ≡ false
        → m.identified ≡ false
        → (react first_delay convert a m).identified ≡ false
    unfolding react focuser_pass rotator_pass nv_pass env_pass leds_pass usb_stage port_checked
    react-identified (host_line w calibration l) m n h =
        let same = locked_line w calibration l m h (ground (arith, n)) in
        ap (λ k. k.identified) same.0 ∙ h
    react-identified (loop_focuser w) m n h = h
    react-identified (loop_rotator w) m n h = h
    react-identified (loop_nv w) m n h = kept_either m.safe _ _ h h
    react-identified (loop_leds w) m n h = h
    react-identified (loop_drivers w r) m n h = drivers-identified w r m ∙ h
    react-identified (loop_env a) m n h = kept_either m.safe _ _ h h
    react-identified (step_interrupt axis) m n h = interrupted-identified axis m ∙ h
    react-identified (usb_setup kind request) m n h = kept_either (opens_port kind request) _ _ h h
    react-identified port_check m n h = kept_either m.port_opened _ _ refl h

    history-identified :
        (actions : List Action) (m : Machine)
        → unlocks actions ≡ false
        → m.identified ≡ false
        → (history first_delay convert actions m).identified ≡ false
    unfolding history
    history-identified [] m n h = h
    history-identified (a ∷ rest) m n h =
        let (first, more) = unlocks-cons a rest n in
        history-identified rest (react first_delay convert a m) more (react-identified a m first h)

    -- A host opens the port (a class request for the line coding or the control lines), and the loop
    -- begins to read the port: whatever happens from then on, as long as no identify command comes in,
    -- every line but a ping is answered with an error, and no line changes anything.
    pub opened_port_locks :
        (kind request : ℕ) (after : List Action) (m : Machine) (w : World) (calibration : List ℤ)
        (l : Line)
        → opens_port kind request ≡ true
        → unlocks after ≡ false
        → has_number 32 l ≡ false
        → let opened = usb_stage kind request m in
          let now = history first_delay convert (port_check ∷ after) opened in
          let (m', reply) = handle_line first_delay w calibration l now in
          (m' ≡ now) × ((has_number 25 l ≡ true) ⊎ ((e : FwError) × (reply ≡ error e)))
    unfolding history react
    opened_port_locks kind request after m w calibration l o a h =
        let opened = usb_stage kind request m in
        let start = port_checked opened in
        let flagged : opened.port_opened ≡ true = stage_flags kind request m o in
        locked_line w calibration l (history first_delay convert after start)
          (history-identified after start a (locks opened flagged)) h
