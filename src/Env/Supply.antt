-- ===== src/Env/Supply.antt =====
-- How often the supply of the sensors of fw/src/env_sht31.cpp is cut.
use astro_uni_board.Base.{
  ℕ, ◌+◌, ◌*◌, ◌≤◌, ◌≡◌, refl, Bool, true, false, not, ◌&&◌, Option, none, some, List, [], ◌∷◌,
  arith, ltb, leb, if◌then◌else◌,
}
use astro_uni_board.Base.Word.{sub32}
use astro_uni_board.Env.{
  Climate, Frame, Sensor, Env, EnvState, st_power_up, st_idle, st_measuring, st_power_off,
  EnvAnswers, enter, tallied, is_hung, after_reads, read_measurement, read_triggered,
  start_measurement, measure, read_both, in_state, env_update,
}

-- No more failures than two are remembered, and none of a sensor that never answered.
pub record IsCounted (e : Env) : Type 0 where
  pub onboard_few : e.onboard.fails ≤ 2
  pub external_few : e.external.fails ≤ 2

abbrev pub worst : Env → ℕ
worst e = if ltb e.onboard.fails e.external.fails then e.external.fails else e.onboard.fails

abbrev pub is_measuring : EnvState → Bool
is_measuring st_measuring = true
is_measuring _ = false

abbrev pub is_off : EnvState → Bool
is_off st_power_off = true
is_off _ = false

-- Whether a pass ends a measurement, and whether it cuts the supply.
abbrev ends_round : Env → Env → Bool
ends_round e e' = is_measuring e.state && not (is_measuring e'.state)

abbrev cuts : Env → Env → Bool
cuts e e' = not (is_off e.state) && is_off e'.state

abbrev one_if : Bool → ℕ
one_if true = 1
one_if false = 0

after_reads-worst :
    (at : ℕ) (e : Env)
    → IsCounted e
    → let e' = after_reads at e in
      IsCounted e'
      × (3 * one_if (is_off e'.state) + worst e' ≤ 1 + worst e)
      × (is_measuring e'.state ≡ false)
unfolding after_reads tallied is_hung
after_reads-worst at e c = ground (arith, c.onboard_few, c.external_few)

-- A pass that cuts the supply uses up three failures, and only the end of a measurement adds one.
record Paid (e e' : Env) : Type 0 where
  still : IsCounted e'
  paid : 3 * one_if (cuts e e') + worst e' ≤ one_if (ends_round e e') + worst e

choose : {e x y : Env} (b : Bool) → Paid e x → Paid e y → Paid e (if b then x else y)
choose true p q = p
choose false p q = q

-- A pass that leaves the counters alone.
quiet_pass :
    (e e' : Env)
    → IsCounted e
    → e'.onboard.fails ≡ e.onboard.fails
    → e'.external.fails ≡ e.external.fails
    → cuts e e' ≡ false
    → Paid e e'
quiet_pass e e' c a b stays = record {
  still = record {
    onboard_few = ground (arith, a, c.onboard_few);
    external_few = ground (arith, b, c.external_few);
  };
  paid = rw (stays, a, b) (omega arith);
}

not_cut : (e : Env) → cuts e e ≡ false
not_cut e = ground arith

start-fails : (acks : Bool) (x : Sensor) → (start_measurement acks x).fails ≡ x.fails
unfolding start_measurement
start-fails acks x = ground arith

module _ (convert : ℕ → ℕ → Climate) where
  read-fails : (f : Option Frame) (x : Sensor) → (read_triggered convert f x).fails ≡ x.fails
  unfolding read_triggered read_measurement
  read-fails none x = ground arith
  read-fails (some f) x = ground arith

  ended :
      (w : EnvAnswers) (e : Env)
      → e.state ≡ st_measuring
      → IsCounted e
      → Paid e (after_reads w.entered (read_both convert w e))
  ended w e is c =
      let a = read-fails w.onboard_frame e.onboard in
      let b = read-fails w.external_frame e.external in
      let r =
        after_reads-worst w.entered (read_both convert w e)
          (record { onboard_few = rw a c.onboard_few; external_few = rw b c.external_few }) in
      record { still = r.0; paid = ground (arith, is, a, b, r.1, r.2) }

  state-Paid :
      (w : EnvAnswers) (e : Env)
      → IsCounted e
      → (s : EnvState) → e.state ≡ s
      → Paid e (in_state convert s w e)
  state-Paid w e c st_power_up is =
      (choose (leb 2 (sub32 w.now e.since))
        (quiet_pass e (enter st_idle w.entered e) c refl refl (ground (arith, is)))
        (quiet_pass e e c refl refl (not_cut e)))
  state-Paid w e c st_idle is =
      (choose (ltb (sub32 w.now e.last_start) 2000) (quiet_pass e e c refl refl (not_cut e)) (
        quiet_pass e (enter st_measuring w.entered (measure convert w e)) c
          (start-fails w.onboard_acks e.onboard) (start-fails w.external_acks e.external)
          (ground (arith, is))))
  state-Paid w e c st_measuring is =
      (choose (ltb (sub32 w.now e.since) 20) (quiet_pass e e c refl refl (not_cut e))
        (ended w e is c))
  state-Paid w e c st_power_off is =
      (choose (ltb (sub32 w.now e.since) 100) (quiet_pass e e c refl refl (not_cut e)) (
        quiet_pass e (enter st_power_up w.entered (record e { powered = true })) c refl refl
          (ground (arith, is))))

  pass-Paid : (w : EnvAnswers) (e : Env) → IsCounted e → Paid e (env_update convert w e)
  unfolding env_update
  pass-Paid w e c = state-Paid w e c e.state refl

  -- The passes that cut the supply, and those that end a measurement.
  unfoldable pub cut_count : List EnvAnswers → Env → ℕ
  cut_count [] e = 0
  cut_count (w ∷ ws) e = let e' = env_update convert w e in one_if (cuts e e') + cut_count ws e'

  unfoldable pub round_count : List EnvAnswers → Env → ℕ
  round_count [] e = 0
  round_count (w ∷ ws) e =
      let e' = env_update convert w e in one_if (ends_round e e') + round_count ws e'

  -- The supply of the sensors is cut at most once for every three measurements that end, whatever the
  -- sensors and the clock do; failures that are counted at the beginning may stand for two of them.
  pub cuts_bounded :
      (ws : List EnvAnswers) (e : Env)
      → IsCounted e
      → 3 * cut_count ws e ≤ round_count ws e + worst e
  unfolding cut_count round_count
  cuts_bounded [] e c = omega arith
  cuts_bounded (w ∷ ws) e c =
      let p = pass-Paid w e c in
      let rest = cuts_bounded ws (env_update convert w e) p.still in ground (arith, p.paid, rest)
