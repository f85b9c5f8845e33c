-- ===== src/Tmc/Silence.antt =====
-- A driver that stops answering during a move (`watchMove` of fw/src/tmc2209.cpp).
use astro_uni_board.Base.{
  ℕ, ◌+◌, ◌≤◌, ◌<◌, ◌≡◌, refl, sym, ap, subst, ◌∙◌, Bool, true, false, ◌||◌, none, List, [], ◌∷◌,
  arith, leb, if◌then◌else◌, Bool-cases, inl, inr,
}
use astro_uni_board.Base.Word.{sub32}
use astro_uni_board.Errors.{motor_driver}
use astro_uni_board.Settings.{AxisId, axis_foc, axis_rot, DriverConfig}
use astro_uni_board.Axis.{Axis}
use astro_uni_board.Tmc.{Tmc, st, tmc_answering}
use astro_uni_board.Tmc.Checks.{
  Verdict, goes_on, returns, stops, MoveReads, fresh_stats, failed_read, fault_check, stall_check,
  watch_move,
}

-- A pass of the loop during the move.
pub record Pass : Type 0 where
  pub now : ℕ
  pub moving : Axis
  pub reads : MoveReads

-- A pass reads the status every 100 ms, and otherwise a StallGuard sample every 20 ms.
abbrev pub is_due : ℕ → Tmc → Bool
is_due now t = leb 100 (sub32 now t.last_fault) || leb 20 (sub32 now t.last_sg)

-- What `watch` makes of a pass.
abbrev pub follow : (Tmc → Tmc × Verdict) → Tmc × Verdict → Tmc × Verdict
follow next (t, stops e) = (t, stops e)
follow next (t, returns) = next t
follow next (t, goes_on) = next t

module _ (axis : AxisId) (c : DriverConfig) where
  -- Passes until one stops the axis.
  abbrev pub watch : List Pass → Tmc → Tmc × Verdict
  watch [] t = (t, returns)
  watch (p ∷ ps) t = follow (watch ps) (watch_move axis c p.now p.moving p.reads t)

  -- The reads that these passes try.
  abbrev pub tries : List Pass → Tmc → ℕ
  tries [] t = 0
  tries (p ∷ ps) t =
      (if is_due p.now t then 1 else 0) + tries ps (watch_move axis c p.now p.moving p.reads t).0

  -- All passes belong to the move that began at `start`, and nothing is answered in them.
  abbrev pub AreSilent : ℕ → List Pass → Type 0
  AreSilent start [] = Unit {0}
  AreSilent start (p ∷ ps) =
      ((p.moving.start_ms ≡ start) × (p.reads.drv_status ≡ none) × (p.reads.sg_result ≡ none))
      × AreSilent start ps

-- The state within the move, after `n` reads that failed in a row.
record Missed (axis : AxisId) (start n : ℕ) (t : Tmc) : Type 0 where
  same_move : (st t axis).move_start ≡ start
  count : (st t axis).fail_count ≡ n

idle_step :
    (axis : AxisId) (c : DriverConfig) (p : Pass) (t : Tmc)
    → (st t axis).move_start ≡ p.moving.start_ms
    → is_due p.now t ≡ false
    → watch_move axis c p.now p.moving p.reads t ≡ (t, returns)
unfolding watch_move fresh_stats fault_check stall_check
idle_step axis c p t same quiet = ground (arith, same, quiet)

failing_step :
    (axis : AxisId) (c : DriverConfig) (p : Pass) (t : Tmc) (start n : ℕ)
    → Missed axis start n t
    → p.moving.start_ms ≡ start
    → p.reads.drv_status ≡ none
    → p.reads.sg_result ≡ none
    → is_due p.now t ≡ true
    → n < 2
    → let r = watch_move axis c p.now p.moving p.reads t in
      (r.1 ≡ returns) × ((st r.0 axis).move_start ≡ start) × ((st r.0 axis).fail_count ≡ n + 1)
unfolding watch_move fresh_stats fault_check stall_check failed_read
failing_step axis_foc c p t start n m s d g due small =
    ground (arith, m.same_move, m.count, s, d, g, due, small)
failing_step axis_rot c p t start n m s d g due small =
    ground (arith, m.same_move, m.count, s, d, g, due, small)

last_step :
    (axis : AxisId) (c : DriverConfig) (p : Pass) (t : Tmc) (start : ℕ)
    → Missed axis start 2 t
    → p.moving.start_ms ≡ start
    → p.reads.drv_status ≡ none
    → p.reads.sg_result ≡ none
    → is_due p.now t ≡ true
    → let r = watch_move axis c p.now p.moving p.reads t in
      (r.1 ≡ stops motor_driver) × (tmc_answering r.0 axis ≡ false)
unfolding watch_move fresh_stats fault_check stall_check failed_read
last_step axis_foc c p t start m s d g due = ground (arith, m.same_move, m.count, s, d, g, due)
last_step axis_rot c p t start m s d g due = ground (arith, m.same_move, m.count, s, d, g, due)

failing_answers :
    (axis : AxisId) (c : DriverConfig) (p : Pass) (t : Tmc) (start n : ℕ)
    → Missed axis start n t
    → p.moving.start_ms ≡ start
    → p.reads.drv_status ≡ none
    → p.reads.sg_result ≡ none
    → is_due p.now t ≡ true
    → n < 2
    → tmc_answering (watch_move axis c p.now p.moving p.reads t).0 axis ≡ tmc_answering t axis
unfolding watch_move fresh_stats fault_check stall_check failed_read
failing_answers axis_foc c p t start n m s d g due small =
    ground (arith, m.same_move, m.count, s, d, g, due, small)
failing_answers axis_rot c p t start n m s d g due small =
    ground (arith, m.same_move, m.count, s, d, g, due, small)

-- The axis is stopped exactly where `k` is three at least, and its driver counts as silent then; it
-- counted as `was` before.
abbrev pub StopsAtThird : AxisId → ℕ → Bool → Tmc × Verdict → Type 0
StopsAtThird axis k was r =
    (r.1 ≡ (if leb 3 k then stops motor_driver else returns))
    × (tmc_answering r.0 axis ≡ (if leb 3 k then false else was))

follow_returns :
    (next : Tmc → Tmc × Verdict) (r : Tmc × Verdict) → r.1 ≡ returns → follow next r ≡ next (r.0)
follow_returns next (t, goes_on) e = refl
follow_returns next (t, returns) e = refl
follow_returns next (t, stops d) e = absurd (cc e)

follow_stops :
    (next : Tmc → Tmc × Verdict) (r : Tmc × Verdict) → r.1 ≡ stops motor_driver → follow next r ≡ r
follow_stops next (t, goes_on) e = absurd (cc e)
follow_stops next (t, returns) e = absurd (cc e)
follow_stops next (t, stops d) e = refl

by_parts :
    (axis : AxisId) (was : Bool) (k k' : ℕ) (r r' : Tmc × Verdict)
    → k ≡ k'
    → r ≡ r'
    → StopsAtThird axis k' was r'
    → StopsAtThird axis k was r
by_parts axis was k k' r r' e f s =
    subst (λ x. StopsAtThird axis x was r) (sym e) (subst (StopsAtThird axis k' was) (sym f) s)

tried : (b v : Bool) (k : ℕ) → b ≡ v → (if b then 1 else 0) + k ≡ (if v then 1 else 0) + k
tried b v k e = ap (λ x. (if x then 1 else 0) + k) e

silent_run :
    (axis : AxisId) (c : DriverConfig) (ps : List Pass) (t : Tmc) (start n : ℕ)
    → Missed axis start n t
    → n ≤ 2
    → AreSilent axis c start ps
    → StopsAtThird axis (n + tries axis c ps t) (tmc_answering t axis) (watch axis c ps t)
silent_run axis c [] t start n m small s =
    let few : leb 3 (n + 0) ≡ false = ground (arith, small) in rw few (refl, refl)
silent_run axis c (p ∷ ps) t start n m small (s, rest) =
    let r = watch_move axis c p.now p.moving p.reads t in
    let next = watch axis c ps in
    let was = tmc_answering t axis in
    elim (Bool-cases (is_due p.now t)) [
      | inr quiet ↦
          let same = idle_step axis c p t (m.same_move ∙ sym (s.0)) quiet in
          by_parts axis was _ (n + tries axis c ps t) _ (next t)
            (omega (
              arith,
              tried (is_due p.now t) false (tries axis c ps r.0) quiet,
              ap (λ x. tries axis c ps x.0) same,
            ))
            (ap (follow next) same) (silent_run axis c ps t start n m small rest)
      | inl due ↦ elim (Bool-cases (leb 2 n)) [
        | inr few ↦
            let q = failing_step axis c p t start n m s.0 s.1 s.2 due (ground (arith, few)) in
            let a = failing_answers axis c p t start n m s.0 s.1 s.2 due (ground (arith, few)) in
            let m' : Missed axis start (n + 1) r.0 = record { same_move = q.1; count = q.2 } in
            let end = silent_run axis c ps r.0 start (n + 1) m' (ground (arith, few)) rest in
            by_parts axis was _ (n + 1 + tries axis c ps r.0) _ (next (r.0))
              (omega (arith, tried (is_due p.now t) true (tries axis c ps r.0) due))
              (follow_returns next r q.0)
              (subst (λ b. StopsAtThird axis (n + 1 + tries axis c ps r.0) b (next (r.0))) a end)
        | inl last ↦
            let two : n ≡ 2 = ground (arith, last, small) in
            let q =
              last_step axis c p t start (subst (λ k. Missed axis start k t) two m) s.0 s.1 s.2
                due in
            let many : leb 3 (n + (1 + tries axis c ps r.0)) ≡ true = ground (arith, two) in
            by_parts axis was _ (n + (1 + tries axis c ps r.0)) _ r
              (omega (arith, tried (is_due p.now t) true (tries axis c ps r.0) due))
              (follow_stops next r q.0)
              (subst
                (λ b.
                  (r.1 ≡ (if b then stops motor_driver else returns))
                  × (tmc_answering r.0 axis ≡ (if b then false else was)))
                (sym many) q)
      ]
    ]

-- During a move whose driver answers neither the reads of its status nor those of a StallGuard sample,
-- from a state in which no read of the move has failed, over any passes of the loop at any times: the
-- axis goes on until the third read that comes due. That read stops it with a driver fault, and the
-- driver is marked as not answering.
pub silent_driver_stops :
    (axis : AxisId) (c : DriverConfig) (ps : List Pass) (t : Tmc)
    → (st t axis).fail_count ≡ 0
    → AreSilent axis c (st t axis).move_start ps
    → StopsAtThird axis (tries axis c ps t) (tmc_answering t axis) (watch axis c ps t)
silent_driver_stops axis c ps t none_failed silent =
    let m : Missed axis (st t axis).move_start 0 t = record {
      same_move = refl;
      count = none_failed;
    } in
    by_parts axis (tmc_answering t axis) (tries axis c ps t) (0 + tries axis c ps t) _
      (watch axis c ps t) (omega arith) refl
      (silent_run axis c ps t (st t axis).move_start 0 m (omega arith) silent)
