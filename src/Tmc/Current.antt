-- ===== src/Tmc/Current.antt =====
-- The currents of the drivers (`csFor`, `tmcApply` of fw/src/tmc2209.cpp).
use astro_uni_board.Base.{
  ℕ, ◌+◌, ◌*◌, ◌≤◌, ◌<◌, ◌≡◌, ◌≢◌, refl, ◌⊎◌, inl, inr, Bool, true, arith, ltb, ◌==◌, Bool-cases,
}
use astro_uni_board.Settings.{DriverConfig}
use astro_uni_board.Tmc.{max_run_ma, cs_for, full_scale, run_of, hold_of, driver_regs}

-- The current of a scale step, in the unit of 1/58831 mA, is not above `ma`, or the step is the lowest
-- one; and the next step's is above `ma`.
abbrev pub IsLargestStep : ℕ → ℕ → ℕ → Type 0
IsLargestStep cs vfs ma =
    (cs ≤ 31)
    × (((cs + 1) * (vfs * 10000) ≤ ma * 58831) ⊎ (cs ≡ 0))
    × (ma * 58831 < (cs + 2) * (vfs * 10000))

cs_for-high :
    (ma : ℕ) → ma ≤ 1500 → ltb (cs_for ma 325) 16 ≡ true → IsLargestStep (cs_for ma 180) 180 ma
unfolding cs_for
cs_for-high ma small fits = ground arith

cs_for-low : (ma : ℕ) → ma ≤ 1500 → IsLargestStep (cs_for ma 325) 325 ma
unfolding cs_for
cs_for-low ma small = ground arith

run_of-le : (c : DriverConfig) → run_of c ≤ max_run_ma
run_of-le c = ground arith

hold_of-le : (c : DriverConfig) → hold_of c ≤ run_of c
hold_of-le c = ground arith

cs_for_mono : (a b : ℕ) → b ≤ 1500 → a ≤ b → cs_for a 325 ≤ cs_for b 325
unfolding cs_for
cs_for_mono a b small le = ground arith

cs_for_mono_high : (a b : ℕ) → b ≤ 1500 → a ≤ b → cs_for a 180 ≤ cs_for b 180
unfolding cs_for
cs_for_mono_high a b small le = ground arith

-- Both currents of an axis in the range `vs`.
CurrentsFit : Bool → ℕ → ℕ → Type 0
CurrentsFit vs run hold =
    IsLargestStep (cs_for run (full_scale vs)) (full_scale vs) run
    × IsLargestStep (cs_for hold (full_scale vs)) (full_scale vs) hold
    × (cs_for hold (full_scale vs) ≤ cs_for run (full_scale vs))

currents-Fit :
    (run hold : ℕ) → run ≤ 1500 → hold ≤ run → CurrentsFit (ltb (cs_for run 325) 16) run hold
unfolding CurrentsFit
currents-Fit run hold small le =
    let m = cs_for_mono hold run small le in
    elim (Bool-cases (ltb (cs_for run 325) 16)) [
      | inl e ↦ rw e (
        cs_for-high run small e,
        cs_for-high hold (omega arith) (ground arith),
        cs_for_mono_high hold run small le,
      )
      | inr e ↦ rw e (cs_for-low run small, cs_for-low hold (omega arith), m)
    ]

-- The run current that is programmed is the largest step of the chosen sense range that is not above
-- the requested current (at most 1500 mA), or the lowest step, 0, where even that is above the request;
-- so is the hold current (at most the run current), unless no hold current is asked for, when the hold
-- step is 0. Neither is cut off at the top of the range, and the hold current is not above the run
-- current.
pub driver_regs_current :
    (c : DriverConfig)
    → let r = driver_regs c in
      IsLargestStep r.irun (full_scale r.vsense) (run_of c)
      × ((hold_of c ≢ 0 → IsLargestStep r.ihold (full_scale r.vsense) (hold_of c))
          × (hold_of c ≡ 0 → r.ihold ≡ 0))
      × (r.ihold ≤ r.irun)
unfolding driver_regs CurrentsFit
driver_regs_current c =
    let f = currents-Fit (run_of c) (hold_of c) (run_of-le c) (hold_of-le c) in
    elim (Bool-cases (hold_of c == 0)) [
      | inl e ↦ rw e (f.0, (λ n. absurd (n (ground arith)), λ _. refl), omega arith)
      | inr e ↦ rw e (f.0, (λ _. f.1, λ z. absurd (ground arith)), f.2)
    ]
