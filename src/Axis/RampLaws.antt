-- ===== src/Axis/RampLaws.antt =====
-- What the ramp of `Axis::isrStep` keeps while the steps run down.
use astro_uni_board.Base.{ℕ, suc, ◌+◌, ◌≤◌, ◌<◌, ◌≡◌, Bool, false, none, some, arith}
use astro_uni_board.Base.Word.{word}
use astro_uni_board.Axis.Delays.{ph_run, ph_decel, Ramp, next_ramp}

-- With `remain` steps to go of `total`: the ramp has not used more steps than were made, and a
-- deceleration ends before the steps do, and in no more steps than the axis sped up.
pub record IsSound (s : Ramp) (remain total : ℕ) : Type 0 where
  pub used : s.ramp_n + remain ≤ total
  pub run_started : s.phase ≡ ph_run → 0 < s.ramp_n
  pub decel_started :
      s.phase ≡ ph_decel → (0 < s.decel_left) × (s.decel_left ≤ remain) × (s.decel_left ≤ s.ramp_n)

-- A deceleration that no halt caused ends with the last step.
abbrev pub EndsAtTarget : Ramp → ℕ → Type 0
EndsAtTarget s remain = s.phase ≡ ph_decel → s.decel_left ≡ remain

pub next_ramp-IsSound :
    (h : Bool) (r m total : ℕ) (s s' : Ramp)
    → IsSound s (suc r) total
    → total < word
    → 0 < r
    → next_ramp h r m s ≡ some s'
    → IsSound s' r total
unfolding next_ramp
next_ramp-IsSound h r m total s s' v fits more e = ground arith

pub next_ramp-none :
    (h : Bool) (r m total : ℕ) (s : Ramp)
    → IsSound s (suc r) total
    → total < word
    → next_ramp h r m s ≡ none
    → (s.phase ≡ ph_decel) × (s.decel_left ≡ 1)
unfolding next_ramp
next_ramp-none h r m total s v fits e = ground arith

pub next_ramp-EndsAtTarget :
    (r m total : ℕ) (s s' : Ramp)
    → IsSound s (suc r) total
    → total < word
    → 0 < r
    → EndsAtTarget s (suc r)
    → next_ramp false r m s ≡ some s'
    → EndsAtTarget s' r
unfolding next_ramp
next_ramp-EndsAtTarget r m total s s' v fits more straight e = ground arith
