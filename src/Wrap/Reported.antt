-- ===== src/Wrap/Reported.antt =====
-- `wrapReported` (fw/src/rotator_wrap.cpp), the angle that the host sees.
use astro_uni_board.Base.{ℕ, ◌+◌, ◌%◌, ◌<◌, ◌≤◌, ◌≡◌, inl, inr, some, arith, Bool-cases}
use astro_uni_board.Base.Int.{ℤ, pos, negsuc, pos_part, neg_part, ◌+ℤ◌, ◌-ℤ◌, ◌≤ℤ◌}
use astro_uni_board.Wrap.{
  full_turn, abs_dist, abs64, consider, pick, is_nearer, wrap_reported, wrap_plan_target,
}
use astro_uni_board.Wrap.Plan.{IsTurnOf, is_rejected, plan_target_sound, plan_target_complete}

-- The reported angle lies in 0..35999 and differs from the mechanical one by whole turns.
pub reported_bounds :
    (a : ℤ)
    → (pos 0 ≤ℤ wrap_reported a)
      × (wrap_reported a ≤ℤ pos 35999)
      × ((pos_part (wrap_reported a) + neg_part a) % full_turn ≡ pos_part a % full_turn)
unfolding wrap_reported ◌+ℤ◌
reported_bounds (pos n) = ground arith
reported_bounds (negsuc n) = ground arith

reported_turn :
    (target t : ℤ)
    → pos 0 ≤ℤ target
    → target ≤ℤ pos 35999
    → IsTurnOf target t
    → wrap_reported t ≡ target
unfolding wrap_reported ◌+ℤ◌ ◌-ℤ◌
reported_turn (pos n) t low high (inl e) = rw e (ground arith)
reported_turn (pos n) t low high (inr (inl e)) = rw e (ground arith)
reported_turn (pos n) t low high (inr (inr e)) = rw e (ground arith)
reported_turn (negsuc n) t low high turn = absurd (omega arith)

-- A move to the angle that the planner chose ends at a mechanical angle that is reported as the
-- angle that the host asked for.
pub reported-plan :
    (current target lo hi t : ℤ)
    → wrap_plan_target current target lo hi ≡ some t
    → wrap_reported t ≡ target
reported-plan current target lo hi t h = elim (Bool-cases (is_rejected target lo hi)) [
  | inl bad ↦ absurd (cc ((plan_target_complete current target lo hi).1 (inl bad)))
  | inr good ↦
      reported_turn target t (ground arith) (ground arith)
        (plan_target_sound current target lo hi t h).1
]

-- With the widest range and the angle past 18000, the planner takes the turn of 0 at 36000: going to
-- 0 winds the cable further instead of unwinding it.
pub home_winds :
    (n : ℕ)
    → 18000 < n
    → n ≤ 36000
    → wrap_plan_target (pos n) (pos 0) (negsuc 35999) (pos full_turn) ≡ some (pos full_turn)
unfolding wrap_plan_target pick consider is_nearer abs_dist abs64 ◌-ℤ◌ ◌+ℤ◌
home_winds n h k = ground arith
