-- ===== src/Tmc/Stats.antt =====
-- The statistics and the failed reads of a watched move (`watchMove` of fw/src/tmc2209.cpp).
use astro_uni_board.Base.{
  ℕ, ◌%◌, ◌≤◌, ◌<◌, ◌≡◌, refl, Bool, true, false, Option, none, some, arith, ltb, if◌then◌else◌,
}
use astro_uni_board.Base.Int.{pos}
use astro_uni_board.Settings.{AxisId, axis_foc, axis_rot, DriverConfig}
use astro_uni_board.Axis.{Axis}
use astro_uni_board.Tmc.{DrvState, no_reading, Tmc, st, put_st}
use astro_uni_board.Tmc.Checks.{
  Verdict, goes_on, returns, stops, MoveReads, fresh_stats, failed_read, on_status, fault_check,
  counted, on_sample, stall_check, and_then, watch_move,
}

-- The statistics of a move: no sample yet, or the last sample lies between the lowest and the
-- highest one, all below 1024.
pub data IsStats (s : DrvState) : Type 0 where
  unsampled : s.sg_last ≡ no_reading → s.sg_min ≡ no_reading → s.sg_max ≡ no_reading → IsStats s
  sampled :
      (lo last hi : ℕ)
      → s.sg_min ≡ pos lo
      → s.sg_last ≡ pos last
      → s.sg_max ≡ pos hi
      → lo ≤ last
      → last ≤ hi
      → hi < 1024
      → IsStats s

counted-IsStats : (sg : ℕ) (s : DrvState) → sg < 1024 → IsStats s → IsStats (counted sg s)
unfolding counted
counted-IsStats sg s small (unsampled l m h) =
    sampled sg sg sg (ground (arith, m)) refl (ground (arith, h)) (omega arith) (omega arith) small
counted-IsStats sg s small (sampled lo last hi m l h a b c) =
    sampled (if ltb sg lo then sg else lo) sg (if ltb hi sg then sg else hi) (rw m (ground arith))
      refl (rw h (ground arith)) (ground arith) (ground arith) (ground arith)

-- The state of one axis, where another field is written.
same-IsStats :
    (s s' : DrvState)
    → s'.sg_last ≡ s.sg_last
    → s'.sg_min ≡ s.sg_min
    → s'.sg_max ≡ s.sg_max
    → IsStats s
    → IsStats s'
same-IsStats s s' a b c (unsampled l m h) = unsampled (cc (a, l)) (cc (b, m)) (cc (c, h))
same-IsStats s s' a b c (sampled lo last hi m l h x y z) =
    sampled lo last hi (cc (b, m)) (cc (a, l)) (cc (c, h)) x y z

-- Both axes' statistics are sound.
pub record AreStats (t : Tmc) : Type 0 where
  pub of : (axis : AxisId) → IsStats (st t axis)

put_st-of :
    (axis : AxisId) (s : DrvState) (t : Tmc)
    → AreStats t
    → IsStats s
    → (x : AxisId) → IsStats (st (put_st axis s t) x)
put_st-of axis_foc s t i h axis_foc = h
put_st-of axis_foc s t i h axis_rot = i.of axis_rot
put_st-of axis_rot s t i h axis_foc = i.of axis_foc
put_st-of axis_rot s t i h axis_rot = h

put_st-AreStats :
    (axis : AxisId) (s : DrvState) (t : Tmc) → AreStats t → IsStats s → AreStats (put_st axis s t)
put_st-AreStats axis s t i h = record { of = put_st-of axis s t i h }

-- Another field of the state is written.
kept :
    (axis : AxisId) (s : DrvState) (t : Tmc)
    → AreStats t
    → s.sg_last ≡ (st t axis).sg_last
    → s.sg_min ≡ (st t axis).sg_min
    → s.sg_max ≡ (st t axis).sg_max
    → AreStats (put_st axis s t)
kept axis s t i a b c = put_st-AreStats axis s t i (same-IsStats (st t axis) s a b c (i.of axis))

choose : (b : Bool) (x y : Tmc) → AreStats x → AreStats y → AreStats (if b then x else y)
choose true x y p q = p
choose false x y p q = q

choose_pair :
    (b : Bool) (x y : Tmc × Verdict) → AreStats x.0 → AreStats y.0 → AreStats (if b then x else y).0
choose_pair true x y p q = p
choose_pair false x y p q = q

-- What the tests of a check read besides the states of the drivers.
timed : (t t' : Tmc) → t'.foc ≡ t.foc → t'.rot ≡ t.rot → AreStats t → AreStats t'
timed t t' f r i = record { of = of }
  where
    of : (axis : AxisId) → IsStats (st t' axis)
    of axis_foc = rw f (i.of axis_foc)
    of axis_rot = rw r (i.of axis_rot)

fresh_stats-AreStats :
    (axis : AxisId) (start now : ℕ) (t : Tmc) → AreStats t → AreStats (fresh_stats axis start now t)
unfolding fresh_stats
fresh_stats-AreStats axis start now t i =
    choose _ _ _ i (timed _ _ refl refl (put_st-AreStats axis _ t i (unsampled refl refl refl)))

failed_read-AreStats : (axis : AxisId) (t : Tmc) → AreStats t → AreStats (failed_read axis t).0
unfolding failed_read
failed_read-AreStats axis t i =
    choose_pair _ _ _ (kept axis _ t i refl refl refl) (kept axis _ t i refl refl refl)

on_status-AreStats :
    (axis : AxisId) (ds : Option ℕ) (t : Tmc) → AreStats t → AreStats (on_status axis ds t).0
on_status-AreStats axis none t i = failed_read-AreStats axis t i
on_status-AreStats axis (some ds) t i = kept axis _ t i refl refl refl

fault_check-AreStats :
    (axis : AxisId) (now : ℕ) (ds : Option ℕ) (t : Tmc)
    → AreStats t
    → AreStats (fault_check axis now ds t).0
unfolding fault_check
fault_check-AreStats axis now ds t i =
    choose_pair _ _ _ (on_status-AreStats axis ds _ (timed t _ refl refl i)) i

on_sample-AreStats :
    (axis : AxisId) (c : DriverConfig) (now : ℕ) (a : Axis) (r : Option ℕ) (t : Tmc)
    → AreStats t
    → AreStats (on_sample axis c now a r t).0
on_sample-AreStats axis c now a none t i = failed_read-AreStats axis t i
on_sample-AreStats axis c now a (some r) t i = choose_pair _ _ _ (kept axis _ t i refl refl refl) (
    put_st-AreStats axis _ t i (
      counted-IsStats (r % 1024) _ (omega arith)
        (same-IsStats (st t axis) _ refl refl refl (i.of axis))))

stall_check-AreStats :
    (axis : AxisId) (c : DriverConfig) (now : ℕ) (a : Axis) (r : Option ℕ) (t : Tmc)
    → AreStats t
    → AreStats (stall_check axis c now a r t).0
unfolding stall_check
stall_check-AreStats axis c now a r t i =
    choose_pair _ _ _ (on_sample-AreStats axis c now a r _ (timed t _ refl refl i)) i

and_then-AreStats :
    (x : Tmc × Verdict) (next : Tmc → Tmc × Verdict)
    → AreStats x.0
    → (AreStats x.0 → AreStats (next x.0).0)
    → AreStats (and_then x next).0
and_then-AreStats (t, goes_on) next i h = h i
and_then-AreStats (t, returns) next i h = i
and_then-AreStats (t, stops e) next i h = i

-- A pass of the watch keeps the statistics of both axes sound: an axis has no sample yet, or its
-- last sample lies between its lowest and its highest one, all below 1024.
pub watch_move-AreStats :
    (axis : AxisId) (c : DriverConfig) (now : ℕ) (a : Axis) (reads : MoveReads) (t : Tmc)
    → AreStats t
    → AreStats (watch_move axis c now a reads t).0
unfolding watch_move
watch_move-AreStats axis c now a reads t i =
    and_then-AreStats _ (stall_check axis c now reads.later reads.sg_result)
      (fault_check-AreStats axis now reads.drv_status _
        (fresh_stats-AreStats axis a.start_ms now t i))
      (stall_check-AreStats axis c now reads.later reads.sg_result _)
