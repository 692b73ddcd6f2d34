-- ===== src/Schedule/Fuel.antt =====
-- The fuel of the loops over the days in modules/schedule/strategy.ts is enough: with more of it they
-- give the same result.
use Prim.Native.Nat.add
use wafer_fabrication_schedu.Base.{ℕ, zero, suc, ◌+◌, ◌*◌, ◌≡◌, refl, List, arith, ◌<◌}
use wafer_fabrication_schedu.Dates.{Date, day_ms, day_of}
use wafer_fabrication_schedu.Schedule.Types.{SchedulingConfig, SchedulingFactoryInput}
use wafer_fabrication_schedu.Schedule.CapacityMap.{CapacityMap}
use wafer_fabrication_schedu.Schedule.Attempt.{Attempt, window_days}
use wafer_fabrication_schedu.Schedule.Split.{split_loop, allocate_day}
use wafer_fabrication_schedu.Schedule.Block.{block_loop}
use wafer_fabrication_schedu.Schedule.Total.{total_loop}

-- `end` lies before the day that is reached after so many rounds.
abbrev Covers : Date → ℕ → ℕ → Type 0
Covers end fuel day = end < (day + fuel) * day_ms

module _ (factories : List SchedulingFactoryInput) (end : Date) where
  total_loop-more :
      (m : CapacityMap) (fuel extra day : ℕ)
      → Covers end fuel day
      → total_loop m factories end (fuel + extra) day ≡ total_loop m factories end fuel day
  unfolding total_loop
  total_loop-more m zero zero day c = refl
  total_loop-more m zero (suc extra) day c = ground arith
  total_loop-more m (suc fuel) extra day c =
      rw add.suc (ground (arith, total_loop-more m fuel extra (day + 1) (omega arith)))

  module _ (config : SchedulingConfig) (order_id : ℕ) where
    split_loop-more :
        (fuel extra day : ℕ) (st : Attempt)
        → Covers end fuel day
        → split_loop config order_id factories end (fuel + extra) day st
          ≡ split_loop config order_id factories end fuel day st
    unfolding split_loop
    split_loop-more zero zero day st c = refl
    split_loop-more zero (suc extra) day st c = ground arith
    split_loop-more (suc fuel) extra day st c = rw add.suc (
        ground (
          arith,
          split_loop-more fuel extra (day + 1) (allocate_day config order_id factories day st)
              (omega arith),
        ))

    block_loop-more :
        (fuel extra day : ℕ) (st : Attempt)
        → Covers end fuel day
        → block_loop config order_id factories end (fuel + extra) day st
          ≡ block_loop config order_id factories end fuel day st
    unfolding block_loop
    block_loop-more zero zero day st c = refl
    block_loop-more zero (suc extra) day st c = ground arith
    block_loop-more (suc fuel) extra day st c =
        rw add.suc (ground (arith, block_loop-more fuel extra (day + 1) st (omega arith)))

-- With the number of days of the window as fuel, the three loops over the days end by their own
-- tests: any more fuel gives the same result.
pub loops_terminate :
    (config : SchedulingConfig) (order_id : ℕ) (factories : List SchedulingFactoryInput)
    (start end : Date) (m : CapacityMap) (st : Attempt) (extra : ℕ)
    → let days = window_days start end in
      (split_loop config order_id factories end (days + extra) (day_of start) st
        ≡ split_loop config order_id factories end days (day_of start) st)
      × (block_loop config order_id factories end (days + extra) (day_of start) st
          ≡ block_loop config order_id factories end days (day_of start) st)
      × (total_loop m factories end (days + extra) (day_of start)
          ≡ total_loop m factories end days (day_of start))
loops_terminate config order_id factories start end m st extra = (
  split_loop-more factories end config order_id (window_days start end) extra (day_of start) st
      (omega arith),
  block_loop-more factories end config order_id (window_days start end) extra (day_of start) st
      (omega arith),
  total_loop-more factories end m (window_days start end) extra (day_of start) (omega arith),
)
