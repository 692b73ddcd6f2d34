-- ===== src/Schedule/Block.antt =====
-- The non-splittable branch of modules/schedule/strategy.ts: the first slot that takes the whole
-- quantity, by day and then in the order of the factories.
use wafer_fabrication_schedu.Base.{
  ℕ, zero, suc, ◌+◌, ◌*◌, Option, none, some, List, [], ◌∷◌, leb, if◌then◌else◌, ℤ, pos, leb_ℤ,
}
use wafer_fabrication_schedu.Dates.{Date, day_ms}
use wafer_fabrication_schedu.Schedule.Types.{SchedulingConfig, SchedulingFactoryInput}
use wafer_fabrication_schedu.Schedule.CapacityMap.{CapacityMap, get}
use wafer_fabrication_schedu.Schedule.Attempt.{Attempt, slot, take_slot}
use wafer_fabrication_schedu.Schedule.Split.{open_slot}

-- The counter of a slot, or the factory's capacity where the map has none.
unfoldable pub simulated : ℕ → SchedulingFactoryInput → CapacityMap → ℤ
simulated day factory m = elim (get (slot factory.id day) m) [
  | none ↦ pos factory.max_capacity
  | some cap ↦ cap.cur_capacity
]

module _ (config : SchedulingConfig) (order_id : ℕ) where
  -- `none`: no factory of the day fits.
  unfoldable pub block_day : List SchedulingFactoryInput → ℕ → Attempt → Option Attempt
  unfolding simulated open_slot
  block_day [] day st = none
  block_day (factory ∷ factories) day st =
      if leb_ℤ (pos st.remaining) (simulated day factory st.capacities)
      then some (take_slot config order_id factory.id day st.remaining (open_slot day factory st))
      else block_day factories day st

  -- `while (currentIterDate <= windowEnd && !foundSingleBlock)`, on fuel.
  unfoldable pub block_loop : List SchedulingFactoryInput → Date → ℕ → ℕ → Attempt → Attempt
  unfolding block_day
  block_loop factories end zero day st = st
  block_loop factories end (suc fuel) day st =
      let rest = block_loop factories end fuel (day + 1) st in
      let searched : Attempt = elim (block_day factories day st) [
        | none ↦ rest
        | some found ↦ found
      ] in
      if leb (day * day_ms) end then searched else st
