-- ===== src/Schedule/Total.antt =====
-- `computeTotalAvailableCapacity` of modules/schedule/strategy.ts.
use wafer_fabrication_schedu.Base.{
  ℕ, zero, suc, ◌+◌, ◌*◌, none, some, List, sum_of, leb, if◌then◌else◌, pos_part,
}
use wafer_fabrication_schedu.Dates.{Date, day_ms, day_of}
use wafer_fabrication_schedu.Schedule.Types.{SchedulingFactoryInput}
use wafer_fabrication_schedu.Schedule.CapacityMap.{CapacityMap, get}
use wafer_fabrication_schedu.Schedule.Attempt.{slot, window_days}

-- What a slot can still give: `Math.max(0, cap.curCapacity)`, or the factory's capacity.
unfoldable pub available : CapacityMap → ℕ → SchedulingFactoryInput → ℕ
available m day factory = elim (get (slot factory.id day) m) [
  | none ↦ factory.max_capacity
  | some cap ↦ pos_part cap.cur_capacity
]

unfoldable pub day_available : CapacityMap → List SchedulingFactoryInput → ℕ → ℕ
unfolding available
day_available m factories day = sum_of (available m day) factories

-- `while (iterDate <= endTime)`, on fuel.
unfoldable pub total_loop : CapacityMap → List SchedulingFactoryInput → Date → ℕ → ℕ → ℕ
unfolding day_available
total_loop m factories end zero day = 0
total_loop m factories end (suc fuel) day =
    let rest = total_loop m factories end fuel (day + 1) in
    if leb (day * day_ms) end then day_available m factories day + rest else 0

unfoldable pub compute_total_available_capacity :
    Date → Date → List SchedulingFactoryInput → CapacityMap → ℕ
unfolding total_loop
compute_total_available_capacity start end factories m =
    total_loop m factories end (window_days start end) (day_of start)
