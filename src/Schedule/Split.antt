-- ===== src/Schedule/Split.antt =====
-- The splittable branch of modules/schedule/strategy.ts: day by day, the slots of the day in
-- best-fit order.
use wafer_fabrication_schedu.Base.{
  ℕ, zero, suc, ◌+◌, ◌*◌, Bool, not, ◌&&◌, none, some, List, [], ◌∷◌, leb, ◌==◌, if◌then◌else◌, ℤ,
  pos, ◌-ℤ◌, sub_ℕ, leb_ℤ, eqb_ℤ, pos_part, min,
}
use wafer_fabrication_schedu.Base.Sort.{sort_by}
use wafer_fabrication_schedu.Dates.{Date, day_ms}
use wafer_fabrication_schedu.Schedule.Types.{
  CapacityDraft, SchedulingConfig, SchedulingFactoryInput,
}
use wafer_fabrication_schedu.Schedule.CapacityMap.{CapacityMap, get}
use wafer_fabrication_schedu.Schedule.Attempt.{Attempt, slot, new_capacity, create_slot, take_slot}

-- The slot of a factory on a day, created if the map has none.
unfoldable pub open_slot : ℕ → SchedulingFactoryInput → Attempt → Attempt
open_slot day factory st = elim (get (slot factory.id day) st.capacities) [
  | none ↦ create_slot factory day st
  | some cap ↦ st
]

unfoldable pub opened : ℕ → SchedulingFactoryInput → CapacityMap → CapacityDraft
opened day factory m = elim (get (slot factory.id day) m) [
  | none ↦ new_capacity factory day
  | some cap ↦ cap
]

-- `factories.map(...)`: the state after it, and the drafts that it returns.
unfoldable pub open_day : ℕ → List SchedulingFactoryInput → Attempt → Attempt × List CapacityDraft
unfolding open_slot opened
open_day day [] st = (st, [])
open_day day (factory ∷ factories) st =
    let (st', caps) = open_day day factories (open_slot day factory st) in
    (st', opened day factory st.capacities ∷ caps)

-- The highest counter first, and factories by id where the counters are equal.
unfoldable pub compare_best_fit : CapacityDraft → CapacityDraft → ℤ
unfolding ◌-ℤ◌
compare_best_fit a b =
    if not (eqb_ℤ b.cur_capacity a.cur_capacity)
    then b.cur_capacity -ℤ a.cur_capacity
    else sub_ℕ a.factory_id b.factory_id

unfoldable pub best_fit_le : CapacityDraft → CapacityDraft → Bool
unfolding compare_best_fit
best_fit_le a b = leb_ℤ (compare_best_fit a b) (pos 0)

-- `cap` is a reference into the map, where `open_day` has put it: its counter is the one that the
-- map holds now.
abbrev pub current : ℕ → CapacityDraft → CapacityMap → ℤ
current day cap m = elim (get (slot cap.factory_id day) m) [
  | none ↦ pos 0
  | some c ↦ c.cur_capacity
]

module _ (config : SchedulingConfig) (order_id : ℕ) where
  -- The body of the loop over the sorted drafts, past its `break` and `continue`.
  abbrev pub allocate_slot : ℕ → CapacityDraft → Attempt → Attempt
  allocate_slot day cap st =
      take_slot config order_id cap.factory_id day
        (min st.remaining (pos_part (current day cap st.capacities))) st

  unfoldable pub allocate_caps : ℕ → List CapacityDraft → Attempt → Attempt
  allocate_caps day [] st = st
  allocate_caps day (cap ∷ caps) st =
      let skipped = allocate_caps day caps st in
      let allocated = allocate_caps day caps (allocate_slot day cap st) in
      if st.remaining == 0
      then st
      else if leb_ℤ (current day cap st.capacities) (pos 0)
      then skipped
      else allocated

  unfoldable pub allocate_day : List SchedulingFactoryInput → ℕ → Attempt → Attempt
  unfolding open_day sort_by best_fit_le allocate_caps
  allocate_day factories day st =
      let (opened_state, caps) = open_day day factories st in
      allocate_caps day (sort_by best_fit_le caps) opened_state

  -- `while (currentIterDate <= windowEnd && remainingQty > 0)`, on fuel.
  unfoldable pub split_loop : List SchedulingFactoryInput → Date → ℕ → ℕ → Attempt → Attempt
  unfolding allocate_day
  split_loop factories end zero day st = st
  split_loop factories end (suc fuel) day st =
      let rest = split_loop factories end fuel (day + 1) (allocate_day factories day st) in
      if leb (day * day_ms) end && not (st.remaining == 0) then rest else st
