-- ===== src/Issues/Suggestions.antt =====
-- `getSuggestions` of modules/order/conflict-issue-service.ts, from the issue and its snapshot on. A
-- YYYY-MM-DD is the number of its day, and the server's time zone is UTC.
use wafer_fabrication_schedu.Base.{
  ℕ, zero, suc, ◌+◌, ◌-◌, ◌*◌, ◌/◌, ◌==◌, leb, ltb, Bool, true, ◌&&◌, if◌then◌else◌, Option, none,
  some, List, [], ◌∷◌, map, keep, elem, min, ℤ, pos, pos_part, ◌-ℤ◌,
}
use wafer_fabrication_schedu.Dates.{Date, day_ms, day_of}
use wafer_fabrication_schedu.Store.{World, CapacityRow}

pub record FactoryConsidered : Type 0 where
  pub id : ℕ
  pub max_capacity : ℕ

pub record SnapshotConfig : Type 0 where
  pub splittable : Bool
  pub buffer_days : ℕ
  pub production_days : ℕ

-- What is read of `contextSnapshot`.
pub record ContextSnapshot : Type 0 where
  pub required_quantity : ℕ
  pub window_start : ℕ
  pub window_end : ℕ
  pub factories_considered : List FactoryConsidered
  pub due_date : Date
  pub config : Option SnapshotConfig

abbrev pub search_horizon_days : ℕ
search_horizon_days = 90

-- The defaults of `snapshot.config?.splittable ?? true` and its kin.
abbrev pub config_of : Option SnapshotConfig → SnapshotConfig
config_of none = record { splittable = true; buffer_days = 0; production_days = 0 }
config_of (some c) = c

-- `findDailyCapacitiesByDateRange` of infra/db/capacity-repository.ts.
unfoldable pub find_daily_capacities_by_date_range : List ℕ → Date → Date → World → List CapacityRow
find_daily_capacities_by_date_range ids start end_date w =
    keep (λ (r : CapacityRow). elem r.factory_id ids && leb start r.date && leb r.date end_date)
      w.capacities

-- `capacityMap.get(key)`, where a later row of the key has replaced an earlier one.
unfoldable pub capacity_entry : ℕ → ℕ → List CapacityRow → Option ℕ → Option ℕ
capacity_entry id day [] found = found
capacity_entry id day (r ∷ rs) found =
    capacity_entry id day rs
      (if r.factory_id == id && day_of r.date == day then some (pos_part r.cur_capacity) else found)

unfoldable pub factory_default : ℕ → List FactoryConsidered → ℕ → ℕ
factory_default id [] found = found
factory_default id (f ∷ fs) found =
    factory_default id fs (if f.id == id then f.max_capacity else found)

unfoldable pub capacity_on : List FactoryConsidered → List CapacityRow → ℕ → ℕ → ℕ
unfolding capacity_entry factory_default
capacity_on fs rows day id = elim (capacity_entry id day rows none) [
  | none ↦ factory_default id fs 0
  | some c ↦ c
]

-- The sum and the maximum over the factories, on one day.
abbrev pub sum_on : (ℕ → ℕ) → List FactoryConsidered → ℕ
sum_on capacity [] = 0
sum_on capacity (f ∷ fs) = capacity f.id + sum_on capacity fs

abbrev pub block_from : (ℕ → ℕ) → List FactoryConsidered → ℕ → ℕ
block_from capacity [] best = best
block_from capacity (f ∷ fs) best =
    block_from capacity fs (if ltb best (capacity f.id) then capacity f.id else best)

-- The loops over the days of the window: `sums` and `blocks` are what a day has.
unfoldable pub window_total : (ℕ → ℕ) → ℕ → ℕ → ℕ
window_total sums zero day = 0
window_total sums (suc n) day = sums day + window_total sums n (suc day)

unfoldable pub window_block : (ℕ → ℕ → ℕ) → ℕ → ℕ → ℕ → ℕ
window_block blocks zero day best = best
window_block blocks (suc n) day best = window_block blocks n (suc day) (blocks day best)

-- The scan of `fuel` days from `day` on: the first whose capacity is enough.
unfoldable pub scan : Bool → ℕ → (ℕ → ℕ) → (ℕ → ℕ) → ℕ → ℕ → ℕ → Option ℕ
scan splittable required sums blocks zero day cumulative = none
scan splittable required sums blocks (suc fuel) day cumulative =
    let total = cumulative + sums day in
    let rest = scan splittable required sums blocks fuel (suc day) total in
    if (if splittable then leb required total else leb required (blocks day))
    then some day
    else rest

pub record EarliestFit : Type 0 where
  pub due_date : Option ℕ
  pub days_delayed : ℤ
  pub search_horizon : ℕ

-- `Math.round` of a difference of days: the due date of the snapshot may lie within a day.
abbrev pub half_day : ℕ
half_day = 43200000

abbrev pub rounded_days : ℕ → Date → ℤ
rounded_days day due_date = pos day -ℤ pos ((due_date + (half_day - 1)) / day_ms)

abbrev pub fit_of : SnapshotConfig → Date → Option ℕ → EarliestFit
fit_of c due_date none = record {
  due_date = none;
  days_delayed = pos search_horizon_days;
  search_horizon = search_horizon_days;
}
fit_of c due_date (some day) = record {
  due_date = some (day + c.production_days + c.buffer_days);
  days_delayed = rounded_days (day + c.production_days + c.buffer_days) due_date;
  search_horizon = search_horizon_days;
}

pub record SuggestionsResult : Type 0 where
  pub max_fit_quantity : ℕ
  pub earliest_fit : EarliestFit

abbrev pub scanned_rows : ContextSnapshot → World → List CapacityRow
scanned_rows s w =
    find_daily_capacities_by_date_range
      (map (λ (f : FactoryConsidered). f.id) s.factories_considered) (s.window_start * day_ms)
      ((s.window_end + (search_horizon_days + 1)) * day_ms) w

abbrev pub day_sum : ContextSnapshot → World → ℕ → ℕ
day_sum s w day =
    sum_on (capacity_on s.factories_considered (scanned_rows s w) day) s.factories_considered

abbrev pub day_block : ContextSnapshot → World → ℕ → ℕ → ℕ
day_block s w day best =
    block_from (capacity_on s.factories_considered (scanned_rows s w) day) s.factories_considered
      best

unfoldable pub available_in_window : ContextSnapshot → World → ℕ
unfolding window_total window_block capacity_on find_daily_capacities_by_date_range
available_in_window s w =
    let days = s.window_end + 1 - s.window_start in
    if (config_of s.config).splittable
    then window_total (day_sum s w) days s.window_start
    else min (window_block (day_block s w) days s.window_start 0) s.required_quantity

unfoldable pub suggest : ContextSnapshot → World → SuggestionsResult
unfolding available_in_window scan
suggest s w =
    let c = config_of s.config in
    let live = available_in_window s w in
    record {
      max_fit_quantity = live;
      earliest_fit = fit_of c s.due_date (
          scan c.splittable s.required_quantity (day_sum s w) (λ day. day_block s w day 0)
            search_horizon_days (s.window_end + 1) (if c.splittable then live else 0));
    }
