-- ===== src/Application/Prepare.antt =====
-- `prepareSchedulingData` of modules/schedule/core.ts, with the queries that it makes.
pub mod Reset
use wafer_fabrication_schedu.Base.{
  ℕ, suc, ◌+◌, Bool, true, false, not, ◌&&◌, ◌||◌, ◌==◌, leb, ltb, if◌then◌else◌, Option, none,
  some, List, [], ◌∷◌, ◌++◌, keep, map, elem, or_empty, ℤ, pos, ◌+ℤ◌,
}
use wafer_fabrication_schedu.Dates.{Date, to_utc_date_only, calculate_minimum_start_date}
use wafer_fabrication_schedu.Schedule.Types.{
  OrderStatus, AssignmentStatus, eq_status, eq_assignment_status, is_gap_filling, CapacityDraft,
  SchedulingAssignmentInput, SchedulingOrderInput, SchedulingConfig,
}
use wafer_fabrication_schedu.Store.{
  World, OrderRow, AssignmentRow, CapacityRow, FactoryRow, FactoryStatus,
}
use wafer_fabrication_schedu.Application.{until}

abbrev pub is_wanted : ℕ → Option (List ℕ) → Bool → OrderRow → Bool
is_wanted type targets fetch_all_pending o =
    o.type == type
    && (eq_status o.status OrderStatus.scheduled
        || eq_status o.status OrderStatus.in_production
        || (eq_status o.status OrderStatus.pending
            && (fetch_all_pending || elem o.id (or_empty targets))))

abbrev pub assignment_input : AssignmentRow → SchedulingAssignmentInput
assignment_input a = record {
  status = a.status;
  assigned_quantity = a.assigned_quantity;
  factory_id = some a.factory_id;
  production_date = some a.production_date;
}

abbrev pub order_input : List AssignmentRow → OrderRow → SchedulingOrderInput
order_input rows o = record {
  id = o.id;
  status = o.status;
  due_date = o.due_date;
  quantity = o.quantity;
  created_at = o.created_at;
  is_fixed = o.is_fixed;
  is_prioritized = o.is_prioritized;
  assignments = some (map assignment_input (keep (λ (a : AssignmentRow). a.order_id == o.id) rows));
}

unfoldable pub find_orders_for_scheduling :
    ℕ → Option (List ℕ) → Bool → World → List SchedulingOrderInput
find_orders_for_scheduling type targets fetch_all_pending w =
    map (order_input w.assignments) (keep (is_wanted type targets fetch_all_pending) w.orders)

abbrev pub is_active : FactoryStatus → Bool
is_active FactoryStatus.active = true
is_active FactoryStatus.inactive = false

-- The factories, and the capacities that they include.
abbrev pub find_factories : ℕ → World → List FactoryRow
find_factories type w =
    keep (λ (f : FactoryRow). f.production_type == type && is_active f.status) w.factories

abbrev pub capacity_input : CapacityRow → CapacityDraft
capacity_input r = record {
  id = some r.id;
  factory_id = r.factory_id;
  date = r.date;
  max_capacity = r.max_capacity;
  cur_capacity = r.cur_capacity;
}

unfoldable pub capacities_of : Date → List CapacityRow → List FactoryRow → List CapacityDraft
capacities_of today rows [] = []
capacities_of today rows (f ∷ fs) =
    map capacity_input (keep (λ (r : CapacityRow). r.factory_id == f.id && leb today r.date) rows)
    ++ capacities_of today rows fs

-- The start that the run may have: not before the earliest day, and a midnight.
unfoldable pub corrected_start : Date → Date → Date
unfolding to_utc_date_only
corrected_start minimum_start_date start_date =
    if ltb start_date minimum_start_date then minimum_start_date else to_utc_date_only start_date

-- `capacities.find(...)`, and the counter of what it finds.
abbrev pub slot_is : ℕ → Date → CapacityDraft → Bool
slot_is factory_id date c = c.factory_id == factory_id && c.date == date

unfoldable pub return_quantity : ℕ → Date → ℕ → List CapacityDraft → List CapacityDraft
return_quantity factory_id date quantity [] = []
return_quantity factory_id date quantity (c ∷ cs) =
    let rest = c ∷ return_quantity factory_id date quantity cs in
    if slot_is factory_id date c
    then record c { cur_capacity = c.cur_capacity +ℤ pos quantity } ∷ cs
    else rest

abbrev pub is_input_immutable : SchedulingOrderInput → Bool
is_input_immutable o =
    o.is_fixed
    || eq_status o.status OrderStatus.in_production
    || eq_status o.status OrderStatus.completed

-- An assignment without a date has the time NaN, which is in no range.
abbrev pub in_range : SchedulingConfig → Option Date → Bool
in_range config none = false
in_range config (some d) = leb config.start_date d && until config.end_date d

abbrev pub is_released : SchedulingConfig → SchedulingAssignmentInput → Bool
is_released config a =
    eq_assignment_status a.status AssignmentStatus.scheduled && in_range config a.production_date

abbrev pub release : SchedulingAssignmentInput → List CapacityDraft → List CapacityDraft
release a caps = elim a.factory_id [
  | none ↦ caps
  | some f ↦ elim a.production_date [
    | none ↦ caps
    | some d ↦ return_quantity f d a.assigned_quantity caps
  ]
]

-- The loop over the assignments of a mutable order: the remaining ones, and the capacities.
unfoldable pub reset_assignments :
    SchedulingConfig
    → List SchedulingAssignmentInput
    → List CapacityDraft
    → List SchedulingAssignmentInput × List CapacityDraft
unfolding return_quantity
reset_assignments config [] caps = ([], caps)
reset_assignments config (a ∷ as_) caps =
    let (rest, left) = reset_assignments config as_ caps in
    let (released_rest, released_left) = reset_assignments config as_ (release a caps) in
    if is_released config a then (released_rest, released_left) else (a ∷ rest, left)

-- The loop over the orders; an immutable order keeps all its assignments.
unfoldable pub reset_orders :
    SchedulingConfig
    → List SchedulingOrderInput
    → List CapacityDraft
    → List SchedulingOrderInput × List CapacityDraft
unfolding reset_assignments
reset_orders config [] caps = ([], caps)
reset_orders config (o ∷ os) caps =
    let (kept, kept_caps) = reset_orders config os caps in
    let (remaining, released) = reset_assignments config (or_empty o.assignments) caps in
    let (changed, changed_caps) = reset_orders config os released in
    if is_input_immutable o
    then (o ∷ kept, kept_caps)
    else (record o { assignments = some remaining } ∷ changed, changed_caps)

pub record Prepared : Type 0 where
  pub config : SchedulingConfig
  pub orders : List SchedulingOrderInput
  pub factories : List FactoryRow
  pub capacities : List CapacityDraft
  pub db_capacities : List CapacityDraft

-- The source writes the corrected start into the config that it was given.
unfoldable pub prepare_scheduling_data : ℕ → SchedulingConfig → Date → Bool → World → Prepared
unfolding find_orders_for_scheduling capacities_of to_utc_date_only calculate_minimum_start_date
    corrected_start reset_orders
prepare_scheduling_data type config current_date fetch_all_pending w =
    let orders = find_orders_for_scheduling type config.target_order_ids fetch_all_pending w in
    let factories = find_factories type w in
    let corrected = record config {
      start_date =
          corrected_start (calculate_minimum_start_date current_date config.frozen_days)
            config.start_date;
    } in
    let db_capacities = capacities_of (to_utc_date_only current_date) w.capacities factories in
    let (reset, capacities) = reset_orders corrected orders db_capacities in
    let gap_filling = is_gap_filling config.reschedule_policy in
    record {
      config = corrected;
      orders = if gap_filling then orders else reset;
      factories = factories;
      capacities = if gap_filling then db_capacities else capacities;
      db_capacities = db_capacities;
    }
