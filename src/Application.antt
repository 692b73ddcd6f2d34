-- ===== src/Application.antt =====
-- modules/schedule/core.ts: a strategy's result is written to the tables, with the queries of
-- infra/db/assignment-repository.ts, capacity-repository.ts and order-repository.ts that it uses. Their
-- lists are written in chunks, which together are the whole list. The conflict issues of the failed
-- orders, which stand in tables of their own, are left out.
pub mod Effects
pub mod Versions
pub mod Created
pub mod Prepare
pub mod Run
mod Samples
use wafer_fabrication_schedu.Base.{
  ℕ, suc, ◌+◌, ◌≡◌, Bool, true, false, not, ◌&&◌, ◌||◌, ◌==◌, leb, if◌then◌else◌, Option, none,
  some, is_some, List, [], ◌∷◌, ◌++◌, keep, map, find, elem, any, ℤ, pos, eqb_ℤ,
}
use wafer_fabrication_schedu.Dates.{Date}
use wafer_fabrication_schedu.Schedule.Types.{
  OrderStatus, AssignmentStatus, eq_status, eq_assignment_status, is_gap_filling,
  OrderAssignmentDraft, CapacityDraft, SchedulingOrderInput, SchedulingConfig, StrategyResult,
}
use wafer_fabrication_schedu.Store.{
  World, OrderRow, AssignmentRow, CapacityRow, FactoryRow, Error, environment_changed, Result, ok,
  err, Action, pure, throw, guard, ◌>>=◌, ◌>>◌, transaction, settle, update_where,
  get_schedule_version, increment_schedule_version,
}
use wafer_fabrication_schedu.Store.Locks.{with_schedule_lock, unique_from}
use wafer_fabrication_schedu.Store.Capacity.{capacity_at}

abbrev pub since : Option Date → Date → Bool
since none d = true
since (some start) d = leb start d

abbrev pub until : Option Date → Date → Bool
until none d = true
until (some end) d = leb d end

abbrev pub is_replaced : List ℕ → Option Date → Option Date → AssignmentRow → Bool
is_replaced order_ids start_date end_date a =
    elem a.order_id order_ids
    && eq_assignment_status a.status AssignmentStatus.scheduled
    && since start_date a.production_date
    && until end_date a.production_date

unfoldable pub delete_scheduled_assignments : List ℕ → Option Date → Option Date → World → World
delete_scheduled_assignments order_ids start_date end_date w = record w {
  assignments = keep (λ a. not (is_replaced order_ids start_date end_date a)) w.assignments;
}

abbrev pub is_settled : OrderStatus → Bool
is_settled s = eq_status s OrderStatus.completed || eq_status s OrderStatus.cancelled

abbrev pub mark_order : OrderStatus → ℕ → OrderRow → OrderRow
mark_order status operator_id o = record o {
  status = status;
  last_modified_by_id = some operator_id;
}

abbrev pub mark_unsettled : List ℕ → OrderStatus → ℕ → List OrderRow → List OrderRow
mark_unsettled ids status operator_id rows =
    update_where (λ (o : OrderRow). elem o.id ids && not (is_settled o.status))
      (mark_order status operator_id) rows

unfoldable pub apply_schedule_orders_update : List ℕ → List ℕ → ℕ → World → World
apply_schedule_orders_update scheduled_ids failed_ids operator_id w = record w {
  orders =
      mark_unsettled failed_ids OrderStatus.failed operator_id
        (mark_unsettled scheduled_ids OrderStatus.scheduled operator_id w.orders);
}

-- `createMany` with `skipDuplicates`: a factory and date that has a row keeps it.
unfoldable pub create_daily_capacities : List CapacityDraft → World → World
create_daily_capacities [] w = w
create_daily_capacities (c ∷ cs) w =
    let row : CapacityRow = record {
      id = w.next_id;
      factory_id = c.factory_id;
      date = c.date;
      max_capacity = c.max_capacity;
      cur_capacity = c.cur_capacity;
    } in
    let skipped = create_daily_capacities cs w in
    let created =
      create_daily_capacities cs
        (record w { capacities = w.capacities ++ row ∷ []; next_id = w.next_id + 1 }) in
    if is_some (find (capacity_at c.factory_id c.date) w.capacities) then skipped else created

-- An entry of the list of updates: the id of a row and its new counter.
abbrev pub draft_has_id : ℕ → CapacityDraft → Bool
draft_has_id id c = elim c.id [ none ↦ false | some i ↦ i == id ]

-- The counter that the updates have for a row; an equal one changes nothing.
abbrev pub written : List CapacityDraft → CapacityRow → CapacityRow
written updates r = elim (find (draft_has_id r.id) updates) [
  | none ↦ r
  | some c ↦ record r { cur_capacity = c.cur_capacity }
]

abbrev pub type_of : List FactoryRow → ℕ → List ℕ
type_of factories id = elim (find (λ (f : FactoryRow). f.id == id) factories) [
  | none ↦ []
  | some f ↦ f.production_type ∷ []
]

abbrev pub updated_types : List FactoryRow → List CapacityDraft → List CapacityRow → List ℕ
updated_types factories updates [] = []
updated_types factories updates (r ∷ rows) =
    let rest = updated_types factories updates rows in
    if any (draft_has_id r.id) updates then type_of factories r.factory_id ++ rest else rest

-- The production types of the rows that the updates name, and the rows with their new counters.
unfoldable pub bulk_update_daily_capacities : List CapacityDraft → World → List ℕ × World
unfolding unique_from
bulk_update_daily_capacities updates w = (
  unique_from [] (updated_types w.factories updates w.capacities),
  record w { capacities = map (written updates) w.capacities },
)

unfoldable pub create_assignments : List OrderAssignmentDraft → World → World
create_assignments [] w = w
create_assignments (a ∷ as_) w =
    let row : AssignmentRow = record {
      id = w.next_id;
      order_id = a.order_id;
      status = a.status;
      factory_id = a.factory_id;
      production_date = a.production_date;
      completion_date = a.completion_date;
      assigned_quantity = a.assigned_quantity;
    } in
    create_assignments as_
      (record w { assignments = w.assignments ++ row ∷ []; next_id = w.next_id + 1 })

abbrev pub processed_ids : OrderStatus → StrategyResult → List ℕ
processed_ids status result =
    map (λ (o : SchedulingOrderInput). o.id)
      (keep (λ (o : SchedulingOrderInput). eq_status o.status status) result.processed_orders)

abbrev pub is_mutable : SchedulingOrderInput → Bool
is_mutable o =
    not o.is_fixed
    && not (eq_status o.status OrderStatus.in_production)
    && not (eq_status o.status OrderStatus.completed)

abbrev pub mutable_ids : StrategyResult → List ℕ
mutable_ids result =
    map (λ (o : SchedulingOrderInput). o.id) (keep is_mutable result.processed_orders)

-- `if (config.reschedulePolicy !== "GAP_FILLING")`.
unfoldable pub clear_assignments : SchedulingConfig → StrategyResult → World → World
unfolding delete_scheduled_assignments
clear_assignments config result w =
    if is_gap_filling config.reschedule_policy
    then w
    else delete_scheduled_assignments (mutable_ids result) (some config.start_date) config.end_date
        w

-- The writes of the transaction, and the types whose versions are raised after it.
unfoldable pub write_schedule : SchedulingConfig → StrategyResult → ℕ → World → List ℕ × World
unfolding clear_assignments apply_schedule_orders_update create_daily_capacities
    bulk_update_daily_capacities create_assignments
write_schedule config result operator_id w0 =
    let w1 = clear_assignments config result w0 in
    let w2 =
      apply_schedule_orders_update (processed_ids OrderStatus.scheduled result)
        (processed_ids OrderStatus.failed result) operator_id w1 in
    let w3 = create_daily_capacities result.new_capacities w2 in
    let (types, w4) = bulk_update_daily_capacities result.updated_capacities w3 in
    (types, create_assignments result.new_assignments w4)

unfoldable pub raise_versions : List ℕ → World → World
unfolding increment_schedule_version
raise_versions [] w = w
raise_versions (t ∷ ts) w = raise_versions ts (increment_schedule_version t w).1

-- `_applyScheduleTransaction`: the ids of the failed orders.
unfoldable pub apply_in_lock : SchedulingConfig → StrategyResult → ℕ → Action (List ℕ)
unfolding write_schedule raise_versions
apply_in_lock config result operator_id w =
    let (types, w') = write_schedule config result operator_id w in
    (ok (processed_ids OrderStatus.failed result), raise_versions types w')

abbrev pub check_expected : Option ℕ → ℕ → Action (Unit {0})
check_expected none current = pure tt
check_expected (some expected) current = guard (expected == current) environment_changed

-- The preview that is deleted is not part of the state.
unfoldable pub apply_schedule_transaction :
    ℕ → SchedulingConfig → StrategyResult → ℕ → Option ℕ → Option ℕ → Action (List ℕ)
unfolding with_schedule_lock get_schedule_version increment_schedule_version apply_in_lock
apply_schedule_transaction type config result operator_id expected_version preview_id =
    with_schedule_lock (type ∷ []) (do
      before ← get_schedule_version type
      check_expected expected_version before
      failed ← apply_in_lock config result operator_id
      raised ←
          if is_some expected_version && is_some preview_id
          then increment_schedule_version type
          else pure before
      pure failed)
