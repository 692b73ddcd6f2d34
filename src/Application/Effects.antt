-- ===== src/Application/Effects.antt =====
-- What `_applyScheduleTransaction` of modules/schedule/core.ts leaves in the tables.
use wafer_fabrication_schedu.Base.{
  ℕ, ◌+◌, ◌≡◌, refl, ◌∙◌, ap, sym, Bool, true, not, ◌&&◌, if◌then◌else◌, some, is_some, List, [],
  ◌∷◌, ◌++◌, keep, map, find, elem, arith, Bool-cases, inl, inr,
}
use mathlib.Core.List.{append_assoc, append-nil}
use wafer_fabrication_schedu.Schedule.Types.{
  OrderStatus, is_gap_filling, OrderAssignmentDraft, CapacityDraft, SchedulingConfig,
  StrategyResult,
}
use wafer_fabrication_schedu.Store.{
  World, OrderRow, AssignmentRow, CapacityRow, ok, increment_schedule_version,
}
use wafer_fabrication_schedu.Store.Capacity.{capacity_at}
use wafer_fabrication_schedu.Application.{
  is_replaced, is_settled, mark_order, mark_unsettled, create_daily_capacities, create_assignments,
  processed_ids, mutable_ids, clear_assignments, raise_versions, apply_in_lock,
  apply_schedule_orders_update, bulk_update_daily_capacities,
}

-- The assignments of one row.
abbrev pub draft_of : AssignmentRow → OrderAssignmentDraft
draft_of a = record {
  order_id = a.order_id;
  factory_id = a.factory_id;
  production_date = a.production_date;
  completion_date = a.completion_date;
  assigned_quantity = a.assigned_quantity;
  status = a.status;
}

pub create_assignments-rows :
    (drafts : List OrderAssignmentDraft) (w : World)
    → (rows : List AssignmentRow) × ((create_assignments drafts w).assignments
        ≡ w.assignments ++ rows)
      × (map draft_of rows ≡ drafts)
      × ((create_assignments drafts w).orders ≡ w.orders)
unfolding create_assignments
create_assignments-rows [] w = ([], sym (append-nil w.assignments), refl, refl)
create_assignments-rows (a ∷ as_) w =
    let row : AssignmentRow = record {
      id = w.next_id;
      order_id = a.order_id;
      status = a.status;
      factory_id = a.factory_id;
      production_date = a.production_date;
      completion_date = a.completion_date;
      assigned_quantity = a.assigned_quantity;
    } in
    let (rows, e, drafts, os) =
      create_assignments-rows as_
        (record w { assignments = w.assignments ++ row ∷ []; next_id = w.next_id + 1 }) in
    (row ∷ rows, e ∙ append_assoc w.assignments (row ∷ []) rows, ap (λ ds. a ∷ ds) drafts, os)

pub create_daily_capacities-tables :
    (drafts : List CapacityDraft) (w : World)
    → let w' = create_daily_capacities drafts w in
      (w'.assignments ≡ w.assignments)
      × (w'.orders ≡ w.orders)
      × (w'.version ≡ w.version)
      × (w'.factories ≡ w.factories)
unfolding create_daily_capacities
create_daily_capacities-tables [] w = (refl, refl, refl, refl)
create_daily_capacities-tables (c ∷ cs) w =
    let row : CapacityRow = record {
      id = w.next_id;
      factory_id = c.factory_id;
      date = c.date;
      max_capacity = c.max_capacity;
      cur_capacity = c.cur_capacity;
    } in
    let created =
      create_daily_capacities-tables cs
        (record w { capacities = w.capacities ++ row ∷ []; next_id = w.next_id + 1 }) in
    let skipped = create_daily_capacities-tables cs w in
    elim (Bool-cases (is_some (find (capacity_at c.factory_id c.date) w.capacities))) [
      | inl e ↦ rw e skipped
      | inr e ↦ rw e created
    ]

pub raise_versions-tables :
    (types : List ℕ) (w : World)
    → let w' = raise_versions types w in
      (w'.assignments ≡ w.assignments) × (w'.orders ≡ w.orders) × (w'.capacities ≡ w.capacities)
unfolding raise_versions
raise_versions-tables [] w = (refl, refl, refl)
raise_versions-tables (t ∷ ts) w = raise_versions-tables ts (increment_schedule_version t w).1

-- The status of an order after the application: FAILED goes before SCHEDULED, and an order that is
-- COMPLETED or CANCELLED is left alone.
abbrev pub applied : StrategyResult → ℕ → OrderRow → OrderRow
applied result operator_id o =
    if is_settled o.status
    then o
    else (if elem o.id (processed_ids OrderStatus.failed result)
        then mark_order OrderStatus.failed operator_id o
        else (if elem o.id (processed_ids OrderStatus.scheduled result)
            then mark_order OrderStatus.scheduled operator_id o
            else o))

mark_unsettled-twice :
    (failed scheduled : List ℕ) (operator_id : ℕ) (rows : List OrderRow)
    → mark_unsettled failed OrderStatus.failed operator_id
        (mark_unsettled scheduled OrderStatus.scheduled operator_id rows)
      ≡ map
          (λ o.
            if is_settled o.status
            then o
            else (if elem o.id failed
                then mark_order OrderStatus.failed operator_id o
                else (if elem o.id scheduled
                    then mark_order OrderStatus.scheduled operator_id o
                    else o)))
          rows
mark_unsettled-twice failed scheduled operator_id [] = refl
mark_unsettled-twice failed scheduled operator_id (x ∷ xs) =
    ground (arith, mark_unsettled-twice failed scheduled operator_id xs)

-- The assignments that the application replaces: under GAP_FILLING none, and otherwise the SCHEDULED
-- ones of the mutable orders within the dates of the run.
abbrev pub replaced : SchedulingConfig → StrategyResult → AssignmentRow → Bool
replaced config result a =
    not (is_gap_filling config.reschedule_policy)
    && is_replaced (mutable_ids result) (some config.start_date) config.end_date a

keep_all {ℓ} : {A : Type ℓ} (rows : List A) → rows ≡ keep (λ a. true) rows
keep_all [] = refl
keep_all (x ∷ xs) = ap (λ ys. x ∷ ys) (keep_all xs)

clear_assignments-tables :
    (config : SchedulingConfig) (result : StrategyResult) (w : World)
    → ((clear_assignments config result w).assignments
        ≡ keep (λ a. not (replaced config result a)) w.assignments)
      × ((clear_assignments config result w).orders ≡ w.orders)
unfolding clear_assignments
clear_assignments-tables config result w =
    elim (Bool-cases (is_gap_filling config.reschedule_policy)) [
      | inl e ↦ (rw e (keep_all w.assignments), rw e refl)
      | inr e ↦ (rw e refl, rw e refl)
    ]

-- The application returns the failed orders. It sets the status of each order of the result that is
-- neither COMPLETED nor CANCELLED, and of no other; and in place of the assignments that it replaces,
-- the table has one new row for each assignment of the result, behind the others.
pub apply_in_lock_writes :
    (config : SchedulingConfig) (result : StrategyResult) (operator_id : ℕ) (w : World)
    → let r = apply_in_lock config result operator_id w in
      (r.0 ≡ ok (processed_ids OrderStatus.failed result))
      × (r.1.orders ≡ map (applied result operator_id) w.orders)
      × (rows : List AssignmentRow) × (r.1.assignments
          ≡ keep (λ a. not (replaced config result a)) w.assignments ++ rows)
      × (map draft_of rows ≡ result.new_assignments)
unfolding apply_in_lock
apply_in_lock_writes config result operator_id w =
    let w1 = clear_assignments config result w in
    let failed = processed_ids OrderStatus.failed result in
    let scheduled = processed_ids OrderStatus.scheduled result in
    let w2 = apply_schedule_orders_update scheduled failed operator_id w1 in
    let w3 = create_daily_capacities result.new_capacities w2 in
    let w4 = (bulk_update_daily_capacities result.updated_capacities w3).1 in
    let types = (bulk_update_daily_capacities result.updated_capacities w3).0 in
    let w5 = create_assignments result.new_assignments w4 in
    let cleared = clear_assignments-tables config result w in
    let created = create_daily_capacities-tables result.new_capacities w2 in
    let (rows, e, drafts, os) = create_assignments-rows result.new_assignments w4 in
    let raised = raise_versions-tables types w5 in
    (
      refl,
      raised.1
          ∙ os
          ∙ created.1
          ∙ ap
              (λ o.
                mark_unsettled failed OrderStatus.failed operator_id
                  (mark_unsettled scheduled OrderStatus.scheduled operator_id o))
              cleared.1
          ∙ mark_unsettled-twice failed scheduled operator_id w.orders,
      rows,
      raised.0 ∙ e ∙ ap (λ a. a ++ rows) (created.0 ∙ cleared.0),
      drafts,
    )
