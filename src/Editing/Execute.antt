-- ===== src/Editing/Execute.antt =====
-- The transaction of modules/schedule/manual-edit-service.ts.
use wafer_fabrication_schedu.Base.{
  ℕ, ◌+◌, ◌-◌, not, Option, none, some, List, [], ◌∷◌, map, keep, elem, ℤ, pos, ◌-ℤ◌,
}
use wafer_fabrication_schedu.Dates.{Date, plus_days}
use wafer_fabrication_schedu.Schedule.Types.{OrderStatus, AssignmentStatus, OrderAssignmentDraft}
use wafer_fabrication_schedu.Store.{World, AssignmentRow, SchedulerConfigRow, update_where}
use wafer_fabrication_schedu.Store.Capacity.{upsert_daily_capacity_delta, factory_max}
use wafer_fabrication_schedu.Store.Locks.{unique_from}
use wafer_fabrication_schedu.Orders.Table.{
  bulk_update_order_status_and_modified_by, bulk_update_order_modified_by,
}
use wafer_fabrication_schedu.Application.{create_assignments}
use wafer_fabrication_schedu.Editing.Judge.{
  OldSlot, ValidAction, to_midnight, find_config, assignment_is, is_pending_action,
}

abbrev pub place_assignment : ℕ → Date → Date → AssignmentRow → AssignmentRow
place_assignment factory_id production_date completion_date a = record a {
  factory_id = factory_id;
  production_date = production_date;
  completion_date = completion_date;
}

unfoldable pub update_assignment_slot : ℕ → ℕ → Date → Date → World → World
update_assignment_slot id factory_id production_date completion_date w = record w {
  assignments =
      update_where (assignment_is id) (place_assignment factory_id production_date completion_date)
        w.assignments;
}

-- `upsertDailyCapacityDelta` with the capacity of the factory from `factoryMap`.
unfoldable pub shift_capacity : ℕ → Date → ℤ → World → World
unfolding upsert_daily_capacity_delta factory_max
shift_capacity factory_id date delta w =
    upsert_daily_capacity_delta factory_id date delta (factory_max factory_id w.factories 0) w

abbrev pub taken : ValidAction → ℤ
taken a = pos 0 -ℤ pos a.qty

-- `MOVE_ASSIGNMENT`: the completion moves along with the production.
unfoldable pub move_assignment : ValidAction → OldSlot → World → World
unfolding shift_capacity update_assignment_slot
move_assignment a old w =
    let new_date = to_midnight a.move.production_day in
    update_assignment_slot old.assignment_id a.move.factory_id new_date
      (old.completion_date + new_date - old.date)
      (shift_capacity a.move.factory_id new_date (taken a)
        (shift_capacity old.factory_id old.date (pos a.qty) w))

-- `SCHEDULE_PENDING`: the capacity is taken here, and the assignment is created after the loop.
unfoldable pub run_action : ValidAction → World → World
unfolding move_assignment shift_capacity
run_action a w = elim a.old [
  | some old ↦ move_assignment a old w
  | none ↦ shift_capacity a.move.factory_id (to_midnight a.move.production_day) (taken a) w
]

unfoldable pub run_actions : List ValidAction → World → World
unfolding run_action
run_actions [] w = w
run_actions (a ∷ as_) w = run_actions as_ (run_action a w)

abbrev pub days_of : Option SchedulerConfigRow → ℕ
days_of none = 1
days_of (some c) = c.production_days

unfoldable pub draft_of_action : World → ValidAction → OrderAssignmentDraft
unfolding find_config plus_days
draft_of_action w a = record {
  order_id = a.order_id;
  factory_id = a.move.factory_id;
  production_date = to_midnight a.move.production_day;
  completion_date =
      plus_days (to_midnight a.move.production_day)
        (days_of (find_config a.order_type w.configs none));
  assigned_quantity = a.qty;
  status = AssignmentStatus.scheduled;
}

abbrev pub pending_actions : List ValidAction → List ValidAction
pending_actions actions = keep is_pending_action actions

abbrev pub action_orders : List ValidAction → List ℕ
action_orders actions = map (λ (a : ValidAction). a.order_id) actions

-- `ordersToUpdateStatus`, and the other orders that were touched.
abbrev pub scheduled_orders : List ValidAction → List ℕ
scheduled_orders actions = unique_from [] (action_orders (pending_actions actions))

abbrev pub remaining_orders : List ValidAction → List ℕ
remaining_orders actions =
    keep (λ id. not (elem id (scheduled_orders actions))) (unique_from [] (action_orders actions))

unfoldable pub execute_actions : List ValidAction → ℕ → World → World
unfolding run_actions draft_of_action create_assignments unique_from
    bulk_update_order_status_and_modified_by bulk_update_order_modified_by
execute_actions actions actor_user_id w =
    let moved = run_actions actions w in
    let created = create_assignments (map (draft_of_action w) (pending_actions actions)) moved in
    let marked =
      (bulk_update_order_status_and_modified_by (scheduled_orders actions) OrderStatus.scheduled
        actor_user_id created).1 in
    (bulk_update_order_modified_by (remaining_orders actions) actor_user_id marked).1
