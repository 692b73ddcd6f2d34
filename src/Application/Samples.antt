-- ===== src/Application/Samples.antt =====
-- Runs of the application of a schedule on small inputs, and each theorem at a concrete input.
use wafer_fabrication_schedu.Base.{
  ◌+ℤ◌, ◌*◌, ℕ, ◌+◌, ◌≡◌, refl, true, false, not, if◌then◌else◌, none, some, List, [], ◌∷◌, ◌++◌,
  keep, map, any, pos, ℤ,
}
use wafer_fabrication_schedu.Schedule.CapacityMap.{get, set}
use wafer_fabrication_schedu.Schedule.Types.{
  SchedulingOrderInput, SchedulingAssignmentInput, OrderStatus, AssignmentStatus, ReschedulePolicy,
  OrderAssignmentDraft, CapacityDraft, SchedulingConfig, StrategyResult,
}
use wafer_fabrication_schedu.Store.{
  empty_world, World, OrderRow, AssignmentRow, FactoryStatus, environment_changed, ok, err,
}
use wafer_fabrication_schedu.Application.{
  processed_ids, create_daily_capacities, apply_in_lock, apply_schedule_transaction,
}
use wafer_fabrication_schedu.Application.Prepare.{reset_orders}
use wafer_fabrication_schedu.Application.Prepare.Reset.{
  held_by, counter, reset_order, reset_orders_conserve,
}
use wafer_fabrication_schedu.Application.Run.{run_schedule}
use wafer_fabrication_schedu.Application.Effects.{draft_of, applied, replaced, apply_in_lock_writes}
use wafer_fabrication_schedu.Application.Versions.{
  named, Checked, apply_in_lock_versions, apply_schedule_transaction_checks,
}
use wafer_fabrication_schedu.Application.Created.{row_counter, create_daily_capacities_counters}

abbrev pending_row : OrderRow
pending_row = record {
  id = 5;
  status = OrderStatus.pending;
  due_date = 20;
  quantity = 50;
  applicant_id = 8;
  name = 4;
  type = 1;
  is_fixed = false;
  is_prioritized = false;
  created_at = 2;
  last_modified_by_id = none;
}

-- A plant with a counter for day 11.
abbrev plant : World
plant = record empty_world {
  orders = pending_row ∷ [];
  assignments = [];
  capacities =
      record { id = 3; factory_id = 1; date = 11; max_capacity = 100; cur_capacity = pos 75 } ∷ [];
  factories =
      record {
        id = 1;
        production_type = 1;
        status = FactoryStatus.active;
        max_capacity = 100;
        admins = [];
      }
      ∷ [];
  version = λ t. 4;
  lock = λ t. none;
  next_id = 30;
}

abbrev run_config : SchedulingConfig
run_config = record {
  start_date = 10;
  end_date = none;
  frozen_days = 0;
  production_days = 2;
  buffer_days = 1;
  reschedule_policy = ReschedulePolicy.global_optimize;
  splittable = true;
  target_order_ids = none;
}

abbrev new_assignment : OrderAssignmentDraft
new_assignment = record {
  order_id = 5;
  factory_id = 1;
  production_date = 12;
  completion_date = 14;
  assigned_quantity = 50;
  status = AssignmentStatus.scheduled;
}

abbrev draft_of_day : ℕ → ℤ → CapacityDraft
draft_of_day date counter = record {
  id = none;
  factory_id = 1;
  date = date;
  max_capacity = 100;
  cur_capacity = counter;
}

-- The order is placed on day 12, which has no counter yet.
abbrev on_new_day : StrategyResult
on_new_day = record {
  processed_orders =
      record {
        id = 5;
        status = OrderStatus.scheduled;
        due_date = 20;
        quantity = 50;
        created_at = 2;
        is_fixed = false;
        is_prioritized = false;
        assignments = none;
      }
      ∷ [];
  new_assignments = new_assignment ∷ [];
  updated_capacities = [];
  new_capacities = draft_of_day 12 (pos 50) ∷ [];
}

-- The run has taken 50 wafers of day 12, and the version of the type is as before.
unversioned_test : (apply_in_lock run_config on_new_day 7 plant).1.version 1 ≡ 4
unfolding apply_in_lock
unversioned_test = refl

-- A result that was made before that run is still accepted for the old version.
accepted_test :
    (apply_schedule_transaction 1 run_config on_new_day 7
      (some 4)
      (some 9)
      (apply_in_lock run_config on_new_day 7 plant).1).0
    ≡ ok []
unfolding apply_schedule_transaction apply_in_lock
accepted_test = refl

stale_test :
    (apply_schedule_transaction 1 run_config on_new_day 7 (some 3) (some 9) plant).0
    ≡ err environment_changed
unfolding apply_schedule_transaction
stale_test = refl

apply_in_lock_writes_example :
    let r = apply_in_lock run_config on_new_day 7 plant in
    (r.0 ≡ ok (processed_ids OrderStatus.failed on_new_day))
    × (r.1.orders ≡ map (applied on_new_day 7) plant.orders)
    × (rows : List AssignmentRow) × (r.1.assignments
        ≡ keep (λ a. not (replaced run_config on_new_day a)) plant.assignments ++ rows)
    × (map draft_of rows ≡ on_new_day.new_assignments)
apply_in_lock_writes_example = apply_in_lock_writes run_config on_new_day 7 plant

apply_in_lock_versions_example :
    let r = apply_in_lock run_config on_new_day 7 plant in
    r.1.version 1
    ≡ 4
      + (if any (named plant.factories on_new_day.updated_capacities 1) r.1.capacities
          then 1
          else 0)
apply_in_lock_versions_example = apply_in_lock_versions run_config on_new_day 7 1 plant

apply_schedule_transaction_checks_example :
    let r = apply_schedule_transaction 1 run_config on_new_day 7 (some 3) (some 9) plant in
    Checked (some 3) 4 r.0 r.1 plant
apply_schedule_transaction_checks_example =
    apply_schedule_transaction_checks 1 run_config on_new_day 7 (some 3) (some 9) plant

create_daily_capacities_counters_example :
    row_counter 1 11
      (create_daily_capacities
        (draft_of_day 11 (pos 20) ∷ draft_of_day 12 (pos 50) ∷ [])
        plant).capacities
    ≡ some (pos 75)
create_daily_capacities_counters_example =
    create_daily_capacities_counters (draft_of_day 11 (pos 20) ∷ draft_of_day 12 (pos 50) ∷ []) 1 11
      plant

abbrev held_assignment : ℕ → SchedulingAssignmentInput
held_assignment date = record {
  status = AssignmentStatus.scheduled;
  assigned_quantity = 25;
  factory_id = some 1;
  production_date = some date;
}

-- An order with an assignment within the dates of the run, and one before them.
abbrev two_held : SchedulingOrderInput
two_held = record {
  id = 5;
  status = OrderStatus.scheduled;
  due_date = 20;
  quantity = 50;
  created_at = 2;
  is_fixed = false;
  is_prioritized = false;
  assignments = some (held_assignment 9 ∷ held_assignment 11 ∷ []);
}

reset_orders_conserve_example :
    let caps = draft_of_day 11 (pos 75) ∷ draft_of_day 9 (pos 30) ∷ [] in
    let r = reset_orders run_config (two_held ∷ []) caps in
    (r.0 ≡ map (reset_order run_config) (two_held ∷ []))
    × (counter (pos 0) 1 11 r.1 +ℤ pos (held_by 1 11 r.0)
        ≡ counter (pos 0) 1 11 caps +ℤ pos (held_by 1 11 (two_held ∷ [])))
reset_orders_conserve_example =
    reset_orders_conserve run_config (pos 0) 1 11 (two_held ∷ [])
      (draft_of_day 11 (pos 75) ∷ draft_of_day 9 (pos 30) ∷ []) refl

abbrev real_config : SchedulingConfig
real_config = record run_config { start_date = 86400000 * 10 }

abbrev big_plant : World
big_plant = record plant {
  orders = record pending_row { due_date = 86400000 * 20 } ∷ [];
  capacities = [];
}

-- A run on the plant schedules its order.
run_test : (run_schedule 1 real_config (86400000 * 10) 7 big_plant).0 ≡ ok []
unfolding run_schedule get set
run_test = refl
