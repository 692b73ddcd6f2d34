-- ===== src/Schedule/Samples.antt =====
-- Runs of modules/schedule/strategy.ts on small inputs, and each theorem at a concrete input.
use wafer_fabrication_schedu.Base.{
  ℕ, zero, suc, ◌+◌, ◌*◌, ◌≡◌, refl, ◌<◌, ◌≤◌, true, false, none, some, List, [], ◌∷◌, ◌++◌, map,
  find, arith, pos, ◌+ℤ◌, All,
}
use mathlib.Core.List.{Perm}
use wafer_fabrication_schedu.Dates.{Date, day_ms, day_of}
use wafer_fabrication_schedu.Schedule.Types.{
  OrderStatus, ReschedulePolicy, AssignmentStatus, CapacityDraft, OrderAssignmentDraft,
  SchedulingConfig, SchedulingFactoryInput, SchedulingOrderInput,
}
use wafer_fabrication_schedu.Schedule.CapacityMap.{CapacityMap, get, set, adjust, delete}
use wafer_fabrication_schedu.Schedule.OrderQueue.{immutable_orders, mutable_orders, sorted_orders}
use wafer_fabrication_schedu.Schedule.OrderQueue.Order.{Queued, sorted_orders-Queued}
use wafer_fabrication_schedu.Schedule.Attempt.{
  slot, draft_for, remaining_quantity, window_start, window_end, window_days,
}
use wafer_fabrication_schedu.Schedule.Split.{split_loop}
use wafer_fabrication_schedu.Schedule.Block.{block_loop}
use wafer_fabrication_schedu.Schedule.Total.{total_loop, compute_total_available_capacity}
use wafer_fabrication_schedu.Schedule.Strategy.{
  Progress, attempt_order, process_order, process_orders, execute,
}
use wafer_fabrication_schedu.Schedule.Steps.{begun}
use wafer_fabrication_schedu.Schedule.Rollback.{process_order_failed}
use wafer_fabrication_schedu.Schedule.Placement.{placed, IsPlaced, process_order-placed}
use wafer_fabrication_schedu.Schedule.Levels.{level, booked, process_orders_conserve}
use wafer_fabrication_schedu.Schedule.Overdraft.{overdraft, process_orders-overdraft}
use wafer_fabrication_schedu.Schedule.Completeness.{split_succeeds_iff_covered}
use wafer_fabrication_schedu.Schedule.FirstFit.{choose, fits, candidates, block_takes_first_fit}
use wafer_fabrication_schedu.Schedule.Fuel.{loops_terminate}
use wafer_fabrication_schedu.Schedule.Whole.{AllSettled, unstamped, execute_processes_every_order}

abbrev day : ℕ → Date
day n = n * day_ms

abbrev two_factories : List SchedulingFactoryInput
two_factories = record { id = 1; max_capacity = 100 } ∷ record { id = 2; max_capacity = 60 } ∷ []

abbrev capacity_of : ℕ → ℕ
capacity_of (suc zero) = 100
capacity_of _ = 60

-- Days 10 to 12 are the window of an order that is due on day 15.
abbrev splitting : SchedulingConfig
splitting = record {
  start_date = day 10 + 5;
  end_date = none;
  frozen_days = 0;
  production_days = 2;
  buffer_days = 1;
  reschedule_policy = ReschedulePolicy.priority_retain;
  splittable = true;
  target_order_ids = none;
}

abbrev whole_blocks : SchedulingConfig
whole_blocks = record splitting { splittable = false }

abbrev order_of : ℕ → ℕ → SchedulingOrderInput
order_of id quantity = record {
  id = id;
  status = OrderStatus.pending;
  due_date = day 15 + 7;
  quantity = quantity;
  created_at = day 1;
  is_fixed = false;
  is_prioritized = false;
  assignments = none;
}

abbrev fixed_order : SchedulingOrderInput
fixed_order = record (order_of 9 40) {
  is_fixed = true;
  status = OrderStatus.scheduled;
  assignments = some (
      record {
        status = AssignmentStatus.scheduled;
        assigned_quantity = 40;
        factory_id = some 1;
        production_date = some (day 10);
      }
      ∷ []);
}

-- A row of the database: 30 of 100 are left in factory 1 on day 10.
abbrev stored : CapacityDraft
stored = record {
  id = some 77;
  factory_id = 1;
  date = day 10;
  max_capacity = 100;
  cur_capacity = pos 30;
}

abbrev stored_map : CapacityMap
stored_map = (slot 1 10, stored) ∷ []

abbrev fresh : Progress
fresh = record { capacities = stored_map; processed = []; assignments = [] }

-- 30 + 60 + 2 * 160 = 410 can be placed.
split_150 :
    map
      (λ (d : OrderAssignmentDraft). slot d.factory_id d.assigned_quantity)
      (process_order splitting two_factories (order_of 1 150) fresh).assignments
    ≡ slot 2 60 ∷ slot 1 30 ∷ slot 1 60 ∷ []
unfolding process_order get set adjust draft_for
split_150 = refl

-- With frozenDays set, the order still takes the days from startDate on.
not_frozen :
    map
      (λ (d : OrderAssignmentDraft). slot d.factory_id d.assigned_quantity)
      (process_order
        (record splitting { frozen_days = 2 })
        two_factories
        (order_of 1 150)
        fresh).assignments
    ≡ slot 2 60 ∷ slot 1 30 ∷ slot 1 60 ∷ []
unfolding process_order get set adjust draft_for
not_frozen = refl

total_is_410 : compute_total_available_capacity (day 10) (day 12) two_factories stored_map ≡ 410
unfolding compute_total_available_capacity get
total_is_410 = refl

too_large : (process_order splitting two_factories (order_of 1 411) fresh).capacities ≡ stored_map
unfolding process_order get set adjust delete ◌+ℤ◌
too_large = refl

sorted_orders-Queued_example :
    Perm
      (sorted_orders ReschedulePolicy.priority_retain
        (order_of 1 150 ∷ fixed_order ∷ order_of 2 200 ∷ []))
      (order_of 1 150 ∷ fixed_order ∷ order_of 2 200 ∷ [])
    × Queued ReschedulePolicy.priority_retain (
        sorted_orders ReschedulePolicy.priority_retain
          (order_of 1 150 ∷ fixed_order ∷ order_of 2 200 ∷ []))
sorted_orders-Queued_example =
    sorted_orders-Queued ReschedulePolicy.priority_retain
      (order_of 1 150 ∷ fixed_order ∷ order_of 2 200 ∷ [])

process_order_failed_example :
    process_order splitting two_factories (order_of 1 411) fresh
    ≡ record fresh { processed = record (order_of 1 411) { status = OrderStatus.failed } ∷ [] }
unfolding attempt_order get set adjust
process_order_failed_example =
    process_order_failed splitting two_factories (order_of 1 411) fresh
      (λ e. let one_left : ◌≡◌ {A = ℕ} 1 0 = e in absurd (omega arith))

process_order-placed_example :
    (end : Date) × (drafts : List OrderAssignmentDraft) × (window_end splitting (order_of 1 150)
      ≡ some end)
    × ((process_order splitting two_factories (order_of 1 150) fresh).assignments ≡ drafts)
    × ((process_order splitting two_factories (order_of 1 150) fresh).processed
        ≡ record (order_of 1 150) { status = OrderStatus.scheduled } ∷ [])
    × (placed drafts ≡ remaining_quantity (order_of 1 150))
    × All (IsPlaced splitting (order_of 1 150) end) drafts
unfolding attempt_order remaining_quantity get set adjust
process_order-placed_example =
    process_order-placed splitting two_factories (order_of 1 150) fresh (omega arith) refl

process_orders_conserve_example :
    let done =
      process_orders splitting two_factories (order_of 1 150 ∷ order_of 2 300 ∷ []) fresh in
    level capacity_of (slot 1 11) done.capacities +ℤ pos (booked (slot 1 11) done.assignments)
    ≡ level capacity_of (slot 1 11) stored_map +ℤ pos 0
process_orders_conserve_example =
    process_orders_conserve capacity_of (slot 1 11) splitting two_factories (refl, (refl, tt))
      (order_of 1 150 ∷ order_of 2 300 ∷ []) fresh

process_orders-overdraft_example :
    overdraft
      (process_orders splitting two_factories
        (order_of 1 150 ∷ order_of 2 300 ∷ [])
        fresh).capacities
    ≡ overdraft stored_map
process_orders-overdraft_example =
    process_orders-overdraft splitting two_factories (order_of 1 150 ∷ order_of 2 300 ∷ []) fresh

split_succeeds_iff_covered_example :
    let total =
      compute_total_available_capacity (window_start splitting) (day 12) two_factories stored_map in
    let done = process_order splitting two_factories (order_of 1 150) fresh in
    (remaining_quantity (order_of 1 150) ≤ total
      → done.processed ≡ record (order_of 1 150) { status = OrderStatus.scheduled } ∷ [])
    × (total < remaining_quantity (order_of 1 150)
        → done ≡ record fresh {
          processed = record (order_of 1 150) { status = OrderStatus.failed } ∷ [];
        })
unfolding window_end window_start remaining_quantity
split_succeeds_iff_covered_example =
    split_succeeds_iff_covered splitting two_factories (order_of 1 150) (day 12) refl (omega arith)
      (omega arith) fresh (((λ e. absurd (omega arith)), tt), (tt, tt)) (refl, tt) refl

block_takes_first_fit_example :
    attempt_order whole_blocks two_factories (order_of 1 80) stored_map
    ≡ choose whole_blocks 1 (begun (order_of 1 80) stored_map) (
        find (fits (remaining_quantity (order_of 1 80)) stored_map) (
          candidates two_factories
            (day 12)
            (window_days (window_start whole_blocks) (day 12))
            (day_of (window_start whole_blocks))))
unfolding window_end window_start remaining_quantity
block_takes_first_fit_example =
    block_takes_first_fit whole_blocks two_factories (order_of 1 80) stored_map (day 12) refl
      (omega arith) (omega arith) refl

loops_terminate_example :
    let st = begun (order_of 1 150) stored_map in
    (split_loop splitting 1 two_factories (day 12) (3 + 5) 10 st
      ≡ split_loop splitting 1 two_factories (day 12) 3 10 st)
    × (block_loop splitting 1 two_factories (day 12) (3 + 5) 10 st
        ≡ block_loop splitting 1 two_factories (day 12) 3 10 st)
    × (total_loop stored_map two_factories (day 12) (3 + 5) 10
        ≡ total_loop stored_map two_factories (day 12) 3 10)
loops_terminate_example =
    loops_terminate splitting 1 two_factories (day 10) (day 12) stored_map
      (begun (order_of 1 150) stored_map) 5

execute_processes_every_order_example :
    (done : List SchedulingOrderInput) × ((execute
        (order_of 1 150 ∷ fixed_order ∷ [])
        two_factories
        []
        splitting
        none).processed_orders
      ≡ immutable_orders (order_of 1 150 ∷ fixed_order ∷ []) ++ done)
    × AllSettled
        (sorted_orders ReschedulePolicy.priority_retain
          (mutable_orders (order_of 1 150 ∷ fixed_order ∷ [])))
        done
    × Perm
        (map unstamped (immutable_orders (order_of 1 150 ∷ fixed_order ∷ []) ++ done))
        (map unstamped (order_of 1 150 ∷ fixed_order ∷ []))
execute_processes_every_order_example =
    execute_processes_every_order (order_of 1 150 ∷ fixed_order ∷ []) two_factories [] splitting
      none
