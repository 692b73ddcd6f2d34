-- ===== src/Execution/Samples.antt =====
-- Runs of the daily advancement on small inputs, and each theorem at a concrete input.
use wafer_fabrication_schedu.Base.{
  inr, ℕ, ◌+◌, ◌≡◌, refl, false, none, some, [], ◌∷◌, arith, any, find,
}
use wafer_fabrication_schedu.Base.Sort.{Distinct}
use wafer_fabrication_schedu.Schedule.Types.{OrderStatus, AssignmentStatus}
use wafer_fabrication_schedu.Store.{empty_world, World, OrderRow, AssignmentRow}
use wafer_fabrication_schedu.Orders.Table.{order_has_id}
use wafer_fabrication_schedu.Execution.{
  assignment_key, order_key, set_order_status, assignments_of, execute_daily_state_advancement,
  advance_order_statuses,
}
use wafer_fabrication_schedu.Execution.Pointwise.{moves}
use wafer_fabrication_schedu.Execution.Compose.{advance_composes}
use wafer_fabrication_schedu.Execution.Revert.{revert_simulation_statuses}
use wafer_fabrication_schedu.Execution.Revert.RoundTrip.{IsUpToDate, revert_undoes_advance}
use wafer_fabrication_schedu.Execution.Decision.{Decided, advance_decides}

abbrev order_row : ℕ → OrderStatus → OrderRow
order_row id status = record {
  id = id;
  status = status;
  due_date = 20;
  quantity = 50;
  applicant_id = 8;
  name = 4;
  type = 1;
  is_fixed = false;
  is_prioritized = false;
  created_at = 2;
  last_modified_by_id = none;
}

abbrev assignment_row : ℕ → ℕ → AssignmentStatus → ℕ → AssignmentRow
assignment_row id order_id status date = record {
  id = id;
  order_id = order_id;
  status = status;
  factory_id = 1;
  production_date = date;
  completion_date = date + 2;
  assigned_quantity = 25;
}

-- On day 10, order 5 is in production, with one assignment that has started and one that has not,
-- and order 6 waits for day 12.
abbrev day_ten : World
day_ten = record empty_world {
  orders = order_row 5 OrderStatus.in_production ∷ order_row 6 OrderStatus.scheduled ∷ [];
  assignments =
      assignment_row 20 5 AssignmentStatus.in_production 10
      ∷ assignment_row 21 5 AssignmentStatus.scheduled 11
      ∷ assignment_row 22 6 AssignmentStatus.scheduled 12
      ∷ [];
  capacities = [];
  factories = [];
  version = λ t. 0;
  lock = λ t. none;
  next_id = 30;
}

-- Order 5 is cancelled: its assignment that has started goes on.
abbrev cancelled : World
cancelled = record day_ten {
  orders = order_row 5 OrderStatus.cancelled ∷ [];
  assignments = assignment_row 20 5 AssignmentStatus.in_production 10 ∷ [];
}

advance_test :
    (execute_daily_state_advancement 12 none day_ten).1.orders
    ≡ order_row 5 OrderStatus.in_production ∷ order_row 6 OrderStatus.in_production ∷ []
unfolding execute_daily_state_advancement
advance_test = refl

finish_test :
    (advance_order_statuses 14 none day_ten).1.orders
    ≡ order_row 5 OrderStatus.completed ∷ order_row 6 OrderStatus.completed ∷ []
unfolding advance_order_statuses
finish_test = refl

revert_test :
    (revert_simulation_statuses 10 none
      (execute_daily_state_advancement 13 none day_ten).1).1.orders
    ≡ day_ten.orders
unfolding revert_simulation_statuses execute_daily_state_advancement
revert_test = refl

day_ten-assignments : Distinct assignment_key day_ten.assignments
day_ten-assignments = (
  ((λ e. absurd (omega arith)), ((λ e. absurd (omega arith)), tt)),
  (((λ e. absurd (omega arith)), tt), (tt, tt)),
)

day_ten-orders : Distinct order_key day_ten.orders
day_ten-orders = (((λ e. absurd (omega arith)), tt), (tt, tt))

day_ten-IsUpToDate : IsUpToDate 10 day_ten
day_ten-IsUpToDate = record {
  assignment_keys = day_ten-assignments;
  order_keys = day_ten-orders;
  current =
      ((omega arith, omega arith), ((omega arith, omega arith), ((omega arith, omega arith), tt)));
  follows = (inr refl, (inr refl, tt));
}

advance_composes_example :
    let step = (execute_daily_state_advancement 11 none day_ten).1 in
    let stepped = (execute_daily_state_advancement 13 none step).1 in
    let jumped = (execute_daily_state_advancement 13 none day_ten).1 in
    (stepped.assignments ≡ jumped.assignments) × (stepped.orders ≡ jumped.orders)
advance_composes_example =
    advance_composes 11 13 none none none day_ten (omega arith) day_ten-assignments day_ten-orders

revert_undoes_advance_example :
    let simulated = (execute_daily_state_advancement 13 none day_ten).1 in
    let w' = (revert_simulation_statuses 10 none simulated).1 in
    (w'.assignments ≡ day_ten.assignments) × (w'.orders ≡ day_ten.orders)
revert_undoes_advance_example =
    revert_undoes_advance 10 13 none none day_ten (omega arith) day_ten-IsUpToDate

advance_decides_example :
    let w' = (execute_daily_state_advancement 12 none cancelled).1 in
    (s : OrderStatus) × (find (order_has_id 5) w'.orders
      ≡ some (set_order_status s (order_row 5 OrderStatus.cancelled)))
    × Decided OrderStatus.cancelled
        (assignments_of w'.assignments (order_row 5 OrderStatus.cancelled))
        (any (moves 12) (assignments_of cancelled.assignments (order_row 5 OrderStatus.cancelled)))
        s
advance_decides_example =
    advance_decides 12 none cancelled 5 (order_row 5 OrderStatus.cancelled) (tt, tt) (tt, tt) refl

revived_test :
    (execute_daily_state_advancement 12 none cancelled).1.orders
    ≡ order_row 5 OrderStatus.completed ∷ []
unfolding execute_daily_state_advancement
revived_test = refl

-- An order whose other assignment was cancelled is not completed.
abbrev partly_cancelled : World
partly_cancelled = record day_ten {
  orders = order_row 5 OrderStatus.in_production ∷ [];
  assignments =
      assignment_row 20 5 AssignmentStatus.in_production 10
      ∷ assignment_row 21 5 AssignmentStatus.cancelled 11
      ∷ [];
}

stays_test :
    (execute_daily_state_advancement 14 none partly_cancelled).1.orders ≡ partly_cancelled.orders
unfolding execute_daily_state_advancement
stays_test = refl
