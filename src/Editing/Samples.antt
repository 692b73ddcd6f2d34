-- ===== src/Editing/Samples.antt =====
-- Runs of bulk edits on small inputs, and each theorem at a concrete input.
use wafer_fabrication_schedu.Base.{
  ℕ, ◌*◌, ◌≡◌, refl, true, false, none, some, List, [], ◌∷◌, any, map, ◌+ℤ◌, ◌-ℤ◌, pos, arith,
}
use wafer_fabrication_schedu.Dates.{day_ms}
use wafer_fabrication_schedu.Schedule.Types.{OrderStatus, AssignmentStatus}
use wafer_fabrication_schedu.Store.{
  World, OrderRow, CapacityRow, FactoryRow, FactoryStatus, empty_world, ok, err, validation_failed,
  environment_changed, capacity_exceeded, invalid_state, deadline_violation,
}
use wafer_fabrication_schedu.Editing.{edit_in_lock, apply_assignment_moves}
use wafer_fabrication_schedu.Editing.Judge.{AssignmentMove, violation}
use wafer_fabrication_schedu.Editing.Outcome.{IsSound}
use wafer_fabrication_schedu.Editing.Atomic.{
  IsChecked, apply_assignment_moves-IsSound, apply_assignment_moves-IsChecked,
}
use wafer_fabrication_schedu.Editing.Split.{HasPlaced, edit_in_lock-planned}
use wafer_fabrication_schedu.Editing.Planned.{names_order}
use wafer_fabrication_schedu.Editing.Placed.{quantity_of}

abbrev order_row : ℕ → OrderStatus → ℕ → OrderRow
order_row id status quantity = record {
  id = id;
  status = status;
  due_date = 20 * day_ms;
  quantity = quantity;
  applicant_id = 8;
  name = 4;
  type = 1;
  is_fixed = false;
  is_prioritized = false;
  created_at = 2;
  last_modified_by_id = none;
}

abbrev factory_row : ℕ → ℕ → FactoryRow
factory_row id max = record {
  id = id;
  production_type = 1;
  status = FactoryStatus.active;
  max_capacity = max;
  admins = [];
}

-- An order of 50 is assigned to factory 1 on day 10, and an order of 40 waits.
abbrev hall : World
hall = record empty_world {
  orders = order_row 5 OrderStatus.scheduled 50 ∷ order_row 6 OrderStatus.pending 40 ∷ [];
  assignments =
      record {
        id = 7;
        order_id = 5;
        status = AssignmentStatus.scheduled;
        factory_id = 1;
        production_date = 10 * day_ms;
        completion_date = 11 * day_ms;
        assigned_quantity = 50;
      }
      ∷ [];
  capacities =
      record {
        id = 3;
        factory_id = 1;
        date = 10 * day_ms;
        max_capacity = 100;
        cur_capacity = pos 50;
      }
      ∷ [];
  factories = factory_row 1 100 ∷ factory_row 2 60 ∷ [];
  configs =
      record {
        type = 1;
        is_operating = true;
        frozen_days = 1;
        production_days = 1;
        buffer_days = 1;
        splittable = true;
      }
      ∷ [];
  version = λ t. 4;
  next_id = 30;
}

abbrev to_slot : ℕ → ℕ → ℕ → AssignmentMove
to_slot id factory day = record {
  assignment_id = some id;
  order_id = none;
  factory_id = factory;
  production_day = day;
  quantity = none;
}

abbrev place_order : ℕ → ℕ → ℕ → ℕ → AssignmentMove
place_order id factory day quantity = record {
  assignment_id = none;
  order_id = some id;
  factory_id = factory;
  production_day = day;
  quantity = some quantity;
}

abbrev moves : List AssignmentMove
moves = to_slot 7 2 11 ∷ place_order 6 1 10 30 ∷ place_order 6 2 11 10 ∷ []

moved_three : (apply_assignment_moves moves 9 (some ((1, 4) ∷ [])) hall).0 ≡ ok 3
unfolding apply_assignment_moves ◌+ℤ◌ ◌-ℤ◌
moved_three = refl

-- One more into the slot does not fit: every move into it is refused.
refused_full :
    (apply_assignment_moves (to_slot 7 2 11 ∷ place_order 6 2 11 40 ∷ []) 9 none hall).0
    ≡ err (validation_failed (violation 7 capacity_exceeded ∷ violation 6 capacity_exceeded ∷ []))
unfolding apply_assignment_moves ◌+ℤ◌ ◌-ℤ◌
refused_full = refl

-- Less than the whole order.
refused_part :
    (apply_assignment_moves (place_order 6 2 11 10 ∷ []) 9 none hall).0
    ≡ err (validation_failed (violation 6 invalid_state ∷ []))
unfolding apply_assignment_moves ◌+ℤ◌ ◌-ℤ◌
refused_part = refl

refused_late :
    (apply_assignment_moves (to_slot 7 2 19 ∷ []) 9 none hall).0
    ≡ err (validation_failed (violation 7 deadline_violation ∷ []))
unfolding apply_assignment_moves ◌+ℤ◌ ◌-ℤ◌
refused_late = refl

refused_version :
    (apply_assignment_moves moves 9 (some ((1, 3) ∷ [])) hall).0 ≡ err environment_changed
unfolding apply_assignment_moves ◌+ℤ◌ ◌-ℤ◌
refused_version = refl

-- The same assignment twice gives its old slot back twice: 150 of 100.
abbrev twice : List AssignmentMove
twice = to_slot 7 2 11 ∷ to_slot 7 2 12 ∷ []

returned_twice :
    map
      (λ (c : CapacityRow). c.cur_capacity)
      (apply_assignment_moves twice 9 none hall).1.capacities
    ≡ pos 150 ∷ pos 10 ∷ pos 10 ∷ []
unfolding apply_assignment_moves ◌+ℤ◌ ◌-ℤ◌
returned_twice = refl

apply_assignment_moves-IsSound_example :
    IsSound hall.factories 2 (11 * day_ms) hall (apply_assignment_moves moves 9 none hall).1
apply_assignment_moves-IsSound_example =
    apply_assignment_moves-IsSound 2 (11 * day_ms) moves 9 none hall
      (record { distinct = (tt, tt); below = (omega arith, tt) }) (tt, tt) (refl, tt) (tt, tt)

apply_assignment_moves-IsChecked_example :
    let r = apply_assignment_moves moves 9 (some ((1, 3) ∷ [])) hall in
    IsChecked ((1, 3) ∷ []) hall r.0 r.1
apply_assignment_moves-IsChecked_example =
    apply_assignment_moves-IsChecked (to_slot 7 2 11)
      (place_order 6 1 10 30 ∷ place_order 6 2 11 10 ∷ []) 9 ((1, 3) ∷ []) hall

edited_three : (edit_in_lock moves 9 (1 ∷ []) hall).0 ≡ ok 3
unfolding edit_in_lock ◌+ℤ◌ ◌-ℤ◌
edited_three = refl

edit_in_lock-planned_example :
    HasPlaced 6 (any (names_order 6) moves) hall (edit_in_lock moves 9 (1 ∷ []) hall).1
edit_in_lock-planned_example = edit_in_lock-planned 6 3 moves 9 (1 ∷ []) hall edited_three

-- The order of 40 in two slots.
placed_forty : quantity_of 6 (edit_in_lock moves 9 (1 ∷ []) hall).1 ≡ 40
unfolding edit_in_lock ◌+ℤ◌ ◌-ℤ◌
placed_forty = refl
