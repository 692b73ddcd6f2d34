-- ===== src/Orders/Samples.antt =====
-- Runs of the order service on small inputs, and each theorem at a concrete input.
use wafer_fabrication_schedu.Base.{
  ◌⊎◌, ◌<◌, ℕ, ◌+◌, ◌≡◌, refl, ◌≤◌, false, none, some, List, [], ◌∷◌, arith, elem, find, pos, ◌+ℤ◌,
}
use wafer_fabrication_schedu.Schedule.Types.{OrderStatus, AssignmentStatus}
use wafer_fabrication_schedu.Store.{
  empty_world, FactoryStatus, World, OrderRow, AssignmentRow, FactoryRow, forbidden, err,
  update_where,
}
use wafer_fabrication_schedu.Store.Capacity.Levels.{level_at}
use wafer_fabrication_schedu.Auth.{superadmin, admin}
use wafer_fabrication_schedu.Orders.Status.{assert_order_status_transition}
use wafer_fabrication_schedu.Orders.Status.Lifecycle.{born, moved, stage, Life-stage}
use wafer_fabrication_schedu.Orders.Table.{order_has_id, has_status}
use wafer_fabrication_schedu.Orders.Cancel.{
  is_scheduled_of, cancelled_assignment, cancel_orders_and_release_capacity,
}
use wafer_fabrication_schedu.Orders.Cancel.Release.{held, max_of, cancel_orders_conserve}
use wafer_fabrication_schedu.Orders.Service.Delete.{delete_orders_service}
use wafer_fabrication_schedu.Orders.Service.{
  CreateOrderServiceInput, UpdateOrderServiceInput, get_order, create_order_service,
  update_order_service,
}
use wafer_fabrication_schedu.Orders.Service.Access.{
  as_role, own_factories, IsEditable, IsCreated, OwnGroup, Deletable, superadmin_locked_out,
  sales_updates_own_pending, create_order_service_creates, delete_orders_service_checks,
}

abbrev order_row : ℕ → OrderStatus → OrderRow
order_row id status = record {
  id = id;
  status = status;
  due_date = 20;
  quantity = 50;
  applicant_id = 8;
  name = 4;
  type = 1;
  is_fixed = false;
  is_prioritized = false;
  created_at = 2;
  last_modified_by_id = none;
}

abbrev assignment_row : ℕ → AssignmentStatus → ℕ → AssignmentRow
assignment_row id status date = record {
  id = id;
  order_id = 5;
  status = status;
  factory_id = 1;
  production_date = date;
  completion_date = date + 2;
  assigned_quantity = 25;
}

-- Order 5 is in production, with one assignment that has started and one that has not.
abbrev shop : World
shop = record empty_world {
  orders = order_row 5 OrderStatus.in_production ∷ order_row 6 OrderStatus.pending ∷ [];
  assignments =
      assignment_row 20 AssignmentStatus.in_production 10
      ∷ assignment_row 21 AssignmentStatus.scheduled 11
      ∷ [];
  capacities =
      record { id = 3; factory_id = 1; date = 11; max_capacity = 100; cur_capacity = pos 75 } ∷ [];
  factories =
      record {
        id = 1;
        production_type = 1;
        status = FactoryStatus.active;
        max_capacity = 100;
        admins = 9 ∷ [];
      }
      ∷ [];
  version = λ t. 0;
  lock = λ t. none;
  next_id = 30;
}

abbrev no_change : UpdateOrderServiceInput
no_change = record {
  status = none;
  due_date = none;
  quantity = none;
  name = none;
  is_fixed = none;
  is_prioritized = none;
  expected_schedule_version = none;
}

abbrev new_quantity : UpdateOrderServiceInput
new_quantity = record no_change { quantity = some 60 }

abbrev new_order : CreateOrderServiceInput
new_order = record { due_date = 40; quantity = 100; name = 3; type = 1 }

Life-stage_example :
    (stage OrderStatus.pending ≤ stage OrderStatus.in_production)
    × ((stage OrderStatus.pending < 2) ⊎ (OrderStatus.in_production ≡ OrderStatus.pending))
unfolding assert_order_status_transition
Life-stage_example =
    Life-stage shop (moved {t = OrderStatus.scheduled} (moved born (λ w. refl)) (λ w. refl))

cancel_orders_conserve_example :
    let w' = (cancel_orders_and_release_capacity (5 ∷ []) shop).1 in
    (level_at (max_of shop) 1 11 w'.capacities +ℤ pos (held 1 11 w'.assignments)
      ≡ level_at (max_of shop) 1 11 shop.capacities +ℤ pos (held 1 11 shop.assignments))
    × (w'.assignments
        ≡ update_where (is_scheduled_of (5 ∷ [])) cancelled_assignment shop.assignments)
    × (w'.orders
        ≡ update_where
            (λ (o : OrderRow). elem o.id (5 ∷ []))
            (has_status OrderStatus.cancelled)
            shop.orders)
cancel_orders_conserve_example =
    cancel_orders_conserve (5 ∷ []) 1 11 shop
      (record { distinct = (tt, tt); below = (omega arith, tt) })
      (((λ e. absurd (omega arith)), tt), (tt, tt))

superadmin_locked_out_example :
    (get_order (as_role superadmin 1) 5 shop ≡ (err forbidden, shop))
    × (update_order_service (as_role superadmin 1) 5 new_quantity shop ≡ (err forbidden, shop))
    × (delete_orders_service (as_role superadmin 1) (5 ∷ []) shop ≡ (err forbidden, shop))
superadmin_locked_out_example = superadmin_locked_out 1 5 (5 ∷ []) new_quantity shop

sales_updates_own_pending_example :
    (o : OrderRow) × (find (order_has_id 6) shop.orders ≡ some o) × IsEditable 8 new_quantity o
unfolding update_order_service
sales_updates_own_pending_example = sales_updates_own_pending 8 6 new_quantity shop refl

abbrev created : OrderRow
created = record (order_row 30 OrderStatus.pending) {
  due_date = 40;
  quantity = 100;
  applicant_id = 9;
  name = 3;
  created_at = 12;
}

create_order_service_creates_example :
    IsCreated 12 9 new_order shop
      (create_order_service 12 (as_role admin 9) new_order shop).1
      created
    × OwnGroup admin 9 1 shop
unfolding create_order_service
create_order_service_creates_example = create_order_service_creates 12 admin 9 new_order shop refl

delete_orders_service_checks_example :
    (admin ≡ admin)
    × (f : FactoryRow) × (fs : List FactoryRow) × (own_factories 9 shop ≡ f ∷ fs)
    × Deletable (5 ∷ []) f.production_type shop
unfolding delete_orders_service
delete_orders_service_checks_example = delete_orders_service_checks admin 9 (5 ∷ []) shop refl
