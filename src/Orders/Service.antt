-- ===== src/Orders/Service.antt =====
-- modules/order/order-service.ts.
pub mod Delete
pub mod Access
use wafer_fabrication_schedu.Base.{
  ℕ, ◌+◌, Bool, true, false, not, ◌&&◌, ◌||◌, ◌==◌, if◌then◌else◌, Option, none, some, is_some,
  List, [], ◌∷◌, ◌++◌, map, keep, elem, pos, length, leb,
}
use wafer_fabrication_schedu.Dates.{Date}
use wafer_fabrication_schedu.Schedule.Types.{
  OrderStatus, AssignmentStatus, eq_status, eq_assignment_status,
}
use wafer_fabrication_schedu.Store.{
  World, OrderRow, AssignmentRow, Error, forbidden, not_found, environment_changed, Result, ok, err,
  Action, pure, throw, after, ◌>>=◌, ◌>>◌, get_world, modify, guard, require, settle, transaction,
  update_where, get_schedule_version, increment_schedule_version,
}
use wafer_fabrication_schedu.Store.Locks.{with_schedule_lock, unique_from}
use wafer_fabrication_schedu.Store.Capacity.{upsert_daily_capacity_delta, factory_max}
use wafer_fabrication_schedu.Orders.Cancel.{cancel_orders_and_release_capacity}
use wafer_fabrication_schedu.Auth.{
  UserRole, superadmin, admin, sales, AuthUser, ActorScope, sales_scope, admin_scope,
  superadmin_scope, require_role, resolve_actor_scope, get_scope_group, is_admin, scope_user_id,
}
use wafer_fabrication_schedu.Orders.Status.{
  assert_order_status_transition, validate_order_quantity, validate_order_type,
}
use wafer_fabrication_schedu.Orders.Table.{
  CreateOrderInput, UpdateOrderInput, OrderFilters, find_orders, find_order_by_id, create_order,
  update_order, delete_orders,
}

abbrev pub affects_schedule : UpdateOrderInput → Bool
affects_schedule input =
    is_some input.status
    || is_some input.due_date
    || is_some input.quantity
    || is_some input.is_fixed
    || is_some input.is_prioritized

pub record CreateOrderServiceInput : Type 0 where
  pub due_date : Date
  pub quantity : ℕ
  pub name : ℕ
  pub type : ℕ

pub record UpdateOrderServiceInput : Type 0 where
  pub status : Option OrderStatus
  pub due_date : Option Date
  pub quantity : Option ℕ
  pub name : Option ℕ
  pub is_fixed : Option Bool
  pub is_prioritized : Option Bool
  pub expected_schedule_version : Option ℕ

abbrev pub everyone : List UserRole
everyone = sales ∷ admin ∷ superadmin ∷ []

abbrev pub list_for : ActorScope → Option OrderStatus → (OrderRow → Bool) → Action (List OrderRow)
list_for (sales_scope user_id) status keyword =
    find_orders (record { applicant_id = some user_id; status = status; group = none }) keyword
list_for (superadmin_scope user_id group) status keyword = do
  rows ← find_orders (record { applicant_id = none; status = status; group = none }) keyword
  pure (keep (λ (o : OrderRow). elem o.type (0 ∷ 1 ∷ 2 ∷ [])) rows)
list_for (admin_scope user_id factory_ids production_type) status keyword = do
  group ← get_scope_group (admin_scope user_id factory_ids production_type)
  find_orders (record { applicant_id = none; status = status; group = some group }) keyword

unfoldable pub list_orders :
    AuthUser → Option OrderStatus → (OrderRow → Bool) → Action (List OrderRow)
unfolding resolve_actor_scope find_orders get_scope_group
list_orders user status keyword = do scope ← resolve_actor_scope user; list_for scope status keyword

abbrev pub order_visible : ActorScope → OrderRow → Action OrderRow
order_visible (sales_scope user_id) order = do
  guard (order.applicant_id == user_id) not_found
  pure order
order_visible scope order = do
  group ← get_scope_group scope
  guard (order.type == group) not_found
  pure order

unfoldable pub get_order : AuthUser → ℕ → Action OrderRow
unfolding resolve_actor_scope find_order_by_id get_scope_group
get_order user id = do
  scope ← resolve_actor_scope user
  found ← find_order_by_id id
  order ← require found not_found
  order_visible scope order

-- `scope.role === "ADMIN" && getScopeGroup(scope) !== type`.
abbrev pub assert_group : ActorScope → ℕ → Action (Unit {0})
assert_group (admin_scope user_id factory_ids production_type) type = do
  group ← get_scope_group (admin_scope user_id factory_ids production_type)
  guard (group == type) forbidden
assert_group scope type = pure tt

unfoldable pub create_order_service : Date → AuthUser → CreateOrderServiceInput → Action OrderRow
unfolding require_role resolve_actor_scope validate_order_quantity validate_order_type
    get_scope_group create_order increment_schedule_version
create_order_service now user input = do
  require_role user everyone
  scope ← resolve_actor_scope user
  validate_order_quantity input.quantity
  type ← validate_order_type input.type
  assert_group scope type
  order ← create_order now (record {
    due_date = input.due_date;
    quantity = input.quantity;
    name = input.name;
    type = type;
    applicant_id = scope_user_id scope;
    is_fixed = none;
    is_prioritized = none;
  })
  version ← increment_schedule_version order.type
  pure order

-- The check of `expectedScheduleVersion`, under the lock.
abbrev pub check_version : Option ℕ → ℕ → Action (Unit {0})
check_version none type = pure tt
check_version (some expected) type = do
  current ← get_schedule_version type
  guard (current == expected) environment_changed

abbrev pub update_found : ℕ → UpdateOrderInput → Action OrderRow
update_found id input = do result ← update_order id input; require result not_found

-- An update under the lock of the order's type, and the new schedule version.
abbrev pub update_locked : OrderRow → Option ℕ → ℕ → UpdateOrderInput → Action OrderRow
update_locked order expected id input = with_schedule_lock (order.type ∷ []) (do
  check_version expected order.type
  result ← update_found id input
  version ← increment_schedule_version order.type
  pure result)

abbrev pub update_any : OrderRow → Option ℕ → ℕ → UpdateOrderInput → Action OrderRow
update_any order expected id input =
    if affects_schedule input then update_locked order expected id input else update_found id input

abbrev pub validate_optional : Option ℕ → Action (Unit {0})
validate_optional none = pure tt
validate_optional (some quantity) = validate_order_quantity quantity

abbrev pub check_transition : OrderStatus → Option OrderStatus → Action (Unit {0})
check_transition from none = pure tt
check_transition from (some to) = assert_order_status_transition from to

abbrev pub sales_input : ℕ → UpdateOrderServiceInput → UpdateOrderInput
sales_input user_id input = record {
  status = none;
  due_date = input.due_date;
  quantity = input.quantity;
  name = input.name;
  type = none;
  is_fixed = none;
  is_prioritized = none;
  last_modified_by_id = some user_id;
}

abbrev pub admin_input : ℕ → UpdateOrderServiceInput → UpdateOrderInput
admin_input user_id input = record {
  status = input.status;
  due_date = input.due_date;
  quantity = input.quantity;
  name = input.name;
  type = none;
  is_fixed = input.is_fixed;
  is_prioritized = input.is_prioritized;
  last_modified_by_id = some user_id;
}

-- The branch of SALES: only the own pending orders, and neither the flags nor the status.
abbrev pub update_as_sales : ℕ → OrderRow → ℕ → UpdateOrderServiceInput → Action OrderRow
update_as_sales user_id order id input = do
  guard (not (is_some input.is_fixed || is_some input.is_prioritized)) forbidden
  guard (not (is_some input.status)) forbidden
  guard (order.applicant_id == user_id) forbidden
  guard (eq_status order.status OrderStatus.pending) forbidden
  validate_optional input.quantity
  update_any order input.expected_schedule_version id (sales_input user_id input)

abbrev pub cancel_locked : OrderRow → Option ℕ → ℕ → Action OrderRow
cancel_locked order expected id = with_schedule_lock (order.type ∷ []) (do
  check_version expected order.type
  count ← cancel_orders_and_release_capacity (id ∷ [])
  guard (not (count == 0)) not_found
  found ← find_order_by_id id
  cancelled ← require found not_found
  version ← increment_schedule_version order.type
  pure cancelled)

abbrev pub is_cancellation : Option OrderStatus → Bool
is_cancellation none = false
is_cancellation (some s) = eq_status s OrderStatus.cancelled

-- The branch of the other roles.
abbrev pub update_as_admin : ActorScope → OrderRow → ℕ → UpdateOrderServiceInput → Action OrderRow
update_as_admin scope order id input = do
  group ← get_scope_group scope
  guard (order.type == group) forbidden
  validate_optional input.quantity
  check_transition order.status input.status
  if is_cancellation input.status
      then cancel_locked order input.expected_schedule_version id
      else update_any order input.expected_schedule_version id
          (admin_input (scope_user_id scope) input)

abbrev pub update_for : ActorScope → OrderRow → ℕ → UpdateOrderServiceInput → Action OrderRow
update_for (sales_scope user_id) = update_as_sales user_id
update_for scope = update_as_admin scope

unfoldable pub update_order_service : AuthUser → ℕ → UpdateOrderServiceInput → Action OrderRow
unfolding require_role resolve_actor_scope find_order_by_id get_scope_group validate_order_quantity
    assert_order_status_transition update_order with_schedule_lock get_schedule_version
    increment_schedule_version cancel_orders_and_release_capacity
update_order_service user id input = do
  require_role user everyone
  scope ← resolve_actor_scope user
  found ← find_order_by_id id
  order ← require found not_found
  update_for scope order id input
