-- ===== src/Orders/Service/Delete.antt =====
-- `deleteOrdersService` of modules/order/order-service.ts.
use wafer_fabrication_schedu.Base.{ℕ, ◌==◌, List, [], ◌∷◌}
use wafer_fabrication_schedu.Store.{
  forbidden, Action, pure, ◌>>=◌, ◌>>◌, guard, require, increment_schedule_version,
}
use wafer_fabrication_schedu.Store.Locks.{with_schedule_lock, unique_from}
use wafer_fabrication_schedu.Orders.Cancel.{cancel_orders_and_release_capacity}
use wafer_fabrication_schedu.Auth.{
  admin, AuthUser, ActorScope, require_role, resolve_actor_scope, get_scope_group,
}
use wafer_fabrication_schedu.Orders.Table.{find_order_by_id}

-- `ids.map((id) => findOrderById(db, id))` and the check of each.
unfoldable pub check_orders : List ℕ → ℕ → Action (List ℕ)
unfolding find_order_by_id
check_orders [] group = pure []
check_orders (id ∷ ids) group = do
  found ← find_order_by_id id
  order ← require found forbidden
  guard (order.type == group) forbidden
  types ← check_orders ids group
  pure (order.type ∷ types)

unfoldable pub increment_versions : List ℕ → Action (Unit {0})
unfolding increment_schedule_version
increment_versions [] = pure tt
increment_versions (t ∷ ts) = do version ← increment_schedule_version t; increment_versions ts

-- `deleteOrdersService` from the resolved scope on.
abbrev pub delete_in_scope : List ℕ → ActorScope → Action ℕ
delete_in_scope ids scope = do
  group ← get_scope_group scope
  types ← check_orders ids group
  with_schedule_lock (unique_from [] types) (do
    count ← cancel_orders_and_release_capacity ids
    increment_versions (unique_from [] types)
    pure count)

unfoldable pub delete_orders_service : AuthUser → List ℕ → Action ℕ
unfolding require_role resolve_actor_scope get_scope_group check_orders with_schedule_lock
    unique_from cancel_orders_and_release_capacity increment_versions
delete_orders_service user ids = do
  require_role user (admin ∷ [])
  scope ← resolve_actor_scope user
  delete_in_scope ids scope
