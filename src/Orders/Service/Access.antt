-- ===== src/Orders/Service/Access.antt =====
-- Who may change which order in modules/order/order-service.ts.
use wafer_fabrication_schedu.Base.{
  ℕ, ◌+◌, ◌≡◌, refl, ◌≤◌, true, not, ◌||◌, ◌==◌, none, some, is_some, List, [], ◌∷◌, ◌++◌, arith,
  find, elem, keep, Option-cases, inl, inr,
}
use wafer_fabrication_schedu.Dates.{Date}
use wafer_fabrication_schedu.Schedule.Types.{OrderStatus, eq_status}
use wafer_fabrication_schedu.Store.{
  World, OrderRow, FactoryRow, forbidden, not_found, Result, ok, err, put, Action, guard_ok,
  require_ok, after,
}
use wafer_fabrication_schedu.Auth.{
  UserRole, superadmin, admin, sales, system, AuthUser, admin_scope_of,
}
use wafer_fabrication_schedu.Orders.Status.{
  order_min_quantity, order_max_quantity, standard_production_types,
}
use wafer_fabrication_schedu.Orders.Table.{order_has_id}
use wafer_fabrication_schedu.Orders.Service.Delete.{
  check_orders, delete_in_scope, delete_orders_service,
}
use wafer_fabrication_schedu.Orders.Service.{
  CreateOrderServiceInput, UpdateOrderServiceInput, get_order, create_order_service,
  update_order_service, update_as_sales,
}

abbrev pub as_role : UserRole → ℕ → AuthUser
as_role role id = record { id = id; role = role }

-- A SUPERADMIN can neither read, nor update, nor delete an order: the calls throw, and change nothing.
pub superadmin_locked_out :
    (user_id id : ℕ) (ids : List ℕ) (input : UpdateOrderServiceInput) (w : World)
    → (get_order (as_role superadmin user_id) id w ≡ (
      elim (find (order_has_id id) w.orders) [ none ↦ err not_found | some o ↦ err forbidden ],
      w,
    ))
      × (update_order_service (as_role superadmin user_id) id input w ≡ (
        elim (find (order_has_id id) w.orders) [ none ↦ err not_found | some o ↦ err forbidden ],
        w,
      ))
      × (delete_orders_service (as_role superadmin user_id) ids w ≡ (err forbidden, w))
unfolding get_order update_order_service delete_orders_service
superadmin_locked_out user_id id ids input w =
    elim (Option-cases (find (order_has_id id) w.orders)) [
      | inl e ↦ (rw e refl, rw e refl, refl)
      | inr (o, e) ↦ (rw e refl, rw e refl, refl)
    ]

-- What SALES may update.
pub record IsEditable (user_id : ℕ) (input : UpdateOrderServiceInput) (o : OrderRow) : Type 0 where
  pub own : o.applicant_id ≡ user_id
  pub pending : o.status ≡ OrderStatus.pending
  pub keeps_status : input.status ≡ none
  pub keeps_fixed : input.is_fixed ≡ none
  pub keeps_prioritized : input.is_prioritized ≡ none

eq_status_sound : (s t : OrderStatus) → eq_status s t ≡ true → s ≡ t
eq_status_sound s t h = ground arith

update_as_sales-IsEditable :
    (user_id : ℕ) (o : OrderRow) (id : ℕ) (input : UpdateOrderServiceInput) (w : World)
    (r : OrderRow)
    → (update_as_sales user_id o id input w).0 ≡ ok r
    → IsEditable user_id input o
update_as_sales-IsEditable user_id o id input w r h =
    let (a, h1) =
      guard_ok (not (is_some input.is_fixed || is_some input.is_prioritized)) forbidden _ w h in
    let (b, h2) = guard_ok (not (is_some input.status)) forbidden _ w h1 in
    let (c, h3) = guard_ok (o.applicant_id == user_id) forbidden _ w h2 in
    let (d, h4) = guard_ok (eq_status o.status OrderStatus.pending) forbidden _ w h3 in
    record {
      own = ground arith;
      pending = eq_status_sound o.status OrderStatus.pending d;
      keeps_status = ground arith;
      keeps_fixed = ground arith;
      keeps_prioritized = ground arith;
    }

-- If an update by SALES returns, then the order is one of the user's own and still pending, and the
-- update names neither a status nor a flag.
pub sales_updates_own_pending :
    (user_id id : ℕ) (input : UpdateOrderServiceInput) (w : World) {r : OrderRow}
    → (update_order_service (as_role sales user_id) id input w).0 ≡ ok r
    → (o : OrderRow) × (find (order_has_id id) w.orders ≡ some o) × IsEditable user_id input o
unfolding update_order_service
sales_updates_own_pending user_id id input w {r} h =
    let rest = λ (o : OrderRow). update_as_sales user_id o id input in
    let (o, e, h1) = require_ok (find (order_has_id id) w.orders) not_found rest w h in
    (o, e, update_as_sales-IsEditable user_id o id input w r h1)

-- What a call has created: an order that waits for its schedule, in a new row behind the others, and
-- one more change of the schedule of its type.
pub record IsCreated (now : Date) (user_id : ℕ) (input : CreateOrderServiceInput) (w w' : World)
    (r : OrderRow) : Type 0 where
  pub added : w'.orders ≡ w.orders ++ r ∷ []
  pub applicant : r.applicant_id ≡ user_id
  pub pending : r.status ≡ OrderStatus.pending
  pub type : r.type ≡ input.type
  pub standard : elem input.type standard_production_types ≡ true
  pub at_least : order_min_quantity ≤ input.quantity
  pub at_most : input.quantity ≤ order_max_quantity
  pub quantity : r.quantity ≡ input.quantity
  pub version : w'.version ≡ put input.type (w.version input.type + 1) w.version
  pub assignments : w'.assignments ≡ w.assignments
  pub capacities : w'.capacities ≡ w.capacities

-- The factories of an administrator.
abbrev pub own_factories : ℕ → World → List FactoryRow
own_factories user_id w = keep (λ (f : FactoryRow). elem user_id f.admins) w.factories

-- For an ADMIN, the type is the one of the first of the own factories.
abbrev pub OwnGroup : UserRole → ℕ → ℕ → World → Type 0
OwnGroup admin user_id type w =
    (f : FactoryRow) × (fs : List FactoryRow) × (own_factories user_id w ≡ f ∷ fs)
    × (f.production_type ≡ type)
OwnGroup _ user_id type w = Unit

-- If a creation returns, then the order is added as it was asked for, with a standard type and a
-- quantity in range; the version of its type is raised by one; and an ADMIN has created it in the
-- production group of the first of the own factories.
pub create_order_service_creates :
    (now : Date) (role : UserRole) (user_id : ℕ) (input : CreateOrderServiceInput) (w : World)
    {r : OrderRow}
    → (create_order_service now (as_role role user_id) input w).0 ≡ ok r
    → IsCreated now user_id input w (create_order_service now (as_role role user_id) input w).1 r
      × OwnGroup role user_id input.type w
unfolding create_order_service
create_order_service_creates now superadmin user_id input w h = (ground arith, tt)
create_order_service_creates now system user_id input w h = cc
create_order_service_creates now sales user_id input w h = (ground arith, tt)
create_order_service_creates now admin user_id input w h = (ground arith, ground arith)

-- Each of the orders exists and is of the group.
abbrev pub Deletable : List ℕ → ℕ → World → Type 0
Deletable [] group w = Unit
Deletable (id ∷ ids) group w =
    ((o : OrderRow) × (find (order_has_id id) w.orders ≡ some o) × (o.type ≡ group))
    × Deletable ids group w

after_ok :
    {A B : Type 0} (r : Result A × World) (f : A → Action B) {b : B}
    → (after r f).0 ≡ ok b
    → (a : A) × (r.0 ≡ ok a) × ((f a r.1).0 ≡ ok b)
after_ok (ok a, w) f h = (a, refl, h)
after_ok (err e, w) f h = cc

check_orders-Deletable :
    (ids : List ℕ) (group : ℕ) (w : World) {types : List ℕ}
    → (check_orders ids group w).0 ≡ ok types
    → Deletable ids group w
unfolding check_orders
check_orders-Deletable [] group w h = tt
check_orders-Deletable (id ∷ ids) group w h =
    let (o, e, h1) = require_ok (find (order_has_id id) w.orders) forbidden _ w h in
    let (g, h2) = guard_ok (o.type == group) forbidden _ w h1 in
    let (types, h3, h4) = after_ok (check_orders ids group w) _ h2 in
    ((o, e, ground arith), check_orders-Deletable ids group w h3)

-- If a deletion returns, then it was made by an ADMIN who has a factory, and every order that it names
-- exists and is of the production group of the first of the own factories.
pub delete_orders_service_checks :
    (role : UserRole) (user_id : ℕ) (ids : List ℕ) (w : World) {count : ℕ}
    → (delete_orders_service (as_role role user_id) ids w).0 ≡ ok count
    → (role ≡ admin)
      × (f : FactoryRow) × (fs : List FactoryRow) × (own_factories user_id w ≡ f ∷ fs)
      × Deletable ids f.production_type w
unfolding delete_orders_service
delete_orders_service_checks superadmin user_id ids w h = cc
delete_orders_service_checks system user_id ids w h = cc
delete_orders_service_checks sales user_id ids w h = cc
delete_orders_service_checks admin user_id ids w {count} h =
    by_factories (own_factories user_id w) refl h
  where
    by_factories :
        (fs : List FactoryRow)
        → own_factories user_id w ≡ fs
        → (after (admin_scope_of user_id fs, w) (delete_in_scope ids)).0 ≡ ok count
        → (admin ≡ admin)
          × (f : FactoryRow) × (gs : List FactoryRow) × (own_factories user_id w ≡ f ∷ gs)
          × Deletable ids f.production_type w
    by_factories [] e h1 = cc
    by_factories (f ∷ fs) e h1 =
        let (types, checked, h2) = after_ok (check_orders ids f.production_type w) _ h1 in
        (refl, f, fs, e, check_orders-Deletable ids f.production_type w checked)
