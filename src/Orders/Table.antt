-- ===== src/Orders/Table.antt =====
-- infra/db/order-repository.ts: the queries of the order service and of the schedule editor.
use wafer_fabrication_schedu.Base.{
  ℕ, ◌+◌, Bool, true, false, ◌&&◌, ◌==◌, Option, none, some, List, [], ◌∷◌, ◌++◌, find, keep, elem,
  leb,
}
use wafer_fabrication_schedu.Base.Sort.{sort_by}
use wafer_fabrication_schedu.Dates.{Date}
use wafer_fabrication_schedu.Schedule.Types.{OrderStatus, eq_status}
use wafer_fabrication_schedu.Store.{OrderRow, ok, Action, update_where, count_where}

pub record CreateOrderInput : Type 0 where
  pub due_date : Date
  pub quantity : ℕ
  pub name : ℕ
  pub type : ℕ
  pub applicant_id : ℕ
  pub is_fixed : Option Bool
  pub is_prioritized : Option Bool

pub record UpdateOrderInput : Type 0 where
  pub status : Option OrderStatus
  pub due_date : Option Date
  pub quantity : Option ℕ
  pub name : Option ℕ
  pub type : Option ℕ
  pub is_fixed : Option Bool
  pub is_prioritized : Option Bool
  pub last_modified_by_id : Option ℕ

abbrev pub order_has_id : ℕ → OrderRow → Bool
order_has_id id o = o.id == id

unfoldable pub find_order_by_id : ℕ → Action (Option OrderRow)
find_order_by_id id w = (ok (find (order_has_id id) w.orders), w)

abbrev pub or_any {ℓ} : {A : Type ℓ} → (A → Bool) → Option A → Bool
or_any p none = true
or_any p (some a) = p a

pub record OrderFilters : Type 0 where
  pub applicant_id : Option ℕ
  pub status : Option OrderStatus
  pub group : Option ℕ

-- The search for a keyword in the texts of a row is a test on the row here.
abbrev pub order_matches : OrderFilters → (OrderRow → Bool) → OrderRow → Bool
order_matches filters keyword o =
    or_any (λ i. i == o.applicant_id) filters.applicant_id
    && or_any (eq_status o.status) filters.status
    && or_any (λ g. g == o.type) filters.group
    && keyword o

abbrev pub newer : OrderRow → OrderRow → Bool
newer a b = leb b.created_at a.created_at

unfoldable pub find_orders : OrderFilters → (OrderRow → Bool) → Action (List OrderRow)
unfolding sort_by
find_orders filters keyword w =
    (ok (sort_by newer (keep (order_matches filters keyword) w.orders)), w)

abbrev pub or_else {ℓ} : {A : Type ℓ} → Option A → A → A
or_else none d = d
or_else (some a) d = a

-- The columns without a value take the defaults of prisma/schema.prisma. `now` is `created_at`.
unfoldable pub create_order : Date → CreateOrderInput → Action OrderRow
create_order now input w =
    let row : OrderRow = record {
      id = w.next_id;
      status = OrderStatus.pending;
      due_date = input.due_date;
      quantity = input.quantity;
      applicant_id = input.applicant_id;
      name = input.name;
      type = input.type;
      is_fixed = or_else input.is_fixed false;
      is_prioritized = or_else input.is_prioritized false;
      created_at = now;
      last_modified_by_id = none;
    } in
    (ok row, record w { orders = w.orders ++ row ∷ []; next_id = w.next_id + 1 })

abbrev pub or_keep {ℓ} : {A : Type ℓ} → Option A → Option A → Option A
or_keep none d = d
or_keep (some a) d = some a

abbrev pub patch_order : UpdateOrderInput → OrderRow → OrderRow
patch_order input o = record o {
  status = or_else input.status o.status;
  due_date = or_else input.due_date o.due_date;
  quantity = or_else input.quantity o.quantity;
  name = or_else input.name o.name;
  type = or_else input.type o.type;
  is_fixed = or_else input.is_fixed o.is_fixed;
  is_prioritized = or_else input.is_prioritized o.is_prioritized;
  last_modified_by_id = or_keep input.last_modified_by_id o.last_modified_by_id;
}

unfoldable pub update_order : ℕ → UpdateOrderInput → Action (Option OrderRow)
update_order id input w = elim (find (order_has_id id) w.orders) [
  | none ↦ (ok none, w)
  | some o ↦ (
    ok (some (patch_order input o)),
    record w { orders = update_where (order_has_id id) (patch_order input) w.orders },
  )
]

abbrev pub has_status : OrderStatus → OrderRow → OrderRow
has_status s o = record o { status = s }

-- Orders are not deleted: they are marked CANCELLED.
unfoldable pub delete_orders : List ℕ → Action ℕ
delete_orders ids w = (
  ok (count_where (λ (o : OrderRow). elem o.id ids) w.orders),
  record w {
    orders =
        update_where (λ (o : OrderRow). elem o.id ids) (has_status OrderStatus.cancelled) w.orders;
  },
)

unfoldable pub bulk_update_order_status_and_modified_by :
    List ℕ → OrderStatus → ℕ → Action (Unit {0})
bulk_update_order_status_and_modified_by ids status user w = (
  ok tt,
  record w {
    orders =
        update_where (λ (o : OrderRow). elem o.id ids)
          (λ (o : OrderRow). record o { status = status; last_modified_by_id = some user })
          w.orders;
  },
)

unfoldable pub bulk_update_order_modified_by : List ℕ → ℕ → Action (Unit {0})
bulk_update_order_modified_by ids user w = (
  ok tt,
  record w {
    orders =
        update_where (λ (o : OrderRow). elem o.id ids)
          (λ (o : OrderRow). record o { last_modified_by_id = some user }) w.orders;
  },
)
