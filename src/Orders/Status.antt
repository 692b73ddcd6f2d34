-- ===== src/Orders/Status.antt =====
-- modules/order/order-status.ts and order-validation.ts.
pub mod Lifecycle
use wafer_fabrication_schedu.Base.{
  ℕ, Bool, true, false, ◌&&◌, List, [], ◌∷◌, any, leb, if◌then◌else◌, elem,
}
use wafer_fabrication_schedu.Schedule.Types.{OrderStatus, eq_status}
use wafer_fabrication_schedu.Store.{
  Error, invalid_status_transition, invalid_input, Action, pure, throw, guard,
}

abbrev pub allowed_transitions : OrderStatus → List OrderStatus
allowed_transitions OrderStatus.pending =
    OrderStatus.scheduled ∷ OrderStatus.cancelled ∷ OrderStatus.failed ∷ []
allowed_transitions OrderStatus.scheduled =
    OrderStatus.in_production ∷ OrderStatus.cancelled ∷ OrderStatus.failed ∷ []
allowed_transitions OrderStatus.in_production = OrderStatus.completed ∷ OrderStatus.cancelled ∷ []
allowed_transitions OrderStatus.completed = []
allowed_transitions OrderStatus.cancelled = []
allowed_transitions OrderStatus.failed =
    OrderStatus.pending ∷ OrderStatus.scheduled ∷ OrderStatus.cancelled ∷ []

unfoldable pub assert_order_status_transition : OrderStatus → OrderStatus → Action (Unit {0})
assert_order_status_transition from to =
    if eq_status from to
    then pure tt
    else guard (any (eq_status to) (allowed_transitions from)) invalid_status_transition

abbrev pub order_min_quantity : ℕ
order_min_quantity = 25

abbrev pub order_max_quantity : ℕ
order_max_quantity = 2500

unfoldable pub validate_order_quantity : ℕ → Action (Unit {0})
validate_order_quantity quantity =
    guard (leb order_min_quantity quantity && leb quantity order_max_quantity) invalid_input

-- The types A, B and C.
abbrev pub standard_production_types : List ℕ
standard_production_types = 0 ∷ 1 ∷ 2 ∷ []

unfoldable pub validate_order_type : ℕ → Action ℕ
validate_order_type type =
    if elem type standard_production_types then pure type else throw invalid_input
