-- ===== src/Schedule/OrderQueue.antt =====
-- The queue of modules/schedule/strategy.ts: immutable orders are set aside, and the others are
-- sorted by the comparator.
pub mod Order
use wafer_fabrication_schedu.Base.{
  ℕ, ◌≡◌, refl, Bool, true, false, not, ◌&&◌, ◌||◌, List, keep, arith, ◌==◌, if◌then◌else◌, ℤ, pos,
  negsuc, sub_ℕ, leb_ℤ,
}
use wafer_fabrication_schedu.Base.Sort.{sort_by}
use wafer_fabrication_schedu.Schedule.Types.{
  OrderStatus, eq_status, ReschedulePolicy, is_priority_retain, SchedulingOrderInput,
}

unfoldable pub is_immutable : SchedulingOrderInput → Bool
is_immutable order =
    order.is_fixed
    || eq_status order.status OrderStatus.in_production
    || eq_status order.status OrderStatus.completed

unfoldable pub immutable_orders : List SchedulingOrderInput → List SchedulingOrderInput
unfolding is_immutable
immutable_orders orders = keep is_immutable orders

unfoldable pub mutable_orders : List SchedulingOrderInput → List SchedulingOrderInput
unfolding is_immutable
mutable_orders orders = keep (λ o. not (is_immutable o)) orders

-- The last comparisons of the sort: due date, quantity and time of creation.
unfoldable pub compare_standard : SchedulingOrderInput → SchedulingOrderInput → ℤ
compare_standard a b =
    if not (a.due_date == b.due_date)
    then sub_ℕ a.due_date b.due_date
    else if not (a.quantity == b.quantity)
    then sub_ℕ b.quantity a.quantity
    else sub_ℕ a.created_at b.created_at

unfoldable pub compare_policy : ReschedulePolicy → SchedulingOrderInput → SchedulingOrderInput → ℤ
unfolding compare_standard
compare_policy policy a b =
    let a_scheduled = eq_status a.status OrderStatus.scheduled in
    let b_scheduled = eq_status b.status OrderStatus.scheduled in
    if is_priority_retain policy && a_scheduled && not b_scheduled
    then negsuc 0
    else if is_priority_retain policy && b_scheduled && not a_scheduled
    then pos 1
    else compare_standard a b

unfoldable pub compare_orders : ReschedulePolicy → SchedulingOrderInput → SchedulingOrderInput → ℤ
unfolding compare_policy
compare_orders policy a b =
    if a.is_prioritized && not b.is_prioritized
    then negsuc 0
    else if not a.is_prioritized && b.is_prioritized
    then pos 1
    else compare_policy policy a b

unfoldable pub order_le : ReschedulePolicy → SchedulingOrderInput → SchedulingOrderInput → Bool
unfolding compare_orders
order_le policy a b = leb_ℤ (compare_orders policy a b) (pos 0)

unfoldable pub sorted_orders :
    ReschedulePolicy → List SchedulingOrderInput → List SchedulingOrderInput
unfolding order_le sort_by
sorted_orders policy orders = sort_by (order_le policy) orders
