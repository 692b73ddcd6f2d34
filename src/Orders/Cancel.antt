-- ===== src/Orders/Cancel.antt =====
-- `cancelOrdersAndReleaseCapacity` of modules/order/order-service.ts.
pub mod Release
use wafer_fabrication_schedu.Base.{
  ℕ, Bool, true, false, ◌&&◌, ◌==◌, List, [], ◌∷◌, keep, elem, map, pos,
}
use wafer_fabrication_schedu.Schedule.Types.{AssignmentStatus, eq_assignment_status}
use wafer_fabrication_schedu.Store.{
  World, AssignmentRow, Result, ok, err, Action, settle, transaction, update_where,
}
use wafer_fabrication_schedu.Store.Capacity.{upsert_daily_capacity_delta, factory_max}
use wafer_fabrication_schedu.Orders.Table.{delete_orders}

abbrev pub is_scheduled_of : List ℕ → AssignmentRow → Bool
is_scheduled_of ids a =
    elem a.order_id ids && eq_assignment_status a.status AssignmentStatus.scheduled

abbrev pub assignment_id : AssignmentRow → ℕ
assignment_id a = a.id

abbrev pub cancelled_assignment : AssignmentRow → AssignmentRow
cancelled_assignment a = record a { status = AssignmentStatus.cancelled }

-- The loop over the scheduled assignments: each gives its quantity back.
unfoldable pub release_all : List AssignmentRow → World → World
unfolding upsert_daily_capacity_delta factory_max
release_all [] w = w
release_all (a ∷ as_) w = release_all as_ (
    upsert_daily_capacity_delta a.factory_id a.production_date (pos a.assigned_quantity)
      (factory_max a.factory_id w.factories 0) w)

abbrev pub mark_cancelled : List AssignmentRow → World → World
mark_cancelled scheduled w = record w {
  assignments =
      update_where (λ (a : AssignmentRow). elem a.id (map assignment_id scheduled))
        cancelled_assignment w.assignments;
}

unfoldable pub cancel_orders_and_release_capacity : List ℕ → Action ℕ
unfolding release_all delete_orders
cancel_orders_and_release_capacity ids = transaction (λ w.
    let scheduled = keep (is_scheduled_of ids) w.assignments in
    delete_orders ids (mark_cancelled scheduled (release_all scheduled w)))
