-- ===== src/Execution/Revert.antt =====
-- `revertSimulationStatuses` of infra/db/daily-execution-repository.ts.
pub mod Rows
pub mod RoundTrip
use wafer_fabrication_schedu.Base.{
  ℕ, ◌≡◌, Bool, true, false, ◌&&◌, ◌||◌, not, ltb, leb, if◌then◌else◌, Option, none, some, List, [],
  ◌∷◌, ◌++◌, keep, any, all, elem, map,
}
use wafer_fabrication_schedu.Dates.{Date}
use wafer_fabrication_schedu.Schedule.Types.{
  OrderStatus, AssignmentStatus, eq_status, eq_assignment_status,
}
use wafer_fabrication_schedu.Store.{
  World, OrderRow, AssignmentRow, Result, ok, Action, transaction, settle,
}
use wafer_fabrication_schedu.Store.Locks.{unique_from}
use wafer_fabrication_schedu.Execution.{
  SystemPatch, apply_patch, has, assignment_key, order_key, assignments_of, ids_of,
  mark_assignments, mark_orders, all_completed, any_started, completes_order, is_empty,
  affected_order_ids,
}

abbrev pub to_scheduled : Date → AssignmentRow → Bool
to_scheduled real_today a =
    (has AssignmentStatus.completed a || has AssignmentStatus.in_production a)
    && ltb real_today a.production_date

abbrev pub to_in_production : Date → AssignmentRow → Bool
to_in_production real_today a =
    has AssignmentStatus.completed a
    && leb a.production_date real_today
    && ltb real_today a.completion_date

abbrev pub revert_assignments : Date → List AssignmentRow → List AssignmentRow
revert_assignments real_today rows =
    mark_assignments (ids_of (keep (to_in_production real_today) rows))
      AssignmentStatus.in_production
      (mark_assignments (ids_of (keep (to_scheduled real_today) rows)) AssignmentStatus.scheduled
        rows)

-- The second and the third array of the loop; `completes_order` is the test of the first.
abbrev pub sets_in_production : List AssignmentRow → OrderRow → Bool
sets_in_production mine o =
    not (completes_order mine o)
    && any_started mine
    && not (all_completed mine)
    && not (eq_status o.status OrderStatus.in_production)

abbrev pub sets_scheduled : List AssignmentRow → OrderRow → Bool
sets_scheduled mine o =
    not (completes_order mine o)
    && not (sets_in_production mine o)
    && not (any_started mine)
    && not (eq_status o.status OrderStatus.scheduled)

abbrev pub revert_orders : List ℕ → List AssignmentRow → List OrderRow → List OrderRow
revert_orders affected rows orders =
    let found = keep (λ (o : OrderRow). elem o.id affected) orders in
    mark_orders (map order_key (keep (λ o. sets_scheduled (assignments_of rows o) o) found))
      OrderStatus.scheduled
      (mark_orders (map order_key (keep (λ o. sets_in_production (assignments_of rows o) o) found))
        OrderStatus.in_production
        (mark_orders (map order_key (keep (λ o. completes_order (assignments_of rows o) o) found))
          OrderStatus.completed orders))

unfoldable pub revert_simulation_statuses : Date → Option SystemPatch → Action (Unit {0})
unfolding apply_patch unique_from
revert_simulation_statuses real_today patch = transaction (λ w0.
    let w = apply_patch patch w0 in
    let rows = revert_assignments real_today w.assignments in
    let affected =
      affected_order_ids (keep (to_in_production real_today) w.assignments)
        (keep (to_scheduled real_today) w.assignments) in
    let reverted : World = record w { assignments = rows } in
    if is_empty affected
    then (ok tt, reverted)
    else (ok tt, record reverted { orders = revert_orders affected rows w.orders }))
