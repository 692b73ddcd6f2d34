-- ===== src/Execution.antt =====
-- infra/db/daily-execution-repository.ts, infra/db/system-state-repository.ts and
-- modules/schedule/daily-execution.ts: what the passing of the days does to assignments and orders.
pub mod Pointwise
pub mod Compose
pub mod Revert
pub mod Decision
mod Samples
use wafer_fabrication_schedu.Base.{
  ℕ, ◌≡◌, Bool, true, false, ◌&&◌, ◌||◌, ◌==◌, not, ltb, leb, if◌then◌else◌, Option, none, some,
  List, [], ◌∷◌, ◌++◌, keep, any, all, elem, map,
}
use wafer_fabrication_schedu.Dates.{Date}
use wafer_fabrication_schedu.Schedule.Types.{
  OrderStatus, AssignmentStatus, eq_status, eq_assignment_status,
}
use wafer_fabrication_schedu.Store.{
  World, OrderRow, AssignmentRow, SystemState, Result, ok, err, Action, pure, ◌>>=◌, ◌>>◌,
  transaction, update_where,
}
use wafer_fabrication_schedu.Store.Locks.{unique_from, with_schedule_lock}

-- A column that the patch leaves out is kept.
pub record SystemPatch : Type 0 where
  pub is_simulation_mode : Option Bool
  pub simulation_date : Option (Option Date)

abbrev pub or_old {ℓ} : {A : Type ℓ} → Option A → A → A
or_old none d = d
or_old (some a) d = a

unfoldable pub upsert_system_state : SystemPatch → World → World
upsert_system_state patch w = record w {
  system = record {
    is_simulation_mode = or_old patch.is_simulation_mode w.system.is_simulation_mode;
    simulation_date = or_old patch.simulation_date w.system.simulation_date;
  };
}

-- `if (patch) await upsertSystemState(db, patch)`.
unfoldable pub apply_patch : Option SystemPatch → World → World
unfolding upsert_system_state
apply_patch none w = w
apply_patch (some patch) w = upsert_system_state patch w

abbrev pub has : AssignmentStatus → AssignmentRow → Bool
has status a = eq_assignment_status a.status status

abbrev pub set_assignment_status : AssignmentStatus → AssignmentRow → AssignmentRow
set_assignment_status status a = record a { status = status }

abbrev pub set_order_status : OrderStatus → OrderRow → OrderRow
set_order_status status o = record o { status = status }

abbrev pub assignment_key : AssignmentRow → ℕ
assignment_key a = a.id

abbrev pub order_key : OrderRow → ℕ
order_key o = o.id

abbrev pub of_order : OrderRow → AssignmentRow → Bool
of_order o a = a.order_id == o.id

-- The assignments of an order, as the query of orders includes them.
abbrev pub assignments_of : List AssignmentRow → OrderRow → List AssignmentRow
assignments_of rows o = keep (of_order o) rows

abbrev pub ids_of : List AssignmentRow → List ℕ
ids_of rows = map (λ (a : AssignmentRow). a.id) rows

abbrev pub order_ids_of : List AssignmentRow → List ℕ
order_ids_of rows = map (λ (a : AssignmentRow). a.order_id) rows

-- `updateMany` by ids.
abbrev pub mark_assignments : List ℕ → AssignmentStatus → List AssignmentRow → List AssignmentRow
mark_assignments ids status rows =
    update_where (λ a. elem (assignment_key a) ids) (set_assignment_status status) rows

abbrev pub mark_orders : List ℕ → OrderStatus → List OrderRow → List OrderRow
mark_orders ids status rows =
    update_where (λ o. elem (order_key o) ids) (set_order_status status) rows

abbrev pub is_affected : Date → AssignmentRow → Bool
is_affected current_date a =
    has AssignmentStatus.in_production a && leb a.completion_date current_date
    || has AssignmentStatus.scheduled a && leb a.production_date current_date

unfoldable pub get_affected_order_types : Date → Action (List ℕ)
unfolding unique_from
get_affected_order_types current_date w = (
  ok (
      unique_from [] (
        map (λ (o : OrderRow). o.type)
          (keep (λ o. any (is_affected current_date) (assignments_of w.assignments o)) w.orders))),
  w,
)

abbrev pub to_complete : Date → AssignmentRow → Bool
to_complete current_date a =
    (has AssignmentStatus.in_production a || has AssignmentStatus.scheduled a)
    && leb a.completion_date current_date

abbrev pub to_start : Date → AssignmentRow → Bool
to_start current_date a =
    has AssignmentStatus.scheduled a
    && leb a.production_date current_date
    && ltb current_date a.completion_date

abbrev pub all_completed : List AssignmentRow → Bool
all_completed rows = all (has AssignmentStatus.completed) rows

abbrev pub any_started : List AssignmentRow → Bool
any_started rows =
    any (λ a. has AssignmentStatus.in_production a || has AssignmentStatus.completed a) rows

-- The loop over the affected orders, as the test of each of its two arrays.
abbrev pub completes_order : List AssignmentRow → OrderRow → Bool
completes_order mine o = all_completed mine && not (eq_status o.status OrderStatus.completed)

abbrev pub starts_order : List AssignmentRow → OrderRow → Bool
starts_order mine o =
    not (completes_order mine o) && any_started mine && eq_status o.status OrderStatus.scheduled

abbrev pub advance_assignments : Date → List AssignmentRow → List AssignmentRow
advance_assignments current_date rows =
    mark_assignments (ids_of (keep (to_start current_date) rows)) AssignmentStatus.in_production (
      mark_assignments (ids_of (keep (to_complete current_date) rows)) AssignmentStatus.completed
        rows)

abbrev pub is_empty : List ℕ → Bool
is_empty [] = true
is_empty (x ∷ xs) = false

abbrev pub affected_order_ids : List AssignmentRow → List AssignmentRow → List ℕ
affected_order_ids first second = unique_from [] (order_ids_of first ++ order_ids_of second)

-- `rows` are the assignments after their update.
abbrev pub advance_orders : List ℕ → List AssignmentRow → List OrderRow → List OrderRow
advance_orders affected rows orders =
    let found = keep (λ (o : OrderRow). elem o.id affected) orders in
    mark_orders (map order_key (keep (λ o. starts_order (assignments_of rows o) o) found))
      OrderStatus.in_production
      (mark_orders (map order_key (keep (λ o. completes_order (assignments_of rows o) o) found))
        OrderStatus.completed orders)

unfoldable pub execute_daily_state_advancement : Date → Option SystemPatch → Action (Unit {0})
unfolding apply_patch unique_from
execute_daily_state_advancement current_date patch = transaction (λ w0.
    let w = apply_patch patch w0 in
    let rows = advance_assignments current_date w.assignments in
    let affected =
      affected_order_ids (keep (to_complete current_date) w.assignments)
        (keep (to_start current_date) w.assignments) in
    let advanced : World = record w { assignments = rows } in
    if is_empty affected then (ok tt, advanced) else (
      ok tt,
      apply_patch patch (record advanced { orders = advance_orders affected rows w.orders }),
    ))

unfoldable pub advance_order_statuses : Date → Option SystemPatch → Action (Unit {0})
unfolding get_affected_order_types apply_patch with_schedule_lock execute_daily_state_advancement
advance_order_statuses current_date patch = do
  types ← get_affected_order_types current_date
  if is_empty types
      then (λ w. (ok tt, apply_patch patch w))
      else with_schedule_lock types (execute_daily_state_advancement current_date patch)
