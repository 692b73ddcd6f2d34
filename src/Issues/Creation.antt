-- ===== src/Issues/Creation.antt =====
-- The issues that a schedule opens for the orders that it failed, of
-- modules/order/conflict-issue-service.ts: `prepareIssueCreationPrep` and `createIssuesForFailedOrdersTx`.
-- Of the snapshot of an issue only the shortage is kept; the competing orders and the mails are left out.
use wafer_fabrication_schedu.Base.{
  ℕ, ◌+◌, ◌-◌, ◌*◌, ◌==◌, leb, Bool, true, false, ◌&&◌, ◌||◌, if◌then◌else◌, Option, none, some,
  List, [], ◌∷◌, ◌++◌, map, keep, find, elem, length,
}
use wafer_fabrication_schedu.Base.Sort.{sort_by}
use wafer_fabrication_schedu.Dates.{Date, day_ms, day_of, calculate_order_deadline}
use wafer_fabrication_schedu.Schedule.Types.{
  OrderStatus, eq_status, SchedulingConfig, SchedulingFactoryInput,
}
use wafer_fabrication_schedu.Schedule.CapacityMap.{CapacityMap, set}
use wafer_fabrication_schedu.Schedule.Total.{compute_total_available_capacity}
use wafer_fabrication_schedu.Store.{
  World, OrderRow, IssueRow, FactoryRow, CapacityRow, ConflictIssueStatus, ConflictIssueEventType,
  Result, ok, err, range_error, Action, pure, get_world, ◌>>=◌,
}
use wafer_fabrication_schedu.Application.Prepare.{find_factories, capacity_input}
use wafer_fabrication_schedu.Orders.Table.{order_has_id}
use wafer_fabrication_schedu.Issues.Table.{is_live}

-- The failed orders that are there, in the order of their ids.
unfoldable pub failed_orders : Bool → World → List ℕ → List OrderRow
failed_orders skip_status_check w [] = []
failed_orders skip_status_check w (id ∷ ids) =
    let rest = failed_orders skip_status_check w ids in
    elim (find (order_has_id id) w.orders) [
      | none ↦ rest
      | some o ↦
          if skip_status_check || eq_status o.status OrderStatus.failed then o ∷ rest else rest
    ]

-- `setUTCHours(23, 59, 59, 999)`.
abbrev pub end_of_day : Date → Date
end_of_day date = day_of date * day_ms + (day_ms - 1)

abbrev pub issue_window_start : SchedulingConfig → Date
issue_window_start config = day_of config.start_date * day_ms

abbrev pub considered_factory : FactoryRow → SchedulingFactoryInput
considered_factory f = record { id = f.id; max_capacity = f.max_capacity }

abbrev pub put_rows : List CapacityRow → CapacityMap → CapacityMap
put_rows [] m = m
put_rows (r ∷ rs) m =
    put_rows rs (set (record { factory = r.factory_id; day = day_of r.date }) (capacity_input r) m)

-- The rows of the factories in the window of the order.
unfoldable pub window_map :
    Date → Date → List CapacityRow → List FactoryRow → CapacityMap → CapacityMap
unfolding set
window_map start end_date rows [] m = m
window_map start end_date rows (f ∷ fs) m = window_map start end_date rows fs (
    put_rows
      (keep (λ (r : CapacityRow). r.factory_id == f.id && leb start r.date && leb r.date end_date)
        rows)
      m)

abbrev pub deadline_of : SchedulingConfig → OrderRow → Option Date
deadline_of config o = calculate_order_deadline o.due_date config.buffer_days config.production_days

unfoldable pub total_available : SchedulingConfig → ℕ → Date → World → ℕ
unfolding window_map compute_total_available_capacity
total_available config type deadline w =
    let factories = find_factories type w in
    compute_total_available_capacity (issue_window_start config) (end_of_day deadline)
      (map considered_factory factories)
      (window_map (issue_window_start config) (end_of_day deadline) w.capacities factories [])

pub record NewIssue : Type 0 where
  pub order_id : ℕ
  pub created_by_id : ℕ
  pub assignee_id : ℕ
  pub deficit : ℕ

pub record NewEvent : Type 0 where
  pub issue_id : ℕ
  pub actor_id : ℕ
  pub type : ConflictIssueEventType

pub record IssueCreationPrep : Type 0 where
  pub new_issues : List NewIssue
  pub events : List NewEvent
  pub skipped_count : ℕ

abbrev pub live_of : ℕ → IssueRow → Bool
live_of order_id i = i.order_id == order_id && is_live i.status

abbrev pub newer_issue : IssueRow → IssueRow → Bool
newer_issue a b = leb b.created_at a.created_at

-- `findOpenIssuesByOrderIds`, at one order: its newest live issue.
unfoldable pub open_issue_of : ℕ → World → Option IssueRow
unfolding sort_by
open_issue_of order_id w = find (live_of order_id) (sort_by newer_issue w.issues)

abbrev pub new_issue : SchedulingConfig → ℕ → OrderRow → Date → World → NewIssue
new_issue config actor_id o deadline w = record {
  order_id = o.id;
  created_by_id = actor_id;
  assignee_id = o.applicant_id;
  deficit = o.quantity - total_available config o.type deadline w;
}

abbrev pub with_issue : NewIssue → IssueCreationPrep → IssueCreationPrep
with_issue n p = record p { new_issues = n ∷ p.new_issues }

abbrev pub with_repreview : ℕ → ℕ → IssueCreationPrep → IssueCreationPrep
with_repreview issue_id actor_id p = record p {
  events =
      record {
        issue_id = issue_id;
        actor_id = actor_id;
        type = ConflictIssueEventType.repreview_ran;
      }
      ∷ p.events;
  skipped_count = p.skipped_count + 1;
}

-- The snapshot of an order whose deadline is an Invalid Date is a RangeError, by `toISOString`.
abbrev pub prepare_one :
    SchedulingConfig
    → ℕ
    → World
    → OrderRow
    → Option Date
    → Option IssueRow
    → Result IssueCreationPrep
    → Result IssueCreationPrep
prepare_one config actor_id w o none found r = err range_error
prepare_one config actor_id w o (some deadline) found (err e) = err e
prepare_one config actor_id w o (some deadline) none (ok p) =
    ok (with_issue (new_issue config actor_id o deadline w) p)
prepare_one config actor_id w o (some deadline) (some existing) (ok p) =
    ok (with_repreview existing.id actor_id p)

-- The loop over the orders. An applicant is in every row, so the others who could be assigned are not asked.
unfoldable pub prepare_orders :
    SchedulingConfig → ℕ → World → List OrderRow → Result IssueCreationPrep
unfolding total_available open_issue_of calculate_order_deadline
prepare_orders config actor_id w [] =
    ok (record { new_issues = []; events = []; skipped_count = 0 })
prepare_orders config actor_id w (o ∷ os) =
    prepare_one config actor_id w o (deadline_of config o) (open_issue_of o.id w)
      (prepare_orders config actor_id w os)

unfoldable pub prepare_issue_creation_prep :
    List ℕ → ℕ → SchedulingConfig → Bool → World → Result IssueCreationPrep
unfolding failed_orders prepare_orders
prepare_issue_creation_prep failed_order_ids actor_id config skip_status_check w =
    prepare_orders config actor_id w (failed_orders skip_status_check w failed_order_ids)

abbrev pub issue_row : ℕ → Date → NewIssue → IssueRow
issue_row id now n = record {
  id = id;
  order_id = n.order_id;
  status = ConflictIssueStatus.open_issue;
  resolution = none;
  created_by_id = n.created_by_id;
  assignee_id = n.assignee_id;
  resolved_at = none;
  closed_at = none;
  created_at = now;
}

unfoldable pub create_many_conflict_issues : List NewIssue → Date → World → World
create_many_conflict_issues [] now w = w
create_many_conflict_issues (n ∷ ns) now w =
    create_many_conflict_issues ns now
      (record w { issues = w.issues ++ issue_row w.next_id now n ∷ []; next_id = w.next_id + 1 })

unfoldable pub create_many_conflict_issue_events : List NewEvent → World → World
create_many_conflict_issue_events [] w = w
create_many_conflict_issue_events (e ∷ es) w = create_many_conflict_issue_events es (record w {
  events =
      w.events
      ++ record { id = w.next_id; issue_id = e.issue_id; actor_id = e.actor_id; type = e.type }
        ∷ [];
  next_id = w.next_id + 1;
})

-- `findConflictIssuesByOrderIds`: all the issues of these orders.
abbrev pub issues_of_orders : List ℕ → World → List IssueRow
issues_of_orders ids w = keep (λ (i : IssueRow). elem i.order_id ids) w.issues

abbrev pub opened_event : ℕ → IssueRow → NewEvent
opened_event actor_id i = record {
  issue_id = i.id;
  actor_id = actor_id;
  type = ConflictIssueEventType.opened;
}

-- The issues, then their events; the number that was created, and that was skipped.
unfoldable pub write_issues : IssueCreationPrep → ℕ → Date → World → (ℕ × ℕ) × World
unfolding create_many_conflict_issues create_many_conflict_issue_events
write_issues p actor_id now w =
    let created = create_many_conflict_issues p.new_issues now w in
    let order_ids = map (λ (n : NewIssue). n.order_id) p.new_issues in
    let events = p.events ++ map (opened_event actor_id) (issues_of_orders order_ids created) in
    ((length p.new_issues, p.skipped_count), create_many_conflict_issue_events events created)

-- What is given, or else what is prepared inside of the transaction.
abbrev pub prep_or :
    Option IssueCreationPrep → List ℕ → ℕ → SchedulingConfig → World → Result IssueCreationPrep
prep_or none failed_order_ids actor_id config w =
    prepare_issue_creation_prep failed_order_ids actor_id config false w
prep_or (some p) failed_order_ids actor_id config w = ok p

abbrev pub write_prepared : Result IssueCreationPrep → ℕ → Date → Action (ℕ × ℕ)
write_prepared (ok p) actor_id now w =
    let (counts, w') = write_issues p actor_id now w in (ok counts, w')
write_prepared (err e) actor_id now w = (err e, w)

unfoldable pub create_issues_for_failed_orders_tx :
    List ℕ → ℕ → SchedulingConfig → Date → Option IssueCreationPrep → Action (ℕ × ℕ)
unfolding prepare_issue_creation_prep write_issues
create_issues_for_failed_orders_tx failed_order_ids actor_id config now prep w =
    write_prepared (prep_or prep failed_order_ids actor_id config w) actor_id now w

-- The failed orders of `_applyScheduleTransaction`, whose statuses are not looked at again.
unfoldable pub create_issues_in_apply : List ℕ → ℕ → SchedulingConfig → Date → Action (Unit {0})
unfolding prepare_issue_creation_prep create_issues_for_failed_orders_tx
create_issues_in_apply [] operator_id config now = pure tt
create_issues_in_apply (i ∷ ids) operator_id config now = do
  w ← get_world
  prep ← λ v. (prepare_issue_creation_prep (i ∷ ids) operator_id config true w, v)
  counts ← create_issues_for_failed_orders_tx (i ∷ ids) operator_id config now (some prep)
  pure tt
