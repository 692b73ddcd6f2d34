-- ===== src/Issues/Admin.antt =====
-- What administrators do to an issue, and the request of SALES to cancel an order, of
-- modules/order/conflict-issue-service.ts. The mails of a request are left out.
use wafer_fabrication_schedu.Base.{
  ℕ, ◌==◌, Bool, true, false, not, ◌||◌, Option, none, some, [], ◌∷◌, is_some,
}
use wafer_fabrication_schedu.Dates.{Date}
use wafer_fabrication_schedu.Schedule.Types.{OrderStatus, eq_status}
use wafer_fabrication_schedu.Store.{
  IssueRow, ConflictIssueStatus, ConflictResolution, ConflictIssueEventType, forbidden, not_found,
  bad_request, conflict, Action, pure, guard, require, modify, ◌>>=◌, ◌>>◌,
}
use wafer_fabrication_schedu.Auth.{
  UserRole, superadmin, admin, sales, AuthUser, eq_role, require_role,
}
use wafer_fabrication_schedu.Orders.Table.{find_order_by_id}
use wafer_fabrication_schedu.Orders.Cancel.{cancel_orders_and_release_capacity}
use wafer_fabrication_schedu.Issues.Table.{
  find_conflict_issue_by_id, find_open_issue_by_order_id, create_conflict_issue,
  create_conflict_issue_event, update_conflict_issue, is_live,
}
use wafer_fabrication_schedu.Issues.Guard.{assert_issue_access}

pub data UpdateIssueStatusInput : Type 0 where
  close reopen cancel_order : UpdateIssueStatusInput
  reassign : (assignee_id : ℕ) → UpdateIssueStatusInput

abbrev pub is_closed : ConflictIssueStatus → Bool
is_closed ConflictIssueStatus.closed = true
is_closed _ = false

abbrev pub close_as : ConflictResolution → Date → IssueRow → IssueRow
close_as resolution now i = record i {
  status = ConflictIssueStatus.closed;
  resolution = some resolution;
  closed_at = some now;
}

abbrev pub reopened_issue : IssueRow → IssueRow
reopened_issue i = record i {
  status = ConflictIssueStatus.in_discussion;
  resolution = none;
  resolved_at = none;
  closed_at = none;
}

abbrev pub assign_to : ℕ → IssueRow → IssueRow
assign_to user i = record i { assignee_id = user }

-- `findUserById` and the role of the user: the table of users is the parameter `role_of`.
abbrev pub is_sales : Option UserRole → Bool
is_sales none = false
is_sales (some r) = eq_role r sales

-- What follows a change of the issue: an event.
unfoldable pub write_issue :
    ℕ → ℕ → ConflictIssueEventType → (IssueRow → IssueRow) → Action (Unit {0})
unfolding update_conflict_issue create_conflict_issue_event
write_issue issue_id actor_id type change = modify (λ w.
    create_conflict_issue_event issue_id actor_id type (update_conflict_issue issue_id change w))

module _ (role_of : ℕ → Option UserRole) where
  unfoldable pub act_on :
      AuthUser → ℕ → IssueRow → Date → UpdateIssueStatusInput → Action (Unit {0})
  unfolding write_issue cancel_orders_and_release_capacity
  act_on user issue_id issue now close = do
    guard (not (is_closed issue.status)) conflict
    write_issue issue_id user.id ConflictIssueEventType.issue_closed
        (close_as ConflictResolution.wont_fix now)
  act_on user issue_id issue now reopen = do
    guard (not (is_live issue.status)) conflict
    write_issue issue_id user.id ConflictIssueEventType.reopened reopened_issue
  act_on user issue_id issue now (reassign assignee_id) = do
    guard (is_sales (role_of assignee_id)) bad_request
    write_issue issue_id user.id ConflictIssueEventType.reassigned (assign_to assignee_id)
  act_on user issue_id issue now cancel_order = do
    guard (is_live issue.status) conflict
    count ← cancel_orders_and_release_capacity (issue.order_id ∷ [])
    write_issue issue_id user.id ConflictIssueEventType.issue_closed
        (close_as ConflictResolution.order_cancelled now)

  unfoldable pub update_issue_status :
      AuthUser → ℕ → UpdateIssueStatusInput → Date → Action (Unit {0})
  unfolding require_role assert_issue_access find_conflict_issue_by_id act_on
  update_issue_status user issue_id input now = do
    require_role user (admin ∷ superadmin ∷ [])
    access ← assert_issue_access user issue_id
    found ← find_conflict_issue_by_id issue_id
    issue ← require found not_found
    act_on user issue_id issue.0 now input

unfoldable pub create_cancellation_request : AuthUser → ℕ → Date → Action ℕ
unfolding require_role find_order_by_id find_open_issue_by_order_id create_conflict_issue
    create_conflict_issue_event
create_cancellation_request user order_id now = do
  require_role user (sales ∷ [])
  found ← find_order_by_id order_id
  order ← require found not_found
  guard (order.applicant_id == user.id) forbidden
  guard (eq_status order.status OrderStatus.pending || eq_status order.status OrderStatus.scheduled)
      conflict
  existing ← find_open_issue_by_order_id order_id
  guard (not (is_some existing)) conflict
  issue_id ← create_conflict_issue order_id user.id user.id now
  modify (create_conflict_issue_event issue_id user.id ConflictIssueEventType.opened)
  pure issue_id
