-- ===== src/Issues/Actions.antt =====
-- The actions of administrators, and the requests to cancel an order, as moves of the machine of issues.
use wafer_fabrication_schedu.Base.{
  ℕ, ◌≡◌, refl, ◌∙◌, ap, ◌==◌, true, not, ◌&&◌, ◌||◌, Option, none, some, List, [], ◌∷◌, ◌++◌, find,
  keep, arith, is_some, any, ℤ, pos,
}
use wafer_fabrication_schedu.Dates.{Date}
use wafer_fabrication_schedu.Schedule.Types.{OrderStatus, eq_status}
use wafer_fabrication_schedu.Store.{
  World, IssueRow, AssignmentRow, ConflictIssueStatus, open_issue, in_discussion, closed,
  ConflictResolution, forbidden, not_found, bad_request, conflict, Result, ok, err, update_where,
}
use wafer_fabrication_schedu.Store.Capacity.{
  find_daily_capacity, upsert_daily_capacity_delta, factory_max,
}
use wafer_fabrication_schedu.Auth.{
  UserRole, AuthUser, admin, superadmin, sales, eq_role, require_role,
}
use wafer_fabrication_schedu.Orders.Table.{find_order_by_id, order_has_id, delete_orders}
use wafer_fabrication_schedu.Orders.Cancel.{
  release_all, is_scheduled_of, cancel_orders_and_release_capacity,
}
use wafer_fabrication_schedu.Issues.Table.{
  issue_has_id, issue_with_order, find_conflict_issue_by_id, find_open_issue_by_order_id,
  create_conflict_issue, create_conflict_issue_event, update_conflict_issue, is_live,
}
use wafer_fabrication_schedu.Issues.Guard.{assert_issue_access}
use wafer_fabrication_schedu.Issues.Admin.{
  UpdateIssueStatusInput, close, reopen, reassign, cancel_order, is_closed, is_sales, close_as,
  reopened_issue, assign_to, write_issue, act_on, update_issue_status, create_cancellation_request,
}
use wafer_fabrication_schedu.Issues.Rules.{
  Ends, guard-Ends, require-Ends, call-Ends, Seen, assert_issue_access-Passes,
}
use wafer_fabrication_schedu.Issues.Machine.{
  IssueMove, shut, take_up, hand_on, call_off, next, issue_at, Does, close_as-IsWellFormed,
  reopened_issue-IsWellFormed, changed-IsMove, joined,
}

upsert_kept :
    (f d : ℕ) (z : ℤ) (m : ℕ) (w : World)
    → let v = upsert_daily_capacity_delta f d z m w in
      (v.issues ≡ w.issues) × (v.comments ≡ w.comments)
unfolding upsert_daily_capacity_delta find_daily_capacity
upsert_kept f d z m w = ground arith

release_all-kept :
    (rows : List AssignmentRow) (w : World)
    → let v = release_all rows w in (v.issues ≡ w.issues) × (v.comments ≡ w.comments)
unfolding release_all
release_all-kept [] w = (refl, refl)
release_all-kept (a ∷ as_) w =
    let z = pos a.assigned_quantity in
    let m = factory_max a.factory_id w.factories 0 in
    let one = upsert_kept a.factory_id a.production_date z m w in
    let rest =
      release_all-kept as_ (upsert_daily_capacity_delta a.factory_id a.production_date z m w) in
    (rest.0 ∙ one.0, rest.1 ∙ one.1)

abbrev pub move_of : UpdateIssueStatusInput → IssueMove
move_of close = shut
move_of reopen = take_up
move_of (reassign assignee_id) = hand_on
move_of cancel_order = call_off

-- A status that lets an action through lets the move through.
shut_next : (s : ConflictIssueStatus) → not (is_closed s) ≡ true → next shut s ≡ some closed
shut_next s h = ground arith

take_up_next :
    (s : ConflictIssueStatus) → not (is_live s) ≡ true → next take_up s ≡ some in_discussion
take_up_next s h = ground arith

call_off_next : (s : ConflictIssueStatus) → is_live s ≡ true → next call_off s ≡ some closed
call_off_next s h = ground arith

module _ (role_of : ℕ → Option UserRole) (user : AuthUser) (id : ℕ) (now : Date) (w : World)
    (i : IssueRow) (e : issue_at id w ≡ some i) where
  act_on-Does :
      (input : UpdateIssueStatusInput)
      → Ends (Does (move_of input) id w) (act_on role_of user id i now input w)
  unfolding act_on write_issue update_conflict_issue create_conflict_issue_event
      cancel_orders_and_release_capacity delete_orders
  act_on-Does close =
      guard-Ends (Does shut id w) (not (is_closed i.status)) conflict _ w (λ d. refl)
        (λ g.
          changed-IsMove shut id w _ (close_as ConflictResolution.wont_fix now) i e refl (λ x. refl)
            (shut_next i.status g) (λ h. close_as-IsWellFormed ConflictResolution.wont_fix now i))
  act_on-Does reopen =
      guard-Ends (Does take_up id w) (not (is_live i.status)) conflict _ w (λ d. refl)
        (λ g.
          changed-IsMove take_up id w _ reopened_issue i e refl (λ x. refl)
            (take_up_next i.status g) (λ h. reopened_issue-IsWellFormed i))
  act_on-Does (reassign assignee_id) =
      guard-Ends (Does hand_on id w) (is_sales (role_of assignee_id)) bad_request _ w (λ d. refl)
        (λ g.
          changed-IsMove hand_on id w _ (assign_to assignee_id) i e refl (λ x. refl) refl (λ h. h))
  act_on-Does cancel_order =
      guard-Ends (Does call_off id w) (is_live i.status) conflict _ w (λ d. refl)
        (λ g.
          changed-IsMove call_off id w _ (close_as ConflictResolution.order_cancelled now) i e
            (ap (update_where (issue_has_id id) (close_as ConflictResolution.order_cancelled now))
              (release_all-kept (keep (is_scheduled_of (i.order_id ∷ [])) w.assignments) w).0)
            (λ x. refl) (call_off_next i.status g)
            (λ h. close_as-IsWellFormed ConflictResolution.order_cancelled now i))

pub update_issue_status-Does :
    (role_of : ℕ → Option UserRole) (user : AuthUser) (id : ℕ) (input : UpdateIssueStatusInput)
    (now : Date) (w : World)
    → Ends (Does (move_of input) id w) (update_issue_status role_of user id input now w)
unfolding update_issue_status require_role find_conflict_issue_by_id
update_issue_status-Does role_of user id input now w =
    let Q = Does (move_of input) id w in
    guard-Ends Q (any (eq_role user.role) (admin ∷ superadmin ∷ [])) forbidden _ w (λ d. refl)
      (λ g.
        call-Ends Q (Seen user w id) _ w (λ d. refl)
          (λ access seen.
            require-Ends Q (issue_with_order id w) not_found _ w (λ d. refl)
              (λ issue e.
                act_on-Does role_of user id now w issue.0
                  (joined w (issue_at id w) issue.0 issue.1 e).0 input))
          (assert_issue_access user id) (assert_issue_access-Passes user id w))

-- There is one more issue: OPEN, of this order, which had none that is OPEN or IN_DISCUSSION.
pub record Opens (order_id : ℕ) (w v : World) : Type 0 where
  pub row : IssueRow
  pub added : v.issues ≡ w.issues ++ row ∷ []
  pub order : row.order_id ≡ order_id
  pub is_new : row.status ≡ open_issue
  pub unresolved : row.resolution ≡ none
  pub none_live :
      find (λ (i : IssueRow). i.order_id == order_id && is_live i.status) w.issues ≡ none

abbrev pub Requests : ℕ → World → {B : Type 0} → Result B → World → Type 0
Requests id w (err e) v = v.issues ≡ w.issues
Requests id w (ok b) v = Opens id w v

not_some : {A : Type 0} (o : Option A) → not (is_some o) ≡ true → o ≡ none
not_some none h = refl
not_some (some a) h = cc

pub create_cancellation_request-Requests :
    (user : AuthUser) (id : ℕ) (now : Date) (w : World)
    → Ends (Requests id w) (create_cancellation_request user id now w)
unfolding create_cancellation_request require_role find_order_by_id find_open_issue_by_order_id
    create_conflict_issue create_conflict_issue_event
create_cancellation_request-Requests user id now w =
    let Q = Requests id w in
    let live = find (λ (i : IssueRow). i.order_id == id && is_live i.status) w.issues in
    guard-Ends Q (any (eq_role user.role) (sales ∷ [])) forbidden _ w (λ d. refl)
      (λ g.
        require-Ends Q (find (order_has_id id) w.orders) not_found _ w (λ d. refl)
          (λ o e.
            guard-Ends Q (o.applicant_id == user.id) forbidden _ w (λ d. refl)
              (λ own.
                guard-Ends Q
                  (eq_status o.status OrderStatus.pending
                    || eq_status o.status OrderStatus.scheduled)
                  conflict _ w (λ d. refl)
                  (λ s.
                    guard-Ends Q (not (is_some live)) conflict _ w (λ d. refl)
                      (λ n. record {
                        row = _;
                        added = refl;
                        order = refl;
                        is_new = refl;
                        unresolved = refl;
                        none_live = not_some live n;
                      })))))
