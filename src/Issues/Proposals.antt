-- ===== src/Issues/Proposals.antt =====
-- Comments of modules/order/conflict-issue-service.ts, and the proposals in them.
use wafer_fabrication_schedu.Base.{
  ℕ, ◌*◌, ◌==◌, ltb, leb, Bool, true, false, ◌&&◌, if◌then◌else◌, Option, none, some,
}
use wafer_fabrication_schedu.Dates.{Date, day_ms, day_of}
use wafer_fabrication_schedu.Schedule.Types.{OrderStatus}
use wafer_fabrication_schedu.Store.{
  World, OrderRow, IssueRow, Proposal, ProposalData, ProposalKind, reduce_quantity, delay_due_date,
  cancel, ProposalStatus, ConflictIssueStatus, ConflictResolution, ConflictIssueEventType,
  forbidden, not_found, bad_request, conflict, Action, pure, throw, guard, require, modify, ◌>>=◌,
  ◌>>◌, put, increment_schedule_version,
}
use wafer_fabrication_schedu.Auth.{sales, AuthUser, eq_role}
use wafer_fabrication_schedu.Orders.Status.{validate_order_quantity}
use wafer_fabrication_schedu.Orders.Table.{UpdateOrderInput, find_order_by_id, update_order}
use wafer_fabrication_schedu.Issues.Table.{
  find_conflict_issue_by_id, find_comment_by_id, create_conflict_issue_comment,
  update_conflict_issue_comment, is_pending, update_comment_proposal_status, stale_other_proposals,
  create_conflict_issue_event, update_conflict_issue, is_live,
}
use wafer_fabrication_schedu.Issues.Guard.{assert_issue_access, assert_comment_proposal}

pub record AddCommentInput : Type 0 where
  pub body : ℕ
  pub proposal : Option Proposal
  pub expected_order_updated_at : Option Date

unfoldable pub assert_valid_sales_delay_due_date : Date → ℕ → Date → Action (Unit {0})
assert_valid_sales_delay_due_date current_due_date new_due_date today = do
  guard (ltb (day_of current_due_date) new_due_date) bad_request
  guard (leb (day_of today) new_due_date) bad_request

abbrev pub is_delay : ProposalKind → Bool
is_delay delay_due_date = true
is_delay _ = false

-- `if (role === SALES && kind === DELAY_DUE_DATE && newDueDate)`.
unfoldable pub check_delay : AuthUser → ℕ → Proposal → Option ℕ → Date → Action (Unit {0})
unfolding find_order_by_id assert_valid_sales_delay_due_date
check_delay user order_id p none today = pure tt
check_delay user order_id p (some new_due_date) today =
    if eq_role user.role sales && is_delay p.kind
    then (do
      found ← find_order_by_id order_id
      order ← require found not_found
      assert_valid_sales_delay_due_date order.due_date new_due_date today)
    else pure tt

unfoldable pub proposal_payload :
    AuthUser → ℕ → Option Proposal → Option Date → Date → Action (Option ProposalData)
unfolding check_delay
proposal_payload user order_id none expected_at today = pure none
proposal_payload user order_id (some p) expected_at today = do
  expected ← require expected_at bad_request
  check_delay user order_id p p.new_due_date today
  pure (
      some (record {
        proposal = p;
        expected_order_updated_at = expected;
        status = ProposalStatus.pending;
      }))

abbrev pub into_discussion : IssueRow → IssueRow
into_discussion i = record i { status = ConflictIssueStatus.in_discussion }

abbrev pub is_open : ConflictIssueStatus → Bool
is_open ConflictIssueStatus.open_issue = true
is_open _ = false

-- OPEN becomes IN_DISCUSSION with the first comment.
unfoldable pub start_discussion : ℕ → ConflictIssueStatus → World → World
unfolding update_conflict_issue
start_discussion issue_id status w =
    if is_open status then update_conflict_issue issue_id into_discussion w else w

unfoldable pub add_comment : AuthUser → ℕ → AddCommentInput → Date → Action ℕ
unfolding assert_issue_access find_conflict_issue_by_id proposal_payload
    create_conflict_issue_comment start_discussion
add_comment user issue_id input today = do
  access ← assert_issue_access user issue_id
  found ← find_conflict_issue_by_id issue_id
  issue ← require found not_found
  guard (is_live issue.0.status) forbidden
  payload ←
      proposal_payload user issue.0.order_id input.proposal input.expected_order_updated_at today
  id ← create_conflict_issue_comment issue_id user.id input.body payload
  modify (start_discussion issue_id issue.0.status)
  pure id

unfoldable pub edit_comment : AuthUser → ℕ → ℕ → Date → Action (Unit {0})
unfolding find_comment_by_id update_conflict_issue_comment
edit_comment user comment_id body now = do
  found ← find_comment_by_id comment_id
  comment ← require found not_found
  guard (comment.0.author_id == user.id) forbidden
  modify (update_conflict_issue_comment comment_id body now)

-- `safeFields` and the resolution.
abbrev pub safe_fields : AuthUser → OrderStatus → Option ℕ → Option Date → UpdateOrderInput
safe_fields user status quantity due_date = record {
  status = some status;
  due_date = due_date;
  quantity = quantity;
  name = none;
  type = none;
  is_fixed = none;
  is_prioritized = none;
  last_modified_by_id = some user.id;
}

-- A number or a text that is missing, or 0, is falsy.
abbrev pub truthy : Option ℕ → Option ℕ
truthy none = none
truthy (some n) = if n == 0 then none else some n

unfoldable pub change_of :
    AuthUser → OrderRow → Proposal → ProposalKind → Action (UpdateOrderInput × ConflictResolution)
unfolding validate_order_quantity
change_of user order p reduce_quantity = do
  quantity ← require (truthy p.new_quantity) bad_request
  validate_order_quantity quantity
  pure (
    safe_fields user OrderStatus.pending (some quantity) none,
    ConflictResolution.reduced_quantity,
  )
change_of user order p delay_due_date = do
  day ← require p.new_due_date bad_request
  guard (ltb (day_of order.due_date) day) bad_request
  pure (
    safe_fields user OrderStatus.pending none (some (day * day_ms)),
    ConflictResolution.delayed_due_date,
  )
change_of user order p cancel =
    pure (safe_fields user OrderStatus.cancelled none none, ConflictResolution.order_cancelled)

abbrev pub resolve_as : ConflictResolution → Date → IssueRow → IssueRow
resolve_as resolution now i = record i {
  status = ConflictIssueStatus.resolved;
  resolution = some resolution;
  resolved_at = some now;
}

-- The database sets `updatedAt` of the order with the write.
abbrev pub touch : ℕ → Date → World → World
touch id now w = record w { order_updated_at = put id now w.order_updated_at }

-- What is written of an accepted proposal once the order is.
unfoldable pub write_acceptance : AuthUser → ℕ → ℕ → ConflictResolution → Date → World → World
unfolding update_comment_proposal_status stale_other_proposals create_conflict_issue_event
    update_conflict_issue
write_acceptance user comment_id issue_id resolution now w =
    let accepted = update_comment_proposal_status comment_id ProposalStatus.accepted w in
    let others = stale_other_proposals issue_id comment_id accepted in
    let updated =
      create_conflict_issue_event issue_id user.id ConflictIssueEventType.order_updated others in
    let taken_up =
      create_conflict_issue_event issue_id user.id ConflictIssueEventType.proposal_accepted
        updated in
    let resolved =
      create_conflict_issue_event issue_id user.id ConflictIssueEventType.issue_resolved taken_up in
    update_conflict_issue issue_id (resolve_as resolution now) resolved

-- The order must be as the proposal expects it; if not, the proposal is marked STALE.
unfoldable pub check_current : ℕ → ProposalData → ℕ → Action (Unit {0})
unfolding update_comment_proposal_status
check_current comment_id payload order_id w =
    if payload.expected_order_updated_at == w.order_updated_at order_id
    then pure tt w
    else throw conflict (update_comment_proposal_status comment_id ProposalStatus.stale w)

unfoldable pub accept_proposal : AuthUser → ℕ → Date → Action (Unit {0})
unfolding assert_comment_proposal check_current change_of update_order increment_schedule_version
    write_acceptance
accept_proposal user comment_id now = do
  found ← assert_comment_proposal user comment_id
  guard (is_pending found.0.status) conflict
  check_current comment_id found.0 found.1.1.1.id
  change ← change_of user found.1.1.1 found.0.proposal found.0.proposal.kind
  updated ← update_order found.1.1.0.order_id change.0
  modify (touch found.1.1.0.order_id now)
  version ← increment_schedule_version found.1.1.1.type
  modify (write_acceptance user comment_id found.1.0.issue_id change.1 now)

unfoldable pub reject_proposal : AuthUser → ℕ → Action (Unit {0})
unfolding assert_comment_proposal update_comment_proposal_status create_conflict_issue_event
reject_proposal user comment_id = do
  found ← assert_comment_proposal user comment_id
  guard (is_pending found.0.status) conflict
  modify (update_comment_proposal_status comment_id ProposalStatus.rejected)
  modify (
      create_conflict_issue_event found.1.0.issue_id user.id
        ConflictIssueEventType.proposal_rejected)
