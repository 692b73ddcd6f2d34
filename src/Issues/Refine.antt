-- ===== src/Issues/Refine.antt =====
-- Every request of modules/order/conflict-issue-service.ts is a move of the machine of issues.
use wafer_fabrication_schedu.Base.{
  ℕ, ◌≡◌, refl, ap, ◌==◌, ltb, leb, ◌*◌, ◌&&◌, Option, none, some, find, Bool-cases, Option-cases,
  inl, inr,
}
use wafer_fabrication_schedu.Dates.{Date, day_of, day_ms}
use wafer_fabrication_schedu.Schedule.Types.{OrderStatus}
use wafer_fabrication_schedu.Store.{
  World, OrderRow, IssueRow, CommentRow, Proposal, ProposalKind, reduce_quantity, delay_due_date,
  cancel, ConflictResolution, forbidden, not_found, bad_request, invalid_input, pure, conflict,
  Result, after, ok, err, update_where, increment_schedule_version,
}
use wafer_fabrication_schedu.Auth.{UserRole, AuthUser}
use wafer_fabrication_schedu.Orders.Status.{
  validate_order_quantity, order_min_quantity, order_max_quantity,
}
use wafer_fabrication_schedu.Orders.Table.{
  UpdateOrderInput, order_has_id, update_order, patch_order,
}
use wafer_fabrication_schedu.Issues.{
  Request, comments, edits, accepts, rejects, acts, asks_cancellation, handle,
}
use wafer_fabrication_schedu.Issues.Table.{
  issue_has_id, comment_has_id, join_issue, find_comment_by_id, create_conflict_issue_event,
  update_conflict_issue, update_conflict_issue_comment, update_comment_proposal_status,
  stale_other_proposals, is_pending,
}
use wafer_fabrication_schedu.Issues.Guard.{assert_comment_proposal}
use wafer_fabrication_schedu.Issues.Proposals.{
  change_of, check_current, truthy, safe_fields, accept_proposal, reject_proposal, edit_comment,
  add_comment, resolve_as, write_acceptance,
}
use wafer_fabrication_schedu.Issues.Admin.{create_cancellation_request}
use wafer_fabrication_schedu.Issues.Rules.{
  Ends, guard-Ends, require-Ends, call-Ends, ran-Ends, SeenProposal, assert_comment_proposal-Passes,
}
use wafer_fabrication_schedu.Issues.Machine.{
  discuss, settle_issue, issue_at, IsMove, Does, resolve_as-IsWellFormed, changed-IsMove, joined,
  joined_comment,
}
use wafer_fabrication_schedu.Issues.Actions.{
  move_of, update_issue_status-Does, Requests, create_cancellation_request-Requests,
}
use wafer_fabrication_schedu.Issues.Discussion.{Decides, add_comment-Does}

change_of-Decides :
    (user : AuthUser) (o : OrderRow) (p : Proposal) (k : ProposalKind) (w : World)
    → Ends (Decides w) (change_of user o p k w)
unfolding change_of validate_order_quantity
change_of-Decides user o p reduce_quantity w =
    require-Ends (Decides w) (truthy p.new_quantity) bad_request _ w (λ d. refl)
      (λ q e.
        guard-Ends (Decides w) (leb order_min_quantity q && leb q order_max_quantity) invalid_input
          (pure (
            safe_fields user OrderStatus.pending (some q) none,
            ConflictResolution.reduced_quantity,
          ))
          w (λ d. refl) (λ g. (refl, tt)))
change_of-Decides user o p delay_due_date w =
    require-Ends (Decides w) p.new_due_date bad_request _ w (λ d. refl)
      (λ day e.
        guard-Ends (Decides w) (ltb (day_of o.due_date) day) bad_request
          (pure (
            safe_fields user OrderStatus.pending none (some (day * day_ms)),
            ConflictResolution.delayed_due_date,
          ))
          w (λ d. refl) (λ g. (refl, tt)))
change_of-Decides user o p cancel w = (refl, tt)

-- The tables of the issues.
abbrev SameIssues : World → World → Type 0
SameIssues v w = (v.issues ≡ w.issues) × (v.comments ≡ w.comments)

update_order-kept :
    (id : ℕ) (input : UpdateOrderInput) (w : World)
    → (o : Option OrderRow) × ((update_order id input w).0 ≡ ok o)
      × SameIssues (update_order id input w).1 w
unfolding update_order
update_order-kept id input w = elim (Option-cases (find (order_has_id id) w.orders)) [
  | inl n ↦
      (none, rw (n, update_order) refl, (rw (n, update_order) refl, rw (n, update_order) refl))
  | inr (o, e) ↦ (
    some (patch_order input o),
    rw (e, update_order) refl,
    (rw (e, update_order) refl, rw (e, update_order) refl),
  )
]

-- What follows the writes of the order and of its version.
accepted-IsMove :
    (user : AuthUser) (id issue_id : ℕ) (r : ConflictResolution) (now : Date) (w v : World)
    (i : IssueRow)
    → issue_at issue_id w ≡ some i
    → v.issues ≡ w.issues
    → IsMove settle_issue issue_id w (write_acceptance user id issue_id r now v)
unfolding write_acceptance update_comment_proposal_status stale_other_proposals
    create_conflict_issue_event update_conflict_issue
accepted-IsMove user id issue_id r now w v i e s =
    changed-IsMove settle_issue issue_id w (write_acceptance user id issue_id r now v)
      (resolve_as r now) i e (ap (update_where (issue_has_id issue_id) (resolve_as r now)) s)
      (λ x. refl) refl (λ h. resolve_as-IsWellFormed r now i)

-- The issue of the comment is settled.
abbrev pub Settles : ℕ → World → {B : Type 0} → Result B → World → Type 0
Settles id w (err e) v = v.issues ≡ w.issues
Settles id w (ok u) v =
    (c : CommentRow) × (find (comment_has_id id) w.comments ≡ some c)
    × IsMove settle_issue c.issue_id w v

pub accept_proposal-Settles :
    (user : AuthUser) (id : ℕ) (now : Date) (w : World)
    → Ends (Settles id w) (accept_proposal user id now w)
unfolding accept_proposal check_current update_comment_proposal_status increment_schedule_version
accept_proposal-Settles user id now w =
    let Q = Settles id w in
    call-Ends Q (SeenProposal user w id) _ w (λ d. refl)
      (λ found seen.
        guard-Ends Q (is_pending found.0.status) conflict _ w (λ d. refl)
          (λ waits.
            elim (Bool-cases
              (found.0.expected_order_updated_at == w.order_updated_at found.1.1.1.id)) [
                | inr n ↦ rw n refl
                | inl e ↦ rw e (
                    call-Ends Q (λ (c : UpdateOrderInput × ConflictResolution). Unit {0}) _ w
                      (λ d. refl)
                      (λ change x.
                        let (o, ran, same) = update_order-kept found.1.1.0.order_id change.0 w in
                        let (there, issue) =
                          joined_comment w (find (comment_has_id id) w.comments) found.1.0 found.1.1
                            seen.0 in
                        ran-Ends Q (update_order found.1.1.0.order_id change.0) _ w o ran (
                          found.1.0,
                          there,
                          accepted-IsMove user id found.1.0.issue_id change.1 now w _ found.1.1.0
                              (joined w (issue_at found.1.0.issue_id w) found.1.1.0 found.1.1.1
                                issue).0
                              same.0,
                        ))
                      (change_of user found.1.1.1 found.0.proposal found.0.proposal.kind)
                      (change_of-Decides user found.1.1.1 found.0.proposal found.0.proposal.kind w))
              ]))
      (assert_comment_proposal user id) (assert_comment_proposal-Passes user id w)

-- The writes that leave the issues.
abbrev pub Leaves : World → {B : Type 0} → Result B → World → Type 0
Leaves w r v = v.issues ≡ w.issues

reject_proposal-Leaves :
    (user : AuthUser) (id : ℕ) (w : World) → Ends (Leaves w) (reject_proposal user id w)
unfolding reject_proposal update_comment_proposal_status create_conflict_issue_event
reject_proposal-Leaves user id w =
    call-Ends (Leaves w) (SeenProposal user w id) _ w (λ d. refl)
      (λ found seen.
        guard-Ends (Leaves w) (is_pending found.0.status) conflict _ w (λ d. refl) (λ waits. refl))
      (assert_comment_proposal user id) (assert_comment_proposal-Passes user id w)

edit_comment-Leaves :
    (user : AuthUser) (id body : ℕ) (now : Date) (w : World)
    → Ends (Leaves w) (edit_comment user id body now w)
unfolding edit_comment find_comment_by_id update_conflict_issue_comment
edit_comment-Leaves user id body now w =
    require-Ends (Leaves w) (join_issue w (find (comment_has_id id) w.comments)) not_found _ w
      (λ d. refl)
      (λ c e.
        guard-Ends (Leaves w) (c.0.author_id == user.id) forbidden _ w (λ d. refl) (λ g. refl))

-- What the machine says of a request.
abbrev pub Follows : Request → World → Result (Unit {0}) → World → Type 0
Follows (comments id input) w = Does discuss id w
Follows (edits id body) w = Leaves w
Follows (accepts id) w = Settles id w
Follows (rejects id) w = Leaves w
Follows (acts id input) w = Does (move_of input) id w
Follows (asks_cancellation id) w = Requests id w

discussed :
    (id : ℕ) (w v : World) (x : Result ℕ)
    → Does discuss id w x v
    → Ends (Does discuss id w) (after (x, v) (λ a. pure tt))
discussed id w v (err e) h = h
discussed id w v (ok a) h = h

requested :
    (id : ℕ) (w v : World) (x : Result ℕ)
    → Requests id w x v
    → Ends (Requests id w) (after (x, v) (λ a. pure tt))
requested id w v (err e) h = h
requested id w v (ok a) h = h

-- Every request to the service follows the machine of issues: if it throws, the issues are as they were,
-- and if it returns, then its issue has made the move of the request and the others have stayed as they
-- were, or, for the request to cancel an order, there is one more issue, OPEN, of an order without another
-- that is OPEN or IN_DISCUSSION.
pub handle-Follows :
    (role_of : ℕ → Option UserRole) (user : AuthUser) (now : Date) (r : Request) (w : World)
    → Ends (Follows r w) (handle role_of user now r w)
unfolding handle
handle-Follows role_of user now (comments id input) w =
    discussed id w (add_comment user id input now w).1 (add_comment user id input now w).0
      (add_comment-Does user id input now w)
handle-Follows role_of user now (edits id body) w = edit_comment-Leaves user id body now w
handle-Follows role_of user now (accepts id) w = accept_proposal-Settles user id now w
handle-Follows role_of user now (rejects id) w = reject_proposal-Leaves user id w
handle-Follows role_of user now (acts id input) w =
    update_issue_status-Does role_of user id input now w
handle-Follows role_of user now (asks_cancellation id) w =
    requested id w (create_cancellation_request user id now w).1
      (create_cancellation_request user id now w).0
      (create_cancellation_request-Requests user id now w)
