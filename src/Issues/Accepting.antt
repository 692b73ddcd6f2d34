-- ===== src/Issues/Accepting.antt =====
-- What the acceptance of a proposal does to the order, and to the proposals on the issue.
use wafer_fabrication_schedu.Base.{
  ℕ, ◌≡◌, refl, ◌∙◌, ap, ◌==◌, true, false, some, find, arith, All, Bool-cases, ◌⊎◌, inl, inr,
}
use wafer_fabrication_schedu.Dates.{Date}
use wafer_fabrication_schedu.Store.{
  World, OrderRow, IssueRow, CommentRow, ProposalData, ProposalStatus, ConflictResolution, conflict,
  Error, Result, ok, err, update_where, ◌>>=◌, ◌>>◌, modify, increment_schedule_version,
}
use wafer_fabrication_schedu.Auth.{AuthUser}
use wafer_fabrication_schedu.Orders.Table.{
  UpdateOrderInput, order_has_id, update_order, patch_order,
}
use wafer_fabrication_schedu.Issues.Table.{
  issue_has_id, comment_has_id, join_issue, update_comment_proposal_status, stale_other_proposals,
  create_conflict_issue_event, update_conflict_issue, is_pending, has_pending, with_status,
}
use wafer_fabrication_schedu.Issues.Guard.{assert_comment_proposal}
use wafer_fabrication_schedu.Issues.Proposals.{
  change_of, check_current, accept_proposal, touch, write_acceptance,
}
use wafer_fabrication_schedu.Issues.Rules.{
  Ends, guard-Ends, call-Ends, ran-Ends, SeenProposal, assert_comment_proposal-Passes,
}
use wafer_fabrication_schedu.Issues.Machine.{joined, joined_comment}
use wafer_fabrication_schedu.Issues.Resolving.{
  IsProposed, Changes, change_of-Passes, resolved_comments, none_pending, accepted_found,
  found_changed,
}

-- An acceptance: of a proposal that waits, for an order as it expects it. The order becomes as proposed,
-- the proposal is ACCEPTED, and no proposal on the issue waits any more.
pub record IsAcceptance (id : ℕ) (w v : World) : Type 0 where
  pub comment : CommentRow
  pub issue : IssueRow
  pub order : OrderRow
  pub changed : OrderRow
  pub found : join_issue w (find (comment_has_id id) w.comments) ≡ some (comment, (issue, order))
  pub proposal : ProposalData
  pub proposes : comment.proposal ≡ some proposal
  pub waits : proposal.status ≡ ProposalStatus.pending
  pub current : proposal.expected_order_updated_at ≡ w.order_updated_at order.id
  pub before : find (order_has_id issue.order_id) w.orders ≡ some order
  pub after_it : find (order_has_id issue.order_id) v.orders ≡ some changed
  pub as_proposed : IsProposed proposal.proposal.kind proposal.proposal order changed
  pub marked :
      find (comment_has_id id) v.comments ≡ some (with_status ProposalStatus.accepted comment)
  pub settled :
      All
        (λ (c : CommentRow). c.issue_id ≡ comment.issue_id → has_pending c.proposal ≡ false)
        v.comments

-- A throw leaves orders and issues, and the comments unless it marks the proposal STALE.
pub record IsRefusal (id : ℕ) (w v : World) : Type 0 where
  pub orders : v.orders ≡ w.orders
  pub issues : v.issues ≡ w.issues
  pub comments :
      (v.comments ≡ w.comments)
      ⊎ (v.comments
          ≡ update_where (comment_has_id id) (with_status ProposalStatus.stale) w.comments)

abbrev pub Accepts : ℕ → World → {B : Type 0} → Result B → World → Type 0
Accepts id w (err e) v = IsRefusal id w v
Accepts id w (ok u) v = IsAcceptance id w v

refused : (id : ℕ) (w : World) (e : Error) → IsRefusal id w w
refused id w e = record { orders = refl; issues = refl; comments = inl refl }

updated :
    (id : ℕ) (input : UpdateOrderInput) (w : World) (o : OrderRow)
    → find (order_has_id id) w.orders ≡ some o
    → let r = update_order id input w in
      (r.0 ≡ ok (some (patch_order input o)))
      × (r.1.orders ≡ update_where (order_has_id id) (patch_order input) w.orders)
      × (r.1.comments ≡ w.comments)
unfolding update_order
updated id input w o e =
    (rw (e, update_order) refl, rw (e, update_order) refl, rw (e, update_order) refl)

waiting : (s : ProposalStatus) → is_pending s ≡ true → s ≡ ProposalStatus.pending
waiting s h = ground arith

module _ (user : AuthUser) (id : ℕ) (now : Date) (w : World)
    (found : ProposalData × (CommentRow × (IssueRow × OrderRow)))
    (seen : SeenProposal user w id found) (waits : is_pending found.0.status ≡ true)
    (current : (found.0.expected_order_updated_at == w.order_updated_at found.1.1.1.id)
      ≡ true) where
  written-IsAcceptance :
      (change : UpdateOrderInput × ConflictResolution) (v : World)
      → Changes found.1.1.1 found.0.proposal found.0.proposal.kind change
      → find (order_has_id found.1.1.0.order_id) w.orders ≡ some found.1.1.1
      → v.orders ≡ update_where (order_has_id found.1.1.0.order_id) (patch_order change.0) w.orders
      → v.comments ≡ w.comments
      → IsAcceptance id w (write_acceptance user id found.1.0.issue_id change.1 now v)
  unfolding write_acceptance update_comment_proposal_status stale_other_proposals
      create_conflict_issue_event update_conflict_issue
  written-IsAcceptance change v c there orders rows = record {
    comment = found.1.0;
    issue = found.1.1.0;
    order = found.1.1.1;
    changed = patch_order change.0 found.1.1.1;
    found = seen.0;
    proposal = found.0;
    proposes = seen.1;
    waits = waiting found.0.status waits;
    current = ground arith;
    before = there;
    after_it =
        ap (find (order_has_id found.1.1.0.order_id)) orders
        ∙ found_changed found.1.1.0.order_id change.0 w.orders found.1.1.1 there;
    as_proposed = c;
    marked =
        ap (λ cs. find (comment_has_id id) (resolved_comments found.1.0.issue_id id cs)) rows
        ∙ accepted_found found.1.0.issue_id id w.comments found.1.0
            (joined_comment w (find (comment_has_id id) w.comments) found.1.0 found.1.1 seen.0).0;
    settled = none_pending found.1.0.issue_id id v.comments;
  }

  accept_current : Ends (Accepts id w) (
      (change_of user found.1.1.1 found.0.proposal found.0.proposal.kind >>= λ change.
      update_order found.1.1.0.order_id change.0 >>= λ o.
      modify (touch found.1.1.0.order_id now)
      >> (increment_schedule_version found.1.1.1.type >>= λ version.
          modify (write_acceptance user id found.1.0.issue_id change.1 now)))
        w)
  unfolding increment_schedule_version
  accept_current =
      let there =
        joined_comment w (find (comment_has_id id) w.comments) found.1.0 found.1.1 seen.0 in
      let order =
        (joined w (find (issue_has_id found.1.0.issue_id) w.issues) found.1.1.0 found.1.1.1
          there.1).1 in
      call-Ends (Accepts id w) (Changes found.1.1.1 found.0.proposal found.0.proposal.kind) _ w
        (refused id w)
        (λ change c.
          let done = updated found.1.1.0.order_id change.0 w found.1.1.1 order in
          ran-Ends (Accepts id w) (update_order found.1.1.0.order_id change.0) _ w
            (some (patch_order change.0 found.1.1.1)) done.0
            (written-IsAcceptance change _ c order done.1 done.2))
        (change_of user found.1.1.1 found.0.proposal found.0.proposal.kind)
        (change_of-Passes user found.1.1.1 found.0.proposal found.0.proposal.kind w)

-- A call of `acceptProposal` that returns has accepted a proposal that was PENDING, on an order that had
-- not changed since: the order has the quantity between 25 and 2500, the later due date, or the status
-- CANCELLED that the proposal asks for, and is PENDING again if it is not cancelled; the proposal is
-- ACCEPTED, and no proposal on its issue is PENDING. A call that throws leaves orders and issues as they
-- were, and the comments too, or it has marked the proposal STALE.
pub accept_proposal-Accepts :
    (user : AuthUser) (id : ℕ) (now : Date) (w : World)
    → Ends (Accepts id w) (accept_proposal user id now w)
unfolding accept_proposal check_current update_comment_proposal_status
accept_proposal-Accepts user id now w =
    let Q = Accepts id w in
    call-Ends Q (SeenProposal user w id) _ w (refused id w)
      (λ found seen. guard-Ends Q (is_pending found.0.status) conflict _ w (refused id w) (λ waits.
        elim (Bool-cases (found.0.expected_order_updated_at == w.order_updated_at found.1.1.1.id)) [
          | inr n ↦ rw n (record { orders = refl; issues = refl; comments = inr refl })
          | inl e ↦ rw e (accept_current user id now w found seen waits e)
        ]))
      (assert_comment_proposal user id) (assert_comment_proposal-Passes user id w)
