-- ===== src/Issues/Discussion.antt =====
-- A comment on an issue is a move of the machine.
use wafer_fabrication_schedu.Base.{
  ℕ, ◌≡◌, refl, sym, ◌∙◌, ap, ltb, leb, true, ◌&&◌, Option, none, some, find, Bool-cases, inl, inr,
}
use wafer_fabrication_schedu.Dates.{Date, day_of}
use wafer_fabrication_schedu.Store.{
  World, IssueRow, Proposal, ProposalData, open_issue, in_discussion, resolved, closed,
  ConflictIssueStatus, update_where, forbidden, not_found, bad_request, Result,
}
use wafer_fabrication_schedu.Auth.{AuthUser, sales, eq_role}
use wafer_fabrication_schedu.Orders.Table.{find_order_by_id, order_has_id}
use wafer_fabrication_schedu.Issues.Table.{
  issue_has_id, issue_with_order, find_conflict_issue_by_id, create_conflict_issue_comment, is_live,
  update_conflict_issue,
}
use wafer_fabrication_schedu.Issues.Guard.{assert_issue_access}
use wafer_fabrication_schedu.Issues.Proposals.{
  AddCommentInput, assert_valid_sales_delay_due_date, is_delay, check_delay, proposal_payload,
  start_discussion, into_discussion, add_comment,
}
use wafer_fabrication_schedu.Issues.Rules.{
  Ends, Passes, guard-Ends, require-Ends, call-Ends, check-Passes, Seen, assert_issue_access-Passes,
}
use wafer_fabrication_schedu.Issues.Machine.{
  discuss, next, IsMove, Does, into_discussion-IsWellFormed, changed-IsMove, kept-IsMove, joined,
}

abbrev pub Decides : {A : Type 0} → World → Result A → World → Type 0
Decides {A} w = Passes (λ (a : A). Unit {0}) w

check_delay-Decides :
    (user : AuthUser) (order_id : ℕ) (p : Proposal) (d : Option ℕ) (today : Date) (w : World)
    → Ends (Decides w) (check_delay user order_id p d today w)
unfolding check_delay find_order_by_id assert_valid_sales_delay_due_date
check_delay-Decides user order_id p none today w = (refl, tt)
check_delay-Decides user order_id p (some new) today w =
    elim (Bool-cases (eq_role user.role sales && is_delay p.kind)) [
      | inr e ↦ rw e (refl, tt)
      | inl e ↦ rw e (
          require-Ends (Decides w) (find (order_has_id order_id) w.orders) not_found _ w (λ d. refl)
            (λ o f.
              guard-Ends (Decides w) (ltb (day_of o.due_date) new) bad_request _ w (λ d. refl)
                (λ g. check-Passes (Unit {0}) (leb (day_of today) new) bad_request w (λ h. tt))))
    ]

proposal_payload-Decides :
    (user : AuthUser) (order_id : ℕ) (p : Option Proposal) (at_ : Option Date) (today : Date)
    (w : World)
    → Ends (Decides w) (proposal_payload user order_id p at_ today w)
unfolding proposal_payload
proposal_payload-Decides user order_id none at_ today w = (refl, tt)
proposal_payload-Decides user order_id (some p) at_ today w =
    require-Ends (Decides w) at_ bad_request _ w (λ d. refl)
      (λ expected f.
        call-Ends (Decides w) (λ (u : Unit {0}). Unit {0}) _ w (λ d. refl) (λ u x. (refl, tt))
          (check_delay user order_id p p.new_due_date today)
          (check_delay-Decides user order_id p p.new_due_date today w))

started :
    (id : ℕ) (w v : World) (i : IssueRow) (t : ConflictIssueStatus)
    → i.status ≡ t
    → find (issue_has_id id) w.issues ≡ some i
    → v.issues ≡ w.issues
    → is_live t ≡ true
    → IsMove discuss id w (start_discussion id t v)
unfolding start_discussion update_conflict_issue
started id w v i open_issue f e s l =
    changed-IsMove discuss id w (start_discussion id open_issue v) into_discussion i e
      (ap (update_where (issue_has_id id) into_discussion) s) (λ x. refl) (ap (next discuss) f)
      (into_discussion-IsWellFormed i f)
started id w v i in_discussion f e s l =
    kept-IsMove discuss id w v i e s (ap (next discuss) f ∙ ap some (sym f))
started id w v i resolved f e s l = cc
started id w v i closed f e s l = cc

pub add_comment-Does :
    (user : AuthUser) (id : ℕ) (input : AddCommentInput) (today : Date) (w : World)
    → Ends (Does discuss id w) (add_comment user id input today w)
unfolding add_comment find_conflict_issue_by_id create_conflict_issue_comment
add_comment-Does user id input today w =
    let Q = Does discuss id w in
    call-Ends Q (Seen user w id) _ w (λ d. refl)
      (λ access seen.
        require-Ends Q (issue_with_order id w) not_found _ w (λ d. refl)
          (λ issue e.
            guard-Ends Q (is_live issue.0.status) forbidden _ w (λ d. refl)
              (λ live.
                call-Ends Q (λ (p : Option ProposalData). Unit {0}) _ w (λ d. refl)
                  (λ payload x.
                    started id w _ issue.0 issue.0.status refl
                      (joined w (find (issue_has_id id) w.issues) issue.0 issue.1 e).0 refl live)
                  (proposal_payload user issue.0.order_id input.proposal
                    input.expected_order_updated_at today)
                  (proposal_payload-Decides user issue.0.order_id input.proposal
                    input.expected_order_updated_at today w))))
      (assert_issue_access user id) (assert_issue_access-Passes user id w)
