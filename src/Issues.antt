-- ===== src/Issues.antt =====
-- infra/db/conflict-issue-repository.ts and modules/order/conflict-issue-service.ts: issues of orders that
-- could not be scheduled or that are to be cancelled, with comments that may propose a change.
pub mod Table
pub mod Guard
pub mod Proposals
pub mod Admin
pub mod Rules
pub mod Machine
pub mod Discussion
pub mod Actions
pub mod Refine
pub mod Resolving
pub mod Accepting
pub mod Histories
pub mod Creation
pub mod Preparation
pub mod AtMostOne
pub mod Suggestions
pub mod Earliest
pub mod Bounds
mod Samples
mod CreationSamples
use wafer_fabrication_schedu.Base.{ℕ, Option}
use wafer_fabrication_schedu.Dates.{Date}
use wafer_fabrication_schedu.Store.{Action, pure, ◌>>=◌, ◌>>◌}
use wafer_fabrication_schedu.Auth.{UserRole, AuthUser}
use wafer_fabrication_schedu.Issues.Proposals.{
  AddCommentInput, add_comment, edit_comment, accept_proposal, reject_proposal,
}
use wafer_fabrication_schedu.Issues.Admin.{
  UpdateIssueStatusInput, update_issue_status, create_cancellation_request,
}

-- The requests that the routes make of the service.
pub data Request : Type 0 where
  comments : (issue_id : ℕ) (input : AddCommentInput) → Request
  edits : (comment_id : ℕ) (body : ℕ) → Request
  accepts : (comment_id : ℕ) → Request
  rejects : (comment_id : ℕ) → Request
  acts : (issue_id : ℕ) (input : UpdateIssueStatusInput) → Request
  asks_cancellation : (order_id : ℕ) → Request

-- A request of a user at a time.
unfoldable pub handle : (ℕ → Option UserRole) → AuthUser → Date → Request → Action (Unit {0})
unfolding add_comment edit_comment accept_proposal reject_proposal update_issue_status
    create_cancellation_request
handle role_of user now (comments issue_id input) =
    add_comment user issue_id input now >>= λ id. pure tt
handle role_of user now (edits comment_id body) = edit_comment user comment_id body now
handle role_of user now (accepts comment_id) = accept_proposal user comment_id now
handle role_of user now (rejects comment_id) = reject_proposal user comment_id
handle role_of user now (acts issue_id input) = update_issue_status role_of user issue_id input now
handle role_of user now (asks_cancellation order_id) =
    create_cancellation_request user order_id now >>= λ id. pure tt
