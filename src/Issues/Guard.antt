-- ===== src/Issues/Guard.antt =====
-- The access checks of modules/order/conflict-issue-service.ts.
use wafer_fabrication_schedu.Base.{ℕ, ◌==◌, not, if◌then◌else◌, [], ◌∷◌}
use wafer_fabrication_schedu.Store.{
  OrderRow, IssueRow, CommentRow, ProposalData, forbidden, not_found, bad_request, Action, pure,
  guard, require, ◌>>=◌, ◌>>◌,
}
use wafer_fabrication_schedu.Auth.{
  superadmin, admin, sales, AuthUser, ActorScope, superadmin_scope, eq_role, require_role,
  resolve_actor_scope, get_scope_group,
}
use wafer_fabrication_schedu.Issues.Table.{find_conflict_issue_by_id, find_comment_by_id}

-- The orders of the group of an ADMIN; a SUPERADMIN has all types.
unfoldable pub check_group : ℕ → ActorScope → Action (Unit {0})
unfolding get_scope_group
check_group type (superadmin_scope user_id group) = pure tt
check_group type scope = do group ← get_scope_group scope; guard (type == group) not_found

unfoldable pub check_access : AuthUser → IssueRow × OrderRow → Action (Unit {0})
unfolding require_role resolve_actor_scope check_group
check_access user issue =
    if eq_role user.role sales
    then guard (issue.0.assignee_id == user.id) not_found
    else (require_role user (admin ∷ superadmin ∷ [])
        >> (resolve_actor_scope user >>= check_group issue.1.type))

unfoldable pub assert_issue_access : AuthUser → ℕ → Action (IssueRow × OrderRow)
unfolding find_conflict_issue_by_id check_access
assert_issue_access user issue_id = do
  found ← find_conflict_issue_by_id issue_id
  issue ← require found not_found
  check_access user issue
  pure issue

unfoldable pub assert_comment_proposal :
    AuthUser → ℕ → Action (ProposalData × (CommentRow × (IssueRow × OrderRow)))
unfolding find_comment_by_id assert_issue_access
assert_comment_proposal user comment_id = do
  found ← find_comment_by_id comment_id
  comment ← require found not_found
  access ← assert_issue_access user comment.0.issue_id
  guard (not (comment.0.author_id == user.id)) forbidden
  proposal ← require comment.0.proposal bad_request
  pure (proposal, comment)
