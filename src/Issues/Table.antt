-- ===== src/Issues/Table.antt =====
-- infra/db/conflict-issue-repository.ts: the rows of issues, comments and events. The texts of titles, the
-- snapshots and the payloads of events are left out; `now` is the time of a write.
use wafer_fabrication_schedu.Base.{
  ℕ, ◌+◌, ◌==◌, Bool, true, false, not, ◌&&◌, Option, none, some, [], ◌∷◌, ◌++◌, find,
}
use wafer_fabrication_schedu.Dates.{Date}
use wafer_fabrication_schedu.Store.{
  World, OrderRow, IssueRow, CommentRow, ProposalData, ProposalStatus, ConflictIssueStatus,
  ConflictIssueEventType, Action, ok, update_where,
}

abbrev pub issue_has_id : ℕ → IssueRow → Bool
issue_has_id id i = i.id == id

abbrev pub comment_has_id : ℕ → CommentRow → Bool
comment_has_id id c = c.id == id

-- A row with the row that its foreign key names, which the database keeps there.
abbrev pub with_found {ℓ} : {A B : Type ℓ} → A → Option B → Option (A × B)
with_found a none = none
with_found a (some b) = some (a, b)

abbrev pub join_order : World → Option IssueRow → Option (IssueRow × OrderRow)
join_order w none = none
join_order w (some i) = with_found i (find (λ (o : OrderRow). o.id == i.order_id) w.orders)

abbrev pub issue_with_order : ℕ → World → Option (IssueRow × OrderRow)
issue_with_order id w = join_order w (find (issue_has_id id) w.issues)

unfoldable pub find_conflict_issue_by_id : ℕ → Action (Option (IssueRow × OrderRow))
find_conflict_issue_by_id id w = (ok (issue_with_order id w), w)

abbrev pub join_issue : World → Option CommentRow → Option (CommentRow × (IssueRow × OrderRow))
join_issue w none = none
join_issue w (some c) = with_found c (issue_with_order c.issue_id w)

unfoldable pub find_comment_by_id : ℕ → Action (Option (CommentRow × (IssueRow × OrderRow)))
find_comment_by_id id w = (ok (join_issue w (find (comment_has_id id) w.comments)), w)

-- OPEN or IN_DISCUSSION.
abbrev pub is_live : ConflictIssueStatus → Bool
is_live ConflictIssueStatus.open_issue = true
is_live ConflictIssueStatus.in_discussion = true
is_live _ = false

-- Which of several live issues is returned is of no use to the callers, who ask whether there is one.
unfoldable pub find_open_issue_by_order_id : ℕ → Action (Option IssueRow)
find_open_issue_by_order_id order_id w =
    (ok (find (λ (i : IssueRow). i.order_id == order_id && is_live i.status) w.issues), w)

unfoldable pub create_conflict_issue : ℕ → ℕ → ℕ → Date → Action ℕ
create_conflict_issue order_id created_by_id assignee_id now w =
    let row : IssueRow = record {
      id = w.next_id;
      order_id = order_id;
      status = ConflictIssueStatus.open_issue;
      resolution = none;
      created_by_id = created_by_id;
      assignee_id = assignee_id;
      resolved_at = none;
      closed_at = none;
      created_at = now;
    } in
    (ok w.next_id, record w { issues = w.issues ++ row ∷ []; next_id = w.next_id + 1 })

unfoldable pub create_conflict_issue_comment : ℕ → ℕ → ℕ → Option ProposalData → Action ℕ
create_conflict_issue_comment issue_id author_id body proposal w =
    let row : CommentRow = record {
      id = w.next_id;
      issue_id = issue_id;
      author_id = author_id;
      body = body;
      proposal = proposal;
      edited_at = none;
    } in
    (ok w.next_id, record w { comments = w.comments ++ row ∷ []; next_id = w.next_id + 1 })

abbrev pub with_body : ℕ → Date → CommentRow → CommentRow
with_body body now c = record c { body = body; edited_at = some now }

unfoldable pub update_conflict_issue_comment : ℕ → ℕ → Date → World → World
update_conflict_issue_comment id body now w = record w {
  comments = update_where (comment_has_id id) (with_body body now) w.comments;
}

abbrev pub set_status : ProposalStatus → Option ProposalData → Option ProposalData
set_status s none = none
set_status s (some p) = some (record p { status = s })

abbrev pub with_status : ProposalStatus → CommentRow → CommentRow
with_status s c = record c { proposal = set_status s c.proposal }

-- A comment without a proposal is left alone.
unfoldable pub update_comment_proposal_status : ℕ → ProposalStatus → World → World
update_comment_proposal_status id s w = record w {
  comments = update_where (comment_has_id id) (with_status s) w.comments;
}

abbrev pub is_pending : ProposalStatus → Bool
is_pending ProposalStatus.pending = true
is_pending _ = false

abbrev pub has_pending : Option ProposalData → Bool
has_pending none = false
has_pending (some p) = is_pending p.status

abbrev pub is_other_pending : ℕ → ℕ → CommentRow → Bool
is_other_pending issue_id id c =
    c.issue_id == issue_id && not (c.id == id) && has_pending c.proposal

unfoldable pub stale_other_proposals : ℕ → ℕ → World → World
stale_other_proposals issue_id id w = record w {
  comments =
      update_where (is_other_pending issue_id id) (with_status ProposalStatus.stale) w.comments;
}

unfoldable pub create_conflict_issue_event : ℕ → ℕ → ConflictIssueEventType → World → World
create_conflict_issue_event issue_id actor_id type w = record w {
  events =
      w.events
      ++ record { id = w.next_id; issue_id = issue_id; actor_id = actor_id; type = type } ∷ [];
  next_id = w.next_id + 1;
}

unfoldable pub update_conflict_issue : ℕ → (IssueRow → IssueRow) → World → World
update_conflict_issue id change w = record w {
  issues = update_where (issue_has_id id) change w.issues;
}
