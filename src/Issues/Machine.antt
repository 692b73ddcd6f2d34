-- ===== src/Issues/Machine.antt =====
-- The life of an issue as a state machine, and that modules/order/conflict-issue-service.ts implements it.
use wafer_fabrication_schedu.Base.{
  ℕ, ◌≡◌, ◌≢◌, refl, sym, ◌∙◌, ap, ◌==◌, true, not, Option, none, some, List, [], ◌∷◌, find, arith,
  is_some, Bool-cases, inl, inr,
}
use wafer_fabrication_schedu.Dates.{Date}
use wafer_fabrication_schedu.Store.{
  World, OrderRow, IssueRow, CommentRow, ConflictIssueStatus, open_issue, in_discussion, resolved,
  closed, ConflictResolution, Result, ok, err, update_where,
}
use wafer_fabrication_schedu.Issues.Table.{
  issue_has_id, issue_with_order, join_order, with_found, join_issue, is_live,
}
use wafer_fabrication_schedu.Issues.Proposals.{into_discussion, resolve_as}
use wafer_fabrication_schedu.Issues.Admin.{close_as, reopened_issue}

-- What may happen to an issue.
pub data IssueMove : Type 0 where
  discuss settle_issue shut take_up hand_on call_off : IssueMove

-- The status that an issue has afterwards, if it may happen.
abbrev pub next : IssueMove → ConflictIssueStatus → Option ConflictIssueStatus
next discuss open_issue = some in_discussion
next discuss in_discussion = some in_discussion
next discuss _ = none
next settle_issue _ = some resolved
next shut closed = none
next shut _ = some closed
next take_up resolved = some in_discussion
next take_up closed = some in_discussion
next take_up _ = none
next hand_on s = some s
next call_off open_issue = some closed
next call_off in_discussion = some closed
next call_off _ = none

abbrev pub issue_at : ℕ → World → Option IssueRow
issue_at id w = find (issue_has_id id) w.issues

-- An issue has a resolution exactly if it is RESOLVED or CLOSED, and then the time of that.
abbrev pub IsWellFormed : IssueRow → Type 0
IsWellFormed i =
    (is_live i.status ≡ not (is_some i.resolution))
    × (i.status ≡ resolved → is_some i.resolved_at ≡ true)
    × (i.status ≡ closed → is_some i.closed_at ≡ true)

-- An issue makes a move, and the others stay as they are.
pub record IsMove (m : IssueMove) (id : ℕ) (w v : World) : Type 0 where
  pub before : IssueRow
  pub after_move : IssueRow
  pub found : issue_at id w ≡ some before
  pub left : issue_at id v ≡ some after_move
  pub moves : next m before.status ≡ some after_move.status
  pub keeps : IsWellFormed before → IsWellFormed after_move
  pub others : (j : ℕ) → j ≢ id → issue_at j v ≡ issue_at j w

abbrev pub SameId : (IssueRow → IssueRow) → Type 0
SameId change = (i : IssueRow) → (change i).id ≡ i.id

find-changed :
    (id : ℕ) (change : IssueRow → IssueRow) (xs : List IssueRow) (i : IssueRow)
    → SameId change
    → find (issue_has_id id) xs ≡ some i
    → find (issue_has_id id) (update_where (issue_has_id id) change xs) ≡ some (change i)
find-changed id change [] i k e = cc
find-changed id change (x ∷ xs) i k e = elim (Bool-cases (x.id == id)) [
  | inl y ↦ ground (arith, k x)
  | inr n ↦ ground (arith, find-changed id change xs i k)
]

find-unchanged :
    (id j : ℕ) (change : IssueRow → IssueRow) (xs : List IssueRow)
    → SameId change
    → j ≢ id
    → find (issue_has_id j) (update_where (issue_has_id id) change xs) ≡ find (issue_has_id j) xs
find-unchanged id j change [] k n = refl
find-unchanged id j change (x ∷ xs) k n = elim (Bool-cases (x.id == id)) [
  | inl y ↦ ground (arith, k x, find-unchanged id j change xs k n)
  | inr m ↦ ground (arith, find-unchanged id j change xs k n)
]

-- A write of one issue is a move of it.
pub changed-IsMove :
    (m : IssueMove) (id : ℕ) (w v : World) (change : IssueRow → IssueRow) (i : IssueRow)
    → issue_at id w ≡ some i
    → v.issues ≡ update_where (issue_has_id id) change w.issues
    → SameId change
    → next m i.status ≡ some (change i).status
    → (IsWellFormed i → IsWellFormed (change i))
    → IsMove m id w v
changed-IsMove m id w v change i e s k n h = record {
  before = i;
  after_move = change i;
  found = e;
  left = rw s (find-changed id change w.issues i k e);
  moves = n;
  keeps = h;
  others = λ j d. rw s (find-unchanged id j change w.issues k d);
}

-- A write of no issue is a move that keeps the status.
pub kept-IsMove :
    (m : IssueMove) (id : ℕ) (w v : World) (i : IssueRow)
    → issue_at id w ≡ some i
    → v.issues ≡ w.issues
    → next m i.status ≡ some i.status
    → IsMove m id w v
kept-IsMove m id w v i e s n = record {
  before = i;
  after_move = i;
  found = e;
  left = rw s e;
  moves = n;
  keeps = λ h. h;
  others = λ j d. rw s refl;
}

-- What an operation does to the issues: it throws and leaves them, or the issue makes the move.
abbrev pub Does : {B : Type 0} → IssueMove → ℕ → World → Result B → World → Type 0
Does m id w (err e) v = v.issues ≡ w.issues
Does m id w (ok b) v = IsMove m id w v

both_found {ℓ} :
    {A B : Type ℓ} (a x : A) (found : Option B) (b : B)
    → with_found x found ≡ some (a, b)
    → (x ≡ a) × (found ≡ some b)
both_found a x none b e = cc
both_found a x (some y) b e = (
  ap (λ o. elim o [ none ↦ x | some p ↦ p.0 ]) e,
  ap (λ o. elim o [ none ↦ none | some p ↦ some p.1 ]) e,
)

-- What was found of a joined row.
pub joined :
    (w : World) (found : Option IssueRow) (i : IssueRow) (o : OrderRow)
    → join_order w found ≡ some (i, o)
    → (found ≡ some i) × (find (λ (y : OrderRow). y.id == i.order_id) w.orders ≡ some o)
joined w none i o e = cc
joined w (some x) i o e =
    let (same, there) = both_found i x (find (λ (y : OrderRow). y.id == x.order_id) w.orders) o e in
    (
      ap some same,
      ap (λ y. find (λ (z : OrderRow). z.id == y.order_id) w.orders) (sym same) ∙ there,
    )

pub joined_comment :
    (w : World) (found : Option CommentRow) (c : CommentRow) (i : IssueRow × OrderRow)
    → join_issue w found ≡ some (c, i)
    → (found ≡ some c) × (issue_with_order c.issue_id w ≡ some i)
joined_comment w none c i e = cc
joined_comment w (some x) c i e =
    let (same, there) = both_found c x (issue_with_order x.issue_id w) i e in
    (ap some same, ap (λ y. issue_with_order y.issue_id w) (sym same) ∙ there)

pub into_discussion-IsWellFormed :
    (i : IssueRow) → i.status ≡ open_issue → IsWellFormed i → IsWellFormed (into_discussion i)
into_discussion-IsWellFormed i f h = (sym (ap is_live f) ∙ h.0, (λ e. cc), (λ e. cc))

pub resolve_as-IsWellFormed :
    (r : ConflictResolution) (now : Date) (i : IssueRow) → IsWellFormed (resolve_as r now i)
resolve_as-IsWellFormed r now i = (refl, (λ e. refl), (λ e. cc))

pub close_as-IsWellFormed :
    (r : ConflictResolution) (now : Date) (i : IssueRow) → IsWellFormed (close_as r now i)
close_as-IsWellFormed r now i = (refl, (λ e. cc), (λ e. refl))

pub reopened_issue-IsWellFormed : (i : IssueRow) → IsWellFormed (reopened_issue i)
reopened_issue-IsWellFormed i = (refl, (λ e. cc), (λ e. cc))
