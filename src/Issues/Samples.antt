-- ===== src/Issues/Samples.antt =====
-- Runs of requests on a small table of issues, and each theorem at a concrete input.
use wafer_fabrication_schedu.Base.{
  ℕ, ◌≡◌, ◌≤◌, refl, ◌*◌, ◌+◌, ◌==◌, Bool, true, false, Option, none, some, List, [], ◌∷◌, map,
  if◌then◌else◌, All, min, pos, ◌-ℤ◌, arith, Bool-cases, inl, inr,
}
use mathlib.Core.Path.{subst}
use wafer_fabrication_schedu.Dates.{Date, day_ms}
use wafer_fabrication_schedu.Schedule.Types.{OrderStatus}
use wafer_fabrication_schedu.Store.{
  World, OrderRow, IssueRow, CommentRow, ProposalKind, ProposalStatus, ConflictIssueStatus,
  empty_world, conflict, forbidden, ok, err,
}
use wafer_fabrication_schedu.Auth.{UserRole, AuthUser, superadmin, sales}
use wafer_fabrication_schedu.Issues.{Request, accepts, acts, handle}
use wafer_fabrication_schedu.Issues.Admin.{close, reopen}
use wafer_fabrication_schedu.Issues.Proposals.{accept_proposal}
use wafer_fabrication_schedu.Issues.Rules.{Ends}
use wafer_fabrication_schedu.Issues.Suggestions.{
  FactoryConsidered, ContextSnapshot, capacity_on, scanned_rows, suggest,
}
use wafer_fabrication_schedu.Issues.Earliest.{IsSuggestion, suggest-IsSuggestion}
use wafer_fabrication_schedu.Issues.Bounds.{suggest-bounds}
use wafer_fabrication_schedu.Issues.Machine.{IsWellFormed}
use wafer_fabrication_schedu.Issues.Refine.{Follows, handle-Follows}
use wafer_fabrication_schedu.Issues.Accepting.{Accepts, accept_proposal-Accepts}
use wafer_fabrication_schedu.Issues.Histories.{serve, AreWellFormed, serve-AreWellFormed}

abbrev boss : AuthUser
boss = record { id = 1; role = superadmin }

abbrev seller : AuthUser
seller = record { id = 8; role = sales }

abbrev roles : ℕ → Option UserRole
roles id = if id == 8 then some sales else none

abbrev failed_order : OrderRow
failed_order = record {
  id = 5;
  status = OrderStatus.failed;
  due_date = 20 * day_ms;
  quantity = 500;
  applicant_id = 8;
  name = 4;
  type = 1;
  is_fixed = false;
  is_prioritized = false;
  created_at = 2;
  last_modified_by_id = none;
}

abbrev issue_row : ConflictIssueStatus → IssueRow
issue_row status = record {
  id = 3;
  order_id = 5;
  status = status;
  resolution = none;
  created_by_id = 1;
  assignee_id = 8;
  resolved_at = none;
  closed_at = none;
  created_at = 6;
}

abbrev comment_row : ℕ → ℕ → CommentRow
comment_row id quantity = record {
  id = id;
  issue_id = 3;
  author_id = 8;
  body = 0;
  proposal = some (record {
    proposal = record {
      kind = ProposalKind.reduce_quantity;
      new_quantity = some quantity;
      new_due_date = none;
    };
    expected_order_updated_at = 7;
    status = ProposalStatus.pending;
  });
  edited_at = none;
}

-- Two proposals of the seller wait.
abbrev desk : World
desk = record empty_world {
  orders = failed_order ∷ [];
  issues = issue_row ConflictIssueStatus.in_discussion ∷ [];
  comments = comment_row 11 200 ∷ comment_row 12 300 ∷ [];
  next_id = 30;
  order_updated_at = λ i. 7;
}

abbrev first_accepted : World
first_accepted = (accept_proposal boss 11 40 desk).1

accepted_first :
    map (λ (i : IssueRow). i.status) first_accepted.issues ≡ ConflictIssueStatus.resolved ∷ []
unfolding accept_proposal
accepted_first = refl

halved : map (λ (o : OrderRow). o.quantity) first_accepted.orders ≡ 200 ∷ []
unfolding accept_proposal
halved = refl

-- The second proposal went stale, and the order has changed since.
too_late : (accept_proposal boss 12 41 first_accepted).0 ≡ err conflict
unfolding accept_proposal
too_late = refl

not_own : (accept_proposal seller 11 40 desk).0 ≡ err forbidden
unfolding accept_proposal
not_own = refl

-- Nothing asks for the status of the issue: a proposal on a closed one is accepted.
accepted_on_closed :
    (accept_proposal boss 11 40
      (record desk { issues = issue_row ConflictIssueStatus.closed ∷ [] })).0
    ≡ ok tt
unfolding accept_proposal
accepted_on_closed = refl

handle-Follows_example : Ends (Follows (accepts 11) desk) (handle roles boss 40 (accepts 11) desk)
handle-Follows_example = handle-Follows roles boss 40 (accepts 11) desk

accept_proposal-Accepts_example : Ends (Accepts 11 desk) (accept_proposal boss 11 40 desk)
accept_proposal-Accepts_example = accept_proposal-Accepts boss 11 40 desk

abbrev history : List ((AuthUser × Date) × Request)
history = ((boss, 40), accepts 11) ∷ ((boss, 41), acts 3 reopen) ∷ ((boss, 42), acts 3 close) ∷ []

desk_row-IsWellFormed : IsWellFormed (issue_row ConflictIssueStatus.in_discussion)
desk_row-IsWellFormed = (refl, (λ e. cc), (λ e. cc))

desk-AreWellFormed : AreWellFormed desk
desk-AreWellFormed id i e = elim (Bool-cases (3 == id)) [
  | inl s ↦
      subst IsWellFormed {x = issue_row ConflictIssueStatus.in_discussion} {y = i} (ground arith)
        desk_row-IsWellFormed
  | inr n ↦ absurd (ground arith)
]

serve-AreWellFormed_example : AreWellFormed (serve roles history desk)
serve-AreWellFormed_example = serve-AreWellFormed roles history desk desk-AreWellFormed

-- Two factories of 100 and 60; the first has 30 left on day 12. The window is the days 11 and 12.
abbrev plan : World
plan = record empty_world {
  capacities =
      record {
        id = 2;
        factory_id = 1;
        date = 12 * day_ms;
        max_capacity = 100;
        cur_capacity = pos 30;
      }
      ∷ [];
}

abbrev snapshot : Bool → ContextSnapshot
snapshot splittable = record {
  required_quantity = 400;
  window_start = 11;
  window_end = 12;
  factories_considered =
      record { id = 1; max_capacity = 100 } ∷ record { id = 2; max_capacity = 60 } ∷ [];
  due_date = 15 * day_ms;
  config = some (record { splittable = splittable; buffer_days = 1; production_days = 2 });
}

-- 250 in the window and 160 on day 13: due on day 16, a day later.
suggested_split :
    (suggest (snapshot true) plan).earliest_fit
    ≡ record { due_date = some 16; days_delayed = pos 1; search_horizon = 90 }
unfolding suggest ◌-ℤ◌
suggested_split = refl

suggested_whole : (suggest (snapshot false) plan).earliest_fit.due_date ≡ none
unfolding suggest
suggested_whole = refl

suggest-IsSuggestion_example :
    IsSuggestion
      (snapshot true)
      plan
      (suggest (snapshot true) plan)
      (suggest (snapshot true) plan).earliest_fit.due_date
suggest-IsSuggestion_example = suggest-IsSuggestion (snapshot true) plan

suggest-bounds_example :
    ((suggest (snapshot false) plan).max_fit_quantity ≤ 400)
    × All
        (λ (f : FactoryConsidered).
          min
            (capacity_on
              (snapshot false).factories_considered
              (scanned_rows (snapshot false) plan)
              (11 + 1)
              f.id)
            400
          ≤ (suggest (snapshot false) plan).max_fit_quantity)
        (snapshot false).factories_considered
suggest-bounds_example = suggest-bounds (snapshot false) plan 1 refl (omega arith)
