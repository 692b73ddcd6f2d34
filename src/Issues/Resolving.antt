-- ===== src/Issues/Resolving.antt =====
-- What `acceptProposal` of modules/order/conflict-issue-service.ts makes of one order and of the comments.
use wafer_fabrication_schedu.Base.{
  ℕ, ◌≡◌, ◌≤◌, ◌<◌, refl, ◌==◌, ltb, leb, ◌*◌, true, false, ◌&&◌, if◌then◌else◌, Option, none, some,
  List, [], ◌∷◌, find, arith, All, Bool-cases, inl, inr,
}
use wafer_fabrication_schedu.Dates.{day_of, day_ms}
use wafer_fabrication_schedu.Schedule.Types.{OrderStatus}
use wafer_fabrication_schedu.Store.{
  World, OrderRow, CommentRow, Proposal, ProposalData, ProposalKind, reduce_quantity,
  delay_due_date, cancel, ProposalStatus, ConflictResolution, bad_request, invalid_input,
  update_where, pure,
}
use wafer_fabrication_schedu.Auth.{AuthUser}
use wafer_fabrication_schedu.Orders.Status.{
  validate_order_quantity, order_min_quantity, order_max_quantity,
}
use wafer_fabrication_schedu.Orders.Table.{UpdateOrderInput, order_has_id, patch_order}
use wafer_fabrication_schedu.Issues.Table.{
  comment_has_id, is_pending, has_pending, set_status, with_status, is_other_pending,
}
use wafer_fabrication_schedu.Issues.Proposals.{change_of, truthy, safe_fields}
use wafer_fabrication_schedu.Issues.Rules.{Ends, Passes, guard-Ends, require-Ends}

-- What a proposal asks of an order, by its kind.
abbrev pub IsProposed : ProposalKind → Proposal → OrderRow → OrderRow → Type 0
IsProposed reduce_quantity p o o' =
    (p.new_quantity ≡ some o'.quantity)
    × (25 ≤ o'.quantity)
    × (o'.quantity ≤ 2500)
    × (o'.due_date ≡ o.due_date)
    × (o'.status ≡ OrderStatus.pending)
IsProposed delay_due_date p o o' =
    (day : ℕ) × (p.new_due_date ≡ some day)
    × (o'.due_date ≡ day * day_ms)
    × (day_of o.due_date < day)
    × (o'.quantity ≡ o.quantity)
    × (o'.status ≡ OrderStatus.pending)
IsProposed cancel p o o' =
    (o'.quantity ≡ o.quantity) × (o'.due_date ≡ o.due_date) × (o'.status ≡ OrderStatus.cancelled)

truthy-some : (o : Option ℕ) (q : ℕ) → truthy o ≡ some q → o ≡ some q
truthy-some none q h = cc
truthy-some (some n) q h = ground arith

abbrev pub Changes :
    OrderRow → Proposal → ProposalKind → UpdateOrderInput × ConflictResolution → Type 0
Changes o p k (input, r) = IsProposed k p o (patch_order input o)

pub change_of-Passes :
    (user : AuthUser) (o : OrderRow) (p : Proposal) (k : ProposalKind) (w : World)
    → Ends (Passes (Changes o p k) w) (change_of user o p k w)
unfolding change_of validate_order_quantity
change_of-Passes user o p reduce_quantity w =
    let Q = Passes (Changes o p reduce_quantity) w in
    require-Ends Q (truthy p.new_quantity) bad_request _ w (λ d. refl)
      (λ q e.
        guard-Ends Q (leb order_min_quantity q && leb q order_max_quantity) invalid_input
          (pure (
            safe_fields user OrderStatus.pending (some q) none,
            ConflictResolution.reduced_quantity,
          ))
          w (λ d. refl)
          (λ g. (refl, (truthy-some p.new_quantity q e, ground arith, ground arith, refl, refl))))
change_of-Passes user o p delay_due_date w =
    let Q = Passes (Changes o p delay_due_date) w in
    require-Ends Q p.new_due_date bad_request _ w (λ d. refl)
      (λ day e.
        guard-Ends Q (ltb (day_of o.due_date) day) bad_request
          (pure (
            safe_fields user OrderStatus.pending none (some (day * day_ms)),
            ConflictResolution.delayed_due_date,
          ))
          w (λ d. refl) (λ g. (refl, (day, e, refl, ground arith, refl, refl))))
change_of-Passes user o p cancel w = (refl, (refl, refl, refl))

-- The comments after an acceptance.
abbrev pub resolved_comments : ℕ → ℕ → List CommentRow → List CommentRow
resolved_comments issue_id id cs =
    update_where (is_other_pending issue_id id) (with_status ProposalStatus.stale)
      (update_where (comment_has_id id) (with_status ProposalStatus.accepted) cs)

not_pending :
    (s : ProposalStatus) (p : Option ProposalData)
    → is_pending s ≡ false
    → has_pending (set_status s p) ≡ false
not_pending s none h = refl
not_pending s (some p) h = h

staled :
    (issue_id id : ℕ) (x : CommentRow)
    → ((x.id == id) ≡ true → has_pending x.proposal ≡ false)
    → let y = if is_other_pending issue_id id x then with_status ProposalStatus.stale x else x in
      (y.issue_id ≡ issue_id → has_pending y.proposal ≡ false)
staled issue_id id x k = elim (Bool-cases (is_other_pending issue_id id x)) [
  | inl e ↦ rw e (λ h. not_pending ProposalStatus.stale x.proposal refl)
  | inr e ↦ rw e (λ h. elim (Bool-cases (x.id == id)) [ inl y ↦ k y | inr n ↦ ground arith ])
]

first_step :
    (id : ℕ) (c : CommentRow)
    → let y = if comment_has_id id c then with_status ProposalStatus.accepted c else c in
      ((y.id == id) ≡ true → has_pending y.proposal ≡ false)
first_step id c = elim (Bool-cases (c.id == id)) [
  | inl e ↦ rw e (λ h. not_pending ProposalStatus.accepted c.proposal refl)
  | inr e ↦ rw e (λ h. absurd (ground arith))
]

pub none_pending :
    (issue_id id : ℕ) (cs : List CommentRow)
    → All
        (λ (c : CommentRow). c.issue_id ≡ issue_id → has_pending c.proposal ≡ false)
        (resolved_comments issue_id id cs)
none_pending issue_id id [] = tt
none_pending issue_id id (c ∷ cs) = (
  staled issue_id id (if comment_has_id id c then with_status ProposalStatus.accepted c else c)
      (first_step id c),
  none_pending issue_id id cs,
)

pub accepted_found :
    (issue_id id : ℕ) (cs : List CommentRow) (c : CommentRow)
    → find (comment_has_id id) cs ≡ some c
    → find (comment_has_id id) (resolved_comments issue_id id cs)
      ≡ some (with_status ProposalStatus.accepted c)
accepted_found issue_id id [] c h = cc
accepted_found issue_id id (x ∷ xs) c h = elim (Bool-cases (x.id == id)) [
  | inl e ↦ ground arith
  | inr e ↦ ground (arith, accepted_found issue_id id xs c)
]

pub found_changed :
    (id : ℕ) (input : UpdateOrderInput) (os : List OrderRow) (o : OrderRow)
    → find (order_has_id id) os ≡ some o
    → find (order_has_id id) (update_where (order_has_id id) (patch_order input) os)
      ≡ some (patch_order input o)
found_changed id input [] o h = cc
found_changed id input (x ∷ xs) o h = elim (Bool-cases (x.id == id)) [
  | inl e ↦ ground arith
  | inr e ↦ ground (arith, found_changed id input xs o)
]
