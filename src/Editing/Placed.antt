-- ===== src/Editing/Placed.antt =====
-- What the transaction of modules/schedule/manual-edit-service.ts writes of one order.
use wafer_fabrication_schedu.Base.{
  ℕ, ◌+◌, ◌-◌, ◌≡◌, refl, ◌∙◌, ap, true, ◌||◌, ◌==◌, if◌then◌else◌, Option, none, some, List, [],
  ◌∷◌, map, elem, arith, sum_of, sum_of-append, Bool-cases, inl, inr,
}
use wafer_fabrication_schedu.Dates.{Date}
use wafer_fabrication_schedu.Schedule.Types.{OrderStatus, OrderAssignmentDraft}
use wafer_fabrication_schedu.Store.{World, OrderRow, AssignmentRow, update_where}
use wafer_fabrication_schedu.Store.Rows.{elem-unique_from}
use wafer_fabrication_schedu.Orders.Table.{
  bulk_update_order_status_and_modified_by, bulk_update_order_modified_by,
}
use wafer_fabrication_schedu.Application.{create_assignments}
use wafer_fabrication_schedu.Application.Effects.{draft_of, create_assignments-rows}
use wafer_fabrication_schedu.Editing.Judge.{ValidAction, OldSlot, is_pending_action, assignment_is}
use wafer_fabrication_schedu.Editing.Execute.{
  place_assignment, run_actions, run_action, draft_of_action, pending_actions, action_orders,
  scheduled_orders, remaining_orders, execute_actions,
}
use wafer_fabrication_schedu.Editing.Balance.{run_action-kept, rows_after}
use wafer_fabrication_schedu.Editing.Planned.{places, plans}

-- What the assignments of an order make of it together.
abbrev pub quantity_at : ℕ → AssignmentRow → ℕ
quantity_at id a = if a.order_id == id then a.assigned_quantity else 0

abbrev pub quantity_of : ℕ → World → ℕ
quantity_of id w = sum_of (quantity_at id) w.assignments

-- The status of an order, if it is there.
abbrev pub status_in : ℕ → List OrderRow → Option OrderStatus
status_in id [] = none
status_in id (o ∷ os) = if o.id == id then some o.status else status_in id os

abbrev pub marked : Option OrderStatus → Option OrderStatus
marked none = none
marked (some s) = some OrderStatus.scheduled

-- What an action places of an order.
abbrev pub planned : ℕ → ValidAction → ℕ
planned id a = if places id a then a.qty else 0

abbrev draft_quantity : ℕ → OrderAssignmentDraft → ℕ
draft_quantity id a = if a.order_id == id then a.assigned_quantity else 0

sum_of-place :
    (id i g : ℕ) (d e : Date) (rows : List AssignmentRow)
    → sum_of (quantity_at id) (update_where (assignment_is i) (place_assignment g d e) rows)
      ≡ sum_of (quantity_at id) rows
sum_of-place id i g d e [] = refl
sum_of-place id i g d e (x ∷ xs) = elim (Bool-cases (assignment_is i x)) [
  | inl h ↦ rw h (ap (λ n. quantity_at id x + n) (sum_of-place id i g d e xs))
  | inr h ↦ rw h (ap (λ n. quantity_at id x + n) (sum_of-place id i g d e xs))
]

sum_of-rows_after :
    (id g : ℕ) (d : Date) (old : Option OldSlot) (rows : List AssignmentRow)
    → sum_of (quantity_at id) (rows_after g d old rows) ≡ sum_of (quantity_at id) rows
sum_of-rows_after id g d none rows = refl
sum_of-rows_after id g d (some o) rows =
    sum_of-place id o.assignment_id g d (o.completion_date + d - o.date) rows

run_actions-kept :
    (id : ℕ) (actions : List ValidAction) (w : World)
    → (quantity_of id (run_actions actions w) ≡ quantity_of id w)
      × ((run_actions actions w).orders ≡ w.orders)
unfolding run_actions
run_actions-kept id [] w = (refl, refl)
run_actions-kept id (a ∷ as_) w =
    let one = run_action-kept a w in
    let rest = run_actions-kept id as_ (run_action a w) in
    (
      rest.0
          ∙ ap (sum_of (quantity_at id)) one.0
          ∙ sum_of-rows_after id a.move.factory_id _ a.old w.assignments,
      rest.1 ∙ one.2,
    )

sum_of-drafts :
    (id : ℕ) (rows : List AssignmentRow)
    → sum_of (quantity_at id) rows ≡ sum_of (draft_quantity id) (map draft_of rows)
sum_of-drafts id [] = refl
sum_of-drafts id (x ∷ xs) = ap (λ n. quantity_at id x + n) (sum_of-drafts id xs)

drafts-planned :
    (id : ℕ) (w : World) (actions : List ValidAction)
    → sum_of (draft_quantity id) (map (draft_of_action w) (pending_actions actions))
      ≡ sum_of (planned id) actions
unfolding draft_of_action
drafts-planned id w [] = refl
drafts-planned id w (a ∷ as_) = elim (Bool-cases (is_pending_action a)) [
  | inl e ↦ rw e (ground (arith, drafts-planned id w as_))
  | inr e ↦ rw e (ground (arith, drafts-planned id w as_))
]

-- The new assignments of the order make the quantities of the actions that place it.
pub execute_actions-quantity :
    (id : ℕ) (actions : List ValidAction) (actor_user_id : ℕ) (w : World)
    → quantity_of id (execute_actions actions actor_user_id w)
      ≡ quantity_of id w + sum_of (planned id) actions
unfolding execute_actions
execute_actions-quantity id actions actor_user_id w =
    let moved = run_actions actions w in
    let drafts = map (draft_of_action w) (pending_actions actions) in
    let (rows, added, same, _) = create_assignments-rows drafts moved in
    ap (sum_of (quantity_at id)) added
    ∙ sum_of-append (quantity_at id) moved.assignments rows
    ∙ omega (
      arith,
      (run_actions-kept id actions w).0,
      sum_of-drafts id rows ∙ ap (sum_of (draft_quantity id)) same ∙ drafts-planned id w actions,
    )

elem-pending :
    (id : ℕ) (actions : List ValidAction)
    → elem id (action_orders (pending_actions actions)) ≡ plans id actions
elem-pending id [] = refl
elem-pending id (a ∷ as_) = elim (Bool-cases (is_pending_action a)) [
  | inl e ↦ rw e (ap (λ b. a.order_id == id || b) (elem-pending id as_))
  | inr e ↦ rw e (elem-pending id as_)
]

status_in-modified :
    (id user : ℕ) (ids : List ℕ) (os : List OrderRow)
    → status_in id
        (update_where (λ o. elem o.id ids) (λ o. record o { last_modified_by_id = some user }) os)
      ≡ status_in id os
status_in-modified id user ids [] = refl
status_in-modified id user ids (o ∷ os) = elim (Bool-cases (elem o.id ids)) [
  | inl e ↦
      rw e (ap (λ s. if o.id == id then some o.status else s) (status_in-modified id user ids os))
  | inr e ↦
      rw e (ap (λ s. if o.id == id then some o.status else s) (status_in-modified id user ids os))
]

elem_same : (ids : List ℕ) (i id : ℕ) → (i == id) ≡ true → elem id ids ≡ elem i ids
elem_same ids i id e = ap (λ j. elem j ids) (ground arith)

status_in-marked :
    (id user : ℕ) (ids : List ℕ) (os : List OrderRow)
    → status_in id (
        update_where
          (λ o. elem o.id ids)
          (λ o. record o { status = OrderStatus.scheduled; last_modified_by_id = some user })
          os)
      ≡ (if elem id ids then marked (status_in id os) else status_in id os)
status_in-marked id user ids [] = ground arith
status_in-marked id user ids (o ∷ os) = elim (Bool-cases (o.id == id)) [
  | inl s ↦ elim (Bool-cases (elem o.id ids)) [
    | inl e ↦ let f = elem_same ids o.id id s ∙ e in rw (e, s, f) refl
    | inr e ↦ let f = elem_same ids o.id id s ∙ e in rw (e, s, f) refl
  ]
  | inr s ↦ elim (Bool-cases (elem o.id ids)) [
    | inl e ↦ rw (e, s) (status_in-marked id user ids os)
    | inr e ↦ rw (e, s) (status_in-marked id user ids os)
  ]
]

-- The orders that the actions place are SCHEDULED, and no other status is written.
pub execute_actions-status :
    (id : ℕ) (actions : List ValidAction) (actor_user_id : ℕ) (w : World)
    → status_in id (execute_actions actions actor_user_id w).orders
      ≡ (if plans id actions then marked (status_in id w.orders) else status_in id w.orders)
unfolding execute_actions bulk_update_order_status_and_modified_by bulk_update_order_modified_by
execute_actions-status id actions actor_user_id w =
    let moved = run_actions actions w in
    let drafts = map (draft_of_action w) (pending_actions actions) in
    let (rows, added, same, kept) = create_assignments-rows drafts moved in
    let created = create_assignments drafts moved in
    let ids = scheduled_orders actions in
    status_in-modified id actor_user_id (remaining_orders actions) _
    ∙ status_in-marked id actor_user_id ids created.orders
    ∙ ap (λ os. if elem id ids then marked (status_in id os) else status_in id os)
        (kept ∙ (run_actions-kept id actions w).1)
    ∙ ap (λ b. if b then marked (status_in id w.orders) else status_in id w.orders)
        (elem-unique_from id [] (action_orders (pending_actions actions)) refl
          ∙ elem-pending id actions)
