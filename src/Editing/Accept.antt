-- ===== src/Editing/Accept.antt =====
-- What a move that modules/schedule/manual-edit-service.ts accepts satisfies.
use wafer_fabrication_schedu.Base.{
  ℕ, ◌≡◌, refl, sym, ◌∙◌, ap, true, false, Option, none, some, List, [], ◌∷◌, find, arith,
  Bool-cases, inl, inr,
}
use wafer_fabrication_schedu.Schedule.Types.{
  OrderStatus, AssignmentStatus, eq_status, eq_assignment_status,
}
use wafer_fabrication_schedu.Store.{World, AssignmentRow, OrderRow}
use wafer_fabrication_schedu.Editing.Judge.{
  AssignmentMove, OldSlot, ValidAction, Verdict, skip, refuse, accept, assignment_is, order_is,
  judge, judge_with, judge_found, judge_waiting, judge_pending, judge_by, judge_assignment,
  judge_order, check_target, moved_action, pending_action, same_slot, order_of, past_deadline,
  has_factory,
}
use wafer_fabrication_schedu.Editing.{id_list}
use wafer_fabrication_schedu.Editing.Balance.{Ready, old_ids}

-- The order of an action may be edited: it is not fixed, and it waits if the action places it.
abbrev pub StatusFits : Option OldSlot → OrderStatus → Type 0
StatusFits none s = s ≡ OrderStatus.pending
StatusFits (some o) s = Unit

pub record IsAccepted (w : World) (m : AssignmentMove) (a : ValidAction) : Type 0 where
  pub move : a.move ≡ m
  pub ready : Ready w.assignments a
  pub ids : old_ids a.old ≡ id_list m.assignment_id
  pub in_time : past_deadline w a ≡ false
  pub factory : has_factory a.move.factory_id w.factories ≡ true
  pub order :
      (o : OrderRow) × (find (order_is a.order_id) w.orders ≡ some o)
      × (o.is_fixed ≡ false)
      × (o.type ≡ a.order_type)
      × StatusFits a.old o.status

abbrev pub AcceptedBy : World → AssignmentMove → Verdict → Type 0
AcceptedBy w m skip = Unit
AcceptedBy w m (refuse v) = Unit
AcceptedBy w m (accept a) = IsAccepted w m a

check_target-AcceptedBy :
    (w : World) (m : AssignmentMove) (t : ℕ) (a : ValidAction)
    → (past_deadline w a ≡ false
        → has_factory a.move.factory_id w.factories ≡ true
        → IsAccepted w m a)
    → AcceptedBy w m (check_target w t a)
unfolding check_target
check_target-AcceptedBy w m t a k = elim (Bool-cases (past_deadline w a)) [
  | inl p ↦ rw p tt
  | inr p ↦ elim (Bool-cases (has_factory a.move.factory_id w.factories)) [
    | inl h ↦ rw (p, h) (k p h)
    | inr h ↦ rw (p, h) tt
  ]
]

assignment_status_sound : (s t : AssignmentStatus) → eq_assignment_status s t ≡ true → s ≡ t
assignment_status_sound s t h = ground arith

status_sound : (s t : OrderStatus) → eq_status s t ≡ true → s ≡ t
status_sound s t h = ground arith

found_assignment :
    (id : ℕ) (rows : List AssignmentRow) (a : AssignmentRow)
    → find (assignment_is id) rows ≡ some a
    → a.id ≡ id
found_assignment id [] a e = cc
found_assignment id (x ∷ xs) a e = ground (arith, found_assignment id xs a)

found_order :
    (id : ℕ) (rows : List OrderRow) (o : OrderRow) → find (order_is id) rows ≡ some o → o.id ≡ id
found_order id [] o e = cc
found_order id (x ∷ xs) o e = ground (arith, found_order id xs o)

judge_assignment-AcceptedBy :
    (w : World) (m : AssignmentMove) (id : ℕ) (a : AssignmentRow) (o : OrderRow)
    → m.assignment_id ≡ some id
    → find (assignment_is id) w.assignments ≡ some a
    → order_of w a ≡ some o
    → AcceptedBy w m (judge_assignment w m a o)
unfolding judge_assignment
judge_assignment-AcceptedBy w m id a o i e f = elim (Bool-cases o.is_fixed) [
  | inl x ↦ rw x tt
  | inr x ↦ elim (Bool-cases (eq_assignment_status a.status AssignmentStatus.scheduled)) [
    | inr s ↦ rw (x, s) tt
    | inl s ↦ elim (Bool-cases (same_slot m a)) [
      | inl t ↦ rw (x, s, t) tt
      | inr t ↦
          let same = found_assignment id w.assignments a e in
          rw (x, s, t)
            (check_target-AcceptedBy w m a.id (moved_action m a o) (λ p h. record {
              move = refl;
              ready = (
                a,
                ap (λ j. find (assignment_is j) w.assignments) same ∙ e,
                assignment_status_sound a.status AssignmentStatus.scheduled s,
                refl,
                refl,
                refl,
              );
              ids = ap (λ j. j ∷ []) same ∙ ap id_list (sym i);
              in_time = p;
              factory = h;
              order = (o, f, x, refl, tt);
            }))
    ]
  ]
]

judge_order-AcceptedBy :
    (w : World) (m : AssignmentMove) (id : ℕ) (o : OrderRow)
    → m.assignment_id ≡ none
    → find (order_is id) w.orders ≡ some o
    → AcceptedBy w m (judge_order w m o)
unfolding judge_order
judge_order-AcceptedBy w m id o i e = elim (Bool-cases o.is_fixed) [
  | inl x ↦ rw x tt
  | inr x ↦ elim (Bool-cases (eq_status o.status OrderStatus.pending)) [
    | inr s ↦ rw (x, s) tt
    | inl s ↦
        rw (x, s)
          (check_target-AcceptedBy w m o.id (pending_action m o) (λ p h. record {
            move = refl;
            ready = tt;
            ids = ap id_list (sym i);
            in_time = p;
            factory = h;
            order = (
              o,
              ap (λ j. find (order_is j) w.orders) (found_order id w.orders o e) ∙ e,
              x,
              refl,
              status_sound o.status OrderStatus.pending s,
            );
          }))
  ]
]

judge_with-AcceptedBy :
    (w : World) (m : AssignmentMove) (id : ℕ) (a : AssignmentRow) (o : Option OrderRow)
    → m.assignment_id ≡ some id
    → find (assignment_is id) w.assignments ≡ some a
    → order_of w a ≡ o
    → AcceptedBy w m (judge_with w m a o)
unfolding judge_with
judge_with-AcceptedBy w m id a none i e f = tt
judge_with-AcceptedBy w m id a (some o) i e f = judge_assignment-AcceptedBy w m id a o i e f

judge_found-AcceptedBy :
    (w : World) (m : AssignmentMove) (id : ℕ) (a : Option AssignmentRow)
    → m.assignment_id ≡ some id
    → find (assignment_is id) w.assignments ≡ a
    → AcceptedBy w m (judge_found w m id a)
unfolding judge_found
judge_found-AcceptedBy w m id none i e = tt
judge_found-AcceptedBy w m id (some a) i e = judge_with-AcceptedBy w m id a (order_of w a) i e refl

judge_waiting-AcceptedBy :
    (w : World) (m : AssignmentMove) (id : ℕ) (o : Option OrderRow)
    → m.assignment_id ≡ none
    → find (order_is id) w.orders ≡ o
    → AcceptedBy w m (judge_waiting w m id o)
unfolding judge_waiting
judge_waiting-AcceptedBy w m id none i e = tt
judge_waiting-AcceptedBy w m id (some o) i e = judge_order-AcceptedBy w m id o i e

judge_pending-AcceptedBy :
    (w : World) (m : AssignmentMove) (id : Option ℕ)
    → m.assignment_id ≡ none
    → AcceptedBy w m (judge_pending w m id)
unfolding judge_pending
judge_pending-AcceptedBy w m none i = tt
judge_pending-AcceptedBy w m (some id) i =
    judge_waiting-AcceptedBy w m id (find (order_is id) w.orders) i refl

judge_by-AcceptedBy :
    (w : World) (m : AssignmentMove) (id : Option ℕ)
    → m.assignment_id ≡ id
    → AcceptedBy w m (judge_by w m id)
unfolding judge_by
judge_by-AcceptedBy w m none i = judge_pending-AcceptedBy w m m.order_id i
judge_by-AcceptedBy w m (some id) i =
    judge_found-AcceptedBy w m id (find (assignment_is id) w.assignments) i refl

-- A move that is accepted is an action of it, on what the tables hold.
pub judge-AcceptedBy : (w : World) (m : AssignmentMove) → AcceptedBy w m (judge w m)
unfolding judge
judge-AcceptedBy w m = judge_by-AcceptedBy w m m.assignment_id refl
