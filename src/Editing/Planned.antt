-- ===== src/Editing/Planned.antt =====
-- The orders that a bulk edit of modules/schedule/manual-edit-service.ts places, and what it writes of them.
use wafer_fabrication_schedu.Base.{
  ℕ, ◌≡◌, refl, sym, ◌∙◌, ap, Bool, true, false, ◌&&◌, ◌||◌, ◌==◌, Option, none, some, List, [],
  ◌∷◌, ◌++◌, find, any, arith, Bool-cases, inl, inr,
}
use wafer_fabrication_schedu.Schedule.Types.{
  OrderStatus, eq_status, eq_assignment_status, AssignmentStatus,
}
use wafer_fabrication_schedu.Store.{World, OrderRow, AssignmentRow, ManualEditViolation}
use wafer_fabrication_schedu.Editing.{is_nil}
use wafer_fabrication_schedu.Editing.Judge.{
  AssignmentMove, ValidAction, Verdict, skip, refuse, accept, is_pending_action, order_is,
  assignment_is, judge, judge_by, judge_pending, judge_waiting, judge_order, judge_found,
  judge_with, judge_assignment, check_target, moved_action, pending_action, past_deadline,
  has_factory, order_of, same_slot,
}
use wafer_fabrication_schedu.Editing.Checks.{
  Pass, settle_verdict, accept_action, judge_from, judge_all,
}

-- The move is one of the order: it names no assignment.
abbrev pub names_by : ℕ → Option ℕ → Option ℕ → Bool
names_by id (some a) order_id = false
names_by id none none = false
names_by id none (some i) = i == id

abbrev pub names_order : ℕ → AssignmentMove → Bool
names_order id m = names_by id m.assignment_id m.order_id

-- The action places the order.
abbrev pub places : ℕ → ValidAction → Bool
places id a = is_pending_action a && a.order_id == id

abbrev pub plans : ℕ → List ValidAction → Bool
plans id actions = any (places id) actions

abbrev Fits : ℕ → AssignmentMove → Verdict → Type 0
Fits id m skip = names_order id m ≡ false
Fits id m (refuse v) = Unit {0}
Fits id m (accept a) = places id a ≡ names_order id m

module _ (id : ℕ) (w : World) (m : AssignmentMove) where
  check_target-Fits :
      (t : ℕ) (a : ValidAction) → places id a ≡ names_order id m → Fits id m (check_target w t a)
  unfolding check_target
  check_target-Fits t a h = elim (Bool-cases (past_deadline w a)) [
    | inl p ↦ rw p tt
    | inr p ↦ elim (Bool-cases (has_factory a.move.factory_id w.factories)) [
      | inl f ↦ rw (p, f) h
      | inr f ↦ rw (p, f) tt
    ]
  ]

  judge_assignment-Fits :
      (a : AssignmentRow) (o : OrderRow)
      → names_order id m ≡ false
      → Fits id m (judge_assignment w m a o)
  unfolding judge_assignment
  judge_assignment-Fits a o h = elim (Bool-cases o.is_fixed) [
    | inl f ↦ rw (f, judge_assignment) tt
    | inr f ↦ elim (Bool-cases (eq_assignment_status a.status AssignmentStatus.scheduled)) [
      | inr s ↦ rw (f, s, judge_assignment) tt
      | inl s ↦ elim (Bool-cases (same_slot m a)) [
        | inl e ↦ rw (f, s, e, judge_assignment) h
        | inr e ↦
            rw (f, s, e, judge_assignment) (check_target-Fits a.id (moved_action m a o) (sym h))
      ]
    ]
  ]

  judge_order-Fits :
      (o : OrderRow) → names_order id m ≡ (o.id == id) → Fits id m (judge_order w m o)
  unfolding judge_order
  judge_order-Fits o h = elim (Bool-cases o.is_fixed) [
    | inl f ↦ rw (f, judge_order) tt
    | inr f ↦ elim (Bool-cases (eq_status o.status OrderStatus.pending)) [
      | inr s ↦ rw (f, s, judge_order) tt
      | inl s ↦ rw (f, s, judge_order) (check_target-Fits o.id (pending_action m o) (sym h))
    ]
  ]

  judge_with-Fits :
      (a : AssignmentRow) (o : Option OrderRow)
      → names_order id m ≡ false
      → Fits id m (judge_with w m a o)
  unfolding judge_with
  judge_with-Fits a none h = tt
  judge_with-Fits a (some o) h = judge_assignment-Fits a o h

  judge_found-Fits :
      (i : ℕ) (a : Option AssignmentRow)
      → names_order id m ≡ false
      → Fits id m (judge_found w m i a)
  unfolding judge_found
  judge_found-Fits i none h = tt
  judge_found-Fits i (some a) h = judge_with-Fits a (order_of w a) h

  judge_waiting-Fits :
      (i : ℕ) (o : Option OrderRow)
      → ((x : OrderRow) → o ≡ some x → x.id ≡ i)
      → names_order id m ≡ (i == id)
      → Fits id m (judge_waiting w m i o)
  unfolding judge_waiting
  judge_waiting-Fits i none f h = tt
  judge_waiting-Fits i (some o) f h = judge_order-Fits o (h ∙ ap (λ j. j == id) (sym (f o refl)))

found_is : (id : ℕ) (os : List OrderRow) (o : OrderRow) → find (order_is id) os ≡ some o → o.id ≡ id
found_is id [] o e = cc
found_is id (x ∷ xs) o e = ground (arith, found_is id xs o)

judge_pending-Fits :
    (id : ℕ) (w : World) (m : AssignmentMove) (b : Option ℕ)
    → names_order id m ≡ names_by id none b
    → Fits id m (judge_pending w m b)
unfolding judge_pending
judge_pending-Fits id w m none h = h
judge_pending-Fits id w m (some i) h =
    judge_waiting-Fits id w m i (find (order_is i) w.orders) (found_is i w.orders) h

judge_by-Fits :
    (id : ℕ) (w : World) (m : AssignmentMove) (a : Option ℕ)
    → names_order id m ≡ names_by id a m.order_id
    → Fits id m (judge_by w m a)
unfolding judge_by
judge_by-Fits id w m (some i) h = judge_found-Fits id w m i (find (assignment_is i) w.assignments) h
judge_by-Fits id w m none h = judge_pending-Fits id w m m.order_id h

judge-Fits : (id : ℕ) (w : World) (m : AssignmentMove) → Fits id m (judge w m)
unfolding judge
judge-Fits id w m = judge_by-Fits id w m m.assignment_id refl

nil_first : (vs us : List ManualEditViolation) → is_nil (vs ++ us) ≡ true → is_nil vs ≡ true
nil_first [] us h = refl
nil_first (v ∷ vs) us h = cc

nil_settled :
    (v : Verdict) (p : Pass)
    → is_nil (settle_verdict v p).violations ≡ true
    → is_nil p.violations ≡ true
unfolding accept_action
nil_settled skip p h = h
nil_settled (refuse v) p h = nil_first p.violations (v ∷ []) h
nil_settled (accept a) p h = h

nil_before :
    (w : World) (moves : List AssignmentMove) (p : Pass)
    → is_nil (judge_from w moves p).violations ≡ true
    → is_nil p.violations ≡ true
unfolding judge_from
nil_before w [] p h = h
nil_before w (m ∷ ms) p h =
    nil_settled (judge w m) p (nil_before w ms (settle_verdict (judge w m) p) h)

any-snoc {ℓ} :
    {A : Type ℓ} (p : A → Bool) (xs : List A) (x : A) → any p (xs ++ x ∷ []) ≡ (any p xs || p x)
any-snoc p [] x = ground arith
any-snoc p (y ∷ ys) x = ground (arith, any-snoc p ys x)

not_nil : (vs : List ManualEditViolation) (v : ManualEditViolation) → is_nil (vs ++ v ∷ []) ≡ false
not_nil [] v = refl
not_nil (u ∷ us) v = refl

plans-settled :
    (id : ℕ) (m : AssignmentMove) (v : Verdict) (p : Pass)
    → Fits id m v
    → is_nil (settle_verdict v p).violations ≡ true
    → plans id (settle_verdict v p).actions ≡ (plans id p.actions || names_order id m)
unfolding accept_action
plans-settled id m skip p f h = ground (arith, f)
plans-settled id m (refuse v) p f h = absurd (cc (not_nil p.violations v))
plans-settled id m (accept a) p f h =
    any-snoc (places id) p.actions a ∙ ap (λ b. plans id p.actions || b) f

or_assoc : (a b c : Bool) → (a || (b || c)) ≡ ((a || b) || c)
or_assoc a b c = ground arith

-- Without a violation, the actions place the orders that the moves name.
plans-judge_from :
    (id : ℕ) (w : World) (moves : List AssignmentMove) (p : Pass)
    → is_nil (judge_from w moves p).violations ≡ true
    → plans id (judge_from w moves p).actions ≡ (plans id p.actions || any (names_order id) moves)
unfolding judge_from
plans-judge_from id w [] p h = ground arith
plans-judge_from id w (m ∷ ms) p h =
    let q = settle_verdict (judge w m) p in
    plans-judge_from id w ms q h
    ∙ ap (λ b. b || any (names_order id) ms)
        (plans-settled id m (judge w m) p (judge-Fits id w m) (nil_before w ms q h))
    ∙ sym (or_assoc (plans id p.actions) (names_order id m) (any (names_order id) ms))

pub plans-judge_all :
    (id : ℕ) (w : World) (moves : List AssignmentMove)
    → is_nil (judge_all w moves).violations ≡ true
    → plans id (judge_all w moves).actions ≡ any (names_order id) moves
unfolding judge_all
plans-judge_all id w moves h = plans-judge_from id w moves _ h
