-- ===== src/Editing/Split.antt =====
-- Orders that wait and are split over several slots by one bulk edit.
use wafer_fabrication_schedu.Base.{
  ℕ, ◌+◌, ◌≡◌, refl, sym, ◌∙◌, ap, Bool, true, false, ◌||◌, ◌==◌, if◌then◌else◌, List, [], ◌∷◌,
  ◌++◌, arith, any, sum_of, Bool-cases, inl, inr,
}
use wafer_fabrication_schedu.Store.{World, ManualEditViolation, ok}
use wafer_fabrication_schedu.Editing.{is_nil, edit_in_lock}
use wafer_fabrication_schedu.Application.{raise_versions}
use wafer_fabrication_schedu.Application.Effects.{raise_versions-tables}
use wafer_fabrication_schedu.Editing.Execute.{execute_actions}
use wafer_fabrication_schedu.Editing.Planned.{places, plans, names_order, plans-judge_all}
use wafer_fabrication_schedu.Editing.Placed.{
  quantity_at, quantity_of, planned, status_in, marked, execute_actions-quantity,
  execute_actions-status,
}
use wafer_fabrication_schedu.Editing.Judge.{AssignmentMove, ValidAction, is_pending_action}
use wafer_fabrication_schedu.Editing.Checks.{
  Pass, PendingEntry, entry_is, enter_pending, pending_entries, original_quantity, split_violations,
  capacity_violations, all_violations, judge_all,
}

abbrev total_at : ℕ → List PendingEntry → ℕ
total_at id [] = 0
total_at id (e ∷ es) = if entry_is id e then e.total else total_at id es

total_at-enter_pending :
    (id : ℕ) (a : ValidAction) (es : List PendingEntry)
    → total_at id (enter_pending a es)
      ≡ (if a.order_id == id then total_at id es + a.qty else total_at id es)
unfolding enter_pending
total_at-enter_pending id a [] = ground arith
total_at-enter_pending id a (e ∷ es) = ground (arith, total_at-enter_pending id a es)

any-enter_pending :
    (id : ℕ) (a : ValidAction) (es : List PendingEntry)
    → any (entry_is id) (enter_pending a es) ≡ (a.order_id == id || any (entry_is id) es)
unfolding enter_pending
any-enter_pending id a [] = refl
any-enter_pending id a (e ∷ es) = ground (arith, any-enter_pending id a es)

total_at-pending_entries :
    (id : ℕ) (actions : List ValidAction) (es : List PendingEntry)
    → total_at id (pending_entries actions es).0 ≡ total_at id es + sum_of (planned id) actions
unfolding pending_entries
total_at-pending_entries id [] es = omega arith
total_at-pending_entries id (a ∷ as_) es = elim (Bool-cases (is_pending_action a)) [
  | inl e ↦ rw e (
      ground (
        arith,
        total_at-pending_entries id as_ (enter_pending a es),
        total_at-enter_pending id a es,
      ))
  | inr e ↦ rw e (ground (arith, total_at-pending_entries id as_ es))
]

any-pending_entries :
    (id : ℕ) (actions : List ValidAction) (es : List PendingEntry)
    → any (entry_is id) (pending_entries actions es).0 ≡ (any (entry_is id) es || plans id actions)
unfolding pending_entries
any-pending_entries id [] es = ground arith
any-pending_entries id (a ∷ as_) es = elim (Bool-cases (is_pending_action a)) [
  | inl e ↦
      rw e
        (ground (arith, any-pending_entries id as_ (enter_pending a es), any-enter_pending id a es))
  | inr e ↦ rw e (ground (arith, any-pending_entries id as_ es))
]

eq_of_test : {m n : ℕ} → (m == n) ≡ true → m ≡ n
eq_of_test h = ground arith

drop_first :
    (b : Bool) (v : ManualEditViolation) (vs : List ManualEditViolation)
    → is_nil (if b then vs else v ∷ vs) ≡ true
    → is_nil vs ≡ true
drop_first true v vs h = h
drop_first false v vs h = cc

split_violations_none :
    (w : World) (id : ℕ) (es : List PendingEntry)
    → is_nil (split_violations w es) ≡ true
    → any (entry_is id) es ≡ true
    → total_at id es ≡ original_quantity w id
unfolding split_violations
split_violations_none w id [] h e = cc
split_violations_none w id (x ∷ xs) h e = elim (Bool-cases (entry_is id x)) [
  | inl m ↦ elim (Bool-cases (x.total == original_quantity w x.order_id)) [
    | inl t ↦ rw m (eq_of_test t ∙ ap (original_quantity w) (eq_of_test m))
    | inr t ↦ cc
  ]
  | inr m ↦ rw m (
      split_violations_none w id xs
        (drop_first (x.total == original_quantity w x.order_id) _ (split_violations w xs) h)
        (ground arith))
]

nil_middle :
    (xs ys zs us : List ManualEditViolation)
    → is_nil (xs ++ ys ++ zs ++ us) ≡ true
    → is_nil zs ≡ true
nil_middle [] [] [] us h = refl
nil_middle [] [] (z ∷ zs) us h = cc
nil_middle [] (y ∷ ys) zs us h = cc
nil_middle (x ∷ xs) ys zs us h = cc

planned_none :
    (id : ℕ) (actions : List ValidAction)
    → plans id actions ≡ false
    → sum_of (planned id) actions ≡ 0
planned_none id [] h = refl
planned_none id (a ∷ as_) h = elim (Bool-cases (places id a)) [
  | inl e ↦ cc
  | inr e ↦ rw e (omega (arith, planned_none id as_ (ground arith)))
]

-- Without a violation, the actions make the whole quantity of each order that they place.
planned_whole :
    (id : ℕ) (w : World) (p : Pass)
    → is_nil (all_violations w p) ≡ true
    → sum_of (planned id) p.actions ≡ (if plans id p.actions then original_quantity w id else 0)
unfolding all_violations
planned_whole id w p v =
    let entries = (pending_entries p.actions []).0 in
    elim (Bool-cases (plans id p.actions)) [
      | inr e ↦ rw e (planned_none id p.actions e)
      | inl e ↦ rw e (
          omega (
            arith,
            total_at-pending_entries id p.actions [],
            split_violations_none w id entries
                (nil_middle p.violations (pending_entries p.actions []).1
                  (split_violations w entries) (capacity_violations w p.moves_into_slot p.deltas) v)
                (any-pending_entries id p.actions [] ∙ e),
          ))
    ]

nil_start :
    (xs ys zs us : List ManualEditViolation)
    → is_nil (xs ++ ys ++ zs ++ us) ≡ true
    → is_nil xs ≡ true
nil_start [] ys zs us h = refl
nil_start (x ∷ xs) ys zs us h = cc

-- Without a violation, the actions place the orders that the moves name.
named :
    (id : ℕ) (w : World) (moves : List AssignmentMove)
    → is_nil (all_violations w (judge_all w moves)) ≡ true
    → plans id (judge_all w moves).actions ≡ any (names_order id) moves
unfolding all_violations
named id w moves v =
    let p = judge_all w moves in
    let (entries, duplicates) = pending_entries p.actions [] in
    plans-judge_all id w moves (
      nil_start p.violations duplicates (split_violations w entries)
        (capacity_violations w p.moves_into_slot p.deltas) v)

-- What an edit leaves of an order, by whether it places the order.
abbrev pub HasPlaced : ℕ → Bool → World → World → Type 0
HasPlaced id placed w v =
    (quantity_of id v ≡ quantity_of id w + (if placed then original_quantity w id else 0))
    × (status_in id v.orders
        ≡ (if placed then marked (status_in id w.orders) else status_in id w.orders))

executed-HasPlaced :
    (id : ℕ) (p : Pass) (actor_user_id : ℕ) (types : List ℕ) (w : World)
    → is_nil (all_violations w p) ≡ true
    → HasPlaced id
        (plans id p.actions)
        w
        (raise_versions types (execute_actions p.actions actor_user_id w))
executed-HasPlaced id p actor_user_id types w v =
    let tables = raise_versions-tables types (execute_actions p.actions actor_user_id w) in
    (
      ap (sum_of (quantity_at id)) tables.0
          ∙ execute_actions-quantity id p.actions actor_user_id w
          ∙ ap (λ n. quantity_of id w + n) (planned_whole id w p v),
      ap (status_in id) tables.1 ∙ execute_actions-status id p.actions actor_user_id w,
    )

plans-nil : (id : ℕ) (actions : List ValidAction) → is_nil actions ≡ true → plans id actions ≡ false
plans-nil id [] h = refl
plans-nil id (a ∷ as_) h = cc

-- If a bulk edit returns, the assignments of an order that a move names by `orderId`, with no
-- `assignmentId`, have the whole quantity of the order more than before, split over its moves, and the
-- order is SCHEDULED. The sum of the assignments of any other order, and its status, are as before.
pub edit_in_lock-planned :
    (id n : ℕ) (moves : List AssignmentMove) (actor_user_id : ℕ) (types : List ℕ) (w : World)
    → (edit_in_lock moves actor_user_id types w).0 ≡ ok n
    → HasPlaced id (any (names_order id) moves) w (edit_in_lock moves actor_user_id types w).1
unfolding edit_in_lock
edit_in_lock-planned id n moves actor_user_id types w h =
    let p = judge_all w moves in
    elim (Bool-cases (is_nil (all_violations w p))) [
      | inr v ↦ cc
      | inl v ↦ elim (Bool-cases (is_nil p.actions)) [
        | inl a ↦ rw (v, a, sym (named id w moves v) ∙ plans-nil id p.actions a) (omega arith, refl)
        | inr a ↦
            rw (v, a, sym (named id w moves v)) (executed-HasPlaced id p actor_user_id types w v)
      ]
    ]
