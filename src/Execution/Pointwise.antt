-- ===== src/Execution/Pointwise.antt =====
-- The daily advancement, row by row: what it does to one assignment, and to one order.
use wafer_fabrication_schedu.Base.{
  ℕ, ◌≡◌, refl, ◌∙◌, ap, Bool, true, ◌&&◌, ◌||◌, not, if◌then◌else◌, Option, none, some, List, [],
  ◌∷◌, ◌++◌, keep, any, elem, map, arith, Bool-cases, inl, inr,
}
use wafer_fabrication_schedu.Base.Sort.{Distinct}
use wafer_fabrication_schedu.Dates.{Date}
use wafer_fabrication_schedu.Schedule.Types.{OrderStatus, AssignmentStatus, eq_status}
use wafer_fabrication_schedu.Store.{World, OrderRow, AssignmentRow}
use wafer_fabrication_schedu.Store.Rows.{
  keys_where, elem-keys_where, update_where-map, map_self, map-congr, keep-keep, keep-map,
  elem-append, elem-unique_from,
}
use wafer_fabrication_schedu.Execution.{
  SystemPatch, set_assignment_status, set_order_status, assignment_key, order_key, of_order,
  assignments_of, ids_of, order_ids_of, mark_assignments, mark_orders, to_complete, to_start,
  all_completed, any_started, completes_order, starts_order, advance_assignments,
  affected_order_ids, advance_orders, is_empty, execute_daily_state_advancement,
}

-- An assignment after the advancement.
abbrev pub advanced : Date → AssignmentRow → AssignmentRow
advanced d a =
    let b = if to_complete d a then set_assignment_status AssignmentStatus.completed a else a in
    if to_start d a then set_assignment_status AssignmentStatus.in_production b else b

-- The assignment is changed by the advancement.
abbrev pub moves : Date → AssignmentRow → Bool
moves d a = to_complete d a || to_start d a

-- The status of an order with these assignments, after the advancement.
abbrev pub status_after : Date → List AssignmentRow → OrderStatus → OrderStatus
status_after d mine s =
    let rows = map (advanced d) mine in
    let started =
      if any_started rows && eq_status s OrderStatus.scheduled
      then OrderStatus.in_production
      else s in
    let decided = if all_completed rows then OrderStatus.completed else started in
    if any (moves d) mine then decided else s

pub advance_assignments-map :
    (d : Date) (rows : List AssignmentRow)
    → Distinct assignment_key rows
    → advance_assignments d rows ≡ map (advanced d) rows
advance_assignments-map d rows h =
    ap
      (λ r.
        mark_assignments (ids_of (keep (to_start d) rows)) AssignmentStatus.in_production
          (mark_assignments (ids_of (keep (to_complete d) rows)) AssignmentStatus.completed r))
      (map_self rows)
    ∙ ap (mark_assignments (ids_of (keep (to_start d) rows)) AssignmentStatus.in_production) (
        update_where-map assignment_key (to_complete d)
          (set_assignment_status AssignmentStatus.completed) (λ a. a)
          (ids_of (keep (to_complete d) rows)) rows (λ a. refl)
          (elem-keys_where assignment_key (to_complete d) rows h))
    ∙ update_where-map assignment_key (to_start d)
        (set_assignment_status AssignmentStatus.in_production)
        (λ a. if to_complete d a then set_assignment_status AssignmentStatus.completed a else a)
        (ids_of (keep (to_start d) rows)) rows (λ a. ground arith)
        (elem-keys_where assignment_key (to_start d) rows h)

-- An order is among the affected ones exactly if one of its assignments is.
any_of :
    (p : AssignmentRow → Bool) (rows : List AssignmentRow) (o : OrderRow)
    → elem o.id (order_ids_of (keep p rows)) ≡ any p (assignments_of rows o)
any_of p [] o = refl
any_of p (x ∷ xs) o = ground (arith, any_of p xs o)

any-or {ℓ} :
    {A : Type ℓ} (p q : A → Bool) (rows : List A)
    → any p rows || any q rows ≡ any (λ x. p x || q x) rows
any-or p q [] = refl
any-or p q (x ∷ xs) = ground (arith, any-or p q xs)

pub elem-affected :
    (p q : AssignmentRow → Bool) (rows : List AssignmentRow) (o : OrderRow)
    → elem o.id (affected_order_ids (keep p rows) (keep q rows))
      ≡ any (λ a. p a || q a) (assignments_of rows o)
elem-affected p q rows o =
    elem-unique_from o.id [] (order_ids_of (keep p rows) ++ order_ids_of (keep q rows)) refl
    ∙ elem-append o.id (order_ids_of (keep p rows)) (order_ids_of (keep q rows))
    ∙ ap (λ b. b || elem o.id (order_ids_of (keep q rows))) (any_of p rows o)
    ∙ ap (λ b. any p (assignments_of rows o) || b) (any_of q rows o)
    ∙ any-or p q (assignments_of rows o)

pub assignments_of-map :
    (f : AssignmentRow → AssignmentRow)
    → ((a : AssignmentRow) → (f a).order_id ≡ a.order_id)
    → (rows : List AssignmentRow) (o : OrderRow)
    → assignments_of (map f rows) o ≡ map f (assignments_of rows o)
assignments_of-map f h rows o = keep-map (of_order o) (of_order o) f (λ a. rw (h a) refl) rows

-- The rows of the second test, after the first.
two_marks :
    (c s : OrderRow → Bool) (x y : OrderStatus) (orders : List OrderRow)
    → Distinct order_key orders
    → mark_orders
        (keys_where order_key s orders)
        y
        (mark_orders (keys_where order_key c orders) x orders)
      ≡ map
          (λ o.
            let p = if c o then set_order_status x o else o in
            if s o then set_order_status y p else p)
          orders
two_marks c s x y orders h =
    ap
      (λ r.
        mark_orders (keys_where order_key s orders) y
          (mark_orders (keys_where order_key c orders) x r))
      (map_self orders)
    ∙ ap (mark_orders (keys_where order_key s orders) y) (
        update_where-map order_key c (set_order_status x) (λ o. o) (keys_where order_key c orders)
          orders (λ o. refl) (elem-keys_where order_key c orders h))
    ∙ update_where-map order_key s (set_order_status y)
        (λ o. if c o then set_order_status x o else o) (keys_where order_key s orders) orders
        (λ o. ground arith) (elem-keys_where order_key s orders h)

abbrev pub advanced_order : Date → List AssignmentRow → OrderRow → OrderRow
advanced_order d rows o = set_order_status (status_after d (assignments_of rows o) o.status) o

decided_row :
    (e c a : Bool) (o : OrderRow)
    → (let done = c && not (eq_status o.status OrderStatus.completed) in
        let starts = not done && a && eq_status o.status OrderStatus.scheduled in
        let p = if e && done then set_order_status OrderStatus.completed o else o in
        if e && starts then set_order_status OrderStatus.in_production p else p)
      ≡ set_order_status
          (let started =
              if a && eq_status o.status OrderStatus.scheduled
              then OrderStatus.in_production
              else o.status in
            let decided = if c then OrderStatus.completed else started in
            if e then decided else o.status)
          o
decided_row e c a o = ground arith

abbrev affected : Date → List AssignmentRow → List ℕ
affected d rows = affected_order_ids (keep (to_complete d) rows) (keep (to_start d) rows)

abbrev after : Date → List AssignmentRow → List AssignmentRow
after d rows = map (advanced d) rows

module _ (d : Date) (rows : List AssignmentRow) (o : OrderRow) where
  order_step :
      (let p =
          if elem o.id (affected d rows) && completes_order (assignments_of (after d rows) o) o
          then set_order_status OrderStatus.completed o
          else o in
        if elem o.id (affected d rows) && starts_order (assignments_of (after d rows) o) o
        then set_order_status OrderStatus.in_production p
        else p)
      ≡ advanced_order d rows o
  order_step =
      rw
        (
          elem-affected (to_complete d) (to_start d) rows o,
          assignments_of-map (advanced d) (λ a. ground arith) rows o,
        )
        (decided_row (any (moves d) (assignments_of rows o))
          (all_completed (map (advanced d) (assignments_of rows o)))
          (any_started (map (advanced d) (assignments_of rows o))) o)

  order_kept : is_empty (affected d rows) ≡ true → o ≡ advanced_order d rows o
  order_kept e = ground (arith, elem-affected (to_complete d) (to_start d) rows o)

advance_orders-map :
    (d : Date) (rows : List AssignmentRow) (orders : List OrderRow)
    → Distinct order_key orders
    → advance_orders (affected d rows) (after d rows) orders ≡ map (advanced_order d rows) orders
advance_orders-map d rows orders h =
    ap
      (λ ids. mark_orders (map order_key ids) OrderStatus.in_production (
        mark_orders
          (map order_key (keep (λ o. completes_order (assignments_of (after d rows) o) o) found))
          OrderStatus.completed orders))
      (keep-keep (λ o. starts_order (assignments_of (after d rows) o) o)
        (λ o. elem o.id (affected d rows)) orders)
    ∙ ap
        (λ ids.
          mark_orders
            (keys_where order_key
              (λ o. elem o.id (affected d rows) && starts_order (assignments_of (after d rows) o) o)
              orders)
            OrderStatus.in_production
            (mark_orders (map order_key ids) OrderStatus.completed orders))
        (keep-keep (λ o. completes_order (assignments_of (after d rows) o) o)
          (λ o. elem o.id (affected d rows)) orders)
    ∙ two_marks
        (λ o. elem o.id (affected d rows) && completes_order (assignments_of (after d rows) o) o)
        (λ o. elem o.id (affected d rows) && starts_order (assignments_of (after d rows) o) o)
        OrderStatus.completed OrderStatus.in_production orders h
    ∙ map-congr _ (advanced_order d rows) (order_step d rows) orders
  where
    found : List OrderRow
    found = keep (λ (o : OrderRow). elem o.id (affected d rows)) orders

execute-tables :
    (d : Date) (patch : Option SystemPatch) (w : World)
    → let w' = (execute_daily_state_advancement d patch w).1 in
      (w'.assignments ≡ advance_assignments d w.assignments)
      × (w'.orders ≡ (
          if is_empty (affected d w.assignments)
          then w.orders
          else advance_orders
              (affected d w.assignments)
              (advance_assignments d w.assignments)
              w.orders))
unfolding execute_daily_state_advancement
execute-tables d none w = elim (Bool-cases (is_empty (affected d w.assignments))) [
  | inl e ↦ (rw e refl, rw e refl)
  | inr e ↦ (rw e refl, rw e refl)
]
execute-tables d (some patch) w = elim (Bool-cases (is_empty (affected d w.assignments))) [
  | inl e ↦ (rw e refl, rw e refl)
  | inr e ↦ (rw e refl, rw e refl)
]

-- The assignments and the orders after the call, row by row.
pub execute-pointwise :
    (d : Date) (patch : Option SystemPatch) (w : World)
    → Distinct assignment_key w.assignments
    → Distinct order_key w.orders
    → let w' = (execute_daily_state_advancement d patch w).1 in
      (w'.assignments ≡ map (advanced d) w.assignments)
      × (w'.orders ≡ map (advanced_order d w.assignments) w.orders)
execute-pointwise d patch w ha ho =
    let t = execute-tables d patch w in
    let marked = advance_assignments-map d w.assignments ha in
    (
      t.0 ∙ marked,
      t.1 ∙ elim (Bool-cases (is_empty (affected d w.assignments))) [
        | inl e ↦ rw e (
            map_self w.orders
            ∙ map-congr (λ o. o) (advanced_order d w.assignments)
                (λ o. order_kept d w.assignments o e) w.orders)
        | inr e ↦ rw (e, marked) (advance_orders-map d w.assignments w.orders ho)
      ],
    )
