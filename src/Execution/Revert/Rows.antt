-- ===== src/Execution/Revert/Rows.antt =====
-- The reversal, row by row: what it does to one assignment, and to one order.
use wafer_fabrication_schedu.Base.{
  ℕ, ◌≡◌, refl, ◌∙◌, ap, Bool, true, false, ◌&&◌, ◌||◌, not, if◌then◌else◌, Option, none, some,
  List, [], ◌∷◌, keep, any, elem, map, arith, Bool-cases, inl, inr,
}
use wafer_fabrication_schedu.Base.Sort.{Distinct}
use wafer_fabrication_schedu.Dates.{Date}
use wafer_fabrication_schedu.Schedule.Types.{OrderStatus, AssignmentStatus, eq_status}
use wafer_fabrication_schedu.Store.{World, OrderRow, AssignmentRow}
use wafer_fabrication_schedu.Store.Rows.{
  keys_where, elem-keys_where, update_where-map, map_self, map-congr, keep-keep,
}
use wafer_fabrication_schedu.Execution.{
  SystemPatch, set_assignment_status, set_order_status, assignment_key, order_key, assignments_of,
  ids_of, mark_assignments, mark_orders, all_completed, any_started, completes_order,
  affected_order_ids, is_empty,
}
use wafer_fabrication_schedu.Execution.Pointwise.{assignments_of-map, elem-affected}
use wafer_fabrication_schedu.Execution.Revert.{
  to_scheduled, to_in_production, revert_assignments, sets_in_production, sets_scheduled,
  revert_orders, revert_simulation_statuses,
}

abbrev pub reverted : Date → AssignmentRow → AssignmentRow
reverted t a =
    let b = if to_scheduled t a then set_assignment_status AssignmentStatus.scheduled a else a in
    if to_in_production t a then set_assignment_status AssignmentStatus.in_production b else b

abbrev pub reverts : Date → AssignmentRow → Bool
reverts t a = to_in_production t a || to_scheduled t a

-- The status of an order with these assignments, after the reversal.
abbrev pub status_reverted : Date → List AssignmentRow → OrderStatus → OrderStatus
status_reverted t mine s =
    let rows = map (reverted t) mine in
    let decided =
      if all_completed rows
      then OrderStatus.completed
      else (if any_started rows then OrderStatus.in_production else OrderStatus.scheduled) in
    if any (reverts t) mine then decided else s

abbrev pub reverted_order : Date → List AssignmentRow → OrderRow → OrderRow
reverted_order t rows o = set_order_status (status_reverted t (assignments_of rows o) o.status) o

revert_assignments-map :
    (t : Date) (rows : List AssignmentRow)
    → Distinct assignment_key rows
    → revert_assignments t rows ≡ map (reverted t) rows
revert_assignments-map t rows h =
    ap
      (λ r.
        mark_assignments (ids_of (keep (to_in_production t) rows)) AssignmentStatus.in_production
          (mark_assignments (ids_of (keep (to_scheduled t) rows)) AssignmentStatus.scheduled r))
      (map_self rows)
    ∙ ap (mark_assignments (ids_of (keep (to_in_production t) rows)) AssignmentStatus.in_production)
        (update_where-map assignment_key (to_scheduled t)
          (set_assignment_status AssignmentStatus.scheduled) (λ a. a)
          (ids_of (keep (to_scheduled t) rows)) rows (λ a. refl)
          (elem-keys_where assignment_key (to_scheduled t) rows h))
    ∙ update_where-map assignment_key (to_in_production t)
        (set_assignment_status AssignmentStatus.in_production)
        (λ a. if to_scheduled t a then set_assignment_status AssignmentStatus.scheduled a else a)
        (ids_of (keep (to_in_production t) rows)) rows (λ a. ground arith)
        (elem-keys_where assignment_key (to_in_production t) rows h)

reverted_incomplete :
    (t : Date) (mine : List AssignmentRow)
    → any (reverts t) mine ≡ true
    → all_completed (map (reverted t) mine) ≡ false
reverted_incomplete t [] h = cc
reverted_incomplete t (x ∷ xs) h = ground (arith, reverted_incomplete t xs)

abbrev if_marked : Bool → OrderStatus → OrderRow → OrderRow
if_marked b s o = if b then set_order_status s o else o

-- The rows of three tests, one after the other.
three_marks :
    (c p s : OrderRow → Bool) (x y z : OrderStatus) (orders : List OrderRow)
    → Distinct order_key orders
    → mark_orders (keys_where order_key s orders) z (
        mark_orders
          (keys_where order_key p orders)
          y
          (mark_orders (keys_where order_key c orders) x orders))
      ≡ map (λ o. if_marked (s o) z (if_marked (p o) y (if_marked (c o) x o))) orders
three_marks c p s x y z orders h =
    ap
      (λ r. mark_orders (keys_where order_key s orders) z (
        mark_orders (keys_where order_key p orders) y
          (mark_orders (keys_where order_key c orders) x r)))
      (map_self orders)
    ∙ ap
        (λ r.
          mark_orders (keys_where order_key s orders) z
            (mark_orders (keys_where order_key p orders) y r))
        (update_where-map order_key c (set_order_status x) (λ o. o) (keys_where order_key c orders)
          orders (λ o. refl) (elem-keys_where order_key c orders h))
    ∙ ap (mark_orders (keys_where order_key s orders) z) (
        update_where-map order_key p (set_order_status y) (λ o. if_marked (c o) x o)
          (keys_where order_key p orders) orders (λ o. ground arith)
          (elem-keys_where order_key p orders h))
    ∙ update_where-map order_key s (set_order_status z)
        (λ o. if_marked (p o) y (if_marked (c o) x o)) (keys_where order_key s orders) orders
        (λ o. ground arith) (elem-keys_where order_key s orders h)

reverted_row :
    (e c a : Bool) (o : OrderRow)
    → (e ≡ true → c ≡ false)
    → (let done = c && not (eq_status o.status OrderStatus.completed) in
        let runs = not done && a && not c && not (eq_status o.status OrderStatus.in_production) in
        let waits =
          not done && not runs && not a && not (eq_status o.status OrderStatus.scheduled) in
        if_marked (e && waits) OrderStatus.scheduled (
          if_marked
            (e && runs)
            OrderStatus.in_production
            (if_marked (e && done) OrderStatus.completed o)))
      ≡ set_order_status
          (let decided =
              if c
              then OrderStatus.completed
              else (if a then OrderStatus.in_production else OrderStatus.scheduled) in
            if e then decided else o.status)
          o
reverted_row e c a o h = ground arith

abbrev touched : Date → List AssignmentRow → List ℕ
touched t rows = affected_order_ids (keep (to_in_production t) rows) (keep (to_scheduled t) rows)

module _ (t : Date) (rows : List AssignmentRow) where
  abbrev mine : OrderRow → List AssignmentRow
  mine o = assignments_of (map (reverted t) rows) o

  abbrev is_touched : OrderRow → Bool
  is_touched o = elem o.id (touched t rows)

  revert_step :
      (o : OrderRow)
      → if_marked (is_touched o && sets_scheduled (mine o) o) OrderStatus.scheduled (
          if_marked
            (is_touched o && sets_in_production (mine o) o)
            OrderStatus.in_production
            (if_marked (is_touched o && completes_order (mine o) o) OrderStatus.completed o))
        ≡ reverted_order t rows o
  revert_step o =
      rw
        (
          elem-affected (to_in_production t) (to_scheduled t) rows o,
          assignments_of-map (reverted t) (λ a. ground arith) rows o,
        )
        (reverted_row (any (reverts t) (assignments_of rows o))
          (all_completed (map (reverted t) (assignments_of rows o)))
          (any_started (map (reverted t) (assignments_of rows o))) o
          (reverted_incomplete t (assignments_of rows o)))

  revert_kept : (o : OrderRow) → is_empty (touched t rows) ≡ true → o ≡ reverted_order t rows o
  revert_kept o e = ground (arith, elem-affected (to_in_production t) (to_scheduled t) rows o)

  in_found :
      (p : OrderRow → Bool) (orders : List OrderRow)
      → map order_key (keep p (keep is_touched orders))
        ≡ keys_where order_key (λ o. is_touched o && p o) orders
  in_found p orders = ap (map order_key) (keep-keep p is_touched orders)

  revert_orders-map :
      (orders : List OrderRow)
      → Distinct order_key orders
      → revert_orders (touched t rows) (map (reverted t) rows) orders
        ≡ map (reverted_order t rows) orders
  revert_orders-map orders h =
      rw
        (
          in_found (λ o. sets_scheduled (mine o) o) orders,
          in_found (λ o. sets_in_production (mine o) o) orders,
          in_found (λ o. completes_order (mine o) o) orders,
        )
        (three_marks (λ o. is_touched o && completes_order (mine o) o)
            (λ o. is_touched o && sets_in_production (mine o) o)
            (λ o. is_touched o && sets_scheduled (mine o) o) OrderStatus.completed
            OrderStatus.in_production OrderStatus.scheduled orders h
          ∙ map-congr _ (reverted_order t rows) revert_step orders)

revert-tables :
    (t : Date) (patch : Option SystemPatch) (w : World)
    → let w' = (revert_simulation_statuses t patch w).1 in
      (w'.assignments ≡ revert_assignments t w.assignments)
      × (w'.orders ≡ (
          if is_empty (touched t w.assignments)
          then w.orders
          else revert_orders
              (touched t w.assignments)
              (revert_assignments t w.assignments)
              w.orders))
unfolding revert_simulation_statuses
revert-tables t none w = elim (Bool-cases (is_empty (touched t w.assignments))) [
  | inl e ↦ (rw e refl, rw e refl)
  | inr e ↦ (rw e refl, rw e refl)
]
revert-tables t (some patch) w = elim (Bool-cases (is_empty (touched t w.assignments))) [
  | inl e ↦ (rw e refl, rw e refl)
  | inr e ↦ (rw e refl, rw e refl)
]

pub revert-pointwise :
    (t : Date) (patch : Option SystemPatch) (w : World)
    → Distinct assignment_key w.assignments
    → Distinct order_key w.orders
    → let w' = (revert_simulation_statuses t patch w).1 in
      (w'.assignments ≡ map (reverted t) w.assignments)
      × (w'.orders ≡ map (reverted_order t w.assignments) w.orders)
revert-pointwise t patch w ha ho =
    let tables = revert-tables t patch w in
    let marked = revert_assignments-map t w.assignments ha in
    (
      tables.0 ∙ marked,
      tables.1 ∙ elim (Bool-cases (is_empty (touched t w.assignments))) [
        | inl e ↦ rw e (
            map_self w.orders
            ∙ map-congr (λ o. o) (reverted_order t w.assignments)
                (λ o. revert_kept t w.assignments o e) w.orders)
        | inr e ↦ rw (e, marked) (revert_orders-map t w.assignments w.orders ho)
      ],
    )
