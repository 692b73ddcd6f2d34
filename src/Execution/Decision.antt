-- ===== src/Execution/Decision.antt =====
-- What the daily advancement decides about an order.
use wafer_fabrication_schedu.Base.{
  ℕ, ◌≡◌, refl, ◌∙◌, ap, inl, inr, Bool, true, false, ◌&&◌, ◌==◌, Option, some, List, [], ◌∷◌, any,
  find, map, arith, Bool-cases,
}
use wafer_fabrication_schedu.Base.Sort.{Distinct}
use wafer_fabrication_schedu.Dates.{Date}
use wafer_fabrication_schedu.Schedule.Types.{OrderStatus, eq_status}
use wafer_fabrication_schedu.Store.{World, OrderRow, AssignmentRow}
use wafer_fabrication_schedu.Orders.Table.{order_has_id}
use wafer_fabrication_schedu.Execution.{
  SystemPatch, set_order_status, assignment_key, order_key, assignments_of, all_completed,
  any_started, execute_daily_state_advancement,
}
use wafer_fabrication_schedu.Execution.Pointwise.{
  advanced, moves, status_after, assignments_of-map, advanced_order, execute-pointwise,
}

find-advanced :
    (d : Date) (rows : List AssignmentRow) (id : ℕ) (orders : List OrderRow) (o : OrderRow)
    → find (order_has_id id) orders ≡ some o
    → find (order_has_id id) (map (advanced_order d rows) orders) ≡ some (advanced_order d rows o)
find-advanced d rows id [] o h = cc
find-advanced d rows id (x ∷ xs) o h = elim (Bool-cases (x.id == id)) [
  | inl e ↦ rw e (ap (λ p. some (advanced_order d rows p)) (some-inj (ground arith)))
  | inr e ↦ rw e (find-advanced d rows id xs o (ground arith))
]
  where
    some-inj : {p q : OrderRow} → some p ≡ some q → p ≡ q
    some-inj e = cc

-- What may become of an order: by its status before, its assignments after, and whether one of them
-- was started or completed; the index is its status after.
pub data Decided (before : OrderStatus) (mine : List AssignmentRow) (touched : Bool)
    : OrderStatus → Type 0 where
  untouched : touched ≡ false → Decided before mine touched before
  completes :
      touched ≡ true → all_completed mine ≡ true → Decided before mine touched OrderStatus.completed
  starts :
      touched ≡ true
      → all_completed mine ≡ false
      → any_started mine ≡ true
      → before ≡ OrderStatus.scheduled
      → Decided before mine touched OrderStatus.in_production
  stays :
      touched ≡ true
      → all_completed mine ≡ false
      → any_started mine && eq_status before OrderStatus.scheduled ≡ false
      → Decided before mine touched before

eq_status_sound : (s t : OrderStatus) → eq_status s t ≡ true → s ≡ t
eq_status_sound s t h = ground arith

status_after-Decided :
    (d : Date) (mine : List AssignmentRow) (s : OrderStatus)
    → Decided s (map (advanced d) mine) (any (moves d) mine) (status_after d mine s)
status_after-Decided d mine s = elim (Bool-cases (any (moves d) mine)) [
  | inr m ↦ rw m (untouched refl)
  | inl m ↦ elim (Bool-cases (all_completed rows)) [
    | inl c ↦ rw (m, c) (completes refl c)
    | inr c ↦ elim (Bool-cases (any_started rows && eq_status s OrderStatus.scheduled)) [
      | inl a ↦
          rw (m, c, a)
            (starts refl c (ground arith) (eq_status_sound s OrderStatus.scheduled (ground arith)))
      | inr a ↦ rw (m, c, a) (stays refl c a)
    ]
  ]
]
  where
    rows : List AssignmentRow
    rows = map (advanced d) mine

-- If the rows of assignments and of orders have different ids, an order that is found before the
-- advancement is found after it, with another status at most. If one of its assignments was started
-- or completed, and all of them, with none left out for being CANCELLED, are COMPLETED now, then the
-- order is COMPLETED, whatever its status was, also CANCELLED. If none was started or completed, its status is kept. A status changes only to
-- COMPLETED, with all assignments COMPLETED, or from SCHEDULED to IN_PRODUCTION, with an assignment
-- that has started.
pub advance_decides :
    (d : Date) (patch : Option SystemPatch) (w : World) (id : ℕ) (o : OrderRow)
    → Distinct assignment_key w.assignments
    → Distinct order_key w.orders
    → find (order_has_id id) w.orders ≡ some o
    → let w' = (execute_daily_state_advancement d patch w).1 in
      (s : OrderStatus) × (find (order_has_id id) w'.orders ≡ some (set_order_status s o))
      × Decided o.status
          (assignments_of w'.assignments o)
          (any (moves d) (assignments_of w.assignments o))
          s
advance_decides d patch w id o ha ho f =
    let r = execute-pointwise d patch w ha ho in
    let mine = assignments_of w.assignments o in
    (
      status_after d mine o.status,
      ap (find (order_has_id id)) r.1 ∙ find-advanced d w.assignments id w.orders o f,
      rw (r.0, assignments_of-map (advanced d) (λ a. ground arith) w.assignments o)
          (status_after-Decided d mine o.status),
    )
