-- ===== src/Execution/Compose.antt =====
-- Advancing day by day and at once, under executeDailyStateAdvancement.
use wafer_fabrication_schedu.Base.{
  ℕ, ◌≡◌, refl, ◌∙◌, ap, sym, ◌≤◌, ◌≢◌, true, false, ◌||◌, Option, List, [], ◌∷◌, any, map, arith,
  All, Bool-cases, inl, inr,
}
use wafer_fabrication_schedu.Base.Sort.{Distinct}
use wafer_fabrication_schedu.Dates.{Date}
use wafer_fabrication_schedu.Schedule.Types.{OrderStatus}
use wafer_fabrication_schedu.Store.{World, OrderRow, AssignmentRow}
use wafer_fabrication_schedu.Store.Rows.{map-congr, map-map}
use wafer_fabrication_schedu.Execution.{
  SystemPatch, set_order_status, assignment_key, order_key, assignments_of, all_completed,
  any_started, execute_daily_state_advancement,
}
use wafer_fabrication_schedu.Execution.Pointwise.{
  advanced, moves, status_after, assignments_of-map, advanced_order, execute-pointwise,
}

-- A change that keeps the keys keeps them different.
All-map {ℓ κ} :
    {A : Type ℓ} (P : ℕ → Type κ) (key : A → ℕ) (f : A → A)
    → ((x : A) → key (f x) ≡ key x)
    → (rows : List A) → All (λ y. P (key y)) rows
    → All (λ y. P (key y)) (map f rows)
All-map P key f h [] a = tt
All-map P key f h (x ∷ xs) a = (rw (h x) a.0, All-map P key f h xs a.1)

pub Distinct-map {ℓ} :
    {A : Type ℓ} (key : A → ℕ) (f : A → A)
    → ((x : A) → key (f x) ≡ key x)
    → (rows : List A) → Distinct key rows
    → Distinct key (map f rows)
Distinct-map key f h [] d = tt
Distinct-map key f h (x ∷ xs) d =
    (rw (h x) (All-map (λ i. key x ≢ i) key f h xs d.0), Distinct-map key f h xs d.1)

advanced-advanced :
    (d e : Date) (a : AssignmentRow) → d ≤ e → advanced e (advanced d a) ≡ advanced e a
advanced-advanced d e a h = ground arith

any-moves :
    (d e : Date) (rows : List AssignmentRow)
    → d ≤ e
    → any (moves e) rows ≡ any (moves d) rows || any (moves e) (map (advanced d) rows)
any-moves d e [] h = refl
any-moves d e (x ∷ xs) h = ground (arith, any-moves d e xs h)

still :
    (d : Date) (rows : List AssignmentRow)
    → any (moves d) rows ≡ false
    → map (advanced d) rows ≡ rows
still d [] h = refl
still d (x ∷ xs) h = ground (arith, still d xs)

completed_still :
    (d : Date) (rows : List AssignmentRow) → all_completed rows ≡ true → any (moves d) rows ≡ false
completed_still d [] h = refl
completed_still d (x ∷ xs) h = ground (arith, completed_still d xs)

started_stays :
    (d : Date) (rows : List AssignmentRow)
    → any_started rows ≡ true
    → any_started (map (advanced d) rows) ≡ true
started_stays d [] h = h
started_stays d (x ∷ xs) h = ground (arith, started_stays d xs)

map-advanced :
    (d e : Date) (rows : List AssignmentRow)
    → d ≤ e
    → map (advanced e) (map (advanced d) rows) ≡ map (advanced e) rows
map-advanced d e rows h =
    map-map (advanced d) (advanced e) rows
    ∙ map-congr (λ a. advanced e (advanced d a)) (advanced e) (λ a. advanced-advanced d e a h) rows

-- The two decisions on one order give the later one.
status_after-status_after :
    (d e : Date) (mine : List AssignmentRow) (s : OrderStatus)
    → d ≤ e
    → status_after e (map (advanced d) mine) (status_after d mine s) ≡ status_after e mine s
status_after-status_after d e mine s h = elim (Bool-cases (any (moves d) mine)) [
  | inr m ↦ rw (still d mine m, m) refl
  | inl m ↦ elim (Bool-cases (any (moves e) (map (advanced d) mine))) [
    | inr n ↦
        let same = still e (map (advanced d) mine) n in
        ground (
          arith,
          any-moves d e mine h,
          ap all_completed same,
          ap any_started same,
          map-advanced d e mine h,
        )
    | inl n ↦ ground (
      arith,
      any-moves d e mine h,
      map-advanced d e mine h,
      completed_still e (map (advanced d) mine),
      started_stays e (map (advanced d) mine),
    )
  ]
]

advanced_order-advanced_order :
    (d e : Date) (rows : List AssignmentRow) (o : OrderRow)
    → d ≤ e
    → advanced_order e (map (advanced d) rows) (advanced_order d rows o) ≡ advanced_order e rows o
advanced_order-advanced_order d e rows o h =
    ap
      (λ mine.
        set_order_status (status_after e mine (status_after d (assignments_of rows o) o.status)) o)
      (assignments_of-map (advanced d) (λ a. ground arith) rows o)
    ∙ ap (λ s. set_order_status s o)
        (status_after-status_after d e (assignments_of rows o) o.status h)

-- If the rows of assignments and of orders have different ids, then advancing to a date and from there
-- to a later one has the same effect on assignments and orders as advancing to the later date at once,
-- whatever the system state is set to.
pub advance_composes :
    (d e : Date) (p q r : Option SystemPatch) (w : World)
    → d ≤ e
    → Distinct assignment_key w.assignments
    → Distinct order_key w.orders
    → let step = (execute_daily_state_advancement d p w).1 in
      let stepped = (execute_daily_state_advancement e q step).1 in
      let jumped = (execute_daily_state_advancement e r w).1 in
      (stepped.assignments ≡ jumped.assignments) × (stepped.orders ≡ jumped.orders)
advance_composes d e p q r w h ha ho =
    let step = (execute_daily_state_advancement d p w).1 in
    let first = execute-pointwise d p w ha ho in
    let direct = execute-pointwise e r w ha ho in
    let second =
      execute-pointwise e q step
        (rw first.0 (Distinct-map assignment_key (advanced d) (λ a. ground arith) w.assignments ha))
        (rw first.1
          (Distinct-map order_key (advanced_order d w.assignments) (λ o. refl) w.orders ho)) in
    (
      second.0 ∙ ap (map (advanced e)) first.0 ∙ map-advanced d e w.assignments h ∙ sym direct.0,
      second.1
          ∙ ap (λ rows. map (advanced_order e rows) step.orders) first.0
          ∙ ap (map (advanced_order e (map (advanced d) w.assignments))) first.1
          ∙ map-map (advanced_order d w.assignments)
              (advanced_order e (map (advanced d) w.assignments)) w.orders
          ∙ map-congr _ (advanced_order e w.assignments)
              (λ o. advanced_order-advanced_order d e w.assignments o h) w.orders
          ∙ sym direct.1,
    )
