-- ===== src/Execution/Revert/RoundTrip.antt =====
-- Going forward in simulated time and back again.
use wafer_fabrication_schedu.Base.{
  ◌≡◌, refl, ◌∙◌, ap, sym, ◌≤◌, ◌<◌, Bool, true, false, ◌||◌, if◌then◌else◌, Option, List, [], ◌∷◌,
  any, map, arith, All, Bool-cases, inl, inr, ◌⊎◌,
}
use wafer_fabrication_schedu.Base.Sort.{Distinct}
use wafer_fabrication_schedu.Dates.{Date}
use wafer_fabrication_schedu.Schedule.Types.{OrderStatus, AssignmentStatus}
use wafer_fabrication_schedu.Store.{World, OrderRow, AssignmentRow}
use wafer_fabrication_schedu.Execution.{
  SystemPatch, has, set_order_status, assignment_key, order_key, of_order, assignments_of,
  all_completed, any_started, execute_daily_state_advancement,
}
use wafer_fabrication_schedu.Execution.Pointwise.{
  advanced, moves, status_after, assignments_of-map, advanced_order, execute-pointwise,
}
use wafer_fabrication_schedu.Execution.Compose.{Distinct-map}
use wafer_fabrication_schedu.Execution.Revert.{revert_simulation_statuses}
use wafer_fabrication_schedu.Execution.Revert.Rows.{
  reverted, reverts, status_reverted, reverted_order, revert-pointwise,
}

-- The status of an assignment is the one of the day `t`.
abbrev pub StatusOn : Date → AssignmentStatus → Date → Date → Type 0
StatusOn t AssignmentStatus.scheduled production completion = (t < production) × (t < completion)
StatusOn t AssignmentStatus.in_production production completion =
    (production ≤ t) × (t < completion)
StatusOn t AssignmentStatus.completed production completion = (production ≤ t) × (completion ≤ t)
StatusOn t AssignmentStatus.cancelled production completion = Unit

abbrev pub IsCurrent : Date → AssignmentRow → Type 0
IsCurrent t a = StatusOn t a.status a.production_date a.completion_date

abbrev pub is_open : AssignmentRow → Bool
is_open a = has AssignmentStatus.scheduled a || has AssignmentStatus.in_production a

-- An order with an open assignment is in production if one of its assignments has started, and
-- scheduled otherwise.
abbrev pub Follows : List AssignmentRow → OrderRow → Type 0
Follows rows o =
    (any is_open (assignments_of rows o) ≡ false)
    ⊎ (o.status ≡ (
        if any_started (assignments_of rows o)
        then OrderStatus.in_production
        else OrderStatus.scheduled))

-- The state of the tables is the one of the day `t`.
pub record IsUpToDate (t : Date) (w : World) : Type 0 where
  pub assignment_keys : Distinct assignment_key w.assignments
  pub order_keys : Distinct order_key w.orders
  pub current : All (IsCurrent t) w.assignments
  pub follows : All (Follows w.assignments) w.orders

reverted-advanced :
    (t d : Date) (a : AssignmentRow) → t ≤ d → IsCurrent t a → reverted t (advanced d a) ≡ a
reverted-advanced t d a h c = elim (Bool-cases (has AssignmentStatus.scheduled a)) [
  | inl e ↦ ground arith
  | inr e ↦ ground arith
]

reverts-advanced :
    (t d : Date) (a : AssignmentRow) → t ≤ d → IsCurrent t a → reverts t (advanced d a) ≡ moves d a
reverts-advanced t d a h c = elim (Bool-cases (has AssignmentStatus.scheduled a)) [
  | inl e ↦ ground arith
  | inr e ↦ ground arith
]

module _ (t d : Date) (h : t ≤ d) where
  map-reverted-advanced :
      (rows : List AssignmentRow)
      → All (IsCurrent t) rows
      → map (reverted t) (map (advanced d) rows) ≡ rows
  map-reverted-advanced [] c = refl
  map-reverted-advanced (x ∷ xs) c =
      rw (reverted-advanced t d x h c.0, map-reverted-advanced xs c.1) refl

  any-reverts :
      (rows : List AssignmentRow)
      → All (IsCurrent t) rows
      → any (reverts t) (map (advanced d) rows) ≡ any (moves d) rows
  any-reverts [] c = refl
  any-reverts (x ∷ xs) c = rw (reverts-advanced t d x h c.0, any-reverts xs c.1) refl

  any-is_open : (rows : List AssignmentRow) → any (moves d) rows ≡ true → any is_open rows ≡ true
  any-is_open [] e = e
  any-is_open (x ∷ xs) e = ground (arith, any-is_open xs)

  moves_incomplete :
      (rows : List AssignmentRow) → any (moves d) rows ≡ true → all_completed rows ≡ false
  moves_incomplete [] e = cc
  moves_incomplete (x ∷ xs) e = ground (arith, moves_incomplete xs)

  assignments_of-IsCurrent :
      (o : OrderRow) (rows : List AssignmentRow)
      → All (IsCurrent t) rows
      → All (IsCurrent t) (assignments_of rows o)
  assignments_of-IsCurrent o [] c = tt
  assignments_of-IsCurrent o (x ∷ xs) c = elim (Bool-cases (of_order o x)) [
    | inl e ↦ rw e (c.0, assignments_of-IsCurrent o xs c.1)
    | inr e ↦ rw e (assignments_of-IsCurrent o xs c.1)
  ]

  open_not : {b : Bool} → b ≡ false → b ≡ true → ⊥
  open_not n e = cc

  back :
      (mine : List AssignmentRow) (s : OrderStatus)
      → All (IsCurrent t) mine
      → (any is_open mine ≡ false)
        ⊎ (s ≡ (if any_started mine then OrderStatus.in_production else OrderStatus.scheduled))
      → status_reverted t (map (advanced d) mine) (status_after d mine s) ≡ s
  back mine s c f =
      rw (map-reverted-advanced mine c, any-reverts mine c)
        (elim (Bool-cases (any (moves d) mine)) [
          | inr e ↦ rw e refl
          | inl e ↦
              rw (e, moves_incomplete mine e)
                (elim f [ inl n ↦ absurd (open_not n (any-is_open mine e)) | inr g ↦ sym g ])
        ])

  order_back :
      (rows : List AssignmentRow) (o : OrderRow)
      → All (IsCurrent t) rows
      → Follows rows o
      → reverted_order t (map (advanced d) rows) (advanced_order d rows o) ≡ o
  order_back rows o c f =
      ap
        (λ mine.
          set_order_status
            (status_reverted t mine (status_after d (assignments_of rows o) o.status)) o)
        (assignments_of-map (advanced d) (λ a. ground arith) rows o)
      ∙ ap (λ s. set_order_status s o)
          (back (assignments_of rows o) o.status (assignments_of-IsCurrent o rows c) f)

  orders_back :
      (rows : List AssignmentRow) (orders : List OrderRow)
      → All (IsCurrent t) rows
      → All (Follows rows) orders
      → map (reverted_order t (map (advanced d) rows)) (map (advanced_order d rows) orders) ≡ orders
  orders_back rows [] c f = refl
  orders_back rows (o ∷ os) c f = rw (order_back rows o c f.0, orders_back rows os c f.1) refl

-- Let the tables be up to date on the day `t`: ids differ, each assignment has the status of that day,
-- and each order with an open assignment the status that follows from its assignments. Then advancing
-- to a later day in a simulation, and reverting to `t`, gives back the same assignments and orders.
pub revert_undoes_advance :
    (t d : Date) (p q : Option SystemPatch) (w : World)
    → t ≤ d
    → IsUpToDate t w
    → let simulated = (execute_daily_state_advancement d p w).1 in
      let w' = (revert_simulation_statuses t q simulated).1 in
      (w'.assignments ≡ w.assignments) × (w'.orders ≡ w.orders)
revert_undoes_advance t d p q w h u =
    let simulated = (execute_daily_state_advancement d p w).1 in
    let there = execute-pointwise d p w u.assignment_keys u.order_keys in
    let here =
      revert-pointwise t q simulated
        (rw there.0 (
          Distinct-map assignment_key (advanced d) (λ a. ground arith) w.assignments
            u.assignment_keys))
        (rw there.1 (
          Distinct-map order_key (advanced_order d w.assignments) (λ o. refl) w.orders
            u.order_keys)) in
    (
      here.0 ∙ ap (map (reverted t)) there.0 ∙ map-reverted-advanced t d h w.assignments u.current,
      here.1
          ∙ ap (λ rows. map (reverted_order t rows) simulated.orders) there.0
          ∙ ap (map (reverted_order t (map (advanced d) w.assignments))) there.1
          ∙ orders_back t d h w.assignments w.orders u.current u.follows,
    )
