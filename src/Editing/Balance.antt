-- ===== src/Editing/Balance.antt =====
-- What the actions of a bulk edit do to the counters and to the assignments of a slot.
use wafer_fabrication_schedu.Base.{
  ℕ, ◌+◌, ◌-◌, ◌≡◌, refl, ◌∙◌, ap, ◌≢◌, Bool, true, false, ◌&&◌, ◌==◌, if◌then◌else◌, Option, none,
  some, List, [], ◌∷◌, ◌++◌, arith, find, All, Bool-cases, Option-cases, inl, inr, ℤ, pos, ◌+ℤ◌,
  ◌-ℤ◌, int_laws,
}
use wafer_fabrication_schedu.Base.Sort.{Distinct}
use wafer_fabrication_schedu.Dates.{Date}
use wafer_fabrication_schedu.Schedule.Types.{AssignmentStatus}
use wafer_fabrication_schedu.Store.{World, AssignmentRow, FactoryRow, update_where}
use wafer_fabrication_schedu.Store.Capacity.{upsert_daily_capacity_delta, factory_max}
use wafer_fabrication_schedu.Store.Capacity.Levels.{
  HasIds, level_at, level_at-upsert_daily_capacity_delta, upsert_daily_capacity_delta-HasIds,
}
use wafer_fabrication_schedu.Orders.Cancel.{assignment_id}
use wafer_fabrication_schedu.Orders.Cancel.Release.{share, held}
use wafer_fabrication_schedu.Editing.Judge.{OldSlot, ValidAction, to_midnight, assignment_is}
use wafer_fabrication_schedu.Editing.Execute.{
  place_assignment, update_assignment_slot, shift_capacity, taken, move_assignment, run_action,
}

abbrev pub returned_of : ℕ → Date → ℕ → Option OldSlot → ℕ
returned_of f d q none = 0
returned_of f d q (some o) = if o.factory_id == f && o.date == d then q else 0

-- What an action gives back to a slot, and what it takes from it.
abbrev pub returned : ℕ → Date → ValidAction → ℕ
returned f d a = returned_of f d a.qty a.old

abbrev pub consumed : ℕ → Date → ValidAction → ℕ
consumed f d a =
    if a.move.factory_id == f && to_midnight a.move.production_day == d then a.qty else 0

abbrev pub if_moved : Option OldSlot → ℕ → ℕ
if_moved none q = 0
if_moved (some o) q = q

abbrev pub moved_in : ℕ → Date → ValidAction → ℕ
moved_in f d a = if_moved a.old (consumed f d a)

-- The row that an action moves is there as the action has it.
abbrev pub IsRowOf : List AssignmentRow → ℕ → OldSlot → Type 0
IsRowOf rows q o =
    (r : AssignmentRow) × (find (assignment_is o.assignment_id) rows ≡ some r)
    × (r.status ≡ AssignmentStatus.scheduled)
    × (r.assigned_quantity ≡ q)
    × (r.factory_id ≡ o.factory_id)
    × (r.production_date ≡ o.date)

abbrev pub ReadyAt : List AssignmentRow → ℕ → Option OldSlot → Type 0
ReadyAt rows q none = Unit
ReadyAt rows q (some o) = IsRowOf rows q o

abbrev pub Ready : List AssignmentRow → ValidAction → Type 0
Ready rows a = ReadyAt rows a.qty a.old

module _ (fs : List FactoryRow) (f d : ℕ) where
  abbrev pub level : World → ℤ
  level w = level_at (λ i. factory_max i fs 0) f d w.capacities

  shift_capacity-level :
      (g e : ℕ) (z : ℤ) (w : World)
      → HasIds w
      → w.factories ≡ fs
      → level (shift_capacity g e z w) ≡ (if g == f && e == d then level w +ℤ z else level w)
  unfolding shift_capacity
  shift_capacity-level g e z w h same =
      ap (λ k. level (upsert_daily_capacity_delta g e z (factory_max g k 0) w)) same
      ∙ level_at-upsert_daily_capacity_delta (λ i. factory_max i fs 0) g e f d z w h

pub shift_capacity-HasIds :
    (g e : ℕ) (z : ℤ) (w : World) → HasIds w → HasIds (shift_capacity g e z w)
unfolding shift_capacity
shift_capacity-HasIds g e z w h =
    upsert_daily_capacity_delta-HasIds g e (factory_max g w.factories 0) z w h

pub shift_capacity-kept :
    (g e : ℕ) (z : ℤ) (w : World)
    → let w' = shift_capacity g e z w in
      (w'.factories ≡ w.factories)
      × (w'.assignments ≡ w.assignments)
      × (w'.orders ≡ w.orders)
      × (w'.configs ≡ w.configs)
unfolding shift_capacity upsert_daily_capacity_delta
shift_capacity-kept g e z w = ground arith

-- One shift down, and one up before it.
pub down :
    (b : Bool) (z : ℤ) (q : ℕ)
    → (if b then z +ℤ (pos 0 -ℤ pos q) else z) +ℤ pos (if b then q else 0) ≡ z +ℤ pos 0
down true z q = omega int_laws
down false z q = refl

pub up_down :
    (b c : Bool) (z : ℤ) (q : ℕ)
    → let y = if c then z +ℤ pos q else z in
      (if b then y +ℤ (pos 0 -ℤ pos q) else y) +ℤ pos (if b then q else 0)
      ≡ z +ℤ pos (if c then q else 0)
up_down true true z q = omega int_laws
up_down true false z q = omega int_laws
up_down false true z q = omega int_laws
up_down false false z q = refl

module _ (fs : List FactoryRow) (f d : ℕ) where
  pub run_action-level :
      (a : ValidAction) (w : World)
      → HasIds w
      → w.factories ≡ fs
      → level fs f d (run_action a w) +ℤ pos (consumed f d a)
        ≡ level fs f d w +ℤ pos (returned f d a)
  unfolding run_action move_assignment update_assignment_slot
  run_action-level a w h same = elim (Option-cases a.old) [
    | inl n ↦
        rw (n, run_action)
          (rw
            (shift_capacity-level fs f d a.move.factory_id (to_midnight a.move.production_day)
              (taken a) w h same)
            (down (a.move.factory_id == f && to_midnight a.move.production_day == d)
              (level fs f d w) a.qty))
    | inr (o, e) ↦
        let back = shift_capacity o.factory_id o.date (pos a.qty) w in
        rw (e, run_action)
          (rw
            (
              shift_capacity-level fs f d a.move.factory_id (to_midnight a.move.production_day)
                  (taken a) back (shift_capacity-HasIds o.factory_id o.date (pos a.qty) w h)
                  ((shift_capacity-kept o.factory_id o.date (pos a.qty) w).0 ∙ same),
              shift_capacity-level fs f d o.factory_id o.date (pos a.qty) w h same,
            )
            (up_down (a.move.factory_id == f && to_midnight a.move.production_day == d)
              (o.factory_id == f && o.date == d) (level fs f d w) a.qty))
  ]

  -- A row that moves leaves one slot and enters another.
  pub held-place :
      (g e c : ℕ) (id : ℕ) (r : AssignmentRow) (rows : List AssignmentRow)
      → Distinct assignment_id rows
      → find (assignment_is id) rows ≡ some r
      → r.status ≡ AssignmentStatus.scheduled
      → held f d (update_where (assignment_is id) (place_assignment g e c) rows) + share f d r
        ≡ held f d rows + (if g == f && e == d then r.assigned_quantity else 0)
  held-place g e c id r [] k h s = cc
  held-place g e c id r (x ∷ xs) k h s = elim (Bool-cases (x.id == id)) [
    | inl y ↦ ground (arith, untouched g e c id x xs k.0)
    | inr n ↦ ground (arith, held-place g e c id r xs k.1)
  ]
    where
      untouched :
          (g e c id : ℕ) (x : AssignmentRow) (ys : List AssignmentRow)
          → All (λ y. x.id ≢ y.id) ys
          → x.id ≡ id
          → update_where (assignment_is id) (place_assignment g e c) ys ≡ ys
      untouched g e c id x [] n s = refl
      untouched g e c id x (y ∷ ys) n s = ground (arith, untouched g e c id x ys n.1 s, n.0)

-- What an action does to the rows of assignments.
abbrev pub rows_after : ℕ → Date → Option OldSlot → List AssignmentRow → List AssignmentRow
rows_after g e none rows = rows
rows_after g e (some o) rows =
    update_where (assignment_is o.assignment_id)
      (place_assignment g e (o.completion_date + e - o.date)) rows

abbrev pub moved_rows : ValidAction → List AssignmentRow → List AssignmentRow
moved_rows a rows = rows_after a.move.factory_id (to_midnight a.move.production_day) a.old rows

pub run_action-kept :
    (a : ValidAction) (w : World)
    → let w' = run_action a w in
      (w'.assignments ≡ moved_rows a w.assignments)
      × (w'.factories ≡ w.factories)
      × (w'.orders ≡ w.orders)
      × (w'.configs ≡ w.configs)
unfolding run_action move_assignment update_assignment_slot
run_action-kept a w = elim (Option-cases a.old) [
  | inl n ↦
      let one =
        shift_capacity-kept a.move.factory_id (to_midnight a.move.production_day) (taken a) w in
      (
        rw (n, run_action) one.1,
        rw (n, run_action) one.0,
        rw (n, run_action) one.2,
        rw (n, run_action) one.3,
      )
  | inr (o, e) ↦
      let back = shift_capacity o.factory_id o.date (pos a.qty) w in
      let one = shift_capacity-kept o.factory_id o.date (pos a.qty) w in
      let two =
        shift_capacity-kept a.move.factory_id (to_midnight a.move.production_day) (taken a) back in
      (
        rw (e, run_action)
            (ap
              (update_where (assignment_is o.assignment_id) (
                place_assignment a.move.factory_id (to_midnight a.move.production_day)
                  (o.completion_date + to_midnight a.move.production_day - o.date)))
              (two.1 ∙ one.1)),
        rw (e, run_action) (two.0 ∙ one.0),
        rw (e, run_action) (two.2 ∙ one.2),
        rw (e, run_action) (two.3 ∙ one.3),
      )
]

pub run_action-HasIds : (a : ValidAction) (w : World) → HasIds w → HasIds (run_action a w)
unfolding run_action move_assignment update_assignment_slot
run_action-HasIds a w h = elim (Option-cases a.old) [
  | inl n ↦
      rw (n, run_action)
        (shift_capacity-HasIds a.move.factory_id (to_midnight a.move.production_day) (taken a) w h)
  | inr (o, e) ↦
      let after =
        shift_capacity-HasIds a.move.factory_id (to_midnight a.move.production_day) (taken a)
          (shift_capacity o.factory_id o.date (pos a.qty) w)
          (shift_capacity-HasIds o.factory_id o.date (pos a.qty) w h) in
      rw (e, run_action) (record { distinct = after.distinct; below = after.below })
]

All-place :
    (P : ℕ → Type 0) (id g e c : ℕ) (rows : List AssignmentRow)
    → All (λ r. P (assignment_id r)) rows
    → All (λ r. P (assignment_id r)) (update_where (assignment_is id) (place_assignment g e c) rows)
All-place P id g e c [] h = tt
All-place P id g e c (x ∷ xs) h = elim (Bool-cases (x.id == id)) [
  | inl y ↦ rw y (h.0, All-place P id g e c xs h.1)
  | inr n ↦ rw n (h.0, All-place P id g e c xs h.1)
]

Distinct-place :
    (id g e c : ℕ) (rows : List AssignmentRow)
    → Distinct assignment_id rows
    → Distinct assignment_id (update_where (assignment_is id) (place_assignment g e c) rows)
Distinct-place id g e c [] k = tt
Distinct-place id g e c (x ∷ xs) k = elim (Bool-cases (x.id == id)) [
  | inl y ↦ rw y (All-place (λ i. x.id ≢ i) id g e c xs k.0, Distinct-place id g e c xs k.1)
  | inr n ↦ rw n (All-place (λ i. x.id ≢ i) id g e c xs k.0, Distinct-place id g e c xs k.1)
]

pub rows_after-Distinct :
    (g e : ℕ) (old : Option OldSlot) (rows : List AssignmentRow)
    → Distinct assignment_id rows
    → Distinct assignment_id (rows_after g e old rows)
rows_after-Distinct g e none rows k = k
rows_after-Distinct g e (some o) rows k = Distinct-place o.assignment_id g e _ rows k

-- A row with another id is found as before.
pub find-place :
    (id i g e c : ℕ) (rows : List AssignmentRow)
    → id ≢ i
    → find (assignment_is i) (update_where (assignment_is id) (place_assignment g e c) rows)
      ≡ find (assignment_is i) rows
find-place id i g e c [] n = refl
find-place id i g e c (x ∷ xs) n = ground (arith, find-place id i g e c xs n)

-- The ids of the assignments that are moved.
abbrev pub old_ids : Option OldSlot → List ℕ
old_ids none = []
old_ids (some o) = o.assignment_id ∷ []

abbrev pub moved_ids : List ValidAction → List ℕ
moved_ids [] = []
moved_ids (a ∷ as_) = old_ids a.old ++ moved_ids as_

abbrev pub NoRepeat : List ℕ → Type 0
NoRepeat [] = Unit
NoRepeat (x ∷ xs) = All (λ y. x ≢ y) xs × NoRepeat xs
