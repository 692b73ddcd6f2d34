-- ===== src/Application/Prepare/Reset.antt =====
-- The reset of the capacities in memory gives back exactly what the released assignments held.
use wafer_fabrication_schedu.Base.{
  ℕ, ◌+◌, ◌≡◌, refl, ◌∙◌, ap, Bool, true, false, not, ◌&&◌, ◌==◌, if◌then◌else◌, none, some, List,
  [], ◌∷◌, keep, map, find, sum_of, or_empty, arith, ℤ, pos, ◌+ℤ◌, pos_part, neg_part, int_laws,
  Bool-cases, Option-cases, inl, inr,
}
use wafer_fabrication_schedu.Dates.{Date}
use wafer_fabrication_schedu.Schedule.Types.{
  CapacityDraft, SchedulingAssignmentInput, SchedulingOrderInput, SchedulingConfig,
}
use wafer_fabrication_schedu.Application.Prepare.{
  slot_is, return_quantity, is_input_immutable, is_released, release, reset_assignments,
  reset_orders,
}

-- What an assignment holds of a factory on a date.
abbrev pub holds : ℕ → Date → SchedulingAssignmentInput → ℕ
holds f d a = elim a.factory_id [
  | none ↦ 0
  | some g ↦ elim a.production_date [
    | none ↦ 0
    | some e ↦ if g == f && e == d then a.assigned_quantity else 0
  ]
]

-- What the assignments of the orders hold.
abbrev pub held_by : ℕ → Date → List SchedulingOrderInput → ℕ
held_by f d orders =
    sum_of (λ (o : SchedulingOrderInput). sum_of (holds f d) (or_empty o.assignments)) orders

-- The counter of the slot; without one it is `z`.
abbrev pub counter : ℤ → ℕ → Date → List CapacityDraft → ℤ
counter z f d caps = elim (find (slot_is f d) caps) [ none ↦ z | some c ↦ c.cur_capacity ]

abbrev pub has_slot : ℕ → Date → List CapacityDraft → Bool
has_slot f d caps = elim (find (slot_is f d) caps) [ none ↦ false | some c ↦ true ]

counter-return_quantity :
    (z : ℤ) (f : ℕ) (d : Date) (g : ℕ) (e : Date) (q : ℕ) (caps : List CapacityDraft)
    → has_slot f d caps ≡ true
    → counter z f d (return_quantity g e q caps)
      ≡ (if g == f && e == d then counter z f d caps +ℤ pos q else counter z f d caps)
unfolding return_quantity
counter-return_quantity z f d g e q [] h = cc
counter-return_quantity z f d g e q (c ∷ cs) h =
    ground (arith, counter-return_quantity z f d g e q cs)

has_slot-return_quantity :
    (f : ℕ) (d : Date) (g : ℕ) (e : Date) (q : ℕ) (caps : List CapacityDraft)
    → has_slot f d (return_quantity g e q caps) ≡ has_slot f d caps
unfolding return_quantity
has_slot-return_quantity f d g e q [] = refl
has_slot-return_quantity f d g e q (c ∷ cs) = ground (arith, has_slot-return_quantity f d g e q cs)

add_zero : (z : ℤ) → z ≡ z +ℤ pos 0
add_zero z = omega int_laws

add_if : (b : Bool) (z : ℤ) (q : ℕ) → (if b then z +ℤ pos q else z) ≡ z +ℤ pos (if b then q else 0)
add_if true z q = refl
add_if false z q = add_zero z

counter-release :
    (z : ℤ) (f : ℕ) (d : Date) (a : SchedulingAssignmentInput) (caps : List CapacityDraft)
    → has_slot f d caps ≡ true
    → counter z f d (release a caps) ≡ counter z f d caps +ℤ pos (holds f d a)
counter-release z f d a caps h = elim (Option-cases a.factory_id) [
  | inl n ↦ rw n (add_zero (counter z f d caps))
  | inr (g, e) ↦ elim (Option-cases a.production_date) [
    | inl n ↦ rw (e, n) (add_zero (counter z f d caps))
    | inr (p, k) ↦
        rw (e, k)
          (counter-return_quantity z f d g p a.assigned_quantity caps h
            ∙ add_if (g == f && p == d) (counter z f d caps) a.assigned_quantity)
  ]
]

has_slot-release :
    (f : ℕ) (d : Date) (a : SchedulingAssignmentInput) (caps : List CapacityDraft)
    → has_slot f d (release a caps) ≡ has_slot f d caps
has_slot-release f d a caps = elim (Option-cases a.factory_id) [
  | inl n ↦ rw n refl
  | inr (g, e) ↦ elim (Option-cases a.production_date) [
    | inl n ↦ rw (e, n) refl
    | inr (p, k) ↦ rw (e, k) (has_slot-return_quantity f d g p a.assigned_quantity caps)
  ]
]

-- A balance: a counter and what is held besides it.
move :
    (x y z : ℤ) (q r s : ℕ)
    → x +ℤ pos r ≡ y +ℤ pos s
    → y ≡ z +ℤ pos q
    → x +ℤ pos r ≡ z +ℤ pos (q + s)
move x y z q r s e f = omega (int_laws, ap pos_part e, ap neg_part e, ap pos_part f, ap neg_part f)

keeps : (x y : ℤ) (q r s : ℕ) → x +ℤ pos r ≡ y +ℤ pos s → x +ℤ pos (q + r) ≡ y +ℤ pos (q + s)
keeps x y q r s e = omega (int_laws, ap pos_part e, ap neg_part e)

both :
    (x y z : ℤ) (p q r s : ℕ)
    → x +ℤ pos r ≡ y +ℤ pos s
    → y +ℤ pos p ≡ z +ℤ pos q
    → x +ℤ pos (p + r) ≡ z +ℤ pos (q + s)
both x y z p q r s e f =
    omega (int_laws, ap pos_part e, ap neg_part e, ap pos_part f, ap neg_part f)

module _ (config : SchedulingConfig) (z : ℤ) (f : ℕ) (d : Date) where
  abbrev held : List SchedulingAssignmentInput → ℕ
  held as_ = sum_of (holds f d) as_

  reset_assignments-balance :
      (as_ : List SchedulingAssignmentInput) (caps : List CapacityDraft)
      → has_slot f d caps ≡ true
      → let r = reset_assignments config as_ caps in
        (counter z f d r.1 +ℤ pos (held r.0) ≡ counter z f d caps +ℤ pos (held as_))
        × (has_slot f d r.1 ≡ true)
        × (r.0 ≡ keep (λ a. not (is_released config a)) as_)
  unfolding reset_assignments
  reset_assignments-balance [] caps h = (refl, h, refl)
  reset_assignments-balance (a ∷ as_) caps h = elim (Bool-cases (is_released config a)) [
    | inr n ↦
        let rest = reset_assignments-balance as_ caps h in
        let r = reset_assignments config as_ caps in
        rw n (
          keeps (counter z f d r.1) (counter z f d caps) (holds f d a) (held r.0) (held as_) rest.0,
          rest.1,
          ap (λ l. a ∷ l) rest.2,
        )
    | inl y ↦
        let rest =
          reset_assignments-balance as_ (release a caps) (has_slot-release f d a caps ∙ h) in
        let r = reset_assignments config as_ (release a caps) in
        rw y (
          move (counter z f d r.1) (counter z f d (release a caps)) (counter z f d caps)
              (holds f d a) (held r.0) (held as_) rest.0 (counter-release z f d a caps h),
          rest.1,
          rest.2,
        )
  ]

-- What the reset leaves of an order.
abbrev pub reset_order : SchedulingConfig → SchedulingOrderInput → SchedulingOrderInput
reset_order config o = if is_input_immutable o then o else record o {
  assignments = some (keep (λ a. not (is_released config a)) (or_empty o.assignments));
}

module _ (config : SchedulingConfig) (z : ℤ) (f : ℕ) (d : Date) where
  abbrev held_in : List SchedulingOrderInput → ℕ
  held_in orders = held_by f d orders

  -- The reset takes from each order that is not immutable its SCHEDULED assignments in the dates of
  -- the run, and leaves the other orders as they are. If the slot has a counter, then the counter and
  -- what the assignments of the orders hold of it have the same sum as before.
  pub reset_orders_conserve :
      (orders : List SchedulingOrderInput) (caps : List CapacityDraft)
      → has_slot f d caps ≡ true
      → let r = reset_orders config orders caps in
        (r.0 ≡ map (reset_order config) orders)
        × (counter z f d r.1 +ℤ pos (held_by f d r.0)
            ≡ counter z f d caps +ℤ pos (held_by f d orders))
  unfolding reset_orders
  reset_orders_conserve [] caps h = (refl, refl)
  reset_orders_conserve (o ∷ os) caps h = elim (Bool-cases (is_input_immutable o)) [
    | inl y ↦
        let rest = reset_orders_conserve os caps h in
        let r = reset_orders config os caps in
        rw y (
          ap (λ l. o ∷ l) rest.0,
          keeps (counter z f d r.1) (counter z f d caps)
              (held config z f d (or_empty o.assignments)) (held_in r.0) (held_in os) rest.1,
        )
    | inr n ↦
        let mine = reset_assignments config (or_empty o.assignments) caps in
        let own = reset_assignments-balance config z f d (or_empty o.assignments) caps h in
        let r = reset_orders config os mine.1 in
        let rest = reset_orders_conserve os mine.1 own.1 in
        rw n (
          rw (own.2, rest.0) refl,
          both (counter z f d r.1) (counter z f d mine.1) (counter z f d caps)
              (held config z f d mine.0) (held config z f d (or_empty o.assignments)) (held_in r.0)
              (held_in os) rest.1 own.0,
        )
  ]
