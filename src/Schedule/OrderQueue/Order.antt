-- ===== src/Schedule/OrderQueue/Order.antt =====
-- The comparator of modules/schedule/strategy.ts is a total preorder, so its sort is well defined.
use wafer_fabrication_schedu.Base.{
  ◌≡◌, refl, Bool, true, false, not, ◌&&◌, List, [], ◌∷◌, All, All-mono, arith, ◌⊎◌, ◌<◌, ◌≤◌, ◌↔◌,
  inl, inr, leb_ℤ, pos, negsuc, if◌then◌else◌,
}
use mathlib.Core.List.{Perm}
use wafer_fabrication_schedu.Base.Sort.{Sorted, sort_by-perm, sort_by-Sorted}
use wafer_fabrication_schedu.Schedule.Types.{
  OrderStatus, eq_status, ReschedulePolicy, is_priority_retain, SchedulingOrderInput,
}
use wafer_fabrication_schedu.Schedule.OrderQueue.{
  compare_standard, compare_policy, order_le, sorted_orders,
}

-- The standard order, written out: by due date, then by falling quantity, then by creation.
abbrev pub StandardLe : SchedulingOrderInput → SchedulingOrderInput → Type 0
StandardLe a b =
    (a.due_date < b.due_date)
    ⊎ ((a.due_date ≡ b.due_date)
        × ((b.quantity < a.quantity) ⊎ ((a.quantity ≡ b.quantity) × (a.created_at ≤ b.created_at))))

standard_le : SchedulingOrderInput → SchedulingOrderInput → Bool
standard_le a b = leb_ℤ (compare_standard a b) (pos 0)

-- The comparator's last part is at most 0 exactly when the orders stand in the standard order.
standard_le_iff : (a b : SchedulingOrderInput) → (standard_le a b ≡ true) ↔ StandardLe a b
unfolding standard_le compare_standard
standard_le_iff a b = (λ h. ground arith, λ h. ground arith)

standard_le_total : (a b : SchedulingOrderInput) → standard_le a b ≡ false → standard_le b a ≡ true
unfolding standard_le compare_standard
standard_le_total a b h = ground arith

standard_le_trans :
    (a b c : SchedulingOrderInput)
    → standard_le a b ≡ true
    → standard_le b c ≡ true
    → standard_le a c ≡ true
standard_le_trans a b c h k =
    let p = (standard_le_iff a b).0 h in
    let q = (standard_le_iff b c).0 k in (standard_le_iff a c).1 (ground arith)

-- An order with one more criterion in front of the rest: an entry that meets it comes first.
abbrev first_by : Bool → Bool → Bool → Bool
first_by true false rest = true
first_by false true rest = false
first_by true true rest = rest
first_by false false rest = rest

first_by_total :
    (x y s t : Bool) → (s ≡ false → t ≡ true) → first_by x y s ≡ false → first_by y x t ≡ true
first_by_total x y s t f h = ground arith

first_by_trans :
    (x y z s t u : Bool)
    → (s ≡ true → t ≡ true → u ≡ true)
    → first_by x y s ≡ true
    → first_by y z t ≡ true
    → first_by x z u ≡ true
first_by_trans x y z s t u f h k = ground arith

policy_le : ReschedulePolicy → SchedulingOrderInput → SchedulingOrderInput → Bool
policy_le p a b = leb_ℤ (compare_policy p a b) (pos 0)

-- PRIORITY_RETAIN asks whether an order is scheduled; the other policies ask nothing.
abbrev retained : ReschedulePolicy → SchedulingOrderInput → Bool
retained p a = is_priority_retain p && eq_status a.status OrderStatus.scheduled

policy_le_lem :
    (p : ReschedulePolicy) (a b : SchedulingOrderInput)
    → policy_le p a b ≡ first_by (retained p a) (retained p b) (standard_le a b)
unfolding policy_le compare_policy standard_le
policy_le_lem p a b =
    choose (is_priority_retain p) (eq_status a.status OrderStatus.scheduled)
      (eq_status b.status OrderStatus.scheduled)
  where
    choose :
        (r x y : Bool)
        → leb_ℤ
            (if r && x && not y
              then negsuc 0
              else if r && y && not x
              then pos 1
              else compare_standard a b)
            (pos 0)
          ≡ first_by (r && x) (r && y) (leb_ℤ (compare_standard a b) (pos 0))
    choose true true true = refl
    choose true true false = refl
    choose true false true = refl
    choose true false false = refl
    choose false x y = refl

order_le_lem :
    (p : ReschedulePolicy) (a b : SchedulingOrderInput)
    → order_le p a b ≡ first_by a.is_prioritized b.is_prioritized (policy_le p a b)
unfolding order_le policy_le
order_le_lem p a b = choose a.is_prioritized b.is_prioritized
  where
    choose :
        (x y : Bool)
        → leb_ℤ
            (if x && not y then negsuc 0 else if not x && y then pos 1 else compare_policy p a b)
            (pos 0)
          ≡ first_by x y (leb_ℤ (compare_policy p a b) (pos 0))
    choose true true = refl
    choose true false = refl
    choose false true = refl
    choose false false = refl

policy_le_total :
    (p : ReschedulePolicy) (a b : SchedulingOrderInput)
    → policy_le p a b ≡ false
    → policy_le p b a ≡ true
policy_le_total p a b h = rw (policy_le_lem p b a) (
    first_by_total (retained p a) (retained p b) (standard_le a b) (standard_le b a)
      (standard_le_total a b) (rw (policy_le_lem p a b) at h))

policy_le_trans :
    (p : ReschedulePolicy) (a b c : SchedulingOrderInput)
    → policy_le p a b ≡ true
    → policy_le p b c ≡ true
    → policy_le p a c ≡ true
policy_le_trans p a b c h k = rw (policy_le_lem p a c) (
    first_by_trans (retained p a) (retained p b) (retained p c) (standard_le a b) (standard_le b c)
      (standard_le a c) (standard_le_trans a b c) (rw (policy_le_lem p a b) at h)
      (rw (policy_le_lem p b c) at k))

-- Two orders are always comparable.
pub order_le_total :
    (p : ReschedulePolicy) (a b : SchedulingOrderInput)
    → order_le p a b ≡ false
    → order_le p b a ≡ true
order_le_total p a b h = rw (order_le_lem p b a) (
    first_by_total a.is_prioritized b.is_prioritized (policy_le p a b) (policy_le p b a)
      (policy_le_total p a b) (rw (order_le_lem p a b) at h))

pub order_le_trans :
    (p : ReschedulePolicy) (a b c : SchedulingOrderInput)
    → order_le p a b ≡ true
    → order_le p b c ≡ true
    → order_le p a c ≡ true
order_le_trans p a b c h k = rw (order_le_lem p a c) (
    first_by_trans a.is_prioritized b.is_prioritized c.is_prioritized (policy_le p a b)
      (policy_le p b c) (policy_le p a c) (policy_le_trans p a b c) (rw (order_le_lem p a b) at h)
      (rw (order_le_lem p b c) at k))

-- The order of the queue, written out: prioritized orders first; under PRIORITY_RETAIN scheduled
-- orders next; then the standard order.
abbrev pub QueueLe : ReschedulePolicy → SchedulingOrderInput → SchedulingOrderInput → Type 0
QueueLe p a b =
    ((a.is_prioritized ≡ true) × (b.is_prioritized ≡ false))
    ⊎ ((a.is_prioritized ≡ b.is_prioritized)
        × (((retained p a ≡ true) × (retained p b ≡ false))
            ⊎ ((retained p a ≡ retained p b) × StandardLe a b)))

first_by_iff :
    {P : Type 0} (x y r : Bool)
    → (r ≡ true) ↔ P
    → (first_by x y r ≡ true) ↔ (((x ≡ true) × (y ≡ false)) ⊎ ((x ≡ y) × P))
first_by_iff true false r e = (λ h. inl (refl, refl), λ h. refl)
first_by_iff false true r e = (λ h. cc, λ h. elim h [ inl p ↦ cc (p.0) | inr p ↦ cc (p.0) ])
first_by_iff true true r e =
    (λ h. inr (refl, e.0 h), λ h. elim h [ inl p ↦ cc (p.1) | inr p ↦ e.1 p.1 ])
first_by_iff false false r e =
    (λ h. inr (refl, e.0 h), λ h. elim h [ inl p ↦ cc (p.0) | inr p ↦ e.1 p.1 ])

order_le_iff :
    (p : ReschedulePolicy) (a b : SchedulingOrderInput) → (order_le p a b ≡ true) ↔ QueueLe p a b
order_le_iff p a b = rw (order_le_lem p a b) (
    first_by_iff a.is_prioritized b.is_prioritized (policy_le p a b) (
      rw (policy_le_lem p a b)
        (first_by_iff (retained p a) (retained p b) (standard_le a b) (standard_le_iff a b))))

-- Every entry of the queue stands before each later one in the order of the policy.
abbrev pub Queued : ReschedulePolicy → List SchedulingOrderInput → Type 0
Queued p [] = Unit
Queued p (x ∷ xs) = All (λ y. QueueLe p x y) xs × Queued p xs

Sorted-Queued :
    (p : ReschedulePolicy) (xs : List SchedulingOrderInput) → Sorted (order_le p) xs → Queued p xs
Sorted-Queued p [] s = tt
Sorted-Queued p (x ∷ xs) s = (
  All-mono (λ y. order_le p x y ≡ true) _ (λ y. (order_le_iff p x y).0) xs s.0,
  Sorted-Queued p xs s.1,
)

-- The sorted orders are the given orders, each as often, and every order precedes each later one
-- by priority, then retention, then due date, then falling quantity, then creation.
pub sorted_orders-Queued :
    (p : ReschedulePolicy) (orders : List SchedulingOrderInput)
    → Perm (sorted_orders p orders) orders × Queued p (sorted_orders p orders)
unfolding sorted_orders
sorted_orders-Queued p orders = (
  sort_by-perm (order_le p) orders,
  Sorted-Queued p _ (sort_by-Sorted (order_le p) (order_le_total p) (order_le_trans p) orders),
)
