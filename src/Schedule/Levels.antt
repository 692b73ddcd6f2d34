-- ===== src/Schedule/Levels.antt =====
-- The counters of the slots in modules/schedule/strategy.ts: what the new assignments take is what
-- the counters lose, and no counter is taken below zero.
use wafer_fabrication_schedu.Base.{
  ℕ, ◌+◌, ◌≡◌, refl, ap, ◌∙◌, Bool, true, false, none, some, List, [], ◌∷◌, arith, ◌==◌, ltb, inl,
  inr, All, sum_of, sum_of-append, if◌then◌else◌, ℤ, pos, pos_part, neg_part, ◌-ℤ◌, ◌+ℤ◌,
  Bool-cases, int_laws,
}
use wafer_fabrication_schedu.Dates.{Date, day_of}
use wafer_fabrication_schedu.Schedule.Types.{
  CapacityDraft, OrderAssignmentDraft, SchedulingConfig, SchedulingFactoryInput,
  SchedulingOrderInput,
}
use wafer_fabrication_schedu.Schedule.CapacityMap.{
  SlotKey, CapacityMap, same_key, get, set, deduct, get-set, get-adjust,
}
use wafer_fabrication_schedu.Schedule.Attempt.{
  Attempt, slot, new_capacity, draft_for, window_start, remaining_quantity,
}
use wafer_fabrication_schedu.Schedule.Steps.{
  Step, creates, takes, Reach, here, next, begun, attempt_order-Reach,
}
use wafer_fabrication_schedu.Schedule.Strategy.{
  Progress, attempt_order, settle_order, process_order, process_orders,
}
use wafer_fabrication_schedu.Schedule.Rollback.{process_order_failed}

-- The key of the slot that an assignment uses.
abbrev pub slot_of : OrderAssignmentDraft → SlotKey
slot_of d = slot d.factory_id (day_of d.production_date)

-- How much the assignments take from a slot.
abbrev pub taken_at : SlotKey → OrderAssignmentDraft → ℕ
taken_at k d = if same_key (slot_of d) k then d.assigned_quantity else 0

abbrev pub booked : SlotKey → List OrderAssignmentDraft → ℕ
booked k drafts = sum_of (taken_at k) drafts

-- The counter of a slot; without a draft it is the capacity of the factory.
abbrev pub level : (ℕ → ℕ) → SlotKey → CapacityMap → ℤ
level capacity k m = elim (get k m) [ none ↦ pos (capacity k.factory) | some c ↦ c.cur_capacity ]

-- `capacity` gives the maximal capacity of each factory.
abbrev pub HasCapacity : (ℕ → ℕ) → SchedulingFactoryInput → Type 0
HasCapacity capacity f = capacity f.id ≡ f.max_capacity

-- A quantity that is taken from a counter, or from another one, and booked where it is taken.
moved_balance :
    (at_slot : Bool) (z : ℤ) (quantity taken : ℕ)
    → (if at_slot then z -ℤ pos quantity else z)
        +ℤ pos (taken + ((if at_slot then quantity else 0) + 0))
      ≡ z +ℤ pos taken
moved_balance true z quantity taken = omega int_laws
moved_balance false z quantity taken = ap (λ n. z +ℤ pos n) (omega arith)

add_booked : (z w : ℤ) (x y : ℕ) → z +ℤ pos x ≡ w +ℤ pos 0 → z +ℤ pos (y + x) ≡ w +ℤ pos y
add_booked z w x y h = omega (int_laws, ap pos_part h, ap neg_part h)

module _ (capacity : ℕ → ℕ) (k : SlotKey) where
  level-create :
      (f : SchedulingFactoryInput) (day : ℕ) (m : CapacityMap)
      → HasCapacity capacity f
      → get (slot f.id day) m ≡ none
      → level capacity k (set (slot f.id day) (new_capacity f day) m) ≡ level capacity k m
  level-create f day m h e = elim (Bool-cases (same_key (slot f.id day) k)) [
    | inl s ↦ ground (arith, get-set (slot f.id day) k (new_capacity f day) m)
    | inr s ↦ ground (arith, get-set (slot f.id day) k (new_capacity f day) m)
  ]

  level-deduct :
      (j : SlotKey) (quantity : ℕ) (c : CapacityDraft) (m : CapacityMap)
      → get j m ≡ some c
      → level capacity k (deduct j quantity m)
        ≡ (if same_key j k then level capacity k m -ℤ pos quantity else level capacity k m)
  level-deduct j quantity c m e = ground (arith, get-adjust j k (λ z. z -ℤ pos quantity) m)

  booked-draft :
      (config : SchedulingConfig) (order_id factory day quantity : ℕ)
      → booked k (draft_for config order_id factory day quantity ∷ [])
        ≡ (if same_key (slot factory day) k then quantity else 0) + 0
  unfolding draft_for
  booked-draft config order_id factory day quantity = ground arith

  -- What the counter has lost is what the drafts have taken.
  abbrev Balanced : ℤ → CapacityMap → List OrderAssignmentDraft → Type 0
  Balanced total m drafts = level capacity k m +ℤ pos (booked k drafts) ≡ total

  module _ (config : SchedulingConfig) (order_id first : ℕ) (end : Date) where
    Step-Balanced :
        (total : ℤ) {st st' : Attempt}
        → Step (HasCapacity capacity) config order_id first end st st'
        → Balanced total st.capacities st.drafts
        → Balanced total st'.capacities st'.drafts
    Step-Balanced total (creates f day st from absent _ _) b =
        rw (level-create f day st.capacities from absent) b
    Step-Balanced total (takes factory day quantity c st found _ _ _ _ _) b =
        rw
          (
            level-deduct (slot factory day) quantity c st.capacities found,
            sum_of-append (taken_at k) st.drafts
                (draft_for config order_id factory day quantity ∷ []),
            booked-draft config order_id factory day quantity,
          )
          (moved_balance (same_key (slot factory day) k) (level capacity k st.capacities) quantity
              (booked k st.drafts)
            ∙ b)

    Reach-Balanced :
        (total : ℤ) {st st' : Attempt}
        → Reach (HasCapacity capacity) config order_id first end st st'
        → Balanced total st.capacities st.drafts
        → Balanced total st'.capacities st'.drafts
    Reach-Balanced total here b = b
    Reach-Balanced total (next r s) b = Step-Balanced total s (Reach-Balanced total r b)

module _ (capacity : ℕ → ℕ) (k : SlotKey) (config : SchedulingConfig)
    (factories : List SchedulingFactoryInput) (known : All (HasCapacity capacity) factories) where
  abbrev total_of : Progress → ℤ
  total_of p = level capacity k p.capacities +ℤ pos (booked k p.assignments)

  attempt_order-Balanced :
      (order : SchedulingOrderInput) (m : CapacityMap)
      → let st = attempt_order config factories order m in
        Balanced capacity k (level capacity k m +ℤ pos 0) st.capacities st.drafts
  attempt_order-Balanced order m =
      elim (attempt_order-Reach (HasCapacity capacity) config factories order m known) [
        | inl e ↦ rw e refl
        | inr (end, _, _, r) ↦
            Reach-Balanced capacity k config order.id (day_of (window_start config)) end
              (level capacity k m +ℤ pos 0) r refl
      ]

  -- An order with nothing to place leaves the map as it is.
  attempt_order_idle :
      (order : SchedulingOrderInput) (m : CapacityMap)
      → remaining_quantity order ≡ 0
      → attempt_order config factories order m ≡ begun order m
  attempt_order_idle order m z =
      elim (attempt_order-Reach (HasCapacity capacity) config factories order m known) [
        | inl e ↦ e
        | inr (end, _, q, _) ↦ absurd (omega arith)
      ]

  process_order-total :
      (order : SchedulingOrderInput) (p : Progress)
      → total_of (process_order config factories order p) ≡ total_of p
  unfolding process_order settle_order
  process_order-total order p =
      let st = attempt_order config factories order p.capacities in
      elim (Bool-cases (st.remaining == 0)) [
        | inr e ↦ ap total_of (process_order_failed config factories order p (ground arith))
        | inl e ↦ elim (Bool-cases (ltb 0 (remaining_quantity order))) [
          | inl q ↦
              rw (e, q, sum_of-append (taken_at k) p.assignments st.drafts)
                (add_booked _ (level capacity k p.capacities) (booked k st.drafts)
                  (booked k p.assignments) (attempt_order-Balanced order p.capacities))
          | inr q ↦
              let idle = attempt_order_idle order p.capacities (ground arith) in
              ground (arith, idle)
        ]
      ]

  -- Let `capacity` give the maximal capacity of each factory of the run. In every slot, the counter
  -- and the quantity that the run's new assignments take from the slot have the same sum after the
  -- loop over the orders as before it, where a slot without a counter counts as `capacity` of its
  -- factory.
  pub process_orders_conserve :
      (orders : List SchedulingOrderInput) (p : Progress)
      → let done = process_orders config factories orders p in
        level capacity k done.capacities +ℤ pos (booked k done.assignments)
        ≡ level capacity k p.capacities +ℤ pos (booked k p.assignments)
  unfolding process_orders
  process_orders_conserve [] p = refl
  process_orders_conserve (o ∷ orders) p =
      process_orders_conserve orders (process_order config factories o p) ∙ process_order-total o p
