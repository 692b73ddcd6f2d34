-- ===== src/Schedule/Overdraft.antt =====
-- No slot is sold twice in modules/schedule/strategy.ts: the loop over the mutable orders takes no
-- counter below zero.
use wafer_fabrication_schedu.Base.{
  ℕ, ◌≡◌, refl, ◌≤◌, ◌∙◌, ap, List, [], ◌∷◌, arith, some, none, ◌==◌, inl, inr, Bool-cases, sum_of,
  ℤ, pos, pos_part, neg_part, ◌-ℤ◌, -ℤ_parts, parts_sign, All-everywhere,
}
use wafer_fabrication_schedu.Dates.{Date, day_of}
use wafer_fabrication_schedu.Schedule.Types.{
  CapacityDraft, SchedulingConfig, SchedulingFactoryInput, SchedulingOrderInput,
}
use wafer_fabrication_schedu.Schedule.CapacityMap.{SlotKey, CapacityMap, get, set, adjust, deduct}
use wafer_fabrication_schedu.Schedule.Attempt.{Attempt, slot, new_capacity, window_start}
use wafer_fabrication_schedu.Schedule.Steps.{
  Step, creates, takes, Reach, here, next, attempt_order-Reach,
}
use wafer_fabrication_schedu.Schedule.Strategy.{
  Progress, attempt_order, settle_order, process_order, process_orders,
}
use wafer_fabrication_schedu.Schedule.Rollback.{process_order_failed}

-- How far the counter of an entry lies below zero, and the sum of that over the map.
abbrev pub deficit : SlotKey × CapacityDraft → ℕ
deficit e = neg_part e.1.cur_capacity

abbrev pub overdraft : CapacityMap → ℕ
overdraft m = sum_of deficit m

overdraft-create :
    (k : SlotKey) (f : SchedulingFactoryInput) (day : ℕ) (m : CapacityMap)
    → get k m ≡ none
    → overdraft (set k (new_capacity f day) m) ≡ overdraft m
unfolding get set
overdraft-create k f day [] h = refl
overdraft-create k f day ((j, c) ∷ m) h = ground (arith, overdraft-create k f day m)

deficit-sub : (a : ℤ) (q : ℕ) → q ≤ pos_part a → neg_part (a -ℤ pos q) ≡ neg_part a
deficit-sub a q h = omega (arith, -ℤ_parts a (pos q), parts_sign a, parts_sign (a -ℤ pos q))

overdraft-deduct :
    (k : SlotKey) (q : ℕ) (cap : CapacityDraft) (m : CapacityMap)
    → get k m ≡ some cap
    → q ≤ pos_part cap.cur_capacity
    → overdraft (deduct k q m) ≡ overdraft m
unfolding get adjust
overdraft-deduct k q cap [] h le = refl
overdraft-deduct k q cap ((j, c) ∷ m) h le =
    ground (arith, overdraft-deduct k q cap m, deficit-sub c.cur_capacity q)

module _ (config : SchedulingConfig) where
  module _ (order_id first : ℕ) (end : Date) where
    Step-overdraft :
        {st st' : Attempt}
        → Step (λ _. Unit) config order_id first end st st'
        → overdraft st'.capacities ≡ overdraft st.capacities
    Step-overdraft (creates f day st _ absent _ _) =
        overdraft-create (slot f.id day) f day st.capacities absent
    Step-overdraft (takes factory day q c st found _ _ le _ _) =
        overdraft-deduct (slot factory day) q c st.capacities found le

    Reach-overdraft :
        {st st' : Attempt}
        → Reach (λ _. Unit) config order_id first end st st'
        → overdraft st'.capacities ≡ overdraft st.capacities
    Reach-overdraft here = refl
    Reach-overdraft (next r s) = Step-overdraft s ∙ Reach-overdraft r

  module _ (factories : List SchedulingFactoryInput) where
    attempt_order-overdraft :
        (order : SchedulingOrderInput) (m : CapacityMap)
        → overdraft (attempt_order config factories order m).capacities ≡ overdraft m
    attempt_order-overdraft order m =
        elim (attempt_order-Reach (λ _. Unit) config factories order m
          (All-everywhere (λ _. Unit) (λ _. tt) factories)) [
            | inl e ↦ rw e refl
            | inr (end, _, _, r) ↦ Reach-overdraft order.id (day_of (window_start config)) end r
          ]

    process_order-overdraft :
        (order : SchedulingOrderInput) (p : Progress)
        → overdraft (process_order config factories order p).capacities ≡ overdraft p.capacities
    unfolding process_order settle_order
    process_order-overdraft order p =
        let st = attempt_order config factories order p.capacities in
        elim (Bool-cases (st.remaining == 0)) [
          | inr e ↦
              ap (λ (q : Progress). overdraft q.capacities)
                (process_order_failed config factories order p (ground arith))
          | inl e ↦ rw e (attempt_order-overdraft order p.capacities)
        ]

    -- The sum of what the counters of capacity lie below zero is the same after the loop over the
    -- orders as before it: so none is below zero after it if none was before.
    pub process_orders-overdraft :
        (orders : List SchedulingOrderInput) (p : Progress)
        → overdraft (process_orders config factories orders p).capacities ≡ overdraft p.capacities
    unfolding process_orders
    process_orders-overdraft [] p = refl
    process_orders-overdraft (o ∷ orders) p =
        process_orders-overdraft orders (process_order config factories o p)
        ∙ process_order-overdraft o p
