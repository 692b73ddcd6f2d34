-- ===== src/Schedule/Rollback.antt =====
-- The rollback ledger of modules/schedule/strategy.ts: undoing an attempt gives the map back.
use wafer_fabrication_schedu.Base.{
  ℕ, ◌≡◌, refl, ◌≢◌, ap, ◌∙◌, List, [], ◌∷◌, ◌++◌, arith, inl, inr, All-everywhere,
}
use wafer_fabrication_schedu.Dates.{Date, day_of}
use wafer_fabrication_schedu.Schedule.Types.{
  OrderStatus, SchedulingConfig, SchedulingFactoryInput, SchedulingOrderInput,
}
use wafer_fabrication_schedu.Schedule.CapacityMap.{CapacityMap, delete-set, restore-deduct}
use wafer_fabrication_schedu.Schedule.Attempt.{
  Attempt, slot, new_capacity, rollback, undo, window_start,
}
use wafer_fabrication_schedu.Schedule.Steps.{
  Step, creates, takes, Reach, here, next, attempt_order-Reach,
}
use wafer_fabrication_schedu.Schedule.Strategy.{
  Progress, attempt_order, settle_order, process_order,
}

-- The ledger leads back to the map from which the attempt began.
abbrev Tracks : CapacityMap → Attempt → Type 0
Tracks m st = rollback st.ledger st.capacities ≡ m

module _ (m : CapacityMap) (From : SchedulingFactoryInput → Type 0) (config : SchedulingConfig)
    (order_id first : ℕ) (end : Date) where
  Step-Tracks :
      {st st' : Attempt} → Step From config order_id first end st st' → Tracks m st → Tracks m st'
  unfolding rollback undo
  Step-Tracks (creates factory day st _ absent _ _) h =
      ap (rollback st.ledger)
        (delete-set (slot factory.id day) (new_capacity factory day) st.capacities absent)
      ∙ h
  Step-Tracks (takes factory day quantity cap st _ _ _ _ _ _) h =
      ap (rollback st.ledger) (restore-deduct (slot factory day) quantity st.capacities) ∙ h

  Reach-Tracks :
      {st st' : Attempt} → Reach From config order_id first end st st' → Tracks m st → Tracks m st'
  Reach-Tracks here h = h
  Reach-Tracks (next r s) h = Step-Tracks s (Reach-Tracks r h)

attempt_order-Tracks :
    (config : SchedulingConfig) (factories : List SchedulingFactoryInput)
    (order : SchedulingOrderInput) (m : CapacityMap)
    → Tracks m (attempt_order config factories order m)
unfolding rollback
attempt_order-Tracks config factories order m =
    elim (attempt_order-Reach (λ _. Unit) config factories order m
      (All-everywhere (λ _. Unit) (λ _. tt) factories)) [
        | inl e ↦ rw e refl
        | inr (end, _, _, r) ↦
            Reach-Tracks m (λ _. Unit) config order.id (day_of (window_start config)) end r refl
      ]

-- An order whose quantity cannot be placed in full is marked FAILED and gets no assignment, and the
-- map of capacities is the one from before the attempt: the same entries in the same places.
pub process_order_failed :
    (config : SchedulingConfig) (factories : List SchedulingFactoryInput)
    (order : SchedulingOrderInput) (p : Progress)
    → (attempt_order config factories order p.capacities).remaining ≢ 0
    → process_order config factories order p
      ≡ record p { processed = p.processed ++ record order { status = OrderStatus.failed } ∷ [] }
unfolding process_order settle_order
process_order_failed config factories order p h =
    ground (arith, attempt_order-Tracks config factories order p.capacities)
