-- ===== src/Schedule/Placement.antt =====
-- Where modules/schedule/strategy.ts places an order: in its window, and in its whole quantity.
use wafer_fabrication_schedu.Base.{
  ℕ, ◌+◌, ◌*◌, ◌≡◌, refl, ◌≤◌, ◌<◌, some, List, [], ◌∷◌, ◌++◌, arith, inl, inr, All, All-append,
  All-everywhere, sum_of, sum_of-append,
}
use wafer_fabrication_schedu.Dates.{Date, day_ms, day_of, plus_days, to_utc_date_only}
use wafer_fabrication_schedu.Schedule.Types.{
  AssignmentStatus, OrderStatus, OrderAssignmentDraft, SchedulingConfig, SchedulingFactoryInput,
  SchedulingOrderInput,
}
use wafer_fabrication_schedu.Schedule.Attempt.{
  Attempt, draft_for, remaining_quantity, window_start, window_end,
}
use wafer_fabrication_schedu.Schedule.Steps.{
  Step, creates, takes, Reach, here, next, attempt_order-Reach,
}
use wafer_fabrication_schedu.Schedule.Strategy.{
  Progress, attempt_order, settle_order, process_order,
}

abbrev pub placed : List OrderAssignmentDraft → ℕ
placed drafts = sum_of (λ (d : OrderAssignmentDraft). d.assigned_quantity) drafts

-- A virtual assignment as it should be: of the order, of a positive quantity, on a UTC midnight in
-- the window from `start` to `end`, and complete `production_days` later.
pub record IsPlaced (config : SchedulingConfig) (order : SchedulingOrderInput) (end : Date)
    (d : OrderAssignmentDraft) : Type 0 where
  pub owner : d.order_id ≡ order.id
  pub planned : d.status ≡ AssignmentStatus.scheduled
  pub positive : 0 < d.assigned_quantity
  pub midnight : to_utc_date_only d.production_date ≡ d.production_date
  pub from_start : window_start config ≤ d.production_date
  pub to_end : d.production_date ≤ end
  pub completes : d.completion_date ≡ plus_days d.production_date config.production_days

module _ (From : SchedulingFactoryInput → Type 0) (config : SchedulingConfig)
    (order : SchedulingOrderInput) (end : Date) where
  abbrev Good : Attempt → Type 0
  Good st =
      (placed st.drafts + st.remaining ≡ remaining_quantity order)
      × All (IsPlaced config order end) st.drafts

  draft_for-IsPlaced :
      (factory day quantity : ℕ)
      → 0 < quantity
      → day_of (window_start config) ≤ day
      → day * day_ms ≤ end
      → IsPlaced config order end (draft_for config order.id factory day quantity)
  unfolding draft_for to_utc_date_only window_start
  draft_for-IsPlaced factory day quantity q lo hi = record {
    owner = refl;
    planned = refl;
    positive = q;
    midnight = omega arith;
    from_start = omega arith;
    to_end = hi;
    completes = refl;
  }

  draft_for-quantity :
      (factory day quantity : ℕ)
      → (draft_for config order.id factory day quantity).assigned_quantity ≡ quantity
  unfolding draft_for
  draft_for-quantity factory day quantity = refl

  Step-Good :
      {st st' : Attempt}
      → Step From config order.id (day_of (window_start config)) end st st'
      → Good st
      → Good st'
  Step-Good (creates factory day st _ _ _ _) g = g
  Step-Good (takes factory day quantity cap st _ q le _ lo hi) g = (
    omega (
      arith,
      sum_of-append (λ (d : OrderAssignmentDraft). d.assigned_quantity) st.drafts
          (draft_for config order.id factory day quantity ∷ []),
      draft_for-quantity factory day quantity,
      g.0,
    ),
    All-append (IsPlaced config order end) st.drafts
        (draft_for config order.id factory day quantity ∷ []) g.1
        (draft_for-IsPlaced factory day quantity q lo hi, tt),
  )

  Reach-Good :
      {st st' : Attempt}
      → Reach From config order.id (day_of (window_start config)) end st st'
      → Good st
      → Good st'
  Reach-Good here g = g
  Reach-Good (next r s) g = Step-Good s (Reach-Good r g)

-- If an order with something to place succeeds, it is marked SCHEDULED, and new assignments are
-- added at the end of the result: they sum to the quantity that was to be placed, each is of this
-- order and of a positive quantity, and starts on a midnight of the window.
pub process_order-placed :
    (config : SchedulingConfig) (factories : List SchedulingFactoryInput)
    (order : SchedulingOrderInput) (p : Progress)
    → 0 < remaining_quantity order
    → (attempt_order config factories order p.capacities).remaining ≡ 0
    → (end : Date) × (drafts : List OrderAssignmentDraft) × (window_end config order ≡ some end)
      × ((process_order config factories order p).assignments ≡ p.assignments ++ drafts)
      × ((process_order config factories order p).processed
          ≡ p.processed ++ record order { status = OrderStatus.scheduled } ∷ [])
      × (placed drafts ≡ remaining_quantity order)
      × All (IsPlaced config order end) drafts
unfolding process_order settle_order
process_order-placed config factories order p q e =
    elim (attempt_order-Reach (λ _. Unit) config factories order p.capacities
      (All-everywhere (λ _. Unit) (λ _. tt) factories)) [
        | inl same ↦ absurd (ground arith)
        | inr (end, window, _, r) ↦
            let good = Reach-Good (λ _. Unit) config order end r (omega arith, tt) in
            (
              end,
              (attempt_order config factories order p.capacities).drafts,
              window,
              ground arith,
              ground arith,
              ground arith,
              good.1,
            )
      ]
