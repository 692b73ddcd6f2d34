-- ===== src/Schedule/Whole.antt =====
-- The result of modules/schedule/strategy.ts as a whole: which orders it lists, and with which status.
use wafer_fabrication_schedu.Base.{
  ◌≡◌, refl, ◌∙◌, ap, sym, Bool, not, Option, List, [], ◌∷◌, ◌++◌, map, arith, keep, ◌==◌, ltb,
  Bool-cases, inl, inr, ◌⊎◌,
}
use mathlib.Core.List.{Perm, perm_middle, append_assoc, append-nil, map-append}
use mathlib.Core.List.Perm
use wafer_fabrication_schedu.Schedule.Types.{
  OrderStatus, CapacityDraft, SchedulingConfig, SchedulingFactoryInput, SchedulingOrderInput,
}
use wafer_fabrication_schedu.Schedule.OrderQueue.{
  is_immutable, immutable_orders, mutable_orders, sorted_orders,
}
use wafer_fabrication_schedu.Schedule.OrderQueue.Order.{sorted_orders-Queued}
use wafer_fabrication_schedu.Schedule.Attempt.{remaining_quantity}
use wafer_fabrication_schedu.Schedule.Strategy.{
  Progress, attempt_order, settle_order, process_order, process_orders, prepared, execute,
}

-- An order but for its status.
abbrev pub unstamped : SchedulingOrderInput → SchedulingOrderInput
unstamped o = record o { status = OrderStatus.pending }

-- The status that the loop leaves: FAILED, SCHEDULED, or, where nothing was to be placed, the old one.
abbrev pub Settled : SchedulingOrderInput → SchedulingOrderInput → Type 0
Settled o done =
    (unstamped done ≡ unstamped o)
    × ((done.status ≡ OrderStatus.failed)
        ⊎ (done.status ≡ OrderStatus.scheduled)
        ⊎ ((remaining_quantity o ≡ 0) × (done.status ≡ o.status)))

-- The two lists agree entry by entry.
abbrev pub AllSettled : List SchedulingOrderInput → List SchedulingOrderInput → Type 0
AllSettled [] [] = Unit
AllSettled (o ∷ os) (d ∷ ds) = Settled o d × AllSettled os ds
AllSettled _ _ = ⊥

module _ (config : SchedulingConfig) (factories : List SchedulingFactoryInput) where
  process_order-settles :
      (o : SchedulingOrderInput) (p : Progress)
      → (done : SchedulingOrderInput) × ((process_order config factories o p).processed
          ≡ p.processed ++ done ∷ [])
        × Settled o done
  unfolding process_order settle_order
  process_order-settles o p =
      let st = attempt_order config factories o p.capacities in
      elim (Bool-cases (st.remaining == 0)) [
        | inr e ↦ (record o { status = OrderStatus.failed }, rw e refl, (refl, inl refl))
        | inl e ↦ elim (Bool-cases (ltb 0 (remaining_quantity o))) [
          | inl q ↦
              (record o { status = OrderStatus.scheduled }, rw (e, q) refl, (refl, inr (inl refl)))
          | inr q ↦ (o, rw (e, q) refl, (refl, inr (inr (ground arith, refl))))
        ]
      ]

  process_orders-settle :
      (orders : List SchedulingOrderInput) (p : Progress)
      → (done : List SchedulingOrderInput) × ((process_orders config factories orders p).processed
          ≡ p.processed ++ done)
        × AllSettled orders done
  unfolding process_orders
  process_orders-settle [] p = ([], sym (append-nil p.processed), tt)
  process_orders-settle (o ∷ orders) p =
      let (d, e, s) = process_order-settles o p in
      let (ds, es, ss) = process_orders-settle orders (process_order config factories o p) in
      (d ∷ ds, es ∙ ap (λ l. l ++ ds) e ∙ append_assoc p.processed (d ∷ []) ds, (s, ss))

AllSettled-unstamped :
    (orders done : List SchedulingOrderInput)
    → AllSettled orders done
    → map unstamped done ≡ map unstamped orders
AllSettled-unstamped [] [] s = refl
AllSettled-unstamped [] (d ∷ ds) s = absurd s
AllSettled-unstamped (o ∷ os) [] s = absurd s
AllSettled-unstamped (o ∷ os) (d ∷ ds) s = rw (s.0.0, AllSettled-unstamped os ds s.1) refl

keep-not-perm {ℓ} :
    {A : Type ℓ} (p : A → Bool) (xs : List A) → Perm (keep p xs ++ keep (λ x. not (p x)) xs) xs
keep-not-perm p [] = Perm.rfl
keep-not-perm p (x ∷ xs) = elim (Bool-cases (p x)) [
  | inl e ↦ rw e (Perm.cons x (keep-not-perm p xs))
  | inr e ↦ rw e (
      Perm.trans (perm_middle (keep p xs) (keep (λ y. not (p y)) xs))
        (Perm.cons x (keep-not-perm p xs)))
]

-- The strategy lists the immutable orders first, unchanged and in their order. Behind them stand the
-- other orders in the order of the queue, each with the status FAILED or SCHEDULED, or, if nothing of
-- it was to be placed, its old status. But for the statuses these are the given orders, each as often.
pub execute_processes_every_order :
    (orders : List SchedulingOrderInput) (factories : List SchedulingFactoryInput)
    (capacities : List CapacityDraft) (config : SchedulingConfig) (db : Option (List CapacityDraft))
    → (done : List SchedulingOrderInput) × ((execute orders factories capacities config
          db).processed_orders
        ≡ immutable_orders orders ++ done)
      × AllSettled (sorted_orders config.reschedule_policy (mutable_orders orders)) done
      × Perm (map unstamped (immutable_orders orders ++ done)) (map unstamped orders)
unfolding execute prepared immutable_orders mutable_orders
execute_processes_every_order orders factories capacities config db =
    let queue = sorted_orders config.reschedule_policy (mutable_orders orders) in
    let (done, e, s) =
      process_orders-settle config factories queue (prepared orders factories capacities) in
    (
      done,
      e,
      s,
      same_orders queue done s
          (sorted_orders-Queued config.reschedule_policy (mutable_orders orders)).0,
    )
  where
    same_orders :
        (queue done : List SchedulingOrderInput)
        → AllSettled queue done
        → Perm queue (mutable_orders orders)
        → Perm (map unstamped (immutable_orders orders ++ done)) (map unstamped orders)
    same_orders queue done s sorted =
        rw
          (
            map-append unstamped (immutable_orders orders) done,
            AllSettled-unstamped queue done s,
            ← map-append unstamped (immutable_orders orders) queue,
          )
          (Perm.map unstamped (
            Perm.trans (Perm.append_left (immutable_orders orders) sorted)
              (keep-not-perm is_immutable orders)))
