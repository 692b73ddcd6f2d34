-- ===== src/Schedule/Strategy.antt =====
-- `greedyBestFitStrategy.execute` of modules/schedule/strategy.ts.
use wafer_fabrication_schedu.Base.{
  ℕ, Bool, false, not, ◌&&◌, Option, none, some, List, [], ◌∷◌, ◌++◌, find, is_some, leb, ltb, ◌==◌,
  if◌then◌else◌, pos, eqb_ℤ, or_empty,
}
use wafer_fabrication_schedu.Dates.{Date, day_of}
use wafer_fabrication_schedu.Schedule.Types.{
  OrderStatus, CapacityDraft, OrderAssignmentDraft, SchedulingAssignmentInput, SchedulingConfig,
  SchedulingFactoryInput, SchedulingOrderInput, StrategyResult, default_daily_capacity,
}
use wafer_fabrication_schedu.Schedule.CapacityMap.{CapacityMap, get, set, deduct}
use wafer_fabrication_schedu.Schedule.OrderQueue.{immutable_orders, mutable_orders, sorted_orders}
use wafer_fabrication_schedu.Schedule.Attempt.{
  Attempt, slot, remaining_quantity, window_start, window_end, window_days, rollback,
}
use wafer_fabrication_schedu.Schedule.Split.{split_loop}
use wafer_fabrication_schedu.Schedule.Block.{block_loop}

-- Step 2: the map of the given capacities.
unfoldable pub initial_map : CapacityMap → List CapacityDraft → CapacityMap
initial_map m [] = m
initial_map m (cap ∷ caps) = initial_map (set (slot cap.factory_id (day_of cap.date)) cap m) caps

-- The capacity of a factory; the later of two entries with one id wins in the source's map.
unfoldable pub factory_capacity : ℕ → List SchedulingFactoryInput → ℕ → ℕ
factory_capacity id [] found = found
factory_capacity id (f ∷ fs) found =
    factory_capacity id fs (if f.id == id then f.max_capacity else found)

-- Step 3, at one assignment that has a factory and a date.
unfoldable pub reserve_slot : List SchedulingFactoryInput → ℕ → Date → ℕ → CapacityMap → CapacityMap
unfolding factory_capacity
reserve_slot factories factory_id date quantity m =
    let key = slot factory_id (day_of date) in
    let max_cap = factory_capacity factory_id factories default_daily_capacity in
    let fresh : CapacityDraft = record {
      id = none;
      factory_id = factory_id;
      date = date;
      max_capacity = max_cap;
      cur_capacity = pos max_cap;
    } in
    elim (get key m) [
      | none ↦ deduct key quantity (set key fresh m)
      | some cap ↦ if is_some cap.id then m else deduct key quantity m
    ]

unfoldable pub reserve_assignment :
    List SchedulingFactoryInput → SchedulingAssignmentInput → CapacityMap → CapacityMap
unfolding reserve_slot
reserve_assignment factories a m = elim a.factory_id [
  | none ↦ m
  | some factory_id ↦ elim a.production_date [
    | none ↦ m
    | some date ↦ reserve_slot factories factory_id date a.assigned_quantity m
  ]
]

unfoldable pub reserve_assignments :
    List SchedulingFactoryInput → List SchedulingAssignmentInput → CapacityMap → CapacityMap
unfolding reserve_assignment
reserve_assignments factories [] m = m
reserve_assignments factories (a ∷ as_) m =
    reserve_assignments factories as_ (reserve_assignment factories a m)

unfoldable pub reserve_orders :
    List SchedulingFactoryInput → List SchedulingOrderInput → CapacityMap → CapacityMap
unfolding reserve_assignments
reserve_orders factories [] m = m
reserve_orders factories (o ∷ orders) m =
    reserve_orders factories orders (reserve_assignments factories (or_empty o.assignments) m)

-- Step 5: the attempt at one order, from the map as it stands.
unfoldable pub attempt_order :
    SchedulingConfig → List SchedulingFactoryInput → SchedulingOrderInput → CapacityMap → Attempt
unfolding remaining_quantity window_start window_end split_loop block_loop
attempt_order config factories order m =
    let start = window_start config in
    let begun : Attempt = record {
      capacities = m;
      ledger = [];
      drafts = [];
      remaining = remaining_quantity order;
    } in
    elim (window_end config order) [
      | none ↦ begun
      | some end ↦
          if leb start end && ltb 0 begun.remaining
          then (if config.splittable
              then split_loop config order.id factories end (window_days start end) (day_of start)
                  begun
              else block_loop config order.id factories end (window_days start end) (day_of start)
                  begun)
          else begun
    ]

-- What the loop over the orders carries: the map, and two arrays of the result.
pub record Progress : Type 0 where
  pub capacities : CapacityMap
  pub processed : List SchedulingOrderInput
  pub assignments : List OrderAssignmentDraft

-- The evaluation of an attempt: keep it, or roll it back.
unfoldable pub settle_order : SchedulingOrderInput → Attempt → Progress → Progress
unfolding rollback remaining_quantity
settle_order order st p =
    if st.remaining == 0
    then record {
      capacities = st.capacities;
      processed =
          p.processed
          ++ record order {
            status =
                if ltb 0 (remaining_quantity order) then OrderStatus.scheduled else order.status;
          }
            ∷ [];
      assignments =
          if ltb 0 (remaining_quantity order) then p.assignments ++ st.drafts else p.assignments;
    }
    else record {
      capacities = rollback st.ledger st.capacities;
      processed = p.processed ++ record order { status = OrderStatus.failed } ∷ [];
      assignments = p.assignments;
    }

unfoldable pub process_order :
    SchedulingConfig → List SchedulingFactoryInput → SchedulingOrderInput → Progress → Progress
unfolding attempt_order settle_order
process_order config factories order p =
    settle_order order (attempt_order config factories order p.capacities) p

unfoldable pub process_orders :
    SchedulingConfig → List SchedulingFactoryInput → List SchedulingOrderInput → Progress → Progress
unfolding process_order
process_orders config factories [] p = p
process_orders config factories (o ∷ orders) p =
    process_orders config factories orders (process_order config factories o p)

-- The final step, at one draft with an id: is it written back?
unfoldable pub is_updated : List CapacityDraft → ℕ → CapacityDraft → Bool
is_updated source id cap =
    elim (find (λ (c : CapacityDraft). elim c.id [ none ↦ false | some i ↦ i == id ]) source) [
      | none ↦ false
      | some original ↦ not (eqb_ℤ original.cur_capacity cap.cur_capacity)
    ]

unfoldable pub updated_capacities : List CapacityDraft → CapacityMap → List CapacityDraft
unfolding is_updated
updated_capacities source [] = []
updated_capacities source ((k, cap) ∷ m) =
    let rest = updated_capacities source m in
    elim cap.id [ none ↦ rest | some id ↦ if is_updated source id cap then cap ∷ rest else rest ]

unfoldable pub created_capacities : CapacityMap → List CapacityDraft
created_capacities [] = []
created_capacities ((k, cap) ∷ m) =
    let rest = created_capacities m in elim cap.id [ none ↦ cap ∷ rest | some id ↦ rest ]

-- The state at the start of the loop over the mutable orders.
unfoldable pub prepared :
    List SchedulingOrderInput → List SchedulingFactoryInput → List CapacityDraft → Progress
unfolding initial_map reserve_orders immutable_orders
prepared orders factories capacities = record {
  capacities = reserve_orders factories (immutable_orders orders) (initial_map [] capacities);
  processed = immutable_orders orders;
  assignments = [];
}

unfoldable pub execute :
    List SchedulingOrderInput
    → List SchedulingFactoryInput
    → List CapacityDraft
    → SchedulingConfig
    → Option (List CapacityDraft)
    → StrategyResult
unfolding prepared process_orders sorted_orders mutable_orders updated_capacities created_capacities
execute orders factories capacities config db_capacities =
    let done =
      process_orders config factories
        (sorted_orders config.reschedule_policy (mutable_orders orders))
        (prepared orders factories capacities) in
    let source : List CapacityDraft = elim db_capacities [ none ↦ capacities | some db ↦ db ] in
    record {
      processed_orders = done.processed;
      new_assignments = done.assignments;
      updated_capacities = updated_capacities source done.capacities;
      new_capacities = created_capacities done.capacities;
    }
