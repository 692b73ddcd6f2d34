-- ===== src/Schedule/Completeness.antt =====
-- A splittable order of modules/schedule/strategy.ts succeeds exactly when the window's total
-- available capacity covers it.
use wafer_fabrication_schedu.Base.{
  ℕ, zero, suc, ◌+◌, ◌*◌, ◌-◌, ◌≡◌, refl, ◌≢◌, ◌≤◌, ◌<◌, ◌∙◌, ap, true, ◌&&◌, List, [], ◌∷◌, ◌++◌,
  arith, some, All-everywhere, sum_of-congr, leb, ltb, if◌then◌else◌,
}
use wafer_fabrication_schedu.Base.Sort.{sort_by, sort_by-sum, Distinct, sort_by-Distinct}
use wafer_fabrication_schedu.Dates.{Date, day_ms, day_of}
use wafer_fabrication_schedu.Schedule.Types.{
  OrderStatus, SchedulingConfig, SchedulingFactoryInput, SchedulingOrderInput,
}
use wafer_fabrication_schedu.Schedule.CapacityMap.{CapacityMap}
use wafer_fabrication_schedu.Schedule.Attempt.{
  Attempt, slot, remaining_quantity, window_start, window_end, window_days,
}
use wafer_fabrication_schedu.Schedule.Split.{
  open_slot, open_day, best_fit_le, allocate_day, split_loop,
}
use wafer_fabrication_schedu.Schedule.Block.{block_loop}
use wafer_fabrication_schedu.Schedule.Total.{
  available, day_available, total_loop, compute_total_available_capacity,
}
use wafer_fabrication_schedu.Schedule.Strategy.{Progress, attempt_order, process_order}
use wafer_fabrication_schedu.Schedule.Rollback.{process_order_failed}
use wafer_fabrication_schedu.Schedule.Placement.{process_order-placed}
use wafer_fabrication_schedu.Schedule.Steps.{Reach, here, allocate_day-Reach, begun}
use wafer_fabrication_schedu.Schedule.Keyed.{Keyed, Reach-Keyed, Reach-other_day}
use wafer_fabrication_schedu.Schedule.Supply.{
  left, cap_owner, factory_id, allocate_caps-remaining, open_day-supply, open_day-Distinct,
}

open_day-remaining :
    (day : ℕ) (fs : List SchedulingFactoryInput) (st : Attempt)
    → (open_day day fs st).0.remaining ≡ st.remaining
unfolding open_day
open_day-remaining day [] st = refl
open_day-remaining day (f ∷ fs) st = ground (arith, open_day-remaining day fs (open_slot day f st))

module _ (config : SchedulingConfig) (order_id : ℕ) (fs : List SchedulingFactoryInput)
    (d : Distinct factory_id fs) where
  -- A day gives all that it has available, up to what remains.
  allocate_day-remaining :
      (day : ℕ) (st : Attempt)
      → Keyed st.capacities
      → (allocate_day config order_id fs day st).remaining
        ≡ st.remaining - day_available st.capacities fs day
  unfolding allocate_day
  allocate_day-remaining day st h =
      let opened_state = (open_day day fs st).0 in
      let caps = (open_day day fs st).1 in
      omega (
        arith,
        allocate_caps-remaining config order_id day (sort_by best_fit_le caps) opened_state (
            sort_by-Distinct best_fit_le cap_owner caps
              (open_day-Distinct config order_id day fs st h d)),
        sort_by-sum best_fit_le (left day opened_state.capacities) caps,
        open_day-supply config order_id day fs st h d,
        open_day-remaining day fs st,
      )

  day_Reach :
      (day : ℕ) (st : Attempt)
      → Reach
          (λ _. Unit)
          config
          order_id
          day
          (day * day_ms)
          st
          (allocate_day config order_id fs day st)
  day_Reach day st =
      allocate_day-Reach (λ _. Unit) config order_id day (day * day_ms) st fs day st
        (All-everywhere (λ _. Unit) (λ _. tt) fs) (omega arith) (omega arith) here

  day_available-other :
      (today day : ℕ) (st : Attempt)
      → day ≢ today
      → day_available (allocate_day config order_id fs today st).capacities fs day
        ≡ day_available st.capacities fs day
  unfolding day_available available
  day_available-other today day st ne =
      let after = (allocate_day config order_id fs today st).capacities in
      sum_of-congr (available after day) (available st.capacities day) fs (
        All-everywhere (λ f. available after day f ≡ available st.capacities day f)
          (λ f. ground (
            arith,
            Reach-other_day (λ _. Unit) config order_id today (slot f.id day) ne
                (day_Reach today st),
          ))
          fs)

  total_loop-other :
      (end today fuel day : ℕ) (st : Attempt)
      → today < day
      → total_loop (allocate_day config order_id fs today st).capacities fs end fuel day
        ≡ total_loop st.capacities fs end fuel day
  unfolding total_loop
  total_loop-other end today zero day st lt = refl
  total_loop-other end today (suc fuel) day st lt = rw (
    day_available-other today day st (λ e. omega arith),
    total_loop-other end today fuel (day + 1) st (omega arith),
  )

  -- The loop over the days places all that its days have available, up to what remains.
  split_loop-remaining :
      (end fuel day : ℕ) (st : Attempt)
      → Keyed st.capacities
      → (split_loop config order_id fs end fuel day st).remaining
        ≡ st.remaining - total_loop st.capacities fs end fuel day
  unfolding split_loop total_loop
  split_loop-remaining end zero day st h = omega arith
  split_loop-remaining end (suc fuel) day st h =
      let after = allocate_day config order_id fs day st in
      ground (
        arith,
        split_loop-remaining end fuel (day + 1) after
            (Reach-Keyed (λ _. Unit) config order_id day (day * day_ms) (day_Reach day st) h),
        total_loop-other end day fuel (day + 1) st (omega arith),
        allocate_day-remaining day st h,
      )

module _ (config : SchedulingConfig) (factories : List SchedulingFactoryInput)
    (order : SchedulingOrderInput) (end : Date) (window : window_end config order ≡ some end)
    (begins : window_start config ≤ end) (some_left : 0 < remaining_quantity order) where
  -- The attempt's loop is entered.
  pub attempt_order_entered :
      (m : CapacityMap)
      → attempt_order config factories order m ≡ (
          if config.splittable
          then split_loop config order.id factories end
              (window_days (window_start config) end)
              (day_of (window_start config))
              (begun order m)
          else block_loop config order.id factories end
              (window_days (window_start config) end)
              (day_of (window_start config))
              (begun order m))
  unfolding attempt_order
  attempt_order_entered m = rw (window, attempt_order) (rw entered)
    where
      entered : (leb (window_start config) end && ltb 0 (remaining_quantity order)) ≡ true
      entered = ground arith

  -- The window of an order begins on the day of startDate, whatever frozenDays is.
  -- In a splittable run, let the factories have different ids, the map file each draft under its own
  -- factory, the window of the order be a real one, and something be left to place. If the total
  -- available capacity of the window covers what is left, the order is marked SCHEDULED; if not, it is
  -- marked FAILED and nothing else changes.
  pub split_succeeds_iff_covered :
      (p : Progress)
      → Distinct factory_id factories
      → Keyed p.capacities
      → config.splittable ≡ true
      → let total =
          compute_total_available_capacity (window_start config) end factories p.capacities in
        let done = process_order config factories order p in
        (remaining_quantity order ≤ total
          → done.processed ≡ p.processed ++ record order { status = OrderStatus.scheduled } ∷ [])
        × (total < remaining_quantity order
            → done ≡ record p {
              processed = p.processed ++ record order { status = OrderStatus.failed } ∷ [];
            })
  unfolding compute_total_available_capacity
  split_succeeds_iff_covered p d h s = (
    λ le. placed_status (omega (arith, left_over)),
    λ lt. process_order_failed config factories order p (λ e. omega (arith, left_over)),
  )
    where
      left_over :
          (attempt_order config factories order p.capacities).remaining
          ≡ remaining_quantity order
            - total_loop p.capacities factories end
                (window_days (window_start config) end)
                (day_of (window_start config))
      left_over =
          ap (λ (st : Attempt). st.remaining) (attempt_order_entered p.capacities)
          ∙ simp s (
              split_loop-remaining config order.id factories d end
                (window_days (window_start config) end) (day_of (window_start config))
                (begun order p.capacities) h)

      placed_status :
          (attempt_order config factories order p.capacities).remaining ≡ 0
          → (process_order config factories order p).processed
            ≡ p.processed ++ record order { status = OrderStatus.scheduled } ∷ []
      placed_status e = (process_order-placed config factories order p some_left e).4
