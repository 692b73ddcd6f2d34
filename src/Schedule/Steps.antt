-- ===== src/Schedule/Steps.antt =====
-- An attempt of modules/schedule/strategy.ts as a step relation: it creates the drafts of slots that
-- have none, and takes quantities that a slot in the window can give. Both branches of the source,
-- splittable or not, are runs of these steps.
use wafer_fabrication_schedu.Base.{
  ℕ, zero, suc, ◌+◌, ◌*◌, ◌≡◌, ◌≤◌, ◌<◌, false, not, ◌&&◌, none, some, List, [], ◌∷◌, arith, All,
  leb, ltb, ◌==◌, ◌⊎◌, inl, inr, Bool-cases, Option-cases, if_ind, pos, leb_ℤ, pos_part, min,
}
use mathlib.Core.Path.{subst}
use wafer_fabrication_schedu.Base.Sort.{sort_by}
use wafer_fabrication_schedu.Dates.{Date, day_ms, day_of}
use wafer_fabrication_schedu.Schedule.Types.{
  CapacityDraft, SchedulingConfig, SchedulingFactoryInput, SchedulingOrderInput,
}
use wafer_fabrication_schedu.Schedule.CapacityMap.{CapacityMap, get, get-set, same_key_refl}
use wafer_fabrication_schedu.Schedule.Attempt.{
  Attempt, slot, new_capacity, create_slot, take_slot, window_start, window_end, window_days,
  remaining_quantity,
}
use wafer_fabrication_schedu.Schedule.Split.{
  open_slot, open_day, best_fit_le, allocate_slot, allocate_caps, allocate_day, split_loop, current,
}
use wafer_fabrication_schedu.Schedule.Block.{block_day, block_loop, simulated}
use wafer_fabrication_schedu.Schedule.Strategy.{attempt_order}

-- `From` says which factories there are.
module _ (From : SchedulingFactoryInput → Type 0) (config : SchedulingConfig) (order_id : ℕ)
    (first : ℕ) (end : Date) where
  pub data Step : Attempt → Attempt → Type 0 where
    creates :
        (factory : SchedulingFactoryInput) (day : ℕ) (st : Attempt)
        → From factory
        → get (slot factory.id day) st.capacities ≡ none
        → first ≤ day
        → day * day_ms ≤ end
        → Step st (create_slot factory day st)
    takes :
        (factory day quantity : ℕ) (cap : CapacityDraft) (st : Attempt)
        → get (slot factory day) st.capacities ≡ some cap
        → 0 < quantity
        → quantity ≤ st.remaining
        → quantity ≤ pos_part cap.cur_capacity
        → first ≤ day
        → day * day_ms ≤ end
        → Step st (take_slot config order_id factory day quantity st)

  pub data Reach (st : Attempt) : Attempt → Type 0 where
    here : Reach st st
    next : {t u : Attempt} → Reach st t → Step t u → Reach st u

  pub open_slot-Reach :
      (s : Attempt) (day : ℕ) (factory : SchedulingFactoryInput) (st : Attempt)
      → From factory
      → first ≤ day
      → day * day_ms ≤ end
      → Reach s st
      → Reach s (open_slot day factory st)
  unfolding open_slot
  open_slot-Reach s day factory st fr lo hi r =
      elim (Option-cases (get (slot factory.id day) st.capacities)) [
        | inl e ↦ rw (e, open_slot) (next r (creates factory day st fr e lo hi))
        | inr (c, e) ↦ rw (e, open_slot) r
      ]

  pub open_day-Reach :
      (s : Attempt) (day : ℕ) (factories : List SchedulingFactoryInput) (st : Attempt)
      → All From factories
      → first ≤ day
      → day * day_ms ≤ end
      → Reach s st
      → Reach s (open_day day factories st).0
  unfolding open_day
  open_day-Reach s day [] st fr lo hi r = r
  open_day-Reach s day (f ∷ fs) st fr lo hi r =
      open_day-Reach s day fs (open_slot day f st) fr.1 lo hi
        (open_slot-Reach s day f st fr.0 lo hi r)

  -- A slot that `allocate_caps` takes from has a draft with something left.
  current_found :
      (day : ℕ) (cap : CapacityDraft) (m : CapacityMap)
      → leb_ℤ (current day cap m) (pos 0) ≡ false
      → (c : CapacityDraft) × (get (slot cap.factory_id day) m ≡ some c)
        × (0 < pos_part c.cur_capacity)
        × (current day cap m ≡ c.cur_capacity)
  current_found day cap m h = elim (Option-cases (get (slot cap.factory_id day) m)) [
    | inl e ↦ ground arith
    | inr (c, e) ↦ (c, e, ground arith, rw (e, current))
  ]

  allocate_caps-Reach :
      (s : Attempt) (day : ℕ) (caps : List CapacityDraft) (st : Attempt)
      → first ≤ day
      → day * day_ms ≤ end
      → Reach s st
      → Reach s (allocate_caps config order_id day caps st)
  unfolding allocate_caps
  allocate_caps-Reach s day [] st lo hi r = r
  allocate_caps-Reach s day (cap ∷ caps) st lo hi r = elim (Bool-cases (st.remaining == 0)) [
    | inl e ↦ rw e r
    | inr e ↦ elim (Bool-cases (leb_ℤ (current day cap st.capacities) (pos 0))) [
      | inl d ↦ rw (e, d) (allocate_caps-Reach s day caps st lo hi r)
      | inr d ↦
          let (c, found, positive, same) = current_found day cap st.capacities d in
          rw (e, d)
            (allocate_caps-Reach s day caps (allocate_slot config order_id day cap st) lo hi (
              next r (
                takes cap.factory_id day
                  (min st.remaining (pos_part (current day cap st.capacities))) c st found
                  (rw same (ground arith)) (omega arith) (rw same (omega arith)) lo hi)))
    ]
  ]

  pub allocate_day-Reach :
      (s : Attempt) (factories : List SchedulingFactoryInput) (day : ℕ) (st : Attempt)
      → All From factories
      → first ≤ day
      → day * day_ms ≤ end
      → Reach s st
      → Reach s (allocate_day config order_id factories day st)
  unfolding allocate_day
  allocate_day-Reach s factories day st fr lo hi r =
      allocate_caps-Reach s day (sort_by best_fit_le (open_day day factories st).1)
        (open_day day factories st).0 lo hi (open_day-Reach s day factories st fr lo hi r)

  split_loop-Reach :
      (s : Attempt) (factories : List SchedulingFactoryInput) (fuel day : ℕ) (st : Attempt)
      → All From factories
      → first ≤ day
      → Reach s st
      → Reach s (split_loop config order_id factories end fuel day st)
  unfolding split_loop
  split_loop-Reach s factories zero day st fr lo r = r
  split_loop-Reach s factories (suc fuel) day st fr lo r =
      elim (Bool-cases (leb (day * day_ms) end && not (st.remaining == 0))) [
        | inl e ↦ rw e (
            split_loop-Reach s factories fuel (day + 1)
              (allocate_day config order_id factories day st) fr (omega arith)
              (allocate_day-Reach s factories day st fr lo (ground arith) r))
        | inr e ↦ rw e r
      ]

  -- The draft of an opened slot shows what the search saw.
  get-open_slot :
      (day : ℕ) (factory : SchedulingFactoryInput) (st : Attempt)
      → (c : CapacityDraft) × (get (slot factory.id day) (open_slot day factory st).capacities
          ≡ some c)
        × (c.cur_capacity ≡ simulated day factory st.capacities)
  unfolding open_slot simulated
  get-open_slot day factory st = elim (Option-cases (get (slot factory.id day) st.capacities)) [
    | inl e ↦ (
      new_capacity factory day,
      rw (e, open_slot, get-set, same_key_refl (slot factory.id day)),
      rw (e, simulated),
    )
    | inr (c, e) ↦ (c, rw (e, open_slot) e, rw (e, simulated))
  ]

  open_slot-remaining :
      (day : ℕ) (factory : SchedulingFactoryInput) (st : Attempt)
      → (open_slot day factory st).remaining ≡ st.remaining
  unfolding open_slot
  open_slot-remaining day factory st = ground arith

  block_day-Reach :
      (s : Attempt) (factories : List SchedulingFactoryInput) (day : ℕ) (st st' : Attempt)
      → block_day config order_id factories day st ≡ some st'
      → All From factories
      → 0 < st.remaining
      → first ≤ day
      → day * day_ms ≤ end
      → Reach s st
      → Reach s st'
  unfolding block_day
  block_day-Reach s [] day st st' e fr q lo hi r = cc
  block_day-Reach s (f ∷ fs) day st st' e fr q lo hi r =
      elim (Bool-cases (leb_ℤ (pos st.remaining) (simulated day f st.capacities))) [
        | inl d ↦
            let (c, found, level) = get-open_slot day f st in
            let same = open_slot-remaining day f st in
            let same_end : take_slot config order_id f.id day st.remaining (open_slot day f st)
                ≡ st' =
              ground arith in
            subst (Reach s) same_end (
              next (open_slot-Reach s day f st fr.0 lo hi r) (
                takes f.id day st.remaining c (open_slot day f st) found q (omega arith)
                  (ground arith) lo hi))
        | inr d ↦ block_day-Reach s fs day st st' (ground arith) fr.1 q lo hi r
      ]

  block_loop-Reach :
      (s : Attempt) (factories : List SchedulingFactoryInput) (fuel day : ℕ) (st : Attempt)
      → All From factories
      → 0 < st.remaining
      → first ≤ day
      → Reach s st
      → Reach s (block_loop config order_id factories end fuel day st)
  unfolding block_loop
  block_loop-Reach s factories zero day st fr q lo r = r
  block_loop-Reach s factories (suc fuel) day st fr q lo r =
      elim (Bool-cases (leb (day * day_ms) end)) [
        | inr e ↦ rw e r
        | inl e ↦ elim (Option-cases (block_day config order_id factories day st)) [
          | inl d ↦ rw (e, d) (block_loop-Reach s factories fuel (day + 1) st fr q (omega arith) r)
          | inr (st', d) ↦
              rw (e, d) (block_day-Reach s factories day st st' d fr q lo (ground arith) r)
        ]
      ]

-- The attempt at an order, before its first step.
abbrev pub begun : SchedulingOrderInput → CapacityMap → Attempt
begun order m = record {
  capacities = m;
  ledger = [];
  drafts = [];
  remaining = remaining_quantity order;
}

-- What is left of an attempt: it has not begun, since nothing is left or no day is in the window,
-- or it is a run of steps in the window.
pub attempt_order-Reach :
    (From : SchedulingFactoryInput → Type 0) (config : SchedulingConfig)
    (factories : List SchedulingFactoryInput) (order : SchedulingOrderInput) (m : CapacityMap)
    → All From factories
    → (attempt_order config factories order m ≡ begun order m)
      ⊎ ((end : Date) × (window_end config order ≡ some end)
          × (0 < remaining_quantity order)
          × Reach From config order.id
              (day_of (window_start config))
              end
              (begun order m)
              (attempt_order config factories order m))
unfolding attempt_order
attempt_order-Reach From config factories order m fr =
    elim (Option-cases (window_end config order)) [
      | inl e ↦ inl (rw (e, attempt_order))
      | inr (end, e) ↦
          let start = window_start config in
          elim (Bool-cases (leb start end && ltb 0 (remaining_quantity order))) [
            | inr d ↦ inl (rw (e, attempt_order, d))
            | inl d ↦
                let run = Reach From config order.id (day_of start) end (begun order m) in
                inr (
                  end,
                  e,
                  ground arith,
                  rw (e, attempt_order, d)
                      (if_ind run config.splittable
                        (split_loop-Reach From config order.id (day_of start) end (begun order m)
                          factories (window_days start end) (day_of start) (begun order m) fr
                          (omega arith) here)
                        (block_loop-Reach From config order.id (day_of start) end (begun order m)
                          factories (window_days start end) (day_of start) (begun order m) fr
                          (ground arith) (omega arith) here)),
                )
          ]
    ]
