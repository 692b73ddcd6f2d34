-- ===== src/Schedule/Attempt.antt =====
-- One order's attempt in modules/schedule/strategy.ts: its window, the quantity that is left, the
-- ledger for the rollback, and the two changes that an attempt makes.
use wafer_fabrication_schedu.Base.{
  ℕ, ◌+◌, ◌-◌, ◌*◌, Bool, true, false, Option, none, some, List, [], ◌∷◌, ◌++◌, ltb, if◌then◌else◌,
  pos, sum_of, or_empty,
}
use wafer_fabrication_schedu.Dates.{
  Date, day_ms, day_of, plus_days, to_utc_date_only, calculate_order_deadline,
}
use wafer_fabrication_schedu.Schedule.Types.{
  AssignmentStatus, CapacityDraft, OrderAssignmentDraft, SchedulingAssignmentInput,
  SchedulingConfig, SchedulingFactoryInput, SchedulingOrderInput,
}
use wafer_fabrication_schedu.Schedule.CapacityMap.{
  SlotKey, CapacityMap, set, delete, deduct, restore,
}

pub record LedgerEntry : Type 0 where
  pub key : SlotKey
  pub amount_deducted : ℕ
  pub was_created : Bool

-- The ledger holds the latest entry first: the rollback reads it from the end. `remaining` is the
-- quantity still to place, 0 when the source's `remainingQty` is below 0: the source only asks
-- whether it is positive.
pub record Attempt : Type 0 where
  pub capacities : CapacityMap
  pub ledger : List LedgerEntry
  pub drafts : List OrderAssignmentDraft
  pub remaining : ℕ

unfoldable pub remaining_quantity : SchedulingOrderInput → ℕ
remaining_quantity order =
    order.quantity
    - sum_of (λ (a : SchedulingAssignmentInput). a.assigned_quantity) (or_empty order.assignments)

-- `frozenDays` is not read.
unfoldable pub window_start : SchedulingConfig → Date
unfolding to_utc_date_only
window_start config = to_utc_date_only config.start_date

-- `none` is an Invalid Date: the deadline lies before the first date.
unfoldable pub window_end : SchedulingConfig → SchedulingOrderInput → Option Date
unfolding to_utc_date_only calculate_order_deadline
window_end config order =
    elim (calculate_order_deadline order.due_date config.buffer_days config.production_days) [
      | none ↦ none
      | some deadline ↦ elim config.end_date [
        | none ↦ some deadline
        | some end_date ↦
            let config_end = to_utc_date_only end_date in
            some (if ltb config_end deadline then config_end else deadline)
      ]
    ]

-- The most days that a loop from the day of `start` to `end` can take.
abbrev pub window_days : Date → Date → ℕ
window_days start end = day_of end + 1 - day_of start

abbrev pub slot : ℕ → ℕ → SlotKey
slot factory day = record { factory = factory; day = day }

-- The draft that a run creates for a slot without one.
abbrev pub new_capacity : SchedulingFactoryInput → ℕ → CapacityDraft
new_capacity factory day = record {
  id = none;
  factory_id = factory.id;
  date = day * day_ms;
  max_capacity = factory.max_capacity;
  cur_capacity = pos factory.max_capacity;
}

abbrev pub create_slot : SchedulingFactoryInput → ℕ → Attempt → Attempt
create_slot factory day st = record st {
  capacities = set (slot factory.id day) (new_capacity factory day) st.capacities;
  ledger =
      record { key = slot factory.id day; amount_deducted = 0; was_created = true } ∷ st.ledger;
}

unfoldable pub draft_for : SchedulingConfig → ℕ → ℕ → ℕ → ℕ → OrderAssignmentDraft
unfolding plus_days
draft_for config order_id factory_id day quantity = record {
  order_id = order_id;
  factory_id = factory_id;
  production_date = day * day_ms;
  completion_date = plus_days (day * day_ms) config.production_days;
  assigned_quantity = quantity;
  status = AssignmentStatus.scheduled;
}

-- Takes a quantity from a slot: the deduction, its ledger entry and the virtual assignment.
abbrev pub take_slot : SchedulingConfig → ℕ → ℕ → ℕ → ℕ → Attempt → Attempt
take_slot config order_id factory_id day quantity st = record {
  capacities = deduct (slot factory_id day) quantity st.capacities;
  ledger =
      record { key = slot factory_id day; amount_deducted = quantity; was_created = false }
      ∷ st.ledger;
  drafts = st.drafts ++ draft_for config order_id factory_id day quantity ∷ [];
  remaining = st.remaining - quantity;
}

unfoldable pub undo : LedgerEntry → CapacityMap → CapacityMap
undo entry m =
    if entry.was_created then delete entry.key m else restore entry.key entry.amount_deducted m

-- The rollback loop, from the latest entry to the first.
unfoldable pub rollback : List LedgerEntry → CapacityMap → CapacityMap
unfolding undo
rollback [] m = m
rollback (entry ∷ ledger) m = rollback ledger (undo entry m)
