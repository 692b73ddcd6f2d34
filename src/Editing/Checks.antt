-- ===== src/Editing/Checks.antt =====
-- The passes over the moves in modules/schedule/manual-edit-service.ts: what they accumulate, and what
-- they find wrong with the moves together.
use wafer_fabrication_schedu.Base.{
  ℕ, ◌+◌, ◌==◌, Bool, false, not, ◌&&◌, if◌then◌else◌, none, some, List, [], ◌∷◌, ◌++◌, map, find,
  any, ℤ, pos, ◌+ℤ◌, ◌-ℤ◌, leb_ℤ,
}
use wafer_fabrication_schedu.Dates.{day_of}
use wafer_fabrication_schedu.Schedule.CapacityMap.{SlotKey, same_key}
use wafer_fabrication_schedu.Store.{World, ManualEditViolation, capacity_exceeded, invalid_state}
use wafer_fabrication_schedu.Store.Capacity.{find_daily_capacity, factory_max}
use wafer_fabrication_schedu.Editing.Judge.{
  AssignmentMove, OldSlot, ValidAction, Verdict, skip, refuse, accept, judge, to_midnight,
  has_factory, violation, order_is, is_pending_action,
}

abbrev pub Deltas : Type 0
Deltas = List (SlotKey × ℤ)

-- `map.set(key, (map.get(key) || 0) + z)`, on a map in the order of insertion.
unfoldable pub accumulate : SlotKey → ℤ → Deltas → Deltas
accumulate k z [] = (k, z) ∷ []
accumulate k z ((j, y) ∷ m) = if same_key j k then (j, y +ℤ z) ∷ m else (j, y) ∷ accumulate k z m

-- `movesIntoSlot`, in the same way.
unfoldable pub move_into : SlotKey → ℕ → List (SlotKey × List ℕ) → List (SlotKey × List ℕ)
move_into k id [] = (k, id ∷ []) ∷ []
move_into k id ((j, ids) ∷ m) =
    if same_key j k then (j, ids ++ id ∷ []) ∷ m else (j, ids) ∷ move_into k id m

pub record Pass : Type 0 where
  pub deltas : Deltas
  pub moves_into_slot : List (SlotKey × List ℕ)
  pub actions : List ValidAction
  pub violations : List ManualEditViolation

abbrev pub target_key : ValidAction → SlotKey
target_key a = record { factory = a.move.factory_id; day = a.move.production_day }

abbrev pub old_key : OldSlot → SlotKey
old_key o = record { factory = o.factory_id; day = day_of o.date }

-- `move.assignmentId || move.orderId!`.
abbrev pub target_of : ValidAction → ℕ
target_of a = elim a.old [ none ↦ a.order_id | some o ↦ o.assignment_id ]

-- The capacity that goes back to the old slot.
abbrev pub add_back : ValidAction → Deltas → Deltas
add_back a m = elim a.old [ none ↦ m | some o ↦ accumulate (old_key o) (pos a.qty) m ]

unfoldable pub accept_action : ValidAction → Pass → Pass
unfolding accumulate move_into
accept_action a p = record p {
  deltas = accumulate (target_key a) (pos 0 -ℤ pos a.qty) (add_back a p.deltas);
  moves_into_slot = move_into (target_key a) (target_of a) p.moves_into_slot;
  actions = p.actions ++ a ∷ [];
}

abbrev pub settle_verdict : Verdict → Pass → Pass
settle_verdict skip p = p
settle_verdict (refuse v) p = record p { violations = p.violations ++ v ∷ [] }
settle_verdict (accept a) p = accept_action a p

-- Pass 1, from a pass on.
unfoldable pub judge_from : World → List AssignmentMove → Pass → Pass
unfolding judge accept_action
judge_from w [] p = p
judge_from w (m ∷ ms) p = judge_from w ms (settle_verdict (judge w m) p)

unfoldable pub judge_all : World → List AssignmentMove → Pass
unfolding judge_from
judge_all w moves =
    judge_from w moves (record { deltas = []; moves_into_slot = []; actions = []; violations = [] })

pub record PendingEntry : Type 0 where
  pub order_id : ℕ
  pub total : ℕ
  pub slots : List SlotKey

abbrev pub entry_is : ℕ → PendingEntry → Bool
entry_is id e = e.order_id == id

abbrev pub with_slot : ValidAction → PendingEntry → PendingEntry
with_slot a e = record e { total = e.total + a.qty; slots = e.slots ++ target_key a ∷ [] }

unfoldable pub enter_pending : ValidAction → List PendingEntry → List PendingEntry
enter_pending a [] = record { order_id = a.order_id; total = a.qty; slots = target_key a ∷ [] } ∷ []
enter_pending a (e ∷ es) =
    if entry_is a.order_id e then with_slot a e ∷ es else e ∷ enter_pending a es

-- The slot is taken already by a move of the same order.
abbrev pub has_slot_already : ValidAction → List PendingEntry → Bool
has_slot_already a es = elim (find (entry_is a.order_id) es) [
  | none ↦ false
  | some e ↦ any (same_key (target_key a)) e.slots
]

-- The loop over the pending actions: the entries, and the duplicates.
unfoldable pub pending_entries :
    List ValidAction → List PendingEntry → List PendingEntry × List ManualEditViolation
unfolding enter_pending
pending_entries [] es = (es, [])
pending_entries (a ∷ as_) es =
    let (entries, duplicates) =
      pending_entries as_ (if is_pending_action a then enter_pending a es else es) in
    (
      entries,
      if is_pending_action a && has_slot_already a es
          then violation a.order_id invalid_state ∷ duplicates
          else duplicates,
    )

-- `orderOriginalQtyMap.get(orderId) ?? 0`: the quantity of the order that the move found.
abbrev pub original_quantity : World → ℕ → ℕ
original_quantity w id = elim (find (order_is id) w.orders) [ none ↦ 0 | some o ↦ o.quantity ]

unfoldable pub split_violations : World → List PendingEntry → List ManualEditViolation
split_violations w [] = []
split_violations w (e ∷ es) =
    let rest = split_violations w es in
    if e.total == original_quantity w e.order_id
    then rest
    else violation e.order_id invalid_state ∷ rest

abbrev pub ids_into : SlotKey → List (SlotKey × List ℕ) → List ℕ
ids_into k [] = []
ids_into k ((j, ids) ∷ m) = if same_key j k then ids else ids_into k m

-- The capacity of a slot as it stands.
unfoldable pub base_capacity : World → SlotKey → ℤ
unfolding find_daily_capacity factory_max
base_capacity w k = elim (find_daily_capacity k.factory (to_midnight k.day) w) [
  | none ↦ pos (factory_max k.factory w.factories 0)
  | some c ↦ c.cur_capacity
]

abbrev pub is_negative : ℤ → Bool
is_negative z = not (leb_ℤ (pos 0) z)

-- Pass 2, at one key: a net delta that takes capacity may not take more than there is.
abbrev pub is_exceeded : World → SlotKey → ℤ → Bool
is_exceeded w k delta =
    is_negative delta
    && has_factory k.factory w.factories
    && is_negative (base_capacity w k +ℤ delta)

unfoldable pub capacity_violations :
    World → List (SlotKey × List ℕ) → Deltas → List ManualEditViolation
unfolding base_capacity
capacity_violations w into [] = []
capacity_violations w into ((k, delta) ∷ m) =
    let rest = capacity_violations w into m in
    let here = map (λ id. violation id capacity_exceeded) (ids_into k into) in
    if is_exceeded w k delta then here ++ rest else rest

unfoldable pub all_violations : World → Pass → List ManualEditViolation
unfolding pending_entries split_violations capacity_violations
all_violations w p =
    let (entries, duplicates) = pending_entries p.actions [] in
    p.violations
    ++ duplicates
    ++ split_violations w entries
    ++ capacity_violations w p.moves_into_slot p.deltas
