-- ===== src/Editing/Judge.antt =====
-- One move of modules/schedule/manual-edit-service.ts: is it skipped, refused, or an action?
use wafer_fabrication_schedu.Base.{
  ℕ, ◌*◌, ◌==◌, ltb, Bool, true, false, not, ◌&&◌, if◌then◌else◌, Option, none, some, List, [], ◌∷◌,
  find, is_some,
}
use wafer_fabrication_schedu.Dates.{Date, day_ms, calculate_order_deadline}
use wafer_fabrication_schedu.Schedule.Types.{
  OrderStatus, AssignmentStatus, eq_status, eq_assignment_status,
}
use wafer_fabrication_schedu.Store.{
  World, OrderRow, AssignmentRow, FactoryRow, SchedulerConfigRow, ManualEditViolation,
  ViolationCode, deadline_violation, invalid_state, target_not_found,
}

pub record AssignmentMove : Type 0 where
  pub assignment_id : Option ℕ
  pub order_id : Option ℕ
  pub factory_id : ℕ
  pub production_day : ℕ
  pub quantity : Option ℕ

abbrev pub to_midnight : ℕ → Date
to_midnight day = day * day_ms

-- Where a `MOVE_ASSIGNMENT` takes its assignment from; a `SCHEDULE_PENDING` has none.
pub record OldSlot : Type 0 where
  pub assignment_id : ℕ
  pub factory_id : ℕ
  pub date : Date
  pub completion_date : Date

pub record ValidAction : Type 0 where
  pub move : AssignmentMove
  pub old : Option OldSlot
  pub order_id : ℕ
  pub qty : ℕ
  pub order_type : ℕ
  pub due_date : Date

abbrev pub is_pending_action : ValidAction → Bool
is_pending_action a = elim a.old [ none ↦ true | some o ↦ false ]

pub data Verdict : Type 0 where
  skip : Verdict
  refuse : ManualEditViolation → Verdict
  accept : ValidAction → Verdict

-- The order of an assignment, by its foreign key.
abbrev pub order_of : World → AssignmentRow → Option OrderRow
order_of w a = find (λ (o : OrderRow). o.id == a.order_id) w.orders

-- The later of two configs of one type wins in the source's map; only operating ones are fetched.
unfoldable pub find_config :
    ℕ → List SchedulerConfigRow → Option SchedulerConfigRow → Option SchedulerConfigRow
find_config type [] found = found
find_config type (c ∷ cs) found =
    find_config type cs (if c.is_operating && c.type == type then some c else found)

abbrev pub has_factory : ℕ → List FactoryRow → Bool
has_factory id factories = is_some (find (λ (f : FactoryRow). f.id == id) factories)

-- `targetDate.getTime() > deadline.getTime()`; an Invalid Date compares as false.
abbrev pub is_past : Date → Option Date → Bool
is_past target none = false
is_past target (some deadline) = ltb deadline target

unfoldable pub past_deadline : World → ValidAction → Bool
unfolding find_config calculate_order_deadline
past_deadline w a = elim (find_config a.order_type w.configs none) [
  | none ↦ false
  | some c ↦
      is_past (to_midnight a.move.production_day)
        (calculate_order_deadline a.due_date c.buffer_days c.production_days)
]

abbrev pub violation : ℕ → ViolationCode → ManualEditViolation
violation target code = record { target_id = target; code = code }

-- The deadline, and the target factory.
unfoldable pub check_target : World → ℕ → ValidAction → Verdict
unfolding past_deadline
check_target w target a =
    if past_deadline w a
    then refuse (violation target deadline_violation)
    else (if has_factory a.move.factory_id w.factories
        then accept a
        else refuse (violation target target_not_found))

abbrev pub moved_action : AssignmentMove → AssignmentRow → OrderRow → ValidAction
moved_action move a o = record {
  move = move;
  old = some (record {
    assignment_id = a.id;
    factory_id = a.factory_id;
    date = a.production_date;
    completion_date = a.completion_date;
  });
  order_id = a.order_id;
  qty = a.assigned_quantity;
  order_type = o.type;
  due_date = o.due_date;
}

abbrev pub same_slot : AssignmentMove → AssignmentRow → Bool
same_slot move a =
    a.factory_id == move.factory_id && a.production_date == to_midnight move.production_day

-- The branch of `move.assignmentId`, for an assignment that was found with its order.
unfoldable pub judge_assignment : World → AssignmentMove → AssignmentRow → OrderRow → Verdict
unfolding check_target
judge_assignment w move a o =
    if o.is_fixed
    then refuse (violation a.id invalid_state)
    else (if not (eq_assignment_status a.status AssignmentStatus.scheduled)
        then refuse (violation a.id invalid_state)
        else (if same_slot move a then skip else check_target w a.id (moved_action move a o)))

abbrev pub or_quantity : Option ℕ → ℕ → ℕ
or_quantity none q = q
or_quantity (some q) _ = q

abbrev pub pending_action : AssignmentMove → OrderRow → ValidAction
pending_action move o = record {
  move = move;
  old = none;
  order_id = o.id;
  qty = or_quantity move.quantity o.quantity;
  order_type = o.type;
  due_date = o.due_date;
}

-- The branch of `move.orderId`, for an order that was found.
unfoldable pub judge_order : World → AssignmentMove → OrderRow → Verdict
unfolding check_target
judge_order w move o =
    if o.is_fixed
    then refuse (violation o.id invalid_state)
    else (if not (eq_status o.status OrderStatus.pending)
        then refuse (violation o.id invalid_state)
        else check_target w o.id (pending_action move o))

abbrev pub assignment_is : ℕ → AssignmentRow → Bool
assignment_is id a = a.id == id

abbrev pub order_is : ℕ → OrderRow → Bool
order_is id o = o.id == id

-- What was found by the id of the move, and the order of an assignment.
unfoldable pub judge_with : World → AssignmentMove → AssignmentRow → Option OrderRow → Verdict
unfolding judge_assignment
judge_with w move a none = refuse (violation a.id target_not_found)
judge_with w move a (some o) = judge_assignment w move a o

unfoldable pub judge_found : World → AssignmentMove → ℕ → Option AssignmentRow → Verdict
unfolding judge_with
judge_found w move id none = refuse (violation id target_not_found)
judge_found w move id (some a) = judge_with w move a (order_of w a)

unfoldable pub judge_waiting : World → AssignmentMove → ℕ → Option OrderRow → Verdict
unfolding judge_order
judge_waiting w move id none = refuse (violation id target_not_found)
judge_waiting w move id (some o) = judge_order w move o

unfoldable pub judge_pending : World → AssignmentMove → Option ℕ → Verdict
unfolding judge_waiting
judge_pending w move none = skip
judge_pending w move (some id) = judge_waiting w move id (find (order_is id) w.orders)

unfoldable pub judge_by : World → AssignmentMove → Option ℕ → Verdict
unfolding judge_found judge_pending
judge_by w move (some id) = judge_found w move id (find (assignment_is id) w.assignments)
judge_by w move none = judge_pending w move move.order_id

-- The body of the loop over the moves.
unfoldable pub judge : World → AssignmentMove → Verdict
unfolding judge_by
judge w move = judge_by w move move.assignment_id
