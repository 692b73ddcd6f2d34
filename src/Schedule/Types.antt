-- ===== src/Schedule/Types.antt =====
-- The data of modules/schedule/strategy.ts, config.ts and constants.ts, and the enumerations of
-- prisma/schema.prisma. An id is a number: ids are compared for equality, and ordered by
-- `localeCompare`, so an id stands for its rank in that order.
use wafer_fabrication_schedu.Base.{ℕ, Bool, true, false, Option, List, ℤ}
use wafer_fabrication_schedu.Dates.{Date}

pub data OrderStatus : Type 0 where
  pending scheduled in_production completed cancelled failed : OrderStatus

pub data AssignmentStatus : Type 0 where
  scheduled in_production completed cancelled : AssignmentStatus

pub data ReschedulePolicy : Type 0 where
  global_optimize priority_retain gap_filling : ReschedulePolicy

-- `===` on the enumerations.
abbrev pub eq_status : OrderStatus → OrderStatus → Bool
eq_status OrderStatus.pending OrderStatus.pending = true
eq_status OrderStatus.scheduled OrderStatus.scheduled = true
eq_status OrderStatus.in_production OrderStatus.in_production = true
eq_status OrderStatus.completed OrderStatus.completed = true
eq_status OrderStatus.cancelled OrderStatus.cancelled = true
eq_status OrderStatus.failed OrderStatus.failed = true
eq_status _ _ = false

abbrev pub eq_assignment_status : AssignmentStatus → AssignmentStatus → Bool
eq_assignment_status AssignmentStatus.scheduled AssignmentStatus.scheduled = true
eq_assignment_status AssignmentStatus.in_production AssignmentStatus.in_production = true
eq_assignment_status AssignmentStatus.completed AssignmentStatus.completed = true
eq_assignment_status AssignmentStatus.cancelled AssignmentStatus.cancelled = true
eq_assignment_status _ _ = false

abbrev pub is_priority_retain : ReschedulePolicy → Bool
is_priority_retain ReschedulePolicy.priority_retain = true
is_priority_retain _ = false

abbrev pub is_gap_filling : ReschedulePolicy → Bool
is_gap_filling ReschedulePolicy.gap_filling = true
is_gap_filling _ = false

pub record OrderAssignmentDraft : Type 0 where
  pub order_id : ℕ
  pub factory_id : ℕ
  pub production_date : Date
  pub completion_date : Date
  pub assigned_quantity : ℕ
  pub status : AssignmentStatus

-- `cur_capacity` may be below zero: fixed orders are deducted without a test.
pub record CapacityDraft : Type 0 where
  pub id : Option ℕ
  pub factory_id : ℕ
  pub date : Date
  pub max_capacity : ℕ
  pub cur_capacity : ℤ

pub record SchedulingAssignmentInput : Type 0 where
  pub status : AssignmentStatus
  pub assigned_quantity : ℕ
  pub factory_id : Option ℕ
  pub production_date : Option Date

pub record SchedulingOrderInput : Type 0 where
  pub id : ℕ
  pub status : OrderStatus
  pub due_date : Date
  pub quantity : ℕ
  pub created_at : Date
  pub is_fixed : Bool
  pub is_prioritized : Bool
  pub assignments : Option (List SchedulingAssignmentInput)

pub record SchedulingFactoryInput : Type 0 where
  pub id : ℕ
  pub max_capacity : ℕ

pub record SchedulingConfig : Type 0 where
  pub start_date : Date
  pub end_date : Option Date
  pub frozen_days : ℕ
  pub production_days : ℕ
  pub buffer_days : ℕ
  pub reschedule_policy : ReschedulePolicy
  pub splittable : Bool
  pub target_order_ids : Option (List ℕ)

pub record StrategyResult : Type 0 where
  pub processed_orders : List SchedulingOrderInput
  pub new_assignments : List OrderAssignmentDraft
  pub updated_capacities : List CapacityDraft
  pub new_capacities : List CapacityDraft

abbrev pub default_daily_capacity : ℕ
default_daily_capacity = 10000
