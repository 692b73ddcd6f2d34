-- ===== src/Store/Tables.antt =====
-- The tables of prisma/schema.prisma that the services use, and the state that holds them.
use wafer_fabrication_schedu.Base.{ℕ, Bool, false, Option, none, List, [], ℤ}
use wafer_fabrication_schedu.Dates.{Date}
use wafer_fabrication_schedu.Schedule.Types.{OrderStatus, AssignmentStatus}

-- The texts of the columns `name` and `type` are numbers: equal exactly when the texts are.
pub record OrderRow : Type 0 where
  pub id : ℕ
  pub status : OrderStatus
  pub due_date : Date
  pub quantity : ℕ
  pub applicant_id : ℕ
  pub name : ℕ
  pub type : ℕ
  pub is_fixed : Bool
  pub is_prioritized : Bool
  pub created_at : Date
  pub last_modified_by_id : Option ℕ

pub record AssignmentRow : Type 0 where
  pub id : ℕ
  pub order_id : ℕ
  pub status : AssignmentStatus
  pub factory_id : ℕ
  pub production_date : Date
  pub completion_date : Date
  pub assigned_quantity : ℕ

pub record CapacityRow : Type 0 where
  pub id : ℕ
  pub factory_id : ℕ
  pub date : Date
  pub max_capacity : ℕ
  pub cur_capacity : ℤ

pub data FactoryStatus : Type 0 where
  active inactive : FactoryStatus

pub record FactoryRow : Type 0 where
  pub id : ℕ
  pub production_type : ℕ
  pub status : FactoryStatus
  pub max_capacity : ℕ
  pub admins : List ℕ

pub record SystemState : Type 0 where
  pub is_simulation_mode : Bool
  pub simulation_date : Option Date

-- The text of `reschedulePolicy` is not used by what is modelled of the configs.
pub record SchedulerConfigRow : Type 0 where
  pub type : ℕ
  pub is_operating : Bool
  pub frozen_days : ℕ
  pub production_days : ℕ
  pub buffer_days : ℕ
  pub splittable : Bool

pub data ConflictIssueStatus : Type 0 where
  open_issue in_discussion resolved closed : ConflictIssueStatus

pub data ConflictResolution : Type 0 where
  reduced_quantity delayed_due_date order_cancelled wont_fix : ConflictResolution

pub data ConflictIssueEventType : Type 0 where
  opened order_updated proposal_accepted proposal_rejected issue_resolved issue_closed reopened :
      ConflictIssueEventType
  reassigned repreview_ran : ConflictIssueEventType

pub record IssueRow : Type 0 where
  pub id : ℕ
  pub order_id : ℕ
  pub status : ConflictIssueStatus
  pub resolution : Option ConflictResolution
  pub created_by_id : ℕ
  pub assignee_id : ℕ
  pub resolved_at : Option Date
  pub closed_at : Option Date
  pub created_at : Date

pub data ProposalKind : Type 0 where
  reduce_quantity delay_due_date cancel : ProposalKind

pub data ProposalStatus : Type 0 where
  pending accepted rejected stale : ProposalStatus

-- A new due date is a YYYY-MM-DD, the number of its day.
pub record Proposal : Type 0 where
  pub kind : ProposalKind
  pub new_quantity : Option ℕ
  pub new_due_date : Option ℕ

-- The JSON of a comment: the proposal, what it expects of the order, and its status.
pub record ProposalData : Type 0 where
  pub proposal : Proposal
  pub expected_order_updated_at : Date
  pub status : ProposalStatus

pub record CommentRow : Type 0 where
  pub id : ℕ
  pub issue_id : ℕ
  pub author_id : ℕ
  pub body : ℕ
  pub proposal : Option ProposalData
  pub edited_at : Option Date

pub record EventRow : Type 0 where
  pub id : ℕ
  pub issue_id : ℕ
  pub actor_id : ℕ
  pub type : ConflictIssueEventType

-- What is wrong with one move of a bulk edit.
pub data ViolationCode : Type 0 where
  capacity_exceeded deadline_violation invalid_state target_not_found : ViolationCode

pub record ManualEditViolation : Type 0 where
  pub target_id : ℕ
  pub code : ViolationCode

-- `version` and `lock` are keys of Redis, `next_id` stands for the ids and tokens that are drawn, and
-- `order_updated_at` is the column `updatedAt` of the orders, by id, which only the conflict issues use here.
pub record World : Type 0 where
  pub orders : List OrderRow
  pub assignments : List AssignmentRow
  pub capacities : List CapacityRow
  pub factories : List FactoryRow
  pub user_group : ℕ → Option ℕ
  pub version : ℕ → ℕ
  pub lock : ℕ → Option ℕ
  pub next_id : ℕ
  pub system : SystemState
  pub configs : List SchedulerConfigRow
  pub issues : List IssueRow
  pub comments : List CommentRow
  pub events : List EventRow
  pub order_updated_at : ℕ → Date

abbrev pub empty_world : World
empty_world = record {
  orders = [];
  assignments = [];
  capacities = [];
  factories = [];
  user_group = λ i. none;
  version = λ t. 0;
  lock = λ t. none;
  next_id = 0;
  system = record { is_simulation_mode = false; simulation_date = none };
  configs = [];
  issues = [];
  comments = [];
  events = [];
  order_updated_at = λ i. 0;
}
