-- ===== src/Automation.antt =====
-- lib/get-time.ts, modules/schedule/auto-scheduler.ts and simulation-service.ts, and
-- modules/order/schedule-orchestrator.ts, which adds nothing to modules/schedule/run.ts but mails: the
-- runs that time starts, and the check of modules/schedule/access-control.ts before those that users start.
pub mod Idle
pub mod Manage
mod Samples
use wafer_fabrication_schedu.Base.{
  ℕ, ◌+◌, ◌==◌, ltb, leb, Bool, true, false, not, if◌then◌else◌, Option, none, some, List, [], ◌∷◌,
  map, keep, find,
}
use wafer_fabrication_schedu.Dates.{Date, day_of, to_utc_date_only, add_utc_days}
use wafer_fabrication_schedu.Schedule.Types.{
  OrderStatus, eq_status, ReschedulePolicy, SchedulingConfig,
}
use wafer_fabrication_schedu.Store.{
  World, OrderRow, SchedulerConfigRow, SystemState, forbidden, Result, ok, err, Action, pure, guard,
  modify, ◌>>=◌, ◌>>◌,
}
use wafer_fabrication_schedu.Store.Locks.{unique_from}
use wafer_fabrication_schedu.Auth.{
  AuthUser, ActorScope, sales_scope, admin_scope, superadmin_scope, resolve_actor_scope,
}
use wafer_fabrication_schedu.Orders.Status.{validate_order_type}
use wafer_fabrication_schedu.Application.Run.{run_schedule}
use wafer_fabrication_schedu.Execution.{SystemPatch, apply_patch, advance_order_statuses}
use wafer_fabrication_schedu.Execution.Revert.{revert_simulation_statuses}

-- `business_time` is the time now, with the offset of the environment.
unfoldable pub get_time : Date → World → Date
unfolding to_utc_date_only
get_time business_time w =
    if w.system.is_simulation_mode
    then (elim w.system.simulation_date [
      | none ↦ to_utc_date_only business_time
      | some date ↦ to_utc_date_only date
    ])
    else to_utc_date_only business_time

-- `distinct: ["type"]`.
unfoldable pub find_pending_order_types : World → List ℕ
unfolding unique_from
find_pending_order_types w = unique_from [] (
    map (λ (o : OrderRow). o.type)
      (keep (λ (o : OrderRow). eq_status o.status OrderStatus.pending) w.orders))

unfoldable pub get_auto_scheduler_config_by_type : ℕ → World → Option SchedulerConfigRow
get_auto_scheduler_config_by_type type w =
    find (λ (c : SchedulerConfigRow). c.type == type) w.configs

unfoldable pub schedule_config : Date → SchedulerConfigRow → SchedulingConfig
unfolding add_utc_days
schedule_config current_date c = record {
  start_date = add_utc_days current_date 1;
  end_date = none;
  frozen_days = c.frozen_days;
  production_days = c.production_days;
  buffer_days = c.buffer_days;
  reschedule_policy = ReschedulePolicy.gap_filling;
  splittable = c.splittable;
  target_order_ids = none;
}

-- One type: what is thrown is logged, and the loop goes on.
unfoldable pub run_type : Date → ℕ → ℕ → Option SchedulerConfigRow → World → World
unfolding run_schedule schedule_config
run_type current_date operator_id type none w = w
run_type current_date operator_id type (some c) w =
    if c.is_operating
    then (run_schedule type (schedule_config current_date c) current_date operator_id w).1
    else w

unfoldable pub run_types : Date → ℕ → List ℕ → World → World
unfolding run_type get_auto_scheduler_config_by_type
run_types current_date operator_id [] w = w
run_types current_date operator_id (t ∷ ts) w =
    run_types current_date operator_id ts
      (run_type current_date operator_id t (get_auto_scheduler_config_by_type t w) w)

-- `system_user` is the user AutoScheduler, if it is in the table of users.
unfoldable pub trigger_auto_schedule : Option ℕ → Date → World → World
unfolding find_pending_order_types run_types
trigger_auto_schedule none current_date w = w
trigger_auto_schedule (some operator_id) current_date w =
    run_types current_date operator_id (find_pending_order_types w) w

abbrev pub two_hours : ℕ
two_hours = 7200000

-- No day changes; the patch, and a run if two hours have passed.
unfoldable pub advance_within_day : Option ℕ → Bool → Date → Option SystemPatch → World → World
unfolding apply_patch trigger_auto_schedule
advance_within_day system_user runs new_time patch w =
    let patched = apply_patch patch w in
    if runs then trigger_auto_schedule system_user new_time patched else patched

unfoldable pub handle_simulation_time_advance :
    Option ℕ → Option Date → Date → Option SystemPatch → Action (Unit {0})
unfolding advance_order_statuses apply_patch advance_within_day
handle_simulation_time_advance system_user none new_time patch =
    advance_order_statuses new_time patch
handle_simulation_time_advance system_user (some old_time) new_time patch =
    if ltb new_time old_time
    then modify (apply_patch patch)
    else (if day_of old_time == day_of new_time
        then modify
            (advance_within_day system_user (leb (old_time + two_hours) new_time) new_time patch)
        else advance_order_statuses new_time patch)

unfoldable pub handle_simulation_revert : Date → Option SystemPatch → Action (Unit {0})
unfolding revert_simulation_statuses
handle_simulation_revert real_today patch = revert_simulation_statuses real_today patch

-- Only an ADMIN is bound to a group here.
abbrev pub check_schedule_group : ℕ → ActorScope → Action (Unit {0})
check_schedule_group type (sales_scope user_id) = pure tt
check_schedule_group type (admin_scope user_id factory_ids group) = guard (group == type) forbidden
check_schedule_group type (superadmin_scope user_id group) = pure tt

unfoldable pub assert_can_manage_schedule_type : AuthUser → ℕ → Action (Unit {0})
unfolding validate_order_type resolve_actor_scope
assert_can_manage_schedule_type user type = do
  production_type ← validate_order_type type
  scope ← resolve_actor_scope user
  check_schedule_group production_type scope
