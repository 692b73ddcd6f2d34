-- ===== src/Issues/CreationSamples.antt =====
-- Runs of the creation of issues for failed orders, and its theorem at a concrete input.
use wafer_fabrication_schedu.Base.{
  ℕ, List, ◌≡◌, refl, ◌*◌, true, false, none, some, [], ◌∷◌, map, arith, pos,
}
use wafer_fabrication_schedu.Dates.{day_ms}
use wafer_fabrication_schedu.Schedule.Types.{OrderStatus, ReschedulePolicy, SchedulingConfig}
use wafer_fabrication_schedu.Schedule.CapacityMap.{get}
use wafer_fabrication_schedu.Store.{
  World, EventRow, FactoryStatus, ConflictIssueStatus, ConflictResolution, empty_world, Result, ok,
  err, range_error,
}
use wafer_fabrication_schedu.Issues.Creation.{
  NewIssue, IssueCreationPrep, create_issues_in_apply, prepare_issue_creation_prep,
  create_issues_for_failed_orders_tx,
}
use wafer_fabrication_schedu.Issues.AtMostOne.{
  HasOpened, create_issues_for_failed_orders_tx-AtMostOne,
}

abbrev deficits : Result IssueCreationPrep → List ℕ
deficits (ok p) = map (λ (n : NewIssue). n.deficit) p.new_issues
deficits (err e) = []

abbrev run_config : SchedulingConfig
run_config = record {
  start_date = 10 * day_ms;
  end_date = none;
  frozen_days = 0;
  production_days = 1;
  buffer_days = 1;
  reschedule_policy = ReschedulePolicy.global_optimize;
  splittable = true;
  target_order_ids = none;
}

-- An order of 500 that failed, due on day 13, and an issue of it that was closed.
abbrev after_run : World
after_run = record empty_world {
  orders =
      record {
        id = 5;
        status = OrderStatus.failed;
        due_date = 13 * day_ms;
        quantity = 500;
        applicant_id = 8;
        name = 4;
        type = 1;
        is_fixed = false;
        is_prioritized = false;
        created_at = 2;
        last_modified_by_id = none;
      }
      ∷ [];
  factories =
      record {
        id = 1;
        production_type = 1;
        status = FactoryStatus.active;
        max_capacity = 100;
        admins = [];
      }
      ∷ [];
  capacities =
      record {
        id = 2;
        factory_id = 1;
        date = 11 * day_ms;
        max_capacity = 100;
        cur_capacity = pos 30;
      }
      ∷ [];
  issues =
      record {
        id = 3;
        order_id = 5;
        status = ConflictIssueStatus.closed;
        resolution = some ConflictResolution.wont_fix;
        created_by_id = 1;
        assignee_id = 8;
        resolved_at = none;
        closed_at = some 6;
        created_at = 4;
      }
      ∷ [];
  next_id = 30;
}

abbrev opened_world : World
opened_world = (create_issues_for_failed_orders_tx (5 ∷ []) 1 run_config 7 none after_run).1

-- 100 on day 10 and 30 on day 11, the last day of the window.
short_by_370 :
    deficits (prepare_issue_creation_prep (5 ∷ []) 1 run_config false after_run) ≡ 370 ∷ []
unfolding prepare_issue_creation_prep get
short_by_370 = refl

-- The closed issue gets an event OPENED as well.
opened_twice : map (λ (e : EventRow). e.issue_id) opened_world.events ≡ 3 ∷ 30 ∷ []
unfolding create_issues_for_failed_orders_tx prepare_issue_creation_prep
opened_twice = refl

-- With more days of buffer than there are dates before the order is due, no snapshot can be made.
abbrev long_buffer : SchedulingConfig
long_buffer = record run_config { buffer_days = 14 }

out_of_range :
    create_issues_for_failed_orders_tx (5 ∷ []) 1 long_buffer 7 none after_run
    ≡ (err range_error, after_run)
unfolding create_issues_for_failed_orders_tx prepare_issue_creation_prep
out_of_range = refl

create_issues_for_failed_orders_tx-AtMostOne_example :
    let call = create_issues_for_failed_orders_tx (5 ∷ []) 1 run_config 7 none after_run in
    let in_run = create_issues_in_apply (5 ∷ []) 1 run_config 7 after_run in
    HasOpened 5 (5 ∷ []) run_config false after_run call.0 call.1
    × HasOpened 5 (5 ∷ []) run_config true after_run in_run.0 in_run.1
create_issues_for_failed_orders_tx-AtMostOne_example =
    create_issues_for_failed_orders_tx-AtMostOne 5 (5 ∷ []) 1 run_config 7 after_run (tt, tt)
      (omega arith)
