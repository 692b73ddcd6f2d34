-- ===== src/Automation/Samples.antt =====
-- Runs that time starts, and the theorem of the automatic scheduler at a concrete input.
use wafer_fabrication_schedu.Base.{
  ℕ, ◌≡◌, refl, ◌*◌, ◌==◌, ◌+◌, true, false, none, some, [], ◌∷◌, if◌then◌else◌,
}
use wafer_fabrication_schedu.Dates.{day_ms}
use wafer_fabrication_schedu.Schedule.Types.{OrderStatus}
use wafer_fabrication_schedu.Store.{World, OrderRow, FactoryStatus, empty_world, forbidden, ok, err}
use wafer_fabrication_schedu.Auth.{admin}
use wafer_fabrication_schedu.Automation.{
  get_time, get_auto_scheduler_config_by_type, find_pending_order_types, trigger_auto_schedule,
  assert_can_manage_schedule_type,
}
use wafer_fabrication_schedu.Issues.Rules.{Ends, Passes}
use wafer_fabrication_schedu.Automation.Manage.{
  MayManage, assert_can_manage_schedule_type-MayManage,
}
use wafer_fabrication_schedu.Automation.Idle.{trigger_auto_schedule_idle}

abbrev waiting : ℕ → OrderRow
waiting type = record {
  id = 5;
  status = OrderStatus.pending;
  due_date = 20 * day_ms;
  quantity = 50;
  applicant_id = 8;
  name = 4;
  type = type;
  is_fixed = false;
  is_prioritized = false;
  created_at = 2;
  last_modified_by_id = none;
}

-- The first type is being scheduled, and the second has no config.
abbrev busy : World
busy = record empty_world {
  orders = waiting 1 ∷ waiting 2 ∷ waiting 1 ∷ [];
  factories =
      record {
        id = 1;
        production_type = 1;
        status = FactoryStatus.active;
        max_capacity = 100;
        admins = 3 ∷ [];
      }
      ∷ [];
  configs =
      record {
        type = 1;
        is_operating = true;
        frozen_days = 1;
        production_days = 1;
        buffer_days = 1;
        splittable = true;
      }
      ∷ [];
  lock = λ t. if t == 1 then some 77 else none;
}

both_wait : find_pending_order_types busy ≡ 1 ∷ 2 ∷ []
unfolding find_pending_order_types
both_wait = refl

not_its_group :
    (assert_can_manage_schedule_type (record { id = 3; role = admin }) 2 busy).0 ≡ err forbidden
unfolding assert_can_manage_schedule_type
not_its_group = refl

its_group : (assert_can_manage_schedule_type (record { id = 3; role = admin }) 1 busy).0 ≡ ok tt
unfolding assert_can_manage_schedule_type
its_group = refl

-- A simulated time within a day is its midnight.
simulated :
    get_time 5 (record busy {
      system = record { is_simulation_mode = true; simulation_date = some (3 * day_ms + 17) };
    })
    ≡ 3 * day_ms
unfolding get_time
simulated = refl

trigger_auto_schedule_idle_example : trigger_auto_schedule (some 4) (9 * day_ms) busy ≡ busy
unfolding find_pending_order_types get_auto_scheduler_config_by_type
trigger_auto_schedule_idle_example =
    trigger_auto_schedule_idle (some 4) (9 * day_ms) busy (refl, (refl, tt))

assert_can_manage_schedule_type-MayManage_example :
    Ends
      (Passes (λ (u : Unit {0}). MayManage (record { id = 3; role = admin }) 1 busy) busy)
      (assert_can_manage_schedule_type (record { id = 3; role = admin }) 1 busy)
assert_can_manage_schedule_type-MayManage_example =
    assert_can_manage_schedule_type-MayManage (record { id = 3; role = admin }) 1 busy
