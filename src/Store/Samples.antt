-- ===== src/Store/Samples.antt =====
-- Runs of the locks and of the counters on small inputs, and each theorem at a concrete input.
use wafer_fabrication_schedu.Base.{
  ℕ, ◌+◌, ◌≡◌, refl, none, some, List, [], ◌∷◌, ◌==◌, if◌then◌else◌, arith, pos, negsuc, ◌+ℤ◌,
  Option,
}
use wafer_fabrication_schedu.Store.{
  empty_world, World, CapacityRow, already_running, ok, err, increment_schedule_version,
}
use wafer_fabrication_schedu.Store.Locks.{with_schedule_lock, lock_order}
use wafer_fabrication_schedu.Store.Locks.Release.{with_schedule_lock_restores}
use wafer_fabrication_schedu.Store.Locks.Exclusion.{SameTables, with_schedule_lock_excludes}
use wafer_fabrication_schedu.Store.Capacity.{upsert_daily_capacity_delta}
use wafer_fabrication_schedu.Store.Capacity.Levels.{
  HasIds, level_at, level_at-upsert_daily_capacity_delta,
}

-- The lock of type 2 is taken.
abbrev one_lock : ℕ → Option ℕ
one_lock k = if k == 2 then some 7 else none

abbrev two_rows : List CapacityRow
two_rows =
    record { id = 3; factory_id = 1; date = 10; max_capacity = 100; cur_capacity = pos 40 }
    ∷ record { id = 4; factory_id = 2; date = 10; max_capacity = 60; cur_capacity = pos 60 }
    ∷ []

abbrev small_world : World
small_world = record empty_world {
  orders = [];
  assignments = [];
  capacities = two_rows;
  factories = [];
  version = λ t. t + 5;
  lock = one_lock;
  next_id = 9;
}

lock_order_test : lock_order (3 ∷ 1 ∷ 3 ∷ []) ≡ 1 ∷ 3 ∷ []
unfolding lock_order
lock_order_test = refl

locked_run_test :
    (with_schedule_lock (3 ∷ 1 ∷ []) (increment_schedule_version 3) small_world).0 ≡ ok 9
unfolding with_schedule_lock increment_schedule_version
locked_run_test = refl

upsert_test :
    level_at
      (λ i. 100)
      1
      10
      (upsert_daily_capacity_delta 1 10 (negsuc 49) 100 small_world).capacities
    ≡ negsuc 9
unfolding upsert_daily_capacity_delta ◌+ℤ◌
upsert_test = refl

with_schedule_lock_restores_example :
    (with_schedule_lock (3 ∷ 1 ∷ 3 ∷ []) (increment_schedule_version 1) small_world).1.lock
    ≡ small_world.lock
unfolding increment_schedule_version
with_schedule_lock_restores_example =
    with_schedule_lock_restores (3 ∷ 1 ∷ 3 ∷ []) (increment_schedule_version 1) small_world
      (λ v. refl)

with_schedule_lock_excludes_example :
    let r = with_schedule_lock (3 ∷ 2 ∷ 1 ∷ []) (increment_schedule_version 1) small_world in
    (held : ℕ) × (r.0 ≡ err (already_running held)) × SameTables r.1 small_world
with_schedule_lock_excludes_example =
    with_schedule_lock_excludes (3 ∷ 2 ∷ 1 ∷ []) (increment_schedule_version 1) small_world 2 7 refl
      refl

small_world-HasIds : HasIds small_world
small_world-HasIds = record {
  distinct = (((λ e. absurd (omega arith)), tt), (tt, tt));
  below = (omega arith, (omega arith, tt));
}

level_at-upsert_daily_capacity_delta_example :
    level_at
      (λ i. 100)
      1
      10
      (upsert_daily_capacity_delta 1 10 (negsuc 49) 100 small_world).capacities
    ≡ pos 40 +ℤ negsuc 49
level_at-upsert_daily_capacity_delta_example =
    level_at-upsert_daily_capacity_delta (λ i. 100) 1 10 1 10 (negsuc 49) small_world
      small_world-HasIds
