-- ===== src/Store/Capacity.antt =====
-- infra/db/capacity-repository.ts: the daily capacities, one row for each factory and date.
pub mod Levels
use wafer_fabrication_schedu.Base.{
  ℕ, suc, ◌+◌, Bool, true, false, ◌&&◌, ◌==◌, if◌then◌else◌, Option, none, some, List, [], ◌∷◌,
  ◌++◌, find, ℤ, pos, ◌+ℤ◌,
}
use wafer_fabrication_schedu.Dates.{Date}
use wafer_fabrication_schedu.Store.{
  World, CapacityRow, FactoryRow, Result, ok, err, Action, update_where,
}

abbrev pub capacity_at : ℕ → Date → CapacityRow → Bool
capacity_at factory_id date r = r.factory_id == factory_id && r.date == date

unfoldable pub find_daily_capacity : ℕ → Date → World → Option CapacityRow
find_daily_capacity factory_id date w = find (capacity_at factory_id date) w.capacities

abbrev pub add_delta : ℤ → CapacityRow → CapacityRow
add_delta delta r = record r { cur_capacity = r.cur_capacity +ℤ delta }

abbrev pub capacity_has_id : ℕ → CapacityRow → Bool
capacity_has_id id r = r.id == id

unfoldable pub upsert_daily_capacity_delta : ℕ → Date → ℤ → ℕ → World → World
unfolding find_daily_capacity
upsert_daily_capacity_delta factory_id date delta factory_max_capacity w =
    let created : CapacityRow = record {
      id = w.next_id;
      factory_id = factory_id;
      date = date;
      max_capacity = factory_max_capacity;
      cur_capacity = pos factory_max_capacity +ℤ delta;
    } in
    elim (find_daily_capacity factory_id date w) [
      | none ↦ record w { capacities = w.capacities ++ created ∷ []; next_id = w.next_id + 1 }
      | some existing ↦ record w {
        capacities = update_where (capacity_has_id existing.id) (add_delta delta) w.capacities;
      }
    ]

-- `findFactoriesMaxCapacity` and the maps made of it, with the default of a lookup.
unfoldable pub factory_max : ℕ → List FactoryRow → ℕ → ℕ
factory_max id [] found = found
factory_max id (f ∷ fs) found = factory_max id fs (if f.id == id then f.max_capacity else found)
