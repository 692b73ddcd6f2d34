-- ===== src/Application/Created.antt =====
-- `createDailyCapacities` of infra/db/capacity-repository.ts, with its `skipDuplicates`.
use wafer_fabrication_schedu.Base.{
  ℕ, ◌+◌, ◌≡◌, Bool, ◌&&◌, ◌==◌, Option, none, some, List, [], ◌∷◌, ◌++◌, find, arith, ℤ,
  Bool-cases, inl, inr,
}
use wafer_fabrication_schedu.Dates.{Date}
use wafer_fabrication_schedu.Schedule.Types.{CapacityDraft}
use wafer_fabrication_schedu.Store.{World, CapacityRow}
use wafer_fabrication_schedu.Store.Capacity.{capacity_at}
use wafer_fabrication_schedu.Store.Capacity.Levels.{find-snoc}
use wafer_fabrication_schedu.Application.{create_daily_capacities}

-- The counter of a factory and date, in the rows, and in the drafts.
abbrev pub row_counter : ℕ → Date → List CapacityRow → Option ℤ
row_counter f d rows = elim (find (capacity_at f d) rows) [
  | none ↦ none
  | some r ↦ some r.cur_capacity
]

abbrev pub draft_at : ℕ → Date → CapacityDraft → Bool
draft_at f d c = c.factory_id == f && c.date == d

abbrev pub draft_counter : ℕ → Date → List CapacityDraft → Option ℤ
draft_counter f d drafts = elim (find (draft_at f d) drafts) [
  | none ↦ none
  | some c ↦ some c.cur_capacity
]

-- A factory and date that has a row keeps the counter of the row, and the draft for it is dropped.
-- Another one has the counter of the first draft for it, if there is one.
pub create_daily_capacities_counters :
    (drafts : List CapacityDraft) (f : ℕ) (d : Date) (w : World)
    → row_counter f d (create_daily_capacities drafts w).capacities
      ≡ elim (row_counter f d w.capacities) [ none ↦ draft_counter f d drafts | some n ↦ some n ]
unfolding create_daily_capacities
create_daily_capacities_counters [] f d w = ground arith
create_daily_capacities_counters (c ∷ cs) f d w =
    let row : CapacityRow = record {
      id = w.next_id;
      factory_id = c.factory_id;
      date = c.date;
      max_capacity = c.max_capacity;
      cur_capacity = c.cur_capacity;
    } in
    let next : World = record w {
      capacities = w.capacities ++ row ∷ [];
      next_id = w.next_id + 1;
    } in
    elim (Bool-cases (c.factory_id == f && c.date == d)) [
      | inl e ↦ ground (
        arith,
        find-snoc (capacity_at f d) w.capacities row,
        create_daily_capacities_counters cs f d w,
        create_daily_capacities_counters cs f d next,
      )
      | inr e ↦ ground (
        arith,
        find-snoc (capacity_at f d) w.capacities row,
        create_daily_capacities_counters cs f d w,
        create_daily_capacities_counters cs f d next,
      )
    ]
