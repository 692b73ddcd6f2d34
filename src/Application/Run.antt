-- ===== src/Application/Run.antt =====
-- modules/schedule/run.ts and preview.ts: the data, the strategy, and the application of its result.
use wafer_fabrication_schedu.Base.{ℕ, true, false, some, List, [], ◌∷◌, map}
use wafer_fabrication_schedu.Dates.{Date}
use wafer_fabrication_schedu.Schedule.Types.{
  SchedulingConfig, SchedulingFactoryInput, StrategyResult,
}
use wafer_fabrication_schedu.Schedule.Strategy.{execute}
use wafer_fabrication_schedu.Store.{World, FactoryRow, Action}
use wafer_fabrication_schedu.Store.Locks.{with_schedule_lock}
use wafer_fabrication_schedu.Application.{apply_in_lock}
use wafer_fabrication_schedu.Application.Prepare.{Prepared, prepare_scheduling_data}

abbrev pub factory_input : FactoryRow → SchedulingFactoryInput
factory_input f = record { id = f.id; max_capacity = f.max_capacity }

-- The strategy on the prepared data.
abbrev pub strategy_result : Prepared → StrategyResult
strategy_result p =
    execute p.orders (map factory_input p.factories) p.capacities p.config (some p.db_capacities)

unfoldable pub preview_schedule : ℕ → SchedulingConfig → Date → World → StrategyResult
unfolding prepare_scheduling_data execute
preview_schedule type config current_date w =
    strategy_result (prepare_scheduling_data type config current_date false w)

unfoldable pub run_schedule : ℕ → SchedulingConfig → Date → ℕ → Action (List ℕ)
unfolding prepare_scheduling_data execute apply_in_lock with_schedule_lock
run_schedule type config current_date operator_id = with_schedule_lock (type ∷ []) (λ w.
    let p = prepare_scheduling_data type config current_date true w in
    apply_in_lock p.config (strategy_result p) operator_id w)
