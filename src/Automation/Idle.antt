-- ===== src/Automation/Idle.antt =====
-- When modules/schedule/auto-scheduler.ts has nothing that it may run.
use wafer_fabrication_schedu.Base.{
  ℕ, ◌≡◌, refl, ◌∙◌, ap, Bool, true, false, ◌||◌, not, Option, none, some, List, [], ◌∷◌, arith,
  All, is_some, Bool-cases, Option-cases, inl, inr,
}
use wafer_fabrication_schedu.Base.Sort.{sort_by, insert_sorted}
use wafer_fabrication_schedu.Dates.{Date}
use wafer_fabrication_schedu.Store.{World, SchedulerConfigRow, already_running, err, Action}
use wafer_fabrication_schedu.Store.Locks.{
  unique_from, lock_order, acquire_locks, release_locks, with_schedule_lock,
}
use wafer_fabrication_schedu.Application.Run.{run_schedule}
use wafer_fabrication_schedu.Automation.{
  get_auto_scheduler_config_by_type, find_pending_order_types, run_type, run_types,
  trigger_auto_schedule,
}

-- The type is being scheduled by another, or it has no config that operates.
abbrev pub operates : Option SchedulerConfigRow → Bool
operates none = false
operates (some c) = c.is_operating

abbrev pub IsIdle : World → ℕ → Type 0
IsIdle w type =
    (is_some (w.lock type) || not (operates (get_auto_scheduler_config_by_type type w))) ≡ true

locked_out :
    {A : Type 0} (type owner : ℕ) (fn : Action A) (w : World)
    → w.lock type ≡ some owner
    → with_schedule_lock (type ∷ []) fn w ≡ (err (already_running type), w)
unfolding with_schedule_lock lock_order unique_from sort_by insert_sorted acquire_locks
    release_locks
locked_out type owner fn w e = rw (e, acquire_locks) refl

run_type_idle :
    (current_date : Date) (operator_id type : ℕ) (c : Option SchedulerConfigRow) (w : World)
    → (is_some (w.lock type) || not (operates c)) ≡ true
    → run_type current_date operator_id type c w ≡ w
unfolding run_type run_schedule
run_type_idle current_date operator_id type none w h = refl
run_type_idle current_date operator_id type (some c) w h = elim (Bool-cases c.is_operating) [
  | inr n ↦ rw n refl
  | inl o ↦ elim (Option-cases (w.lock type)) [
    | inl n ↦ absurd (ground arith)
    | inr (owner, e) ↦ rw o (ap (λ r. r.1) (locked_out type owner _ w e))
  ]
]

run_types_idle :
    (current_date : Date) (operator_id : ℕ) (types : List ℕ) (w : World)
    → All (IsIdle w) types
    → run_types current_date operator_id types w ≡ w
unfolding run_types
run_types_idle current_date operator_id [] w h = refl
run_types_idle current_date operator_id (t ∷ ts) w h =
    ap (run_types current_date operator_id ts)
      (run_type_idle current_date operator_id t (get_auto_scheduler_config_by_type t w) w h.0)
    ∙ run_types_idle current_date operator_id ts w h.1

-- The automatic scheduler changes nothing, the locks included, if every type with an order that waits is
-- being scheduled by another or has no config that operates.
pub trigger_auto_schedule_idle :
    (system_user : Option ℕ) (current_date : Date) (w : World)
    → All (IsIdle w) (find_pending_order_types w)
    → trigger_auto_schedule system_user current_date w ≡ w
unfolding trigger_auto_schedule
trigger_auto_schedule_idle none current_date w h = refl
trigger_auto_schedule_idle (some operator_id) current_date w h =
    run_types_idle current_date operator_id (find_pending_order_types w) w h
