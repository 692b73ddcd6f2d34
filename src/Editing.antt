-- ===== src/Editing.antt =====
-- modules/schedule/manual-edit-service.ts: moves of assignments, and of orders that wait, to days of
-- factories. A `YYYY-MM-DD` is the number of its day, so `toMidnight` is a product and the key
-- `${factoryId}_${date}` is the pair of the factory and the day.
pub mod Judge
pub mod Checks
pub mod Execute
pub mod Balance
pub mod Conserve
pub mod Accept
pub mod Accepted
pub mod Nets
pub mod Limits
pub mod Planned
pub mod Placed
pub mod Split
pub mod Outcome
pub mod Atomic
mod Samples
pub mod Bulk
use wafer_fabrication_schedu.Base.{
  ℕ, ◌==◌, Bool, true, false, not, if◌then◌else◌, Option, none, some, List, [], ◌∷◌, ◌++◌, map,
  keep, elem, length,
}
use wafer_fabrication_schedu.Store.{
  World, OrderRow, AssignmentRow, Error, environment_changed, validation_failed,
  ManualEditViolation, Result, ok, err, Action, pure, throw, guard, ◌>>=◌, ◌>>◌,
  get_schedule_version,
}
use wafer_fabrication_schedu.Store.Locks.{with_schedule_lock, unique_from}
use wafer_fabrication_schedu.Application.{raise_versions}
use wafer_fabrication_schedu.Editing.Judge.{AssignmentMove, order_of}
use wafer_fabrication_schedu.Editing.Checks.{Pass, judge_all, all_violations}
use wafer_fabrication_schedu.Editing.Execute.{execute_actions}

-- The loop over `expectedVersions`.
unfoldable pub check_versions : List (ℕ × ℕ) → Action (Unit {0})
unfolding get_schedule_version
check_versions [] = pure tt
check_versions ((type, expected) ∷ rest) = do
  current ← get_schedule_version type
  guard (current == expected) environment_changed
  check_versions rest

abbrev pub id_list : Option ℕ → List ℕ
id_list none = []
id_list (some i) = i ∷ []

abbrev pub assignment_ids : List AssignmentMove → List ℕ
assignment_ids [] = []
assignment_ids (m ∷ ms) = id_list m.assignment_id ++ assignment_ids ms

abbrev pub order_ids : List AssignmentMove → List ℕ
order_ids [] = []
order_ids (m ∷ ms) = id_list m.order_id ++ order_ids ms

-- The types of the orders of these assignments.
abbrev pub types_of_orders : World → List AssignmentRow → List ℕ
types_of_orders w [] = []
types_of_orders w (a ∷ as_) = elim (order_of w a) [
  | none ↦ types_of_orders w as_
  | some o ↦ o.type ∷ types_of_orders w as_
]

unfoldable pub affected_types : List AssignmentMove → World → List ℕ
unfolding unique_from
affected_types moves w = unique_from [] (
    types_of_orders w (keep (λ (a : AssignmentRow). elem a.id (assignment_ids moves)) w.assignments)
    ++ map (λ (o : OrderRow). o.type)
        (keep (λ (o : OrderRow). elem o.id (order_ids moves)) w.orders))

abbrev pub is_nil {ℓ} : {A : Type ℓ} → List A → Bool
is_nil [] = true
is_nil (x ∷ xs) = false

-- The body under the locks: the violations are thrown before anything is written.
unfoldable pub edit_in_lock : List AssignmentMove → ℕ → List ℕ → Action ℕ
unfolding judge_all all_violations execute_actions raise_versions
edit_in_lock moves actor_user_id types w =
    let pass = judge_all w moves in
    if is_nil (all_violations w pass)
    then (if is_nil pass.actions then (ok 0, w) else (
      ok (length pass.actions),
      raise_versions types (execute_actions pass.actions actor_user_id w),
    ))
    else (err (validation_failed (all_violations w pass)), w)

abbrev pub or_no_versions : Option (List (ℕ × ℕ)) → List (ℕ × ℕ)
or_no_versions none = []
or_no_versions (some versions) = versions

-- What follows the check of the versions.
unfoldable pub edit_affected : List AssignmentMove → ℕ → Action ℕ
unfolding affected_types edit_in_lock with_schedule_lock
edit_affected moves actor_user_id w =
    let types = affected_types moves w in
    if is_nil types
    then (ok 0, w)
    else with_schedule_lock types (edit_in_lock moves actor_user_id types) w

-- `applyAssignmentMoves`: the number of moves that were applied.
unfoldable pub apply_assignment_moves : List AssignmentMove → ℕ → Option (List (ℕ × ℕ)) → Action ℕ
unfolding check_versions edit_affected
apply_assignment_moves moves actor_user_id expected_versions =
    if is_nil moves
    then pure 0
    else (check_versions (or_no_versions expected_versions) >> edit_affected moves actor_user_id)
