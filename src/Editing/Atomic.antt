-- ===== src/Editing/Atomic.antt =====
-- The checks of versions and the locks around a bulk edit.
use wafer_fabrication_schedu.Base.{
  ℕ, ◌≡◌, ◌≤◌, ◌<◌, refl, sym, ◌==◌, Option, some, List, [], ◌∷◌, arith, All, All-mono, Bool-cases,
  inl, inr,
}
use wafer_fabrication_schedu.Base.Sort.{Distinct}
use wafer_fabrication_schedu.Store.{
  World, CapacityRow, Error, environment_changed, Result, ok, err, Action, ◌>>◌,
  get_schedule_version,
}
use wafer_fabrication_schedu.Store.Capacity.Levels.{HasIds}
use wafer_fabrication_schedu.Store.Locks.Exclusion.{
  SameTables, SameTables-trans, with_schedule_lock-outcome,
}
use wafer_fabrication_schedu.Orders.Cancel.{assignment_id}
use wafer_fabrication_schedu.Editing.{
  is_nil, assignment_ids, check_versions, affected_types, edit_in_lock, edit_affected,
  or_no_versions, apply_assignment_moves,
}
use wafer_fabrication_schedu.Editing.Judge.{AssignmentMove}
use wafer_fabrication_schedu.Editing.Checks.{judge_all, all_violations}
use wafer_fabrication_schedu.Editing.Balance.{NoRepeat}
use wafer_fabrication_schedu.Editing.Limits.{OnDay}
use wafer_fabrication_schedu.Editing.Outcome.{
  IsSound, IsSound-refl, IsSound-start, IsSound-end, edit_in_lock-IsSound,
}

abbrev pub AreCurrent : World → List (ℕ × ℕ) → Type 0
AreCurrent w versions = All (λ (v : ℕ × ℕ). w.version v.0 ≡ v.1) versions

-- A check throws, with nothing written, or finds every version current.
check_versions-outcome :
    (Q : Result ℕ → World → Type 0) (versions : List (ℕ × ℕ)) (fn : Action ℕ) (w : World)
    → ((e : Error) → Q (err e) w)
    → (AreCurrent w versions → Q (fn w).0 (fn w).1)
    → Q ((check_versions versions >> fn) w).0 ((check_versions versions >> fn) w).1
unfolding check_versions get_schedule_version
check_versions-outcome Q [] fn w thrown next = next tt
check_versions-outcome Q ((t, v) ∷ vs) fn w thrown next = elim (Bool-cases (w.version t == v)) [
  | inl e ↦ rw e (check_versions-outcome Q vs fn w thrown (λ c. next (ground arith, c)))
  | inr e ↦ rw e (thrown environment_changed)
]

apply-outcome :
    (Q : Result ℕ → World → Type 0) (moves : List AssignmentMove) (actor_user_id : ℕ)
    (versions : List (ℕ × ℕ)) (w : World)
    → ((r : Result ℕ) (u v : World) → SameTables u v → Q r v → Q r u)
    → ((e : Error) → Q (err e) w)
    → (AreCurrent w versions → Q (ok 0) w)
    → ((v : World)
        → AreCurrent w versions
        → SameTables v w
        → v.factories ≡ w.factories
        → w.next_id ≤ v.next_id
        → let r = edit_in_lock moves actor_user_id (affected_types moves w) v in Q r.0 r.1)
    → let r = (check_versions versions >> edit_affected moves actor_user_id) w in Q r.0 r.1
unfolding edit_affected
apply-outcome Q moves actor_user_id versions w same thrown nothing body =
    check_versions-outcome Q versions (edit_affected moves actor_user_id) w thrown (λ c.
      elim (Bool-cases (is_nil (affected_types moves w))) [
        | inl e ↦ rw e (nothing c)
        | inr e ↦ rw e (
            with_schedule_lock-outcome Q (affected_types moves w)
              (edit_in_lock moves actor_user_id (affected_types moves w)) w same thrown
              (λ v. body v c))
      ])

-- A call of `applyAssignmentMoves` whose moves name no assignment twice, on rows with keys and
-- assignments at midnights, leaves the sum of the counter of each slot and the quantities that SCHEDULED
-- assignments hold of it as it was, and overdraws no counter further, whatever the call returns or throws.
pub apply_assignment_moves-IsSound :
    (f d : ℕ) (moves : List AssignmentMove) (actor_user_id : ℕ) (versions : Option (List (ℕ × ℕ)))
    (w : World)
    → HasIds w
    → Distinct assignment_id w.assignments
    → All OnDay w.assignments
    → NoRepeat (assignment_ids moves)
    → IsSound w.factories f d w (apply_assignment_moves moves actor_user_id versions w).1
unfolding apply_assignment_moves
apply_assignment_moves-IsSound f d [] actor_user_id versions w h k days n =
    IsSound-refl w.factories f d w
apply_assignment_moves-IsSound f d (m ∷ ms) actor_user_id versions w h k days n =
    apply-outcome (λ r v. IsSound w.factories f d w v) (m ∷ ms) actor_user_id
      (or_no_versions versions) w
      (λ r u v s. IsSound-end w.factories f d u v w s.assignments s.capacities)
      (λ e. IsSound-refl w.factories f d w) (λ c. IsSound-refl w.factories f d w)
      (λ v c s g l.
        IsSound-start w.factories f d w v
          (edit_in_lock (m ∷ ms) actor_user_id (affected_types (m ∷ ms) w) v).1 (sym s.assignments)
          (sym s.capacities)
          (rw (sym g) (
            edit_in_lock-IsSound f d (m ∷ ms) actor_user_id (affected_types (m ∷ ms) w) v
              (record {
                distinct = rw s.capacities h.distinct;
                below = rw s.capacities (
                    All-mono (λ (r : CapacityRow). r.id < w.next_id)
                      (λ (r : CapacityRow). r.id < v.next_id) (λ r b. omega (arith, b, l))
                      w.capacities h.below);
              })
              (rw s.assignments k) (rw s.assignments days) n)))

-- How a call ends: it throws and no table is changed, or the versions that it expected are current.
abbrev pub IsChecked : List (ℕ × ℕ) → World → Result ℕ → World → Type 0
IsChecked versions w (err e) v = SameTables v w
IsChecked versions w (ok n) v = AreCurrent w versions

IsChecked-tables :
    (versions : List (ℕ × ℕ)) (w u v : World) (r : Result ℕ)
    → SameTables u v
    → IsChecked versions w r v
    → IsChecked versions w r u
IsChecked-tables versions w u v (ok n) s c = c
IsChecked-tables versions w u v (err e) s c = SameTables-trans s c

edit_in_lock-IsChecked :
    (moves : List AssignmentMove) (actor_user_id : ℕ) (types : List ℕ) (versions : List (ℕ × ℕ))
    (w v : World)
    → AreCurrent w versions
    → SameTables v w
    → let r = edit_in_lock moves actor_user_id types v in IsChecked versions w r.0 r.1
unfolding edit_in_lock
edit_in_lock-IsChecked moves actor_user_id types versions w v c s =
    elim (Bool-cases (is_nil (all_violations v (judge_all v moves)))) [
      | inr e ↦ rw e s
      | inl e ↦ elim (Bool-cases (is_nil (judge_all v moves).actions)) [
        | inl a ↦ rw (e, a) c
        | inr a ↦ rw (e, a) c
      ]
    ]

-- A call of `applyAssignmentMoves` with some moves that throws, for a version that is not the expected
-- one, a lock that is taken or a move that is refused, leaves the orders, the assignments, the counters
-- and the versions as they were. A call that returns had every version as it was expected.
pub apply_assignment_moves-IsChecked :
    (m : AssignmentMove) (ms : List AssignmentMove) (actor_user_id : ℕ) (versions : List (ℕ × ℕ))
    (w : World)
    → let r = apply_assignment_moves (m ∷ ms) actor_user_id (some versions) w in
      IsChecked versions w r.0 r.1
unfolding apply_assignment_moves
apply_assignment_moves-IsChecked m ms actor_user_id versions w =
    apply-outcome (IsChecked versions w) (m ∷ ms) actor_user_id versions w
      (λ r u v. IsChecked-tables versions w u v r)
      (λ e. record { orders = refl; assignments = refl; capacities = refl; version = refl })
      (λ c. c)
      (λ v c s g l.
        edit_in_lock-IsChecked (m ∷ ms) actor_user_id (affected_types (m ∷ ms) w) versions w v c s)
