-- ===== src/Application/Versions.antt =====
-- The schedule versions under modules/schedule/core.ts: what is checked, and what is raised.
use wafer_fabrication_schedu.Base.{
  ℕ, ◌+◌, ◌≡◌, refl, ◌∙◌, ap, sym, Bool, ◌&&◌, ◌==◌, if◌then◌else◌, Option, none, some, List, [],
  ◌∷◌, map, elem, any, arith, Bool-cases, inl, inr,
}
use wafer_fabrication_schedu.Schedule.Types.{
  OrderStatus, OrderAssignmentDraft, CapacityDraft, SchedulingConfig, StrategyResult,
}
use wafer_fabrication_schedu.Store.{
  World, CapacityRow, FactoryRow, environment_changed, Result, ok, err, guard, ◌>>◌,
  increment_schedule_version,
}
use wafer_fabrication_schedu.Store.Locks.{
  Lock, unique_from, lock_order, acquire_locks, release_locks, run_if, with_schedule_lock,
}
use wafer_fabrication_schedu.Store.Locks.Exclusion.{
  SameTables, SameTables-trans, acquire_locks-SameTables, release_locks-SameTables,
}
use wafer_fabrication_schedu.Store.Rows.{elem-append}
use wafer_fabrication_schedu.Application.{
  draft_has_id, written, type_of, updated_types, create_daily_capacities, create_assignments,
  raise_versions, processed_ids, clear_assignments, apply_schedule_orders_update,
  bulk_update_daily_capacities, apply_in_lock, apply_schedule_transaction,
}
use wafer_fabrication_schedu.Application.Effects.{
  raise_versions-tables, create_daily_capacities-tables,
}

-- Each type of the list without repetitions is raised once.
raise_versions-unique_from :
    (t : ℕ) (seen types : List ℕ) (w : World)
    → (raise_versions (unique_from seen types) w).version t
      ≡ w.version t + (if elem t seen then 0 else (if elem t types then 1 else 0))
unfolding raise_versions unique_from
raise_versions-unique_from t seen [] w = ground arith
raise_versions-unique_from t seen (x ∷ xs) w = elim (Bool-cases (elem x seen)) [
  | inl e ↦ elim (Bool-cases (x == t)) [
    | inl s ↦ ground (arith, raise_versions-unique_from t seen xs w)
    | inr s ↦ ground (arith, raise_versions-unique_from t seen xs w)
  ]
  | inr e ↦
      ground (arith, raise_versions-unique_from t (x ∷ seen) xs (increment_schedule_version x w).1)
]

-- The row is named by an update, and its factory makes the type.
abbrev pub named : List FactoryRow → List CapacityDraft → ℕ → CapacityRow → Bool
named factories updates t r =
    any (draft_has_id r.id) updates && elem t (type_of factories r.factory_id)

elem-updated_types :
    (factories : List FactoryRow) (updates : List CapacityDraft) (t : ℕ) (rows : List CapacityRow)
    → elem t (updated_types factories updates rows) ≡ any (named factories updates t) rows
elem-updated_types factories updates t [] = refl
elem-updated_types factories updates t (r ∷ rows) = ground (
  arith,
  elem-append t (type_of factories r.factory_id) (updated_types factories updates rows),
  elem-updated_types factories updates t rows,
)

named-written :
    (factories : List FactoryRow) (updates : List CapacityDraft) (t : ℕ) (r : CapacityRow)
    → named factories updates t (written updates r) ≡ named factories updates t r
named-written factories updates t r = ground arith

any-named :
    (factories : List FactoryRow) (updates : List CapacityDraft) (t : ℕ) (rows : List CapacityRow)
    → any (named factories updates t) (map (written updates) rows)
      ≡ any (named factories updates t) rows
any-named factories updates t [] = refl
any-named factories updates t (r ∷ rows) =
    rw (named-written factories updates t r, any-named factories updates t rows) refl

pub create_assignments-kept :
    (drafts : List OrderAssignmentDraft) (w : World)
    → let w' = create_assignments drafts w in
      (w'.version ≡ w.version) × (w'.capacities ≡ w.capacities)
unfolding create_assignments
create_assignments-kept [] w = (refl, refl)
create_assignments-kept (a ∷ as_) w = create_assignments-kept as_ _

create_daily_capacities-kept :
    (drafts : List CapacityDraft) (w : World)
    → let w' = create_daily_capacities drafts w in
      (w'.version ≡ w.version) × (w'.factories ≡ w.factories)
create_daily_capacities-kept drafts w =
    let tables = create_daily_capacities-tables drafts w in (tables.2, tables.3)

clear_assignments-kept :
    (config : SchedulingConfig) (result : StrategyResult) (w : World)
    → let w' = clear_assignments config result w in
      (w'.version ≡ w.version) × (w'.factories ≡ w.factories)
unfolding clear_assignments
clear_assignments-kept config result w = ground arith

-- The application raises the version of a type by one if an update of the result names a row of a
-- factory of this type, as the rows are afterwards, and otherwise not at all.
pub apply_in_lock_versions :
    (config : SchedulingConfig) (result : StrategyResult) (operator_id t : ℕ) (w : World)
    → let r = apply_in_lock config result operator_id w in
      r.1.version t
      ≡ w.version t
        + (if any (named w.factories result.updated_capacities t) r.1.capacities then 1 else 0)
unfolding apply_in_lock
apply_in_lock_versions config result operator_id t w =
    let w1 = clear_assignments config result w in
    let failed = processed_ids OrderStatus.failed result in
    let scheduled = processed_ids OrderStatus.scheduled result in
    let w2 = apply_schedule_orders_update scheduled failed operator_id w1 in
    let w3 = create_daily_capacities result.new_capacities w2 in
    let updates = result.updated_capacities in
    let w4 = (bulk_update_daily_capacities updates w3).1 in
    let types = (bulk_update_daily_capacities updates w3).0 in
    let w5 = create_assignments result.new_assignments w4 in
    let cleared = clear_assignments-kept config result w in
    let created = create_daily_capacities-kept result.new_capacities w2 in
    let assigned = create_assignments-kept result.new_assignments w4 in
    let rows = raise_versions-tables types w5 in
    let before : w5.version ≡ w.version = assigned.0 ∙ created.0 ∙ cleared.0 in
    let counted =
      elem-updated_types w3.factories updates t w3.capacities
      ∙ ap (λ fs. any (named fs updates t) w3.capacities) (created.1 ∙ cleared.1)
      ∙ sym (any-named w.factories updates t w3.capacities)
      ∙ sym (ap (any (named w.factories updates t)) (rows.2 ∙ assigned.1)) in
    raise_versions-unique_from t [] (updated_types w3.factories updates w3.capacities) w5
    ∙ ap (λ f. f t + (if elem t (updated_types w3.factories updates w3.capacities) then 1 else 0))
        before
    ∙ ap (λ b. w.version t + (if b then 1 else 0)) counted

-- How a call ends: a throw has left the tables as they were, and a value was returned for the version
-- that was expected, if one was.
abbrev pub Checked : Option ℕ → ℕ → {A : Type 0} → Result A → World → World → Type 0
Checked expected version (err e) w' w = SameTables w' w
Checked none version (ok a) w' w = Unit
Checked (some v) version (ok a) w' w = v ≡ version

same : (v : World) → SameTables v v
same v = record { orders = refl; assignments = refl; capacities = refl; version = refl }

-- A body that ends in this way does so with its locks as well.
with_schedule_lock-Checked :
    {A : Type 0} (types : List ℕ) (fn : World → Result A × World) (w : World) (expected : Option ℕ)
    (t : ℕ)
    → ((v : World) → Checked expected (v.version t) (fn v).0 (fn v).1 v)
    → Checked expected
        (w.version t)
        (with_schedule_lock types fn w).0
        (with_schedule_lock types fn w).1
        w
unfolding with_schedule_lock
with_schedule_lock-Checked {A} types fn w expected t body =
    ran (acquire_locks (lock_order types) [] w).0
  where
    got : List Lock
    got = (acquire_locks (lock_order types) [] w).1

    held : World
    held = (acquire_locks (lock_order types) [] w).2

    before : SameTables held w
    before = acquire_locks-SameTables (lock_order types) [] w

    ended :
        (expected : Option ℕ) (r : Result A) (v : World)
        → Checked expected (held.version t) r v held
        → Checked expected (w.version t) r (release_locks got v) w
    ended expected (err e) v c =
        SameTables-trans (release_locks-SameTables got v) (SameTables-trans c before)
    ended none (ok a) v c = tt
    ended (some n) (ok a) v c = c ∙ ap (λ f. f t) before.version

    ran :
        (acquired : Result (Unit {0}))
        → Checked expected
            (w.version t)
            (run_if acquired fn held).0
            (release_locks got (run_if acquired fn held).1)
            w
    ran (ok _) = ended expected (fn held).0 (fn held).1 (body held)
    ran (err d) = SameTables-trans (release_locks-SameTables got held) before

-- The check of the version, before a rest that returns.
guarded :
    (n m : ℕ) (v : World) (rest : World → Result (List ℕ) × World) (a : List ℕ)
    → (rest v).0 ≡ ok a
    → let r = (guard (n == m) environment_changed >> rest) v in Checked (some n) m r.0 r.1 v
guarded n m v rest a h = elim (Bool-cases (n == m)) [
  | inl e ↦ rw (e, h) (ground arith)
  | inr e ↦ rw e (same v)
]

-- If an application throws, it leaves orders, assignments, capacities and versions as they were. If it
-- returns, the schedule of its type had the version that was expected, if one was.
pub apply_schedule_transaction_checks :
    (type : ℕ) (config : SchedulingConfig) (result : StrategyResult) (operator_id : ℕ)
    (expected_version preview_id : Option ℕ) (w : World)
    → let r =
        apply_schedule_transaction type config result operator_id expected_version preview_id w in
      Checked expected_version (w.version type) r.0 r.1 w
unfolding apply_schedule_transaction
apply_schedule_transaction_checks type config result operator_id none preview_id w =
    with_schedule_lock-Checked (type ∷ []) _ w none type (λ v. tt)
apply_schedule_transaction_checks type config result operator_id (some n) none w =
    with_schedule_lock-Checked (type ∷ []) _ w (some n) type
      (λ v. guarded n (v.version type) v _ (processed_ids OrderStatus.failed result) refl)
apply_schedule_transaction_checks type config result operator_id (some n) (some preview) w =
    with_schedule_lock-Checked (type ∷ []) _ w (some n) type
      (λ v. guarded n (v.version type) v _ (processed_ids OrderStatus.failed result) refl)
