-- ===== src/Store/Locks/Exclusion.antt =====
-- `withScheduleLock` runs its body only if none of the locks is taken.
use wafer_fabrication_schedu.Base.{
  ℕ, ◌+◌, ◌≡◌, ◌≤◌, refl, ◌∙◌, true, leb, some, List, [], ◌∷◌, ◌++◌, arith, elem, Option-cases, inl,
  inr,
}
use wafer_fabrication_schedu.Base.Sort.{sort_by, insert_sorted}
use wafer_fabrication_schedu.Store.{World, Error, already_running, Result, ok, err, Action}
use wafer_fabrication_schedu.Store.Rows.{elem-unique_from}
use wafer_fabrication_schedu.Store.Locks.{
  Lock, set_lock, unique_from, lock_order, acquire_locks, release_lock, release_locks, run_if,
  with_schedule_lock,
}

elem-insert_sorted : (t x : ℕ) (xs : List ℕ) → elem t (insert_sorted leb x xs) ≡ elem t (x ∷ xs)
unfolding insert_sorted
elem-insert_sorted t x [] = refl
elem-insert_sorted t x (y ∷ ys) = ground (arith, elem-insert_sorted t x ys)

elem-sort_by : (t : ℕ) (xs : List ℕ) → elem t (sort_by leb xs) ≡ elem t xs
unfolding sort_by
elem-sort_by t [] = refl
elem-sort_by t (x ∷ xs) = ground (arith, elem-insert_sorted t x (sort_by leb xs), elem-sort_by t xs)

elem-lock_order : (t : ℕ) (types : List ℕ) → elem t (lock_order types) ≡ elem t types
unfolding lock_order
elem-lock_order t types = elem-sort_by t (unique_from [] types) ∙ elem-unique_from t [] types refl

-- The tables and the versions, which the locks do not touch.
pub record SameTables (v w : World) : Type 0 where
  pub orders : v.orders ≡ w.orders
  pub assignments : v.assignments ≡ w.assignments
  pub capacities : v.capacities ≡ w.capacities
  pub version : v.version ≡ w.version

pub SameTables-trans : {u v w : World} → SameTables u v → SameTables v w → SameTables u w
SameTables-trans a b = record {
  orders = a.orders ∙ b.orders;
  assignments = a.assignments ∙ b.assignments;
  capacities = a.capacities ∙ b.capacities;
  version = a.version ∙ b.version;
}

pub acquire_locks-SameTables :
    (ts : List ℕ) (got : List Lock) (w : World) → SameTables (acquire_locks ts got w).2 w
unfolding acquire_locks
acquire_locks-SameTables [] got w = record {
  orders = refl;
  assignments = refl;
  capacities = refl;
  version = refl;
}
acquire_locks-SameTables (t ∷ ts) got w = ground (
  arith,
  acquire_locks-SameTables ts (got ++ record { type = t; owner_token = w.next_id } ∷ [])
      (record (set_lock t (some w.next_id) w) { next_id = w.next_id + 1 }),
)

-- What the next id and the factories are under the locks.
pub acquire_locks-kept :
    (ts : List ℕ) (got : List Lock) (w : World)
    → let v = (acquire_locks ts got w).2 in (v.factories ≡ w.factories) × (w.next_id ≤ v.next_id)
unfolding acquire_locks
acquire_locks-kept [] got w = (refl, omega arith)
acquire_locks-kept (t ∷ ts) got w = elim (Option-cases (w.lock t)) [
  | inr (o, e) ↦ rw (e, acquire_locks) (refl, omega arith)
  | inl e ↦
      let more =
        acquire_locks-kept ts (got ++ record { type = t; owner_token = w.next_id } ∷ [])
          (record (set_lock t (some w.next_id) w) { next_id = w.next_id + 1 }) in
      rw (e, acquire_locks) (more.0, omega (arith, more.1))
]

release_lock-SameTables : (l : Lock) (w : World) → SameTables (release_lock l w) w
unfolding release_lock
release_lock-SameTables l w = ground arith

pub release_locks-SameTables : (ls : List Lock) (w : World) → SameTables (release_locks ls w) w
unfolding release_locks
release_locks-SameTables [] w = record {
  orders = refl;
  assignments = refl;
  capacities = refl;
  version = refl;
}
release_locks-SameTables (l ∷ ls) w =
    SameTables-trans (release_locks-SameTables ls (release_lock l w)) (release_lock-SameTables l w)

acquire_locks-taken :
    (ts : List ℕ) (got : List Lock) (w : World) (t owner : ℕ)
    → w.lock t ≡ some owner
    → elem t ts ≡ true
    → (held : ℕ) × ((acquire_locks ts got w).0 ≡ err (already_running held))
unfolding acquire_locks
acquire_locks-taken [] got w t owner h e = cc
acquire_locks-taken (x ∷ xs) got w t owner h e = elim (Option-cases (w.lock x)) [
  | inr (o, f) ↦ (x, rw (f, acquire_locks))
  | inl f ↦
      let (held, r) =
        acquire_locks-taken xs (got ++ record { type = x; owner_token = w.next_id } ∷ [])
          (record (set_lock x (some w.next_id) w) { next_id = w.next_id + 1 }) t owner
          (ground arith) (ground arith) in
      (held, rw (f, acquire_locks) r)
]

-- If the lock of one of the types is taken, then the call throws that a scheduling process is
-- running, and leaves the tables and the versions as they are, whatever its body would do.
pub with_schedule_lock_excludes :
    {A : Type 0} (types : List ℕ) (fn : Action A) (w : World) (t owner : ℕ)
    → w.lock t ≡ some owner
    → elem t types ≡ true
    → let r = with_schedule_lock types fn w in
      (held : ℕ) × (r.0 ≡ err (already_running held)) × SameTables r.1 w
unfolding with_schedule_lock
with_schedule_lock_excludes types fn w t owner h e =
    let r = acquire_locks (lock_order types) [] w in
    let (held, failed) =
      acquire_locks-taken (lock_order types) [] w t owner h (elem-lock_order t types ∙ e) in
    (
      held,
      rw failed,
      rw failed (
          SameTables-trans (release_locks-SameTables r.1 r.2)
            (acquire_locks-SameTables (lock_order types) [] w)),
    )

-- What holds of the outcome of a body under the locks, and of every throw that changes no table, holds
-- of the outcome with the locks.
pub with_schedule_lock-outcome :
    {A : Type 0} (Q : Result A → World → Type 0) (types : List ℕ) (fn : Action A) (w : World)
    → ((r : Result A) (u v : World) → SameTables u v → Q r v → Q r u)
    → ((e : Error) → Q (err e) w)
    → ((v : World)
        → SameTables v w
        → v.factories ≡ w.factories
        → w.next_id ≤ v.next_id
        → Q (fn v).0 (fn v).1)
    → Q (with_schedule_lock types fn w).0 (with_schedule_lock types fn w).1
unfolding with_schedule_lock
with_schedule_lock-outcome {A} Q types fn w same thrown body =
    ran (acquire_locks (lock_order types) [] w).0
  where
    got : List Lock
    got = (acquire_locks (lock_order types) [] w).1

    held : World
    held = (acquire_locks (lock_order types) [] w).2

    before : SameTables held w
    before = acquire_locks-SameTables (lock_order types) [] w

    ran :
        (acquired : Result (Unit {0}))
        → Q (run_if acquired fn held).0 (release_locks got (run_if acquired fn held).1)
    ran (ok _) =
        let (factories, later) = acquire_locks-kept (lock_order types) [] w in
        same (fn held).0 (release_locks got (fn held).1) (fn held).1
          (release_locks-SameTables got (fn held).1) (body held before factories later)
    ran (err d) =
        same (err d) (release_locks got held) w
          (SameTables-trans (release_locks-SameTables got held) before) (thrown d)
