-- ===== src/Store/Locks.antt =====
-- `withScheduleLock` of infra/redis/schedule-store.ts. Time does not pass while an action runs, so no
-- lock expires under it.
pub mod Release
pub mod Exclusion
use wafer_fabrication_schedu.Base.{
  ℕ, suc, ◌+◌, ◌≡◌, refl, Bool, true, false, ◌==◌, leb, if◌then◌else◌, Option, none, some, List, [],
  ◌∷◌, ◌++◌, elem, arith,
}
use wafer_fabrication_schedu.Base.Sort.{sort_by}
use wafer_fabrication_schedu.Store.{World, Error, already_running, Result, ok, err, Action}

pub record Lock : Type 0 where
  pub type : ℕ
  pub owner_token : ℕ

abbrev pub set_lock : ℕ → Option ℕ → World → World
set_lock type v w = record w { lock = λ k. if k == type then v else w.lock k }

-- `Array.from(new Set(types))`: the first occurrence of each.
unfoldable pub unique_from : List ℕ → List ℕ → List ℕ
unique_from seen [] = []
unique_from seen (t ∷ ts) =
    let skipped = unique_from seen ts in
    let kept = t ∷ unique_from (t ∷ seen) ts in if elem t seen then skipped else kept

unfoldable pub lock_order : List ℕ → List ℕ
unfolding unique_from sort_by
lock_order types = sort_by leb (unique_from [] types)

-- `redis.set(key, token, "EX", ttl, "NX")` for each type in turn, up to the first that is taken: the
-- locks that were acquired, and the state.
unfoldable pub acquire_locks : List ℕ → List Lock → World → Result (Unit {0}) × List Lock × World
acquire_locks [] got w = (ok tt, got, w)
acquire_locks (t ∷ ts) got w =
    let rest =
      acquire_locks ts (got ++ record { type = t; owner_token = w.next_id } ∷ [])
        (record (set_lock t (some w.next_id) w) { next_id = w.next_id + 1 }) in
    elim (w.lock t) [ none ↦ rest | some owner ↦ (err (already_running t), got, w) ]

-- The release script deletes the key only if it still holds the owner's token.
unfoldable pub release_lock : Lock → World → World
release_lock l w = elim (w.lock l.type) [
  | none ↦ w
  | some token ↦ if token == l.owner_token then set_lock l.type none w else w
]

unfoldable pub release_locks : List Lock → World → World
unfolding release_lock
release_locks [] w = w
release_locks (l ∷ ls) w = release_locks ls (release_lock l w)

abbrev pub run_if : {A : Type 0} → Result (Unit {0}) → Action A → Action A
run_if (ok _) fn w = fn w
run_if (err e) fn w = (err e, w)

-- The body runs only if every lock was acquired; the `finally` block runs in any case.
unfoldable pub with_schedule_lock : {A : Type 0} → List ℕ → Action A → Action A
unfolding lock_order acquire_locks release_locks
with_schedule_lock types fn w =
    let (acquired, got, w1) = acquire_locks (lock_order types) [] w in
    let (result, w2) = run_if acquired fn w1 in (result, release_locks got w2)
