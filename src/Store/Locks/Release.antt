-- ===== src/Store/Locks/Release.antt =====
-- What `withScheduleLock` acquires it gives back, whether its body runs, throws, or is never reached.
use mathlib.Core.Path.{fun_ext}
use wafer_fabrication_schedu.Base.{
  ℕ, ◌+◌, ◌≡◌, refl, sym, ◌∙◌, ap, Bool, true, false, ◌||◌, ◌==◌, if◌then◌else◌, none, some, List,
  [], ◌∷◌, ◌++◌, arith, All, All-append, All-mono, any, Option-cases, Bool-cases, inl, inr,
}
use wafer_fabrication_schedu.Store.{World, Result, ok, err, Action}
use wafer_fabrication_schedu.Store.Locks.{
  Lock, set_lock, lock_order, acquire_locks, release_lock, release_locks, run_if,
  with_schedule_lock,
}

abbrev has_type : ℕ → Lock → Bool
has_type k l = l.type == k

-- A lock that is held now, and was free before.
abbrev Owned : World → World → Lock → Type 0
Owned before w l = (w.lock l.type ≡ some l.owner_token) × (before.lock l.type ≡ none)

abbrev Separate : List Lock → Type 0
Separate [] = Unit
Separate (l ∷ ls) = (any (has_type l.type) ls ≡ false) × Separate ls

-- Between `before` and `w` exactly the locks of the list were acquired.
record Acquired (before w : World) (got : List Lock) : Type 0 where
  owned : All (Owned before w) got
  separate : Separate got
  others : (k : ℕ) → any (has_type k) got ≡ false → w.lock k ≡ before.lock k

any-append {ℓ} :
    {A : Type ℓ} (p : A → Bool) (xs ys : List A) → any p (xs ++ ys) ≡ any p xs || any p ys
any-append p [] ys = refl
any-append p (x ∷ xs) ys = ground (arith, any-append p xs ys)

-- A lock that is free is not among the owned ones.
free_absent :
    (before w : World) (got : List Lock) (t : ℕ)
    → All (Owned before w) got
    → w.lock t ≡ none
    → any (has_type t) got ≡ false
free_absent before w [] t o f = refl
free_absent before w (l ∷ ls) t o f = ground (arith, free_absent before w ls t o.1 f, o.0)

Separate-snoc :
    (got : List Lock) (l : Lock)
    → Separate got
    → any (has_type l.type) got ≡ false
    → Separate (got ++ l ∷ [])
Separate-snoc [] l s a = (refl, tt)
Separate-snoc (g ∷ gs) l s a = (
  ground (arith, any-append (has_type g.type) gs (l ∷ [])),
  Separate-snoc gs l s.1 (ground arith),
)

Owned-set_lock :
    (before w : World) (t token next : ℕ) (got : List Lock)
    → any (has_type t) got ≡ false
    → All (Owned before w) got
    → All (Owned before (record (set_lock t (some token) w) { next_id = next })) got
Owned-set_lock before w t token next [] a o = tt
Owned-set_lock before w t token next (l ∷ ls) a o =
    ((ground arith, o.0.1), Owned-set_lock before w t token next ls (ground arith) o.1)

Acquired-snoc :
    (before w : World) (got : List Lock) (t : ℕ)
    → Acquired before w got
    → w.lock t ≡ none
    → Acquired before
        (record (set_lock t (some w.next_id) w) { next_id = w.next_id + 1 })
        (got ++ record { type = t; owner_token = w.next_id } ∷ [])
Acquired-snoc before w got t a f =
    let new : Lock = record { type = t; owner_token = w.next_id } in
    let w' = record (set_lock t (some w.next_id) w) { next_id = w.next_id + 1 } in
    let absent = free_absent before w got t a.owned f in
    record {
      owned =
          All-append (Owned before w') got (new ∷ [])
            (Owned-set_lock before w t w.next_id (w.next_id + 1) got absent a.owned)
            ((ground arith, sym (a.others t absent) ∙ f), tt);
      separate = Separate-snoc got new a.separate absent;
      others = λ k n. ground (arith, any-append (has_type k) got (new ∷ []), a.others k);
    }

acquire_locks-Acquired :
    (before : World) (ts : List ℕ) (got : List Lock) (w : World)
    → Acquired before w got
    → let r = acquire_locks ts got w in Acquired before r.2 r.1
unfolding acquire_locks
acquire_locks-Acquired before [] got w a = a
acquire_locks-Acquired before (t ∷ ts) got w a = elim (Option-cases (w.lock t)) [
  | inl e ↦
      rw (e, acquire_locks)
        (acquire_locks-Acquired before ts (got ++ record { type = t; owner_token = w.next_id } ∷ [])
          (record (set_lock t (some w.next_id) w) { next_id = w.next_id + 1 })
          (Acquired-snoc before w got t a e))
  | inr (o, e) ↦ rw (e, acquire_locks) a
]

abbrev Held : World → Lock → Type 0
Held w l = w.lock l.type ≡ some l.owner_token

release_lock-Held : (l : Lock) (w : World) → Held w l → release_lock l w ≡ set_lock l.type none w
unfolding release_lock
release_lock-Held l w h = ground arith

Held-set_lock :
    (t : ℕ) (w : World) (ls : List Lock)
    → any (has_type t) ls ≡ false
    → All (Held w) ls
    → All (Held (set_lock t none w)) ls
Held-set_lock t w [] a h = tt
Held-set_lock t w (l ∷ ls) a h = (ground arith, Held-set_lock t w ls (ground arith) h.1)

release_locks-lock :
    (ls : List Lock) (w : World) (k : ℕ)
    → All (Held w) ls
    → Separate ls
    → (release_locks ls w).lock k ≡ (if any (has_type k) ls then none else w.lock k)
unfolding release_locks
release_locks-lock [] w k h s = refl
release_locks-lock (l ∷ ls) w k h s =
    ap (λ (v : World). (release_locks ls v).lock k) (release_lock-Held l w h.0)
    ∙ release_locks-lock ls (set_lock l.type none w) k (Held-set_lock l.type w ls s.0 h.1) s.1
    ∙ free_or (any (has_type k) ls)
  where
    free_or :
        (b : Bool)
        → (if b then none else (if k == l.type then none else w.lock k))
          ≡ (if (l.type == k) || b then none else w.lock k)
    free_or b = ground arith

Acquired-before :
    (before w : World) (got : List Lock) (k : ℕ)
    → All (Owned before w) got
    → any (has_type k) got ≡ true
    → before.lock k ≡ none
Acquired-before before w [] k o a = cc
Acquired-before before w (l ∷ ls) k o a = ground (arith, Acquired-before before w ls k o.1, o.0)

-- Giving back what was acquired gives the old locks, also after a body that left the locks alone.
released :
    (before w w' : World) (got : List Lock)
    → Acquired before w got
    → w'.lock ≡ w.lock
    → (release_locks got w').lock ≡ before.lock
released before w w' got a same = fun_ext λ k.
    release_locks-lock got w' k
      (All-mono (Owned before w) (Held w') (λ l o. ap (λ f. f l.type) same ∙ o.0) got a.owned)
      a.separate
    ∙ back k
  where
    back : (k : ℕ) → (if any (has_type k) got then none else w'.lock k) ≡ before.lock k
    back k = elim (Bool-cases (any (has_type k) got)) [
      | inl e ↦ rw e (sym (Acquired-before before w got k a.owned e))
      | inr e ↦ rw e (ap (λ f. f k) same ∙ a.others k e)
    ]

run_if-lock :
    {A : Type 0} (r : Result (Unit {0})) (fn : Action A) (w : World)
    → ((v : World) → (fn v).1.lock ≡ v.lock)
    → (run_if r fn w).1.lock ≡ w.lock
run_if-lock (ok _) fn w h = h w
run_if-lock (err e) fn w h = refl

-- If the body leaves the locks as they are, then so does the whole call, whether the locks were
-- acquired or one of them was taken, and whether the body returns or throws.
pub with_schedule_lock_restores :
    {A : Type 0} (types : List ℕ) (fn : Action A) (w : World)
    → ((v : World) → (fn v).1.lock ≡ v.lock)
    → (with_schedule_lock types fn w).1.lock ≡ w.lock
unfolding with_schedule_lock
with_schedule_lock_restores types fn w keeps =
    let r = acquire_locks (lock_order types) [] w in
    released w r.2 (run_if r.0 fn r.2).1 r.1
      (acquire_locks-Acquired w (lock_order types) [] w
        (record { owned = tt; separate = tt; others = λ k n. refl }))
      (run_if-lock r.0 fn r.2 keeps)
