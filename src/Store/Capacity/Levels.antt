-- ===== src/Store/Capacity/Levels.antt =====
-- The counters of infra/db/capacity-repository.ts: a write by the id of the row that was found changes
-- the counter of one factory and date.
use wafer_fabrication_schedu.Base.{
  ℕ, ◌+◌, ◌≡◌, refl, ◌≢◌, ◌<◌, Bool, ◌&&◌, ◌==◌, if◌then◌else◌, none, some, List, [], ◌∷◌, ◌++◌,
  arith, find, All, All-append, All-mono, Bool-cases, Option-cases, if_ind, inl, inr, ℤ, pos, ◌+ℤ◌,
}
use mathlib.Core.Path.{subst}
use wafer_fabrication_schedu.Base.Sort.{Distinct}
use wafer_fabrication_schedu.Dates.{Date}
use wafer_fabrication_schedu.Store.{World, CapacityRow, update_where}
use wafer_fabrication_schedu.Store.Capacity.{
  capacity_at, add_delta, capacity_has_id, upsert_daily_capacity_delta,
}

abbrev pub row_id : CapacityRow → ℕ
row_id r = r.id

-- The primary key: the ids differ, and the next one is new.
pub record HasIds (w : World) : Type 0 where
  pub distinct : Distinct row_id w.capacities
  pub below : All (λ (r : CapacityRow). r.id < w.next_id) w.capacities

-- The counter of a factory on a date; without a row it is the capacity of the factory.
abbrev pub level_at : (ℕ → ℕ) → ℕ → Date → List CapacityRow → ℤ
level_at capacity factory_id date rows = elim (find (capacity_at factory_id date) rows) [
  | none ↦ pos (capacity factory_id)
  | some r ↦ r.cur_capacity
]

pub find-All {ℓ κ} :
    {A : Type ℓ} (P : A → Type κ) (p : A → Bool) (xs : List A) {a : A}
    → All P xs
    → find p xs ≡ some a
    → P a
find-All P p [] h e = cc
find-All P p (x ∷ xs) {a} h e = elim (Bool-cases (p x)) [
  | inl t ↦ subst P (ground arith) h.0
  | inr f ↦ find-All P p xs h.1 (ground arith)
]

find_same :
    (p q : CapacityRow → Bool) (rows : List CapacityRow) (a b : CapacityRow)
    → Distinct row_id rows
    → find p rows ≡ some a
    → find q rows ≡ some b
    → a.id ≡ b.id
    → a ≡ b
find_same p q [] a b d e f s = cc
find_same p q (x ∷ xs) a b d e f s = elim (Bool-cases (p x)) [
  | inl px ↦ elim (Bool-cases (q x)) [
    | inl qx ↦ ground arith
    | inr nq ↦
        absurd (find-All (λ y. row_id x ≢ row_id y) q xs {a = b} d.0 (ground arith) (ground arith))
  ]
  | inr np ↦ elim (Bool-cases (q x)) [
    | inl qx ↦
        absurd (find-All (λ y. row_id x ≢ row_id y) p xs {a = a} d.0 (ground arith) (ground arith))
    | inr nq ↦ find_same p q xs a b d.1 (ground arith) (ground arith) s
  ]
]

find-update_where :
    (factory_id id : ℕ) (date : Date) (delta : ℤ) (rows : List CapacityRow)
    → find (capacity_at factory_id date) (update_where (capacity_has_id id) (add_delta delta) rows)
      ≡ elim (find (capacity_at factory_id date) rows) [
        | none ↦ none
        | some r ↦ some (if r.id == id then add_delta delta r else r)
      ]
find-update_where factory_id id date delta [] = refl
find-update_where factory_id id date delta (x ∷ xs) =
    ground (arith, find-update_where factory_id id date delta xs)

pub find-snoc {ℓ} :
    {A : Type ℓ} (p : A → Bool) (xs : List A) (x : A)
    → find p (xs ++ x ∷ [])
      ≡ elim (find p xs) [ none ↦ (if p x then some x else none) | some y ↦ some y ]
find-snoc p [] x = refl
find-snoc p (y ∷ ys) x = ground (arith, find-snoc p ys x)

find_key :
    (factory_id : ℕ) (date : Date) (rows : List CapacityRow) (a : CapacityRow)
    → find (capacity_at factory_id date) rows ≡ some a
    → (a.factory_id ≡ factory_id) × (a.date ≡ date)
find_key factory_id date [] a e = cc
find_key factory_id date (x ∷ xs) a e = ground (arith, find_key factory_id date xs a)

module _ (capacity : ℕ → ℕ) where
  -- An upsert moves the counter of its factory and date by its delta, and no other counter.
  pub level_at-upsert_daily_capacity_delta :
      (factory_id date f d : ℕ) (delta : ℤ) (w : World)
      → HasIds w
      → level_at capacity f d
          (upsert_daily_capacity_delta factory_id date delta (capacity factory_id) w).capacities
        ≡ (if (factory_id == f) && (date == d)
            then level_at capacity f d w.capacities +ℤ delta
            else level_at capacity f d w.capacities)
  unfolding upsert_daily_capacity_delta
  level_at-upsert_daily_capacity_delta factory_id date f d delta w h =
      elim (Option-cases (find (capacity_at factory_id date) w.capacities)) [
        | inl e ↦
            let new : CapacityRow = record {
              id = w.next_id;
              factory_id = factory_id;
              date = date;
              max_capacity = capacity factory_id;
              cur_capacity = pos (capacity factory_id) +ℤ delta;
            } in
            ground (arith, find-snoc (capacity_at f d) w.capacities new)
        | inr (a, e) ↦ elim (Option-cases (find (capacity_at f d) w.capacities)) [
          | inl n ↦ ground (arith, find-update_where f a.id d delta w.capacities)
          | inr (b, g) ↦ ground (
            arith,
            find-update_where f a.id d delta w.capacities,
            find_key factory_id date w.capacities a e,
            find_key f d w.capacities b g,
            find_same (capacity_at factory_id date) (capacity_at f d) w.capacities a b h.distinct e
                g,
          )
        ]
      ]

-- What holds of the ids of the rows holds after a change that keeps them.
All-update_where {κ} :
    (P : ℕ → Type κ) (id : ℕ) (delta : ℤ) (rows : List CapacityRow)
    → All (λ r. P (row_id r)) rows
    → All (λ r. P (row_id r)) (update_where (capacity_has_id id) (add_delta delta) rows)
All-update_where P id delta [] h = tt
All-update_where P id delta (x ∷ xs) h =
    (if_ind (λ (r : CapacityRow). P r.id) (x.id == id) h.0 h.0, All-update_where P id delta xs h.1)

Distinct-update_where :
    (id : ℕ) (delta : ℤ) (rows : List CapacityRow)
    → Distinct row_id rows
    → Distinct row_id (update_where (capacity_has_id id) (add_delta delta) rows)
Distinct-update_where id delta [] d = tt
Distinct-update_where id delta (x ∷ xs) d = (
  if_ind
      (λ (r : CapacityRow).
        All (λ y. row_id r ≢ row_id y) (update_where (capacity_has_id id) (add_delta delta) xs))
      (x.id == id) (All-update_where (λ i. x.id ≢ i) id delta xs d.0)
      (All-update_where (λ i. x.id ≢ i) id delta xs d.0),
  Distinct-update_where id delta xs d.1,
)

Distinct-snoc :
    (rows : List CapacityRow) (new : CapacityRow)
    → Distinct row_id rows
    → All (λ (r : CapacityRow). r.id < new.id) rows
    → Distinct row_id (rows ++ new ∷ [])
Distinct-snoc [] new d b = (tt, tt)
Distinct-snoc (x ∷ xs) new d b = (
  All-append (λ y. row_id x ≢ row_id y) xs (new ∷ []) d.0 ((λ e. absurd (omega arith)), tt),
  Distinct-snoc xs new d.1 b.1,
)

pub upsert_daily_capacity_delta-HasIds :
    (factory_id date max : ℕ) (delta : ℤ) (w : World)
    → HasIds w
    → HasIds (upsert_daily_capacity_delta factory_id date delta max w)
unfolding upsert_daily_capacity_delta
upsert_daily_capacity_delta-HasIds factory_id date max delta w h =
    elim (Option-cases (find (capacity_at factory_id date) w.capacities)) [
      | inl e ↦
          rw (e, upsert_daily_capacity_delta)
            (record {
              distinct = Distinct-snoc w.capacities _ h.distinct h.below;
              below =
                  All-append (λ (r : CapacityRow). r.id < w.next_id + 1) w.capacities _
                    (All-mono (λ (r : CapacityRow). r.id < w.next_id) _ (λ r l. omega arith)
                      w.capacities h.below)
                    (omega arith, tt);
            })
      | inr (a, e) ↦
          rw (e, upsert_daily_capacity_delta)
            (record {
              distinct = Distinct-update_where a.id delta w.capacities h.distinct;
              below = All-update_where (λ i. i < w.next_id) a.id delta w.capacities h.below;
            })
    ]
