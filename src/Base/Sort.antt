-- ===== src/Base/Sort.antt =====
-- `Array.sort` with a comparator: the stable sort, as an insertion sort. `le a b` is "the
-- comparator's result on `a` and `b` is at most 0".
use mathlib.Core.Path.{◌≡◌, refl, sym}
use mathlib.Core.Bool.{Bool, true, false}
use mathlib.Core.List.{List, [], ◌∷◌, Perm}
use mathlib.Core.List.Perm
use mathlib.Core.Logic.{◌≢◌, inl, inr}
use Prim.Native.Nat.{ℕ, ◌+◌}
use native.Mathlib.Omega.{arith}
use wafer_fabrication_schedu.Base.Tests.{if◌then◌else◌, Bool-cases}
use wafer_fabrication_schedu.Base.Lists.{All, All-mono, sum_of}

module _ {ℓ} {A : Type ℓ} (le : A → A → Bool) where
  unfoldable pub insert_sorted : A → List A → List A
  insert_sorted x [] = x ∷ []
  insert_sorted x (y ∷ ys) = if le x y then x ∷ y ∷ ys else y ∷ insert_sorted x ys

  unfoldable pub sort_by : List A → List A
  unfolding insert_sorted
  sort_by [] = []
  sort_by (x ∷ xs) = insert_sorted x (sort_by xs)

  -- Every entry is at most each entry behind it.
  abbrev pub Sorted : List A → Type ℓ
  Sorted [] = Unit
  Sorted (x ∷ xs) = All (λ y. le x y ≡ true) xs × Sorted xs

  insert_sorted-perm : (x : A) (ys : List A) → Perm (insert_sorted x ys) (x ∷ ys)
  unfolding insert_sorted
  insert_sorted-perm x [] = Perm.rfl
  insert_sorted-perm x (y ∷ ys) = elim (Bool-cases (le x y)) [
    | inl e ↦ rw e Perm.rfl
    | inr e ↦ rw e (Perm.trans (Perm.cons y (insert_sorted-perm x ys)) (Perm.swap x y ys))
  ]

  pub sort_by-perm : (xs : List A) → Perm (sort_by xs) xs
  unfolding sort_by
  sort_by-perm [] = Perm.rfl
  sort_by-perm (x ∷ xs) =
      Perm.trans (insert_sorted-perm x (sort_by xs)) (Perm.cons x (sort_by-perm xs))

  pub insert_sorted-All {κ} :
      (P : A → Type κ) (x : A) (ys : List A) → P x → All P ys → All P (insert_sorted x ys)
  unfolding insert_sorted
  insert_sorted-All P x [] px h = (px, tt)
  insert_sorted-All P x (y ∷ ys) px h = elim (Bool-cases (le x y)) [
    | inl e ↦ rw e (px, h)
    | inr e ↦ rw e (h.0, insert_sorted-All P x ys px h.1)
  ]

  pub sort_by-All {κ} : (P : A → Type κ) (xs : List A) → All P xs → All P (sort_by xs)
  unfolding sort_by
  sort_by-All P [] h = tt
  sort_by-All P (x ∷ xs) h = insert_sorted-All P x (sort_by xs) h.0 (sort_by-All P xs h.1)

  insert_sorted-sum :
      (f : A → ℕ) (x : A) (ys : List A) → sum_of f (insert_sorted x ys) ≡ f x + sum_of f ys
  unfolding insert_sorted
  insert_sorted-sum f x [] = refl
  insert_sorted-sum f x (y ∷ ys) = ground (arith, insert_sorted-sum f x ys)

  pub sort_by-sum : (f : A → ℕ) (xs : List A) → sum_of f (sort_by xs) ≡ sum_of f xs
  unfolding sort_by
  sort_by-sum f [] = refl
  sort_by-sum f (x ∷ xs) = omega (arith, insert_sorted-sum f x (sort_by xs), sort_by-sum f xs)

  module _ (total : (a b : A) → le a b ≡ false → le b a ≡ true)
      (trans : (a b c : A) → le a b ≡ true → le b c ≡ true → le a c ≡ true) where
    insert_sorted-Sorted : (x : A) (ys : List A) → Sorted ys → Sorted (insert_sorted x ys)
    unfolding insert_sorted
    insert_sorted-Sorted x [] s = (tt, tt)
    insert_sorted-Sorted x (y ∷ ys) s = elim (Bool-cases (le x y)) [
      | inl e ↦ rw e ((e, All-mono (λ z. le y z ≡ true) _ (λ z h. trans x y z e h) ys s.0), s)
      | inr e ↦ rw e (
        insert_sorted-All (λ z. le y z ≡ true) x ys (total x y e) s.0,
        insert_sorted-Sorted x ys s.1,
      )
    ]

    pub sort_by-Sorted : (xs : List A) → Sorted (sort_by xs)
    unfolding sort_by
    sort_by-Sorted [] = tt
    sort_by-Sorted (x ∷ xs) = insert_sorted-Sorted x (sort_by xs) (sort_by-Sorted xs)

-- No two entries have the same key.
abbrev pub Distinct {ℓ} : {A : Type ℓ} → (A → ℕ) → List A → Type ℓ
Distinct key [] = Unit
Distinct key (x ∷ xs) = All (λ y. key x ≢ key y) xs × Distinct key xs

module _ {ℓ} {A : Type ℓ} (le : A → A → Bool) (key : A → ℕ) where
  insert_sorted-Distinct :
      (x : A) (ys : List A)
      → All (λ y. key x ≢ key y) ys
      → Distinct key ys
      → Distinct key (insert_sorted le x ys)
  unfolding insert_sorted
  insert_sorted-Distinct x [] a d = (tt, tt)
  insert_sorted-Distinct x (y ∷ ys) a d = elim (Bool-cases (le x y)) [
    | inl e ↦ rw e (a, d)
    | inr e ↦ rw e (
      insert_sorted-All le (λ z. key y ≢ key z) x ys (λ p. a.0 (sym p)) d.0,
      insert_sorted-Distinct x ys a.1 d.1,
    )
  ]

  pub sort_by-Distinct : (xs : List A) → Distinct key xs → Distinct key (sort_by le xs)
  unfolding sort_by
  sort_by-Distinct [] d = tt
  sort_by-Distinct (x ∷ xs) d =
      insert_sorted-Distinct x (sort_by le xs) (sort_by-All le (λ z. key x ≢ key z) xs d.0)
        (sort_by-Distinct xs d.1)
