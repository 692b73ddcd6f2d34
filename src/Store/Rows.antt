-- ===== src/Store/Rows.antt =====
-- `updateMany` by the keys of rows that were found: with different keys it changes just those rows.
use wafer_fabrication_schedu.Base.{
  ℕ, ◌≡◌, refl, ◌≢◌, ap, Bool, false, ◌&&◌, ◌||◌, ◌==◌, if◌then◌else◌, List, [], ◌∷◌, ◌++◌, arith,
  map, keep, any, elem, All, Bool-cases, inl, inr,
}
use wafer_fabrication_schedu.Base.Sort.{Distinct}
use wafer_fabrication_schedu.Store.{update_where}
use wafer_fabrication_schedu.Store.Locks.{unique_from}

module _ {ℓ} {A : Type ℓ} (key : A → ℕ) where
  abbrev pub keys_where : (A → Bool) → List A → List ℕ
  keys_where p rows = map key (keep p rows)

  absent_key :
      (p : A → Bool) (i : ℕ) (rows : List A)
      → All (λ y. i ≢ key y) rows
      → elem i (keys_where p rows) ≡ false
  absent_key p i [] h = refl
  absent_key p i (x ∷ xs) h = ground (arith, absent_key p i xs h.1, h.0)

  keys_where-more :
      (p : A → Bool) (x : A) (rows ys : List A)
      → All (λ y. key x ≢ key y) ys
      → All (λ y. elem (key y) (keys_where p rows) ≡ p y) ys
      → All (λ y. elem (key y) (keys_where p (x ∷ rows)) ≡ p y) ys
  keys_where-more p x rows [] d h = tt
  keys_where-more p x rows (y ∷ ys) d h = (ground arith, keys_where-more p x rows ys d.1 h.1)

  -- A row is found by its key exactly if it was found.
  pub elem-keys_where :
      (p : A → Bool) (rows : List A)
      → Distinct key rows
      → All (λ y. elem (key y) (keys_where p rows) ≡ p y) rows
  elem-keys_where p [] d = tt
  elem-keys_where p (x ∷ xs) d = (
    ground (arith, absent_key p (key x) xs d.0),
    keys_where-more p x xs xs d.0 (elem-keys_where p xs d.1),
  )

  update_where-congr :
      (g : A → A) (q r : A → Bool) (rows : List A)
      → All (λ y. q y ≡ r y) rows
      → update_where q g rows ≡ update_where r g rows
  update_where-congr g q r [] h = refl
  update_where-congr g q r (x ∷ xs) h = rw (h.0, update_where-congr g q r xs h.1) refl

  pub update_where-keys_where :
      (p : A → Bool) (g : A → A) (rows : List A)
      → Distinct key rows
      → update_where (λ a. elem (key a) (keys_where p rows)) g rows ≡ update_where p g rows
  update_where-keys_where p g rows d =
      update_where-congr g (λ a. elem (key a) (keys_where p rows)) p rows (elem-keys_where p rows d)

  -- One more update, after changes that keep the keys.
  pub update_where-map :
      (p : A → Bool) (g h : A → A) (ids : List ℕ) (rows : List A)
      → ((x : A) → key (h x) ≡ key x)
      → All (λ y. elem (key y) ids ≡ p y) rows
      → update_where (λ y. elem (key y) ids) g (map h rows)
        ≡ map (λ x. if p x then g (h x) else h x) rows
  update_where-map p g h ids [] k e = refl
  update_where-map p g h ids (x ∷ xs) k e = rw (k x, e.0, update_where-map p g h ids xs k e.1) refl

pub map_self {ℓ} : {A : Type ℓ} (rows : List A) → rows ≡ map (λ x. x) rows
map_self [] = refl
map_self (x ∷ xs) = ap (λ ys. x ∷ ys) (map_self xs)

pub map-congr {ℓ κ} :
    {A : Type ℓ} {B : Type κ} (f g : A → B)
    → ((x : A) → f x ≡ g x)
    → (rows : List A) → map f rows ≡ map g rows
map-congr f g h [] = refl
map-congr f g h (x ∷ xs) = rw (h x, map-congr f g h xs) refl

pub map-map {ℓ κ μ} :
    {A : Type ℓ} {B : Type κ} {C : Type μ} (f : A → B) (g : B → C) (rows : List A)
    → map g (map f rows) ≡ map (λ x. g (f x)) rows
map-map f g [] = refl
map-map f g (x ∷ xs) = ap (λ ys. g (f x) ∷ ys) (map-map f g xs)

pub keep-keep {ℓ} :
    {A : Type ℓ} (p q : A → Bool) (rows : List A)
    → keep p (keep q rows) ≡ keep (λ x. q x && p x) rows
keep-keep p q [] = refl
keep-keep p q (x ∷ xs) = ground (arith, keep-keep p q xs)

pub keep-map {ℓ κ} :
    {A : Type ℓ} {B : Type κ} (p : B → Bool) (q : A → Bool) (f : A → B)
    → ((x : A) → p (f x) ≡ q x)
    → (rows : List A) → keep p (map f rows) ≡ map f (keep q rows)
keep-map p q f h [] = refl
keep-map p q f h (x ∷ xs) = elim (Bool-cases (q x)) [
  | inl e ↦ rw (h x, e, keep-map p q f h xs) refl
  | inr e ↦ rw (h x, e, keep-map p q f h xs) refl
]

pub any-map {ℓ κ} :
    {A : Type ℓ} {B : Type κ} (p : B → Bool) (f : A → B) (rows : List A)
    → any p (map f rows) ≡ any (λ x. p (f x)) rows
any-map p f [] = refl
any-map p f (x ∷ xs) = ap (λ b. p (f x) || b) (any-map p f xs)

pub elem-append : (i : ℕ) (xs ys : List ℕ) → elem i (xs ++ ys) ≡ elem i xs || elem i ys
elem-append i [] ys = refl
elem-append i (x ∷ xs) ys = ground (arith, elem-append i xs ys)

pub elem-unique_from :
    (t : ℕ) (seen xs : List ℕ) → elem t seen ≡ false → elem t (unique_from seen xs) ≡ elem t xs
unfolding unique_from
elem-unique_from t seen [] n = refl
elem-unique_from t seen (x ∷ xs) n = elim (Bool-cases (x == t)) [
  | inl e ↦ ground arith
  | inr e ↦ ground (arith, elem-unique_from t seen xs n, elem-unique_from t (x ∷ seen) xs)
]
