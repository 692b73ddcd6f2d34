-- ===== src/Store.antt =====
-- What the services share: the tables of prisma/schema.prisma that they use, and the keys that
-- infra/redis/schedule-store.ts keeps, as one state, with actions that change it or throw.
mod Tables
pub mod Locks
pub mod Capacity
pub mod Rows
mod Samples
use wafer_fabrication_schedu.Base.{
  ℕ, suc, ◌+◌, ◌≡◌, refl, Bool, true, false, ◌==◌, if◌then◌else◌, Option, none, some, List, [], ◌∷◌,
  ℤ, or_empty,
}
use wafer_fabrication_schedu.Dates.{Date}
use wafer_fabrication_schedu.Schedule.Types.{OrderStatus, AssignmentStatus}
pub use Tables.*

-- What is thrown, by its code.
pub data Error : Type 0 where
  forbidden not_found invalid_status_transition invalid_input environment_changed : Error
  conflict bad_request range_error : Error
  already_running : ℕ → Error
  validation_failed : List ManualEditViolation → Error

pub data Result {ℓ} (A : Type ℓ) : Type ℓ where
  ok : A → Result A
  err : Error → Result A

-- An `async` function: a throw keeps what was written before it.
abbrev pub Action : Type 0 → Type 0
Action A = World → Result A × World

abbrev pub pure : {A : Type 0} → A → Action A
pure a w = (ok a, w)

abbrev pub throw : {A : Type 0} → Error → Action A
throw e w = (err e, w)

abbrev pub after : {A B : Type 0} → Result A × World → (A → Action B) → Result B × World
after (ok a, w) f = f a w
after (err e, w) f = (err e, w)

infixl 5 ◌>>=◌ ◌>>◌
abbrev pub ◌>>=◌ : {A B : Type 0} → Action A → (A → Action B) → Action B
◌>>=◌ m f w = after (m w) f

abbrev pub ◌>>◌ : {B : Type 0} → Action (Unit {0}) → Action B → Action B
m >> k = m >>= λ _. k

abbrev pub get_world : Action World
get_world w = (ok w, w)

abbrev pub modify : (World → World) → Action (Unit {0})
modify f w = (ok tt, f w)

-- `if (!allowed) throw e`.
abbrev pub guard : Bool → Error → Action (Unit {0})
guard true e = pure tt
guard false e = throw e

-- `if (!x) throw e`, and `x` from there on.
abbrev pub require : {A : Type 0} → Option A → Error → Action A
require none e = throw e
require (some a) e = pure a

-- `db.$transaction`: a throw takes back what was written.
abbrev pub settle : {A : Type 0} → World → Result A × World → Result A × World
settle before (ok a, w) = (ok a, w)
settle before (err e, w) = (err e, before)

abbrev pub transaction : {A : Type 0} → Action A → Action A
transaction m w = settle w (m w)

-- `updateMany` and `update`: the rows that meet the test are changed.
abbrev pub update_where {ℓ} : {A : Type ℓ} → (A → Bool) → (A → A) → List A → List A
update_where p f [] = []
update_where p f (x ∷ xs) = (if p x then f x else x) ∷ update_where p f xs

abbrev pub count_where {ℓ} : {A : Type ℓ} → (A → Bool) → List A → ℕ
count_where p [] = 0
count_where p (x ∷ xs) = (if p x then 1 else 0) + count_where p xs

abbrev pub put : ℕ → ℕ → (ℕ → ℕ) → ℕ → ℕ
put k v f j = if j == k then v else f j

unfoldable pub get_schedule_version : ℕ → Action ℕ
get_schedule_version type w = (ok (w.version type), w)

unfoldable pub increment_schedule_version : ℕ → Action ℕ
increment_schedule_version type w =
    (ok (w.version type + 1), record w { version = put type (w.version type + 1) w.version })

-- A chain that returns has passed its guards and found what it requires.
pub guard_ok :
    {B : Type 0} (b : Bool) (e : Error) (f : Unit {0} → Action B) (w : World) {r : B}
    → ((guard b e >>= f) w).0 ≡ ok r
    → (b ≡ true) × ((f tt w).0 ≡ ok r)
guard_ok true e f w h = (refl, h)
guard_ok false e f w h = cc

pub require_ok :
    {A B : Type 0} (o : Option A) (e : Error) (f : A → Action B) (w : World) {r : B}
    → ((require o e >>= f) w).0 ≡ ok r
    → (a : A) × (o ≡ some a) × ((f a w).0 ≡ ok r)
require_ok none e f w h = cc
require_ok (some a) e f w h = (a, refl, h)
