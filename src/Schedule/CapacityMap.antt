-- ===== src/Schedule/CapacityMap.antt =====
-- The `Map<string, CapacityDraft>` of modules/schedule/strategy.ts: an association list in the
-- order of insertion. The key `${factoryId}_${YYYY-MM-DD}` is the pair of the factory and the day,
-- which the string determines, since the date holds no underscore.
use wafer_fabrication_schedu.Base.{
  ℕ, ◌≡◌, refl, Bool, true, ◌&&◌, Option, none, some, List, [], ◌∷◌, arith, ◌==◌, if◌then◌else◌, ℤ,
  pos, ◌+ℤ◌, ◌-ℤ◌, sub-add_cancel,
}
use wafer_fabrication_schedu.Schedule.Types.{CapacityDraft}

pub record SlotKey : Type 0 where
  pub factory : ℕ
  pub day : ℕ

abbrev pub same_key : SlotKey → SlotKey → Bool
same_key j k = j.factory == k.factory && j.day == k.day

abbrev pub CapacityMap : Type 0
CapacityMap = List (SlotKey × CapacityDraft)

unfoldable pub get : SlotKey → CapacityMap → Option CapacityDraft
get k [] = none
get k ((j, c) ∷ m) = if same_key j k then some c else get k m

-- `set` keeps the place of a key that is there, and appends a new one.
unfoldable pub set : SlotKey → CapacityDraft → CapacityMap → CapacityMap
set k v [] = (k, v) ∷ []
set k v ((j, c) ∷ m) = if same_key j k then (j, v) ∷ m else (j, c) ∷ set k v m

unfoldable pub delete : SlotKey → CapacityMap → CapacityMap
delete k [] = []
delete k ((j, c) ∷ m) = if same_key j k then m else (j, c) ∷ delete k m

-- The draft under a key is a shared object: `cap.curCapacity = f(cap.curCapacity)`.
unfoldable pub adjust : SlotKey → (ℤ → ℤ) → CapacityMap → CapacityMap
adjust k f [] = []
adjust k f ((j, c) ∷ m) =
    if same_key j k
    then (j, record c { cur_capacity = f c.cur_capacity }) ∷ m
    else (j, c) ∷ adjust k f m

abbrev pub deduct : SlotKey → ℕ → CapacityMap → CapacityMap
deduct k n = adjust k (λ c. c -ℤ pos n)

abbrev pub restore : SlotKey → ℕ → CapacityMap → CapacityMap
restore k n = adjust k (λ c. c +ℤ pos n)

pub same_key_refl : (k : SlotKey) → same_key k k ≡ true
same_key_refl k = ground arith

pub delete-set :
    (k : SlotKey) (v : CapacityDraft) (m : CapacityMap) → get k m ≡ none → delete k (set k v m) ≡ m
unfolding get set delete
delete-set k v [] h = ground arith
delete-set k v ((j, c) ∷ m) h = ground (arith, delete-set k v m)

pub restore-deduct : (k : SlotKey) (n : ℕ) (m : CapacityMap) → restore k n (deduct k n m) ≡ m
unfolding adjust
restore-deduct k n [] = refl
restore-deduct k n ((j, c) ∷ m) =
    ground (arith, restore-deduct k n m, sub-add_cancel c.cur_capacity n)

pub get-set :
    (k j : SlotKey) (v : CapacityDraft) (m : CapacityMap)
    → get j (set k v m) ≡ (if same_key k j then some v else get j m)
unfolding get set
get-set k j v [] = refl
get-set k j v ((i, c) ∷ m) = ground (arith, get-set k j v m)

-- The draft after a change of its counter.
abbrev pub with_cur : (ℤ → ℤ) → Option CapacityDraft → Option CapacityDraft
with_cur f none = none
with_cur f (some c) = some (record c { cur_capacity = f c.cur_capacity })

pub get-adjust :
    (k j : SlotKey) (f : ℤ → ℤ) (m : CapacityMap)
    → get j (adjust k f m) ≡ (if same_key k j then with_cur f (get j m) else get j m)
unfolding get adjust
get-adjust k j f [] = ground arith
get-adjust k j f ((i, c) ∷ m) = ground (arith, get-adjust k j f m)
