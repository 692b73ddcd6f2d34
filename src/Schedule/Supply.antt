-- ===== src/Schedule/Supply.antt =====
-- The splittable branch of modules/schedule/strategy.ts against `computeTotalAvailableCapacity`: an
-- attempt places all that the window can give, and no less.
use wafer_fabrication_schedu.Base.{
  ℕ, ◌*◌, ◌-◌, ◌≡◌, refl, ◌≢◌, ◌∙◌, sym, List, [], ◌∷◌, arith, some, ◌==◌, All, All-mono, sum_of,
  sum_of-congr, pos, pos_part, leb_ℤ, ◌-ℤ◌, Bool-cases, Option-cases, inl, inr, min,
}
use mathlib.Core.Path.{subst}
use wafer_fabrication_schedu.Base.Sort.{Distinct}
use wafer_fabrication_schedu.Dates.{day_ms}
use wafer_fabrication_schedu.Schedule.Types.{
  CapacityDraft, SchedulingConfig, SchedulingFactoryInput,
}
use wafer_fabrication_schedu.Schedule.CapacityMap.{
  SlotKey, CapacityMap, get, deduct, get-adjust, get-set, same_key_refl,
}
use wafer_fabrication_schedu.Schedule.Attempt.{Attempt, slot, new_capacity}
use wafer_fabrication_schedu.Schedule.Split.{
  open_slot, opened, open_day, current, allocate_slot, allocate_caps,
}
use wafer_fabrication_schedu.Schedule.Total.{available, day_available}
use wafer_fabrication_schedu.Schedule.Steps.{here, open_slot-Reach}
use wafer_fabrication_schedu.Schedule.Keyed.{Keyed, get-Keyed, Reach-Keyed}

-- What the draft behind a reference can still give.
abbrev pub left : ℕ → CapacityMap → CapacityDraft → ℕ
left day m cap = pos_part (current day cap m)

abbrev pub cap_owner : CapacityDraft → ℕ
cap_owner c = c.factory_id

abbrev pub factory_id : SchedulingFactoryInput → ℕ
factory_id f = f.id

left-deduct :
    (day q : ℕ) (cap y : CapacityDraft) (m : CapacityMap)
    → cap.factory_id ≢ y.factory_id
    → left day (deduct (slot cap.factory_id day) q m) y ≡ left day m y
left-deduct day q cap y m ne =
    ground (arith, get-adjust (slot cap.factory_id day) (slot y.factory_id day) (λ z. z -ℤ pos q) m)

sum-left-deduct :
    (day q : ℕ) (cap : CapacityDraft) (caps : List CapacityDraft) (m : CapacityMap)
    → All (λ y. cap_owner cap ≢ cap_owner y) caps
    → sum_of (left day (deduct (slot cap.factory_id day) q m)) caps ≡ sum_of (left day m) caps
sum-left-deduct day q cap caps m d =
    sum_of-congr (left day (deduct (slot cap.factory_id day) q m)) (left day m) caps
      (All-mono (λ y. cap_owner cap ≢ cap_owner y) _ (λ y ne. left-deduct day q cap y m ne) caps d)

module _ (config : SchedulingConfig) (order_id : ℕ) where
  -- The loop over the drafts of a day takes all that they have, up to what remains.
  pub allocate_caps-remaining :
      (day : ℕ) (caps : List CapacityDraft) (st : Attempt)
      → Distinct cap_owner caps
      → (allocate_caps config order_id day caps st).remaining
        ≡ st.remaining - sum_of (left day st.capacities) caps
  unfolding allocate_caps
  allocate_caps-remaining day [] st d = omega arith
  allocate_caps-remaining day (cap ∷ caps) st d = elim (Bool-cases (st.remaining == 0)) [
    | inl e ↦ rw e (ground arith)
    | inr e ↦ elim (Bool-cases (leb_ℤ (current day cap st.capacities) (pos 0))) [
      | inl s ↦ rw (e, s) (ground (arith, allocate_caps-remaining day caps st d.1))
      | inr s ↦
          let q = min st.remaining (pos_part (current day cap st.capacities)) in
          rw (e, s)
            (omega (
              arith,
              allocate_caps-remaining day caps (allocate_slot config order_id day cap st) d.1,
              sum-left-deduct day q cap caps st.capacities d.0,
            ))
    ]
  ]

get-open_slot_self :
    (day : ℕ) (f : SchedulingFactoryInput) (st : Attempt)
    → get (slot f.id day) (open_slot day f st).capacities ≡ some (opened day f st.capacities)
unfolding open_slot opened
get-open_slot_self day f st = elim (Option-cases (get (slot f.id day) st.capacities)) [
  | inl e ↦ rw (e, open_slot, opened) (rw (get-set, same_key_refl (slot f.id day)))
  | inr (c, e) ↦ rw (e, open_slot, opened) e
]

get-open_slot_ne :
    (day : ℕ) (f : SchedulingFactoryInput) (st : Attempt) (k : SlotKey)
    → f.id ≢ k.factory
    → get k (open_slot day f st).capacities ≡ get k st.capacities
unfolding open_slot
get-open_slot_ne day f st k ne =
    ground (arith, get-set (slot f.id day) k (new_capacity f day) st.capacities)

opened-available :
    (day : ℕ) (f : SchedulingFactoryInput) (m : CapacityMap)
    → pos_part (opened day f m).cur_capacity ≡ available m day f
unfolding opened available
opened-available day f m = ground arith

opened_owner :
    (day : ℕ) (f : SchedulingFactoryInput) (m : CapacityMap)
    → Keyed m
    → (opened day f m).factory_id ≡ f.id
unfolding opened
opened_owner day f m h = elim (Option-cases (get (slot f.id day) m)) [
  | inl e ↦ rw (e, opened)
  | inr (c, e) ↦ rw (e, opened) (get-Keyed (slot f.id day) c m h e)
]

left-opened :
    (day : ℕ) (f : SchedulingFactoryInput) (m m' : CapacityMap)
    → Keyed m
    → get (slot f.id day) m' ≡ some (opened day f m)
    → left day m' (opened day f m) ≡ available m day f
left-opened day f m m' h e = rw (current, opened_owner day f m h, e) (opened-available day f m)

open_day-other :
    (day : ℕ) (fs : List SchedulingFactoryInput) (st : Attempt) (k : SlotKey)
    → All (λ f. k.factory ≢ factory_id f) fs
    → get k (open_day day fs st).0.capacities ≡ get k st.capacities
unfolding open_day
open_day-other day [] st k ne = refl
open_day-other day (f ∷ fs) st k ne =
    open_day-other day fs (open_slot day f st) k ne.1
    ∙ get-open_slot_ne day f st k (λ e. ne.0 (sym e))

module _ (config : SchedulingConfig) (order_id : ℕ) where
  open_slot-Keyed :
      (day : ℕ) (f : SchedulingFactoryInput) (st : Attempt)
      → Keyed st.capacities
      → Keyed (open_slot day f st).capacities
  open_slot-Keyed day f st h =
      Reach-Keyed (λ _. Unit) config order_id day (day * day_ms)
        (open_slot-Reach (λ _. Unit) config order_id day (day * day_ms) st day f st tt (omega arith)
          (omega arith) here)
        h

  open_day-owners {ℓ} :
      (P : ℕ → Type ℓ) (day : ℕ) (fs : List SchedulingFactoryInput) (st : Attempt)
      → Keyed st.capacities
      → All (λ f. P (factory_id f)) fs
      → All (λ c. P (cap_owner c)) (open_day day fs st).1
  unfolding open_day
  open_day-owners P day [] st h a = tt
  open_day-owners P day (f ∷ fs) st h a = (
    subst P (sym (opened_owner day f st.capacities h)) a.0,
    open_day-owners P day fs (open_slot day f st) (open_slot-Keyed day f st h) a.1,
  )

  pub open_day-Distinct :
      (day : ℕ) (fs : List SchedulingFactoryInput) (st : Attempt)
      → Keyed st.capacities
      → Distinct factory_id fs
      → Distinct cap_owner (open_day day fs st).1
  unfolding open_day
  open_day-Distinct day [] st h d = tt
  open_day-Distinct day (f ∷ fs) st h d = (
    open_day-owners (λ i. (opened day f st.capacities).factory_id ≢ i) day fs (open_slot day f st)
        (open_slot-Keyed day f st h) (rw (opened_owner day f st.capacities h) d.0),
    open_day-Distinct day fs (open_slot day f st) (open_slot-Keyed day f st h) d.1,
  )

  day_available-open_slot :
      (day : ℕ) (f : SchedulingFactoryInput) (fs : List SchedulingFactoryInput) (st : Attempt)
      → All (λ g. factory_id f ≢ factory_id g) fs
      → day_available (open_slot day f st).capacities fs day ≡ day_available st.capacities fs day
  unfolding day_available available
  day_available-open_slot day f fs st d =
      sum_of-congr (available (open_slot day f st).capacities day) (available st.capacities day) fs
        (All-mono (λ g. factory_id f ≢ factory_id g) _
          (λ g ne. ground (arith, get-open_slot_ne day f st (slot g.id day) ne)) fs d)

  -- The drafts of a day hold what the day has available.
  pub open_day-supply :
      (day : ℕ) (fs : List SchedulingFactoryInput) (st : Attempt)
      → Keyed st.capacities
      → Distinct factory_id fs
      → sum_of (left day (open_day day fs st).0.capacities) (open_day day fs st).1
        ≡ day_available st.capacities fs day
  unfolding open_day day_available
  open_day-supply day [] st h d = refl
  open_day-supply day (f ∷ fs) st h d = omega (
    arith,
    left-opened day f st.capacities (open_day day fs (open_slot day f st)).0.capacities h
        first_found,
    open_day-supply day fs (open_slot day f st) (open_slot-Keyed day f st h) d.1,
    day_available-open_slot day f fs st d.0,
  )
    where
      first_found :
          get (slot f.id day) (open_day day fs (open_slot day f st)).0.capacities
          ≡ some (opened day f st.capacities)
      first_found =
          open_day-other day fs (open_slot day f st) (slot f.id day) d.0
          ∙ get-open_slot_self day f st
