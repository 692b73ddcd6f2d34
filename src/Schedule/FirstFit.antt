-- ===== src/Schedule/FirstFit.antt =====
-- The non-splittable branch of modules/schedule/strategy.ts takes the first slot that fits, by day
-- and then in the order of the factories.
use wafer_fabrication_schedu.Base.{
  ℕ, zero, suc, ◌+◌, ◌*◌, ◌≡◌, refl, ◌∙◌, Bool, false, Option, none, some, List, [], ◌∷◌, ◌++◌, map,
  arith, leb, leb_ℤ, pos, find, if◌then◌else◌, Bool-cases, inl, inr, ◌<◌, ◌≤◌,
}
use wafer_fabrication_schedu.Dates.{Date, day_ms, day_of}
use wafer_fabrication_schedu.Schedule.Types.{
  SchedulingConfig, SchedulingFactoryInput, SchedulingOrderInput,
}
use wafer_fabrication_schedu.Schedule.Attempt.{
  Attempt, take_slot, remaining_quantity, window_start, window_end, window_days,
}
use wafer_fabrication_schedu.Schedule.Split.{open_slot}
use wafer_fabrication_schedu.Schedule.Block.{block_day, block_loop, simulated}
use wafer_fabrication_schedu.Schedule.Strategy.{attempt_order}
use wafer_fabrication_schedu.Schedule.Steps.{begun}
use wafer_fabrication_schedu.Schedule.Completeness.{attempt_order_entered}
use wafer_fabrication_schedu.Schedule.CapacityMap.{CapacityMap}

-- A slot to try: a day and a factory.
abbrev pub Candidate : Type 0
Candidate = ℕ × SchedulingFactoryInput

abbrev pub on_day : ℕ → SchedulingFactoryInput → Candidate
on_day day f = (day, f)

-- The slots of the window in the order in which they are tried.
pub candidates : List SchedulingFactoryInput → Date → ℕ → ℕ → List Candidate
candidates factories end zero day = []
candidates factories end (suc fuel) day =
    let rest = candidates factories end fuel (day + 1) in
    if leb (day * day_ms) end then map (on_day day) factories ++ rest else []

abbrev pub fits : ℕ → CapacityMap → Candidate → Bool
fits quantity m c = leb_ℤ (pos quantity) (simulated c.0 c.1 m)

find-append {ℓ} :
    {A : Type ℓ} (p : A → Bool) (xs ys : List A)
    → find p (xs ++ ys) ≡ elim (find p xs) [ none ↦ find p ys | some x ↦ some x ]
find-append p [] ys = refl
find-append p (x ∷ xs) ys = elim (Bool-cases (p x)) [
  | inl e ↦ rw e refl
  | inr e ↦ rw e (find-append p xs ys)
]

module _ (config : SchedulingConfig) (order_id : ℕ) where
  -- The attempt after the choice of a slot.
  abbrev pub placed_in : Attempt → Candidate → Attempt
  placed_in st c = take_slot config order_id c.1.id c.0 st.remaining (open_slot c.0 c.1 st)

  abbrev pub choose : Attempt → Option Candidate → Attempt
  choose st none = st
  choose st (some c) = placed_in st c

  block_day-find :
      (factories : List SchedulingFactoryInput) (day : ℕ) (st : Attempt)
      → block_day config order_id factories day st
        ≡ elim (find (fits st.remaining st.capacities) (map (on_day day) factories)) [
          | none ↦ none
          | some c ↦ some (placed_in st c)
        ]
  unfolding block_day
  block_day-find [] day st = refl
  block_day-find (f ∷ fs) day st =
      elim (Bool-cases (leb_ℤ (pos st.remaining) (simulated day f st.capacities))) [
        | inl e ↦ rw e refl
        | inr e ↦ rw e (block_day-find fs day st)
      ]

  block_loop-find :
      (factories : List SchedulingFactoryInput) (end fuel day : ℕ) (st : Attempt)
      → block_loop config order_id factories end fuel day st
        ≡ choose st (find (fits st.remaining st.capacities) (candidates factories end fuel day))
  unfolding block_loop candidates
  block_loop-find factories end zero day st = refl
  block_loop-find factories end (suc fuel) day st = ground (
    arith,
    block_day-find factories day st,
    block_loop-find factories end fuel (day + 1) st,
    find-append (fits st.remaining st.capacities) (map (on_day day) factories)
        (candidates factories end fuel (day + 1)),
  )

-- In a run that does not split, an order with a real window and something to place takes the first
-- slot of the window, by day and then in the given order of the factories, whose counter covers the
-- whole quantity; a slot without a draft counts with the factory's capacity. If there is none, the
-- attempt changes nothing. The window begins on the day of startDate, whatever frozenDays is.
pub block_takes_first_fit :
    (config : SchedulingConfig) (factories : List SchedulingFactoryInput)
    (order : SchedulingOrderInput) (m : CapacityMap) (end : Date)
    → window_end config order ≡ some end
    → window_start config ≤ end
    → 0 < remaining_quantity order
    → config.splittable ≡ false
    → attempt_order config factories order m
      ≡ choose config order.id (begun order m) (
          find (fits (remaining_quantity order) m) (
            candidates factories end
              (window_days (window_start config) end)
              (day_of (window_start config))))
block_takes_first_fit config factories order m end window begins some_left s =
    attempt_order_entered config factories order end window begins some_left m
    ∙ simp s (
        block_loop-find config order.id factories end (window_days (window_start config) end)
          (day_of (window_start config)) (begun order m))
