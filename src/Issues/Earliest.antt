-- ===== src/Issues/Earliest.antt =====
-- The day that `getSuggestions` of modules/order/conflict-issue-service.ts finds is the first.
use wafer_fabrication_schedu.Base.{
  ℕ, zero, suc, ◌+◌, ◌≡◌, ◌≤◌, ◌<◌, refl, leb, Bool, true, false, if◌then◌else◌, Option, none, some,
  arith, Bool-cases, inl, inr,
}
use mathlib.Core.Path.{subst}
use wafer_fabrication_schedu.Store.{World}
use wafer_fabrication_schedu.Issues.Suggestions.{
  ContextSnapshot, config_of, window_total, scan, day_sum, day_block, available_in_window, fit_of,
  SuggestionsResult, suggest,
}

-- The capacity is enough k days after a first day, on top of a quantity.
abbrev pub IsEnough : Bool → ℕ → (ℕ → ℕ) → (ℕ → ℕ) → ℕ → ℕ → ℕ → Type 0
IsEnough true required sums blocks day base k = required ≤ base + window_total sums (suc k) day
IsEnough false required sums blocks day base k = required ≤ blocks (day + k)

module _ (splittable : Bool) (required : ℕ) (sums blocks : ℕ → ℕ) where
  abbrev pub Enough : ℕ → ℕ → ℕ → Type 0
  Enough day base k = IsEnough splittable required sums blocks day base k

  -- What a scan of some days has found: the first day that is enough, or that none of them is.
  abbrev pub Scanned : ℕ → ℕ → ℕ → Option ℕ → Type 0
  Scanned fuel day base none = (k : ℕ) → k < fuel → ¬ Enough day base k
  Scanned fuel day base (some d) =
      (k : ℕ) × (d ≡ day + k)
      × (k < fuel)
      × Enough day base k
      × ((j : ℕ) → j < k → ¬ Enough day base j)

test_sound :
    (s : Bool) (required : ℕ) (sums blocks : ℕ → ℕ) (day base : ℕ)
    → (if s then leb required (base + sums day) else leb required (blocks day)) ≡ true
    → IsEnough s required sums blocks day base 0
unfolding window_total
test_sound true required sums blocks day base h = ground arith
test_sound false required sums blocks day base h =
    subst (λ n. required ≤ blocks n) {x = day} {y = day + 0} (omega arith) (ground arith)

test_complete :
    (s : Bool) (required : ℕ) (sums blocks : ℕ → ℕ) (day base : ℕ)
    → (if s then leb required (base + sums day) else leb required (blocks day)) ≡ false
    → ¬ IsEnough s required sums blocks day base 0
unfolding window_total
test_complete true required sums blocks day base h e = absurd (ground arith)
test_complete false required sums blocks day base h e =
    let f = subst (λ n. required ≤ blocks n) {x = day + 0} {y = day} (omega arith) e in
    absurd (ground (arith, f))

-- The days after the first one.
next_day :
    (s : Bool) (required : ℕ) (sums blocks : ℕ → ℕ) (day base k : ℕ)
    → IsEnough s required sums blocks (suc day) (base + sums day) k
    → IsEnough s required sums blocks day base (suc k)
unfolding window_total
next_day true required sums blocks day base k h = omega (arith, h)
next_day false required sums blocks day base k h =
    subst (λ n. required ≤ blocks n) {x = suc day + k} {y = day + suc k} (omega arith) h

next_day_back :
    (s : Bool) (required : ℕ) (sums blocks : ℕ → ℕ) (day base k : ℕ)
    → IsEnough s required sums blocks day base (suc k)
    → IsEnough s required sums blocks (suc day) (base + sums day) k
unfolding window_total
next_day_back true required sums blocks day base k h = omega (arith, h)
next_day_back false required sums blocks day base k h =
    subst (λ n. required ≤ blocks n) {x = day + suc k} {y = suc day + k} (omega arith) h

module _ (s : Bool) (required : ℕ) (sums blocks : ℕ → ℕ) where
  -- A later scan that found nothing, behind a first day that is not enough.
  none_from :
      (fuel day base : ℕ)
      → ¬ Enough s required sums blocks day base 0
      → Scanned s required sums blocks fuel (suc day) (base + sums day) none
      → Scanned s required sums blocks (suc fuel) day base none
  none_from fuel day base n h zero l e = n e
  none_from fuel day base n h (suc k) l e =
      h k (omega (arith, l)) (next_day_back s required sums blocks day base k e)

  later_from :
      (fuel day base d : ℕ)
      → ¬ Enough s required sums blocks day base 0
      → Scanned s required sums blocks fuel (suc day) (base + sums day) (some d)
      → Scanned s required sums blocks (suc fuel) day base (some d)
  later_from fuel day base d n (k, e, l, f, h) = (
    suc k,
    omega (arith, e),
    omega (arith, l),
    next_day s required sums blocks day base k f,
    before,
  )
    where
      before : (j : ℕ) → j < suc k → ¬ Enough s required sums blocks day base j
      before zero b g = n g
      before (suc j) b g =
          h j (omega (arith, b)) (next_day_back s required sums blocks day base j g)

  behind :
      (fuel day base : ℕ) (o : Option ℕ)
      → ¬ Enough s required sums blocks day base 0
      → Scanned s required sums blocks fuel (suc day) (base + sums day) o
      → Scanned s required sums blocks (suc fuel) day base o
  behind fuel day base none n h = none_from fuel day base n h
  behind fuel day base (some d) n h = later_from fuel day base d n h

  scan-Scanned :
      (fuel day base : ℕ)
      → Scanned s required sums blocks fuel day base (scan s required sums blocks fuel day base)
  unfolding scan
  scan-Scanned zero day base = λ k l. absurd (omega (arith, l))
  scan-Scanned (suc fuel) day base =
      elim (Bool-cases (if s then leb required (base + sums day) else leb required (blocks day))) [
        | inl e ↦ rw e (
          0,
          omega arith,
          omega arith,
          test_sound s required sums blocks day base e,
          λ j l. absurd (omega (arith, l)),
        )
        | inr e ↦ rw e (
            behind fuel day base (scan s required sums blocks fuel (suc day) (base + sums day))
              (test_complete s required sums blocks day base e)
              (scan-Scanned fuel (suc day) (base + sums day)))
      ]

-- What a suggestion says of the due date: it is as many days behind the first day that is enough as the
-- production and the buffer take, or no day of the horizon is enough.
abbrev pub IsSuggestion : ContextSnapshot → World → SuggestionsResult → Option ℕ → Type 0
IsSuggestion s w r none =
    (k : ℕ)
    → k < 90
    → ¬ Enough (config_of s.config).splittable s.required_quantity (day_sum s w)
        (λ day. day_block s w day 0) (s.window_end + 1)
        (if (config_of s.config).splittable then r.max_fit_quantity else 0) k
IsSuggestion s w r (some due) =
    (day : ℕ) × (due
      ≡ day + (config_of s.config).production_days + (config_of s.config).buffer_days)
    × Scanned (config_of s.config).splittable s.required_quantity (day_sum s w)
        (λ d. day_block s w d 0) 90 (s.window_end + 1)
        (if (config_of s.config).splittable then r.max_fit_quantity else 0) (some day)

suggested :
    (s : ContextSnapshot) (w : World) (r : SuggestionsResult) (o : Option ℕ)
    → Scanned
        (config_of s.config).splittable
        s.required_quantity
        (day_sum s w)
        (λ d. day_block s w d 0)
        90
        (s.window_end + 1)
        (if (config_of s.config).splittable then r.max_fit_quantity else 0)
        o
    → IsSuggestion s w r (fit_of (config_of s.config) s.due_date o).due_date
suggested s w r none h = h
suggested s w r (some day) h = (day, refl, h)

-- The due date that is suggested for the whole quantity comes from the first of the 90 days behind the
-- window on which the capacity is enough: together with that of the window and of the days between if
-- orders may be split, and else in one factory. None is suggested exactly if no such day is enough.
pub suggest-IsSuggestion :
    (s : ContextSnapshot) (w : World)
    → let r = suggest s w in IsSuggestion s w r r.earliest_fit.due_date
unfolding suggest
suggest-IsSuggestion s w = suggested s w (suggest s w) _ (
    scan-Scanned (config_of s.config).splittable s.required_quantity (day_sum s w)
      (λ d. day_block s w d 0) 90 (s.window_end + 1)
      (if (config_of s.config).splittable then available_in_window s w else 0))
