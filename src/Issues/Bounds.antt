-- ===== src/Issues/Bounds.antt =====
-- Bounds on the quantity that `getSuggestions` of modules/order/conflict-issue-service.ts says fits.
use wafer_fabrication_schedu.Base.{
  ℕ, zero, suc, ◌+◌, ◌-◌, ◌≡◌, ◌≤◌, ◌<◌, refl, ltb, min, Bool, true, false, if◌then◌else◌, List, [],
  ◌∷◌, arith, All, All-mono, Bool-cases, inl, inr,
}
use mathlib.Core.Path.{subst}
use wafer_fabrication_schedu.Store.{World}
use wafer_fabrication_schedu.Issues.Suggestions.{
  FactoryConsidered, ContextSnapshot, config_of, block_from, window_block, day_block, capacity_on,
  scanned_rows, available_in_window, suggest,
}

block_from-grows :
    (capacity : ℕ → ℕ) (fs : List FactoryConsidered) (best : ℕ) → best ≤ block_from capacity fs best
block_from-grows capacity [] best = omega arith
block_from-grows capacity (f ∷ fs) best = elim (Bool-cases (ltb best (capacity f.id))) [
  | inl e ↦ rw e (ground (arith, block_from-grows capacity fs (capacity f.id)))
  | inr e ↦ rw e (block_from-grows capacity fs best)
]

not_less : (m n : ℕ) → ltb m n ≡ false → n ≤ m
not_less m n h = ground arith

-- No factory has more than the block that is found.
block_from-All :
    (capacity : ℕ → ℕ) (fs : List FactoryConsidered) (best : ℕ)
    → All (λ (f : FactoryConsidered). capacity f.id ≤ block_from capacity fs best) fs
block_from-All capacity [] best = tt
block_from-All capacity (f ∷ fs) best =
    let more = if ltb best (capacity f.id) then capacity f.id else best in
    (covers (ltb best (capacity f.id)) refl, block_from-All capacity fs more)
  where
    covers :
        (b : Bool)
        → ltb best (capacity f.id) ≡ b
        → capacity f.id ≤ block_from capacity fs (if b then capacity f.id else best)
    covers true e = block_from-grows capacity fs (capacity f.id)
    covers false e =
        omega (arith, block_from-grows capacity fs best, not_less best (capacity f.id) e)

module _ (s : ContextSnapshot) (w : World) where
  window_block-grows : (n day best : ℕ) → best ≤ window_block (day_block s w) n day best
  unfolding window_block
  window_block-grows zero day best = omega arith
  window_block-grows (suc n) day best = omega (
    arith,
    block_from-grows (capacity_on s.factories_considered (scanned_rows s w) day)
        s.factories_considered best,
    window_block-grows n (suc day) (day_block s w day best),
  )

  window_block-All :
      (n day best k : ℕ)
      → k < n
      → All
          (λ (f : FactoryConsidered).
            capacity_on s.factories_considered (scanned_rows s w) (day + k) f.id
            ≤ window_block (day_block s w) n day best)
          s.factories_considered
  unfolding window_block
  window_block-All zero day best k l = absurd (omega (arith, l))
  window_block-All (suc n) day best zero l =
      subst
        (λ d.
          All
            (λ (f : FactoryConsidered).
              capacity_on s.factories_considered (scanned_rows s w) d f.id
              ≤ window_block (day_block s w) n (suc day) (day_block s w day best))
            s.factories_considered)
        {x = day} {y = day + 0} (omega arith)
        (All-mono _ _
          (λ f h. omega (arith, h, window_block-grows n (suc day) (day_block s w day best)))
          s.factories_considered
          (block_from-All (capacity_on s.factories_considered (scanned_rows s w) day)
            s.factories_considered best))
  window_block-All (suc n) day best (suc k) l =
      subst
        (λ d.
          All
            (λ (f : FactoryConsidered).
              capacity_on s.factories_considered (scanned_rows s w) d f.id
              ≤ window_block (day_block s w) n (suc day) (day_block s w day best))
            s.factories_considered)
        {x = suc day + k} {y = day + suc k} (omega arith)
        (window_block-All n (suc day) (day_block s w day best) k (omega (arith, l)))

least : (a b q : ℕ) → a ≤ b → min a q ≤ min b q
least a b q h = ground arith

-- Where orders are not split, the quantity that is said to fit in the window is at most the quantity of
-- the order, and no factory could take more of the order on any day of the window.
pub suggest-bounds :
    (s : ContextSnapshot) (w : World) (k : ℕ)
    → (config_of s.config).splittable ≡ false
    → s.window_start + k ≤ s.window_end
    → ((suggest s w).max_fit_quantity ≤ s.required_quantity)
      × All
          (λ (f : FactoryConsidered).
            min
              (capacity_on s.factories_considered (scanned_rows s w) (s.window_start + k) f.id)
              s.required_quantity
            ≤ (suggest s w).max_fit_quantity)
          s.factories_considered
unfolding suggest available_in_window
suggest-bounds s w k h l =
    let days = s.window_end + 1 - s.window_start in
    let best = window_block (day_block s w) days s.window_start 0 in
    rw h (
      omega arith,
      All-mono _ _ (λ f e. least _ best s.required_quantity e) s.factories_considered
          (window_block-All s w days s.window_start 0 k (omega (arith, l))),
    )
