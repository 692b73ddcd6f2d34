-- ===== src/Schedule/Keyed.antt =====
-- The map of modules/schedule/strategy.ts files each draft under its own factory, and the steps of
-- one day leave the slots of the other days alone.
use wafer_fabrication_schedu.Base.{
  ℕ, ◌*◌, ◌≡◌, refl, ◌≢◌, ◌∙◌, [], ◌∷◌, arith, some, All, ℤ, pos, ◌-ℤ◌,
}
use wafer_fabrication_schedu.Dates.{Date, day_ms}
use wafer_fabrication_schedu.Schedule.Types.{
  CapacityDraft, SchedulingConfig, SchedulingFactoryInput,
}
use wafer_fabrication_schedu.Schedule.CapacityMap.{
  SlotKey, CapacityMap, get, set, adjust, get-set, get-adjust,
}
use wafer_fabrication_schedu.Schedule.Attempt.{Attempt, slot, new_capacity}
use wafer_fabrication_schedu.Schedule.Steps.{Step, creates, takes, Reach, here, next}

abbrev pub OwnKey : SlotKey × CapacityDraft → Type 0
OwnKey e = e.1.factory_id ≡ e.0.factory

abbrev pub Keyed : CapacityMap → Type 0
Keyed m = All OwnKey m

pub set-Keyed :
    (k : SlotKey) (c : CapacityDraft) (m : CapacityMap)
    → c.factory_id ≡ k.factory
    → Keyed m
    → Keyed (set k c m)
unfolding set
set-Keyed k c [] e h = (e, tt)
set-Keyed k c ((j, d) ∷ m) e h = ground (arith, set-Keyed k c m)

pub adjust-Keyed : (k : SlotKey) (f : ℤ → ℤ) (m : CapacityMap) → Keyed m → Keyed (adjust k f m)
unfolding adjust
adjust-Keyed k f [] h = tt
adjust-Keyed k f ((j, d) ∷ m) h = ground (arith, adjust-Keyed k f m)

pub get-Keyed :
    (k : SlotKey) (c : CapacityDraft) (m : CapacityMap)
    → Keyed m
    → get k m ≡ some c
    → c.factory_id ≡ k.factory
unfolding get
get-Keyed k c [] h e = cc
get-Keyed k c ((j, d) ∷ m) h e = ground (arith, get-Keyed k c m)

module _ (From : SchedulingFactoryInput → Type 0) (config : SchedulingConfig) (order_id : ℕ) where
  module _ (first : ℕ) (end : Date) where
    Step-Keyed :
        {st st' : Attempt}
        → Step From config order_id first end st st'
        → Keyed st.capacities
        → Keyed st'.capacities
    Step-Keyed (creates f day st _ _ _ _) h =
        set-Keyed (slot f.id day) (new_capacity f day) st.capacities refl h
    Step-Keyed (takes factory day q c st _ _ _ _ _ _) h =
        adjust-Keyed (slot factory day) _ st.capacities h

    pub Reach-Keyed :
        {st st' : Attempt}
        → Reach From config order_id first end st st'
        → Keyed st.capacities
        → Keyed st'.capacities
    Reach-Keyed here h = h
    Reach-Keyed (next r s) h = Step-Keyed s (Reach-Keyed r h)

  Step-other_day :
      (today : ℕ) (k : SlotKey)
      → k.day ≢ today
      → {st st' : Attempt} → Step From config order_id today (today * day_ms) st st'
      → get k st'.capacities ≡ get k st.capacities
  Step-other_day today k ne (creates f day st _ _ lo hi) =
      ground (arith, get-set (slot f.id day) k (new_capacity f day) st.capacities)
  Step-other_day today k ne (takes factory day q c st _ _ _ _ lo hi) =
      ground (arith, get-adjust (slot factory day) k (λ z. z -ℤ pos q) st.capacities)

  pub Reach-other_day :
      (today : ℕ) (k : SlotKey)
      → k.day ≢ today
      → {st st' : Attempt} → Reach From config order_id today (today * day_ms) st st'
      → get k st'.capacities ≡ get k st.capacities
  Reach-other_day today k ne here = refl
  Reach-other_day today k ne (next r s) = Step-other_day today k ne s ∙ Reach-other_day today k ne r
