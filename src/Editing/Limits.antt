-- ===== src/Editing/Limits.antt =====
-- The second pass of modules/schedule/manual-edit-service.ts: what the net deltas say of a slot.
use wafer_fabrication_schedu.Base.{
  ℕ, ◌≡◌, ◌≢◌, refl, sym, ◌∙◌, ap, Bool, true, false, if◌then◌else◌, Option, none, some, List, [],
  ◌∷◌, ◌++◌, map, arith, All, sum_of, Bool-cases, inl, inr, ℤ, ◌+ℤ◌,
}
use mathlib.Core.Path.{subst}
use wafer_fabrication_schedu.Dates.{day_of}
use wafer_fabrication_schedu.Schedule.CapacityMap.{SlotKey, same_key}
use wafer_fabrication_schedu.Store.{World, AssignmentRow, ManualEditViolation, capacity_exceeded}
use wafer_fabrication_schedu.Store.Capacity.Levels.{find-All}
use wafer_fabrication_schedu.Editing.{is_nil}
use wafer_fabrication_schedu.Editing.Judge.{
  AssignmentMove, OldSlot, ValidAction, Verdict, skip, refuse, accept, judge, to_midnight,
  has_factory, violation, assignment_is,
}
use wafer_fabrication_schedu.Editing.Checks.{
  Deltas, Pass, target_key, settle_verdict, judge_from, judge_all, ids_into, is_exceeded,
  capacity_violations,
}
use wafer_fabrication_schedu.Editing.Balance.{consumed, ReadyAt}
use wafer_fabrication_schedu.Editing.Accept.{AcceptedBy, judge-AcceptedBy}
use wafer_fabrication_schedu.Editing.Accepted.{accepted, actions_of}
use wafer_fabrication_schedu.Editing.Nets.{
  delta_at, AtMidnight, target_key_same, Nets, moves_to, is_cons, accept_action-Nets,
  accept_action-moves,
}

-- Every assignment is produced on a day, at its midnight.
abbrev pub OnDay : AssignmentRow → Type 0
OnDay r = r.production_date ≡ to_midnight (day_of r.production_date)

old-AtMidnight :
    (rows : List AssignmentRow) (q : ℕ) (old : Option OldSlot)
    → All OnDay rows
    → ReadyAt rows q old
    → AtMidnight old
old-AtMidnight rows q none h r = tt
old-AtMidnight rows q (some o) h (r, found, s, n, m, p) =
    sym p
    ∙ find-All OnDay (assignment_is o.assignment_id) rows h found
    ∙ ap (λ d. to_midnight (day_of d)) p

-- What a pass keeps of a slot.
pub record IsNet (k : SlotKey) (p : Pass) : Type 0 where
  pub deltas : Nets k p
  pub moves : is_cons (ids_into k p.moves_into_slot) ≡ moves_to k p.actions

settle_verdict-IsNet :
    (k : SlotKey) (w : World) (m : AssignmentMove) (v : Verdict) (p : Pass)
    → All OnDay w.assignments
    → AcceptedBy w m v
    → IsNet k p
    → IsNet k (settle_verdict v p)
settle_verdict-IsNet k w m skip p d h n = n
settle_verdict-IsNet k w m (refuse v) p d h n = record { deltas = n.deltas; moves = n.moves }
settle_verdict-IsNet k w m (accept a) p d h n = record {
  deltas = accept_action-Nets k a p (old-AtMidnight w.assignments a.qty a.old d h.ready) n.deltas;
  moves = accept_action-moves k a p n.moves;
}

judge_from-IsNet :
    (k : SlotKey) (w : World) (moves : List AssignmentMove) (p : Pass)
    → All OnDay w.assignments
    → IsNet k p
    → IsNet k (judge_from w moves p)
unfolding judge_from
judge_from-IsNet k w [] p d n = n
judge_from-IsNet k w (m ∷ ms) p d n =
    judge_from-IsNet k w ms (settle_verdict (judge w m) p) d
      (settle_verdict-IsNet k w m (judge w m) p d (judge-AcceptedBy w m) n)

pub judge_all-IsNet :
    (k : SlotKey) (w : World) (moves : List AssignmentMove)
    → All OnDay w.assignments
    → IsNet k (judge_all w moves)
unfolding judge_all ◌+ℤ◌
judge_all-IsNet k w moves d =
    judge_from-IsNet k w moves
      (record { deltas = []; moves_into_slot = []; actions = []; violations = [] }) d
      (record { deltas = refl; moves = refl })

same_key_sound : (j k : SlotKey) → same_key j k ≡ true → j ≡ k
same_key_sound j k h = ground arith

head_let :
    (w : World) (k : SlotKey) (z : ℤ) (ids : List ℕ) (rest : List ManualEditViolation)
    → is_nil
        (if is_exceeded w k z then map (λ id. violation id capacity_exceeded) ids ++ rest else rest)
      ≡ true
    → is_cons ids ≡ true
    → is_exceeded w k z ≡ false
head_let w k z [] rest h c = cc
head_let w k z (x ∷ xs) rest h c = elim (Bool-cases (is_exceeded w k z)) [
  | inl e ↦ absurd (ground arith)
  | inr e ↦ e
]

tail_nil :
    (b : Bool) (xs ys : List ManualEditViolation)
    → is_nil (if b then xs ++ ys else ys) ≡ true
    → is_nil ys ≡ true
tail_nil false xs ys h = h
tail_nil true [] ys h = h
tail_nil true (x ∷ xs) ys h = cc

-- A slot that the second pass lets through, and that something moves into.
pub capacity_violations_none :
    (w : World) (into : List (SlotKey × List ℕ)) (m : Deltas) (k : SlotKey)
    → is_nil (capacity_violations w into m) ≡ true
    → is_cons (ids_into k into) ≡ true
    → is_exceeded w k (delta_at k m) ≡ false
unfolding capacity_violations
capacity_violations_none w into [] k h c = refl
capacity_violations_none w into ((j, z) ∷ m) k h c = elim (Bool-cases (same_key j k)) [
  | inl e ↦ rw e (
      head_let w k z (ids_into k into) (capacity_violations w into m)
        (subst (λ i. is_nil (capacity_violations w into ((i, z) ∷ m)) ≡ true) (same_key_sound j k e)
          h)
        c)
  | inr e ↦ rw e (
      capacity_violations_none w into m k
        (tail_nil (is_exceeded w j z) (map (λ id. violation id capacity_exceeded) (ids_into j into))
          (capacity_violations w into m) h)
        c)
]

target-has_factory :
    (w : World) (m : AssignmentMove) (k : SlotKey) (v : Verdict) (as_ : List ValidAction)
    → AcceptedBy w m v
    → (moves_to k as_ ≡ true → has_factory k.factory w.factories ≡ true)
    → moves_to k (actions_of v ++ as_) ≡ true
    → has_factory k.factory w.factories ≡ true
target-has_factory w m k skip as_ h r e = r e
target-has_factory w m k (refuse v) as_ h r e = r e
target-has_factory w m k (accept a) as_ h r e = elim (Bool-cases (same_key (target_key a) k)) [
  | inl s ↦
      ap (λ j. has_factory j.factory w.factories) (sym (same_key_sound (target_key a) k s))
      ∙ h.factory
  | inr s ↦ r (ground arith)
]

-- A slot that something moves into is of a factory that there is.
pub moves_to-has_factory :
    (w : World) (moves : List AssignmentMove) (k : SlotKey)
    → moves_to k (accepted w moves) ≡ true
    → has_factory k.factory w.factories ≡ true
unfolding accepted
moves_to-has_factory w [] k h = cc
moves_to-has_factory w (m ∷ ms) k h =
    target-has_factory w m k (judge w m) (accepted w ms) (judge-AcceptedBy w m)
      (moves_to-has_factory w ms k) h

pub consumed_none :
    (k : SlotKey) (as_ : List ValidAction)
    → moves_to k as_ ≡ false
    → sum_of (consumed k.factory (to_midnight k.day)) as_ ≡ 0
consumed_none k [] h = refl
consumed_none k (a ∷ as_) h = elim (Bool-cases (same_key (target_key a) k)) [
  | inl s ↦ absurd (ground arith)
  | inr s ↦ rw (target_key_same k a, s) (omega (arith, consumed_none k as_ (ground arith)))
]

-- Nothing moves to a date that is not a midnight.
pub consumed_off_midnight :
    (f d : ℕ) (as_ : List ValidAction) → d ≢ to_midnight (day_of d) → sum_of (consumed f d) as_ ≡ 0
consumed_off_midnight f d [] h = refl
consumed_off_midnight f d (a ∷ as_) h = ground (arith, consumed_off_midnight f d as_ h)
