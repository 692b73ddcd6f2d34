-- ===== src/Editing/Nets.antt =====
-- The net deltas of a pass over the moves in modules/schedule/manual-edit-service.ts, against its actions.
use wafer_fabrication_schedu.Base.{
  ℕ, ◌+◌, ◌≡◌, refl, ◌∙◌, ap, Bool, true, false, ◌&&◌, ◌||◌, ◌==◌, if◌then◌else◌, Option, none,
  some, List, [], ◌∷◌, ◌++◌, arith, sum_of, sum_of-append, Bool-cases, Option-cases, inl, inr, ℤ,
  pos, ◌+ℤ◌, ◌-ℤ◌, pos_part, neg_part, int_laws,
}
use mathlib.Core.Path.{subst}
use wafer_fabrication_schedu.Dates.{day_of}
use wafer_fabrication_schedu.Schedule.CapacityMap.{SlotKey, same_key}
use wafer_fabrication_schedu.Editing.Judge.{OldSlot, ValidAction, to_midnight}
use wafer_fabrication_schedu.Editing.Checks.{
  Deltas, accumulate, move_into, Pass, target_key, old_key, target_of, add_back, accept_action,
  ids_into,
}
use wafer_fabrication_schedu.Editing.Balance.{returned, consumed, down, up_down}

abbrev pub delta_at : SlotKey → Deltas → ℤ
delta_at k [] = pos 0
delta_at k ((j, z) ∷ m) = if same_key j k then z else delta_at k m

delta_at-accumulate :
    (k j : SlotKey) (z : ℤ) (m : Deltas)
    → delta_at k (accumulate j z m) ≡ (if same_key j k then delta_at k m +ℤ z else delta_at k m)
unfolding accumulate
delta_at-accumulate k j z [] = elim (Bool-cases (same_key j k)) [
  | inl e ↦ rw e (omega int_laws)
  | inr e ↦ rw e refl
]
delta_at-accumulate k j z ((i, y) ∷ m) = ground (arith, delta_at-accumulate k j z m)

ids_into-move_into :
    (k j : SlotKey) (id : ℕ) (m : List (SlotKey × List ℕ))
    → ids_into k (move_into j id m)
      ≡ (if same_key j k then ids_into k m ++ id ∷ [] else ids_into k m)
unfolding move_into
ids_into-move_into k j id [] = ground arith
ids_into-move_into k j id ((i, ids) ∷ m) = ground (arith, ids_into-move_into k j id m)

-- The keys have one of `to_midnight` and `day_of` for each day.
to_midnight_eq : (d e : ℕ) → (to_midnight d == to_midnight e) ≡ (d == e)
to_midnight_eq d e = ground arith

abbrev pub AtMidnight : Option OldSlot → Type 0
AtMidnight none = Unit
AtMidnight (some o) = o.date ≡ to_midnight (day_of o.date)

pub target_key_same :
    (k : SlotKey) (a : ValidAction)
    → (a.move.factory_id == k.factory && to_midnight a.move.production_day == to_midnight k.day)
      ≡ same_key (target_key a) k
target_key_same k a =
    ap (λ b. a.move.factory_id == k.factory && b) (to_midnight_eq a.move.production_day k.day)

old_key_same :
    (k : SlotKey) (o : OldSlot)
    → o.date ≡ to_midnight (day_of o.date)
    → (o.factory_id == k.factory && o.date == to_midnight k.day) ≡ same_key (old_key o) k
old_key_same k o h =
    ap (λ d. o.factory_id == k.factory && d == to_midnight k.day) h
    ∙ ap (λ b. o.factory_id == k.factory && b) (to_midnight_eq (day_of o.date) k.day)

deltas_step :
    (k : SlotKey) (a : ValidAction) (m : Deltas)
    → AtMidnight a.old
    → delta_at k (accumulate (target_key a) (pos 0 -ℤ pos a.qty) (add_back a m))
        +ℤ pos (consumed k.factory (to_midnight k.day) a)
      ≡ delta_at k m +ℤ pos (returned k.factory (to_midnight k.day) a)
deltas_step k a m h = elim (Option-cases a.old) [
  | inl n ↦
      rw (n, target_key_same k a, delta_at-accumulate k (target_key a) (pos 0 -ℤ pos a.qty) m)
        (down (same_key (target_key a) k) (delta_at k m) a.qty)
  | inr (o, e) ↦
      rw
        (
          e,
          target_key_same k a,
          delta_at-accumulate k (target_key a) (pos 0 -ℤ pos a.qty)
              (accumulate (old_key o) (pos a.qty) m),
          delta_at-accumulate k (old_key o) (pos a.qty) m,
          old_key_same k o (subst AtMidnight e h),
        )
        (up_down (same_key (target_key a) k) (same_key (old_key o) k) (delta_at k m) a.qty)
]

-- The deltas of a pass at a key, against its actions.
abbrev pub Nets : SlotKey → Pass → Type 0
Nets k p =
    delta_at k p.deltas +ℤ pos (sum_of (consumed k.factory (to_midnight k.day)) p.actions)
    ≡ pos (sum_of (returned k.factory (to_midnight k.day)) p.actions)

-- The ids that move into the slot, against the actions.
abbrev pub moves_to : SlotKey → List ValidAction → Bool
moves_to k [] = false
moves_to k (a ∷ as_) = same_key (target_key a) k || moves_to k as_

abbrev pub is_cons : List ℕ → Bool
is_cons [] = false
is_cons (x ∷ xs) = true

nets :
    (x y : ℤ) (c r d s : ℕ)
    → y +ℤ pos c ≡ x +ℤ pos r
    → x +ℤ pos d ≡ pos s
    → y +ℤ pos (d + (c + 0)) ≡ pos (s + (r + 0))
nets x y c r d s e f = omega (int_laws, ap pos_part e, ap neg_part e, ap pos_part f, ap neg_part f)

pub accept_action-Nets :
    (k : SlotKey) (a : ValidAction) (p : Pass)
    → AtMidnight a.old
    → Nets k p
    → Nets k (accept_action a p)
unfolding accept_action
accept_action-Nets k a p h n =
    rw
      (
        sum_of-append (consumed k.factory (to_midnight k.day)) p.actions (a ∷ []),
        sum_of-append (returned k.factory (to_midnight k.day)) p.actions (a ∷ []),
      )
      (nets (delta_at k p.deltas) _ (consumed k.factory (to_midnight k.day) a)
        (returned k.factory (to_midnight k.day) a)
        (sum_of (consumed k.factory (to_midnight k.day)) p.actions)
        (sum_of (returned k.factory (to_midnight k.day)) p.actions) (deltas_step k a p.deltas h) n)

is_cons-snoc : (xs : List ℕ) (x : ℕ) → is_cons (xs ++ x ∷ []) ≡ true
is_cons-snoc [] x = refl
is_cons-snoc (y ∷ ys) x = refl

moves_to-snoc :
    (k : SlotKey) (as_ : List ValidAction) (a : ValidAction)
    → moves_to k (as_ ++ a ∷ []) ≡ (same_key (target_key a) k || moves_to k as_)
moves_to-snoc k [] a = refl
moves_to-snoc k (b ∷ bs) a = ground (arith, moves_to-snoc k bs a)

pub accept_action-moves :
    (k : SlotKey) (a : ValidAction) (p : Pass)
    → is_cons (ids_into k p.moves_into_slot) ≡ moves_to k p.actions
    → is_cons (ids_into k (accept_action a p).moves_into_slot)
      ≡ moves_to k (accept_action a p).actions
unfolding accept_action
accept_action-moves k a p h = elim (Bool-cases (same_key (target_key a) k)) [
  | inl e ↦
      rw
        (
          moves_to-snoc k p.actions a,
          ids_into-move_into k (target_key a) (target_of a) p.moves_into_slot,
          e,
        )
        (is_cons-snoc (ids_into k p.moves_into_slot) (target_of a))
  | inr e ↦
      rw
        (
          moves_to-snoc k p.actions a,
          ids_into-move_into k (target_key a) (target_of a) p.moves_into_slot,
          e,
        )
        h
]
