-- ===== src/Editing/Outcome.antt =====
-- How a call of `applyAssignmentMoves` ends, for the counters of the slots.
use wafer_fabrication_schedu.Base.{
  ℕ, ◌≡◌, ◌≤◌, refl, sym, ◌∙◌, ap, true, false, ◌&&◌, ◌==◌, List, [], ◌∷◌, ◌++◌, arith, All, sum_of,
  Bool-cases, inl, inr, ℤ, pos, ◌+ℤ◌, pos_part, neg_part, int_laws, parts_sign,
}
use mathlib.Core.Path.{subst, ap₂}
use wafer_fabrication_schedu.Base.Sort.{Distinct}
use wafer_fabrication_schedu.Dates.{day_of}
use wafer_fabrication_schedu.Schedule.CapacityMap.{SlotKey}
use wafer_fabrication_schedu.Store.{World, FactoryRow, ManualEditViolation}
use wafer_fabrication_schedu.Store.Capacity.{factory_max}
use wafer_fabrication_schedu.Store.Capacity.Levels.{HasIds, level_at}
use wafer_fabrication_schedu.Orders.Cancel.{assignment_id}
use wafer_fabrication_schedu.Orders.Cancel.Release.{held}
use wafer_fabrication_schedu.Application.Effects.{raise_versions-tables}
use wafer_fabrication_schedu.Editing.{is_nil, assignment_ids, edit_in_lock}
use wafer_fabrication_schedu.Editing.Judge.{AssignmentMove, ValidAction, to_midnight}
use wafer_fabrication_schedu.Editing.Checks.{
  Pass, judge_all, all_violations, pending_entries, split_violations, capacity_violations,
  base_capacity, is_negative,
}
use wafer_fabrication_schedu.Editing.Execute.{execute_actions}
use wafer_fabrication_schedu.Editing.Balance.{level, consumed, returned, Ready, moved_ids, NoRepeat}
use wafer_fabrication_schedu.Editing.Bulk.{execute_actions-level, execute_actions-balance}
use wafer_fabrication_schedu.Editing.Accepted.{
  judge_all-accepted, accepted-Ready, accepted-NoRepeat,
}
use wafer_fabrication_schedu.Editing.Nets.{delta_at, moves_to}
use wafer_fabrication_schedu.Editing.Limits.{
  OnDay, judge_all-IsNet, capacity_violations_none, moves_to-has_factory, consumed_none,
  consumed_off_midnight,
}

nil_split : (xs ys : List ManualEditViolation) → is_nil (xs ++ ys) ≡ true → is_nil ys ≡ true
nil_split [] ys h = h
nil_split (x ∷ xs) ys h = cc

capacity_nil :
    (w : World) (p : Pass)
    → is_nil (all_violations w p) ≡ true
    → is_nil (capacity_violations w p.moves_into_slot p.deltas) ≡ true
unfolding all_violations
capacity_nil w p h =
    nil_split
      (p.violations
        ++ (pending_entries p.actions []).1
        ++ split_violations w (pending_entries p.actions []).0)
      (capacity_violations w p.moves_into_slot p.deltas) h

no_less : (x y : ℤ) (r : ℕ) → x +ℤ pos 0 ≡ y +ℤ pos r → neg_part x ≤ neg_part y
no_less x y r e = omega (int_laws, ap pos_part e, ap neg_part e, parts_sign x, parts_sign y)

not_worse :
    (y z : ℤ)
    → (is_negative z && true && is_negative (y +ℤ z)) ≡ false
    → neg_part (y +ℤ z) ≤ neg_part y
unfolding ◌+ℤ◌
not_worse y z h = ground arith

within :
    (x y z : ℤ) (c r : ℕ)
    → x +ℤ pos c ≡ y +ℤ pos r
    → z +ℤ pos c ≡ pos r
    → (is_negative z && true && is_negative (y +ℤ z)) ≡ false
    → neg_part x ≤ neg_part y
within x y z c r e f h =
    let sum : x ≡ y +ℤ z =
      omega (int_laws, ap pos_part e, ap neg_part e, ap pos_part f, ap neg_part f) in
    rw sum (not_worse y z h)

module _ (f : ℕ) (moves : List AssignmentMove) (actor_user_id : ℕ) (w : World) (h : HasIds w)
    (k : Distinct assignment_id w.assignments) (days : All OnDay w.assignments)
    (n : NoRepeat (assignment_ids moves)) where
  abbrev pub actions : List ValidAction
  actions = (judge_all w moves).actions

  pub all-Ready : All (Ready w.assignments) actions
  all-Ready = rw (judge_all-accepted w moves) (accepted-Ready w moves)

  pub all-NoRepeat : NoRepeat (moved_ids actions)
  all-NoRepeat = rw (judge_all-accepted w moves) (accepted-NoRepeat w moves n)

  counter :
      (d : ℕ)
      → level w.factories f d (execute_actions actions actor_user_id w)
          +ℤ pos (sum_of (consumed f d) actions)
        ≡ level w.factories f d w +ℤ pos (sum_of (returned f d) actions)
  counter d = execute_actions-level f d actions actor_user_id w h k all-Ready all-NoRepeat

  free :
      (d : ℕ)
      → sum_of (consumed f d) actions ≡ 0
      → neg_part (level w.factories f d (execute_actions actions actor_user_id w))
        ≤ neg_part (level w.factories f d w)
  free d e =
      no_less (level w.factories f d (execute_actions actions actor_user_id w))
        (level w.factories f d w) (sum_of (returned f d) actions)
        (ap (λ c. level w.factories f d (execute_actions actions actor_user_id w) +ℤ pos c) (sym e)
          ∙ counter d)

  taken_within :
      (day : ℕ)
      → is_nil (all_violations w (judge_all w moves)) ≡ true
      → neg_part (level w.factories f (to_midnight day) (execute_actions actions actor_user_id w))
        ≤ neg_part (level w.factories f (to_midnight day) w)
  unfolding base_capacity
  taken_within day v =
      let key : SlotKey = record { factory = f; day = day } in
      let net = judge_all-IsNet key w moves days in
      let into = (judge_all w moves).moves_into_slot in
      let deltas = (judge_all w moves).deltas in
      elim (Bool-cases (moves_to key actions)) [
        | inr e ↦ free (to_midnight day) (consumed_none key actions e)
        | inl e ↦
            let there =
              moves_to-has_factory w moves key
                (ap (moves_to key) (sym (judge_all-accepted w moves)) ∙ e) in
            within (level w.factories f (to_midnight day) (execute_actions actions actor_user_id w))
              (level w.factories f (to_midnight day) w) (delta_at key deltas)
              (sum_of (consumed f (to_midnight day)) actions)
              (sum_of (returned f (to_midnight day)) actions) (counter (to_midnight day)) net.deltas
              (ap
                  (λ b.
                    is_negative (delta_at key deltas)
                    && b
                    && is_negative (base_capacity w key +ℤ delta_at key deltas))
                  (sym there)
                ∙ capacity_violations_none w into deltas key (capacity_nil w (judge_all w moves) v)
                    (net.moves ∙ e))
      ]

  pub kept_within :
      (d : ℕ)
      → is_nil (all_violations w (judge_all w moves)) ≡ true
      → neg_part (level w.factories f d (execute_actions actions actor_user_id w))
        ≤ neg_part (level w.factories f d w)
  kept_within d v = elim (Bool-cases (d == to_midnight (day_of d))) [
    | inr e ↦ free d (consumed_off_midnight f d actions (ground arith))
    | inl e ↦
        subst
          (λ x.
            neg_part (level w.factories f x (execute_actions actions actor_user_id w))
            ≤ neg_part (level w.factories f x w))
          (ground arith) (taken_within (day_of d) v)
  ]

-- What a call leaves of a slot: its balance, and no more overdraft than there was.
pub record IsSound (fs : List FactoryRow) (f d : ℕ) (w v : World) : Type 0 where
  pub balance :
      level fs f d v +ℤ pos (held f d v.assignments)
      ≡ level fs f d w +ℤ pos (held f d w.assignments)
  pub overdraft : neg_part (level fs f d v) ≤ neg_part (level fs f d w)

pub IsSound-refl : (fs : List FactoryRow) (f d : ℕ) (w : World) → IsSound fs f d w w
IsSound-refl fs f d w = record { balance = refl; overdraft = omega arith }

pub edit_in_lock-IsSound :
    (f d : ℕ) (moves : List AssignmentMove) (actor_user_id : ℕ) (types : List ℕ) (w : World)
    → HasIds w
    → Distinct assignment_id w.assignments
    → All OnDay w.assignments
    → NoRepeat (assignment_ids moves)
    → IsSound w.factories f d w (edit_in_lock moves actor_user_id types w).1
unfolding edit_in_lock
edit_in_lock-IsSound f d moves actor_user_id types w h k days n =
    elim (Bool-cases (is_nil (all_violations w (judge_all w moves)))) [
      | inr e ↦ rw e (IsSound-refl w.factories f d w)
      | inl e ↦ elim (Bool-cases (is_nil (judge_all w moves).actions)) [
        | inl a ↦ rw (e, a) (IsSound-refl w.factories f d w)
        | inr a ↦
            let actions = (judge_all w moves).actions in
            let same = raise_versions-tables types (execute_actions actions actor_user_id w) in
            rw (e, a)
              (record {
                balance =
                    ap₂
                      (λ c as_.
                        level_at (λ i. factory_max i w.factories 0) f d c +ℤ pos (held f d as_))
                      same.2 same.0
                    ∙ execute_actions-balance f d actions actor_user_id w h k
                        (all-Ready f moves actor_user_id w h k days n)
                        (all-NoRepeat f moves actor_user_id w h k days n);
                overdraft = rw same.2 (kept_within f moves actor_user_id w h k days n d e);
              })
      ]
    ]

-- The outcome depends on the tables only, so the locks do not matter.
pub IsSound-start :
    (fs : List FactoryRow) (f d : ℕ) (u v x : World)
    → u.assignments ≡ v.assignments
    → u.capacities ≡ v.capacities
    → IsSound fs f d v x
    → IsSound fs f d u x
IsSound-start fs f d u v x a c s = record {
  balance =
      s.balance
      ∙ sym (ap₂ (λ b as_. level_at (λ i. factory_max i fs 0) f d b +ℤ pos (held f d as_)) c a);
  overdraft = rw c s.overdraft;
}

pub IsSound-end :
    (fs : List FactoryRow) (f d : ℕ) (u v x : World)
    → u.assignments ≡ v.assignments
    → u.capacities ≡ v.capacities
    → IsSound fs f d x v
    → IsSound fs f d x u
IsSound-end fs f d u v x a c s = record {
  balance =
      ap₂ (λ b as_. level_at (λ i. factory_max i fs 0) f d b +ℤ pos (held f d as_)) c a ∙ s.balance;
  overdraft = rw c s.overdraft;
}
