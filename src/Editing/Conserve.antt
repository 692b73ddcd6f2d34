-- ===== src/Editing/Conserve.antt =====
-- A bulk edit leaves the balance of each slot: its counter, and what SCHEDULED assignments hold of it.
use wafer_fabrication_schedu.Base.{
  ℕ, ◌+◌, ◌-◌, ◌≡◌, refl, ◌∙◌, ap, ◌&&◌, ◌==◌, if◌then◌else◌, Option, none, some, List, [], ◌∷◌,
  ◌++◌, arith, All, sum_of, ℤ, pos, ◌+ℤ◌, pos_part, neg_part, int_laws,
}
use wafer_fabrication_schedu.Base.Sort.{Distinct}
use wafer_fabrication_schedu.Store.{World, AssignmentRow, FactoryRow}
use wafer_fabrication_schedu.Store.Capacity.Levels.{HasIds}
use wafer_fabrication_schedu.Orders.Cancel.{assignment_id}
use wafer_fabrication_schedu.Orders.Cancel.Release.{held}
use wafer_fabrication_schedu.Editing.Judge.{OldSlot, ValidAction, to_midnight}
use wafer_fabrication_schedu.Editing.Execute.{run_action, run_actions}
use wafer_fabrication_schedu.Editing.Balance.{
  returned, consumed, moved_in, Ready, level, run_action-level, run_action-kept, run_action-HasIds,
  moved_rows, returned_of, if_moved, ReadyAt, rows_after, old_ids, rows_after-Distinct, held-place,
  find-place, moved_ids, NoRepeat,
}

rows_after-held :
    (f d g e q : ℕ) (old : Option OldSlot) (rows : List AssignmentRow)
    → Distinct assignment_id rows
    → ReadyAt rows q old
    → held f d (rows_after g e old rows) + returned_of f d q old
      ≡ held f d rows + if_moved old (if g == f && e == d then q else 0)
rows_after-held f d g e q none rows k r = refl
rows_after-held f d g e q (some o) rows k (r, found, s, n, m, p) =
    ground (
      arith,
      held-place [] f d g e (o.completion_date + e - o.date) o.assignment_id r rows k found s,
    )

-- The row of another action is there as before.
rows_after-ReadyAt :
    (g e q : ℕ) (old other : Option OldSlot) (rows : List AssignmentRow)
    → NoRepeat (old_ids old ++ old_ids other)
    → ReadyAt rows q other
    → ReadyAt (rows_after g e old rows) q other
rows_after-ReadyAt g e q none other rows n r = r
rows_after-ReadyAt g e q (some o) none rows n r = tt
rows_after-ReadyAt g e q (some o) (some p) rows n (r, found, s, m, b, c) = (
  r,
  find-place o.assignment_id p.assignment_id g e (o.completion_date + e - o.date) rows n.0.0
      ∙ found,
  s,
  m,
  b,
  c,
)

-- The rows of the other actions are there as before.
others-Ready :
    (a : ValidAction) (as_ : List ValidAction) (rows : List AssignmentRow)
    → NoRepeat (moved_ids (a ∷ as_))
    → All (Ready rows) as_
    → All (Ready (moved_rows a rows)) as_
others-Ready a [] rows n r = tt
others-Ready a (b ∷ bs) rows n r = (
  rows_after-ReadyAt a.move.factory_id (to_midnight a.move.production_day) b.qty a.old b.old rows
      (first_two a.old b.old (moved_ids bs) n) r.0,
  others-Ready a bs rows (without_second a.old b.old (moved_ids bs) n) r.1,
)
  where
    first_two :
        (x y : Option OldSlot) (ids : List ℕ)
        → NoRepeat (old_ids x ++ (old_ids y ++ ids))
        → NoRepeat (old_ids x ++ old_ids y)
    first_two none none ids m = tt
    first_two none (some p) ids m = (tt, tt)
    first_two (some o) none ids m = (tt, tt)
    first_two (some o) (some p) ids m = ((m.0.0, tt), (tt, tt))

    without_second :
        (x y : Option OldSlot) (ids : List ℕ)
        → NoRepeat (old_ids x ++ (old_ids y ++ ids))
        → NoRepeat (old_ids x ++ ids)
    without_second x none ids m = m
    without_second none (some p) ids m = m.1
    without_second (some o) (some p) ids m = (m.0.1, m.1.1)

NoRepeat-tail : (x : Option OldSlot) (ids : List ℕ) → NoRepeat (old_ids x ++ ids) → NoRepeat ids
NoRepeat-tail none ids m = m
NoRepeat-tail (some o) ids m = m.1

chain :
    (x y z : ℤ) (p q r s : ℕ)
    → x +ℤ pos p ≡ y +ℤ pos q
    → y +ℤ pos r ≡ z +ℤ pos s
    → x +ℤ pos (r + p) ≡ z +ℤ pos (s + q)
chain x y z p q r s e f =
    omega (int_laws, ap pos_part e, ap neg_part e, ap pos_part f, ap neg_part f)

-- What holds after the loop over the actions.
pub record IsRun (fs : List FactoryRow) (f d : ℕ) (actions : List ValidAction) (w w' : World)
    : Type 0 where
  pub counter :
      level fs f d w' +ℤ pos (sum_of (consumed f d) actions)
      ≡ level fs f d w +ℤ pos (sum_of (returned f d) actions)
  pub assignments :
      held f d w'.assignments + sum_of (returned f d) actions
      ≡ held f d w.assignments + sum_of (moved_in f d) actions
  pub ids : HasIds w'
  pub orders : w'.orders ≡ w.orders

pub run_actions-IsRun :
    (fs : List FactoryRow) (f d : ℕ) (actions : List ValidAction) (w : World)
    → HasIds w
    → w.factories ≡ fs
    → Distinct assignment_id w.assignments
    → All (Ready w.assignments) actions
    → NoRepeat (moved_ids actions)
    → IsRun fs f d actions w (run_actions actions w)
unfolding run_actions
run_actions-IsRun fs f d [] w h same k r n = record {
  counter = refl;
  assignments = refl;
  ids = h;
  orders = refl;
}
run_actions-IsRun fs f d (a ∷ as_) w h same k r n =
    let w1 = run_action a w in
    let kept = run_action-kept a w in
    let rest =
      run_actions-IsRun fs f d as_ w1 (run_action-HasIds a w h) (kept.1 ∙ same)
        (rw kept.0 (
          rows_after-Distinct a.move.factory_id (to_midnight a.move.production_day) a.old
            w.assignments k))
        (rw kept.0 (others-Ready a as_ w.assignments n r.1))
        (NoRepeat-tail a.old (moved_ids as_) n) in
    let one =
      rows_after-held f d a.move.factory_id (to_midnight a.move.production_day) a.qty a.old
        w.assignments k r.0 in
    record {
      counter =
          chain (level fs f d (run_actions as_ w1)) (level fs f d w1) (level fs f d w)
            (sum_of (consumed f d) as_) (sum_of (returned f d) as_) (consumed f d a)
            (returned f d a) rest.counter (run_action-level fs f d a w h same);
      assignments = omega (arith, rest.assignments, one, ap (held f d) kept.0);
      ids = rest.ids;
      orders = rest.orders ∙ kept.2;
    }
