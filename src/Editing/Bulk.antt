-- ===== src/Editing/Bulk.antt =====
-- The whole bulk edit: which moves become actions, and what the transaction leaves.
use wafer_fabrication_schedu.Base.{
  ℕ, ◌+◌, ◌≡◌, refl, ◌∙◌, ap, ◌&&◌, ◌==◌, if◌then◌else◌, List, [], ◌∷◌, map, arith, All, sum_of,
  sum_of-append, Option-cases, inl, inr, ℤ, pos, ◌+ℤ◌, pos_part, neg_part, int_laws,
}
use wafer_fabrication_schedu.Base.Sort.{Distinct}
use wafer_fabrication_schedu.Dates.{Date}
use wafer_fabrication_schedu.Schedule.Types.{
  AssignmentStatus, eq_assignment_status, OrderAssignmentDraft,
}
use wafer_fabrication_schedu.Store.{World, AssignmentRow}
use wafer_fabrication_schedu.Store.Capacity.{factory_max}
use wafer_fabrication_schedu.Store.Capacity.Levels.{HasIds, level_at}
use wafer_fabrication_schedu.Orders.Cancel.{assignment_id}
use wafer_fabrication_schedu.Orders.Cancel.Release.{scheduled_share, held}
use wafer_fabrication_schedu.Application.{create_assignments}
use wafer_fabrication_schedu.Application.Effects.{draft_of, create_assignments-rows}
use wafer_fabrication_schedu.Application.Versions.{create_assignments-kept}
use wafer_fabrication_schedu.Editing.Judge.{ValidAction}
use wafer_fabrication_schedu.Editing.Execute.{
  run_actions, draft_of_action, pending_actions, execute_actions,
}
use wafer_fabrication_schedu.Editing.Balance.{
  returned, consumed, moved_in, Ready, level, moved_ids, NoRepeat,
}
use wafer_fabrication_schedu.Editing.Conserve.{run_actions-IsRun}

abbrev draft_share : ℕ → Date → OrderAssignmentDraft → ℕ
draft_share f d a =
    if eq_assignment_status a.status AssignmentStatus.scheduled
    then (if a.factory_id == f && a.production_date == d then a.assigned_quantity else 0)
    else 0

held-drafts :
    (f d : ℕ) (rows : List AssignmentRow)
    → held f d rows ≡ sum_of (draft_share f d) (map draft_of rows)
held-drafts f d [] = refl
held-drafts f d (x ∷ xs) = ap (λ n. scheduled_share f d x + n) (held-drafts f d xs)

drafts-consumed :
    (f d : ℕ) (w : World) (actions : List ValidAction)
    → sum_of (draft_share f d) (map (draft_of_action w) (pending_actions actions))
        + sum_of (moved_in f d) actions
      ≡ sum_of (consumed f d) actions
unfolding draft_of_action
drafts-consumed f d w [] = refl
drafts-consumed f d w (a ∷ as_) = elim (Option-cases a.old) [
  | inl n ↦ ground (arith, drafts-consumed f d w as_)
  | inr (o, e) ↦ ground (arith, drafts-consumed f d w as_)
]

balanced :
    (x y : ℤ) (c r h g : ℕ) → x +ℤ pos c ≡ y +ℤ pos r → h + r ≡ g + c → x +ℤ pos h ≡ y +ℤ pos g
balanced x y c r h g e f = omega (int_laws, ap pos_part e, ap neg_part e)

-- What the transaction does to a counter.
pub execute_actions-level :
    (f d : ℕ) (actions : List ValidAction) (actor_user_id : ℕ) (w : World)
    → HasIds w
    → Distinct assignment_id w.assignments
    → All (Ready w.assignments) actions
    → NoRepeat (moved_ids actions)
    → level w.factories f d (execute_actions actions actor_user_id w)
        +ℤ pos (sum_of (consumed f d) actions)
      ≡ level w.factories f d w +ℤ pos (sum_of (returned f d) actions)
unfolding execute_actions
execute_actions-level f d actions actor_user_id w h k r n =
    let kept =
      create_assignments-kept (map (draft_of_action w) (pending_actions actions))
        (run_actions actions w) in
    ap
      (λ c.
        level_at (λ i. factory_max i w.factories 0) f d c +ℤ pos (sum_of (consumed f d) actions))
      kept.1
    ∙ (run_actions-IsRun w.factories f d actions w h refl k r n).counter

-- The transaction leaves the balance of every slot.
pub execute_actions-balance :
    (f d : ℕ) (actions : List ValidAction) (actor_user_id : ℕ) (w : World)
    → HasIds w
    → Distinct assignment_id w.assignments
    → All (Ready w.assignments) actions
    → NoRepeat (moved_ids actions)
    → let w' = execute_actions actions actor_user_id w in
      level w.factories f d w' +ℤ pos (held f d w'.assignments)
      ≡ level w.factories f d w +ℤ pos (held f d w.assignments)
unfolding execute_actions
execute_actions-balance f d actions actor_user_id w h k r n =
    let run = run_actions-IsRun w.factories f d actions w h refl k r n in
    let moved = run_actions actions w in
    let drafts = map (draft_of_action w) (pending_actions actions) in
    let (rows, added, same, _) = create_assignments-rows drafts moved in
    let kept = create_assignments-kept drafts moved in
    let held_after =
      ap (held f d) added
      ∙ sum_of-append (scheduled_share f d) moved.assignments rows
      ∙ ap (λ m. held f d moved.assignments + m)
          (held-drafts f d rows ∙ ap (sum_of (draft_share f d)) same) in
    ap
      (λ c.
        level_at (λ i. factory_max i w.factories 0) f d c
        +ℤ pos (held f d (create_assignments drafts moved).assignments))
      kept.1
    ∙ balanced (level w.factories f d moved) (level w.factories f d w)
        (sum_of (consumed f d) actions) (sum_of (returned f d) actions)
        (held f d (create_assignments drafts moved).assignments) (held f d w.assignments)
        run.counter (omega (arith, held_after, run.assignments, drafts-consumed f d w actions))
