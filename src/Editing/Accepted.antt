-- ===== src/Editing/Accepted.antt =====
-- The moves of a bulk edit that become actions.
use wafer_fabrication_schedu.Base.{
  ℕ, ◌≡◌, refl, sym, ◌∙◌, ap, ◌≢◌, Option, none, some, List, [], ◌∷◌, ◌++◌, append-nil,
  append_assoc, All,
}
use wafer_fabrication_schedu.Store.{World}
use wafer_fabrication_schedu.Editing.{id_list, assignment_ids}
use wafer_fabrication_schedu.Editing.Judge.{
  AssignmentMove, ValidAction, Verdict, skip, refuse, accept, judge,
}
use wafer_fabrication_schedu.Editing.Checks.{
  Pass, settle_verdict, accept_action, judge_from, judge_all,
}
use wafer_fabrication_schedu.Editing.Balance.{Ready, moved_ids, NoRepeat}
use wafer_fabrication_schedu.Editing.Accept.{AcceptedBy, judge-AcceptedBy}

-- The actions of the moves that are accepted.
abbrev pub actions_of : Verdict → List ValidAction
actions_of skip = []
actions_of (refuse v) = []
actions_of (accept a) = a ∷ []

unfoldable pub accepted : World → List AssignmentMove → List ValidAction
unfolding judge
accepted w [] = []
accepted w (m ∷ ms) = actions_of (judge w m) ++ accepted w ms

settled : (v : Verdict) (p : Pass) → (settle_verdict v p).actions ≡ p.actions ++ actions_of v
unfolding accept_action
settled skip p = sym (append-nil p.actions)
settled (refuse v) p = sym (append-nil p.actions)
settled (accept a) p = refl

pub judge_from-accepted :
    (w : World) (moves : List AssignmentMove) (p : Pass)
    → (judge_from w moves p).actions ≡ p.actions ++ accepted w moves
unfolding judge_from accepted
judge_from-accepted w [] p = sym (append-nil p.actions)
judge_from-accepted w (m ∷ ms) p =
    judge_from-accepted w ms (settle_verdict (judge w m) p)
    ∙ ap (λ as_. as_ ++ accepted w ms) (settled (judge w m) p)
    ∙ append_assoc p.actions (actions_of (judge w m)) (accepted w ms)

pub judge_all-accepted :
    (w : World) (moves : List AssignmentMove) → (judge_all w moves).actions ≡ accepted w moves
unfolding judge_all
judge_all-accepted w moves = judge_from-accepted w moves _

added-Ready :
    (w : World) (m : AssignmentMove) (v : Verdict) (as_ : List ValidAction)
    → AcceptedBy w m v
    → All (Ready w.assignments) as_
    → All (Ready w.assignments) (actions_of v ++ as_)
added-Ready w m skip as_ h r = r
added-Ready w m (refuse v) as_ h r = r
added-Ready w m (accept a) as_ h r = (h.ready, r)

pub accepted-Ready :
    (w : World) (moves : List AssignmentMove) → All (Ready w.assignments) (accepted w moves)
unfolding accepted
accepted-Ready w [] = tt
accepted-Ready w (m ∷ ms) =
    added-Ready w m (judge w m) (accepted w ms) (judge-AcceptedBy w m) (accepted-Ready w ms)

added-ids :
    (P : ℕ → Type 0) (w : World) (m : AssignmentMove) (v : Verdict) (as_ : List ValidAction)
    (ids : List ℕ)
    → AcceptedBy w m v
    → All P (id_list m.assignment_id ++ ids)
    → All P (moved_ids as_)
    → All P (moved_ids (actions_of v ++ as_))
added-ids P w m skip as_ ids h r s = s
added-ids P w m (refuse v) as_ ids h r s = s
added-ids P w m (accept a) as_ ids h r s = rw h.ids (with_ids m.assignment_id r)
  where
    with_ids : (i : Option ℕ) → All P (id_list i ++ ids) → All P (id_list i ++ moved_ids as_)
    with_ids none k = s
    with_ids (some i) k = (k.0, s)

accepted-All :
    (P : ℕ → Type 0) (w : World) (moves : List AssignmentMove)
    → All P (assignment_ids moves)
    → All P (moved_ids (accepted w moves))
unfolding accepted
accepted-All P w [] h = tt
accepted-All P w (m ∷ ms) h =
    added-ids P w m (judge w m) (accepted w ms) (assignment_ids ms) (judge-AcceptedBy w m) h
      (accepted-All P w ms (rest m.assignment_id h))
  where
    rest : (i : Option ℕ) → All P (id_list i ++ assignment_ids ms) → All P (assignment_ids ms)
    rest none k = k
    rest (some i) k = k.1

without_id : (i : Option ℕ) (ids : List ℕ) → NoRepeat (id_list i ++ ids) → NoRepeat ids
without_id none ids n = n
without_id (some i) ids n = n.1

added-NoRepeat :
    (w : World) (m : AssignmentMove) (v : Verdict) (as_ : List ValidAction)
    → AcceptedBy w m v
    → NoRepeat (id_list m.assignment_id ++ moved_ids as_)
    → NoRepeat (moved_ids (actions_of v ++ as_))
added-NoRepeat w m skip as_ h n = without_id m.assignment_id (moved_ids as_) n
added-NoRepeat w m (refuse x) as_ h n = without_id m.assignment_id (moved_ids as_) n
added-NoRepeat w m (accept a) as_ h n = rw h.ids n

joined :
    (w : World) (ms : List AssignmentMove) (i : Option ℕ)
    → NoRepeat (moved_ids (accepted w ms))
    → NoRepeat (id_list i ++ assignment_ids ms)
    → NoRepeat (id_list i ++ moved_ids (accepted w ms))
joined w ms none r n = r
joined w ms (some i) r n = (accepted-All (λ y. i ≢ y) w ms n.0, r)

-- Moves that name no assignment twice become actions that move none twice.
pub accepted-NoRepeat :
    (w : World) (moves : List AssignmentMove)
    → NoRepeat (assignment_ids moves)
    → NoRepeat (moved_ids (accepted w moves))
unfolding accepted
accepted-NoRepeat w [] n = tt
accepted-NoRepeat w (m ∷ ms) n =
    added-NoRepeat w m (judge w m) (accepted w ms) (judge-AcceptedBy w m) (
      joined w ms m.assignment_id
        (accepted-NoRepeat w ms (without_id m.assignment_id (assignment_ids ms) n)) n)
