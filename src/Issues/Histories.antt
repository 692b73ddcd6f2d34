-- ===== src/Issues/Histories.antt =====
-- Histories of requests to modules/order/conflict-issue-service.ts.
use wafer_fabrication_schedu.Base.{
  ℕ, ◌≡◌, ◌⊎◌, not, is_some, sym, ◌∙◌, ap, ◌==◌, Bool, Option, none, some, List, [], ◌∷◌, ◌++◌,
  find, arith, Bool-cases, inl, inr,
}
use mathlib.Core.Path.{subst}
use wafer_fabrication_schedu.Dates.{Date}
use wafer_fabrication_schedu.Store.{World, IssueRow, open_issue, Result, ok, err}
use wafer_fabrication_schedu.Auth.{UserRole, AuthUser}
use wafer_fabrication_schedu.Issues.{
  Request, comments, edits, accepts, rejects, acts, asks_cancellation, handle,
}
use wafer_fabrication_schedu.Issues.Table.{issue_has_id, is_live}
use wafer_fabrication_schedu.Issues.Actions.{Opens, Requests, move_of}
use wafer_fabrication_schedu.Issues.Machine.{
  IssueMove, IsMove, Does, IsWellFormed, issue_at, discuss, settle_issue,
}
use wafer_fabrication_schedu.Issues.Refine.{Follows, Settles, handle-Follows}

-- A user, a time and a request, one after the other; what is thrown is sent to the user.
unfoldable pub serve : (ℕ → Option UserRole) → List ((AuthUser × Date) × Request) → World → World
unfolding handle
serve role_of [] w = w
serve role_of (((user, now), r) ∷ rs) w = serve role_of rs (handle role_of user now r w).1

abbrev pub AreWellFormed : World → Type 0
AreWellFormed w = (id : ℕ) (i : IssueRow) → issue_at id w ≡ some i → IsWellFormed i

found_same : {A : Type 0} {o : Option A} {a b : A} → o ≡ some a → o ≡ some b → a ≡ b
found_same e f = cc

moved-AreWellFormed :
    (m : IssueMove) (id : ℕ) (w v : World) → IsMove m id w v → AreWellFormed w → AreWellFormed v
moved-AreWellFormed m id w v h k j i e = elim (Bool-cases (j == id)) [
  | inl s ↦
      subst IsWellFormed (found_same h.left (ap (λ n. issue_at n v) (ground arith) ∙ e))
        (h.keeps (k id h.before h.found))
  | inr n ↦ k j i (sym (h.others j (ground arith)) ∙ e)
]

left-AreWellFormed : (w v : World) → v.issues ≡ w.issues → AreWellFormed w → AreWellFormed v
left-AreWellFormed w v s k j i e = k j i (sym (ap (find (issue_has_id j)) s) ∙ e)

found-snoc {ℓ} :
    {A : Type ℓ} (p : A → Bool) (xs : List A) (x y : A)
    → find p (xs ++ x ∷ []) ≡ some y
    → (find p xs ≡ some y) ⊎ (x ≡ y)
found-snoc p [] x y h = elim (Bool-cases (p x)) [
  | inl e ↦ inr (ground arith)
  | inr e ↦ absurd (ground arith)
]
found-snoc p (z ∷ zs) x y h = elim (Bool-cases (p z)) [
  | inl e ↦ inl (ground arith)
  | inr e ↦ elim (found-snoc p zs x y (ground arith)) [ inl f ↦ inl (ground arith) | inr f ↦ inr f ]
]

new-IsWellFormed : (i : IssueRow) → i.status ≡ open_issue → i.resolution ≡ none → IsWellFormed i
new-IsWellFormed i s n = (
  ap is_live s ∙ sym (ap (λ r. not (is_some r)) n),
  (λ e. absurd (ground arith)),
  (λ e. absurd (ground arith)),
)

opened-AreWellFormed : (id : ℕ) (w v : World) → Opens id w v → AreWellFormed w → AreWellFormed v
opened-AreWellFormed id w v h k j i e =
    elim (found-snoc (issue_has_id j) w.issues h.row i
      (sym (ap (find (issue_has_id j)) h.added) ∙ e)) [
        | inl f ↦ k j i f
        | inr s ↦ subst IsWellFormed s (new-IsWellFormed h.row h.is_new h.unresolved)
      ]

Does-AreWellFormed :
    (m : IssueMove) (id : ℕ) (w v : World) (x : Result (Unit {0}))
    → Does m id w x v
    → AreWellFormed w
    → AreWellFormed v
Does-AreWellFormed m id w v (err e) h = left-AreWellFormed w v h
Does-AreWellFormed m id w v (ok u) h = moved-AreWellFormed m id w v h

Settles-AreWellFormed :
    (id : ℕ) (w v : World) (x : Result (Unit {0}))
    → Settles id w x v
    → AreWellFormed w
    → AreWellFormed v
Settles-AreWellFormed id w v (err e) h = left-AreWellFormed w v h
Settles-AreWellFormed id w v (ok u) (c, f, h) = moved-AreWellFormed settle_issue c.issue_id w v h

Requests-AreWellFormed :
    (id : ℕ) (w v : World) (x : Result (Unit {0}))
    → Requests id w x v
    → AreWellFormed w
    → AreWellFormed v
Requests-AreWellFormed id w v (err e) h = left-AreWellFormed w v h
Requests-AreWellFormed id w v (ok u) h = opened-AreWellFormed id w v h

Follows-AreWellFormed :
    (r : Request) (w v : World) (x : Result (Unit {0}))
    → Follows r w x v
    → AreWellFormed w
    → AreWellFormed v
Follows-AreWellFormed (comments id input) w v x h = Does-AreWellFormed discuss id w v x h
Follows-AreWellFormed (edits id body) w v x h = left-AreWellFormed w v h
Follows-AreWellFormed (accepts id) w v x h = Settles-AreWellFormed id w v x h
Follows-AreWellFormed (rejects id) w v x h = left-AreWellFormed w v h
Follows-AreWellFormed (acts id input) w v x h = Does-AreWellFormed (move_of input) id w v x h
Follows-AreWellFormed (asks_cancellation id) w v x h = Requests-AreWellFormed id w v x h

-- Whatever requests are made one after the other, by whom and when, an issue that can be found has a
-- resolution exactly if it is RESOLVED or CLOSED, with the time of that, if this was so before them.
pub serve-AreWellFormed :
    (role_of : ℕ → Option UserRole) (rs : List ((AuthUser × Date) × Request)) (w : World)
    → AreWellFormed w
    → AreWellFormed (serve role_of rs w)
unfolding serve
serve-AreWellFormed role_of [] w k = k
serve-AreWellFormed role_of (((user, now), r) ∷ rs) w k =
    let ran = handle role_of user now r w in
    serve-AreWellFormed role_of rs ran.1
      (Follows-AreWellFormed r w ran.1 ran.0 (handle-Follows role_of user now r w) k)
