-- ===== src/Issues/Rules.antt =====
-- How an action of the issues ends: rules for its steps, one for each.
use wafer_fabrication_schedu.Base.{
  ℕ, ◌≡◌, refl, sym, elem, keep, ◌==◌, Bool, true, false, not, Option, none, some, List, [], ◌∷◌,
  find, arith, Bool-cases, inl, inr,
}
use mathlib.Core.Path.{subst}
use wafer_fabrication_schedu.Store.{
  World, OrderRow, IssueRow, CommentRow, FactoryRow, ProposalData, Error, forbidden, not_found,
  bad_request, Result, ok, err, Action, after, guard, require, ◌>>=◌, ◌>>◌,
}
use wafer_fabrication_schedu.Auth.{
  AuthUser, UserRole, superadmin, admin, sales, system, admin_scope_of, require_role,
  resolve_actor_scope, get_scope_group,
}
use wafer_fabrication_schedu.Issues.Table.{
  issue_with_order, find_conflict_issue_by_id, join_issue, comment_has_id, find_comment_by_id,
}
use wafer_fabrication_schedu.Issues.Guard.{
  check_group, check_access, assert_issue_access, assert_comment_proposal,
}

-- A property of the result and the state, of a run.
abbrev pub Ends : {B : Type 0} → (Result B → World → Type 0) → Result B × World → Type 0
Ends Q r = Q r.0 r.1

abbrev pub Throws : {B : Type 0} → (Result B → World → Type 0) → World → Type 0
Throws Q w = (e : Error) → Q (err e) w

module _ {B : Type 0} (Q : Result B → World → Type 0) where
  pub guard-Ends :
      (b : Bool) (e : Error) (f : Action B) (w : World)
      → Throws Q w
      → (b ≡ true → Ends Q (f w))
      → Ends Q ((guard b e >> f) w)
  guard-Ends true e f w t k = k refl
  guard-Ends false e f w t k = t e

  pub require-Ends :
      {A : Type 0} (o : Option A) (e : Error) (f : A → Action B) (w : World)
      → Throws Q w
      → ((a : A) → o ≡ some a → Ends Q (f a w))
      → Ends Q ((require o e >>= f) w)
  require-Ends none e f w t k = t e
  require-Ends (some a) e f w t k = k a refl

-- A decision writes nothing; what it returns has a property.
abbrev pub Passes : {A : Type 0} → (A → Type 0) → World → Result A → World → Type 0
Passes P w (err e) v = v ≡ w
Passes P w (ok a) v = (v ≡ w) × P a

module _ {A B : Type 0} (Q : Result B → World → Type 0) (P : A → Type 0) (f : A → Action B)
    (w : World) (t : Throws Q w) (k : (a : A) → P a → Ends Q (f a w)) where
  after-Ends : (r : Result A) (v : World) → Passes P w r v → Ends Q (after (r, v) f)
  after-Ends (err e) v s = subst (Q (err e)) (sym s) (t e)
  after-Ends (ok a) v (s, p) = subst (λ u. Ends Q (f a u)) (sym s) (k a p)

  pub call-Ends : (m : Action A) → Ends (Passes P w) (m w) → Ends Q ((m >>= f) w)
  call-Ends m h = after-Ends (m w).0 (m w).1 h

module _ (user : AuthUser) (w : World) where
  -- Who may see an issue: the SALES user that it is assigned to, an ADMIN of a factory that makes the type
  -- of its order, and a SUPERADMIN.
  pub data IsAllowed (i : IssueRow) (o : OrderRow) : Type 0 where
    as_assignee : user.role ≡ sales → i.assignee_id ≡ user.id → IsAllowed i o
    as_admin :
        (f : FactoryRow)
        → user.role ≡ admin
        → find (λ (g : FactoryRow). elem user.id g.admins) w.factories ≡ some f
        → o.type ≡ f.production_type
        → IsAllowed i o
    as_superadmin : user.role ≡ superadmin → IsAllowed i o

pub find-keep {ℓ} :
    {A : Type ℓ} (p : A → Bool) (xs ys : List A) (y : A) → keep p xs ≡ y ∷ ys → find p xs ≡ some y
find-keep p [] ys y h = cc
find-keep p (x ∷ xs) ys y h = elim (Bool-cases (p x)) [
  | inl e ↦ ground arith
  | inr e ↦ ground (arith, find-keep p xs ys y)
]

pub check-Passes :
    (I : Type 0) (b : Bool) (e : Error) (w : World)
    → (b ≡ true → I)
    → Ends (Passes (λ (u : Unit {0}). I) w) (guard b e w)
check-Passes I true e w k = (refl, k refl)
check-Passes I false e w k = refl

in_group :
    (id : ℕ) (i : IssueRow) (o : OrderRow) (w : World) (fs : List FactoryRow)
    → keep (λ (f : FactoryRow). elem id f.admins) w.factories ≡ fs
    → Ends
        (Passes (λ (u : Unit {0}). IsAllowed (record { id = id; role = admin }) w i o) w)
        (after (admin_scope_of id fs, w) (check_group o.type))
unfolding check_group get_scope_group
in_group id i o w [] h = refl
in_group id i o w (f ∷ fs) h =
    check-Passes (IsAllowed (record { id = id; role = admin }) w i o) (o.type == f.production_type)
      not_found w
      (λ e.
        as_admin f refl (find-keep (λ (g : FactoryRow). elem id g.admins) w.factories fs f h)
          (ground arith))

by_role :
    (id : ℕ) (r : UserRole) (i : IssueRow) (o : OrderRow) (w : World)
    → let user : AuthUser = record { id = id; role = r } in
      Ends (Passes (λ (u : Unit {0}). IsAllowed user w i o) w) (check_access user (i, o) w)
unfolding check_access require_role resolve_actor_scope check_group
by_role id sales i o w =
    check-Passes (IsAllowed (record { id = id; role = sales }) w i o) (i.assignee_id == id)
      not_found w (λ e. as_assignee refl (ground arith))
by_role id admin i o w =
    in_group id i o w (keep (λ (f : FactoryRow). elem id f.admins) w.factories) refl
by_role id superadmin i o w = (refl, as_superadmin refl)
by_role id system i o w = refl

-- What a call that returns has found: the issue and its order, for a user who may see them.
abbrev pub Seen : AuthUser → World → ℕ → IssueRow × OrderRow → Type 0
Seen user w id (i, o) = (issue_with_order id w ≡ some (i, o)) × IsAllowed user w i o

pub assert_issue_access-Passes :
    (user : AuthUser) (id : ℕ) (w : World)
    → Ends (Passes (Seen user w id) w) (assert_issue_access user id w)
unfolding assert_issue_access find_conflict_issue_by_id
assert_issue_access-Passes user id w =
    require-Ends (Passes (Seen user w id) w) (issue_with_order id w) not_found _ w (λ e. refl)
      (λ found e.
        call-Ends (Passes (Seen user w id) w) (λ (u : Unit {0}). IsAllowed user w found.0 found.1) _
          w (λ d. refl) (λ u a. (refl, (e, a))) (check_access user found)
          (by_role user.id user.role found.0 found.1 w))

-- The comment, with its proposal, that a call has found, of another user.
abbrev pub SeenProposal :
    AuthUser → World → ℕ → ProposalData × (CommentRow × (IssueRow × OrderRow)) → Type 0
SeenProposal user w id (p, c) =
    (join_issue w (find (comment_has_id id) w.comments) ≡ some c)
    × (c.0.proposal ≡ some p)
    × ((c.0.author_id == user.id) ≡ false)
    × ((i : IssueRow × OrderRow) × Seen user w c.0.issue_id i)

pub assert_comment_proposal-Passes :
    (user : AuthUser) (id : ℕ) (w : World)
    → Ends (Passes (SeenProposal user w id) w) (assert_comment_proposal user id w)
unfolding assert_comment_proposal find_comment_by_id
assert_comment_proposal-Passes user id w =
    let Q = Passes (SeenProposal user w id) w in
    require-Ends Q (join_issue w (find (comment_has_id id) w.comments)) not_found _ w (λ e. refl)
      (λ found e.
        call-Ends Q (Seen user w found.0.issue_id) _ w (λ d. refl)
          (λ access seen.
            guard-Ends Q (not (found.0.author_id == user.id)) forbidden _ w (λ d. refl)
              (λ a.
                require-Ends Q found.0.proposal bad_request _ w (λ d. refl)
                  (λ p f. (refl, (e, f, ground arith, (access, seen))))))
          (assert_issue_access user found.0.issue_id)
          (assert_issue_access-Passes user found.0.issue_id w))

-- An action that returns, and what follows it.
pub ran-Ends :
    {A B : Type 0} (Q : Result B → World → Type 0) (m : Action A) (f : A → Action B) (w : World)
    (a : A)
    → (m w).0 ≡ ok a
    → Ends Q (f a (m w).1)
    → Ends Q ((m >>= f) w)
ran-Ends Q m f w a e k = subst (λ r. Ends Q (after (r, (m w).1) f)) (sym e) k
