-- ===== src/Issues/Preparation.antt =====
-- What `prepareIssueCreationPrep` of modules/order/conflict-issue-service.ts makes for one order.
use wafer_fabrication_schedu.Base.{
  ℕ, ◌+◌, ◌≡◌, ◌≢◌, refl, ◌∙◌, ap, ◌==◌, Bool, true, false, ◌||◌, if◌then◌else◌, Option, none, some,
  List, [], ◌∷◌, ◌++◌, elem, find, is_some, ltb, arith, any, not, ◌&&◌, All, Bool-cases,
  Option-cases, inl, inr,
}
use wafer_fabrication_schedu.Base.Sort.{sort_by, insert_sorted}
use wafer_fabrication_schedu.Dates.{Date}
use wafer_fabrication_schedu.Schedule.Types.{OrderStatus, eq_status, SchedulingConfig}
use wafer_fabrication_schedu.Store.{
  World, OrderRow, IssueRow, count_where, Result, ok, err, range_error,
}
use wafer_fabrication_schedu.Orders.Table.{order_has_id}
use wafer_fabrication_schedu.Editing.Balance.{NoRepeat}
use wafer_fabrication_schedu.Issues.Creation.{
  failed_orders, NewIssue, NewEvent, IssueCreationPrep, live_of, newer_issue, open_issue_of,
  deadline_of, prepare_one, prepare_orders, issue_row, create_many_conflict_issues,
  create_many_conflict_issue_events,
}

abbrev pub is_for : ℕ → NewIssue → Bool
is_for id n = n.order_id == id

abbrev pub live_count : ℕ → World → ℕ
live_count id w = count_where (live_of id) w.issues

count_where-append {ℓ} :
    {A : Type ℓ} (p : A → Bool) (xs ys : List A)
    → count_where p (xs ++ ys) ≡ count_where p xs + count_where p ys
count_where-append p [] ys = omega arith
count_where-append p (x ∷ xs) ys = omega (arith, count_where-append p xs ys)

pub live_count-create_many :
    (id : ℕ) (ns : List NewIssue) (now : Date) (w : World)
    → live_count id (create_many_conflict_issues ns now w)
      ≡ live_count id w + count_where (is_for id) ns
unfolding create_many_conflict_issues
live_count-create_many id [] now w = omega arith
live_count-create_many id (n ∷ ns) now w = ground (
  arith,
  live_count-create_many id ns now
      (record w { issues = w.issues ++ issue_row w.next_id now n ∷ []; next_id = w.next_id + 1 }),
  count_where-append (live_of id) w.issues (issue_row w.next_id now n ∷ []),
)

pub events_issues :
    (es : List NewEvent) (w : World) → (create_many_conflict_issue_events es w).issues ≡ w.issues
unfolding create_many_conflict_issue_events
events_issues [] w = refl
events_issues (e ∷ es) w = events_issues es _

count_where-insert :
    (p : IssueRow → Bool) (x : IssueRow) (xs : List IssueRow)
    → count_where p (insert_sorted newer_issue x xs) ≡ count_where p (x ∷ xs)
unfolding insert_sorted
count_where-insert p x [] = refl
count_where-insert p x (y ∷ ys) = ground (arith, count_where-insert p x ys)

count_where-sort_by :
    (p : IssueRow → Bool) (xs : List IssueRow)
    → count_where p (sort_by newer_issue xs) ≡ count_where p xs
unfolding sort_by
count_where-sort_by p [] = refl
count_where-sort_by p (x ∷ xs) =
    count_where-insert p x (sort_by newer_issue xs)
    ∙ ap (λ n. (if p x then 1 else 0) + n) (count_where-sort_by p xs)

found-count_where {ℓ} :
    {A : Type ℓ} (p : A → Bool) (xs : List A) → is_some (find p xs) ≡ ltb 0 (count_where p xs)
found-count_where p [] = ground arith
found-count_where p (x ∷ xs) = ground (arith, found-count_where p xs)

-- A live issue is found exactly if there is one.
pub live_found : (id : ℕ) (w : World) → is_some (open_issue_of id w) ≡ ltb 0 (live_count id w)
unfolding open_issue_of
live_found id w =
    found-count_where (live_of id) (sort_by newer_issue w.issues)
    ∙ ap (ltb 0) (count_where-sort_by (live_of id) w.issues)

abbrev pub order_is_for : ℕ → OrderRow → Bool
order_is_for id o = o.id == id

-- The order has an Invalid Date for its deadline.
abbrev pub has_no_deadline : SchedulingConfig → OrderRow → Bool
has_no_deadline config o = not (is_some (deadline_of config o))

same_order :
    (id : ℕ) (w : World) (o : OrderRow)
    → (o.id == id) ≡ true
    → open_issue_of o.id w ≡ open_issue_of id w
same_order id w o e = ap (λ n. open_issue_of n w) (ground arith)

-- What is prepared for an order: an issue for each time that it stands in the list, if it has no live
-- issue, and else none. Nothing is, exactly if a deadline is an Invalid Date.
abbrev pub Prepared :
    SchedulingConfig → ℕ → List OrderRow → Bool → Result IssueCreationPrep → Type 0
Prepared config id os found (ok p) =
    (count_where (is_for id) p.new_issues ≡ (if found then 0 else count_where (order_is_for id) os))
    × (any (has_no_deadline config) os ≡ false)
Prepared config id os found (err e) = (e ≡ range_error) × (any (has_no_deadline config) os ≡ true)

prepared_one :
    (id : ℕ) (config : SchedulingConfig) (actor_id : ℕ) (w : World) (o : OrderRow)
    (os : List OrderRow) (live : Bool) (deadline : Option Date) (found : Option IssueRow)
    (r : Result IssueCreationPrep)
    → deadline_of config o ≡ deadline
    → ((o.id == id) ≡ true → is_some found ≡ live)
    → Prepared config id os live r
    → Prepared config id (o ∷ os) live (prepare_one config actor_id w o deadline found r)
prepared_one id config actor_id w o os live none found r e f h = (refl, rw e)
prepared_one id config actor_id w o os live (some d) found (err x) e f h = (h.0, rw e h.1)
prepared_one id config actor_id w o os live (some d) none (ok p) e f h =
    (ground (arith, h.0), rw e h.1)
prepared_one id config actor_id w o os live (some d) (some i) (ok p) e f h =
    (ground (arith, h.0), rw e h.1)

pub prepared :
    (id : ℕ) (config : SchedulingConfig) (actor_id : ℕ) (w : World) (os : List OrderRow)
    → Prepared config id os (is_some (open_issue_of id w)) (prepare_orders config actor_id w os)
unfolding prepare_orders
prepared id config actor_id w [] = (ground arith, refl)
prepared id config actor_id w (o ∷ os) =
    prepared_one id config actor_id w o os (is_some (open_issue_of id w)) (deadline_of config o)
      (open_issue_of o.id w) (prepare_orders config actor_id w os) refl
      (λ e. ap is_some (same_order id w o e)) (prepared id config actor_id w os)

-- The orders that count as failed: by their status, or all of them.
abbrev pub fails : Bool → World → ℕ → Bool
fails skip w id = elim (find (order_has_id id) w.orders) [
  | none ↦ false
  | some o ↦ skip || eq_status o.status OrderStatus.failed
]

found_id :
    (id : ℕ) (os : List OrderRow) (o : OrderRow) → find (order_has_id id) os ≡ some o → o.id ≡ id
found_id id [] o e = cc
found_id id (x ∷ xs) o e = ground (arith, found_id id xs o)

one_more :
    (id i : ℕ) (b : Bool) (o : OrderRow) (os : List OrderRow)
    → o.id ≡ i
    → count_where (order_is_for id) (if b then o ∷ os else os)
      ≡ (if b && i == id then 1 else 0) + count_where (order_is_for id) os
one_more id i true o os e = ground arith
one_more id i false o os e = omega arith

same_id : (skip : Bool) (w : World) (i id : ℕ) → (i == id) ≡ true → fails skip w id ≡ fails skip w i
same_id skip w i id e = ap (fails skip w) (ground arith)

counted :
    (b c f : Bool) (k m n : ℕ)
    → k ≡ (if b && c then 1 else 0) + m
    → m ≡ (if f then n else 0)
    → (c ≡ true → f ≡ b)
    → k ≡ (if f then (if c then 1 else 0) + n else 0)
counted b true f k m n e g h = let same = h refl in ground arith
counted b false true k m n e g h = ground arith
counted b false false k m n e g h = ground arith

pub failed_count :
    (id : ℕ) (skip : Bool) (w : World) (ids : List ℕ)
    → count_where (order_is_for id) (failed_orders skip w ids)
      ≡ (if fails skip w id then count_where (λ i. i == id) ids else 0)
unfolding failed_orders
failed_count id skip w [] = ground arith
failed_count id skip w (i ∷ ids) = elim (Option-cases (find (order_has_id i) w.orders)) [
  | inl e ↦
      rw (e, failed_orders)
        (counted false (i == id) (fails skip w id) _ _ _ (omega arith) (failed_count id skip w ids)
          (λ c. same_id skip w i id c ∙ rw (e, fails)))
  | inr (o, e) ↦
      rw (e, failed_orders)
        (counted (skip || eq_status o.status OrderStatus.failed) (i == id) (fails skip w id) _ _ _
          (one_more id i (skip || eq_status o.status OrderStatus.failed) o
            (failed_orders skip w ids) (found_id i w.orders o e))
          (failed_count id skip w ids) (λ c. same_id skip w i id c ∙ rw (e, fails)))
]

none_counted : (id : ℕ) (ids : List ℕ) → All (λ i. id ≢ i) ids → count_where (λ i. i == id) ids ≡ 0
none_counted id [] n = refl
none_counted id (i ∷ ids) n = ground (arith, none_counted id ids n.1, n.0)

pub counted_once :
    (id : ℕ) (ids : List ℕ)
    → NoRepeat ids
    → count_where (λ i. i == id) ids ≡ (if elem id ids then 1 else 0)
counted_once id [] n = omega arith
counted_once id (i ∷ ids) n = elim (Bool-cases (i == id)) [
  | inl e ↦ ground (arith, none_counted i ids n.0)
  | inr e ↦ ground (arith, counted_once id ids n.1)
]

-- An order of the run that fails, and has an Invalid Date for its deadline.
abbrev pub breaks : SchedulingConfig → Bool → World → ℕ → Bool
breaks config skip w i = elim (find (order_has_id i) w.orders) [
  | none ↦ false
  | some o ↦ (skip || eq_status o.status OrderStatus.failed) && has_no_deadline config o
]

any-if :
    (p : OrderRow → Bool) (b : Bool) (o : OrderRow) (os : List OrderRow)
    → any p (if b then o ∷ os else os) ≡ (b && p o || any p os)
any-if p true o os = refl
any-if p false o os = refl

pub failed_breaks :
    (config : SchedulingConfig) (skip : Bool) (w : World) (ids : List ℕ)
    → any (has_no_deadline config) (failed_orders skip w ids) ≡ any (breaks config skip w) ids
unfolding failed_orders
failed_breaks config skip w [] = refl
failed_breaks config skip w (i ∷ ids) = elim (Option-cases (find (order_has_id i) w.orders)) [
  | inl e ↦ rw (e, failed_orders, breaks) (failed_breaks config skip w ids)
  | inr (o, e) ↦
      rw (e, failed_orders, breaks)
        (any-if (has_no_deadline config) (skip || eq_status o.status OrderStatus.failed) o
            (failed_orders skip w ids)
          ∙ ap
              (λ b.
                (skip || eq_status o.status OrderStatus.failed) && has_no_deadline config o || b)
              (failed_breaks config skip w ids))
]
