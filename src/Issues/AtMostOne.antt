-- ===== src/Issues/AtMostOne.antt =====
-- An order keeps one live issue at most when a schedule opens issues for the orders that it failed.
use wafer_fabrication_schedu.Base.{
  ℕ, ◌+◌, ◌≡◌, ◌≤◌, refl, sym, ◌∙◌, ap, ◌==◌, Bool, true, false, ◌||◌, if◌then◌else◌, none, List,
  [], ◌∷◌, ◌++◌, map, elem, is_some, ltb, arith, any, ◌&&◌,
}
use wafer_fabrication_schedu.Dates.{Date}
use wafer_fabrication_schedu.Schedule.Types.{SchedulingConfig}
use wafer_fabrication_schedu.Store.{World, count_where, Result, ok, err, range_error, after, pure}
use wafer_fabrication_schedu.Editing.Balance.{NoRepeat}
use wafer_fabrication_schedu.Issues.Preparation.{
  is_for, live_count, live_count-create_many, events_issues, live_found, order_is_for, fails,
  breaks, Prepared, prepared, failed_count, counted_once, failed_breaks,
}
use wafer_fabrication_schedu.Issues.Creation.{
  failed_orders, NewIssue, IssueCreationPrep, live_of, open_issue_of, prepare_orders,
  prepare_issue_creation_prep, create_many_conflict_issues, issues_of_orders, opened_event,
  create_issues_for_failed_orders_tx, write_issues, write_prepared, create_issues_in_apply,
}

-- After a call that returns, an order has one live issue if it had one or is among the failed orders, and
-- else none; a call that throws has written nothing.
abbrev pub HasOpened {ℓ} :
    {A : Type ℓ} → ℕ → List ℕ → SchedulingConfig → Bool → World → Result A → World → Type 0
HasOpened id ids config skip w (ok n) v =
    (live_count id v ≡ (if ltb 0 (live_count id w) || elem id ids && fails skip w id then 1 else 0))
    × (any (breaks config skip w) ids ≡ false)
HasOpened id ids config skip w (err e) v =
    (v ≡ w) × (e ≡ range_error) × (any (breaks config skip w) ids ≡ true)

combined :
    (before news orders copies : ℕ) (found f e : Bool)
    → news ≡ (if found then 0 else orders)
    → found ≡ ltb 0 before
    → orders ≡ (if f then copies else 0)
    → copies ≡ (if e then 1 else 0)
    → before ≤ 1
    → before + news ≡ (if ltb 0 before || e && f then 1 else 0)
combined before news orders copies found f e a b c d h = ground arith

opened :
    (id : ℕ) (ids : List ℕ) (actor_id : ℕ) (config : SchedulingConfig) (skip : Bool) (now : Date)
    (w : World) (r : Result IssueCreationPrep)
    → NoRepeat ids
    → live_count id w ≤ 1
    → Prepared config id (failed_orders skip w ids) (is_some (open_issue_of id w)) r
    → let call = write_prepared r actor_id now w in HasOpened id ids config skip w call.0 call.1
unfolding write_issues
opened id ids actor_id config skip now w (err e) n h p =
    (refl, p.0, sym (failed_breaks config skip w ids) ∙ p.1)
opened id ids actor_id config skip now w (ok q) n h p =
    let created = create_many_conflict_issues q.new_issues now w in
    let events =
      q.events
      ++ map (opened_event actor_id)
          (issues_of_orders (map (λ (x : NewIssue). x.order_id) q.new_issues) created) in
    (
      ap (count_where (live_of id)) (events_issues events created)
          ∙ live_count-create_many id q.new_issues now w
          ∙ combined (live_count id w) (count_where (is_for id) q.new_issues)
              (count_where (order_is_for id) (failed_orders skip w ids))
              (count_where (λ i. i == id) ids) (is_some (open_issue_of id w)) (fails skip w id)
              (elem id ids) p.0 (live_found id w) (failed_count id skip w ids)
              (counted_once id ids n) h,
      sym (failed_breaks config skip w ids) ∙ p.1,
    )

applied_opened :
    (id : ℕ) (ids : List ℕ) (actor_id : ℕ) (config : SchedulingConfig) (now : Date) (w : World)
    (r : Result IssueCreationPrep)
    → NoRepeat ids
    → live_count id w ≤ 1
    → Prepared config id (failed_orders true w ids) (is_some (open_issue_of id w)) r
    → let call =
        after {B = Unit {0}}
          (r, w)
          (λ p v. after (write_prepared (ok p) actor_id now v) (λ counts. pure tt)) in
      HasOpened id ids config true w call.0 call.1
applied_opened id ids actor_id config now w (ok q) n h p =
    opened id ids actor_id config true now w (ok q) n h p
applied_opened id ids actor_id config now w (err e) n h p =
    opened id ids actor_id config true now w (err e) n h p

in_apply :
    (id : ℕ) (ids : List ℕ) (actor_id : ℕ) (config : SchedulingConfig) (now : Date) (w : World)
    → NoRepeat ids
    → live_count id w ≤ 1
    → let call = create_issues_in_apply ids actor_id config now w in
      HasOpened id ids config true w call.0 call.1
unfolding create_issues_in_apply create_issues_for_failed_orders_tx prepare_issue_creation_prep
in_apply id [] actor_id config now w n h = (ground arith, refl)
in_apply id (i ∷ ids) actor_id config now w n h =
    let os = failed_orders true w (i ∷ ids) in
    applied_opened id (i ∷ ids) actor_id config now w (prepare_orders config actor_id w os) n h
      (prepared id config actor_id w os)

-- Let no id be given twice, and let an order have at most one issue OPEN or IN_DISCUSSION. A call
-- of createIssuesForFailedOrdersTx that prepares by itself, if it returns, leaves the order with
-- one if it had one, or if it is among the given orders and its status is FAILED, and else with
-- none. The creation of issues in _applyScheduleTransaction does so for a given order whatever
-- its status is. Either throws exactly if the deadline of a given order, of a FAILED one in the
-- first case, is an Invalid Date, and has then written nothing.
pub create_issues_for_failed_orders_tx-AtMostOne :
    (id : ℕ) (failed_order_ids : List ℕ) (actor_id : ℕ) (config : SchedulingConfig) (now : Date)
    (w : World)
    → NoRepeat failed_order_ids
    → live_count id w ≤ 1
    → let call = create_issues_for_failed_orders_tx failed_order_ids actor_id config now none w in
      let in_run = create_issues_in_apply failed_order_ids actor_id config now w in
      HasOpened id failed_order_ids config false w call.0 call.1
      × HasOpened id failed_order_ids config true w in_run.0 in_run.1
unfolding create_issues_for_failed_orders_tx prepare_issue_creation_prep
create_issues_for_failed_orders_tx-AtMostOne id failed_order_ids actor_id config now w n h =
    let os = failed_orders false w failed_order_ids in
    (
      opened id failed_order_ids actor_id config false now w (prepare_orders config actor_id w os) n
          h (prepared id config actor_id w os),
      in_apply id failed_order_ids actor_id config now w n h,
    )
