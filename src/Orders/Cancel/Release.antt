-- ===== src/Orders/Cancel/Release.antt =====
-- `cancelOrdersAndReleaseCapacity` of modules/order/order-service.ts gives back to each factory and
-- date what the cancelled assignments held there.
use wafer_fabrication_schedu.Base.{
  ℕ, ◌+◌, ◌≡◌, refl, ◌∙◌, ap, Bool, true, false, ◌&&◌, ◌==◌, if◌then◌else◌, List, [], ◌∷◌, map,
  arith, keep, elem, sum_of, ℤ, pos, ◌+ℤ◌, int_laws,
}
use wafer_fabrication_schedu.Base.Sort.{Distinct}
use wafer_fabrication_schedu.Dates.{Date}
use wafer_fabrication_schedu.Schedule.Types.{OrderStatus, AssignmentStatus, eq_assignment_status}
use wafer_fabrication_schedu.Store.{World, OrderRow, AssignmentRow, FactoryRow, update_where}
use wafer_fabrication_schedu.Store.Capacity.{upsert_daily_capacity_delta, factory_max}
use wafer_fabrication_schedu.Store.Capacity.Levels.{
  HasIds, level_at, level_at-upsert_daily_capacity_delta, upsert_daily_capacity_delta-HasIds,
}
use wafer_fabrication_schedu.Orders.Table.{has_status, delete_orders}
use wafer_fabrication_schedu.Store.Rows.{update_where-keys_where}
use wafer_fabrication_schedu.Orders.Cancel.{
  is_scheduled_of, assignment_id, cancelled_assignment, release_all,
  cancel_orders_and_release_capacity,
}

-- What an assignment takes from a factory on a date, and what the scheduled ones take together.
abbrev pub share : ℕ → Date → AssignmentRow → ℕ
share f d a = if (a.factory_id == f) && (a.production_date == d) then a.assigned_quantity else 0

abbrev pub scheduled_share : ℕ → Date → AssignmentRow → ℕ
scheduled_share f d a =
    if eq_assignment_status a.status AssignmentStatus.scheduled then share f d a else 0

abbrev pub held : ℕ → Date → List AssignmentRow → ℕ
held f d rows = sum_of (scheduled_share f d) rows

abbrev pub max_of : World → ℕ → ℕ
max_of w i = factory_max i w.factories 0

upsert-factories :
    (f date max : ℕ) (delta : ℤ) (w : World)
    → (upsert_daily_capacity_delta f date delta max w).factories ≡ w.factories
unfolding upsert_daily_capacity_delta
upsert-factories f date max delta w = ground arith

add_if :
    (b : Bool) (z : ℤ) (q s : ℕ)
    → (if b then z +ℤ pos q else z) +ℤ pos s ≡ z +ℤ pos ((if b then q else 0) + s)
add_if true z q s = omega int_laws
add_if false z q s = ap (λ n. z +ℤ pos n) (omega arith)

give_back : (z : ℤ) (q s : ℕ) → z +ℤ pos q +ℤ pos s ≡ z +ℤ pos (s + q)
give_back z q s = omega int_laws

-- The loop raises each counter by what its assignments hold.
module _ (fs : List FactoryRow) (f d : ℕ) where
  abbrev level : World → ℤ
  level w = level_at (λ i. factory_max i fs 0) f d w.capacities

  raised : AssignmentRow → World → World
  raised a w =
      upsert_daily_capacity_delta a.factory_id a.production_date (pos a.assigned_quantity)
        (factory_max a.factory_id fs 0) w

  raised-level :
      (a : AssignmentRow) (w : World)
      → HasIds w
      → level (raised a w) ≡ (
          if (a.factory_id == f) && (a.production_date == d)
          then level w +ℤ pos a.assigned_quantity
          else level w)
  unfolding raised
  raised-level a w h =
      level_at-upsert_daily_capacity_delta (λ i. factory_max i fs 0) a.factory_id a.production_date
        f d (pos a.assigned_quantity) w h

  raised-HasIds : (a : AssignmentRow) (w : World) → HasIds w → HasIds (raised a w)
  unfolding raised
  raised-HasIds a w h =
      upsert_daily_capacity_delta-HasIds a.factory_id a.production_date
        (factory_max a.factory_id fs 0) (pos a.assigned_quantity) w h

  raised-factories : (a : AssignmentRow) (w : World) → (raised a w).factories ≡ w.factories
  unfolding raised
  raised-factories a w =
      upsert-factories a.factory_id a.production_date (factory_max a.factory_id fs 0)
        (pos a.assigned_quantity) w

  release_all-step :
      (a : AssignmentRow) (as_ : List AssignmentRow) (w : World)
      → w.factories ≡ fs
      → release_all (a ∷ as_) w ≡ release_all as_ (raised a w)
  unfolding release_all raised
  release_all-step a as_ w e = rw e refl

  release_all-level :
      (rows : List AssignmentRow) (w : World)
      → HasIds w
      → w.factories ≡ fs
      → level (release_all rows w) ≡ level w +ℤ pos (sum_of (share f d) rows)
  unfolding release_all
  release_all-level [] w h e = omega int_laws
  release_all-level (a ∷ as_) w h e =
      ap level (release_all-step a as_ w e)
      ∙ release_all-level as_ (raised a w) (raised-HasIds a w h) (raised-factories a w ∙ e)
      ∙ ap (λ z. z +ℤ pos (sum_of (share f d) as_)) (raised-level a w h)
      ∙ add_if ((a.factory_id == f) && (a.production_date == d)) (level w) a.assigned_quantity
          (sum_of (share f d) as_)

held-cancelled :
    (f d : ℕ) (ids : List ℕ) (rows : List AssignmentRow)
    → held f d (update_where (is_scheduled_of ids) cancelled_assignment rows)
        + sum_of (share f d) (keep (is_scheduled_of ids) rows)
      ≡ held f d rows
held-cancelled f d ids [] = refl
held-cancelled f d ids (a ∷ as_) = ground (arith, held-cancelled f d ids as_)

upsert-tables :
    (f date max : ℕ) (delta : ℤ) (w : World)
    → let w' = upsert_daily_capacity_delta f date delta max w in
      (w'.assignments ≡ w.assignments) × (w'.orders ≡ w.orders)
unfolding upsert_daily_capacity_delta
upsert-tables f date max delta w = ground arith

release_all-tables :
    (rows : List AssignmentRow) (w : World)
    → ((release_all rows w).assignments ≡ w.assignments) × ((release_all rows w).orders ≡ w.orders)
unfolding release_all
release_all-tables [] w = (refl, refl)
release_all-tables (a ∷ as_) w =
    let max = factory_max a.factory_id w.factories 0 in
    let w' =
      upsert_daily_capacity_delta a.factory_id a.production_date (pos a.assigned_quantity) max w in
    let later = release_all-tables as_ w' in
    let now = upsert-tables a.factory_id a.production_date max (pos a.assigned_quantity) w in
    (later.0 ∙ now.0, later.1 ∙ now.1)

-- Let the rows of the capacities and of the assignments have different ids. Cancelling orders marks
-- their SCHEDULED assignments, and no others, as CANCELLED, and marks the orders as CANCELLED. For
-- every factory and date, the counter and what SCHEDULED assignments hold there have the same sum as
-- before.
pub cancel_orders_conserve :
    (ids : List ℕ) (f d : ℕ) (w : World)
    → HasIds w
    → Distinct assignment_id w.assignments
    → let w' = (cancel_orders_and_release_capacity ids w).1 in
      (level_at (max_of w) f d w'.capacities +ℤ pos (held f d w'.assignments)
        ≡ level_at (max_of w) f d w.capacities +ℤ pos (held f d w.assignments))
      × (w'.assignments ≡ update_where (is_scheduled_of ids) cancelled_assignment w.assignments)
      × (w'.orders
          ≡ update_where
              (λ (o : OrderRow). elem o.id ids)
              (has_status OrderStatus.cancelled)
              w.orders)
unfolding cancel_orders_and_release_capacity delete_orders
cancel_orders_conserve ids f d w h distinct = (
  ap (λ rows. level w.factories f d released +ℤ pos (held f d rows)) marked
      ∙ ap (λ z. z +ℤ pos (held f d after)) (release_all-level w.factories f d scheduled w h refl)
      ∙ give_back (level w.factories f d w) (sum_of (share f d) scheduled) (held f d after)
      ∙ ap (λ n. level w.factories f d w +ℤ pos n) (held-cancelled f d ids w.assignments),
  marked,
  ap (update_where (λ (o : OrderRow). elem o.id ids) (has_status OrderStatus.cancelled))
      (release_all-tables scheduled w).1,
)
  where
    scheduled : List AssignmentRow
    scheduled = keep (is_scheduled_of ids) w.assignments

    released : World
    released = release_all scheduled w

    after : List AssignmentRow
    after = update_where (is_scheduled_of ids) cancelled_assignment w.assignments

    marked :
        update_where
          (λ (a : AssignmentRow). elem a.id (map assignment_id scheduled))
          cancelled_assignment
          released.assignments
        ≡ after
    marked =
        ap
          (update_where (λ (a : AssignmentRow). elem a.id (map assignment_id scheduled))
            cancelled_assignment)
          (release_all-tables scheduled w).0
        ∙ update_where-keys_where assignment_id (is_scheduled_of ids) cancelled_assignment
            w.assignments distinct
