-- ===== src/Orders/Status/Lifecycle.antt =====
-- Chains of the transitions that `assertOrderStatusTransition` of modules/order/order-status.ts accepts.
use wafer_fabrication_schedu.Base.{ℕ, ◌≡◌, refl, ◌≤◌, ◌<◌, ◌∙◌, ap, arith, ◌⊎◌, inl, inr}
use wafer_fabrication_schedu.Schedule.Types.{OrderStatus}
use wafer_fabrication_schedu.Store.{World, ok}
use wafer_fabrication_schedu.Orders.Status.{assert_order_status_transition}

-- The transition is accepted.
abbrev pub Accepted : OrderStatus → OrderStatus → Type 0
Accepted from to = (w : World) → assert_order_status_transition from to w ≡ (ok tt, w)

pub data Life (s : OrderStatus) : OrderStatus → Type 0 where
  born : Life s s
  moved : {t u : OrderStatus} → Life s t → Accepted t u → Life s u

-- Before production, in production, and at an end.
abbrev pub stage : OrderStatus → ℕ
stage OrderStatus.pending = 0
stage OrderStatus.scheduled = 0
stage OrderStatus.failed = 0
stage OrderStatus.in_production = 1
stage OrderStatus.completed = 2
stage OrderStatus.cancelled = 2

Accepted-stage :
    (w : World) (s t : OrderStatus) → Accepted s t → (stage s ≤ stage t) × (stage s ≡ 2 → t ≡ s)
unfolding assert_order_status_transition
Accepted-stage w s t a = let here = a w in (ground arith, λ e. ground arith)

Life-kept : (w : World) {s t : OrderStatus} → Life s t → (stage s ≤ stage t) × (stage s ≡ 2 → t ≡ s)
Life-kept w born = (omega arith, λ e. refl)
Life-kept w {s} (moved {t} {u} l a) =
    let before = Life-kept w l in
    let now = Accepted-stage w t u a in
    (omega arith, λ e. now.1 (ap stage (before.1 e) ∙ e) ∙ before.1 e)

ends : (s t : OrderStatus) → (stage s ≡ 2 → t ≡ s) → (stage s < 2) ⊎ (t ≡ s)
ends OrderStatus.pending t f = inl (omega arith)
ends OrderStatus.scheduled t f = inl (omega arith)
ends OrderStatus.failed t f = inl (omega arith)
ends OrderStatus.in_production t f = inl (omega arith)
ends OrderStatus.completed t f = inr (f refl)
ends OrderStatus.cancelled t f = inr (f refl)

-- Along any chain of changes of a status that assertOrderStatusTransition accepts, the stage
-- never falls, and from COMPLETED or CANCELLED the chain does not leave. Nothing is said of
-- writes of a status that do not ask assertOrderStatusTransition.
pub Life-stage :
    (w : World) {s t : OrderStatus} → Life s t → (stage s ≤ stage t) × ((stage s < 2) ⊎ (t ≡ s))
Life-stage w {s} {t} life = let kept = Life-kept w life in (kept.0, ends s t kept.1)
