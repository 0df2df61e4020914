-- ===== src/OrderBuckets.antt =====
-- src/common/constants/order-status-buckets.ts and force-completable-statuses.ts: the groupings of
-- the statuses; and `OrdersService.getPlatformSummary`, which counts by them.
pub mod Partition
mod Tests
use ciro_fuel_backend.Prelude.{
  ℕ, ◌+◌, Bool, true, false, ◌&&◌, Option, List, [], ◌∷◌, any, find?, count, map, leb,
}
use ciro_fuel_backend.Order.{
  OrderStatus, pending_approval, approved, awaiting_routing, routed_to_transport,
  assigned_to_driver, pending_payment, loading, in_transit, unloading, delivered, rejected,
  cancelled, Order, same_status,
}

pub data OrderStatusBucket : Type 0 where
  new in_progress completed rejected_orders cancelled_orders needs_attention : OrderStatusBucket

-- `Array.prototype.includes`.
unfoldable pub includes : List OrderStatus → OrderStatus → Bool
includes statuses status = any (λ s. same_status s status) statuses

-- `ORDER_STATUS_BUCKETS`.
unfoldable pub statuses_for_bucket : OrderStatusBucket → List OrderStatus
statuses_for_bucket new = pending_approval ∷ approved ∷ routed_to_transport ∷ pending_payment ∷ []
statuses_for_bucket in_progress = assigned_to_driver ∷ loading ∷ in_transit ∷ unloading ∷ []
statuses_for_bucket completed = delivered ∷ []
statuses_for_bucket rejected_orders = rejected ∷ []
statuses_for_bucket cancelled_orders = cancelled ∷ []
statuses_for_bucket needs_attention = awaiting_routing ∷ []

-- `Object.keys(ORDER_STATUS_BUCKETS)`, and the values of the enum.
abbrev pub buckets : List OrderStatusBucket
buckets = new ∷ in_progress ∷ completed ∷ rejected_orders ∷ cancelled_orders ∷ needs_attention ∷ []

unfoldable pub bucket_for_status : OrderStatus → Option OrderStatusBucket
bucket_for_status status = find? (λ b. includes (statuses_for_bucket b) status) buckets

-- `FORCE_COMPLETABLE_STATUSES.includes(status)`.
unfoldable pub is_force_completable : OrderStatus → Bool
unfolding includes
is_force_completable = includes (loading ∷ in_transit ∷ unloading ∷ [])

-- The filter of one count: the bucket's statuses, created within the period.
unfoldable pub is_counted : ℕ → ℕ → OrderStatusBucket → Order → Bool
is_counted from to bucket o =
    includes (statuses_for_bucket bucket) o.status && (leb from o.created_at && leb o.created_at to)

unfoldable pub sum : List ℕ → ℕ
sum [] = 0
sum (n ∷ ns) = n + sum ns

-- `getPlatformSummary`: the six counts in the order of the buckets, and their total.
unfoldable pub get_platform_summary : ℕ → ℕ → List Order → List ℕ × ℕ
unfolding sum is_counted
get_platform_summary from to orders =
    let counts : List ℕ = map (λ b. count (is_counted from to b) orders) buckets in
    (counts, sum counts)
