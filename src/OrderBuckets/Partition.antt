-- ===== src/OrderBuckets/Partition.antt =====
-- The buckets partition the statuses, so the operator's six counts add up to the orders raised.
use ciro_fuel_backend.Prelude.{
  ℕ, ◌+◌, ◌≡◌, ◌↔◌, refl, Bool, true, ◌&&◌, some, List, [], ◌∷◌, count, leb, arith, if◌then◌else◌,
}
use ciro_fuel_backend.Order.{OrderStatus, Order, same_status, delivered}
use ciro_fuel_backend.OrderState.Step.{is_legal}
use ciro_fuel_backend.OrderState.{find_rule}
use ciro_fuel_backend.OrderBuckets.{
  OrderStatusBucket, new, in_progress, completed, rejected_orders, cancelled_orders,
  needs_attention, includes, statuses_for_bucket, bucket_for_status, is_force_completable,
  is_counted, get_platform_summary,
}

-- A status is listed under a bucket exactly if that is the bucket that the lookup gives.
pub includes_iff_bucket :
    (b : OrderStatusBucket) (s : OrderStatus)
    → (includes (statuses_for_bucket b) s ≡ true) ↔ (bucket_for_status s ≡ some b)
unfolding includes statuses_for_bucket bucket_for_status same_status
includes_iff_bucket b s = ground arith

abbrev one_if : Bool → ℕ
one_if b = if b then 1 else 0

abbrev counts_in : OrderStatusBucket → OrderStatus → Bool → ℕ
counts_in b s p = one_if (includes (statuses_for_bucket b) s && p)

-- One order is counted under one bucket.
counted_once :
    (s : OrderStatus) (p : Bool)
    → counts_in new s p
        + (counts_in in_progress s p
            + (counts_in completed s p
                + (counts_in rejected_orders s p
                    + (counts_in cancelled_orders s p + (counts_in needs_attention s p + 0)))))
      ≡ one_if p
unfolding includes statuses_for_bucket same_status
counted_once s p = ground arith

unfoldable pub in_period : ℕ → ℕ → Order → Bool
in_period from to o = leb from o.created_at && leb o.created_at to

-- The summary's total, the sum of its six counts, is the number of orders created in the period.
pub platform_summary_total :
    (from to : ℕ) (orders : List Order)
    → (get_platform_summary from to orders).1 ≡ count (in_period from to) orders
unfolding get_platform_summary is_counted in_period
platform_summary_total from to [] = refl
platform_summary_total from to (o ∷ orders) = omega (
  arith,
  counted_once o.status (leb from o.created_at && leb o.created_at to),
  platform_summary_total from to orders,
)

-- Completion by force is open exactly from the statuses that have an edge to `delivered`, a manual
-- override given.
pub force_completable_iff :
    (s : OrderStatus) → (is_force_completable s ≡ true) ↔ (is_legal s delivered true ≡ true)
unfolding is_force_completable is_legal find_rule same_status
force_completable_iff s = ground arith
