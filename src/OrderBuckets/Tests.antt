-- ===== src/OrderBuckets/Tests.antt =====
-- The groupings of src/common/constants/order-status-buckets.ts at concrete orders.
use ciro_fuel_backend.Prelude.{ℕ, none, List, [], ◌∷◌}
use ciro_fuel_backend.Order.{
  OrderStatus, Order, diesel, deferred, awaiting_routing, delivered, cancelled,
}

abbrev order_at : ℕ → OrderStatus → ℕ → Order
order_at i s t = record {
  id = i;
  fuel_company_id = 1;
  transport_company_id = none;
  client_id = 2;
  fuel_type = diesel;
  quantity_liters = 5000000;
  price_breakdown = none;
  status = s;
  estimated_price = 0;
  final_price = none;
  approved_by = none;
  payment_method = deferred;
  invoice_id = none;
  driver_id = none;
  truck_id = none;
  tank_id = none;
  payment_deadline = none;
  payment_timeout_count = 0;
  payment_confirmation_id = none;
  status_history = [];
  cancelled_by = none;
  cancellation_reason = none;
  rejected_by = none;
  rejection_reason = none;
  delivered_at = none;
  loading_confirmed_at = none;
  created_at = t;
}

abbrev three_orders : List Order
three_orders =
    order_at 1 delivered 10 ∷ order_at 2 awaiting_routing 20 ∷ order_at 3 cancelled 30 ∷ []
