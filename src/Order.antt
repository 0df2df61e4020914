-- ===== src/Order.antt =====
-- The order document: src/modules/orders/schemas/order.schema.ts, with the enums that it names.
-- An identifier is a number, a text a list of code units, a time a number of milliseconds.
-- The snapshots of names and addresses, which no rule reads, are left out.
use ciro_fuel_backend.Prelude.{ℕ, Bool, true, Option, List, ◌≡◌, ◌==◌, ==_refl, arith}
use ciro_fuel_backend.Money.{PriceBreakdown}

pub data OrderStatus : Type 0 where
  pending_approval approved awaiting_routing routed_to_transport : OrderStatus
  assigned_to_driver pending_payment loading in_transit : OrderStatus
  unloading delivered rejected cancelled : OrderStatus

pub data UserRole : Type 0 where
  super_admin fuel_company_admin transport_company_admin client driver : UserRole

pub data PaymentMethod : Type 0 where
  direct deferred credit : PaymentMethod

pub data FuelType : Type 0 where
  diesel petrol_91 petrol_95 kerosene : FuelType

abbrev pub Text : Type 0
Text = List ℕ

pub record StatusHistoryEntry : Type 0 where
  pub from : OrderStatus
  pub to : OrderStatus
  pub actor_id : ℕ
  pub actor_role : UserRole
  pub at : ℕ
  pub manual_override : Bool
  pub override_reason : Option Text

pub record Order : Type 0 where
  pub id : ℕ
  pub fuel_company_id : ℕ
  pub transport_company_id : Option ℕ
  pub client_id : ℕ
  pub fuel_type : FuelType
  pub quantity_liters : ℕ
  pub price_breakdown : Option PriceBreakdown
  pub status : OrderStatus
  pub estimated_price : ℕ
  pub final_price : Option ℕ
  pub approved_by : Option ℕ
  pub payment_method : PaymentMethod
  pub invoice_id : Option ℕ
  pub driver_id : Option ℕ
  pub truck_id : Option ℕ
  pub tank_id : Option ℕ
  pub payment_deadline : Option ℕ
  pub payment_timeout_count : ℕ
  pub payment_confirmation_id : Option ℕ
  pub status_history : List StatusHistoryEntry
  pub cancelled_by : Option ℕ
  pub cancellation_reason : Option Text
  pub rejected_by : Option ℕ
  pub rejection_reason : Option Text
  pub delivered_at : Option ℕ
  pub loading_confirmed_at : Option ℕ
  pub created_at : ℕ

-- `===` on the status, each status standing for its own position in the enum.
abbrev status_code : OrderStatus → ℕ
status_code pending_approval = 0
status_code approved = 1
status_code awaiting_routing = 2
status_code routed_to_transport = 3
status_code assigned_to_driver = 4
status_code pending_payment = 5
status_code loading = 6
status_code in_transit = 7
status_code unloading = 8
status_code delivered = 9
status_code rejected = 10
status_code cancelled = 11

unfoldable pub same_status : OrderStatus → OrderStatus → Bool
same_status a b = status_code a == status_code b

pub same_status-eq : (a b : OrderStatus) → same_status a b ≡ true → a ≡ b
unfolding same_status
same_status-eq a b h = ground arith

pub same_status_refl : (a : OrderStatus) → same_status a a ≡ true
unfolding same_status
same_status_refl a = ==_refl (status_code a)

abbrev fuel_code : FuelType → ℕ
fuel_code diesel = 0
fuel_code petrol_91 = 1
fuel_code petrol_95 = 2
fuel_code kerosene = 3

unfoldable pub same_fuel : FuelType → FuelType → Bool
same_fuel a b = fuel_code a == fuel_code b

pub same_fuel-eq : (a b : FuelType) → same_fuel a b ≡ true → a ≡ b
unfolding same_fuel
same_fuel-eq a b h = ground arith

pub same_fuel_refl : (a : FuelType) → same_fuel a a ≡ true
unfolding same_fuel
same_fuel_refl a = ==_refl (fuel_code a)
