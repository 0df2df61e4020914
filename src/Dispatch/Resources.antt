-- ===== src/Dispatch/Resources.antt =====
-- src/modules/users/schemas/user.schema.ts, trucks and tanks: what the booking reads of a driver, a
-- truck and a tank, and whether a driver can be picked. A quantity is in millilitres.
use ciro_fuel_backend.Prelude.{
  ℕ, Bool, true, false, not, ◌&&◌, ◌||◌, Option, none, some, List, is_some, is_id, if◌then◌else◌,
  find_one_and_update,
}
use ciro_fuel_backend.Order.{Order, FuelType}

-- `isAvailable` has the default true, and `isOnline` the default false. A user with another role
-- than DRIVER is not one of these.
pub record Driver : Type 0 where
  pub id : ℕ
  pub is_active : Bool
  pub is_available : Bool
  pub is_online : Bool
  pub active_order_id : Option ℕ

pub record Truck : Type 0 where
  pub id : ℕ
  pub is_active : Bool
  pub active_order_id : Option ℕ

pub record Tank : Type 0 where
  pub id : ℕ
  pub is_active : Bool
  pub max_capacity_liters : ℕ
  pub fuel_types : List FuelType
  pub active_order_id : Option ℕ

-- What the operations write: the users, the trucks, the tanks and the orders.
pub record Fleet : Type 0 where
  pub drivers : List Driver
  pub trucks : List Truck
  pub tanks : List Tank
  pub orders : List Order

pub data DriverEligibility : Type 0 where
  eligible busy offline inactive : DriverEligibility

abbrev pub driver_id : Driver → ℕ
driver_id d = d.id

abbrev pub truck_id : Truck → ℕ
truck_id t = t.id

abbrev pub tank_id : Tank → ℕ
tank_id t = t.id

unfoldable pub classify_eligibility : Driver → DriverEligibility
classify_eligibility d =
    if not d.is_active
    then inactive
    else if not d.is_available || is_some d.active_order_id
    then busy
    else if not d.is_online
    then offline
    else eligible

abbrev pub is_offline : DriverEligibility → Bool
is_offline eligible = false
is_offline busy = false
is_offline offline = true
is_offline inactive = false

-- The conditions of the three updates.
unfoldable pub is_free_driver : Driver → Bool
is_free_driver d = d.is_active && (d.is_available && not (is_some d.active_order_id))

unfoldable pub is_free_truck : Truck → Bool
is_free_truck t = t.is_active && not (is_some t.active_order_id)

unfoldable pub is_free_tank : Tank → Bool
is_free_tank t = t.is_active && not (is_some t.active_order_id)

unfoldable pub hold_driver : ℕ → Driver → Driver
hold_driver order d = record d { is_available = false; active_order_id = some order }

unfoldable pub hold_truck : ℕ → Truck → Truck
hold_truck order t = record t { active_order_id = some order }

unfoldable pub hold_tank : ℕ → Tank → Tank
hold_tank order t = record t { active_order_id = some order }

unfoldable pub free_driver : Driver → Driver
free_driver d = record d { is_available = true; active_order_id = none }

unfoldable pub free_truck : Truck → Truck
free_truck t = record t { active_order_id = none }

unfoldable pub free_tank : Tank → Tank
free_tank t = record t { active_order_id = none }

abbrev pub holds : Option ℕ → ℕ → Bool
holds held order = is_id held order

-- `updateOne({ _id, <condition> }, <update>)`, where the order names a document.
unfoldable pub release_one {ℓ} :
    {A : Type ℓ} → (A → ℕ) → (A → Bool) → (A → A) → Option ℕ → List A → List A
release_one key held free none xs = xs
release_one key held free (some id) xs = elim (find_one_and_update key id held free xs) [
  | none ↦ xs
  | some released ↦ released.1
]
