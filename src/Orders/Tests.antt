-- ===== src/Orders/Tests.antt =====
-- The operations of src/modules/orders/orders.service.ts on a deferred order that is assigned to
-- driver 5, truck 6 and tank 8, has invoice 40, and drew 2 litres of the client's 10.
use ciro_fuel_backend.Prelude.{◌≡◌, refl, true, false, none, some, [], ◌∷◌, Result, ok, err}
use ciro_fuel_backend.Prelude.Int.{pos, negsuc}
use ciro_fuel_backend.Order.{
  Order, diesel, deferred, transport_company_admin, fuel_company_admin, assigned_to_driver,
  pending_approval, cancelled, same_status, same_fuel,
}
use ciro_fuel_backend.OrderState.{
  TransitionActor, SetField, transitions, find_rule, transition, write_transition, apply_transition,
  set_fields, set_field, unset_fields, history_entry,
}
use ciro_fuel_backend.PlatformAccount.{reverse_movements_for_invoice, reverse_originals}
use ciro_fuel_backend.LitreBalances.{
  LitreBalance, Stamp, order_drawdown, return_drawdown, DrawdownResult, drawdown, drawdown_loop,
  draw_if_unchanged, litres_to_draw, round_litres, get_balance_litres,
}
use ciro_fuel_backend.Billing.{reverse_accruals_for_invoice}
use ciro_fuel_backend.Invoices.{Invoice, issued, void, void_invoice}
use ciro_fuel_backend.Dispatch.{
  options_of, cancel_booking, Fleet, release_one, release_driver_if_assigned, free_driver,
  free_truck, free_tank, book_truck, book_tank, is_free_truck, is_free_tank, hold_truck, hold_tank,
}
use ciro_fuel_backend.Orders.{
  Platform, cancel, void_if_issued, reassign_vehicle, OrdersError, create_with_drawdown,
}
use ciro_fuel_backend.Orders.Create.{litres_come_back}
use ciro_fuel_backend.Orders.Cancel.{IsCancelled, cancel-IsCancelled}
use ciro_fuel_backend.Orders.Vehicle.{IsReassigned, reassign_vehicle-IsReassigned}

abbrev assigned_order : Order
assigned_order = record {
  id = 7;
  fuel_company_id = 1;
  transport_company_id = some 3;
  client_id = 2;
  fuel_type = diesel;
  quantity_liters = 5000000;
  price_breakdown = none;
  status = assigned_to_driver;
  estimated_price = 0;
  final_price = some 6000;
  approved_by = none;
  payment_method = deferred;
  invoice_id = some 40;
  driver_id = some 5;
  truck_id = some 6;
  tank_id = some 8;
  payment_deadline = none;
  payment_timeout_count = 0;
  payment_confirmation_id = none;
  status_history = [];
  cancelled_by = none;
  cancellation_reason = none;
  rejected_by = none;
  rejection_reason = none;
  delivered_at = none;
  loading_confirmed_at = none;
  created_at = 0;
}

abbrev bill : Invoice
bill = record {
  id = 40;
  order_id = 7;
  fuel_company_id = 1;
  client_id = 2;
  transport_company_id = some 3;
  amount = 6000;
  price_breakdown = none;
  method = deferred;
  state = issued;
  payer_role = transport_company_admin;
  settled_at = none;
  payment_reference = none;
}

abbrev fleet : Fleet
fleet = record {
  drivers =
      record {
        id = 5;
        is_active = true;
        is_available = false;
        is_online = true;
        active_order_id = some 7;
      }
      ∷ [];
  trucks =
      record { id = 6; is_active = true; active_order_id = some 7 }
      ∷ record { id = 16; is_active = true; active_order_id = none }
      ∷ [];
  tanks =
      record {
        id = 8;
        is_active = true;
        max_capacity_liters = 9000000;
        fuel_types = diesel ∷ [];
        active_order_id = some 7;
      }
      ∷ [];
  orders = assigned_order ∷ [];
}

abbrev drawn : LitreBalance
drawn = record {
  balance_litres = pos 8000;
  movements =
      record {
        id = 60;
        kind = order_drawdown;
        litres = negsuc 1999;
        order_id = some 7;
        reason = none;
        actor_id = 2;
        at = 100;
      }
      ∷ [];
  reconciled_order_ids = [];
}

abbrev platform : Platform
platform = record { fleet = fleet; invoices = bill ∷ []; ledger = []; balance = some drawn }

abbrev admin : TransitionActor
admin = record { actor_id = 11; actor_role = fuel_company_admin }

abbrev stamp : Stamp
stamp = record { movement_id = 90; actor_id = 11; now = 500 }

abbrev ended : Platform
ended = record {
  fleet = record {
    drivers =
        record {
          id = 5;
          is_active = true;
          is_available = true;
          is_online = true;
          active_order_id = none;
        }
        ∷ [];
    trucks =
        record { id = 6; is_active = true; active_order_id = none }
        ∷ record { id = 16; is_active = true; active_order_id = none }
        ∷ [];
    tanks =
        record {
          id = 8;
          is_active = true;
          max_capacity_liters = 9000000;
          fuel_types = diesel ∷ [];
          active_order_id = none;
        }
        ∷ [];
    orders =
        apply_transition assigned_to_driver cancelled admin
          (options_of (SetField.cancelled_by 11 ∷ []) []) 500 assigned_order
        ∷ [];
  };
  invoices = record bill { state = void } ∷ [];
  ledger = [];
  balance = return_drawdown 7 stamp (some drawn);
}

goes_through :
    cancel (some 1) 80 stamp assigned_order assigned_to_driver admin none 500 platform ≡ ok ended
unfolding cancel cancel_booking void_if_issued void_invoice reverse_accruals_for_invoice release_one
    release_driver_if_assigned free_driver free_truck free_tank return_drawdown transition
    write_transition find_rule transitions apply_transition set_fields set_field unset_fields
    history_entry same_status reverse_movements_for_invoice reverse_originals
goes_through = refl

cancel-IsCancelled_example : IsCancelled stamp assigned_order ended
cancel-IsCancelled_example =
    cancel-IsCancelled (some 1) 80 stamp stamp assigned_order assigned_to_driver admin none 500
      platform ended goes_through

abbrev exchanged : Fleet
exchanged = record fleet {
  trucks =
      record { id = 6; is_active = true; active_order_id = none }
      ∷ record { id = 16; is_active = true; active_order_id = some 7 }
      ∷ [];
  orders = record assigned_order { truck_id = some 16 } ∷ [];
}

is_exchanged : reassign_vehicle assigned_order 16 8 fleet ≡ ok exchanged
unfolding reassign_vehicle release_one free_truck free_tank book_truck book_tank is_free_truck
    is_free_tank hold_truck hold_tank same_status same_fuel
is_exchanged = refl

reassign_vehicle-IsReassigned_example :
    IsReassigned assigned_order assigned_order 16 8 fleet exchanged
reassign_vehicle-IsReassigned_example =
    reassign_vehicle-IsReassigned assigned_order assigned_order 16 8 fleet exchanged refl
      is_exchanged

abbrev placed_order : Order
placed_order = record assigned_order {
  status = pending_approval;
  invoice_id = none;
  driver_id = none;
  truck_id = none;
  tank_id = none;
}

abbrev full : LitreBalance
full = record { balance_litres = pos 10000; movements = []; reconciled_order_ids = [] }

abbrev before : Platform
before = record platform {
  fleet = record fleet { orders = [] };
  invoices = [];
  balance = some full;
}

abbrev made_or : Result OrdersError (DrawdownResult × Platform) → DrawdownResult × Platform
made_or (ok r) = r
made_or (err e) = (record { litres_drawn = pos 0; balance_remaining = pos 0 }, before)

abbrev made : DrawdownResult × Platform
made = made_or (create_with_drawdown (λ _ c. c) placed_order stamp before)

abbrev ended_or : Result OrdersError Platform → Platform
ended_or (ok p) = p
ended_or (err e) = before

abbrev called_off : Platform
called_off = ended_or (cancel (some 1) 80 stamp placed_order pending_approval admin none 600 made.1)

litres_come_back_example : get_balance_litres called_off.balance ≡ pos 10000
unfolding create_with_drawdown drawdown drawdown_loop draw_if_unchanged litres_to_draw round_litres
    cancel cancel_booking void_if_issued transition write_transition find_rule transitions
    same_status
litres_come_back_example =
    litres_come_back (some 1) 80 stamp stamp placed_order placed_order pending_approval admin none
      600 before made.1 called_off made.1 full made.0 refl refl refl refl refl refl refl
