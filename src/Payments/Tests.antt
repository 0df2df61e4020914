-- ===== src/Payments/Tests.antt =====
-- The webhooks of src/modules/payments/payments.service.ts at a concrete order of SAR 60: a forged
-- one, the genuine one, and its repetition.
use ciro_fuel_backend.Prelude.{
  ◌≡◌, ◌≢◌, refl, true, false, none, some, [], ◌∷◌, ok, find_by_id, find?, ◌++◌,
}
use ciro_fuel_backend.Order.{
  Order, diesel, direct, client, pending_payment, routed_to_transport, same_status, Text,
}
use ciro_fuel_backend.OrderState.{
  transitions, find_rule, transition, write_transition, apply_transition, set_fields, set_field,
  unset_fields, unset_field, history_entry, order_id,
}
use ciro_fuel_backend.Billing.{Rates, accrue_cashback, get_current_cashback_programme, current}
use ciro_fuel_backend.Invoices.{
  Invoice, Books, issued, settle_invoice_for_order, apply_settlement, is_issued, is_for,
}
use ciro_fuel_backend.Payments.{
  sadad, PaymentState, Delivery, Signing, is_signed, received, create_event, confirm_order,
  is_mismatch, apply_payment, handle_webhook, verify_signature,
}
use ciro_fuel_backend.Payments.Once.{handle_all, webhook_accepted_once, forgery_blocks_payment}
use ciro_fuel_backend.Payments.Confirmed.{webhook_accepted_paid}

abbrev waiting_order : Order
waiting_order = record {
  id = 7;
  fuel_company_id = 1;
  transport_company_id = none;
  client_id = 2;
  fuel_type = diesel;
  quantity_liters = 5000000;
  price_breakdown = none;
  status = pending_payment;
  estimated_price = 0;
  final_price = some 6000;
  approved_by = none;
  payment_method = direct;
  invoice_id = none;
  driver_id = none;
  truck_id = none;
  tank_id = none;
  payment_deadline = none;
  payment_timeout_count = 0;
  payment_confirmation_id = none;
  status_history = [];
  cancelled_by = none;
  cancellation_reason = none;
  rejected_by = none;
  rejection_reason = none;
  delivered_at = none;
  loading_confirmed_at = none;
  created_at = 0;
}

abbrev bill : Invoice
bill = record {
  id = 40;
  order_id = 7;
  fuel_company_id = 1;
  client_id = 2;
  transport_company_id = none;
  amount = 6000;
  price_breakdown = none;
  method = direct;
  state = issued;
  payer_role = client;
  settled_at = none;
  payment_reference = none;
}

abbrev rates : Rates
rates = record { terms = []; programmes = []; companies = []; default_commission_ceiling = 5000 }

abbrev start : PaymentState
start = record {
  books = record { invoices = bill ∷ []; orders = waiting_order ∷ []; ledger = [] };
  events = [];
}

abbrev genuine : Delivery
genuine = record {
  gateway = sadad;
  dto = record {
    order_id = 7;
    transaction_id = 84 ∷ 49 ∷ [];
    amount = 6000;
    currency = 0;
    is_paid = true;
  };
  raw_body = 55 ∷ 50 ∷ [];
  signature = some (55 ∷ 50 ∷ 9 ∷ []);
  now = 500;
  event = 60;
  movement = 80;
  is_announced = true;
}

-- A body is signed by the secret after it.
abbrev signing : Signing
signing = record {
  create_hmac = λ secret body. body ++ secret;
  from_hex = λ h. h;
  secrets = λ g. some (9 ∷ []);
}

abbrev forged : Delivery
forged = record genuine { signature = some (55 ∷ []); event = 59 }

accepted : (handle_webhook signing rates genuine start).0 ≡ received true
unfolding handle_webhook is_signed verify_signature apply_payment is_mismatch create_event
    confirm_order settle_invoice_for_order apply_settlement accrue_cashback
    get_current_cashback_programme current transition write_transition find_rule transitions
    apply_transition set_fields set_field unset_fields unset_field history_entry same_status
accepted = refl

webhook_accepted_once_example :
    ((handle_webhook signing rates genuine (
        handle_all signing rates
          (forged ∷ [])
          (handle_webhook signing rates genuine start).1)).1.books
      ≡ (handle_all signing rates
          (forged ∷ [])
          (handle_webhook signing rates genuine start).1).books)
    × ((handle_webhook signing rates genuine
          (handle_all signing rates (forged ∷ []) (handle_webhook signing rates genuine start).1)).0
        ≢ received true)
webhook_accepted_once_example =
    webhook_accepted_once signing rates genuine genuine (forged ∷ []) start accepted refl

forgery_blocks_payment_example :
    ((handle_webhook signing rates genuine
        (handle_all signing rates [] (handle_webhook signing rates forged start).1)).1.books
      ≡ (handle_all signing rates [] (handle_webhook signing rates forged start).1).books)
    × ((handle_webhook signing rates genuine
          (handle_all signing rates [] (handle_webhook signing rates forged start).1)).0
        ≢ received true)
unfolding is_signed verify_signature
forgery_blocks_payment_example =
    forgery_blocks_payment signing rates forged genuine [] start refl refl

webhook_accepted_paid_example :
    (o : Order) × (p : Order) × (i : Invoice) × (b : Books) × (is_signed signing genuine ≡ true)
    × (o.id ≡ 7)
    × (true ≡ true)
    × (find_by_id order_id o.id start.books.orders ≡ some o)
    × (o.final_price ≡ some 6000)
    × (genuine.dto.currency ≡ 0)
    × (o.status ≡ pending_payment)
    × (settle_invoice_for_order none rates 80 o.id (some (84 ∷ 49 ∷ [])) 500 start.books
        ≡ ok (i, b))
    × (is_issued i.state ≡ false)
    × (find? (is_for o.id) b.invoices ≡ some i)
    × ((handle_webhook signing rates genuine start).1.books.invoices ≡ b.invoices)
    × ((handle_webhook signing rates genuine start).1.books.ledger ≡ b.ledger)
    × (find_by_id order_id o.id (handle_webhook signing rates genuine start).1.books.orders
        ≡ some p)
    × (p.status ≡ routed_to_transport)
webhook_accepted_paid_example = webhook_accepted_paid signing rates genuine start accepted

-- A gateway whose secret is missing signs nothing.
unsigned_without_secret :
    (body : Text) → verify_signature (λ s b. b) (λ h. h) (λ g. none) sadad body (some body) ≡ false
unfolding verify_signature
unsigned_without_secret body = refl
