-- ===== src/Payments.antt =====
-- src/modules/payments/payments.service.ts: the webhook of the payment gateways. `createHmac` and the decoding of a text of
-- hexadecimal digits are parameters. Notifications are left out.
pub mod Once
pub mod Confirmed
mod Tests
use ciro_fuel_backend.Prelude.{
  ℕ, ◌+◌, ◌≡◌, Bool, true, false, not, ◌&&◌, ◌||◌, ◌==◌, same_text, Option, none, some, List, [],
  ◌∷◌, ◌++◌, any, find_by_id, find_one_and_update, is_id, Result, ok, err, ◌>>=◌, if◌then◌else◌,
}
use ciro_fuel_backend.Order.{
  Order, OrderStatus, pending_payment, routed_to_transport, approved, super_admin, same_status,
  Text,
}
use ciro_fuel_backend.OrderState.{
  TransitionActor, TransitionOptions, SetField, unset_payment_deadline, unset_driver_id,
  TransitionError, Transitioned, transition, order_id,
}
use ciro_fuel_backend.Billing.{Rates}
use ciro_fuel_backend.Invoices.{Invoice, Books, InvoiceError, settle_invoice_for_order}

pub data PaymentGateway : Type 0 where
  sadad mada : PaymentGateway

pub data PaymentEventOutcome : Type 0 where
  confirmed duplicate out_of_sequence amount_mismatch invalid_signature : PaymentEventOutcome

-- `orderId` and `companyId` are absent where the source makes up an identifier.
pub record PaymentEvent : Type 0 where
  pub id : ℕ
  pub gateway_transaction_id : Text
  pub gateway : PaymentGateway
  pub order_id : Option ℕ
  pub company_id : Option ℕ
  pub client_id : Option ℕ
  pub amount : ℕ
  pub currency : ℕ
  pub outcome : PaymentEventOutcome

-- A validated body of a webhook. SAR is currency 0.
pub record PaymentWebhookDto : Type 0 where
  pub order_id : ℕ
  pub transaction_id : Text
  pub amount : ℕ
  pub currency : ℕ
  pub is_paid : Bool

-- `verifySignature`, with the hash of a body under a secret, and the bytes of a text of digits.
module _ (create_hmac : Text → Text → Text) (from_hex : Text → Text) where
  unfoldable pub verify_signature :
      (PaymentGateway → Option Text) → PaymentGateway → Text → Option Text → Bool
  verify_signature secrets gateway body none = false
  verify_signature secrets gateway body (some header) = elim (secrets gateway) [
    | none ↦ false
    | some secret ↦
        not (is_empty header)
        && (not (is_empty secret)
            && same_text (from_hex (create_hmac secret body)) (from_hex header))
  ]
    where
      is_empty : Text → Bool
      is_empty [] = true
      is_empty (c ∷ cs) = false

-- What the service reads and writes.
pub record PaymentState : Type 0 where
  pub books : Books
  pub events : List PaymentEvent

-- The answer to a webhook, or its exception.
pub data WebhookResult : Type 0 where
  unauthorized unknown_order : WebhookResult
  already_received : WebhookResult
  received : (accepted : Bool) → WebhookResult

abbrev pub event_id : PaymentEvent → ℕ
event_id e = e.id

abbrev pub names : Text → PaymentEvent → Bool
names transaction e = same_text e.gateway_transaction_id transaction

abbrev pub system_actor : TransitionActor
system_actor = record { actor_id = 0; actor_role = super_admin }

abbrev event_of :
    ℕ → PaymentGateway → PaymentWebhookDto → Option Order → PaymentEventOutcome → PaymentEvent
event_of id gateway dto none outcome = record {
  id = id;
  gateway_transaction_id = dto.transaction_id;
  gateway = gateway;
  order_id = some dto.order_id;
  company_id = none;
  client_id = none;
  amount = dto.amount;
  currency = dto.currency;
  outcome = outcome;
}
event_of id gateway dto (some o) outcome = record {
  id = id;
  gateway_transaction_id = dto.transaction_id;
  gateway = gateway;
  order_id = some o.id;
  company_id = some o.fuel_company_id;
  client_id = some o.client_id;
  amount = dto.amount;
  currency = dto.currency;
  outcome = outcome;
}

-- `create`, under the unique index on the transaction's identifier.
unfoldable pub create_event : PaymentEvent → List PaymentEvent → Option (List PaymentEvent)
create_event e events =
    if any (names e.gateway_transaction_id) events then none else some (events ++ e ∷ [])

-- `recordEvent`: an event that cannot be written is logged and forgotten.
unfoldable pub record_event : PaymentEvent → List PaymentEvent → List PaymentEvent
record_event e events = elim (create_event e events) [ none ↦ events | some events' ↦ events' ]

-- `markOutcome`.
unfoldable pub mark_outcome : ℕ → PaymentEventOutcome → List PaymentEvent → List PaymentEvent
mark_outcome id outcome [] = []
mark_outcome id outcome (e ∷ events) =
    let rest = mark_outcome id outcome events in
    if e.id == id then record e { outcome = outcome } ∷ events else e ∷ rest

-- The transaction that settles the invoice and moves the order on.
unfoldable pub confirm_order : Rates → ℕ → ℕ → ℕ → Text → ℕ → Books → Result (Unit {0}) Books
confirm_order rates movement event order transaction now books =
    elim (settle_invoice_for_order none rates movement order (some transaction) now books) [
      | err e ↦ err tt
      | ok settled ↦
          elim (transition order pending_payment routed_to_transport system_actor
            (record {
              manual_override = false;
              override_reason = none;
              extra_set = SetField.payment_confirmation_id event ∷ [];
              extra_unset = unset_payment_deadline ∷ [];
            })
            now settled.1.orders) [
              | err e ↦ err tt
              | ok moved ↦ ok (record settled.1 { orders = moved.orders })
            ]
    ]

-- One delivery of a webhook: its bytes, their signature and what the body says, its time, the new
-- identifiers of the event and of the cashback's movement, and whether the deadline's job is dropped
-- and the client notified without an exception, once a payment is booked.
pub record Delivery : Type 0 where
  pub gateway : PaymentGateway
  pub dto : PaymentWebhookDto
  pub raw_body : Text
  pub signature : Option Text
  pub now : ℕ
  pub event : ℕ
  pub movement : ℕ
  pub is_announced : Bool

-- The hash, the decoding of digits, and the secrets that are configured.
pub record Signing : Type 0 where
  pub create_hmac : Text → Text → Text
  pub from_hex : Text → Text
  pub secrets : PaymentGateway → Option Text

unfoldable pub is_signed : Signing → Delivery → Bool
is_signed signing d =
    verify_signature signing.create_hmac signing.from_hex signing.secrets d.gateway d.raw_body
      d.signature

-- `dto.amount !== order.finalPrice || dto.currency !== 'SAR'`.
unfoldable pub is_mismatch : PaymentWebhookDto → Order → Bool
is_mismatch dto o = not (is_id o.final_price dto.amount) || not (dto.currency == 0)

-- `handleWebhook` from the event on, which has been written.
unfoldable pub apply_payment :
    Rates → Delivery → Order → PaymentState → WebhookResult × PaymentState
apply_payment rates d o s =
    if not d.dto.is_paid
    then (received false, record s { events = mark_outcome d.event out_of_sequence s.events })
    else if is_mismatch d.dto o
    then (received false, record s { events = mark_outcome d.event amount_mismatch s.events })
    else elim (confirm_order rates d.movement d.event o.id d.dto.transaction_id d.now s.books) [
      | err e ↦
          (received false, record s { events = mark_outcome d.event out_of_sequence s.events })
      | ok books ↦ if d.is_announced then (received true, record s { books = books }) else (
        received false,
        record s { books = books; events = mark_outcome d.event out_of_sequence s.events },
      )
    ]

unfoldable pub handle_webhook :
    Signing → Rates → Delivery → PaymentState → WebhookResult × PaymentState
handle_webhook signing rates d s =
    if not (is_signed signing d)
    then (
      unauthorized,
      record s {
        events = record_event (event_of d.event d.gateway d.dto none invalid_signature) s.events;
      },
    )
    else elim (find_by_id order_id d.dto.order_id s.books.orders) [
      | none ↦ (unknown_order, s)
      | some o ↦
          elim (create_event (event_of d.event d.gateway d.dto (some o) confirmed) s.events) [
            | none ↦ (already_received, s)
            | some events ↦ apply_payment rates d o (record s { events = events })
          ]
    ]
