-- ===== src/Payments/Once.antt =====
-- src/modules/payments/payments.service.ts: the unique index on the transaction's identifier, over
-- any deliveries of webhooks.
use ciro_fuel_backend.Prelude.{
  ℕ, ◌≡◌, ◌≢◌, ◌⊎◌, refl, ◌∙◌, Bool, true, false, ◌||◌, same_text_refl, Option, none, some, List,
  [], ◌∷◌, ◌++◌, any, any-append, find_by_id, arith, Bool-cases, Option-cases, inl, inr,
}
use ciro_fuel_backend.Order.{Order, Text}
use ciro_fuel_backend.OrderState.{order_id}
use ciro_fuel_backend.Billing.{Rates}
use ciro_fuel_backend.Payments.{
  PaymentEvent, PaymentEventOutcome, out_of_sequence, amount_mismatch, confirmed, invalid_signature,
  PaymentState, Delivery, Signing, is_signed, received, names, event_of, create_event, record_event,
  mark_outcome, apply_payment, handle_webhook,
}

-- Whether a transaction is on record.
abbrev pub is_recorded : Text → PaymentState → Bool
is_recorded transaction s = any (names transaction) s.events

mark_outcome-names :
    (t : Text) (id : ℕ) (outcome : PaymentEventOutcome) (l : List PaymentEvent)
    → any (names t) (mark_outcome id outcome l) ≡ any (names t) l
unfolding mark_outcome
mark_outcome-names t id outcome [] = refl
mark_outcome-names t id outcome (e ∷ l) = ground (arith, mark_outcome-names t id outcome l)

last_named :
    (t : Text) (l : List PaymentEvent) (e : PaymentEvent)
    → (any (names t) l || names t e) ≡ true
    → any (names t) (l ++ e ∷ []) ≡ true
last_named t l e h = any-append (names t) l (e ∷ []) ∙ ground (arith, h)

event_of-named :
    (d : Delivery) (o : Option Order) (outcome : PaymentEventOutcome)
    → (event_of d.event d.gateway d.dto o outcome).gateway_transaction_id ≡ d.dto.transaction_id
event_of-named d none outcome = refl
event_of-named d (some o) outcome = refl

apply_payment-recorded :
    (rates : Rates) (d : Delivery) (o : Order) (s : PaymentState) (t : Text)
    → is_recorded t (apply_payment rates d o s).1 ≡ is_recorded t s
unfolding apply_payment
apply_payment-recorded rates d o s t = ground (
  arith,
  mark_outcome-names t d.event out_of_sequence s.events,
  mark_outcome-names t d.event amount_mismatch s.events,
)

record_event-keeps :
    (t : Text) (e : PaymentEvent) (l : List PaymentEvent)
    → any (names t) l ≡ true
    → any (names t) (record_event e l) ≡ true
unfolding record_event create_event
record_event-keeps t e l h = elim (Bool-cases (any (names e.gateway_transaction_id) l)) [
  | inr f ↦ rw (record_event, create_event, f) (last_named t l e (ground (arith, h)))
  | inl f ↦ rw (record_event, create_event, f) h
]

record_event-recorded :
    (e : PaymentEvent) (l : List PaymentEvent)
    → any (names e.gateway_transaction_id) (record_event e l) ≡ true
unfolding record_event create_event
record_event-recorded e l = elim (Bool-cases (any (names e.gateway_transaction_id) l)) [
  | inr f ↦
      rw (record_event, create_event, f)
        (last_named e.gateway_transaction_id l e
          (ground (arith, same_text_refl e.gateway_transaction_id)))
  | inl f ↦ rw (record_event, create_event, f) f
]

module _ (signing : Signing) (rates : Rates) where
  handle_webhook-keeps :
      (d : Delivery) (s : PaymentState) (t : Text)
      → is_recorded t s ≡ true
      → is_recorded t (handle_webhook signing rates d s).1 ≡ true
  unfolding handle_webhook create_event
  handle_webhook-keeps d s t h = elim (Bool-cases (is_signed signing d)) [
    | inr e ↦ rw (handle_webhook, e) (record_event-keeps t _ s.events h)
    | inl e ↦ elim (Option-cases (find_by_id order_id d.dto.order_id s.books.orders)) [
      | inl n ↦ rw (handle_webhook, e, n) h
      | inr (o, n) ↦ elim (Bool-cases (any (names d.dto.transaction_id) s.events)) [
        | inl f ↦ rw (handle_webhook, e, n, create_event, f) h
        | inr f ↦
            rw (handle_webhook, e, n, create_event, f)
              (apply_payment-recorded rates d o _ t
                ∙ last_named t s.events (event_of d.event d.gateway d.dto (some o) confirmed)
                    (ground (arith, h)))
      ]
    ]
  ]

  -- An answer to a webhook that leaves its transaction on record.
  handle_webhook-records :
      (d : Delivery) (s : PaymentState)
      → ((is_signed signing d ≡ false) ⊎ ((handle_webhook signing rates d s).0 ≡ received true))
      → is_recorded d.dto.transaction_id (handle_webhook signing rates d s).1 ≡ true
  unfolding handle_webhook create_event
  handle_webhook-records d s h = elim (Bool-cases (is_signed signing d)) [
    | inr e ↦
        rw (handle_webhook, e)
          (record_event-recorded (event_of d.event d.gateway d.dto none invalid_signature) s.events)
    | inl e ↦ elim (Option-cases (find_by_id order_id d.dto.order_id s.books.orders)) [
      | inl n ↦ absurd (ground (arith, h, e, n))
      | inr (o, n) ↦ elim (Bool-cases (any (names d.dto.transaction_id) s.events)) [
        | inl f ↦ rw (handle_webhook, e, n, create_event, f) f
        | inr f ↦
            rw (handle_webhook, e, n, create_event, f)
              (apply_payment-recorded rates d o _ d.dto.transaction_id
                ∙ last_named d.dto.transaction_id s.events
                    (event_of d.event d.gateway d.dto (some o) confirmed)
                    (ground (arith, same_text_refl d.dto.transaction_id)))
      ]
    ]
  ]

  -- Deliveries one after another.
  unfoldable pub handle_all : List Delivery → PaymentState → PaymentState
  handle_all [] s = s
  handle_all (d ∷ ds) s = handle_all ds (handle_webhook signing rates d s).1

  handle_all-keeps :
      (ds : List Delivery) (s : PaymentState) (t : Text)
      → is_recorded t s ≡ true
      → is_recorded t (handle_all ds s) ≡ true
  unfolding handle_all
  handle_all-keeps [] s t h = h
  handle_all-keeps (d ∷ ds) s t h =
      handle_all-keeps ds (handle_webhook signing rates d s).1 t (handle_webhook-keeps d s t h)

  -- A transaction that is on record moves nothing any more.
  recorded_is_idle :
      (d : Delivery) (s : PaymentState)
      → is_recorded d.dto.transaction_id s ≡ true
      → ((handle_webhook signing rates d s).1.books ≡ s.books)
        × ((handle_webhook signing rates d s).0 ≢ received true)
  unfolding handle_webhook create_event
  recorded_is_idle d s h = elim (Bool-cases (is_signed signing d)) [
    | inr e ↦ (ground (arith, e), λ r. ground (arith, e, r))
    | inl e ↦ elim (Option-cases (find_by_id order_id d.dto.order_id s.books.orders)) [
      | inl n ↦ (ground (arith, e, n), λ r. ground (arith, e, n, r))
      | inr (o, n) ↦ (ground (arith, e, n, h), λ r. ground (arith, e, n, h, r))
    ]
  ]

  -- After a webhook has been accepted, and whatever webhooks come in between, no webhook under the
  -- same transaction is accepted, and none of them moves an order, an invoice or a balance.
  pub webhook_accepted_once :
      (d d' : Delivery) (between : List Delivery) (s : PaymentState)
      → (handle_webhook signing rates d s).0 ≡ received true
      → d'.dto.transaction_id ≡ d.dto.transaction_id
      → ((handle_webhook signing rates d'
            (handle_all between (handle_webhook signing rates d s).1)).1.books
          ≡ (handle_all between (handle_webhook signing rates d s).1).books)
        × ((handle_webhook signing rates d'
              (handle_all between (handle_webhook signing rates d s).1)).0
            ≢ received true)
  webhook_accepted_once d d' between s h same_transaction =
      recorded_is_idle d' (handle_all between (handle_webhook signing rates d s).1) (
        rw same_transaction (
          handle_all-keeps between (handle_webhook signing rates d s).1 d.dto.transaction_id
            (handle_webhook-records d s (inr h))))

  -- A webhook without a valid signature, which anyone can send, uses up the transaction that it
  -- names: every later webhook under it is refused or taken for a repetition, the signed one of the
  -- gateway too, and the order is not paid.
  pub forgery_blocks_payment :
      (d d' : Delivery) (between : List Delivery) (s : PaymentState)
      → is_signed signing d ≡ false
      → d'.dto.transaction_id ≡ d.dto.transaction_id
      → ((handle_webhook signing rates d'
            (handle_all between (handle_webhook signing rates d s).1)).1.books
          ≡ (handle_all between (handle_webhook signing rates d s).1).books)
        × ((handle_webhook signing rates d'
              (handle_all between (handle_webhook signing rates d s).1)).0
            ≢ received true)
  forgery_blocks_payment d d' between s h same_transaction =
      recorded_is_idle d' (handle_all between (handle_webhook signing rates d s).1) (
        rw same_transaction (
          handle_all-keeps between (handle_webhook signing rates d s).1 d.dto.transaction_id
            (handle_webhook-records d s (inl h))))
