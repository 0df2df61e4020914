-- ===== src/Lib.antt =====
-- Ciro, the backend of a fuel delivery platform: fuel companies sell to clients, transport companies
-- deliver, and an operator runs the platform. The development models the services that keep its
-- books and its orders.
--
-- The parts and their files, each named after the part:
--   Prelude: numbers, integers, lists, errors as values, and a collection of documents with
--     `findById` and `findOneAndUpdate`.
--   Money: src/common/constants/money.constants.ts and src/common/pricing/derive-price-breakdown.ts.
--   Order: src/modules/orders/schemas/order.schema.ts and the enums that it names.
--   OrderState: src/modules/orders/services/order-state.service.ts. `transition` is the method of
--     that name, on the collection of orders; `run` makes any requests one after another.
--   OrderBuckets: src/common/constants/order-status-buckets.ts and force-completable-statuses.ts, with
--     `getPlatformSummary` of src/modules/orders/orders.service.ts.
--   Companies: what the other services read of src/modules/companies/companies.service.ts.
--   Pricing: src/modules/orders/services/pricing.service.ts, which prices by Money at the rates of
--     Companies.
--   LitreBalances: src/modules/litre-balances/litre-balances.service.ts, a client's balance of litres
--     with a company, one operation to a method.
--   PlatformAccount: src/modules/platform-account/platform-account.service.ts, the ledger of the
--     platform with the companies.
--   FuelExchange: src/modules/fuel-exchange/fuel-exchange.service.ts, the market of offers between
--     fuel companies, under the read scope of src/common/plugins/party-set-scope.plugin.ts.
--   CardUid: src/common/utils/card-uid.util.ts, with `String.prototype.trim` as a parameter.
--   Pagination: src/common/pagination/cursor.util.ts, the filter that a page starts from.
--   Billing: src/modules/billing/billing.service.ts, the terms of commission and cashback, what they
--     accrue on the ledger of PlatformAccount, and the ceiling of what a company may owe.
--   Invoices: src/modules/invoices/invoices.service.ts, the invoices of orders with the credit limit
--     of a client. `Books` are the invoices, the orders and the ledger that one transaction writes.
--   Routing: src/modules/dispatch/services/routing.service.ts and
--     src/modules/orders/services/transport-pricing.service.ts, which choose a transporter, price
--     the haul, move the order by OrderState and bill it by Invoices.
--   Payments: src/modules/payments/payments.service.ts, the webhook of a gateway, which settles by
--     Invoices and moves the order by OrderState.
--   Dispatch: src/modules/dispatch/services/dispatch.service.ts, the booking of a driver, a truck and
--     a tank, with `completeDelivery`, `forceComplete`, the release and the cancelled booking of
--     src/modules/orders/orders.service.ts, and with
--     src/modules/payments/queues/payment-timeout.processor.ts. A `Fleet` is what they write.
--   Orders: the other operations of src/modules/orders/orders.service.ts, and `reject` of
--     src/modules/orders/orders.controller.ts, over OrderState, Dispatch, Invoices and LitreBalances.
--   Isolation: src/common/plugins/multi-party-scope.plugin.ts and tenant-scope.plugin.ts.
--   SchedulerLease: src/common/scheduler/scheduler-lease.service.ts, as steps of its callers.
--   LoginCodes: src/modules/auth/services/login-code.service.ts and login-abuse.service.ts, on the
--     check of a code of DeliveryCodes.
--   DeliveryCodes: src/modules/orders/services/otp.service.ts and
--     src/common/otp/otp-primitives.service.ts.
--
-- How the code is modelled. A state is the documents that a service reads and writes; a method is a
-- function of it, with the time, the acting user and the new identifiers as arguments, and it
-- returns its result with the new state, or the exception. A transaction that throws leaves the old
-- state. Each conditional update is one step, and any sequence of requests is a list of them; where
-- a method reads first and writes later, what other requests do in between is an argument. Amounts
-- are whole numbers: halalas, millilitres, SAR 0.0001 for a price of a litre and 0.01 % for a rate,
-- in exact arithmetic where the source computes in doubles. The five attempts of a drawdown are its
-- fuel, as in the source. `Buffer` and `JSON` are a parameter of Pricing, with the law that a token
-- is read as it was written. The distance to the nearest warehouse that supplies a grade, the HMAC
-- of a webhook, the hash of a delivery code and the commands of Redis are parameters too, those of
-- Redis with what is documented of them. Distances are in millimetres. The calls of SchedulerLease
-- interleave as steps of a relation, in which a call may stand still for any time.
--
-- The plugins narrow what a query reads to the acting user's documents. Where a property depends on
-- it, the acting company or a test of what is seen is an argument (the ledger, the invoices, the
-- offers); the collection of orders stands for the orders that the acting user sees. SchedulerLease
-- models the enabled lease: with `scheduler.leaseEnabled` off the work runs without it.
--
-- Not modelled: logging, sockets, notifications beyond whom they reach, validation of requests by
-- decorators, the listings, and the services for sessions and passwords, stop detection, users,
-- companies' registration, announcements, support and ratings.
pub mod Prelude
pub mod Money
pub mod Order
pub mod OrderState
pub mod OrderBuckets
pub mod Companies
pub mod Pricing
pub mod LitreBalances
pub mod PlatformAccount
pub mod FuelExchange
pub mod CardUid
pub mod Pagination
pub mod Billing
pub mod Invoices
pub mod Routing
pub mod Payments
pub mod Dispatch
pub mod SchedulerLease
pub mod DeliveryCodes
pub mod Orders
pub mod Isolation
pub mod LoginCodes
