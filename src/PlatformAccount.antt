-- ===== src/PlatformAccount.antt =====
-- src/modules/platform-account/platform-account.service.ts and its schema: a company's ledger with
-- the platform. A ledger is the collection of every company's movements, in the order of their
-- creation; an amount is in halalas. What pages and renders the list is left out.
pub mod Balances
pub mod Payouts
pub mod Payments
pub mod Reversals
mod Tests
use ciro_fuel_backend.Prelude.{
  ℕ, ◌+◌, ◌≡◌, Bool, true, false, not, ◌&&◌, ◌||◌, Option, none, some, List, [], ◌∷◌, ◌++◌, any,
  filter, find_by_id, replace, find_one_and_update, is_id, is_some, get_or, ◌==◌, same_text, Result,
  ok, err, ◌>>=◌, ◌>>◌, throw_if, if◌then◌else◌,
}
use ciro_fuel_backend.Prelude.Int.{ℤ, pos, ◌+ℤ◌, ◌-ℤ◌, neg, ltb_ℤ}
use ciro_fuel_backend.Order.{Text}

pub data AccountMovementKind : Type 0 where
  commission_charged cashback_credited payment_recorded cashback_paid_out : AccountMovementKind

pub data AccountMovementState : Type 0 where
  recorded confirmed : AccountMovementState

pub data AccountMovementDirection : Type 0 where
  inbound outbound : AccountMovementDirection

-- `directionForKind`.
unfoldable pub direction_for_kind : AccountMovementKind → AccountMovementDirection
direction_for_kind commission_charged = outbound
direction_for_kind cashback_credited = inbound
direction_for_kind payment_recorded = outbound
direction_for_kind cashback_paid_out = inbound

-- `method`, `currency` and `documentFileId` are numbers of their values.
pub record AccountMovement : Type 0 where
  pub id : ℕ
  pub company_id : ℕ
  pub kind : AccountMovementKind
  pub amount : ℕ
  pub currency : ℕ
  pub source_invoice_id : Option ℕ
  pub applied_rate : Option ℕ
  pub applied_basis : Option ℕ
  pub method : Option ℕ
  pub reference : Option Text
  pub document_file_id : Option ℕ
  pub state : AccountMovementState
  pub confirmed_by : Option ℕ
  pub confirmed_at : Option ℕ
  pub reversal_of_id : Option ℕ

pub data AccountError : Type 0 where
  payment_evidence_required cashback_payout_exceeds_balance : AccountError
  cashback_payout_duplicate_reference payment_already_confirmed duplicate_key : AccountError

abbrev pub movement_id : AccountMovement → ℕ
movement_id m = m.id

abbrev kind_code : AccountMovementKind → ℕ
kind_code commission_charged = 0
kind_code cashback_credited = 1
kind_code payment_recorded = 2
kind_code cashback_paid_out = 3

abbrev pub same_kind : AccountMovementKind → AccountMovementKind → Bool
same_kind a b = kind_code a == kind_code b

abbrev pub is_confirmed : AccountMovementState → Bool
is_confirmed recorded = false
is_confirmed confirmed = true

-- The partial unique index on `companyId`, `kind` and `reference`: what it says of two rows.
abbrev same_reference : Option Text → Option Text → Bool
same_reference (some r) (some q) = same_text r q
same_reference _ _ = false

abbrev pub is_payout : AccountMovementKind → Bool
is_payout cashback_paid_out = true
is_payout _ = false

unfoldable pub collides : AccountMovement → AccountMovement → Bool
collides m n =
    (is_payout m.kind && is_payout n.kind)
    && ((m.company_id == n.company_id) && same_reference m.reference n.reference)

-- A row that goes into the collection, with the index's check.
unfoldable pub insert :
    AccountMovement → List AccountMovement → Result AccountError (List AccountMovement)
insert m ledger = if any (collides m) ledger then err duplicate_key else ok (ledger ++ m ∷ [])

-- `createMovement`. `acting` is the tenant of the request, which the tenant plugin's `save` hook
-- puts in place of the row's own company, and none for the operator, whom it passes over. The
-- update that follows puts the beneficiary back, under the index's check again; the row that is
-- returned is the one from before the update.
unfoldable pub create_movement :
    Option ℕ
    → AccountMovement
    → List AccountMovement
    → Result AccountError (AccountMovement × List AccountMovement)
unfolding insert
create_movement acting m ledger = do
  _ ← insert (record m { company_id = get_or acting m.company_id }) ledger
  ledger' ← insert m ledger
  ok (record m { company_id = get_or acting m.company_id }, ledger')

-- An empty text is falsy.
abbrev is_given : Option Text → Bool
is_given none = false
is_given (some []) = false
is_given (some (c ∷ cs)) = true

unfoldable pub record_payment :
    Option ℕ
    → ℕ
    → ℕ
    → ℕ
    → ℕ
    → Option Text
    → Option ℕ
    → ℕ
    → List AccountMovement
    → Result AccountError (AccountMovement × List AccountMovement)
record_payment acting id company_id amount method reference document_file_id currency ledger = do
  throw_if (not (is_given reference) && not (is_some document_file_id)) payment_evidence_required
  create_movement acting
      (record {
        id = id;
        company_id = company_id;
        kind = payment_recorded;
        amount = amount;
        currency = currency;
        source_invoice_id = none;
        applied_rate = none;
        applied_basis = none;
        method = some method;
        reference = reference;
        document_file_id = document_file_id;
        state = recorded;
        confirmed_by = none;
        confirmed_at = none;
        reversal_of_id = none;
      })
      ledger

abbrev pub is_in_balance : ℕ → AccountMovementKind → AccountMovement → Bool
is_in_balance company_id kind m =
    (m.company_id == company_id) && (same_kind m.kind kind && is_confirmed m.state)

-- A reversal counts against its kind.
abbrev pub signed_amount : AccountMovement → ℤ
signed_amount m = if is_some m.reversal_of_id then neg (pos m.amount) else pos m.amount

-- `getConfirmedBalance`, by the operator or by the company itself: the tenant plugin, which puts the
-- acting company in place of the one that is asked for, changes nothing then.
unfoldable pub get_confirmed_balance : ℕ → AccountMovementKind → List AccountMovement → ℤ
get_confirmed_balance company_id kind [] = pos 0
get_confirmed_balance company_id kind (m ∷ ms) =
    let rest : ℤ = get_confirmed_balance company_id kind ms in
    if is_in_balance company_id kind m then signed_amount m +ℤ rest else rest

unfoldable pub get_cashback_owed : ℕ → List AccountMovement → ℤ
get_cashback_owed company_id ledger =
    get_confirmed_balance company_id cashback_credited ledger
    -ℤ get_confirmed_balance company_id cashback_paid_out ledger

pub record PayoutInput : Type 0 where
  pub amount : ℕ
  pub method : ℕ
  pub reference : Text
  pub document_file_id : Option ℕ

-- The row of a payout: confirmed from the start.
unfoldable pub payout_movement : ℕ → ℕ → PayoutInput → ℕ → ℕ → ℕ → AccountMovement
payout_movement id company_id input currency confirmed_by now = record {
  id = id;
  company_id = company_id;
  kind = cashback_paid_out;
  amount = input.amount;
  currency = currency;
  source_invoice_id = none;
  applied_rate = none;
  applied_basis = none;
  method = some input.method;
  reference = some input.reference;
  document_file_id = input.document_file_id;
  state = confirmed;
  confirmed_by = some confirmed_by;
  confirmed_at = some now;
  reversal_of_id = none;
}

-- The `catch` of `recordCashbackPayout`.
abbrev pub translate_duplicate {ℓ} : {A : Type ℓ} → Result AccountError A → Result AccountError A
translate_duplicate (ok a) = ok a
translate_duplicate (err duplicate_key) = err cashback_payout_duplicate_reference
translate_duplicate (err payment_evidence_required) = err payment_evidence_required
translate_duplicate (err cashback_payout_exceeds_balance) = err cashback_payout_exceeds_balance
translate_duplicate (err cashback_payout_duplicate_reference) =
    err cashback_payout_duplicate_reference
translate_duplicate (err payment_already_confirmed) = err payment_already_confirmed

-- `recordCashbackPayout`: the operator acts, so no tenant takes the row's place.
unfoldable pub record_cashback_payout :
    ℕ
    → ℕ
    → PayoutInput
    → ℕ
    → ℕ
    → ℕ
    → List AccountMovement
    → Result AccountError (AccountMovement × List AccountMovement)
record_cashback_payout id company_id input currency confirmed_by now ledger = translate_duplicate (
    throw_if (ltb_ℤ (get_cashback_owed company_id ledger) (pos input.amount))
      cashback_payout_exceeds_balance
    >> create_movement none (payout_movement id company_id input currency confirmed_by now) ledger)

abbrev pub awaits_confirmation : AccountMovement → Bool
awaits_confirmation m = same_kind m.kind payment_recorded && not (is_confirmed m.state)

unfoldable pub confirm_payment :
    ℕ → ℕ → ℕ → List AccountMovement → Result AccountError (AccountMovement × List AccountMovement)
confirm_payment id confirmed_by now ledger =
    elim (find_one_and_update movement_id id awaits_confirmation
      (λ m. record m {
        state = confirmed;
        confirmed_by = some confirmed_by;
        confirmed_at = some now;
      })
      ledger) [ none ↦ err payment_already_confirmed | some result ↦ ok result ]

-- The query for the originals of an invoice.
abbrev pub is_original_of : ℕ → AccountMovement → Bool
is_original_of invoice_id m =
    is_id m.source_invoice_id invoice_id && (is_confirmed m.state && not (is_some m.reversal_of_id))

abbrev pub reverses : ℕ → AccountMovement → Bool
reverses id m = is_id m.reversal_of_id id

unfoldable pub reversal_of : ℕ → AccountMovement → AccountMovement
reversal_of id original = record {
  id = id;
  company_id = original.company_id;
  kind = original.kind;
  amount = original.amount;
  currency = original.currency;
  source_invoice_id = original.source_invoice_id;
  applied_rate = original.applied_rate;
  applied_basis = original.applied_basis;
  method = none;
  reference = none;
  document_file_id = none;
  state = confirmed;
  confirmed_by = none;
  confirmed_at = none;
  reversal_of_id = some original.id;
}

-- The loop of `reverseMovementsForInvoice` over the originals. The rows that were there before it,
-- `before`, as far as the acting company sees them, are read once for the reversals among them. A new row's `_id` is the next number.
unfoldable pub reverse_originals :
    Option ℕ
    → ℕ
    → List AccountMovement
    → List AccountMovement
    → List AccountMovement
    → Result AccountError (List AccountMovement)
reverse_originals acting next before [] ledger = ok ledger
reverse_originals acting next before (m ∷ ms) ledger = elim (any (reverses m.id) before) [
  | true ↦ reverse_originals acting next before ms ledger
  | false ↦ create_movement acting (reversal_of next m) ledger >>= λ created.
      reverse_originals acting (next + 1) before ms created.1
]

-- The rows that a query reads: the tenant plugin narrows it to the acting company, and passes over
-- the operator.
abbrev pub is_visible : Option ℕ → AccountMovement → Bool
is_visible none m = true
is_visible (some c) m = m.company_id == c

unfoldable pub reverse_movements_for_invoice :
    Option ℕ → ℕ → ℕ → List AccountMovement → Result AccountError (List AccountMovement)
reverse_movements_for_invoice acting next invoice_id ledger =
    let seen : List AccountMovement = filter (is_visible acting) ledger in
    reverse_originals acting next seen (filter (is_original_of invoice_id) seen) ledger
