-- ===== src/PlatformAccount/Payments.antt =====
-- A company's payment: recorded, then confirmed once by the operator.
use ciro_fuel_backend.Prelude.{
  ℕ, ◌≡◌, refl, sym, ap, ◌∙◌, true, false, Option, none, some, List, [], ◌∷◌, find_by_id, replace,
  find_by_id-key, find_by_id-replace_self, arith, ok, err, ◌==◌, inl, inr, Bool-cases, Option-cases,
}
use mathlib.Core.Option.{some-injective}
use ciro_fuel_backend.Prelude.Int.{ℤ, pos, ◌+ℤ◌, int_laws, +ℤ_assoc}
use ciro_fuel_backend.Order.{Text}
use ciro_fuel_backend.PlatformAccount.{
  AccountMovement, AccountMovementKind, movement_id, recorded, confirmed, payment_recorded,
  commission_charged, is_confirmed, create_movement, get_confirmed_balance, signed_amount,
  record_payment, confirm_payment, awaits_confirmation, payment_already_confirmed,
}
use ciro_fuel_backend.PlatformAccount.Balances.{
  get_confirmed_balance-append, create_movement-ok, share, get_confirmed_balance_cons,
}

recorded_share :
    (acting : Option ℕ) (m : AccountMovement) (l : List AccountMovement) {n : AccountMovement}
    {l' : List AccountMovement} (c : ℕ) (k : AccountMovementKind)
    → create_movement acting m l ≡ ok (n, l')
    → is_confirmed m.state ≡ false
    → get_confirmed_balance c k l' ≡ get_confirmed_balance c k l
recorded_share acting m l c k h s =
    let nothing : share c k m ≡ pos 0 = ground (arith, s) in
    rw ((create_movement-ok acting m l h).0, get_confirmed_balance-append c k l m, nothing)
      (grind int_laws)

-- A payment that a company records moves no balance of any company.
pub record_payment_keeps :
    (acting : Option ℕ) (id company amount method : ℕ) (reference : Option Text)
    (document : Option ℕ) (currency : ℕ) (l : List AccountMovement) (m : AccountMovement)
    (l' : List AccountMovement) (c : ℕ) (k : AccountMovementKind)
    → record_payment acting id company amount method reference document currency l ≡ ok (m, l')
    → get_confirmed_balance c k l' ≡ get_confirmed_balance c k l
unfolding record_payment
record_payment_keeps acting id company amount method reference document currency l m l' c k h =
    recorded_share acting (paid) l {n = m} {l' = l'} c k (ground arith) refl
  where
    paid : AccountMovement
    paid = record {
      id = id;
      company_id = company;
      kind = payment_recorded;
      amount = amount;
      currency = currency;
      source_invoice_id = none;
      applied_rate = none;
      applied_basis = none;
      method = some method;
      reference = reference;
      document_file_id = document;
      state = recorded;
      confirmed_by = none;
      confirmed_at = none;
      reversal_of_id = none;
    }

swap_shares :
    (c : ℕ) (k : AccountMovementKind) (l : List AccountMovement) (a b : AccountMovement)
    → get_confirmed_balance c k (b ∷ l) +ℤ share c k a
      ≡ get_confirmed_balance c k (a ∷ l) +ℤ share c k b
swap_shares c k l a b =
    rw (get_confirmed_balance_cons c k l a, get_confirmed_balance_cons c k l b) (grind int_laws)

push_share :
    (c : ℕ) (k : AccountMovementKind) (l l' : List AccountMovement) (m a b : AccountMovement)
    → get_confirmed_balance c k l +ℤ share c k a ≡ get_confirmed_balance c k l' +ℤ share c k b
    → get_confirmed_balance c k (m ∷ l) +ℤ share c k a
      ≡ get_confirmed_balance c k (m ∷ l') +ℤ share c k b
push_share c k l l' m a b h =
    rw (get_confirmed_balance_cons c k l m, get_confirmed_balance_cons c k l' m)
      (+ℤ_assoc (share c k m) (get_confirmed_balance c k l) (share c k a)
        ∙ ap (λ z. share c k m +ℤ z) h
        ∙ sym (+ℤ_assoc (share c k m) (get_confirmed_balance c k l') (share c k b)))

get_confirmed_balance-replace :
    (c : ℕ) (k : AccountMovementKind) (i : ℕ) (l : List AccountMovement) (a b : AccountMovement)
    → find_by_id movement_id i l ≡ some a
    → get_confirmed_balance c k (replace movement_id i b l) +ℤ share c k a
      ≡ get_confirmed_balance c k l +ℤ share c k b
unfolding get_confirmed_balance
get_confirmed_balance-replace c k i [] a b h = cc
get_confirmed_balance-replace c k i (m ∷ l) a b h = elim (Bool-cases (m.id == i)) [
  | inl e ↦
      let same : m ≡ a = some-injective m a (rw e at h) in rw (e, sym same) (swap_shares c k l m b)
  | inr e ↦ rw e (
      push_share c k (replace movement_id i b l) l m a b
        (get_confirmed_balance-replace c k i l a b (rw e at h)))
]

abbrev confirmed_by_operator : ℕ → ℕ → AccountMovement → AccountMovement
confirmed_by_operator by now m = record m {
  state = confirmed;
  confirmed_by = some by;
  confirmed_at = some now;
}

confirm-ok :
    (id by now : ℕ) (l : List AccountMovement) {m : AccountMovement} {l' : List AccountMovement}
    → confirm_payment id by now l ≡ ok (m, l')
    → (a : AccountMovement) × (find_by_id movement_id id l ≡ some a)
      × (awaits_confirmation a ≡ true)
      × (m ≡ confirmed_by_operator by now a)
      × (l' ≡ replace movement_id id (confirmed_by_operator by now a) l)
unfolding confirm_payment
confirm-ok id by now l h = elim (Option-cases (find_by_id movement_id id l)) [
  | inl e ↦ cc
  | inr (a, e) ↦ (a, e, ground arith, ground arith, ground arith)
]

add_share : (x p y q r : ℤ) → x +ℤ p ≡ y +ℤ q → p ≡ pos 0 → q ≡ r → x ≡ y +ℤ r
add_share x p y q r h z e = grind (int_laws, h, z, e)

refused :
    (id by now : ℕ) (l : List AccountMovement) (b : AccountMovement)
    → find_by_id movement_id id l ≡ some b
    → is_confirmed b.state ≡ true
    → confirm_payment id by now l ≡ err payment_already_confirmed
unfolding confirm_payment
refused id by now l b h c = ground (arith, h, c)

-- A confirmation that goes through is of a payment that awaits it, adds the payment's amount to
-- its company's balance of payments, and is the only one: each later confirmation is refused.
pub confirm_payment_once :
    (id by now : ℕ) (l : List AccountMovement) (m : AccountMovement) (l' : List AccountMovement)
    (by' now' : ℕ)
    → confirm_payment id by now l ≡ ok (m, l')
    → (find_by_id movement_id id l' ≡ some m)
      × (get_confirmed_balance m.company_id payment_recorded l'
          ≡ get_confirmed_balance m.company_id payment_recorded l +ℤ signed_amount m)
      × (confirm_payment id by' now' l' ≡ err payment_already_confirmed)
confirm_payment_once id by now l m l' by' now' h =
    let (a, e, w, m_is, l_is) = confirm-ok id by now l {m = m} {l' = l'} h in
    let b : AccountMovement = confirmed_by_operator by now a in
    let found : find_by_id movement_id id l' ≡ some b =
      rw l_is
        (find_by_id-replace_self movement_id id l a b e (find_by_id-key movement_id id l a e)) in
    let c : ℕ = a.company_id in
    let before : share c payment_recorded a ≡ pos 0 = ground (arith, w) in
    let after : share c payment_recorded b ≡ signed_amount b = ground (arith, w) in
    (
      rw m_is found,
      rw (m_is, l_is)
          (add_share _ _ _ _ _ (get_confirmed_balance-replace c payment_recorded id l a b e) before
            after),
      refused id by' now' l' b found refl,
    )

nothing_moved : (x p y q : ℤ) → x +ℤ p ≡ y +ℤ q → p ≡ pos 0 → q ≡ pos 0 → x ≡ y
nothing_moved x p y q h z e = grind (int_laws, h, z, e)

-- A confirmation leaves what has been charged to the company.
pub confirm_payment-charged :
    (id by now : ℕ) (l : List AccountMovement) (m : AccountMovement) (l' : List AccountMovement)
    (c : ℕ)
    → confirm_payment id by now l ≡ ok (m, l')
    → get_confirmed_balance c commission_charged l' ≡ get_confirmed_balance c commission_charged l
confirm_payment-charged id by now l m l' c h =
    let (a, e, w, m_is, l_is) = confirm-ok id by now l {m = m} {l' = l'} h in
    let b : AccountMovement = confirmed_by_operator by now a in
    let before : share c commission_charged a ≡ pos 0 = ground (arith, w) in
    let after : share c commission_charged b ≡ pos 0 = ground (arith, w) in
    rw l_is (
      nothing_moved _ _ _ _ (get_confirmed_balance-replace c commission_charged id l a b e) before
        after)
