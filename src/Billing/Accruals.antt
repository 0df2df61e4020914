-- ===== src/Billing/Accruals.antt =====
-- src/modules/billing/billing.service.ts: what the accruals add to the ledger, and the term that
-- they go by.
use ciro_fuel_backend.Prelude.{
  ℕ, ◌≤◌, ◌<◌, ◌≡◌, refl, false, Option, none, some, List, [], ◌∷◌, ◌++◌, any, All, arith, ok, inl,
  inr, Bool-cases, Option-cases, if◌then◌else◌, get_or, leb,
}
use ciro_fuel_backend.PlatformAccount.{
  AccountMovement, commission_charged, is_payout, create_movement, insert, collides,
}
use ciro_fuel_backend.Billing.{
  CommissionBasis, CommissionTerm, Rates, is_later, current, term_effective_from, term_id,
  get_current_commission_term, set_commission_term, compute_amount, accrual, accrue,
  accrue_commission,
}

not_payout-collides :
    (m : AccountMovement) (l : List AccountMovement)
    → is_payout m.kind ≡ false
    → any (collides m) l ≡ false
unfolding collides
not_payout-collides m [] h = refl
not_payout-collides m (n ∷ l) h = ground (arith, h, not_payout-collides m l h)

-- A row that is not a payout always goes in, as it was asked for.
pub accrue-row :
    (acting : Option ℕ) (m : AccountMovement) (l : List AccountMovement)
    → is_payout m.kind ≡ false
    → accrue acting m l ≡ ok (l ++ m ∷ [])
unfolding accrue create_movement insert
accrue-row acting m l h = ground (
  arith,
  not_payout-collides (record m { company_id = get_or acting m.company_id }) l h,
  not_payout-collides m l h,
)

module _ {ℓ} {A : Type ℓ} (effective_from id : A → ℕ) where
  current-none : (l : List A) → current effective_from id l ≡ none → l ≡ []
  unfolding current
  current-none [] h = refl
  current-none (a ∷ l) h = elim (Option-cases (current effective_from id l)) [
    | inl e ↦ absurd (ground (arith, h, e))
    | inr (b, e) ↦ elim (Bool-cases (is_later effective_from id b a)) [
      | inl f ↦ absurd (ground (arith, h, e, f))
      | inr f ↦ absurd (ground (arith, h, e, f))
    ]
  ]

  All-current {κ} :
      (P : A → Type κ) (l : List A) (a : A) → All P l → current effective_from id l ≡ some a → P a
  unfolding current
  All-current P [] a h e = cc
  All-current P (b ∷ l) a h e = elim (Option-cases (current effective_from id l)) [
    | inl f ↦ ground (arith, h.0, f)
    | inr (c, f) ↦ elim (Bool-cases (is_later effective_from id c b)) [
      | inl g ↦ ground (arith, All-current P l c h.1 f, g)
      | inr g ↦ ground (arith, h.0, f, g)
    ]
  ]

later_than :
    (term t : CommissionTerm)
    → (term_effective_from t ≤ term_effective_from term) × (term_id t < term_id term)
    → is_later term_effective_from term_id t term ≡ false
later_than term t h = ground arith

current_newest :
    (term : CommissionTerm) (terms : List CommissionTerm)
    → All
        (λ t. (term_effective_from t ≤ term_effective_from term) × (term_id t < term_id term))
        terms
    → current term_effective_from term_id (term ∷ terms) ≡ some term
unfolding current
current_newest term terms h = elim (Option-cases (current term_effective_from term_id terms)) [
  | inl e ↦ rw e refl
  | inr (t, e) ↦
      rw
        (
          e,
          later_than term t (
              All-current term_effective_from term_id
                (λ t.
                  (term_effective_from t ≤ term_effective_from term) × (term_id t < term_id term))
                terms t h e),
        )
        refl
]

module _ (acting : Option ℕ) (rates : Rates) (id company invoice_id amount : ℕ)
    (l : List AccountMovement) where
  -- What a term charges.
  abbrev pub charged_by : CommissionTerm → List AccountMovement
  charged_by t =
      let due : ℕ = compute_amount t.basis t.rate amount in
      if leb due 0
      then l
      else l ++ accrual id company commission_charged due invoice_id t.rate t.basis ∷ []

  pub accrue_commission-term :
      (t : CommissionTerm)
      → get_current_commission_term rates.terms ≡ some t
      → accrue_commission acting rates id company invoice_id amount l ≡ ok (charged_by t)
  unfolding accrue_commission accrual
  accrue_commission-term t h = elim (Bool-cases (leb (compute_amount t.basis t.rate amount) 0)) [
    | inl z ↦ rw (accrue_commission, h, z) refl
    | inr z ↦ rw (accrue_commission, h, z) (accrue-row acting _ l refl)
  ]

-- A commission term that is set no earlier than the others, under a later identifier, is the one
-- that the next invoice is charged by: its commission goes on the ledger with that rate, unless it
-- comes to nothing.
pub set_commission_term_rules :
    (acting : Option ℕ) (rates : Rates) (id company invoice_id amount : ℕ)
    (l : List AccountMovement) (term_new set_by now rate : ℕ) (basis : CommissionBasis)
    → All (λ t. (term_effective_from t ≤ now) × (term_id t < term_new)) rates.terms
    → accrue_commission acting
        (record rates { terms = set_commission_term term_new basis rate set_by now rates.terms })
        id
        company
        invoice_id
        amount
        l
      ≡ ok (
          charged_by acting rates id company invoice_id amount l (record {
            id = term_new;
            basis = basis;
            rate = rate;
            effective_from = now;
            set_by = set_by;
          }))
unfolding get_current_commission_term set_commission_term
set_commission_term_rules acting rates id company invoice_id amount l term_new set_by now rate basis
      h =
    accrue_commission-term acting _ id company invoice_id amount l _ (
      current_newest
        (record {
          id = term_new;
          basis = basis;
          rate = rate;
          effective_from = now;
          set_by = set_by;
        })
        rates.terms h)
