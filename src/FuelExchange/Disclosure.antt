-- ===== src/FuelExchange/Disclosure.antt =====
-- Who learns what of an offer's answers.
use ciro_fuel_backend.Prelude.{
  ℕ, ◌∙◌, ==_iff, ◌≡◌, ◌≢◌, refl, sym, subst, ap, Bool, true, false, not, ◌||◌, Option, none, some,
  List, [], ◌∷◌, map, filter, All, arith, length, count, find?, is_some, ◌==◌, ok, inl, inr,
  Bool-cases, Option-cases,
}
use mathlib.Core.Option
use mathlib.Core.Option.{some-injective}
use ciro_fuel_backend.Order.{
  UserRole, super_admin, fuel_company_admin, transport_company_admin, client, driver,
}
use ciro_fuel_backend.FuelExchange.{ExchangeOffer, ExchangeProposal, Exchange, answers, is_declined}
use ciro_fuel_backend.FuelExchange.Resolve.{settle_proposal, Awarded, award, award_offer}
use ciro_fuel_backend.FuelExchange.Resolution.{award-ok}
use ciro_fuel_backend.FuelExchange.Detail.{
  ProposalShape, to_proposal_shape, Detail, is_super_admin, is_raiser, is_awarded_company,
  raiser_shape, own_proposal, build_detail,
}

abbrev pub IsHidden : Bool → ProposalShape → Type 0
IsHidden true s = (s.proposing_company_id ≡ none) × (s.company ≡ none)
IsHidden false s = Unit

-- What is shown of a decline names no company.
abbrev pub IsAnonymous : ProposalShape → Type 0
IsAnonymous s = IsHidden (is_declined s.outcome) s

raiser_shape-IsAnonymous :
    (o : ExchangeOffer) (p : ExchangeProposal) → IsAnonymous (raiser_shape o p)
unfolding raiser_shape to_proposal_shape
raiser_shape-IsAnonymous o p = elim (Bool-cases (is_declined p.outcome)) [
  | inl e ↦ rw (IsHidden, e, e) (refl, refl)
  | inr e ↦ rw (IsHidden, e, e) tt
]

map-IsAnonymous :
    (o : ExchangeOffer) (ps : List ExchangeProposal) → All IsAnonymous (map (raiser_shape o) ps)
map-IsAnonymous o [] = tt
map-IsAnonymous o (p ∷ ps) = (raiser_shape-IsAnonymous o p, map-IsAnonymous o ps)

-- In the list of answers that a page shows, whoever views it, an answer that is stored as a decline
-- names no company and attaches no contact.
pub build_detail-IsAnonymous :
    (o : ExchangeOffer) (acting : Option ℕ) (role : UserRole) (ps : List ExchangeProposal)
    (shapes : List ProposalShape)
    → (build_detail o acting role ps).proposals ≡ some shapes
    → All IsAnonymous shapes
unfolding build_detail
build_detail-IsAnonymous o acting role ps shapes h =
    elim (Bool-cases (is_raiser acting role o || is_super_admin role)) [
      | inl e ↦
          subst (All IsAnonymous) (some-injective _ _ (rw e at h))
            (map-IsAnonymous o (filter (λ p. p.offer_id == o.id) ps))
      | inr e ↦ absurd_none (rw e at h)
    ]
  where
    absurd_none : none ≡ some shapes → All IsAnonymous shapes
    absurd_none q = cc

find-company :
    (offer c : ℕ) (ps : List ExchangeProposal) (p : ExchangeProposal)
    → find? (answers offer c) ps ≡ some p
    → p.proposing_company_id ≡ c
unfolding answers
find-company offer c [] p h = cc
find-company offer c (q ∷ ps) p h = ground (arith, find-company offer c ps p)

-- The answer that a page shows as its viewer's own is.
abbrev pub IsOwn : ℕ → Option ProposalShape → Type 0
IsOwn company none = Unit
IsOwn company (some s) = s.proposing_company_id ≡ some company

not_operator : (role : UserRole) → role ≢ super_admin → is_super_admin role ≡ false
not_operator super_admin h = absurd (h refl)
not_operator fuel_company_admin h = refl
not_operator transport_company_admin h = refl
not_operator client h = refl
not_operator driver h = refl

not_awarded :
    (o : ExchangeOffer) (company : ℕ) (role : UserRole)
    → o.awarded_company_id ≢ some company
    → is_awarded_company (some company) role o ≡ false
unfolding is_awarded_company
not_awarded o company role h = elim (Option-cases o.awarded_company_id) [
  | inl n ↦ ground (arith, n)
  | inr (c, n) ↦ elim (Bool-cases (c == company)) [
    | inl e ↦ absurd (h (n ∙ ap some ((==_iff c company).0 e)))
    | inr e ↦ ground (arith, n, e)
  ]
]

-- What a page shows of an offer to a company that is neither the operator's, nor its raiser, nor
-- awarded it is the same whatever the other companies answered. It has neither the agreed figures
-- nor the raiser's contact, and of the answers its own alone.
pub answers_are_blind :
    (o : ExchangeOffer) (company : ℕ) (role : UserRole) (ps ps' : List ExchangeProposal)
    → role ≢ super_admin
    → o.raised_by_company_id ≢ company
    → o.awarded_company_id ≢ some company
    → find? (answers o.id company) ps ≡ find? (answers o.id company) ps'
    → (build_detail o (some company) role ps ≡ build_detail o (some company) role ps')
      × ((build_detail o (some company) role ps).agreed ≡ none)
      × ((build_detail o (some company) role ps).raiser_contact ≡ none)
      × ((build_detail o (some company) role ps).proposals ≡ none)
      × IsOwn company (build_detail o (some company) role ps).my_proposal
unfolding build_detail is_raiser own_proposal to_proposal_shape
answers_are_blind o company role ps ps' n r w same_own =
    let operator : is_super_admin role ≡ false = not_operator role n in
    let raiser : is_raiser (some company) role o ≡ false = ground (arith, operator, r) in
    let awarded : is_awarded_company (some company) role o ≡ false = not_awarded o company role w in
    rw (raiser, operator, awarded, sym same_own) (refl, refl, refl, refl, own)
  where
    own : IsOwn company (
        Option.map
          (λ p. to_proposal_shape p o.quantity_litres true none)
          (find? (answers o.id company) ps))
    own = elim (Option-cases (find? (answers o.id company) ps)) [
      | inl e ↦ rw (IsOwn, e) tt
      | inr (p, e) ↦ rw (IsOwn, e) (ap some (find-company o.id company ps p e))
    ]

abbrev is_on : ℕ → ExchangeProposal → Bool
is_on offer p = p.offer_id == offer

settled_on :
    (offer winner now : ℕ) (p : ExchangeProposal)
    → is_on offer (settle_proposal offer winner now p) ≡ is_on offer p
unfolding settle_proposal
settled_on offer winner now p = ground arith

settled_declined :
    (offer winner now : ℕ) (p : ExchangeProposal)
    → is_on offer p ≡ true
    → is_declined (settle_proposal offer winner now p).outcome ≡ false
unfolding settle_proposal
settled_declined offer winner now p h = ground arith

settled_declines :
    (offer winner now : ℕ) (ps : List ExchangeProposal)
    → length (
        filter
          (λ p. is_declined p.outcome)
          (filter (is_on offer) (map (settle_proposal offer winner now) ps)))
      ≡ 0
settled_declines offer winner now [] = refl
settled_declines offer winner now (p ∷ ps) = elim (Bool-cases (is_on offer p)) [
  | inl e ↦
      rw (settled_on offer winner now p, e, settled_declined offer winner now p e)
        (settled_declines offer winner now ps)
  | inr e ↦ rw (settled_on offer winner now p, e) (settled_declines offer winner now ps)
]

settled_answers :
    (offer winner now : ℕ) (ps : List ExchangeProposal)
    → length (
        filter
          (λ p. not (is_declined p.outcome))
          (filter (is_on offer) (map (settle_proposal offer winner now) ps)))
      ≡ count (is_on offer) ps
settled_answers offer winner now [] = refl
settled_answers offer winner now (p ∷ ps) = elim (Bool-cases (is_on offer p)) [
  | inl e ↦
      rw (settled_on offer winner now p, e, settled_declined offer winner now p e)
        (omega (arith, settled_answers offer winner now ps))
  | inr e ↦
      rw (settled_on offer winner now p, e) (omega (arith, settled_answers offer winner now ps))
]

abbrev pub HasCompany : ProposalShape → Type 0
HasCompany s = (is_some s.proposing_company_id ≡ true) × (is_some s.company ≡ true)

settled_shapes :
    (o : ExchangeOffer) (offer winner now : ℕ) (ps : List ExchangeProposal)
    → All HasCompany
        (map (raiser_shape o) (filter (is_on offer) (map (settle_proposal offer winner now) ps)))
unfolding raiser_shape to_proposal_shape
settled_shapes o offer winner now [] = tt
settled_shapes o offer winner now (p ∷ ps) = elim (Bool-cases (is_on offer p)) [
  | inl e ↦
      rw (All, settled_on offer winner now p, e)
        (
          (rw (settled_declined offer winner now p e) (refl, refl)),
          settled_shapes o offer winner now ps,
        )
  | inr e ↦ rw (All, settled_on offer winner now p, e) (settled_shapes o offer winner now ps)
]

-- An award discloses the declines. On the raiser's page of an offer that it has awarded no answer
-- counts as a decline any more, every answer counts as a proposal, and each one that is shown
-- names its company and attaches the company's contact, those of the companies that declined too.
pub award_reveals_declines :
    (id acting user pid now : ℕ) (x : Exchange) (r : Awarded)
    → award id acting user pid now x ≡ ok r
    → let d : Detail = build_detail r.offer (some acting) fuel_company_admin r.exchange.proposals in
      (d.decline_count ≡ some 0)
      × (d.proposal_count ≡ some (count (λ p. p.offer_id == id) x.proposals))
      × (shapes : List ProposalShape) × (d.proposals ≡ some shapes)
      × All HasCompany shapes
unfolding build_detail is_raiser award_offer raiser_shape
award_reveals_declines id acting user pid now x r h =
    let (o, p, f, i, a, q, s, e, w, m) = award-ok id acting user pid now x {r = r} h in
    let ri : r.offer.id ≡ o.id = ground (arith, e) in
    let raises : (acting == r.offer.raised_by_company_id) ≡ true = ground (arith, e, a) in
    rw (raises, m, ri, sym i)
      (
        ap some (settled_declines o.id p.id now x.proposals),
        ap some (settled_answers o.id p.id now x.proposals),
        _,
        refl,
        settled_shapes r.offer o.id p.id now x.proposals,
      )
