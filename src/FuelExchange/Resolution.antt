-- ===== src/FuelExchange/Resolution.antt =====
-- An offer is resolved once.
use ciro_fuel_backend.Prelude.{
  ℕ, ◌*◌, ◌≡◌, refl, sym, subst, ◌∙◌, Bool, true, false, ◌&&◌, some, List, [], ◌∷◌, map, All, arith,
  find?, find_by_id, replace, find_by_id-key, find_by_id-replace_self, ◌==◌, get_or, ok, is_err,
  >>=-eq-ok, inl, inr, Bool-cases, Option-cases,
}
use ciro_fuel_backend.Money.{round_currency}
use ciro_fuel_backend.FuelExchange.{
  ExchangeOffer, ExchangeProposal, Exchange, offer_key, find_offer, is_open, is_declined,
  ProposalOutcome, awarded, not_selected,
}
use ciro_fuel_backend.FuelExchange.Resolve.{
  find_own_offer, find_awardable, award_offer, settle_proposal, Awarded, award_to, award, withdraw,
}

own-ok :
    (acting id : ℕ) (offers : List ExchangeOffer) {o : ExchangeOffer}
    → find_own_offer acting id offers ≡ ok o
    → (find_by_id offer_key id offers ≡ some o) × (o.id ≡ id) × (o.raised_by_company_id ≡ acting)
unfolding find_own_offer find_offer
own-ok acting id offers {o} h = elim (Option-cases (find_by_id offer_key id offers)) [
  | inl e ↦ cc
  | inr (a, e) ↦
      (ground arith, ground (arith, find_by_id-key offer_key id offers a e), ground arith)
]

award_to-ok :
    (o : ExchangeOffer) (p : ExchangeProposal) (user now : ℕ) (x : Exchange) {r : Awarded}
    → find_by_id offer_key o.id x.offers ≡ some o
    → award_to o p user now x ≡ ok r
    → (is_open o.state ≡ true)
      × (r.offer ≡ award_offer p user now o)
      × (r.exchange.offers ≡ replace offer_key o.id r.offer x.offers)
      × (r.exchange.proposals ≡ map (settle_proposal o.id p.id now) x.proposals)
unfolding award_to
award_to-ok o p user now x f h = (ground arith, ground arith, ground arith, ground arith)

pub award-ok :
    (id acting user pid now : ℕ) (x : Exchange) {r : Awarded}
    → award id acting user pid now x ≡ ok r
    → (o : ExchangeOffer) × (p : ExchangeProposal) × (find_by_id offer_key id x.offers ≡ some o)
      × (o.id ≡ id)
      × (o.raised_by_company_id ≡ acting)
      × (find_awardable o.id pid x.proposals ≡ ok p)
      × (is_open o.state ≡ true)
      × (r.offer ≡ award_offer p user now o)
      × (r.exchange.offers ≡ replace offer_key o.id r.offer x.offers)
      × (r.exchange.proposals ≡ map (settle_proposal o.id p.id now) x.proposals)
unfolding award
award-ok id acting user pid now x {r} h =
    let (o, f, g) = >>=-eq-ok (find_own_offer acting id x.offers) _ h in
    let (p, q, t) = >>=-eq-ok (find_awardable o.id pid x.proposals) _ g in
    let (b, i, a) = own-ok acting id x.offers f in
    let (s, e, w, m) = award_to-ok o p user now x {r = r} (rw i b) t in
    (o, p, b, i, a, q, s, e, w, m)

-- Once an offer is not open, neither an award nor a withdrawal of it goes through.
resolved-refuses :
    (id acting user pid now : ℕ) (x : Exchange) (o : ExchangeOffer)
    → find_by_id offer_key id x.offers ≡ some o
    → o.id ≡ id
    → is_open o.state ≡ false
    → (is_err (award id acting user pid now x) ≡ true)
      × (is_err (withdraw id acting user now x) ≡ true)
unfolding award award_to withdraw find_own_offer find_offer find_awardable
resolved-refuses id acting user pid now x o f i c =
    (ground (arith, f, i, c), ground (arith, f, i, c))

-- Of an answer that is on the offer or not, and is the winner or not.
abbrev pub IsOutcome : Bool → Bool → ProposalOutcome → Type 0
IsOutcome true true r = r ≡ awarded
IsOutcome true false r = r ≡ not_selected
IsOutcome false w r = Unit

-- Each answer to the offer is either the winner or not selected.
abbrev pub IsSettled : ℕ → ℕ → ExchangeProposal → Type 0
IsSettled offer winner q = IsOutcome (q.offer_id == offer) (q.id == winner) q.outcome

settle_proposal-IsSettled :
    (offer winner now : ℕ) (q : ExchangeProposal)
    → IsSettled offer winner (settle_proposal offer winner now q)
unfolding settle_proposal
settle_proposal-IsSettled offer winner now q = elim (Bool-cases (q.id == winner)) [
  | inl e ↦ elim (Bool-cases (q.offer_id == offer)) [
    | inl d ↦ rw (IsOutcome, e, e, d) refl
    | inr d ↦ rw (IsOutcome, e, d) tt
  ]
  | inr e ↦ elim (Bool-cases (q.offer_id == offer)) [
    | inl d ↦ rw (IsOutcome, e, d, d, e) refl
    | inr d ↦ rw (IsOutcome, e, d, d) tt
  ]
]

settle-IsSettled :
    (offer winner now : ℕ) (qs : List ExchangeProposal)
    → All (IsSettled offer winner) (map (settle_proposal offer winner now) qs)
settle-IsSettled offer winner now [] = tt
settle-IsSettled offer winner now (q ∷ qs) =
    (settle_proposal-IsSettled offer winner now q, settle-IsSettled offer winner now qs)

found-id :
    (pid offer : ℕ) (qs : List ExchangeProposal) (p : ExchangeProposal)
    → find? (λ q. (q.id == pid) && (q.offer_id == offer)) qs ≡ some p
    → (p.id ≡ pid) × (p.offer_id ≡ offer)
found-id pid offer [] p h = cc
found-id pid offer (q ∷ qs) p h =
    (ground (arith, found-id pid offer qs p), ground (arith, found-id pid offer qs p))

pub awardable-ok :
    (offer pid : ℕ) (qs : List ExchangeProposal) {p : ExchangeProposal}
    → find_awardable offer pid qs ≡ ok p
    → (p.id ≡ pid) × (p.offer_id ≡ offer) × (is_declined p.outcome ≡ false)
unfolding find_awardable
awardable-ok offer pid qs {p} h =
    elim (Option-cases (find? (λ q. (q.id == pid) && (q.offer_id == offer)) qs)) [
      | inl e ↦ cc
      | inr (a, e) ↦ (
        ground (arith, found-id pid offer qs a e),
        ground (arith, found-id pid offer qs a e),
        ground arith,
      )
    ]

-- An award freezes the winner's price times the offered quantity on the offer, and leaves every
-- answer to the offer awarded, if it is the one that was named, or else not selected.
pub award_settles :
    (id acting user pid now : ℕ) (x : Exchange) (r : Awarded)
    → award id acting user pid now x ≡ ok r
    → (p : ExchangeProposal) × (find_awardable id pid x.proposals ≡ ok p)
      × (r.offer.awarded_company_id ≡ some p.proposing_company_id)
      × (r.offer.agreed_unit_price ≡ p.unit_price)
      × (r.offer.agreed_total
          ≡ some (round_currency (get_or p.unit_price 0 * r.offer.quantity_litres) 100000))
      × (find_by_id offer_key id r.exchange.offers ≡ some r.offer)
      × All (IsSettled id pid) r.exchange.proposals
unfolding award_offer
award_settles id acting user pid now x r h =
    let (o, p, f, i, a, q, s, e, w, m) = award-ok id acting user pid now x {r = r} h in
    let (pi, po, pd) = awardable-ok o.id pid x.proposals {p = p} q in
    (
      p,
      rw (sym i) q,
      ground (arith, e),
      ground (arith, e),
      ground (arith, e),
      stored id x.offers o r.offer f i (ground (arith, e)) (w),
      subst (λ t. All (IsSettled t pid) r.exchange.proposals) i
          (subst (λ t. All (IsSettled o.id t) r.exchange.proposals) pi
            (rw m (settle-IsSettled o.id p.id now x.proposals))),
    )
  where
    stored :
        (i : ℕ) (offers : List ExchangeOffer) (o b : ExchangeOffer) {offers' : List ExchangeOffer}
        → find_by_id offer_key i offers ≡ some o
        → o.id ≡ i
        → b.id ≡ o.id
        → offers' ≡ replace offer_key o.id b offers
        → find_by_id offer_key i offers' ≡ some b
    stored i offers o b f e k w =
        rw (w, e) (find_by_id-replace_self offer_key i offers o b f (k ∙ e))

-- The first resolution is the last: after an award no award and no withdrawal of the offer goes
-- through, whoever asks.
pub award_once :
    (id acting user pid now : ℕ) (x : Exchange) (r : Awarded) (acting' user' pid' now' : ℕ)
    → award id acting user pid now x ≡ ok r
    → (is_err (award id acting' user' pid' now' r.exchange) ≡ true)
      × (is_err (withdraw id acting' user' now' r.exchange) ≡ true)
unfolding award_offer
award_once id acting user pid now x r acting' user' pid' now' h =
    let (o, p, f, i, a, q, s, e, w, m) = award-ok id acting user pid now x {r = r} h in
    let (_, _, _, _, _, found, _) = award_settles id acting user pid now x r h in
    resolved-refuses id acting' user' pid' now' r.exchange r.offer found (ground (arith, e, i))
      (ground (arith, e))
