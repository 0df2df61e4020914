-- ===== src/FuelExchange/Answer.antt =====
-- The answers to an offer.
use ciro_fuel_backend.Prelude.{
  ℕ, ◌≡◌, refl, Bool, true, false, not, Option, some, List, [], ◌∷◌, ◌++◌, any, any-append, arith,
  find_by_id, find_by_id-key, ◌==◌, is_some, Result, ok, err, is_err, inl, inr, Option-cases,
}
use ciro_fuel_backend.Companies.{Company, is_active}
use ciro_fuel_backend.FuelExchange.{
  ExchangeOffer, ExchangeProposal, Exchange, ExchangeError, offer_key, find_offer, propose,
  proposal_row, answers, is_open,
}

find_offer-key :
    (acting id : ℕ) (offers : List ExchangeOffer) (o : ExchangeOffer)
    → find_offer acting id offers ≡ some o
    → o.id ≡ id
unfolding find_offer
find_offer-key acting id offers o h = elim (Option-cases (find_by_id offer_key id offers)) [
  | inl e ↦ cc
  | inr (a, e) ↦ ground (arith, e, find_by_id-key offer_key id offers a e)
]

-- An answer that goes through is one to an open offer of another, active company, whom it tells.
-- It is a decline exactly if it names no price, it is its company's first answer to the offer, and
-- it is added to the answers.
pub propose_ok :
    (companies : List Company) (offer_id acting user : ℕ) (price : Option ℕ) (decline : Bool)
    (id now : ℕ) (x : Exchange) (p : ExchangeProposal) (told : ℕ) (x' : Exchange)
    → propose companies offer_id acting user price decline id now x ≡ ok (p, told, x')
    → (o : ExchangeOffer) × (find_offer acting offer_id x.offers ≡ some o)
      × (is_open o.state ≡ true)
      × ((o.raised_by_company_id == acting) ≡ false)
      × (is_active companies o.raised_by_company_id ≡ true)
      × (decline ≡ not (is_some price))
      × (any (answers o.id acting) x.proposals ≡ false)
      × (p ≡ proposal_row o acting user price id now)
      × (told ≡ o.raised_by_company_id)
      × (x'.proposals ≡ x.proposals ++ p ∷ [])
unfolding propose
propose_ok companies offer_id acting user price decline id now x p told x' h =
    elim (Option-cases (find_offer acting offer_id x.offers)) [
      | inl e ↦ cc
      | inr (o, e) ↦ (
        o,
        e,
        ground arith,
        ground arith,
        ground arith,
        ground arith,
        ground arith,
        ground arith,
        ground arith,
        ground arith,
      )
    ]

propose-answered :
    (companies : List Company) (offer_id acting user : ℕ) (price : Option ℕ) (decline : Bool)
    (id now : ℕ) (x : Exchange)
    → any (answers offer_id acting) x.proposals ≡ true
    → is_err (propose companies offer_id acting user price decline id now x) ≡ true
propose-answered companies offer_id acting user price decline id now x h =
    go (propose companies offer_id acting user price decline id now x) refl
  where
    go :
        (r : Result ExchangeError (ExchangeProposal × ℕ × Exchange))
        → propose companies offer_id acting user price decline id now x ≡ r
        → is_err r ≡ true
    go (err e) q = refl
    go (ok (p, told, x')) q =
        let (o, f, s, n, a, d, fresh, is, t, l) =
          propose_ok companies offer_id acting user price decline id now x p told x' q in
        ground (arith, rw (find_offer-key acting offer_id x.offers o f) at fresh, h)

-- A company answers an offer once: after an answer of its own, and whatever has happened to the
-- offers and whatever answers have followed, each later one is refused.
pub propose_once :
    (companies : List Company) (offer_id acting user : ℕ) (price : Option ℕ) (decline : Bool)
    (id now : ℕ) (x : Exchange) (p : ExchangeProposal) (told : ℕ) (x' : Exchange)
    (companies' : List Company) (user' : ℕ) (price' : Option ℕ) (decline' : Bool) (id' now' : ℕ)
    (offers : List ExchangeOffer) (more : List ExchangeProposal)
    → propose companies offer_id acting user price decline id now x ≡ ok (p, told, x')
    → is_err (
        propose companies' offer_id acting user' price' decline' id' now'
          (record { offers = offers; proposals = x'.proposals ++ more }))
      ≡ true
unfolding proposal_row answers
propose_once companies offer_id acting user price decline id now x p told x' companies' user' price'
      decline' id' now' offers more h =
    let (o, f, s, n, a, d, fresh, is, t, l) =
      propose_ok companies offer_id acting user price decline id now x p told x' h in
    propose-answered companies' offer_id acting user' price' decline' id' now' _ (
      ground (
        arith,
        l,
        is,
        find_offer-key acting offer_id x.offers o f,
        any-append (answers offer_id acting) x.proposals (p ∷ []),
        any-append (answers offer_id acting) x'.proposals more,
      ))
