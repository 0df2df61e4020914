-- ===== src/Orders/Create.antt =====
-- src/modules/orders/orders.service.ts: an order takes litres at its creation, and gives them back.
use ciro_fuel_backend.Prelude.{
  ℕ, ◌≡◌, sym, ap, ◌∙◌, false, Option, none, some, any, find?, Result, ok, err, >>=-eq-ok,
  ok-injective, arith,
}
use ciro_fuel_backend.Order.{Order, OrderStatus, Text}
use ciro_fuel_backend.OrderState.{TransitionActor}
use ciro_fuel_backend.LitreBalances.{
  LitreBalance, LitreError, DrawdownResult, Stamp, drawdown, return_drawdown, get_balance_litres,
  draws, returns,
}
use ciro_fuel_backend.LitreBalances.Drawdown.{return_drawdown-drawdown}
use ciro_fuel_backend.Orders.{Platform, lift_litres, create_with_drawdown, cancel}
use ciro_fuel_backend.Orders.Cancel.{cancel-balance}

lift_litres-ok {ℓ} :
    {A : Type ℓ} (r : Result LitreError A) {a : A} → lift_litres r ≡ ok a → r ≡ ok a
lift_litres-ok (ok u) h = ground (arith, h)
lift_litres-ok (err e) h = cc

-- An order that is created while nothing else touches the balance of its client, under an identifier
-- that the balance has no movement of, and that is then cancelled from whichever state, leaves that
-- balance as it was before.
pub litres_come_back :
    (acting : Option ℕ) (next : ℕ) (s s' : Stamp) (o o' : Order) (from : OrderStatus)
    (actor : TransitionActor) (reason : Option Text) (now : ℕ) (p p' p'' later : Platform)
    (b : LitreBalance) (r : DrawdownResult)
    → p.balance ≡ some b
    → find? (draws o.id) b.movements ≡ none
    → any (returns o.id) b.movements ≡ false
    → create_with_drawdown (λ _ c. c) o s p ≡ ok (r, p')
    → later.balance ≡ p'.balance
    → o'.id ≡ o.id
    → cancel acting next s' o' from actor reason now later ≡ ok p''
    → get_balance_litres p''.balance ≡ b.balance_litres
unfolding create_with_drawdown
litres_come_back acting next s s' o o' from actor reason now p p' p'' later b r has d u made same
      same_id h =
    let ((r', drawn), f, g) =
      >>=-eq-ok (lift_litres (drawdown (λ _ c. c) o.id o.quantity_liters s p.balance)) _ made in
    let after : p'.balance ≡ drawn =
      ap (λ (x : DrawdownResult × Platform). x.1.balance) (sym (ok-injective _ (r, p') g)) in
    let drew : drawdown (λ _ c. c) o.id o.quantity_liters s (some b) ≡ ok (r', drawn) =
      ap (drawdown (λ _ c. c) o.id o.quantity_liters s) (sym has) ∙ lift_litres-ok _ f in
    let returned : p''.balance ≡ return_drawdown o.id s' drawn =
      cancel-balance acting next s' o' from actor reason now later p'' h
      ∙ ap (λ i. return_drawdown i s' later.balance) same_id
      ∙ ap (return_drawdown o.id s') (same ∙ after) in
    ap get_balance_litres returned
    ∙ return_drawdown-drawdown o.id o.quantity_liters s s' b r' drawn d u drew
