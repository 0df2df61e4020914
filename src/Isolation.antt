-- ===== src/Isolation.antt =====
-- src/common/plugins/tenant-scope.plugin.ts and multi-party-scope.plugin.ts: the filters that are put
-- on every query, and on every new document, from who is acting. A user, a company and a role are
-- absent where the request's context lacks them.
pub mod Scope
mod Tests
use ciro_fuel_backend.Prelude.{
  ℕ, Bool, true, false, ◌&&◌, ◌==◌, Option, none, some, List, [], ◌∷◌, is_id, Result, ok, err,
  ◌>>=◌, or_throw, filter,
}
use ciro_fuel_backend.Order.{
  Order, UserRole, super_admin, fuel_company_admin, transport_company_admin, client, driver,
}
use ciro_fuel_backend.Invoices.{Invoice}

-- `RequestScope`, without its correlation id.
pub record RequestScope : Type 0 where
  pub role : Option UserRole
  pub user_id : Option ℕ
  pub company_id : Option ℕ
  pub parent_fuel_company_id : Option ℕ

-- A violation makes the query throw.
pub data IsolationViolation : Type 0 where
  missing_company_id missing_parent_fuel_company_id : IsolationViolation
  missing_fuel_company_id missing_user_id no_scoping_rule : IsolationViolation

-- `resolveCompanyId` of the tenant plugin; none is the bypass.
unfoldable pub resolve_company_id : Option RequestScope → Result IsolationViolation (Option ℕ)
resolve_company_id none = ok none
resolve_company_id (some ctx) = elim ctx.role [
  | none ↦ ok none
  | some role ↦ elim role [
    | super_admin ↦ ok none
    | _ ↦ elim ctx.company_id [ none ↦ err missing_company_id | some c ↦ ok (some c) ]
  ]
]

-- `??`.
abbrev first_of : Option ℕ → Option ℕ → Option ℕ
first_of none b = b
first_of (some a) b = some a

-- `resolveFuelCompanyId` of the multi-party plugin.
unfoldable pub resolve_fuel_company_id : Option RequestScope → Result IsolationViolation (Option ℕ)
resolve_fuel_company_id none = ok none
resolve_fuel_company_id (some ctx) = elim ctx.role [
  | none ↦ ok none
  | some role ↦ elim role [
    | super_admin ↦ ok none
    | transport_company_admin ↦ elim ctx.parent_fuel_company_id [
      | none ↦ err missing_parent_fuel_company_id
      | some c ↦ ok (some c)
    ]
    | _ ↦ elim (first_of ctx.parent_fuel_company_id ctx.company_id) [
      | none ↦ err missing_fuel_company_id
      | some c ↦ ok (some c)
    ]
  ]
]

-- The filter that is put on a query: the fuel company, and one more party of most roles.
pub data PartyFilter : Type 0 where
  of_fuel_company : ℕ → PartyFilter
  of_transporter of_client of_driver : ℕ → ℕ → PartyFilter

-- The role's part of `resolveFilter`.
unfoldable pub role_filter :
    UserRole → ℕ → ℕ → Option ℕ → Result IsolationViolation (Option PartyFilter)
role_filter super_admin fuel user company = err no_scoping_rule
role_filter fuel_company_admin fuel user company = ok (some (of_fuel_company fuel))
role_filter transport_company_admin fuel user none = err missing_company_id
role_filter transport_company_admin fuel user (some c) = ok (some (of_transporter fuel c))
role_filter client fuel user company = ok (some (of_client fuel user))
role_filter driver fuel user company = ok (some (of_driver fuel user))

-- `resolveFilter`; none is the bypass.
unfoldable pub resolve_filter : Option RequestScope → Result IsolationViolation (Option PartyFilter)
resolve_filter none = ok none
resolve_filter (some ctx) = resolve_fuel_company_id (some ctx) >>= λ fuel. elim fuel [
  | none ↦ ok none
  | some c ↦ elim ctx.user_id [
    | none ↦ err missing_user_id
    | some user ↦ elim ctx.role [
      | none ↦ err no_scoping_rule
      | some role ↦ role_filter role c user ctx.company_id
    ]
  ]
]

-- The parties of a document: an order has all four, an invoice no driver.
pub record Parties : Type 0 where
  pub fuel_company_id : ℕ
  pub transport_company_id : Option ℕ
  pub client_id : ℕ
  pub driver_id : Option ℕ

abbrev pub parties_of_order : Order → Parties
parties_of_order o = record {
  fuel_company_id = o.fuel_company_id;
  transport_company_id = o.transport_company_id;
  client_id = o.client_id;
  driver_id = o.driver_id;
}

abbrev pub parties_of_invoice : Invoice → Parties
parties_of_invoice i = record {
  fuel_company_id = i.fuel_company_id;
  transport_company_id = i.transport_company_id;
  client_id = i.client_id;
  driver_id = none;
}

-- Whether a document passes the filter.
unfoldable pub passes : Option PartyFilter → Parties → Bool
passes none p = true
passes (some (of_fuel_company c)) p = p.fuel_company_id == c
passes (some (of_transporter c t)) p = (p.fuel_company_id == c) && is_id p.transport_company_id t
passes (some (of_client c u)) p = (p.fuel_company_id == c) && (p.client_id == u)
passes (some (of_driver c u)) p = (p.fuel_company_id == c) && is_id p.driver_id u

-- A scoped `find`. `wanted` is the caller's own condition, on other fields than the filter's: where it
-- names one of those, the filter's value takes its place.
unfoldable pub find_scoped {ℓ} :
    {A : Type ℓ}
    → (A → Parties)
    → Option RequestScope
    → (A → Bool)
    → List A
    → Result IsolationViolation (List A)
find_scoped parties ctx wanted xs = do
  scope ← resolve_filter ctx
  ok (filter (λ x. passes scope (parties x) && wanted x) xs)

-- The `save` of a new document, whose owner is forced.
unfoldable pub scope_new : Option RequestScope → Parties → Result IsolationViolation Parties
scope_new ctx p = do
  owner ← resolve_fuel_company_id ctx
  ok (elim owner [ none ↦ p | some c ↦ record p { fuel_company_id = c } ])
