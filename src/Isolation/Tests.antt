-- ===== src/Isolation/Tests.antt =====
-- The filter of src/common/plugins/multi-party-scope.plugin.ts for the admin of transport company 3
-- of fuel company 1, who asks for the documents of client 2.
use ciro_fuel_backend.Prelude.{◌≡◌, refl, Bool, true, none, some, [], ◌∷◌, ◌==◌, All}
use ciro_fuel_backend.Order.{transport_company_admin}
use ciro_fuel_backend.Isolation.{
  RequestScope, Parties, resolve_fuel_company_id, role_filter, resolve_filter, passes, find_scoped,
}
use ciro_fuel_backend.Isolation.Scope.{IsOwn, find_scoped-IsOwn}

abbrev transporter : RequestScope
transporter = record {
  role = some transport_company_admin;
  user_id = some 9;
  company_id = some 3;
  parent_fuel_company_id = some 1;
}

abbrev own : Parties
own = record { fuel_company_id = 1; transport_company_id = some 3; client_id = 2; driver_id = none }

abbrev of_client_2 : Parties → Bool
of_client_2 p = p.client_id == 2

find_scoped-IsOwn_example :
    All (λ p. IsOwn transport_company_admin transporter p × (of_client_2 p ≡ true)) (own ∷ [])
unfolding find_scoped resolve_filter resolve_fuel_company_id role_filter passes
find_scoped-IsOwn_example =
    find_scoped-IsOwn (λ p. p) transporter transport_company_admin of_client_2
      (own ∷ record own { transport_company_id = some 4 } ∷ record own { client_id = 5 } ∷ [])
      (own ∷ []) refl refl
