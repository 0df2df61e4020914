-- ===== src/Isolation/Scope.antt =====
-- src/common/plugins/multi-party-scope.plugin.ts: whose documents a scoped query finds.
use ciro_fuel_backend.Prelude.{
  ℕ, ◌≡◌, ap, ◌∙◌, sym, subst, Bool, true, ◌&&◌, ==_iff, is_id, Option, none, some, List, [], ◌∷◌,
  filter, All, ok, arith, Bool-cases, Option-cases, inl, inr, >>=-eq-ok, ok-injective,
}
use ciro_fuel_backend.Order.{
  UserRole, super_admin, fuel_company_admin, transport_company_admin, client, driver,
}
use ciro_fuel_backend.Isolation.{
  RequestScope, Parties, PartyFilter, first_of, resolve_fuel_company_id, role_filter,
  resolve_filter, of_fuel_company, of_transporter, of_client, of_driver, passes, find_scoped,
}

-- The fuel company that an acting user belongs to: of a transporter's admin the parent alone.
abbrev pub home : UserRole → RequestScope → Option ℕ
home transport_company_admin ctx = ctx.parent_fuel_company_id
home _ ctx = first_of ctx.parent_fuel_company_id ctx.company_id

-- A document of the user's own: of its fuel company, and of itself in its role.
abbrev pub IsOwn : UserRole → RequestScope → Parties → Type 0
IsOwn super_admin ctx p = Unit
IsOwn fuel_company_admin ctx p = home fuel_company_admin ctx ≡ some p.fuel_company_id
IsOwn transport_company_admin ctx p =
    (c : ℕ) × (home transport_company_admin ctx ≡ some p.fuel_company_id)
    × (ctx.company_id ≡ some c)
    × (p.transport_company_id ≡ some c)
IsOwn client ctx p = (home client ctx ≡ some p.fuel_company_id) × (ctx.user_id ≡ some p.client_id)
IsOwn driver ctx p =
    (u : ℕ) × (home driver ctx ≡ some p.fuel_company_id)
    × (ctx.user_id ≡ some u)
    × (p.driver_id ≡ some u)

is_id-eq : (o : Option ℕ) (a : ℕ) → is_id o a ≡ true → o ≡ some a
is_id-eq none a h = cc
is_id-eq (some b) a h = ap some ((==_iff b a).0 h)

both : (a b : Bool) → (a && b) ≡ true → (a ≡ true) × (b ≡ true)
both a b h = (ground (arith, h), ground (arith, h))

-- The filter of an acting user lets through what is its own.
passes-IsOwn :
    (ctx : RequestScope) (r : UserRole) (f : Option PartyFilter) (p : Parties)
    → ctx.role ≡ some r
    → resolve_filter (some ctx) ≡ ok f
    → passes f p ≡ true
    → IsOwn r ctx p
unfolding resolve_filter resolve_fuel_company_id role_filter passes
passes-IsOwn ctx super_admin f p e h q = tt
passes-IsOwn ctx fuel_company_admin f p e h q =
    elim (Option-cases (first_of ctx.parent_fuel_company_id ctx.company_id)) [
      | inl n ↦ absurd (ground (arith, h, e, n))
      | inr (c, n) ↦ elim (Option-cases ctx.user_id) [
        | inl m ↦ absurd (ground (arith, h, e, n, m))
        | inr (u, m) ↦
            let g : f ≡ some (of_fuel_company c) = ground (arith, h, e, n, m) in
            n ∙ ap some (sym ((==_iff p.fuel_company_id c).0 (rw (g, passes) at q)))
      ]
    ]
passes-IsOwn ctx transport_company_admin f p e h q =
    elim (Option-cases (ctx.parent_fuel_company_id)) [
      | inl n ↦ absurd (ground (arith, h, e, n))
      | inr (c, n) ↦ elim (Option-cases ctx.user_id) [
        | inl m ↦ absurd (ground (arith, h, e, n, m))
        | inr (u, m) ↦ elim (Option-cases ctx.company_id) [
          | inl k ↦ absurd (ground (arith, h, e, n, m, k))
          | inr (t, k) ↦
              let g : f ≡ some (of_transporter c t) = ground (arith, h, e, n, m, k) in
              let (own, mine) = both _ _ (rw (g, passes) at q) in
              (t, n ∙ ap some (sym ((==_iff p.fuel_company_id c).0 own)), k, is_id-eq _ t mine)
        ]
      ]
    ]
passes-IsOwn ctx client f p e h q =
    elim (Option-cases (first_of ctx.parent_fuel_company_id ctx.company_id)) [
      | inl n ↦ absurd (ground (arith, h, e, n))
      | inr (c, n) ↦ elim (Option-cases ctx.user_id) [
        | inl m ↦ absurd (ground (arith, h, e, n, m))
        | inr (u, m) ↦
            let g : f ≡ some (of_client c u) = ground (arith, h, e, n, m) in
            let (own, mine) = both _ _ (rw (g, passes) at q) in
            (
              n ∙ ap some (sym ((==_iff p.fuel_company_id c).0 own)),
              m ∙ ap some (sym ((==_iff p.client_id u).0 mine)),
            )
      ]
    ]
passes-IsOwn ctx driver f p e h q =
    elim (Option-cases (first_of ctx.parent_fuel_company_id ctx.company_id)) [
      | inl n ↦ absurd (ground (arith, h, e, n))
      | inr (c, n) ↦ elim (Option-cases ctx.user_id) [
        | inl m ↦ absurd (ground (arith, h, e, n, m))
        | inr (u, m) ↦
            let g : f ≡ some (of_driver c u) = ground (arith, h, e, n, m) in
            let (own, mine) = both _ _ (rw (g, passes) at q) in
            (u, n ∙ ap some (sym ((==_iff p.fuel_company_id c).0 own)), m, is_id-eq _ u mine)
      ]
    ]

All-filter {ℓ κ} :
    {A : Type ℓ} (P : A → Type κ) (p : A → Bool) (xs : List A)
    → ((a : A) → p a ≡ true → P a)
    → All P (filter p xs)
All-filter P p [] h = tt
All-filter P p (x ∷ xs) h = elim (Bool-cases (p x)) [
  | inl e ↦ rw e (h x e, All-filter P p xs h)
  | inr e ↦ rw e (All-filter P p xs h)
]

-- What an acting user finds is its own, whatever it asked for: documents of its own fuel company, a
-- transporter's admin those of its transport company, a client those it ordered, and a driver those
-- that it delivers. Only the platform's operator finds others' too.
pub find_scoped-IsOwn {ℓ} :
    {A : Type ℓ} (parties : A → Parties) (ctx : RequestScope) (r : UserRole) (wanted : A → Bool)
    (xs found : List A)
    → ctx.role ≡ some r
    → find_scoped parties (some ctx) wanted xs ≡ ok found
    → All (λ x. IsOwn r ctx (parties x) × (wanted x ≡ true)) found
unfolding find_scoped
find_scoped-IsOwn parties ctx r wanted xs found e h =
    let (f, a, b) = >>=-eq-ok (resolve_filter (some ctx)) _ h in
    subst (All (λ x. IsOwn r ctx (parties x) × (wanted x ≡ true))) (ok-injective _ found b) (
      All-filter (λ x. IsOwn r ctx (parties x) × (wanted x ≡ true)) _ xs
        (λ x q. (passes-IsOwn ctx r f (parties x) e a (ground (arith, q)), ground (arith, q))))
