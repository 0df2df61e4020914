-- ===== src/PlatformAccount/Reversals.antt =====
-- The reversal of an invoice's movements.
use ciro_fuel_backend.Prelude.{
  ℕ, ◌+◌, ◌≡◌, refl, sym, ap, ◌∙◌, Bool, true, false, not, ◌&&◌, ◌||◌, Option, none, some, List, [],
  ◌∷◌, ◌++◌, any, any-append, filter, All, arith, is_some, get_or, ok, ◌==◌, ==_refl, if◌then◌else◌,
  inl, inr, Bool-cases,
}
use ciro_fuel_backend.Prelude.Int.{ℤ, pos, ◌+ℤ◌, neg, int_laws, +ℤ_assoc}
use ciro_fuel_backend.PlatformAccount.{
  AccountMovement, AccountMovementKind, create_movement, insert, collides, get_confirmed_balance,
  is_in_balance, is_confirmed, same_kind, is_original_of, reverses, reversal_of, reverse_originals,
  reverse_movements_for_invoice, is_visible,
}
use ciro_fuel_backend.PlatformAccount.Balances.{share, get_confirmed_balance_cons}

-- The rows that the loop appends.
abbrev reversal_rows : ℕ → List AccountMovement → List AccountMovement → List AccountMovement
reversal_rows next before [] = []
reversal_rows next before (m ∷ ms) =
    let kept : List AccountMovement = reversal_rows next before ms in
    let added : List AccountMovement = reversal_rows (next + 1) before ms in
    if any (reverses m.id) before then kept else reversal_of next m ∷ added

reversal-collides :
    (i : ℕ) (m : AccountMovement) (c : ℕ) (l : List AccountMovement)
    → any (collides (record (reversal_of i m) { company_id = c })) l ≡ false
unfolding collides reversal_of
reversal-collides i m c [] = refl
reversal-collides i m c (n ∷ l) = ground (arith, reversal-collides i m c l)

create-reversal :
    (acting : Option ℕ) (i : ℕ) (m : AccountMovement) (l : List AccountMovement)
    → create_movement acting (reversal_of i m) l
      ≡ ok (
        record (reversal_of i m) { company_id = get_or acting m.company_id },
        l ++ reversal_of i m ∷ [],
      )
unfolding create_movement insert reversal_of
create-reversal acting i m l =
    rw (reversal-collides i m (get_or acting m.company_id) l, reversal-collides i m m.company_id l)
      refl

append_nil : (l : List AccountMovement) → l ++ [] ≡ l
append_nil [] = refl
append_nil (m ∷ l) = ap (λ t. m ∷ t) (append_nil l)

append_step :
    (l : List AccountMovement) (m : AccountMovement) (r : List AccountMovement)
    → (l ++ m ∷ []) ++ r ≡ l ++ m ∷ r
append_step [] m r = refl
append_step (n ∷ l) m r = ap (λ t. n ∷ t) (append_step l m r)

reverse_originals-rows :
    (acting : Option ℕ) (next : ℕ) (before ms l : List AccountMovement)
    → reverse_originals acting next before ms l ≡ ok (l ++ reversal_rows next before ms)
unfolding reverse_originals
reverse_originals-rows acting next before [] l = rw (append_nil l) refl
reverse_originals-rows acting next before (m ∷ ms) l =
    elim (Bool-cases (any (reverses m.id) before)) [
      | inl e ↦ rw (reverse_originals, e) (reverse_originals-rows acting next before ms l)
      | inr e ↦
          rw
            (
              reverse_originals,
              e,
              create-reversal acting next m l,
              sym (append_step l (reversal_of next m) (reversal_rows (next + 1) before ms)),
            )
            (reverse_originals-rows acting (next + 1) before ms (l ++ reversal_of next m ∷ []))
    ]

bools_in : (x y z : Bool) → (x && y) ≡ true → z ≡ true → (x && (y && z)) ≡ true
bools_in x y z h e = ground (arith, h, e)

bools_out : (x y z : Bool) → (x && y) ≡ false → (x && (y && z)) ≡ false
bools_out x y z h = ground (arith, h)

share_in :
    (c : ℕ) (k : AccountMovementKind) (m : AccountMovement)
    → ((m.company_id == c) && same_kind m.kind k) ≡ true
    → is_confirmed m.state ≡ true
    → share c k m ≡ (if is_some m.reversal_of_id then neg (pos m.amount) else pos m.amount)
share_in c k m e s =
    let within : is_in_balance c k m ≡ true = bools_in (m.company_id == c) _ _ e s in rw within refl

share_out :
    (c : ℕ) (k : AccountMovementKind) (m : AccountMovement)
    → ((m.company_id == c) && same_kind m.kind k) ≡ false
    → share c k m ≡ pos 0
share_out c k m e =
    let without : is_in_balance c k m ≡ false =
      bools_out (m.company_id == c) _ (is_confirmed m.state) e in
    rw without refl

reversal-share :
    (c : ℕ) (k : AccountMovementKind) (invoice i : ℕ) (m : AccountMovement)
    → is_original_of invoice m ≡ true
    → share c k (reversal_of i m) ≡ neg (share c k m)
unfolding reversal_of
reversal-share c k invoice i m h =
    let first : is_some m.reversal_of_id ≡ false = ground (arith, h) in
    let settled : is_confirmed m.state ≡ true = ground (arith, h) in
    elim (Bool-cases ((m.company_id == c) && same_kind m.kind k)) [
      | inl e ↦ rw (share_in c k (reversal_of i m) e refl, share_in c k m e settled, first) refl
      | inr e ↦ rw (share_out c k (reversal_of i m) e, share_out c k m e) (grind int_laws)
    ]

cancel : (s x y : ℤ) → x +ℤ y ≡ pos 0 → (neg s +ℤ x) +ℤ (s +ℤ y) ≡ pos 0
cancel s x y h = grind (int_laws, h)

-- The originals that had no reversal before the call.
abbrev pub unreversed : List AccountMovement → List AccountMovement → List AccountMovement
unreversed before ms = filter (λ m. not (any (reverses m.id) before)) ms

-- The balance of some rows.
reversal_rows-balance :
    (c : ℕ) (k : AccountMovementKind) (invoice next : ℕ) (before ms : List AccountMovement)
    → All (λ m. is_original_of invoice m ≡ true) ms
    → get_confirmed_balance c k (reversal_rows next before ms)
        +ℤ get_confirmed_balance c k (unreversed before ms)
      ≡ pos 0
unfolding get_confirmed_balance
reversal_rows-balance c k invoice next before [] h = grind int_laws
reversal_rows-balance c k invoice next before (m ∷ ms) h =
    elim (Bool-cases (any (reverses m.id) before)) [
      | inl e ↦ rw e (reversal_rows-balance c k invoice next before ms h.1)
      | inr e ↦
          rw
            (
              e,
              get_confirmed_balance_cons c k (reversal_rows (next + 1) before ms)
                  (reversal_of next m),
              get_confirmed_balance_cons c k (unreversed before ms) m,
              reversal-share c k invoice next m h.0,
            )
            (cancel (share c k m) _ _ (reversal_rows-balance c k invoice (next + 1) before ms h.1))
    ]

abbrev names : ℕ → AccountMovement → Bool
names i m = m.id == i

rows-cover :
    (i next : ℕ) (before ms : List AccountMovement)
    → any (names i) ms ≡ true
    → (any (reverses i) before || any (reverses i) (reversal_rows next before ms)) ≡ true
unfolding reversal_of
rows-cover i next before [] h = cc
rows-cover i next before (m ∷ ms) h = elim (Bool-cases (any (reverses m.id) before)) [
  | inl e ↦ rw e (ground (arith, e, rows-cover i next before ms))
  | inr e ↦ rw e (ground (arith, e, rows-cover i (next + 1) before ms))
]

rows-none :
    (next : ℕ) (before ms : List AccountMovement)
    → ((i : ℕ) → any (names i) ms ≡ true → any (reverses i) before ≡ true)
    → reversal_rows next before ms ≡ []
rows-none next before [] h = refl
rows-none next before (m ∷ ms) h =
    rw (h m.id (ground (arith, ==_refl m.id)))
      (rows-none next before ms (λ i e. h i (ground (arith, e))))

rows-originals :
    (invoice next : ℕ) (before ms : List AccountMovement)
    → filter (is_original_of invoice) (reversal_rows next before ms) ≡ []
unfolding reversal_of
rows-originals invoice next before [] = refl
rows-originals invoice next before (m ∷ ms) = elim (Bool-cases (any (reverses m.id) before)) [
  | inl e ↦ rw e (rows-originals invoice next before ms)
  | inr e ↦ rw e (ground (arith, rows-originals invoice (next + 1) before ms))
]

filter-append :
    (p : AccountMovement → Bool) (l r : List AccountMovement)
    → filter p r ≡ []
    → filter p (l ++ r) ≡ filter p l
filter-append p [] r h = h
filter-append p (m ∷ l) r h = ground (arith, filter-append p l r h)

All-filter :
    (p : AccountMovement → Bool) (l : List AccountMovement) → All (λ m. p m ≡ true) (filter p l)
All-filter p [] = tt
All-filter p (m ∷ l) = elim (Bool-cases (p m)) [
  | inl e ↦ rw e (e, All-filter p l)
  | inr e ↦ rw e (All-filter p l)
]

get_confirmed_balance-rows :
    (c : ℕ) (k : AccountMovementKind) (l r : List AccountMovement)
    → get_confirmed_balance c k (l ++ r)
      ≡ get_confirmed_balance c k l +ℤ get_confirmed_balance c k r
unfolding get_confirmed_balance
get_confirmed_balance-rows c k [] r = grind int_laws
get_confirmed_balance-rows c k (m ∷ l) r =
    rw
      (
        get_confirmed_balance_cons c k (l ++ r) m,
        get_confirmed_balance_cons c k l m,
        get_confirmed_balance-rows c k l r,
      )
      (sym (+ℤ_assoc (share c k m) (get_confirmed_balance c k l) (get_confirmed_balance c k r)))

visible-append :
    (p : AccountMovement → Bool) (l r : List AccountMovement)
    → filter p (l ++ r) ≡ filter p l ++ filter p r
visible-append p [] r = refl
visible-append p (m ∷ l) r = ground (arith, visible-append p l r)

-- The reversals of rows that are seen are seen.
visible-rows :
    (acting : Option ℕ) (next : ℕ) (before ms : List AccountMovement)
    → All (λ m. is_visible acting m ≡ true) ms
    → filter (is_visible acting) (reversal_rows next before ms) ≡ reversal_rows next before ms
unfolding reversal_of
visible-rows acting next before [] h = refl
visible-rows acting next before (m ∷ ms) h = elim (Bool-cases (any (reverses m.id) before)) [
  | inl e ↦ rw e (visible-rows acting next before ms h.1)
  | inr e ↦
      let same_company : is_visible acting (reversal_of next m) ≡ true =
        seen_reversal acting next m h.0 in
      rw (e, same_company)
        (ap (λ t. reversal_of next m ∷ t) (visible-rows acting (next + 1) before ms h.1))
]
  where
    seen_reversal :
        (acting : Option ℕ) (next : ℕ) (m : AccountMovement)
        → is_visible acting m ≡ true
        → is_visible acting (reversal_of next m) ≡ true
    seen_reversal none next m h = refl
    seen_reversal (some c) next m h = h

All-filter_both :
    (p q : AccountMovement → Bool) (l : List AccountMovement)
    → All (λ m. p m ≡ true) (filter q (filter p l))
All-filter_both p q [] = tt
All-filter_both p q (m ∷ l) = elim (Bool-cases (p m)) [
  | inr e ↦ rw e (All-filter_both p q l)
  | inl e ↦ elim (Bool-cases (q m)) [
    | inl f ↦ rw (e, f) (e, All-filter_both p q l)
    | inr f ↦ rw (e, f) (All-filter_both p q l)
  ]
]

-- A reversal always goes through. It takes those of the invoice's confirmed movements that the acting
-- company sees and that had no reversal out of every balance of every company, and a second one of
-- the same company adds nothing.
pub reverse_movements_once :
    (acting : Option ℕ) (next next' invoice : ℕ) (l : List AccountMovement)
    → (l' : List AccountMovement) × (reverse_movements_for_invoice acting next invoice l ≡ ok l')
      × ((c : ℕ) (k : AccountMovementKind)
          → get_confirmed_balance c k l'
              +ℤ get_confirmed_balance c k (
                  unreversed
                    (filter (is_visible acting) l)
                    (filter (is_original_of invoice) (filter (is_visible acting) l)))
            ≡ get_confirmed_balance c k l)
      × (reverse_movements_for_invoice acting next' invoice l' ≡ ok l')
unfolding reverse_movements_for_invoice
reverse_movements_once acting next next' invoice l =
    let seen : List AccountMovement = filter (is_visible acting) l in
    let ms : List AccountMovement = filter (is_original_of invoice) seen in
    let rows : List AccountMovement = reversal_rows next seen ms in
    let seen_later : filter (is_visible acting) (l ++ rows) ≡ seen ++ rows =
      visible-append (is_visible acting) l rows
      ∙ ap (λ t. seen ++ t)
          (visible-rows acting next seen ms (All-filter_both (is_visible acting) _ l)) in
    let same : filter (is_original_of invoice) (seen ++ rows) ≡ ms =
      filter-append (is_original_of invoice) seen rows (rows-originals invoice next seen ms) in
    let covered : (i : ℕ) → any (names i) ms ≡ true → any (reverses i) (seen ++ rows) ≡ true =
      λ i h. any-append (reverses i) seen rows ∙ rows-cover i next seen ms h in
    (
      l ++ rows,
      reverse_originals-rows acting next seen ms l,
      (λ c k. rw (get_confirmed_balance-rows c k l rows) (
          +ℤ_assoc _ _ _
          ∙ zero_right _ _ (
              reversal_rows-balance c k invoice next seen ms
                (All-filter (is_original_of invoice) seen)))),
      rw (seen_later, same)
          (reverse_originals-rows acting next' (seen ++ rows) ms (l ++ rows)
            ∙ ap ok (rw (rows-none next' (seen ++ rows) ms covered) (append_nil (l ++ rows)))),
    )
  where
    zero_right : (x y : ℤ) → y ≡ pos 0 → x +ℤ y ≡ x
    zero_right x y h = grind (int_laws, h)
