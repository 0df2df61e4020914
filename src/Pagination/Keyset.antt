-- ===== src/Pagination/Keyset.antt =====
-- The filter and the order of the list that it pages through.
use ciro_fuel_backend.Prelude.{
  ℕ, ◌≡◌, refl, ap, ◌∙◌, Bool, true, false, ◌&&◌, ◌||◌, List, [], ◌∷◌, ◌++◌, map, any, all,
  all-append, ltb, ◌==◌, arith, ==_refl,
}
use ciro_fuel_backend.Pagination.{
  asc, desc, CursorSortField, Fields, satisfies, equality, beyond, clauses_from,
  build_keyset_filter, passes, extract_cursor_payload,
}

-- The strict order of the sort on one field.
abbrev pub is_after_on : CursorSortField → Fields → Fields → Bool
is_after_on k d b = elim k.direction [
  | desc ↦ ltb (d k.field) (b k.field)
  | asc ↦ ltb (b k.field) (d k.field)
]

-- The lexicographic order of the sort: the document comes strictly after the boundary.
abbrev pub is_after : List CursorSortField → Fields → Fields → Bool
is_after [] d b = false
is_after (k ∷ ks) d b = is_after_on k d b || ((d k.field == b k.field) && is_after ks d b)

abbrev ties : Fields → Fields → List CursorSortField → Bool
ties b d ks = all (satisfies d) (map (equality b) ks)

map-append :
    (b : Fields) (xs ys : List CursorSortField)
    → map (equality b) (xs ++ ys) ≡ map (equality b) xs ++ map (equality b) ys
map-append b [] ys = refl
map-append b (x ∷ xs) ys = ap (λ t. equality b x ∷ t) (map-append b xs ys)

beyond-is_after :
    (b d : Fields) (k : CursorSortField) → satisfies d (beyond b k) ≡ is_after_on k d b
unfolding satisfies beyond
beyond-is_after b d k = ground arith

equality-tie :
    (b d : Fields) (k : CursorSortField) → satisfies d (equality b k) ≡ (d k.field == b k.field)
unfolding satisfies equality
equality-tie b d k = refl

regroup :
    (t a e r : Bool) → ((t && (a && true)) || ((t && (e && true)) && r)) ≡ (t && (a || (e && r)))
regroup t a e r = ground arith

clauses-is_after :
    (b d : Fields) (passed ks : List CursorSortField)
    → passes (clauses_from b passed ks) d ≡ (ties b d passed && is_after ks d b)
unfolding passes clauses_from
clauses-is_after b d passed [] = ground arith
clauses-is_after b d passed (k ∷ ks) =
    rw
      (
        clauses-is_after b d (passed ++ k ∷ []) ks,
        all-append (satisfies d) (map (equality b) passed) (beyond b k ∷ []),
        map-append b passed (k ∷ []),
        all-append (satisfies d) (map (equality b) passed) (equality b k ∷ []),
        beyond-is_after b d k,
        equality-tie b d k,
      )
      (regroup (ties b d passed) (is_after_on k d b) (d k.field == b k.field) (is_after ks d b))

-- The filter for a boundary lets a document through exactly if it comes strictly after the boundary.
build_keyset_filter-is_after :
    (keys : List CursorSortField) (boundary d : Fields)
    → passes (build_keyset_filter keys boundary) d ≡ is_after keys d boundary
unfolding build_keyset_filter
build_keyset_filter-is_after keys boundary d = clauses-is_after boundary d [] keys

abbrev has_field : ℕ → List CursorSortField → Bool
has_field f ks = any (λ (k : CursorSortField). k.field == f) ks

extract-has_field :
    (d : Fields) (ks : List CursorSortField) (f : ℕ)
    → has_field f ks ≡ true
    → extract_cursor_payload d ks f ≡ d f
unfolding extract_cursor_payload
extract-has_field d [] f h = cc
extract-has_field d (k ∷ ks) f h = ground (arith, extract-has_field d ks f)

is_after-agree :
    (ks : List CursorSortField) (d b b' : Fields)
    → ((f : ℕ) → has_field f ks ≡ true → b f ≡ b' f)
    → is_after ks d b ≡ is_after ks d b'
is_after-agree [] d b b' h = refl
is_after-agree (k ∷ ks) d b b' h = ground (
  arith,
  h k.field (ground (arith, ==_refl k.field)),
  is_after-agree ks d b b' (λ f e. h f (ground (arith, e))),
)

-- A page goes on exactly where the last one ended: the filter made from the cursor of a document
-- lets another one through exactly if it comes strictly after the first in the order of the sort.
pub keyset_filter-is_after :
    (keys : List CursorSortField) (last d : Fields)
    → passes (build_keyset_filter keys (extract_cursor_payload last keys)) d ≡ is_after keys d last
keyset_filter-is_after keys last d =
    build_keyset_filter-is_after keys (extract_cursor_payload last keys) d
    ∙ is_after-agree keys d (extract_cursor_payload last keys) last (extract-has_field last keys)
