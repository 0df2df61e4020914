-- ===== src/Pagination.antt =====
-- src/common/pagination/cursor.util.ts: the filter that a page of a list starts from, and the values
-- that a cursor carries. A field is a number of its name, and its value a number that orders as the
-- value does. The fields of a sort are distinct, so that no condition of a clause replaces another.
pub mod Keyset
mod Tests
use ciro_fuel_backend.Prelude.{
  ℕ, Bool, List, [], ◌∷◌, ◌++◌, map, any, all, ltb, ◌==◌, if◌then◌else◌,
}

pub data Direction : Type 0 where
  asc desc : Direction

pub record CursorSortField : Type 0 where
  pub field : ℕ
  pub direction : Direction

-- The fields of a document, and of a decoded cursor.
abbrev pub Fields : Type 0
Fields = ℕ → ℕ

-- The conditions of a clause: an equality, `$lt` and `$gt`.
pub data Condition : Type 0 where
  equals lt gt : ℕ → ℕ → Condition

-- A document that satisfies a condition.
unfoldable pub satisfies : Fields → Condition → Bool
satisfies d (equals f v) = d f == v
satisfies d (lt f v) = ltb (d f) v
satisfies d (gt f v) = ltb v (d f)

unfoldable pub equality : Fields → CursorSortField → Condition
equality boundary k = equals k.field (boundary k.field)

unfoldable pub beyond : Fields → CursorSortField → Condition
beyond boundary k = elim k.direction [
  | desc ↦ lt k.field (boundary k.field)
  | asc ↦ gt k.field (boundary k.field)
]

-- The loop of `buildKeysetFilter`, with the keys that it has passed.
unfoldable pub clauses_from :
    Fields → List CursorSortField → List CursorSortField → List (List Condition)
clauses_from boundary passed [] = []
clauses_from boundary passed (k ∷ ks) =
    (map (equality boundary) passed ++ beyond boundary k ∷ [])
    ∷ clauses_from boundary (passed ++ k ∷ []) ks

-- The clauses under `$or`.
unfoldable pub build_keyset_filter : List CursorSortField → Fields → List (List Condition)
build_keyset_filter keys boundary = clauses_from boundary [] keys

-- A document that the filter lets through.
unfoldable pub passes : List (List Condition) → Fields → Bool
unfolding satisfies
passes clauses d = any (all (satisfies d)) clauses

-- `extractCursorPayload`: the values of the sort's fields alone, and zero where there is none.
unfoldable pub extract_cursor_payload : Fields → List CursorSortField → Fields
extract_cursor_payload d [] f = 0
extract_cursor_payload d (k ∷ ks) f =
    let rest : ℕ = extract_cursor_payload d ks f in if k.field == f then d f else rest
