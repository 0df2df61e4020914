-- ===== src/Pagination/Tests.antt =====
-- The filter of src/common/pagination/cursor.util.ts for a list sorted by `createdAt` (field 0) and
-- `_id` (field 1), both descending.
use ciro_fuel_backend.Prelude.{ℕ, zero, suc, ◌≡◌, List, [], ◌∷◌}
use ciro_fuel_backend.Pagination.{
  CursorSortField, desc, Fields, build_keyset_filter, passes, extract_cursor_payload,
}
use ciro_fuel_backend.Pagination.Keyset.{is_after, keyset_filter-is_after}

abbrev sort_keys : List CursorSortField
sort_keys = record { field = 0; direction = desc } ∷ record { field = 1; direction = desc } ∷ []

abbrev created : ℕ → ℕ → Fields
created t i zero = t
created t i (suc f) = i

keyset_filter-is_after_example :
    passes
      (build_keyset_filter sort_keys (extract_cursor_payload (created 50 7) sort_keys))
      (created 50 6)
    ≡ is_after sort_keys (created 50 6) (created 50 7)
keyset_filter-is_after_example = keyset_filter-is_after sort_keys (created 50 7) (created 50 6)
