-- ===== src/Pagination/Queries.antt =====
-- util/common-handler/common/pagination.go: the queries of a page.
-- A query is the list of the calls made on gorm's builder, oldest first.
use rollytics.Prelude.{ℕ, List, [], ◌∷◌, map, Option, none, some}
use rollytics.Prelude.Int.{ℤ}
use rollytics.Text.{Text, codes}
use rollytics.Pagination.{
  Order, desc, asc, unset_cursor, offset_cursor, sequence_cursor, height_cursor, composite_cursor,
  Value, int_value, string_value, Pagination, safe_get_int64, safe_get_string,
}

pub data Clause : Type 0 where
  where_before : List (Text × Value) → Clause
  where_after : List (Text × Value) → Clause
  order_by : List (Text × Order) → Clause
  offset : ℕ → Clause
  limit : ℕ → Clause

-- `OrderBy`
unfoldable pub order_columns : List Text → Order → List (Text × Order)
order_columns keys order = map (λ key. (key, order)) keys

-- `query.Order(p.OrderBy(keys...)).Offset(p.Offset).Limit(p.Limit)`
unfoldable pub by_offset : List Text → Pagination → List Clause
unfolding order_columns
by_offset keys p = order_by (order_columns keys p.order) ∷ offset p.offset ∷ limit p.limit ∷ []

-- `Where` with `<` in descending and `>` in ascending order.
unfoldable pub where_past : List (Text × Value) → Pagination → Clause
where_past values p = elim p.order [ desc ↦ where_before values | asc ↦ where_after values ]

-- The branch of a cursor on one integer column.
unfoldable pub by_key : Text → Pagination → List Clause
unfolding by_offset where_past safe_get_int64 order_columns
by_key key p = elim (safe_get_int64 key p) [
  | none ↦ by_offset (key ∷ []) p
  | some v ↦
      where_past ((key, int_value v) ∷ []) p
      ∷ order_by (order_columns (key ∷ []) p.order)
      ∷ limit p.limit
      ∷ []
]

unfoldable pub apply_to_nft_collection : Pagination → List Clause
unfolding by_key by_offset
apply_to_nft_collection p = elim p.cursor_type [
  | height_cursor ↦ by_key (codes "height") p
  | offset_cursor ↦ by_offset (codes "height" ∷ []) p
  | unset_cursor ↦ by_offset (codes "height" ∷ []) p
  | sequence_cursor ↦ by_offset (codes "height" ∷ []) p
  | composite_cursor ↦ by_offset (codes "height" ∷ []) p
]

unfoldable pub apply_to_block : Pagination → List Clause
unfolding by_key by_offset
apply_to_block p = elim p.cursor_type [
  | height_cursor ↦ by_key (codes "height") p
  | offset_cursor ↦ by_offset (codes "height" ∷ []) p
  | unset_cursor ↦ by_offset (codes "height" ∷ []) p
  | sequence_cursor ↦ by_offset (codes "height" ∷ []) p
  | composite_cursor ↦ by_offset (codes "height" ∷ []) p
]

unfoldable pub apply_sequence : Pagination → List Clause
unfolding by_key by_offset
apply_sequence p = elim p.cursor_type [
  | sequence_cursor ↦ by_key (codes "sequence") p
  | offset_cursor ↦ by_offset (codes "sequence" ∷ []) p
  | unset_cursor ↦ by_offset (codes "sequence" ∷ []) p
  | height_cursor ↦ by_offset (codes "sequence" ∷ []) p
  | composite_cursor ↦ by_offset (codes "sequence" ∷ []) p
]

-- The argument `orderBy` of `ApplyToNft`, compared with "token_id".
pub data NftOrder : Type 0 where
  by_token_id other_order : NftOrder

unfoldable pub get_nft_fallback_order : NftOrder → Pagination → List Clause
unfolding by_offset
get_nft_fallback_order by_token_id p = by_offset (codes "token_id" ∷ codes "height" ∷ []) p
get_nft_fallback_order other_order p = by_offset (codes "height" ∷ codes "token_id" ∷ []) p

-- The branch of a composite cursor, on the values of its two fields.
unfoldable pub by_pair : NftOrder → Option ℤ → Option Text → Pagination → List Clause
unfolding get_nft_fallback_order where_past order_columns
by_pair by_token_id (some height) (some token_id) p =
    where_past ((codes "token_id", string_value token_id) ∷ (codes "height", int_value height) ∷ [])
      p
    ∷ order_by (order_columns (codes "token_id" ∷ codes "height" ∷ []) p.order)
    ∷ limit p.limit
    ∷ []
by_pair other_order (some height) (some token_id) p =
    where_past ((codes "height", int_value height) ∷ (codes "token_id", string_value token_id) ∷ [])
      p
    ∷ order_by (order_columns (codes "height" ∷ codes "token_id" ∷ []) p.order)
    ∷ limit p.limit
    ∷ []
by_pair order (some height) none p = get_nft_fallback_order order p
by_pair order none token_id p = get_nft_fallback_order order p

unfoldable pub apply_to_nft : NftOrder → Pagination → List Clause
unfolding by_pair get_nft_fallback_order where_past safe_get_int64 safe_get_string
apply_to_nft order p = elim p.cursor_type [
  | composite_cursor ↦
      by_pair order (safe_get_int64 (codes "height") p) (safe_get_string (codes "token_id") p) p
  | height_cursor ↦ elim (safe_get_int64 (codes "height") p) [
    | none ↦ get_nft_fallback_order order p
    | some h ↦ where_past ((codes "height", int_value h) ∷ []) p ∷ get_nft_fallback_order order p
  ]
  | offset_cursor ↦ get_nft_fallback_order order p
  | unset_cursor ↦ get_nft_fallback_order order p
  | sequence_cursor ↦ get_nft_fallback_order order p
]
