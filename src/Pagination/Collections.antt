-- ===== src/Pagination/Collections.antt =====
-- api/handler/nft/collection.go: `GetCollections`, on the heights of the collections.
-- The count and the rows are what the database answers; another error of the database, and the
-- creators of the collections, are left out. `list_all` is a client that follows the next keys.
use rollytics.Prelude.{
  ℕ, zero, suc, Bool, List, [], ◌∷◌, ◌++◌, Option, none, some, ◌>>=◌, ◌==◌, length,
}
use rollytics.Prelude.Int.{ℤ, pos}
use rollytics.Text.{Text, codes}
use rollytics.Pagination.{
  CursorData, Codec, Pagination, PaginationResponse, failed, parsed, offset_cursor, height_data,
  parse_pagination, to_response_with_last_record,
}
use rollytics.Pagination.Queries.{apply_to_nft_collection}
use rollytics.Pagination.Table.{select}

pub record CollectionsResponse : Type 0 where
  pub collections : List ℕ
  pub pagination : PaginationResponse

-- `lastRecord`, as the data of its cursor.
unfoldable pub last_record : List ℕ → Option CursorData
last_record [] = none
last_record (h ∷ []) = some (height_data h)
last_record (h ∷ k ∷ rows) = last_record (k ∷ rows)

-- The response on the pagination of the request.
unfoldable pub respond : Codec → ℕ → List ℕ → Pagination → CollectionsResponse
unfolding last_record
respond codec total rows p =
    let collections = select (codes "height") (apply_to_nft_collection p) rows in
    record {
      collections = collections;
      pagination =
          to_response_with_last_record codec total (length collections == p.limit)
            (last_record collections) p;
    }

unfoldable pub get_collections :
    Codec → Option ℕ → List ℕ → ℤ → ℤ → Text → Bool → Bool → Option CollectionsResponse
unfolding respond
get_collections codec count rows limit offset key reverse count_total =
    elim (parse_pagination codec limit offset key reverse count_total offset_cursor) [
      | failed failure ↦ none
      | parsed p ↦ elim count [ none ↦ none | some total ↦ some (respond codec total rows p) ]
    ]

-- The requests of a client with one limit, from a key on; the offset is the default.
unfoldable pub list_all : Codec → Option ℕ → List ℕ → ℤ → Bool → Bool → ℕ → Text → Option (List ℕ)
unfolding get_collections
list_all codec count rows limit reverse count_total zero key = none
list_all codec count rows limit reverse count_total (suc fuel) key = do
  response ← get_collections codec count rows limit (pos 0) key reverse count_total
  elim response.pagination.next_key [
    | none ↦ some response.collections
    | some next ↦
        list_all codec count rows limit reverse count_total fuel next
        >>= (λ rest. some (response.collections ++ rest))
  ]
