-- ===== src/Pagination/Cursor.antt =====
-- util/common-handler/common/pagination.go: the page that follows a cursor.
use mathlib.Core.List.{Perm}
use mathlib.Core.Option.{some-injective}
use rollytics.Prelude.{
  ℕ, zero, suc, ◌<◌, ◌^◌, ◌≡◌, refl, ap, subst, ◌∙◌, Bool, true, false, List, [], ◌∷◌, some, arith,
  All, take, drop, get_elem?, ℕ_discrete,
}
use rollytics.Prelude.Int.{pos}
use rollytics.Prelude.GoMap.{get}
use rollytics.Text.{Text, codes, has_prefix}
use rollytics.Pagination.{
  Order, desc, asc, Pagination, int_value, whole_float, CursorData, Codec, parsed, height_cursor,
  sequence_cursor, CursorType, safe_get_int64, to_response_with_last_record, parse_pagination_key,
  parse_json_cursor, detect_cursor_type, has_field, height_data, sequence_data, use_cursor,
}
use rollytics.Pagination.Table.{
  keep, keep-All, order_rows-column, is_past, behind, sort, select, Listed, sort-Listed,
  sort-keep-perm,
}
use rollytics.Pagination.Queries.{
  Clause, where_before, where_after, order_by, limit, by_key, apply_to_block, apply_sequence,
  order_columns,
}

behind_self : (order : Order) (h : ℕ) → behind order h h ≡ false
behind_self desc h = ground arith
behind_self asc h = ground arith

behind-before : (order : Order) (h r : ℕ) → behind order r h ≡ true → behind order h r ≡ false
behind-before desc h r e = ground arith
behind-before asc h r e = ground arith

All-get : (P : ℕ → Type 0) (rows : List ℕ) (n h : ℕ) → get_elem? rows n ≡ some h → All P rows → P h
All-get P [] n h e all = cc
All-get P (r ∷ rows) zero h e all = subst P (some-injective _ _ e) all.0
All-get P (r ∷ rows) (suc n) h e all = All-get P rows n h e all.1

keep-behind :
    (order : Order) (rows : List ℕ) (n h : ℕ)
    → Listed order rows
    → get_elem? rows n ≡ some h
    → keep (behind order h) rows ≡ drop (suc n) rows
unfolding keep
keep-behind order [] n h listed e = cc
keep-behind order (r ∷ rows) zero h listed e =
    let same : r ≡ h = some-injective _ _ e in
    subst (λ k. keep (behind order k) (r ∷ rows) ≡ rows) same
      (rw (behind_self order r) (keep-All (behind order r) rows listed.0))
keep-behind order (r ∷ rows) (suc n) h listed e =
    let after : behind order r h ≡ true =
      All-get (λ x. behind order r x ≡ true) rows n h e listed.0 in
    rw (behind-before order h r after) (keep-behind order rows n h listed.1 e)

Listed-drop :
    (order : Order) (n : ℕ) (rows : List ℕ) → Listed order rows → Listed order (drop n rows)
Listed-drop order zero rows h = h
Listed-drop order (suc n) [] h = tt
Listed-drop order (suc n) (r ∷ rows) h = Listed-drop order n rows h.1

keep-past :
    (order : Order) (key : Text) (h : ℕ) (rows : List ℕ)
    → keep (is_past key order ((key, int_value (pos h)) ∷ [])) rows ≡ keep (behind order h) rows
unfolding keep is_past
keep-past order key h [] = refl
keep-past desc key h (r ∷ rows) = ground (arith, keep-past desc key h rows)
keep-past asc key h (r ∷ rows) = ground (arith, keep-past asc key h rows)

-- What the query keeps of the table, ordered, is the rest of the listing.
sort-past :
    (order : Order) (key : Text) (rows listed : List ℕ) (n h : ℕ)
    → Perm rows listed
    → Listed order listed
    → get_elem? listed n ≡ some h
    → sort order (keep (is_past key order ((key, int_value (pos h)) ∷ [])) rows)
      ≡ drop (suc n) listed
sort-past order key rows listed n h p ordered e =
    ap (sort order) (keep-past order key h rows)
    ∙ sort-keep-perm (behind order h) order rows listed p
    ∙ ap (sort order) (keep-behind order listed n h ordered e)
    ∙ sort-Listed order (drop (suc n) listed) (Listed-drop order (suc n) listed ordered)

select-by_key :
    (key : Text) (p : Pagination) (rows listed : List ℕ) (n h : ℕ)
    → Perm rows listed
    → Listed p.order listed
    → get_elem? listed n ≡ some h
    → safe_get_int64 key p ≡ some (pos h)
    → select key (by_key key p) rows ≡ take p.limit (drop (suc n) listed)
unfolding select by_key order_columns
select-by_key key p rows listed n h perm ordered e found =
    rw (found, by_key) (go p.order p.limit ordered)
  where
    go :
        (order : Order) (max : ℕ)
        → Listed order listed
        → select key
            (elim order as (λ _. Clause) [
              | desc ↦ where_before ((key, int_value (pos h)) ∷ [])
              | asc ↦ where_after ((key, int_value (pos h)) ∷ [])
            ]
              ∷ order_by (order_columns (key ∷ []) order)
              ∷ limit max
              ∷ [])
            rows
          ≡ take max (drop (suc n) listed)
    go desc max there = ap (take max) (
        order_rows-column key desc (keep (is_past key desc ((key, int_value (pos h)) ∷ [])) rows)
        ∙ sort-past desc key rows listed n h perm there e)
    go asc max there = ap (take max) (
        order_rows-column key asc (keep (is_past key asc ((key, int_value (pos h)) ∷ [])) rows)
        ∙ sort-past asc key rows listed n h perm there e)

-- What the codec does with a cursor of one integer: base64 is undone, an object begins with a
-- brace, and an integer that a float64 holds is read back as that float64.
pub record ReadsCursors (codec : Codec) : Type 0 where
  pub undone : (s : Text) → codec.decode_base64 (codec.encode_base64 s) ≡ some s
  pub opened : (d : CursorData) → has_prefix (codec.trim_space (codec.marshal d)) (codes "{") ≡ true
  pub exact :
      (field : Text) (v : ℕ)
      → v < 2 ^ 53
      → codec.unmarshal (codec.marshal ((field, int_value (pos v)) ∷ []))
        ≡ some ((field, whole_float (pos v)) ∷ [])

-- The request for the next page has the pagination of this one, and the cursor of the key.
abbrev pub with_cursor : Text → ℕ → CursorType → Pagination → Pagination
with_cursor field v cursor_type p = record p {
  cursor_value = (field, whole_float (pos v)) ∷ [];
  cursor_type = cursor_type;
}

parse-key :
    (codec : Codec) (p : Pagination) (field : Text) (v : ℕ)
    → ReadsCursors codec
    → v < 2 ^ 53
    → parse_pagination_key codec
        (codec.encode_base64 (codec.marshal ((field, int_value (pos v)) ∷ [])))
        p
      ≡ parsed (with_cursor field v (detect_cursor_type ((field, whole_float (pos v)) ∷ [])) p)
unfolding parse_pagination_key parse_json_cursor
parse-key codec p field v reads small =
    rw (reads.undone (codec.marshal ((field, int_value (pos v)) ∷ [])), parse_pagination_key)
      (rw (reads.opened ((field, int_value (pos v)) ∷ []))
        (rw (reads.exact field v small, parse_json_cursor) refl))

-- `listed` has the rows of the table in the order that the page asks for, ascending or descending,
-- and no two of one height; the table stores them in any order. Where the last record of a page of
-- blocks is the one at place `n` of the listing, the response has a next key, and the query of the
-- request with that key gives the records behind that place, in the order of the listing, up to the
-- limit. The page is one by height, heights are below 2 ^ 53, which a float64 holds, and the codec
-- reads back what it writes.
pub next_key-block :
    (codec : Codec) (p : Pagination) (total : ℕ) (has_more : Bool) (rows listed : List ℕ) (n h : ℕ)
    → ReadsCursors codec
    → p.cursor_type ≡ height_cursor
    → Perm rows listed
    → Listed p.order listed
    → get_elem? listed n ≡ some h
    → h < 2 ^ 53
    → (key : Text) × (q : Pagination) × ((to_response_with_last_record codec total has_more
          (some (height_data h))
          p).next_key
        ≡ some key)
      × (parse_pagination_key codec key p ≡ parsed q)
      × (select (codes "height") (apply_to_block q) rows ≡ take p.limit (drop (suc n) listed))
unfolding to_response_with_last_record use_cursor apply_to_block detect_cursor_type has_field get
    safe_get_int64 ℕ_discrete
next_key-block codec p total has_more rows listed n h reads height perm ordered e small = (
  codec.encode_base64 (codec.marshal (height_data h)),
  with_cursor (codes "height") h height_cursor p,
  rw height refl,
  parse-key codec p (codes "height") h reads small,
  select-by_key (codes "height") (with_cursor (codes "height") h height_cursor p) rows listed n h
      perm ordered e refl,
)

-- `listed` has the transactions of the table in the order that the page asks for, ascending or
-- descending, and no two of one sequence; the table stores them in any order. Where the last record
-- of a page by sequence is the one at place `n` of the listing, the response has a next key, and the
-- query of the request with that key gives the records behind that place, in the order of the
-- listing, up to the limit. Sequences are below 2 ^ 53, which a float64 holds, and the codec reads
-- back what it writes.
pub next_key-sequence :
    (codec : Codec) (p : Pagination) (total : ℕ) (has_more : Bool) (rows listed : List ℕ)
    (n sequence : ℕ)
    → ReadsCursors codec
    → p.cursor_type ≡ sequence_cursor
    → Perm rows listed
    → Listed p.order listed
    → get_elem? listed n ≡ some sequence
    → sequence < 2 ^ 53
    → (key : Text) × (q : Pagination) × ((to_response_with_last_record codec total has_more
          (some (sequence_data sequence))
          p).next_key
        ≡ some key)
      × (parse_pagination_key codec key p ≡ parsed q)
      × (select (codes "sequence") (apply_sequence q) rows ≡ take p.limit (drop (suc n) listed))
unfolding to_response_with_last_record use_cursor apply_sequence detect_cursor_type has_field get
    safe_get_int64 ℕ_discrete
next_key-sequence codec p total has_more rows listed n sequence reads by_sequence perm ordered e
      small =
    (
      codec.encode_base64 (codec.marshal (sequence_data sequence)),
      with_cursor (codes "sequence") sequence sequence_cursor p,
      rw by_sequence refl,
      parse-key codec p (codes "sequence") sequence reads small,
      select-by_key (codes "sequence") (with_cursor (codes "sequence") sequence sequence_cursor p)
          rows listed n sequence perm ordered e refl,
    )
