-- ===== src/Pagination/Offset.antt =====
-- util/common-handler/common/pagination.go: a client that follows the keys of pages by offset.
use mathlib.Core.List.{Perm}
use rollytics.Prelude.{
  ℕ, zero, suc, ◌+◌, ◌^◌, ◌≤◌, ◌<◌, ◌≡◌, refl, sym, ap, ◌∙◌, inl, inr, Bool, true, false, ◌||◌,
  List, [], ◌∷◌, ◌++◌, Option, none, some, arith, ltb, ◌==◌, if◌then◌else◌, length, take, drop,
  Bool-cases,
}
use rollytics.Prelude.Int.{pos}
use rollytics.Text.{Text, codes, has_prefix}
use rollytics.Pagination.{
  desc, asc, CursorData, Pagination, Codec, parsed, offset_cursor, use_cursor, to_response,
  to_response_with_last_record, add_int, parse_pagination, parse_pagination_key, parse_offset,
  max_limit,
}
use rollytics.Pagination.Queries.{apply_to_nft_collection, by_offset, order_columns}
use rollytics.Pagination.Table.{Listed, order_rows-column, select, sort-perm}
use rollytics.Pagination.Collections.{last_record, respond, get_collections, list_all}

-- What the codec does with an offset: base64 is undone and gives no empty text, and the digits of a
-- number that an int64 holds are no object and read back as the number.
pub record ReadsOffsets (codec : Codec) : Type 0 where
  pub undone : (s : Text) → codec.decode_base64 (codec.encode_base64 s) ≡ some s
  pub written : (n : ℕ) → n < 2 ^ 63 → 0 < length (codec.encode_base64 (codec.itoa (pos n)))
  pub plain :
      (n : ℕ) → n < 2 ^ 63 → has_prefix (codec.trim_space (codec.itoa (pos n))) (codes "{") ≡ false
  pub exact : (n : ℕ) → n < 2 ^ 63 → codec.atoi (codec.itoa (pos n)) ≡ some (pos n)

parse-offset :
    (codec : Codec) (p : Pagination) (n : ℕ)
    → ReadsOffsets codec
    → n < 2 ^ 63
    → parse_pagination_key codec (codec.encode_base64 (codec.itoa (pos n))) p
      ≡ parsed (record p { offset = n })
unfolding parse_pagination_key parse_offset
parse-offset codec p n reads small =
    rw (reads.undone (codec.itoa (pos n)), parse_pagination_key)
      (rw (reads.plain n small) (rw (reads.exact n small, parse_offset) refl))

take-all : (n : ℕ) (rows : List ℕ) → (length (take n rows) == n) ≡ false → take n rows ≡ rows
take-all zero rows h = cc
take-all (suc n) [] h = refl
take-all (suc n) (r ∷ rows) h = ap (◌∷◌ r) (take-all n rows (ground (arith, h)))

take-full :
    (m n : ℕ) (rows : List ℕ)
    → m ≤ length rows
    → (length (take n (drop m rows)) == n) ≡ true
    → m + n ≤ length rows
take-full zero zero rows h e = omega arith
take-full zero (suc n) [] h e = ground (arith, e)
take-full zero (suc n) (r ∷ rows) h e =
    omega (arith, take-full zero n rows (omega arith) (ground (arith, e)))
take-full (suc m) n [] h e = absurd (omega (arith, h))
take-full (suc m) n (r ∷ rows) h e = omega (arith, take-full m n rows (omega (arith, h)) e)

drop-nil : (n : ℕ) → drop {A = ℕ} n [] ≡ []
drop-nil zero = refl
drop-nil (suc n) = refl

take-append-drop : (n : ℕ) (rows : List ℕ) → take n rows ++ drop n rows ≡ rows
take-append-drop zero rows = refl
take-append-drop (suc n) [] = refl
take-append-drop (suc n) (r ∷ rows) = ap (◌∷◌ r) (take-append-drop n rows)

drop-drop : (m n k : ℕ) (rows : List ℕ) → k ≡ m + n → drop n (drop m rows) ≡ drop k rows
drop-drop zero n k rows e = ap (λ j. drop j rows) (omega (arith, e))
drop-drop (suc m) zero k [] e = sym (drop-nil k)
drop-drop (suc m) (suc n) k [] e = sym (drop-nil k)
drop-drop (suc m) n zero (r ∷ rows) e = absurd (omega (arith, e))
drop-drop (suc m) n (suc k) (r ∷ rows) e = drop-drop m n k rows (omega (arith, e))

module _ (codec : Codec) (total : ℕ) (rows listed : List ℕ) (limit : ℕ) (reverse count_total : Bool)
    (reads : ReadsOffsets codec) (perm : Perm rows listed)
    (ordered : Listed (if reverse then desc else asc) listed) (positive : 0 < limit)
    (bounded : limit ≤ max_limit) (small : length listed + limit < 2 ^ 63) where
  -- The pagination of a request for the records from place `m` on.
  abbrev at : ℕ → Pagination
  at m = record {
    limit = limit;
    offset = m;
    order = (if reverse then desc else asc);
    count_total = count_total;
    cursor_type = offset_cursor;
    cursor_value = [];
  }

  select-at :
      (m : ℕ)
      → select (codes "height") (apply_to_nft_collection (at m)) rows ≡ take limit (drop m listed)
  unfolding select apply_to_nft_collection by_offset order_columns
  select-at m =
      ap (λ l. take limit (drop m l))
        (order_rows-column (codes "height") (if reverse then desc else asc) rows
          ∙ sort-perm (if reverse then desc else asc) rows listed perm ordered)

  abbrev next_key : ℕ → Text
  next_key m = codec.encode_base64 (codec.itoa (pos (m + limit)))

  fits : (m : ℕ) → m ≤ length listed → add_int m limit ≡ pos (m + limit)
  unfolding add_int
  fits m low = ground arith

  response-at :
      (m : ℕ) (has_more : Bool) (last : Option CursorData)
      → m ≤ length listed
      → (to_response_with_last_record codec total has_more last (at m)).next_key
        ≡ (if has_more then some (next_key m) else none)
  unfolding to_response_with_last_record use_cursor to_response add_int
  response-at m has_more none low =
      ap (λ k. if has_more then some (codec.encode_base64 (codec.itoa k)) else none) (fits m low)
  response-at m has_more (some d) low =
      ap (λ k. if has_more then some (codec.encode_base64 (codec.itoa k)) else none) (fits m low)

  parse-next :
      (m : ℕ)
      → m ≤ length listed
      → parse_pagination codec (pos limit) (pos 0) (next_key m) reverse count_total offset_cursor
        ≡ parsed (at (m + limit))
  unfolding parse_pagination
  parse-next m low =
      let room : m + limit < 2 ^ 63 = omega (arith, low, small) in
      let allowed : (ltb limit 1 || ltb max_limit limit) ≡ false =
        ground (arith, positive, bounded) in
      let given : (length (next_key m) == 0) ≡ false =
        ground (arith, reads.written (m + limit) room) in
      rw (allowed, given, parse_pagination) (parse-offset codec (at 0) (m + limit) reads room)

  list_from :
      (fuel m : ℕ) (key : Text)
      → parse_pagination codec (pos limit) (pos 0) key reverse count_total offset_cursor
        ≡ parsed (at m)
      → m ≤ length listed
      → length listed < fuel + m
      → list_all codec (some total) rows (pos limit) reverse count_total fuel key
        ≡ some (drop m listed)
  unfolding list_all get_collections respond
  list_from zero m key parse low enough = absurd (omega (arith, low, enough))
  list_from (suc fuel) m key parse low enough =
      let r = respond codec total rows (at m) in
      let page = take limit (drop m listed) in
      let got : get_collections codec (some total) rows (pos limit) (pos 0) key reverse count_total
          ≡ some r =
        rw (parse, get_collections) refl in
      let next =
        response-at m (length r.collections == limit) (last_record r.collections) low
        ∙ ap (λ l. if length l == limit then some (next_key m) else none) (select-at m) in
      elim (Bool-cases (length page == limit)) [
        | inl full ↦
            let within = take-full m limit listed low full in
            let more = next ∙ ap (λ b. if b then some (next_key m) else none) full in
            let rest =
              list_from fuel (m + limit) (next_key m) (parse-next m low) within (omega arith) in
            rw (got, more, rest, list_all)
              (ap some (
                ap (λ l. l ++ drop (m + limit) listed) (select-at m)
                ∙ ap (λ l. page ++ l) (sym (drop-drop m limit (m + limit) listed refl))
                ∙ take-append-drop limit (drop m listed)))
        | inr short ↦
            let end = next ∙ ap (λ b. if b then some (next_key m) else none) short in
            rw (got, end, list_all) (ap some (select-at m ∙ take-all limit (drop m listed) short))
      ]

  parse-first :
      parse_pagination codec (pos limit) (pos 0) [] reverse count_total offset_cursor
      ≡ parsed (at 0)
  unfolding parse_pagination
  parse-first =
      let allowed : (ltb limit 1 || ltb max_limit limit) ≡ false =
        ground (arith, positive, bounded) in
      rw (allowed, parse_pagination) refl

  -- A client that asks for the collections with a limit from 1 to 1000, and follows each next key,
  -- comes to a page without one, after at most one request more than there are collections. Its
  -- pages together are the listing: every collection once, in the order asked for, however the
  -- table stores them. `listed` has the rows in that order, and no two of one height; the database
  -- answers, the last offset fits an int64, and the codec reads back what it writes.
  pub list_all-listed :
      list_all codec (some total) rows (pos limit) reverse count_total (suc (length listed)) []
      ≡ some listed
  list_all-listed = list_from (suc (length listed)) 0 [] parse-first (omega arith) (omega arith)
