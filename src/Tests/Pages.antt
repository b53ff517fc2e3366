-- ===== src/Tests/Pages.antt =====
-- util/common-handler/common: pages with a codec that writes a number as one code.
use mathlib.Core.List.{Perm}
use mathlib.Core.List.Perm
use rollytics.Prelude.{
  ℕ, ◌<◌, ◌^◌, ◌≡◌, refl, ◌==◌, true, false, List, [], ◌∷◌, Option, none, some, arith, take, drop,
  if◌then◌else◌,
}
use rollytics.Prelude.Int.{ℤ, pos, negsuc}
use rollytics.Text.{Text, codes, has_prefix}
use rollytics.Pagination.{
  Pagination, Codec, Value, CursorData, int_value, whole_float, desc, height_cursor,
  sequence_cursor, height_data, sequence_data, to_response_with_last_record, parse_pagination_key,
  parsed,
}
use rollytics.Pagination.Queries.{apply_to_block, apply_sequence}
use rollytics.Pagination.Table.{select}
use rollytics.Pagination.Cursor.{ReadsCursors, next_key-block, next_key-sequence}
use rollytics.Pagination.Collections.{list_all}
use rollytics.Pagination.Offset.{ReadsOffsets, list_all-listed}

abbrev itoa : ℤ → Text
itoa (pos n) = b'+' ∷ n ∷ []
itoa (negsuc n) = b'-' ∷ n ∷ []

abbrev atoi : Text → Option ℤ
atoi (c ∷ n ∷ []) = if c == b'-' then some (negsuc n) else some (pos n)
atoi _ = none

abbrev marshal_value : Text → Value → Text
marshal_value field (int_value (pos n)) = n ∷ field
marshal_value field v = field

abbrev marshal : CursorData → Text
marshal [] = b'{' ∷ []
marshal ((field, v) ∷ rest) = b'{' ∷ marshal_value field v

abbrev unmarshal : Text → Option CursorData
unmarshal (c ∷ n ∷ field) = some ((field, whole_float (pos n)) ∷ [])
unmarshal _ = none

abbrev codec : Codec
codec = record {
  encode_base64 = λ s. s;
  decode_base64 = λ s. some s;
  itoa = itoa;
  atoi = atoi;
  trim_space = λ s. s;
  unmarshal = unmarshal;
  marshal = marshal;
}

marshal-opened : (d : CursorData) → has_prefix (marshal d) (codes "{") ≡ true
unfolding has_prefix
marshal-opened [] = refl
marshal-opened (c ∷ rest) = refl

codec-ReadsCursors : ReadsCursors codec
codec-ReadsCursors = record {
  undone = λ s. refl;
  opened = marshal-opened;
  exact = λ field v small. refl;
}

itoa-plain : (n : ℕ) → n < 2 ^ 63 → has_prefix (itoa (pos n)) (codes "{") ≡ false
unfolding has_prefix
itoa-plain n small = refl

codec-ReadsOffsets : ReadsOffsets codec
codec-ReadsOffsets = record {
  undone = λ s. refl;
  written = λ n small. omega arith;
  plain = itoa-plain;
  exact = λ n small. refl;
}

abbrev page : Pagination
page = record {
  limit = 2;
  offset = 4;
  order = desc;
  count_total = true;
  cursor_type = height_cursor;
  cursor_value = [];
}

abbrev rows : List ℕ
rows = 9 ∷ 4 ∷ 7 ∷ 2 ∷ 1 ∷ []

abbrev listed : List ℕ
listed = 9 ∷ 7 ∷ 4 ∷ 2 ∷ 1 ∷ []

rows-perm : Perm rows listed
rows-perm = Perm.cons 9 (Perm.swap 7 4 (2 ∷ 1 ∷ []))

next_key-block_example :
    (key : Text) × (q : Pagination) × ((to_response_with_last_record codec 5 true
        (some (height_data 7))
        page).next_key
      ≡ some key)
    × (parse_pagination_key codec key page ≡ parsed q)
    × (select (codes "height") (apply_to_block q) rows ≡ take 2 (drop 2 listed))
next_key-block_example =
    next_key-block codec page 5 true rows listed 1 7 codec-ReadsCursors refl rows-perm
      (ground arith) refl (omega arith)

abbrev by_sequence : Pagination
by_sequence = record page { cursor_type = sequence_cursor }

next_key-sequence_example :
    (key : Text) × (q : Pagination) × ((to_response_with_last_record codec 5 true
        (some (sequence_data 7))
        by_sequence).next_key
      ≡ some key)
    × (parse_pagination_key codec key by_sequence ≡ parsed q)
    × (select (codes "sequence") (apply_sequence q) rows ≡ take 2 (drop 2 listed))
next_key-sequence_example =
    next_key-sequence codec by_sequence 5 true rows listed 1 7 codec-ReadsCursors refl rows-perm
      (ground arith) refl (omega arith)

list_all-listed_example : list_all codec (some 5) rows (pos 2) true true 6 [] ≡ some listed
list_all-listed_example =
    list_all-listed codec 5 rows listed 2 true true codec-ReadsOffsets rows-perm (ground arith)
      (omega arith) (omega arith) (omega arith)
