-- ===== src/Pagination.antt =====
-- util/common-handler/common/pagination.go: pages of a query, by offset or by cursor.
-- Base64, the JSON decoder and strconv are the record `Codec`.
pub mod Queries
pub mod Table
pub mod Cursor
pub mod Collections
pub mod Offset
use rollytics.Prelude.{
  ℕ, suc, ◌+◌, ◌-◌, ◌^◌, Bool, true, false, ◌&&◌, ◌||◌, not, List, [], ◌∷◌, ◌++◌, map, Option, none,
  some, leb, ltb, ◌==◌, if◌then◌else◌, length,
}
use rollytics.Prelude.Int.{ℤ, pos, negsuc, ltb_ℤ}
use rollytics.Prelude.GoMap.{get}
use rollytics.Text.{Text, codes, has_prefix, text_discrete}

abbrev pub max_limit : ℕ
max_limit = 1000

pub data Order : Type 0 where
  desc asc : Order

pub data CursorType : Type 0 where
  unset_cursor offset_cursor sequence_cursor height_cursor composite_cursor : CursorType

-- A value of the cursor map: the decoder gives every number as a float64, here an integer within
-- int64 or another number.
pub data Value : Type 0 where
  int_value : ℤ → Value
  whole_float : ℤ → Value
  other_float : Value
  string_value : Text → Value
  other_value : Value

abbrev pub CursorData : Type 0
CursorData = List (Text × Value)

pub record Pagination : Type 0 where
  pub limit : ℕ
  pub offset : ℕ
  pub order : Order
  pub count_total : Bool
  pub cursor_type : CursorType
  pub cursor_value : CursorData

pub record PaginationResponse : Type 0 where
  pub previous_key : Option Text
  pub next_key : Option Text
  pub total : Text

pub record Codec : Type 0 where
  pub encode_base64 : Text → Text
  pub decode_base64 : Text → Option Text
  pub itoa : ℤ → Text
  pub atoi : Text → Option ℤ
  pub trim_space : Text → Text
  pub unmarshal : Text → Option CursorData
  pub marshal : CursorData → Text

pub data Failure : Type 0 where
  limit_out_of_range negative_offset not_base64 invalid_format not_nonnegative : Failure

pub data Parsed : Type 0 where
  failed : Failure → Parsed
  parsed : Pagination → Parsed

unfoldable pub use_cursor : Pagination → Bool
use_cursor p = elim p.cursor_type [
  | unset_cursor ↦ false
  | offset_cursor ↦ false
  | sequence_cursor ↦ true
  | height_cursor ↦ true
  | composite_cursor ↦ true
]

unfoldable pub has_field : Text → CursorData → Bool
has_field field data_map = elim (get text_discrete field data_map) [ some v ↦ true | none ↦ false ]

unfoldable pub detect_cursor_type : CursorData → CursorType
unfolding has_field
detect_cursor_type cursor_data =
    if has_field (codes "sequence") cursor_data
    then sequence_cursor
    else if has_field (codes "height") cursor_data
    then (if has_field (codes "token_id") cursor_data then composite_cursor else height_cursor)
    else offset_cursor

-- `strconv.Atoi`, and the test that the result is not negative.
unfoldable pub parse_offset : Codec → Failure → Text → Pagination → Parsed
parse_offset codec failure decoded p = elim (codec.atoi decoded) [
  | some (pos n) ↦ parsed (record p { offset = n })
  | some (negsuc n) ↦ failed failure
  | none ↦ failed failure
]

unfoldable pub parse_json_cursor : Codec → Text → Pagination → Parsed
unfolding detect_cursor_type parse_offset
parse_json_cursor codec decoded p = elim (codec.unmarshal decoded) [
  | some cursor_data ↦
      parsed (record p { cursor_value = cursor_data; cursor_type = detect_cursor_type cursor_data })
  | none ↦ parse_offset codec invalid_format decoded p
]

unfoldable pub parse_pagination_key : Codec → Text → Pagination → Parsed
unfolding parse_json_cursor parse_offset has_prefix
parse_pagination_key codec key p = elim (codec.decode_base64 key) [
  | none ↦ failed not_base64
  | some decoded ↦
      if has_prefix (codec.trim_space decoded) (codes "{")
      then parse_json_cursor codec decoded p
      else parse_offset codec not_nonnegative decoded p
]

-- `ParsePagination` on the query parameters that fiber has read.
unfoldable pub parse_pagination : Codec → ℤ → ℤ → Text → Bool → Bool → CursorType → Parsed
unfolding parse_pagination_key
parse_pagination codec (negsuc n) offset key reverse count_total default_cursor_type =
    failed limit_out_of_range
parse_pagination codec (pos limit) offset key reverse count_total default_cursor_type =
    if ltb limit 1 || ltb max_limit limit then failed limit_out_of_range else elim offset [
      | negsuc n ↦ failed negative_offset
      | pos n ↦
          let p : Pagination = record {
            limit = limit;
            offset = n;
            order = (if reverse then desc else asc);
            count_total = count_total;
            cursor_type = default_cursor_type;
            cursor_value = [];
          } in
          if length key == 0 then parsed p else parse_pagination_key codec key p
    ]

unfoldable pub safe_get_int64 : Text → Pagination → Option ℤ
safe_get_int64 field p = elim (get text_discrete field p.cursor_value) [
  | none ↦ none
  | some v ↦ elim v [
    | int_value n ↦ some n
    | whole_float n ↦ some n
    | other_float ↦ none
    | string_value s ↦ none
    | other_value ↦ none
  ]
]

unfoldable pub safe_get_string : Text → Pagination → Option Text
safe_get_string field p = elim (get text_discrete field p.cursor_value) [
  | none ↦ none
  | some v ↦ elim v [
    | int_value n ↦ none
    | whole_float n ↦ none
    | other_float ↦ none
    | string_value s ↦ some s
    | other_value ↦ none
  ]
]

-- The sum of two `int`s.
unfoldable pub add_int : ℕ → ℕ → ℤ
add_int a b = if ltb (a + b) (2 ^ 63) then pos (a + b) else negsuc (2 ^ 64 - (a + b) - 1)

unfoldable pub to_response : Codec → ℕ → Bool → Pagination → PaginationResponse
unfolding add_int
to_response codec total has_more p = record {
  next_key =
      (if has_more
        then some (codec.encode_base64 (codec.itoa (add_int p.offset p.limit)))
        else none);
  previous_key =
      (if ltb 0 p.offset && leb p.limit p.offset
        then some (codec.encode_base64 (codec.itoa (pos (p.offset - p.limit))))
        else none);
  total = codec.itoa (pos total);
}

-- The last record is the data of its cursor, if it is a `CursorRecord`.
unfoldable pub to_response_with_last_record :
    Codec → ℕ → Bool → Option CursorData → Pagination → PaginationResponse
unfolding to_response use_cursor
to_response_with_last_record codec total has_more none p = to_response codec total has_more p
to_response_with_last_record codec total has_more (some next_cursor) p =
    if use_cursor p && ltb 0 (length next_cursor)
    then record {
      previous_key = none;
      next_key = some (codec.encode_base64 (codec.marshal next_cursor));
      total = codec.itoa (pos total);
    }
    else to_response codec total has_more p

-- `GetCursorData` in types/table.go: of blocks and collections, and of transactions.
abbrev pub height_data : ℕ → CursorData
height_data height = (codes "height", int_value (pos height)) ∷ []

abbrev pub sequence_data : ℕ → CursorData
sequence_data sequence = (codes "sequence", int_value (pos sequence)) ∷ []
