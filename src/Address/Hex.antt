-- ===== src/Address/Hex.antt =====
-- Go's encoding/hex, as util/util.go uses it.
use rollytics.Prelude.{
  ℕ, ◌+◌, ◌-◌, ◌*◌, ◌/◌, ◌%◌, ◌<◌, ◌≡◌, ◌≢◌, refl, ◌&&◌, List, [], ◌∷◌, Option, none, some, arith,
  leb, ltb, if◌then◌else◌, All, length,
}
use rollytics.Text.{Text, lower, to_lower}

-- The digit of a value below 16, and its value back.
unfoldable pub hex_digit : ℕ → ℕ
hex_digit v = if ltb v 10 then v + b'0' else v - 10 + b'a'

unfoldable pub digit_value : ℕ → Option ℕ
digit_value c =
    if leb b'0' c && leb c b'9'
    then some (c - b'0')
    else if leb b'a' c && leb c b'f'
    then some (c - b'a' + 10)
    else if leb b'A' c && leb c b'F'
    then some (c - b'A' + 10)
    else none

unfoldable pub encode_to_string : List ℕ → Text
unfolding hex_digit
encode_to_string [] = []
encode_to_string (b ∷ bs) = hex_digit (b / 16) ∷ hex_digit (b % 16) ∷ encode_to_string bs

unfoldable pub join_digits : Option ℕ → Option ℕ → Option (List ℕ) → Option (List ℕ)
join_digits (some hi) (some lo) (some bs) = some ((hi * 16 + lo) ∷ bs)
join_digits _ _ _ = none

-- An odd number of digits is an error, as is any other character.
unfoldable pub decode_string : Text → Option (List ℕ)
unfolding digit_value join_digits
decode_string [] = some []
decode_string (c ∷ []) = none
decode_string (c ∷ d ∷ s) = join_digits (digit_value c) (digit_value d) (decode_string s)

abbrev pub IsByte : ℕ → Type 0
IsByte b = b < 256

abbrev pub IsHexDigit : ℕ → Type 0
IsHexDigit c = (v : ℕ) × (digit_value c ≡ some v)

digit_value-hex_digit : (v : ℕ) → v < 16 → digit_value (hex_digit v) ≡ some v
unfolding digit_value hex_digit
digit_value-hex_digit v h = ground arith

lower-hex_digit : (v : ℕ) → v < 16 → lower (hex_digit v) ≡ hex_digit v
unfolding lower hex_digit
lower-hex_digit v h = ground arith

pub hex_digit_ne_x : (v : ℕ) → v < 16 → hex_digit v ≢ b'x'
unfolding hex_digit
hex_digit_ne_x v h = ground arith

pub hex_digit-ne-zero : (v : ℕ) → v < 16 → v ≢ 0 → hex_digit v ≢ b'0'
unfolding hex_digit
hex_digit-ne-zero v h k = ground arith

pub decode-encode : (bs : List ℕ) → All IsByte bs → decode_string (encode_to_string bs) ≡ some bs
unfolding decode_string encode_to_string join_digits
decode-encode [] h = refl
decode-encode (b ∷ bs) h =
    ground
      (arith, digit_value-hex_digit (b / 16), digit_value-hex_digit (b % 16), decode-encode bs h.1)

pub length-encode : (bs : List ℕ) → length (encode_to_string bs) ≡ 2 * length bs
unfolding encode_to_string
length-encode [] = refl
length-encode (b ∷ bs) = omega (arith, length-encode bs)

pub to_lower-encode :
    (bs : List ℕ) → All IsByte bs → to_lower (encode_to_string bs) ≡ encode_to_string bs
unfolding to_lower encode_to_string
to_lower-encode [] h = refl
to_lower-encode (b ∷ bs) h =
    ground (arith, lower-hex_digit (b / 16), lower-hex_digit (b % 16), to_lower-encode bs h.1)

digit_value-lt : (c v : ℕ) → digit_value c ≡ some v → v < 16
unfolding digit_value
digit_value-lt c v h = ground arith

join_digits-eq-some :
    (x y : Option ℕ) (r : Option (List ℕ)) (bs : List ℕ)
    → join_digits x y r ≡ some bs
    → (hi lo : ℕ) × (rest : List ℕ) × (x ≡ some hi)
      × (y ≡ some lo)
      × (r ≡ some rest)
      × (bs ≡ (hi * 16 + lo) ∷ rest)
unfolding join_digits
join_digits-eq-some (some hi) (some lo) (some rest) bs h =
    (hi, lo, rest, refl, refl, refl, ground arith)
join_digits-eq-some _ _ _ bs h = cc

-- What is decoded is half as long as the text, and consists of bytes.
pub decode_length :
    (s : Text) (bs : List ℕ)
    → decode_string s ≡ some bs
    → (length s ≡ 2 * length bs) × All IsByte bs
unfolding decode_string
decode_length [] bs h = let e : [] ≡ bs = ground arith in rw (← e) (omega arith, tt)
decode_length (c ∷ []) bs h = cc
decode_length (c ∷ d ∷ s) bs h =
    let (hi, lo, rest, at_c, at_d, tail, e) = join_digits-eq-some _ _ _ bs h in
    let ih = decode_length s rest tail in
    rw e (
      omega (arith, ih.0),
      (omega (arith, digit_value-lt c hi at_c, digit_value-lt d lo at_d), ih.1),
    )
