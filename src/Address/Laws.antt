-- ===== src/Address/Laws.antt =====
-- util/util.go: round trips between byte strings and hexadecimal text, and what an address is.
use rollytics.Prelude.{
  ℕ, ◌*◌, ◌%◌, ◌<◌, ◌≤◌, ◌≡◌, refl, sym, ap, ◌∙◌, ◌⊎◌, inl, inr, false, List, [], ◌∷◌, ◌++◌, Option,
  none, some, arith, leb, ◌==◌, if◌then◌else◌, All, length, replicate, le→leb, dec_le, length-map,
}
use rollytics.Text.{Text, codes, lower, trim_prefix, trim_left, to_lower, pad_zeros}
use rollytics.Text.Laws.{
  length-trim_left-le, pad_zeros-trim_left, pad_zeros-length, trim_left-zeros, length-pad_zeros,
}
use rollytics.Address.{
  address_of_hex, acc_address_from_string, hex_to_bytes, bytes_to_hex, bytes_to_hex_with_prefix,
}
use rollytics.Address.Hex.{
  IsByte, decode_string, encode_to_string, decode-encode, length-encode, to_lower-encode,
  decode_length, hex_digit_ne_x,
}

trim_prefix-encode :
    (bs : List ℕ)
    → All IsByte bs
    → trim_prefix (encode_to_string bs) (codes "0x") ≡ encode_to_string bs
unfolding trim_prefix encode_to_string
trim_prefix-encode [] h = refl
trim_prefix-encode (b ∷ bs) h = ground (arith, hex_digit_ne_x (b % 16))

hex_body :
    (s : Text) (bs : List ℕ)
    → s ≡ encode_to_string bs
    → All IsByte bs
    → (if length s == 0 then some [] else decode_string (if length s % 2 == 1 then b'0' ∷ s else s))
      ≡ some bs
unfolding encode_to_string
hex_body s [] e h = rw e refl
hex_body s (b ∷ bs) e h =
    let even : length s ≡ 2 * length (b ∷ bs) = ap length e ∙ length-encode (b ∷ bs) in
    let full : length s == 0 ≡ false = ground arith in
    let paired : length s % 2 == 1 ≡ false = ground arith in
    rw full (rw paired (ap decode_string e ∙ decode-encode (b ∷ bs) h))

-- Encoding and reading back gives the bytes, with the prefix 0x or without it.
pub hex_to_bytes-bytes_to_hex :
    (bs : List ℕ)
    → All IsByte bs
    → (hex_to_bytes (bytes_to_hex bs) ≡ some bs)
      × (hex_to_bytes (bytes_to_hex_with_prefix bs) ≡ some bs)
unfolding hex_to_bytes bytes_to_hex bytes_to_hex_with_prefix
hex_to_bytes-bytes_to_hex bs h =
    (hex_body _ bs (trim_prefix-encode bs h) h, hex_body (encode_to_string bs) bs refl h)

-- The digits of an address text: in lower case, with the leading zeros cut off.
abbrev digits : Text → Text
digits s = to_lower (trim_left s b'0')

address_of_hex_short :
    (s : Text)
    → length (digits s) ≤ 40
    → address_of_hex (codes "0x" ++ s) ≡ decode_string (pad_zeros 40 (digits s))
unfolding address_of_hex
address_of_hex_short s h = rw (le→leb _ _ h)

address_of_hex_long :
    (s : Text)
    → 40 < length (digits s)
    → length (digits s) ≤ 64
    → address_of_hex (codes "0x" ++ s) ≡ decode_string (pad_zeros 64 (digits s))
unfolding address_of_hex
address_of_hex_long s h k =
    let past : leb (length (digits s)) 40 ≡ false = ground arith in rw past (rw (le→leb _ _ k))

address_of_hex_too_long :
    (s : Text) → 64 < length (digits s) → address_of_hex (codes "0x" ++ s) ≡ none
unfolding address_of_hex
address_of_hex_too_long s h =
    let past : leb (length (digits s)) 40 ≡ false = ground arith in
    let past' : leb (length (digits s)) 64 ≡ false = ground arith in rw past (rw past')

acc_address_prefixed :
    (bech32 : Text → Option (List ℕ)) (s : Text)
    → acc_address_from_string bech32 (codes "0x" ++ s) ≡ address_of_hex (codes "0x" ++ s)
unfolding acc_address_from_string
acc_address_prefixed bech32 s = refl

-- A text with the prefix 0x is refused as an address, or it gives 20 or 32 bytes.
pub acc_address_length :
    (bech32 : Text → Option (List ℕ)) (s : Text) (addr : List ℕ)
    → acc_address_from_string bech32 (codes "0x" ++ s) ≡ some addr
    → ((length addr ≡ 20) ⊎ (length addr ≡ 32)) × All IsByte addr
acc_address_length bech32 s addr h = elim (dec_le (length (digits s)) 40) [
  | yes short ↦
      let (l, bytes) =
        decode_length _ addr
          (sym (address_of_hex_short s short) ∙ sym (acc_address_prefixed bech32 s) ∙ h) in
      (inl (omega (arith, length-pad_zeros 40 (digits s) short)), bytes)
  | no more ↦ elim (dec_le (length (digits s)) 64) [
    | yes long ↦
        let (l, bytes) = decode_length _ addr (
          sym (address_of_hex_long s (omega arith) long)
          ∙ sym (acc_address_prefixed bech32 s)
          ∙ h) in
        (inr (omega (arith, length-pad_zeros 64 (digits s) long)), bytes)
    | no longer ↦ absurd (
        let stop : none ≡ some addr =
          sym (address_of_hex_too_long s (omega arith)) ∙ sym (acc_address_prefixed bech32 s) ∙ h in
        cc)
  ]
]

length-digits-le : (s : Text) → length (digits s) ≤ length s
unfolding to_lower
length-digits-le s = omega (arith, length-map (trim_left s b'0') lower, length-trim_left-le s b'0')

to_lower-trim_left : (s : Text) → to_lower s ≡ s → to_lower (trim_left s b'0') ≡ trim_left s b'0'
unfolding to_lower trim_left
to_lower-trim_left [] h = refl
to_lower-trim_left (c ∷ s) h = ground (arith, to_lower-trim_left s)

-- A text with the significant digits of a 20-byte address reads as that address.
digits-account :
    (bech32 : Text → Option (List ℕ)) (addr : List ℕ) (t : Text)
    → length addr ≡ 20
    → All IsByte addr
    → digits t ≡ digits (encode_to_string addr)
    → acc_address_from_string bech32 (codes "0x" ++ t) ≡ some addr
digits-account bech32 addr t h bytes same =
    let s = encode_to_string addr in
    let len : length s ≡ 40 = omega (arith, length-encode addr) in
    let short : length (digits t) ≤ 40 = rw same (omega (arith, length-digits-le s)) in
    acc_address_prefixed bech32 t
    ∙ address_of_hex_short t short
    ∙ ap decode_string (
        ap (pad_zeros 40) (same ∙ to_lower-trim_left s (to_lower-encode addr bytes))
        ∙ pad_zeros-trim_left 40 s (omega arith)
        ∙ ap (λ n. pad_zeros n s) (sym len)
        ∙ pad_zeros-length s)
    ∙ decode-encode addr bytes

-- The text of a 20-byte account address reads back as the address; and a 32-byte word that begins
-- with twelve zero bytes, such as an address among the topics of an EVM log, reads as the 20-byte
-- address that it pads.
pub acc_address-account :
    (bech32 : Text → Option (List ℕ)) (addr : List ℕ)
    → length addr ≡ 20
    → All IsByte addr
    → (acc_address_from_string bech32 (bytes_to_hex_with_prefix addr) ≡ some addr)
      × (acc_address_from_string bech32 (bytes_to_hex_with_prefix (replicate 12 0 ++ addr))
          ≡ some addr)
unfolding bytes_to_hex_with_prefix
acc_address-account bech32 addr h bytes =
    let s = encode_to_string addr in
    (
      digits-account bech32 addr s h bytes refl,
      digits-account bech32 addr (replicate 24 b'0' ++ s) h bytes
          (ap to_lower (trim_left-zeros 24 s)),
    )
