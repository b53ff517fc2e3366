-- ===== src/Address.antt =====
-- util/util.go: addresses and byte strings as hexadecimal text.
-- `hex` is Go's encoding/hex. The bech32 decoding of the cosmos-sdk is the parameter `bech32`:
-- the bytes of an address, or `none` for its error.
pub mod Hex
pub mod Laws
use rollytics.Prelude.{
  ℕ, zero, suc, ◌+◌, ◌*◌, ◌%◌, ◌≡◌, Bool, true, false, not, List, [], ◌∷◌, ◌++◌, Option, none, some,
  leb, ◌==◌, if◌then◌else◌, length,
}
use rollytics.Text.{Text, codes, has_prefix, trim_prefix, trim_left, to_lower, pad_zeros}
use Hex.{decode_string, encode_to_string}

-- The part of `AccAddressFromString` that reads hexadecimal digits.
unfoldable pub address_of_hex : Text → Option (List ℕ)
unfolding trim_prefix trim_left to_lower pad_zeros decode_string
address_of_hex addr_str =
    let hex_str = to_lower (trim_left (trim_prefix addr_str (codes "0x")) b'0') in
    if leb (length hex_str) 40
    then decode_string (pad_zeros 40 hex_str)
    else if leb (length hex_str) 64
    then decode_string (pad_zeros 64 hex_str)
    else none

unfoldable pub acc_address_from_string : (Text → Option (List ℕ)) → Text → Option (List ℕ)
unfolding address_of_hex has_prefix
acc_address_from_string bech32 addr_str =
    if has_prefix addr_str (codes "0x")
    then address_of_hex addr_str
    else elim (bech32 addr_str) [ some addr ↦ some addr | none ↦ address_of_hex addr_str ]

unfoldable pub hex_to_bytes : Text → Option (List ℕ)
unfolding trim_prefix decode_string
hex_to_bytes hex_str =
    let s = trim_prefix hex_str (codes "0x") in
    if length s == 0 then some [] else decode_string (if length s % 2 == 1 then b'0' ∷ s else s)

unfoldable pub bytes_to_hex : List ℕ → Text
unfolding encode_to_string
bytes_to_hex b = encode_to_string b

unfoldable pub bytes_to_hex_with_prefix : List ℕ → Text
unfolding encode_to_string
bytes_to_hex_with_prefix b = codes "0x" ++ encode_to_string b

unfoldable pub bytes_to_hex_with_prefix_if_present : List ℕ → Text
unfolding encode_to_string
bytes_to_hex_with_prefix_if_present b =
    if length b == 0 then [] else codes "0x" ++ encode_to_string b
