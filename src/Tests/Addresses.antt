-- ===== src/Tests/Addresses.antt =====
-- util/util.go: addresses at concrete texts.
use rollytics.Prelude.{
  ℕ, ◌≡◌, refl, List, [], ◌∷◌, ◌++◌, Option, none, some, arith, length, replicate, All, ◌⊎◌,
}
use rollytics.Text.{Text, codes, has_prefix, trim_prefix, trim_left, to_lower, lower, pad_zeros}
use rollytics.Address.{
  address_of_hex, acc_address_from_string, hex_to_bytes, bytes_to_hex, bytes_to_hex_with_prefix,
}
use rollytics.Address.Hex.{IsByte, decode_string, digit_value, join_digits}
use rollytics.Address.Laws.{hex_to_bytes-bytes_to_hex, acc_address_length, acc_address-account}

abbrev no_bech32 : Text → Option (List ℕ)
no_bech32 s = none

abbrev account : List ℕ
account = replicate 19 0 ++ 171 ∷ []

hex_to_bytes-bytes_to_hex_example :
    (hex_to_bytes (bytes_to_hex (0 ∷ 255 ∷ [])) ≡ some (0 ∷ 255 ∷ []))
    × (hex_to_bytes (bytes_to_hex_with_prefix (0 ∷ 255 ∷ [])) ≡ some (0 ∷ 255 ∷ []))
hex_to_bytes-bytes_to_hex_example = hex_to_bytes-bytes_to_hex (0 ∷ 255 ∷ []) (ground arith)

account_read : acc_address_from_string no_bech32 (codes "0x" ++ codes "aB") ≡ some account
unfolding acc_address_from_string address_of_hex has_prefix trim_prefix trim_left to_lower lower
    pad_zeros decode_string digit_value join_digits
account_read = refl

acc_address_length_example : ((length account ≡ 20) ⊎ (length account ≡ 32)) × All IsByte account
acc_address_length_example = acc_address_length no_bech32 (codes "aB") account account_read

acc_address-account_example :
    (acc_address_from_string no_bech32 (bytes_to_hex_with_prefix account) ≡ some account)
    × (acc_address_from_string no_bech32 (bytes_to_hex_with_prefix (replicate 12 0 ++ account))
        ≡ some account)
acc_address-account_example = acc_address-account no_bech32 account refl (ground arith)
