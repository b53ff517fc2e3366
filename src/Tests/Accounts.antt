-- ===== src/Tests/Accounts.antt =====
-- util/cache/cache.go: lookups of accounts and tokens in a table with one row, and of an account that
-- is given in hexadecimal.
use rollytics.Prelude.{
  ℕ, ◌≡◌, refl, Bool, true, List, [], ◌∷◌, map, Option, none, some, Has, replicate, ℕ_discrete,
}
use rollytics.Prelude.GoMap.{get, put}
use rollytics.Text.{Text, codes, text_discrete}
use rollytics.Address.{acc_address_from_string, bytes_to_hex_with_prefix}
use rollytics.Nft.Changes.{NftKey, NftKey-discrete}
use rollytics.Dictionary.{Cache, Table, get_or_create_ids}
use rollytics.Dictionary.Maps.{AreDistinct}
use rollytics.Dictionary.Normal.{
  dedup, normalize_account_to_bech32, account_items, nft_bytes, nft_items,
  get_or_create_account_ids, get_or_create_nft_ids,
}
use rollytics.Dictionary.Canonical.{IsCanonical, via}
use rollytics.Dictionary.Accounts.{itself, get_or_create_account_ids-eq, get_or_create_nft_ids-eq}

abbrev known : Text → Option (List ℕ)
known s = some s

abbrev text : List ℕ → Text
text b = b

abbrev account_cache : Cache Text (List (Text × ℕ))
account_cache = record {
  lookup = λ c k. (get text_discrete k c, c);
  set = λ c k v. put text_discrete k v c;
}

abbrev token_cache : Cache NftKey (List (NftKey × ℕ))
token_cache = record {
  lookup = λ c k. (get NftKey-discrete k c, c);
  set = λ c k v. put NftKey-discrete k v c;
}

-- A table that has each row asked for, with the id 7; a row that conflicts comes back with the id 0.
abbrev full : {B : Type 0} → Table B Bool
full = record {
  find = λ d bs. some (map (λ b. (b, 7)) bs);
  create = λ d bs. some (map (λ b. (b, 0)) bs, d);
}

al-IsCanonical : IsCanonical (account_items known text) (codes "al")
unfolding account_items normalize_account_to_bech32 acc_address_from_string
al-IsCanonical = record { normal = refl; bytes = codes "al"; to = refl; back = refl }

abbrev token_key : NftKey
token_key = record {
  collection_addr = codes "0x1111111111111111111111111111111111111111";
  token_id = codes "1";
}

token_key-IsCanonical : IsCanonical (nft_items known text) token_key
unfolding nft_items nft_bytes acc_address_from_string bytes_to_hex_with_prefix
token_key-IsCanonical = record {
  normal = refl;
  bytes = (replicate 20 17, codes "1");
  to = refl;
  back = refl;
}

abbrev twice : List Text
twice = codes "al" ∷ codes "al" ∷ []

get_or_create_account_ids-eq_example :
    (get_or_create_account_ids known text account_cache full true twice [] true
      ≡ get_or_create_ids text_discrete itself account_cache
          (via text_discrete (account_items known text) full)
          true
          (dedup twice [])
          []
          true)
    × AreDistinct text_discrete itself (dedup twice [])
    × ((a : Text) → Has a twice → Has a (dedup twice []))
get_or_create_account_ids-eq_example =
    get_or_create_account_ids-eq known text account_cache full true twice [] true
      (al-IsCanonical, (al-IsCanonical, tt))

get_or_create_nft_ids-eq_example :
    get_or_create_nft_ids known text token_cache full true (token_key ∷ []) [] true
    ≡ get_or_create_ids NftKey-discrete itself token_cache
        (via NftKey-discrete (nft_items known text) full)
        true
        (token_key ∷ [])
        []
        true
get_or_create_nft_ids-eq_example =
    get_or_create_nft_ids-eq known text token_cache full true (token_key ∷ []) [] true
      (token_key-IsCanonical, tt)

-- An account in hexadecimal that the table has is looked up by its own text among the bech32 texts,
-- inserted again, and gets the id of the conflicting row.
hex_account : Text
hex_account = codes "0x1111111111111111111111111111111111111111"

hex_account_gets_0 :
    get text_discrete hex_account
      (get_or_create_account_ids
        (λ s. none)
        (λ b. codes "init1x")
        account_cache
        full
        true
        (hex_account ∷ [])
        []
        true).id_map
    ≡ some 0
unfolding get_or_create_account_ids hex_account get ℕ_discrete
hex_account_gets_0 = refl
