-- ===== src/Dictionary/Normal.antt =====
-- util/cache/cache.go: the ids of accounts and of tokens. The two dictionaries have one body over an
-- item of type `K` that the table holds as `B`: an account's text and its bytes, or a key with the
-- text of a collection and one with its bytes. `to_bytes` may fail; `of_bytes` writes an item for a
-- row. Only accounts are normalised before the cache is asked.
use mathlib.Core.Option
use rollytics.Prelude.{Bool, true, false, List, [], ◌∷◌, Option, none, some, ◌>>=◌, ℕ}
use rollytics.Prelude.GoMap.{get, put}
use rollytics.Text.{Text, text_discrete}
use rollytics.Address.{acc_address_from_string, bytes_to_hex_with_prefix}
use rollytics.Nft.Changes.{NftKey, NftKey-discrete}
use rollytics.Dictionary.{Cache, Table, Ids, add_entries}

-- What tells the two dictionaries apart.
pub record Items (K B : Type 0) : Type 0 where
  pub normalize : K → Option K
  pub to_bytes : K → Option B
  pub of_bytes : B → K

module _ {K B : Type 0} (items : Items K B) where
  -- The loop that converts the items before the query.
  unfoldable pub all_bytes : List K → Option (List B)
  all_bytes [] = some []
  all_bytes (k ∷ ks) = do b ← items.to_bytes k; bs ← all_bytes ks; some (b ∷ bs)

module _ {K B : Type 0} (dec : Discrete K) (items : Items K B) where
  -- The loop over the items without an entry: the lookup is by the item as it was given.
  unfoldable pub new_bytes : List K → List (K × ℕ) → Option (List B)
  unfolding get
  new_bytes [] m = some []
  new_bytes (k ∷ ks) m = elim (get dec k m) [
    | some id ↦ new_bytes ks m
    | none ↦ do b ← items.to_bytes k; bs ← new_bytes ks m; some (b ∷ bs)
  ]

  module _ {C : Type 0} (ops : Cache K C) where
    -- The loop over the cache; an item that does not normalise counts as not cached.
    unfoldable pub check_normal : List K → List (K × ℕ) → C → List (K × ℕ) × List K × C
    unfolding put
    check_normal [] id_map c = (id_map, [], c)
    check_normal (k ∷ ks) id_map c = elim (items.normalize k) [
      | none ↦ let (ids, uncached, c') = check_normal ks id_map c in (ids, k ∷ uncached, c')
      | some key ↦ elim (ops.lookup c key).0 [
        | some id ↦ check_normal ks (put dec k id id_map) (ops.lookup c key).1
        | none ↦
            let (ids, uncached, c') = check_normal ks id_map (ops.lookup c key).1 in
            (ids, k ∷ uncached, c')
      ]
    ]

    -- The last loop, which sets the cache and the result.
    unfoldable pub update_normal : List K → List (K × ℕ) → List (K × ℕ) → C → List (K × ℕ) × C
    unfolding get put
    update_normal [] m id_map c = (id_map, c)
    update_normal (k ∷ ks) m id_map c = elim (items.normalize k) [
      | none ↦ update_normal ks m id_map c
      | some key ↦ elim (get dec key m) [
        | some id ↦ update_normal ks m (put dec k id id_map) (ops.set c key id)
        | none ↦ update_normal ks m id_map c
      ]
    ]

  module _ {D : Type 0} (db : Table B D) where
    unfoldable pub fetch_from_db : List K → D → Option (List (K × ℕ))
    unfolding all_bytes add_entries
    fetch_from_db uncached d = do
      bs ← all_bytes items uncached
      es ← db.find d bs
      some (add_entries dec items.of_bytes es [])

    unfoldable pub create_bytes : List B → List (K × ℕ) → D → Option (List (K × ℕ) × D)
    unfolding add_entries
    create_bytes [] m d = some (m, d)
    create_bytes (b ∷ bs) m d = do
      (es, d') ← db.create d (b ∷ bs)
      some (add_entries dec items.of_bytes es m, d')

    -- The branch `createNew`.
    unfoldable pub create_new : Bool → List K → List (K × ℕ) → D → Option (List (K × ℕ) × D)
    unfolding new_bytes create_bytes
    create_new false uncached m d = some (m, d)
    create_new true uncached m d = do bs ← new_bytes uncached m; create_bytes bs m d

  module _ {C D : Type 0} (ops : Cache K C) (db : Table B D) where
    -- From the end of the branch `createNew` on.
    unfoldable pub finish_normal :
        List K → Option (List (K × ℕ) × D) → List (K × ℕ) → C → D → Ids K C D
    unfolding update_normal
    finish_normal uncached none id_map c d = record {
      id_map = id_map;
      failed = true;
      cache = c;
      table = d;
    }
    finish_normal uncached (some (m, d')) id_map c d =
        let (ids, c') = update_normal ops uncached m id_map c in
        record { id_map = ids; failed = false; cache = c'; table = d' }

    -- From the query on.
    unfoldable pub fetch_normal :
        Bool → List K → Option (List (K × ℕ)) → List (K × ℕ) → C → D → Ids K C D
    unfolding finish_normal create_new
    fetch_normal create uncached none id_map c d = record {
      id_map = id_map;
      failed = true;
      cache = c;
      table = d;
    }
    fetch_normal create uncached (some m) id_map c d =
        finish_normal uncached (create_new db create uncached m d) id_map c d

    unfoldable pub uncached_normal : Bool → List K → List (K × ℕ) → C → D → Ids K C D
    unfolding fetch_normal fetch_from_db
    uncached_normal create [] id_map c d = record {
      id_map = id_map;
      failed = false;
      cache = c;
      table = d;
    }
    uncached_normal create (u ∷ us) id_map c d =
        fetch_normal create (u ∷ us) (fetch_from_db db (u ∷ us) d) id_map c d

    unfoldable pub get_or_create_normal : Bool → List K → C → D → Ids K C D
    unfolding check_normal uncached_normal
    get_or_create_normal create ks c d =
        let (id_map, uncached, c') = check_normal ops ks [] c in
        uncached_normal create uncached id_map c' d

-- The loop that drops the accounts it has seen.
unfoldable pub dedup : List Text → List (Text × Unit {0}) → List Text
unfolding get put
dedup [] seen = []
dedup (a ∷ accounts) seen = elim (get text_discrete a seen) [
  | some u ↦ dedup accounts seen
  | none ↦ a ∷ dedup accounts (put text_discrete a tt seen)
]

module _ (bech32 : Text → Option (List ℕ)) (address_text : List ℕ → Text) where
  unfoldable pub normalize_account_to_bech32 : Text → Option Text
  unfolding acc_address_from_string
  normalize_account_to_bech32 account =
      Option.map address_text (acc_address_from_string bech32 account)

  unfoldable pub account_items : Items Text (List ℕ)
  unfolding normalize_account_to_bech32 acc_address_from_string
  account_items = record {
    normalize = normalize_account_to_bech32;
    to_bytes = acc_address_from_string bech32;
    of_bytes = address_text;
  }

  unfoldable pub nft_bytes : NftKey → Option (List ℕ × Text)
  unfolding acc_address_from_string
  nft_bytes key = do
    addr ← acc_address_from_string bech32 key.collection_addr
    some (addr, key.token_id)

  unfoldable pub nft_items : Items NftKey (List ℕ × Text)
  unfolding nft_bytes bytes_to_hex_with_prefix
  nft_items = record {
    normalize = some;
    to_bytes = nft_bytes;
    of_bytes = λ b. record { collection_addr = bytes_to_hex_with_prefix b.0; token_id = b.1 };
  }

  module _ {C D : Type 0} where
    unfoldable pub get_or_create_account_ids :
        Cache Text C → Table (List ℕ) D → Bool → List Text → C → D → Ids Text C D
    unfolding dedup account_items get_or_create_normal
    get_or_create_account_ids ops db create accounts =
        get_or_create_normal text_discrete account_items ops db create (dedup accounts [])

    unfoldable pub get_or_create_nft_ids :
        Cache NftKey C → Table (List ℕ × Text) D → Bool → List NftKey → C → D → Ids NftKey C D
    unfolding nft_items get_or_create_normal
    get_or_create_nft_ids ops db = get_or_create_normal NftKey-discrete nft_items ops db
