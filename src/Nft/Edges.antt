-- ===== src/Nft/Edges.antt =====
-- indexer/collector/wasm-nft/collect.go and evm-nft/collect.go: the rows of `tx_nfts`, one for each
-- transaction and token that it names.
use rollytics.Prelude.{
  ℕ, List, [], ◌∷◌, ◌++◌, Option, none, some, ◌>>=◌, if◌then◌else◌, contains, ℕ_discrete,
}
use rollytics.Prelude.GoMap.{get}
use rollytics.Text.{Text}
use rollytics.Address.{hex_to_bytes}
use rollytics.Nft.Changes.{NftKey, NftKey-discrete, Keys}
use rollytics.Nft.Services.{Services}

pub record CollectedTxNft : Type 0 where
  pub nft_id : ℕ
  pub sequence : ℕ

abbrev pub CollectedTxNft-discrete : Discrete CollectedTxNft
CollectedTxNft-discrete = hlevel ℕ_discrete

unfoldable pub token_keys : Text → Keys Text → List NftKey
token_keys collection_addr [] = []
token_keys collection_addr ((token_id, u) ∷ tokens) =
    record { collection_addr = collection_addr; token_id = token_id }
    ∷ token_keys collection_addr tokens

-- The loop over the collections of a transaction.
unfoldable pub tx_keys : List (Text × Keys Text) → List NftKey
unfolding token_keys
tx_keys [] = []
tx_keys ((collection_addr, tokens) ∷ collections) =
    token_keys collection_addr tokens ++ tx_keys collections

unfoldable pub found_ids : List NftKey → List (NftKey × ℕ) → List ℕ
unfolding get
found_ids [] id_map = []
found_ids (key ∷ keys) id_map = elim (get NftKey-discrete key id_map) [
  | none ↦ found_ids keys id_map
  | some id ↦ id ∷ found_ids keys id_map
]

-- The loop that skips an id which it has seen.
unfoldable pub unseen_edges : ℕ → List ℕ → List ℕ → Keys CollectedTxNft
unfolding contains
unseen_edges sequence [] seen = []
unseen_edges sequence (id ∷ ids) seen =
    let edges = unseen_edges sequence ids (id ∷ seen) in
    if contains id seen
    then unseen_edges sequence ids seen
    else (record { nft_id = id; sequence = sequence }, tt) ∷ edges

module _ (s : Services) (height : ℕ) where
  -- From the ids of the tokens on; a hash that does not decode is logged and skipped.
  unfoldable pub edges_of_ids : Option (List ℕ) → List ℕ → Option (Keys CollectedTxNft)
  unfolding unseen_edges
  edges_of_ids none ids = some []
  edges_of_ids (some hash) ids = do
    sequence ← s.sequence hash height
    some (unseen_edges sequence ids [])

  unfoldable pub tx_edges : Text → List (Text × Keys Text) → Option (Keys CollectedTxNft)
  unfolding tx_keys found_ids edges_of_ids hex_to_bytes
  tx_edges [] collections = some []
  tx_edges (c ∷ tx_hash) collections = do
    id_map ← s.nft_ids (tx_keys collections)
    edges_of_ids (hex_to_bytes (c ∷ tx_hash)) (found_ids (tx_keys collections) id_map)

  unfoldable pub tx_nft_edges : List (Text × List (Text × Keys Text)) → Option (Keys CollectedTxNft)
  unfolding tx_edges
  tx_nft_edges [] = some []
  tx_nft_edges ((tx_hash, collections) ∷ nft_tx_map) = do
    edges ← tx_edges tx_hash collections
    rest ← tx_nft_edges nft_tx_map
    some (edges ++ rest)
