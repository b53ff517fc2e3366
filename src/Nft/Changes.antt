-- ===== src/Nft/Changes.antt =====
-- indexer/collector/wasm-nft/collect.go and evm-nft/collect.go: the maps that the loop over the
-- events of a block fills. `M` is what the map of the minted tokens holds.
use rollytics.Prelude.{List, [], ◌∷◌, Option, none, some}
use rollytics.Prelude.GoMap.{get, put, delete}
use rollytics.Text.{Text, text_discrete}

pub record NftKey : Type 0 where
  pub collection_addr : Text
  pub token_id : Text

abbrev pub NftKey-discrete : Discrete NftKey
NftKey-discrete = hlevel text_discrete

-- A Go map used as a set.
abbrev pub Keys : Type 0 → Type 0
Keys K = List (K × Unit {0})

-- What an event does to a token. A transfer names the recipient.
pub data Op (M : Type 0) : Type 0 where
  mint : NftKey → M → Op M
  transfer : NftKey → Text → Op M
  burn : NftKey → Op M

pub record Changes (M : Type 0) : Type 0 where
  pub mint_map : List (NftKey × M)
  pub transfer_map : List (NftKey × Text)
  pub burn_map : Keys NftKey
  pub update_count_map : Keys Text
  pub nft_tx_map : List (Text × List (Text × Keys Text))

abbrev pub no_changes : {M : Type 0} → Changes M
no_changes = record {
  mint_map = [];
  transfer_map = [];
  burn_map = [];
  update_count_map = [];
  nft_tx_map = [];
}

-- A map of a map, empty where the key is missing.
unfoldable pub or_empty : {A : Type 0} → Option (List A) → List A
or_empty none = []
or_empty (some m) = m

unfoldable pub add_nft_tx :
    Text → NftKey → List (Text × List (Text × Keys Text)) → List (Text × List (Text × Keys Text))
unfolding get put or_empty
add_nft_tx tx_hash key m =
    let collections = or_empty (get text_discrete tx_hash m) in
    let tokens = or_empty (get text_discrete key.collection_addr collections) in
    put text_discrete tx_hash
      (put text_discrete key.collection_addr (put text_discrete key.token_id tt tokens) collections)
      m

-- The cases of the switch.
unfoldable pub apply : {M : Type 0} → Text → Op M → Changes M → Changes M
unfolding put delete add_nft_tx
apply tx_hash (mint key m) c = record c {
  mint_map = put NftKey-discrete key m c.mint_map;
  burn_map = delete NftKey-discrete key c.burn_map;
  update_count_map = put text_discrete key.collection_addr tt c.update_count_map;
  nft_tx_map = add_nft_tx tx_hash key c.nft_tx_map;
}
apply tx_hash (transfer key recipient) c = record c {
  transfer_map = put NftKey-discrete key recipient c.transfer_map;
  nft_tx_map = add_nft_tx tx_hash key c.nft_tx_map;
}
apply tx_hash (burn key) c = record c {
  burn_map = put NftKey-discrete key tt c.burn_map;
  mint_map = delete NftKey-discrete key c.mint_map;
  transfer_map = delete NftKey-discrete key c.transfer_map;
  update_count_map = put text_discrete key.collection_addr tt c.update_count_map;
  nft_tx_map = add_nft_tx tx_hash key c.nft_tx_map;
}

-- What an iteration of the loop finds: `continue`, an error, or a change.
pub data Reading (M : Type 0) : Type 0 where
  skipped : Reading M
  failed : Reading M
  found : Op M → Reading M

-- The loop over the readings of the events, each with its transaction.
unfoldable pub gather : {M : Type 0} → List (Text × Reading M) → Changes M → Option (Changes M)
unfolding apply
gather [] c = some c
gather ((tx_hash, skipped) ∷ readings) c = gather readings c
gather ((tx_hash, failed) ∷ readings) c = none
gather ((tx_hash, found op) ∷ readings) c = gather readings (apply tx_hash op c)
