-- ===== src/Nft/Wasm.antt =====
-- indexer/collector/wasm-nft/collect.go: the collector of a WasmVM rollup.
pub mod Writes
pub mod Answers
pub mod Stages
pub mod Refinement
pub mod Counting
use mathlib.Core.Logic.{ite}
use rollytics.Prelude.{ℕ, List, [], ◌∷◌, ◌++◌, map, Option, none, some, ◌>>=◌}
use rollytics.Prelude.GoMap.{get}
use rollytics.Text.{Text, codes, text_discrete}
use rollytics.Types.{ScrapedBlock, ParsedEvent}
use rollytics.Address.{acc_address_from_string, hex_to_bytes, bytes_to_hex_with_prefix}
use rollytics.Nft.Changes.{
  NftKey, Keys, Op, mint, transfer, burn, Changes, Reading, skipped, failed, found, gather,
  no_changes, or_empty,
}
use rollytics.Nft.Tables.{
  RowKey, RowKey-discrete, CollectedNft, CollectedNftCollection, Nfts, Collections, id_or_zero,
  create, upsert, table_rows, delete_burned_nfts, refresh_counts,
}
use rollytics.Nft.Services.{Services, block_events}
use rollytics.Nft.Edges.{CollectedTxNft, CollectedTxNft-discrete, tx_nft_edges}
use rollytics.Nft.Pair.{Packets, collect_pairs}

-- The maps of `mintMap`.
pub record Minted : Type 0 where
  pub owner : Text
  pub uri : Text

pub record CollectionInfo : Type 0 where
  pub name : Text
  pub creator : Text

pub record Db : Type 0 where
  pub nfts : Nfts
  pub collections : Collections
  pub tx_nfts : Keys CollectedTxNft

-- The cases of the switch: the attributes that each asks for.
unfoldable pub read_mint : Text → Option Text → Option Text → Option Text → Reading Minted
unfolding or_empty
read_mint collection_addr (some token_id) (some owner) token_uri = found (
    mint (record { collection_addr = collection_addr; token_id = token_id })
      (record { owner = owner; uri = or_empty token_uri }))
read_mint collection_addr token_id owner token_uri = skipped

unfoldable pub read_transfer : Text → Option Text → Option Text → Reading Minted
read_transfer collection_addr (some token_id) (some recipient) =
    found (transfer (record { collection_addr = collection_addr; token_id = token_id }) recipient)
read_transfer collection_addr token_id recipient = skipped

unfoldable pub read_burn : Text → Option Text → Reading Minted
read_burn collection_addr none = skipped
read_burn collection_addr (some token_id) =
    found (burn (record { collection_addr = collection_addr; token_id = token_id }))

unfoldable pub read_action : Text → List (Text × Text) → Option Text → Reading Minted
unfolding read_mint read_transfer read_burn get
read_action collection_addr attrs none = skipped
read_action collection_addr attrs (some action) =
    let token_id = get text_discrete (codes "token_id") attrs in
    let recipient = get text_discrete (codes "recipient") attrs in
    ite (text_discrete action (codes "mint"))
      (read_mint collection_addr token_id (get text_discrete (codes "owner") attrs)
        (get text_discrete (codes "token_uri") attrs))
      (ite (text_discrete action (codes "transfer_nft"))
        (read_transfer collection_addr token_id recipient)
        (ite (text_discrete action (codes "send_nft"))
          (read_transfer collection_addr token_id recipient)
          (ite (text_discrete action (codes "burn")) (read_burn collection_addr token_id) skipped)))

unfoldable pub all_addresses : List (Text × CollectionInfo) → Changes Minted → List Text
all_addresses col_infos c =
    map (λ info. info.1.creator) col_infos
    ++ (map (λ minted. minted.1.owner) c.mint_map ++ map (λ t. t.1) c.transfer_map)

module _ (s : Services) where
  abbrev pub acc_address : Text → Option (List ℕ)
  acc_address = acc_address_from_string s.bech32

  -- From the contract's address on: its bytes are written in hexadecimal.
  unfoldable pub read_contract : List (Text × Text) → Option (List ℕ) → Reading Minted
  unfolding read_action get bytes_to_hex_with_prefix
  read_contract attrs none = failed
  read_contract attrs (some addr) =
      read_action (bytes_to_hex_with_prefix addr) attrs (get text_discrete (codes "action") attrs)

  unfoldable pub read_event : ParsedEvent → Reading Minted
  unfolding read_contract acc_address_from_string get
  read_event event = elim (get text_discrete (codes "_contract_address") event.attr_map) [
    | none ↦ skipped
    | some contract ↦ read_contract event.attr_map (acc_address contract)
  ]

  unfoldable pub readings : List ParsedEvent → List (Text × Reading Minted)
  unfolding read_event
  readings events = map (λ event. (event.tx_hash, read_event event)) events

  module _ (height timestamp : ℕ) (ids : List (Text × ℕ)) where
    abbrev pub account_id : Text → ℕ
    account_id account = id_or_zero (get text_discrete account ids)

    unfoldable pub created_cols : List (Text × CollectionInfo) → Option Collections
    unfolding acc_address_from_string id_or_zero get
    created_cols [] = some []
    created_cols ((collection_addr, info) ∷ infos) = do
      addr ← acc_address collection_addr
      cols ← created_cols infos
      some (
          (
            addr,
            record {
              height = height;
              timestamp = timestamp;
              name = info.name;
              origin_name = [];
              creator_id = account_id info.creator;
              nft_count = 0;
            },
          )
          ∷ cols)

    unfoldable pub minted_row : Minted → CollectedNft
    unfolding id_or_zero get
    minted_row minted = record {
      addr = [];
      height = height;
      timestamp = timestamp;
      owner_id = account_id minted.owner;
      uri = minted.uri;
    }

    unfoldable pub transferred_row : Text → CollectedNft
    unfolding id_or_zero get
    transferred_row recipient = record {
      addr = [];
      height = height;
      timestamp = timestamp;
      owner_id = account_id recipient;
      uri = [];
    }

    -- The writes to `nft`: minted, transferred and burnt tokens.
    unfoldable pub write_nfts : Changes Minted → Nfts → Option Nfts
    unfolding table_rows minted_row transferred_row create upsert delete_burned_nfts
        acc_address_from_string
    write_nfts c table = do
      minted ← table_rows acc_address minted_row c.mint_map
      transferred ← table_rows acc_address transferred_row c.transfer_map
      delete_burned_nfts acc_address c.burn_map
          (upsert transferred (create RowKey-discrete minted table))

  -- From the maps of the block on. `hex_to_bytes` reads the keys of `updateCountMap`.
  unfoldable pub write_changes :
      Packets → ScrapedBlock → List (Text × CollectionInfo) → Changes Minted → Db → Option Db
  unfolding all_addresses created_cols create write_nfts refresh_counts tx_nft_edges collect_pairs
      hex_to_bytes
  write_changes p block col_infos c db = do
    ids ← s.account_ids (all_addresses col_infos c)
    cols ← created_cols block.height block.timestamp ids col_infos
    nfts ← write_nfts block.height block.timestamp ids c db.nfts
    collections ←
        refresh_counts hex_to_bytes c.update_count_map nfts
          (create text_discrete cols db.collections)
    edges ← tx_nft_edges s block.height c.nft_tx_map
    paired ← collect_pairs s p block collections
    some (record {
      nfts = nfts;
      collections = paired;
      tx_nfts = create CollectedTxNft-discrete edges db.tx_nfts;
    })

  -- `none` for the data of `prepare` is the error that it is not there.
  unfoldable pub collect :
      Packets → ScrapedBlock → Option (List (Text × CollectionInfo)) → Db → Option Db
  unfolding block_events gather readings write_changes
  collect p block prepared db = do
    col_infos ← prepared
    events ← block_events s block (codes "wasm")
    c ← gather (readings events) no_changes
    write_changes p block col_infos c db
