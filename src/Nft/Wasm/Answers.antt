-- ===== src/Nft/Wasm/Answers.antt =====
-- indexer/collector/wasm-nft/collect.go: where the parts of the collector answer.
use rollytics.Prelude.{ℕ, ◌≡◌, refl, List, [], ◌∷◌, Option, none, some, IsSome, IsSome-bind, All}
use rollytics.Prelude.GoMap.{get, AllKeys}
use rollytics.Text.{Text, codes, text_discrete}
use rollytics.Types.{ScrapedBlock, ParsedEvent}
use rollytics.Address.{hex_to_bytes, bytes_to_hex_with_prefix}
use rollytics.Address.Hex.{IsByte}
use rollytics.Nft.Changes.{NftKey, Keys, Op}
use rollytics.Nft.Ledger.{key_of, operations}
use rollytics.Nft.Tables.{Nfts, Collections, update_addrs, refresh_counts}
use rollytics.Nft.Services.{Services, block_events}
use rollytics.Nft.Edges.{edges_of_ids, tx_edges, tx_nft_edges}
use rollytics.Nft.Pair.{Packets, collection_pairs, collect_pairs, update_origins}
use rollytics.Nft.Wasm.{Minted, CollectionInfo, readings, acc_address, account_id, created_cols}

-- The address of a collection, written in hexadecimal, reads back as it was.
pub record IsReadable (s : Services) (key : NftKey) : Type 0 where
  pub addr : List ℕ
  pub text : key.collection_addr ≡ bytes_to_hex_with_prefix addr
  pub bytes : All IsByte addr
  pub back : acc_address s (bytes_to_hex_with_prefix addr) ≡ some addr

-- What the collector relies on: the dictionaries and the table `tx` answer.
pub record IsServed (s : Services) (height : ℕ) (id_of : Text → ℕ) : Type 0 where
  pub accounts :
      (asked : List Text)
      → (ids : List (Text × ℕ)) × (s.account_ids asked ≡ some ids)
        × All (λ a. get text_discrete a ids ≡ some (id_of a)) asked
  pub nfts : (keys : List NftKey) → IsSome (s.nft_ids keys)
  pub sequences : (hash : List ℕ) → IsSome (s.sequence hash height)

-- The rows of new collections count no tokens.
pub created_cols-IsSome :
    (s : Services) (height timestamp : ℕ) (ids : List (Text × ℕ))
    (infos : List (Text × CollectionInfo))
    → All (λ i. IsSome (acc_address s i.0)) infos
    → (cols : Collections) × (created_cols s height timestamp ids infos ≡ some cols)
      × All (λ e. e.1.nft_count ≡ 0) cols
unfolding created_cols
created_cols-IsSome s height timestamp ids [] all = ([], refl, tt)
created_cols-IsSome s height timestamp ids ((c, info) ∷ infos) all =
    let (cols, created, zero_counts) = created_cols-IsSome s height timestamp ids infos all.1 in
    (
      (
        all.0.0,
        record {
          height = height;
          timestamp = timestamp;
          name = info.name;
          origin_name = [];
          creator_id = account_id s height timestamp ids info.creator;
          nft_count = 0;
        },
      )
          ∷ cols,
      rw all.0.1 (rw created refl),
      (refl, zero_counts),
    )

update_addrs-IsSome :
    (m : Keys Text)
    → AllKeys text_discrete (λ c. IsSome (hex_to_bytes c)) m
    → IsSome (update_addrs hex_to_bytes m)
unfolding update_addrs
update_addrs-IsSome [] all = (_, refl)
update_addrs-IsSome ((c, u) ∷ m) all = IsSome-bind (hex_to_bytes c) _ all.0 (λ addr.
    IsSome-bind (update_addrs hex_to_bytes m) _ (update_addrs-IsSome m all.1) (λ addrs. (_, refl)))

module _ (s : Services) (height : ℕ) (id_of : Text → ℕ) (served : IsServed s height id_of) where
  edges_of_ids-IsSome :
      (hash : Option (List ℕ)) (ids : List ℕ) → IsSome (edges_of_ids s height hash ids)
  unfolding edges_of_ids
  edges_of_ids-IsSome none ids = (_, refl)
  edges_of_ids-IsSome (some hash) ids =
      IsSome-bind (s.sequence hash height) _ (served.sequences hash) (λ q. (_, refl))

  tx_edges-IsSome :
      (tx_hash : Text) (cs : List (Text × Keys Text)) → IsSome (tx_edges s height tx_hash cs)
  unfolding tx_edges
  tx_edges-IsSome [] cs = (_, refl)
  tx_edges-IsSome (c ∷ tx_hash) cs =
      IsSome-bind (s.nft_ids _) _ (served.nfts _) (λ m. edges_of_ids-IsSome _ _)

  pub tx_nft_edges-IsSome :
      (m : List (Text × List (Text × Keys Text))) → IsSome (tx_nft_edges s height m)
  unfolding tx_nft_edges
  tx_nft_edges-IsSome [] = (_, refl)
  tx_nft_edges-IsSome ((tx_hash, cs) ∷ m) =
      IsSome-bind (tx_edges s height tx_hash cs) _ (tx_edges-IsSome tx_hash cs) (λ edges.
        IsSome-bind (tx_nft_edges s height m) _ (tx_nft_edges-IsSome m) (λ rest. (_, refl)))

pub refresh_counts-IsSome :
    (m : Keys Text) (table : Nfts) (rows : Collections)
    → AllKeys text_discrete (λ c. IsSome (hex_to_bytes c)) m
    → IsSome (refresh_counts hex_to_bytes m table rows)
unfolding refresh_counts
refresh_counts-IsSome m table rows all =
    IsSome-bind (update_addrs hex_to_bytes m) _ (update_addrs-IsSome m all) (λ addrs. (_, refl))

-- The packets of the block can be read.
abbrev pub HasPairs : Services → Packets → ScrapedBlock → Type 0
HasPairs s p block =
    (events : _) × (block_events s block (codes "recv_packet") ≡ some events)
    × IsSome (collection_pairs p events [])

pub collect_pairs-IsSome :
    (s : Services) (p : Packets) (block : ScrapedBlock) (rows : Collections)
    → HasPairs s p block
    → IsSome (collect_pairs s p block rows)
unfolding collect_pairs
collect_pairs-IsSome s p block rows (events, read, paired) =
    (update_origins paired.0 rows, rw read (rw paired.1 refl))

-- What a block needs to be collected: its events read as the operations `ops`, the addresses of
-- collections read back, and the dictionaries and tables answer.
pub record IsCollectable (s : Services) (p : Packets) (block : ScrapedBlock) (id_of : Text → ℕ)
    (infos : List (Text × CollectionInfo)) (ops : List (Text × Op Minted)) : Type 0 where
  pub served : IsServed s block.height id_of
  pub pairs : HasPairs s p block
  pub infos_read : All (λ i. IsSome (acc_address s i.0)) infos
  pub events : List ParsedEvent
  pub extracted : block_events s block (codes "wasm") ≡ some events
  pub read : operations (readings s events) ≡ some ops
  pub readable : All (λ op. IsReadable s (key_of op.1)) ops
