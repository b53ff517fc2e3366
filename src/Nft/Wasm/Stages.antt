-- ===== src/Nft/Wasm/Stages.antt =====
-- indexer/collector/wasm-nft/collect.go: the stages of a block that is collected.
use rollytics.Prelude.{ℕ, ◌≡◌, refl, ap, ◌∙◌, List, some, All, All-imp}
use rollytics.Prelude.GoMap.{get}
use rollytics.Text.{Text, text_discrete}
use rollytics.Types.{ScrapedBlock}
use rollytics.Address.{hex_to_bytes, bytes_to_hex_with_prefix}
use rollytics.Address.Hex.{IsByte}
use rollytics.Address.Laws.{hex_to_bytes-bytes_to_hex}
use rollytics.Nft.Changes.{NftKey, NftKey-discrete, Op, Changes, no_changes}
use rollytics.Nft.Ledger.{key_of, apply_all}
use rollytics.Nft.Tables.{RowKey-discrete, Collections, create, refresh_counts}
use rollytics.Nft.Services.{Services}
use rollytics.Nft.Pair.{Packets, collect_pairs}
use rollytics.Nft.Edges.{CollectedTxNft-discrete}
use rollytics.Nft.Rows.{Reads}
use rollytics.Nft.Gathered.{
  gather-apply_all, IsGood, IsGood-imp, no_changes-IsGood, apply_all-IsGood,
}
use rollytics.Nft.Wasm.{
  Minted, CollectionInfo, Db, acc_address, readings, all_addresses, write_changes, collect,
}
use rollytics.Nft.Wasm.Writes.{Knows, written, get-write_nfts}
use rollytics.Nft.Wasm.Answers.{
  IsReadable, IsCollectable, created_cols-IsSome, refresh_counts-IsSome, tx_nft_edges-IsSome,
  collect_pairs-IsSome,
}

abbrev pub Change : Type 0
Change = Text × Op Minted

abbrev pub key_at : List ℕ → Text → NftKey
key_at addr token_id = record {
  collection_addr = bytes_to_hex_with_prefix addr;
  token_id = token_id;
}

-- The hexadecimal text of some bytes.
abbrev pub IsHex : Text → Type 0
IsHex c = (bs : List ℕ) × (c ≡ bytes_to_hex_with_prefix bs) × All IsByte bs

pub IsHex-bytes : (c : Text) (h : IsHex c) → hex_to_bytes c ≡ some h.0
IsHex-bytes c (bs, e, bytes) = ap hex_to_bytes e ∙ (hex_to_bytes-bytes_to_hex bs bytes).1

IsReadable-IsHex : (s : Services) (key : NftKey) → IsReadable s key → IsHex key.collection_addr
IsReadable-IsHex s key r = (r.addr, r.text, r.bytes)

module _ (s : Services) (addr : List ℕ) (token_id : Text)
    (reads : acc_address s (bytes_to_hex_with_prefix addr) ≡ some addr) where
  abbrev Target : Text → Type 0
  Target = Reads (acc_address s) (key_at addr token_id) addr reads

  IsReadable-Reads : (key : NftKey) → IsReadable s key → Target key.collection_addr
  IsReadable-Reads key r =
      (r.addr, ap (acc_address s) r.text ∙ r.back, λ e. r.text ∙ ap bytes_to_hex_with_prefix e)

pub changes-IsGood :
    (s : Services) (ops : List Change)
    → All (λ op. IsReadable s (key_of op.1)) ops
    → IsGood (IsReadable s) IsHex (apply_all ops no_changes)
changes-IsGood s ops readable =
    apply_all-IsGood (IsReadable s) IsHex (IsReadable-IsHex s) ops no_changes readable
      (no_changes-IsGood (IsReadable s) IsHex (IsReadable-IsHex s))

-- The stages of `collect`, seen from a token.
pub record Stages (s : Services) (p : Packets) (block : ScrapedBlock) (id_of : Text → ℕ)
    (infos : List (Text × CollectionInfo)) (db : Db) (c : Changes Minted) (key : NftKey)
    (addr : List ℕ) : Type 0 where
  pub ids : List (Text × ℕ)
  pub knows : All (Knows id_of ids) (all_addresses infos c)
  pub cols : Collections
  pub zero_counts : All (λ e. e.1.nft_count ≡ 0) cols
  pub after : Db
  pub collections : Collections
  pub counted :
      refresh_counts hex_to_bytes c.update_count_map after.nfts
        (create text_discrete cols db.collections)
      ≡ some collections
  pub paired : collect_pairs s p block collections ≡ some after.collections
  pub row :
      get RowKey-discrete (addr, key.token_id) after.nfts
      ≡ written id_of s block.height block.timestamp ids
          (get RowKey-discrete (addr, key.token_id) db.nfts)
          (get NftKey-discrete key c.mint_map)
          (get NftKey-discrete key c.transfer_map)
          (get NftKey-discrete key c.burn_map)
  pub collected : collect s p block (some infos) db ≡ some after

-- A collectable block is collected.
pub collect-Stages :
    (s : Services) (p : Packets) (block : ScrapedBlock) (id_of : Text → ℕ)
    (infos : List (Text × CollectionInfo)) (ops : List Change) (db : Db) (addr : List ℕ)
    (token_id : Text)
    → IsCollectable s p block id_of infos ops
    → acc_address s (bytes_to_hex_with_prefix addr) ≡ some addr
    → Stages s p block id_of infos db (apply_all ops no_changes) (key_at addr token_id) addr
unfolding collect write_changes
collect-Stages s p block id_of infos ops db addr token_id h reads =
    let key : NftKey = key_at addr token_id in
    let c : Changes Minted = apply_all ops no_changes in
    let good = changes-IsGood s ops h.readable in
    let target = IsGood-imp c (IsReadable-Reads s addr token_id reads) good in
    let (ids, asked, knows) = h.served.accounts (all_addresses infos c) in
    let (cols, created, zero_counts) =
      created_cols-IsSome s block.height block.timestamp ids infos h.infos_read in
    let (nfts, wrote, row) =
      get-write_nfts id_of s block.height block.timestamp ids key addr reads c db.nfts target in
    let (collections, counted) =
      refresh_counts-IsSome c.update_count_map nfts (create text_discrete cols db.collections)
        (All-imp c.update_count_map (λ e h. (h.0, IsHex-bytes e.0 h)) good.counted_keys) in
    let (edges, edged) = tx_nft_edges-IsSome s block.height id_of h.served c.nft_tx_map in
    let (paired, named) = collect_pairs-IsSome s p block collections h.pairs in
    record {
      ids = ids;
      knows = knows;
      cols = cols;
      zero_counts = zero_counts;
      after = record {
        nfts = nfts;
        collections = paired;
        tx_nfts = create CollectedTxNft-discrete edges db.tx_nfts;
      };
      collections = collections;
      counted = counted;
      paired = named;
      row = row;
      collected = rw h.extracted (
          rw (gather-apply_all (readings s h.events) ops no_changes h.read)
            (rw asked (rw created (rw wrote (rw counted (rw edged (rw named refl)))))));
    }
