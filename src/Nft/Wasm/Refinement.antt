-- ===== src/Nft/Wasm/Refinement.antt =====
-- indexer/collector/wasm-nft/collect.go: the table `nft` follows the ledger of the tokens.
use mathlib.Core.Option
use rollytics.Prelude.{ℕ, ◌≡◌, ◌∙◌, List, map, some, All, All-map, All-of_append}
use rollytics.Prelude.GoMap.{get, get-AllValues}
use rollytics.Text.{Text}
use rollytics.Types.{ScrapedBlock}
use rollytics.Address.{bytes_to_hex_with_prefix}
use rollytics.Nft.Changes.{NftKey, NftKey-discrete, Changes, no_changes}
use rollytics.Nft.Ledger.{Ledger, replay, AllAllowed, Fresh}
use rollytics.Nft.Tables.{RowKey-discrete}
use rollytics.Nft.Services.{Services}
use rollytics.Nft.Pair.{Packets}
use rollytics.Nft.Settled.{Settles-apply_all, Settles-no_changes}
use rollytics.Nft.Wasm.{Minted, CollectionInfo, Db, acc_address, all_addresses, collect}
use rollytics.Nft.Wasm.Writes.{row_of, Knows, written-IsSettled}
use rollytics.Nft.Wasm.Answers.{IsCollectable}
use rollytics.Nft.Wasm.Stages.{Change, key_at, collect-Stages}

-- The accounts that the writes need are among those asked for.
knows_owner :
    (P : Text → Type 0) (infos : List (Text × CollectionInfo)) (c : Changes Minted) (key : NftKey)
    → All P (all_addresses infos c)
    → ((x : Minted) → get NftKey-discrete key c.mint_map ≡ some x → P x.owner)
      × ((a : Text) → get NftKey-discrete key c.transfer_map ≡ some a → P a)
unfolding all_addresses
knows_owner P infos c key all =
    let rest = (All-of_append P (map (λ i. i.1.creator) infos) _ all).1 in
    let (owners, recipients) = All-of_append P (map (λ m. m.1.owner) c.mint_map) _ rest in
    (
      λ x.
          get-AllValues NftKey-discrete (λ m. P m.owner) c.mint_map key x
            (All-map P _ c.mint_map owners),
      λ a.
          get-AllValues NftKey-discrete P c.transfer_map key a
            (All-map P _ c.transfer_map recipients),
    )

-- The operations of a block on the ledger, one after the other.
abbrev pub replay_block : ScrapedBlock → List Change → Ledger → Ledger
replay_block block ops =
    replay (λ (m : Minted). m.owner) (λ m. m.uri) block.height block.timestamp
      (map (λ op. op.1) ops)

abbrev pub AllowedBlock : ScrapedBlock → List Change → Ledger → Type 0
AllowedBlock block ops =
    AllAllowed (λ (m : Minted). m.owner) (λ m. m.uri) block.height block.timestamp
      (map (λ op. op.1) ops)

-- A block with readable events, answering dictionaries and operations that the ledger allows is
-- collected, and where the row of a token was that of the ledger and no token that the table has is
-- minted in the block, its row is afterwards that of the ledger after the operations of the block,
-- one by one in their order.
pub collect-refines :
    (s : Services) (p : Packets) (block : ScrapedBlock) (id_of : Text → ℕ)
    (infos : List (Text × CollectionInfo)) (ops : List Change) (db : Db) (before : Ledger)
    (addr : List ℕ) (token_id : Text)
    → IsCollectable s p block id_of infos ops
    → AllowedBlock block ops before
    → acc_address s (bytes_to_hex_with_prefix addr) ≡ some addr
    → All (λ op. Fresh (before (key_at addr token_id)) (key_at addr token_id) op.1) ops
    → get RowKey-discrete (addr, token_id) db.nfts
      ≡ Option.map (row_of id_of) (before (key_at addr token_id))
    → (db' : Db) × (collect s p block (some infos) db ≡ some db')
      × (get RowKey-discrete (addr, token_id) db'.nfts
          ≡ Option.map (row_of id_of) (replay_block block ops before (key_at addr token_id)))
collect-refines s p block id_of infos ops db before addr token_id h allowed reads fresh agrees =
    let key : NftKey = key_at addr token_id in
    let st = collect-Stages s p block id_of infos ops db addr token_id h reads in
    let (owners, recipients) = knows_owner (Knows id_of st.ids) infos _ key st.knows in
    let settled =
      Settles-apply_all (λ (m : Minted). m.owner) (λ m. m.uri) block.height block.timestamp ops
        (before key) before no_changes key fresh allowed
        (Settles-no_changes (λ (m : Minted). m.owner) (λ m. m.uri) block.height block.timestamp
          before key) in
    (
      st.after,
      st.collected,
      st.row
          ∙ rw agrees (
              written-IsSettled id_of s block.height block.timestamp st.ids (before key) _ _ _ _
                owners recipients settled),
    )
