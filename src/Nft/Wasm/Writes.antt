-- ===== src/Nft/Wasm/Writes.antt =====
-- The writes of the collector to `nft`, for one token.
use mathlib.Core.Option
use rollytics.Prelude.{ℕ, ◌≡◌, refl, ap, ◌∙◌, List, [], Option, none, some, if◌then◌else◌, arith}
use rollytics.Prelude.GoMap.{get}
use rollytics.Text.{Text, text_discrete}
use rollytics.Nft.Changes.{NftKey, NftKey-discrete, Changes}
use rollytics.Nft.Ledger.{Token}
use rollytics.Nft.Tables.{RowKey-discrete, CollectedNft, Nfts, id_or_zero, create, assign, upsert}
use rollytics.Nft.Services.{Services}
use rollytics.Nft.Settled.{base, moved, settle, IsSettled}
use rollytics.Nft.Rows.{Reads, or_else, assigned, get-create, rows_of}
use rollytics.Nft.Burnt.{is_burnt, get-delete_burned_nfts}
use rollytics.Nft.Gathered.{IsGood}
use rollytics.Nft.Wasm.{Minted, acc_address, minted_row, transferred_row, write_nfts}

module _ (id_of : Text → ℕ) where
  -- The row of a token, in a collector that gives the accounts their ids in the dictionary.
  abbrev pub row_of : Token → CollectedNft
  row_of t = record {
    addr = [];
    height = t.height;
    timestamp = t.timestamp;
    owner_id = id_of t.owner;
    uri = t.uri;
  }

  abbrev pub Knows : List (Text × ℕ) → Text → Type 0
  Knows ids a = get text_discrete a ids ≡ some (id_of a)

  module _ (s : Services) (height timestamp : ℕ) (ids : List (Text × ℕ)) where
    -- The row that the writes leave, from the row before them and what the maps hold.
    abbrev pub written :
        Option CollectedNft → Option Minted → Option Text → Option (Unit {0}) → Option CollectedNft
    written r m t b =
        if is_burnt b
        then none
        else assigned (transferred_row s height timestamp ids) t
            (or_else r (Option.map (minted_row s height timestamp ids) m))

    minted-row_of :
        (m : Minted)
        → Knows ids m.owner
        → minted_row s height timestamp ids m
          ≡ row_of (record { owner = m.owner; uri = m.uri; height = height; timestamp = timestamp })
    unfolding minted_row id_or_zero
    minted-row_of m k = rw k refl

    transferred-row_of :
        (a : Text) (t : Token)
        → Knows ids a
        → assign (transferred_row s height timestamp ids a) (some (row_of t))
          ≡ row_of (record t { owner = a; height = height; timestamp = timestamp })
    unfolding transferred_row id_or_zero assign
    transferred-row_of a t k = rw k refl

    abbrev pub Settled :
        Option Token → Option Token → Option Minted → Option Text → Option (Unit {0}) → Type 0
    Settled = IsSettled (λ m. m.owner) (λ m. m.uri) height timestamp

    -- The row that is written is that of the ledger's token.
    pub written-IsSettled :
        (r l : Option Token) (m : Option Minted) (t : Option Text) (b : Option (Unit {0}))
        → ((x : Minted) → m ≡ some x → Knows ids x.owner)
        → ((a : Text) → t ≡ some a → Knows ids a)
        → Settled r l m t b
        → written (Option.map row_of r) m t b ≡ Option.map row_of l
    unfolding settle base moved is_burnt
    written-IsSettled r l m t (some u) km kt h = rw h.value refl
    written-IsSettled (some r) l m none none km kt h = rw h.value refl
    written-IsSettled none l none none none km kt h = rw h.value refl
    written-IsSettled none l (some x) none none km kt h =
        rw h.value (ap some (minted-row_of x (km x refl)))
    written-IsSettled (some r) l m (some a) none km kt h =
        rw h.value (ap some (transferred-row_of a r (kt a refl)))
    written-IsSettled none l (some x) (some a) none km kt h =
        rw h.value (rw (minted-row_of x (km x refl)) (ap some (transferred-row_of a _ (kt a refl))))
    written-IsSettled none l none (some a) none km kt h = absurd (ground (arith, h.backed))

    module _ (key : NftKey) (addr : List ℕ)
        (reads : acc_address s key.collection_addr ≡ some addr) where
      abbrev pub ReadsKey : Text → Type 0
      ReadsKey = Reads (acc_address s) key addr reads

      -- The writes succeed, and leave of the token what the maps hold of it.
      pub get-write_nfts :
          (c : Changes Minted) (table : Nfts) {Q : Text → Type 0}
          → IsGood (λ k. ReadsKey k.collection_addr) Q c
          → (t : Nfts) × (write_nfts s height timestamp ids c table ≡ some t)
            × (get RowKey-discrete (addr, key.token_id) t
                ≡ written
                    (get RowKey-discrete (addr, key.token_id) table)
                    (get NftKey-discrete key c.mint_map)
                    (get NftKey-discrete key c.transfer_map)
                    (get NftKey-discrete key c.burn_map))
      unfolding write_nfts
      get-write_nfts c table good =
          let m =
            rows_of (acc_address s) key addr reads (minted_row s height timestamp ids) c.mint_map
              good.minted good.minted_keys in
          let t =
            rows_of (acc_address s) key addr reads (transferred_row s height timestamp ids)
              c.transfer_map good.transferred good.transferred_keys in
          let (t', done, row) =
            get-delete_burned_nfts (acc_address s) key addr reads c.burn_map
              (upsert t.rows (create RowKey-discrete m.rows table)) good.burnt_keys in
          (
            t',
            rw m.made (rw t.made done),
            row
                ∙ rw (t.upserted (create RowKey-discrete m.rows table)) (
                    rw (get-create RowKey-discrete m.rows table (addr, key.token_id))
                      (rw m.first refl)),
          )
