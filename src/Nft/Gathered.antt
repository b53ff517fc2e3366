-- ===== src/Nft/Gathered.antt =====
-- The maps after the loop over the events: their keys differ from each other, and come from the
-- operations of the events.
use rollytics.Prelude.{
  ◌≡◌, refl, ◌∙◌, List, [], ◌∷◌, some, arith, All, All-imp, Option-cases, inl, inr,
}
use rollytics.Prelude.GoMap.{IsMap, AllKeys, put-IsMap, delete-IsMap, put-AllKeys, delete-AllKeys}
use rollytics.Text.{Text, text_discrete}
use rollytics.Nft.Changes.{
  NftKey, NftKey-discrete, Op, mint, transfer, burn, Changes, Reading, skipped, failed, found,
  apply, gather, no_changes,
}
use rollytics.Nft.Ledger.{key_of, operations, apply_all}

module _ {M : Type 0} where
  operations-eq :
      (tx_hash : Text) (op : Op M) (readings : List (Text × Reading M)) (ops : List (Text × Op M))
      → operations ((tx_hash, found op) ∷ readings) ≡ some ops
      → (rest : List (Text × Op M)) × (operations readings ≡ some rest)
        × (ops ≡ (tx_hash, op) ∷ rest)
  unfolding operations
  operations-eq tx_hash op readings ops h = elim (Option-cases (operations readings)) [
    | inl e ↦ absurd (ground (arith, e, h))
    | inr (rest, e) ↦ (rest, e, ground (arith, e, h))
  ]

  -- Where every event reads, the loop applies the operations one after the other.
  pub gather-apply_all :
      (readings : List (Text × Reading M)) (ops : List (Text × Op M)) (c : Changes M)
      → operations readings ≡ some ops
      → gather readings c ≡ some (apply_all ops c)
  unfolding gather operations apply_all
  gather-apply_all [] ops c h = ground (arith, h)
  gather-apply_all ((tx_hash, skipped) ∷ readings) ops c h = gather-apply_all readings ops c h
  gather-apply_all ((tx_hash, failed) ∷ readings) ops c h = absurd (ground (arith, h))
  gather-apply_all ((tx_hash, found op) ∷ readings) ops c h =
      let (rest, e, f) = operations-eq tx_hash op readings ops h in
      gather-apply_all readings rest (apply tx_hash op c) e ∙ rw f refl

  pub record IsGood (P : NftKey → Type 0) (Q : Text → Type 0) (c : Changes M) : Type 0 where
    pub minted : IsMap NftKey-discrete c.mint_map
    pub transferred : IsMap NftKey-discrete c.transfer_map
    pub minted_keys : AllKeys NftKey-discrete P c.mint_map
    pub transferred_keys : AllKeys NftKey-discrete P c.transfer_map
    pub burnt_keys : AllKeys NftKey-discrete P c.burn_map
    pub counted_keys : AllKeys text_discrete Q c.update_count_map

  pub IsGood-imp :
      {P P' : NftKey → Type 0} {Q : Text → Type 0} (c : Changes M)
      → ((key : NftKey) → P key → P' key)
      → IsGood P Q c
      → IsGood P' Q c
  IsGood-imp c f h = record {
    minted = h.minted;
    transferred = h.transferred;
    minted_keys = All-imp c.mint_map (λ e. f e.0) h.minted_keys;
    transferred_keys = All-imp c.transfer_map (λ e. f e.0) h.transferred_keys;
    burnt_keys = All-imp c.burn_map (λ e. f e.0) h.burnt_keys;
    counted_keys = h.counted_keys;
  }

  module _ (P : NftKey → Type 0) (Q : Text → Type 0)
      (collection : (key : NftKey) → P key → Q key.collection_addr) where
    pub no_changes-IsGood : IsGood P Q no_changes
    no_changes-IsGood = record {
      minted = tt;
      transferred = tt;
      minted_keys = tt;
      transferred_keys = tt;
      burnt_keys = tt;
      counted_keys = tt;
    }

    apply-IsGood :
        (tx_hash : Text) (op : Op M) (c : Changes M)
        → P (key_of op)
        → IsGood P Q c
        → IsGood P Q (apply tx_hash op c)
    unfolding apply
    apply-IsGood tx_hash (mint key m) c k h = record {
      minted = put-IsMap NftKey-discrete key m c.mint_map h.minted;
      transferred = h.transferred;
      minted_keys = put-AllKeys NftKey-discrete P key m c.mint_map k h.minted_keys;
      transferred_keys = h.transferred_keys;
      burnt_keys = delete-AllKeys NftKey-discrete P key c.burn_map h.burnt_keys;
      counted_keys =
          put-AllKeys text_discrete Q key.collection_addr tt c.update_count_map (collection key k)
            h.counted_keys;
    }
    apply-IsGood tx_hash (transfer key recipient) c k h = record {
      minted = h.minted;
      transferred = put-IsMap NftKey-discrete key recipient c.transfer_map h.transferred;
      minted_keys = h.minted_keys;
      transferred_keys =
          put-AllKeys NftKey-discrete P key recipient c.transfer_map k h.transferred_keys;
      burnt_keys = h.burnt_keys;
      counted_keys = h.counted_keys;
    }
    apply-IsGood tx_hash (burn key) c k h = record {
      minted = delete-IsMap NftKey-discrete key c.mint_map h.minted;
      transferred = delete-IsMap NftKey-discrete key c.transfer_map h.transferred;
      minted_keys = delete-AllKeys NftKey-discrete P key c.mint_map h.minted_keys;
      transferred_keys = delete-AllKeys NftKey-discrete P key c.transfer_map h.transferred_keys;
      burnt_keys = put-AllKeys NftKey-discrete P key tt c.burn_map k h.burnt_keys;
      counted_keys =
          put-AllKeys text_discrete Q key.collection_addr tt c.update_count_map (collection key k)
            h.counted_keys;
    }

    pub apply_all-IsGood :
        (ops : List (Text × Op M)) (c : Changes M)
        → All (λ op. P (key_of op.1)) ops
        → IsGood P Q c
        → IsGood P Q (apply_all ops c)
    unfolding apply_all
    apply_all-IsGood [] c all h = h
    apply_all-IsGood ((tx_hash, op) ∷ ops) c all h =
        apply_all-IsGood ops (apply tx_hash op c) all.1 (apply-IsGood tx_hash op c all.0 h)
