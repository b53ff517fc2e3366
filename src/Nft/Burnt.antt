-- ===== src/Nft/Burnt.antt =====
-- What the deletion of the burnt tokens leaves.
use mathlib.Core.Logic.{ite, if_pos, if_neg}
use rollytics.Prelude.{
  ℕ, ◌≡◌, refl, sym, ap, ◌∙◌, Bool, true, false, ◌||◌, List, [], ◌∷◌, ◌++◌, Option, none, some,
  arith, Bool-cases, inl, inr, if◌then◌else◌, All,
}
use rollytics.Prelude.GoMap.{get, put, AllKeys, put-AllKeys}
use rollytics.Text.{Text, text_discrete}
use rollytics.Nft.Changes.{NftKey, NftKey-discrete, Keys, or_empty}
use rollytics.Nft.Tables.{
  RowKey, RowKey-discrete, CollectedNft, Nfts, has_token, is_among, delete_tokens, burned_nft_map,
  delete_burned, delete_burned_nfts,
}
use rollytics.Nft.Rows.{Reads}

has_token-append :
    (t : Text) (xs ys : List Text) → has_token t (xs ++ ys) ≡ (has_token t xs || has_token t ys)
unfolding has_token
has_token-append t [] ys = refl
has_token-append t (x ∷ xs) ys = ground (arith, has_token-append t xs ys)

-- Whether the groups name a token.
listed : Text → Text → List (Text × List Text) → Bool
unfolding has_token
listed c t [] = false
listed c t ((c', ts) ∷ groups) =
    ite (text_discrete c' c) (has_token t ts || listed c t groups) (listed c t groups)

listed-put :
    (c t c' t' : Text) (groups : List (Text × List Text))
    → listed c t (put text_discrete c' (or_empty (get text_discrete c' groups) ++ t' ∷ []) groups)
      ≡ (ite (text_discrete c' c) (ite (text_discrete t' t) true false) false || listed c t groups)
unfolding listed or_empty put get has_token
listed-put c t c' t' [] = ground arith
listed-put c t c' t' ((d, ts) ∷ groups) =
    ground (arith, listed-put c t c' t' groups, has_token-append t ts (t' ∷ []))

-- Whether a set of keys has an entry.
unfoldable pub is_burnt : Option (Unit {0}) → Bool
is_burnt none = false
is_burnt (some u) = true

or_true : (b : Bool) → (b || true) ≡ true
or_true true = refl
or_true false = refl

or_false : (b : Bool) → (b || false) ≡ b
or_false true = refl
or_false false = refl

if_or :
    {A : Type 0} (x y : A) (b c : Bool)
    → (if b then x else (if c then x else y)) ≡ (if c || b then x else y)
if_or x y true true = refl
if_or x y true false = refl
if_or x y false true = refl
if_or x y false false = refl

module _ (key : NftKey) where
  same_key :
      (j : NftKey)
      → ite
          (text_discrete j.collection_addr key.collection_addr)
          (ite (text_discrete j.token_id key.token_id) true false)
          false
        ≡ ite (NftKey-discrete j key) true false
  same_key j = elim (NftKey-discrete j key) [
    | yes same ↦ rw (if_pos _ same) (
        rw (if_pos _ (ap (λ k. k.collection_addr) same))
          (rw (if_pos _ (ap (λ k. k.token_id) same)) refl))
    | no other ↦ rw (if_neg _ other) (elim (text_discrete j.collection_addr key.collection_addr) [
      | no differs ↦ rw (if_neg _ differs) refl
      | yes p ↦ rw (if_pos _ p) (elim (text_discrete j.token_id key.token_id) [
        | no differs ↦ rw (if_neg _ differs) refl
        | yes q ↦ absurd (other (λ i. record { collection_addr = p i; token_id = q i }))
      ])
    ])
  ]

  listed-burned_nft_map :
      (keys : Keys NftKey) (groups : List (Text × List Text))
      → listed key.collection_addr key.token_id (burned_nft_map keys groups) ≡ (
          is_burnt (get NftKey-discrete key keys) || listed key.collection_addr key.token_id groups)
  unfolding burned_nft_map get is_burnt
  listed-burned_nft_map [] groups = refl
  listed-burned_nft_map ((j, u) ∷ keys) groups =
      let c = key.collection_addr in
      let next =
        put text_discrete j.collection_addr
          (or_empty (get text_discrete j.collection_addr groups) ++ j.token_id ∷ []) groups in
      listed-burned_nft_map keys next
      ∙ rw (listed-put c key.token_id j.collection_addr j.token_id groups) (
          rw (same_key j) (elim (NftKey-discrete j key) [
            | yes same ↦
                rw (if_pos _ same)
                  (rw (if_pos _ same) (or_true (is_burnt (get NftKey-discrete key keys))))
            | no other ↦ rw (if_neg _ other) (rw (if_neg _ other) refl)
          ]))

if_same : {A : Type 0} {a : A} (b : Bool) → (if b then a else a) ≡ a
if_same true = refl
if_same false = refl

module _ (b : List ℕ) (ts : List Text) where
  delete_tokens_nil : delete_tokens b ts [] ≡ []
  unfolding delete_tokens
  delete_tokens_nil = refl

  delete_tokens_hit :
      (k : RowKey) (row : CollectedNft) (table : Nfts)
      → is_among b ts k ≡ true
      → delete_tokens b ts ((k, row) ∷ table) ≡ delete_tokens b ts table
  unfolding delete_tokens
  delete_tokens_hit k row table e = rw e refl

  delete_tokens_miss :
      (k : RowKey) (row : CollectedNft) (table : Nfts)
      → is_among b ts k ≡ false
      → delete_tokens b ts ((k, row) ∷ table) ≡ (k, row) ∷ delete_tokens b ts table
  unfolding delete_tokens
  delete_tokens_miss k row table e = rw e refl

  -- A row stays exactly if it is not among those deleted.
  pub get-delete_tokens :
      (table : Nfts) (k : RowKey)
      → get RowKey-discrete k (delete_tokens b ts table)
        ≡ (if is_among b ts k then none else get RowKey-discrete k table)
  unfolding get
  get-delete_tokens [] k = rw delete_tokens_nil (sym (if_same (is_among b ts k)))
  get-delete_tokens ((j, row) ∷ table) k = elim (RowKey-discrete j k) [
    | yes same ↦ rw (if_pos _ same) (elim (Bool-cases (is_among b ts j)) [
      | inl hit ↦
          rw (delete_tokens_hit j row table hit)
            (get-delete_tokens table k ∙ rw (ap (is_among b ts) (sym same) ∙ hit) refl)
      | inr miss ↦
          rw (delete_tokens_miss j row table miss)
            (rw (ap (is_among b ts) (sym same) ∙ miss) (rw (if_pos _ same) refl))
    ])
    | no other ↦ rw (if_neg _ other) (elim (Bool-cases (is_among b ts j)) [
      | inl hit ↦ rw (delete_tokens_hit j row table hit) (get-delete_tokens table k)
      | inr miss ↦
          rw (delete_tokens_miss j row table miss) (rw (if_neg _ other) (get-delete_tokens table k))
    ])
  ]

module _ (to_bytes : Text → Option (List ℕ)) (key : NftKey) (addr : List ℕ)
    (reads : to_bytes key.collection_addr ≡ some addr) where
  -- The row of the token is deleted from a group exactly if the group names it.
  is_among-Reads :
      (c : Text) (ts : List Text) (r : Reads to_bytes key addr reads c)
      → is_among r.0 ts (addr, key.token_id)
        ≡ ite (text_discrete c key.collection_addr) (has_token key.token_id ts) false
  unfolding is_among
  is_among-Reads c ts (b, e, back) = elim (text_discrete c key.collection_addr) [
    | yes same ↦
        let q : to_bytes c ≡ to_bytes key.collection_addr = ap to_bytes same in
        let p : addr ≡ b = cc in rw (if_pos _ same) (rw (if_pos _ p) refl)
    | no other ↦
        rw (if_neg _ other) (rw (if_neg (text_discrete addr b) (λ p. other (back (sym p)))) refl)
  ]

  get-delete_burned :
      (groups : List (Text × List Text)) (table : Nfts)
      → All (λ g. Reads to_bytes key addr reads g.0) groups
      → (t : Nfts) × (delete_burned to_bytes groups table ≡ some t)
        × (get RowKey-discrete (addr, key.token_id) t ≡ (
            if listed key.collection_addr key.token_id groups
            then none
            else get RowKey-discrete (addr, key.token_id) table))
  unfolding delete_burned listed
  get-delete_burned [] table all = (table, refl, refl)
  get-delete_burned ((c, ts) ∷ groups) table all =
      let (t, done, row) = get-delete_burned groups (delete_tokens all.0.0 ts table) all.1 in
      (
        t,
        rw all.0.1 done,
        row
            ∙ rw (get-delete_tokens all.0.0 ts table (addr, key.token_id)) (
                rw (is_among-Reads c ts all.0) (elim (text_discrete c key.collection_addr) [
                  | yes same ↦ rw (if_pos _ same) (
                      rw (if_pos _ same) (
                        if_or _ _ (listed key.collection_addr key.token_id groups)
                          (has_token key.token_id ts)))
                  | no other ↦ rw (if_neg _ other) (rw (if_neg _ other) refl)
                ])),
      )

  burned_nft_map-Reads :
      (keys : Keys NftKey) (groups : List (Text × List Text))
      → AllKeys NftKey-discrete (λ j. Reads to_bytes key addr reads j.collection_addr) keys
      → All (λ g. Reads to_bytes key addr reads g.0) groups
      → All (λ g. Reads to_bytes key addr reads g.0) (burned_nft_map keys groups)
  unfolding burned_nft_map
  burned_nft_map-Reads [] groups all h = h
  burned_nft_map-Reads ((j, u) ∷ keys) groups all h =
      burned_nft_map-Reads keys _ all.1 (
        put-AllKeys text_discrete (Reads to_bytes key addr reads) j.collection_addr _ groups all.0
          h)

  -- The deletion succeeds, and it takes the row of the token exactly if the token is burnt.
  pub get-delete_burned_nfts :
      (keys : Keys NftKey) (table : Nfts)
      → AllKeys NftKey-discrete (λ j. Reads to_bytes key addr reads j.collection_addr) keys
      → (t : Nfts) × (delete_burned_nfts to_bytes keys table ≡ some t)
        × (get RowKey-discrete (addr, key.token_id) t ≡ (
            if is_burnt (get NftKey-discrete key keys)
            then none
            else get RowKey-discrete (addr, key.token_id) table))
  unfolding delete_burned_nfts listed
  get-delete_burned_nfts keys table all =
      let (t, done, row) =
        get-delete_burned (burned_nft_map keys []) table (burned_nft_map-Reads keys [] all tt) in
      (
        t,
        done,
        row
            ∙ rw
                (listed-burned_nft_map key keys []
                  ∙ or_false (is_burnt (get NftKey-discrete key keys)))
                refl,
      )
