-- ===== src/Nft/Rows.antt =====
-- What the statements on `nft` do to the row of one token.
use mathlib.Core.Logic.{if_pos, if_neg}
use mathlib.Core.Option
use rollytics.Prelude.{
  ℕ, ◌≡◌, ◌≢◌, refl, sym, ap, subst, ◌∙◌, List, [], ◌∷◌, Option, none, some, Option-cases, inl, inr,
}
use rollytics.Prelude.GoMap.{get, put, get-put, get-put_self, get-put_ne, IsMap, AllKeys}
use rollytics.Text.{Text}
use rollytics.Nft.Changes.{NftKey, NftKey-discrete}
use rollytics.Nft.Tables.{
  RowKey, RowKey-discrete, CollectedNft, Nfts, create, assign, upsert, table_rows,
}

abbrev pub or_else {ℓ} : {A : Type ℓ} → Option A → Option A → Option A
or_else none b = b
or_else (some a) b = some a

or_else-none {ℓ} : {A : Type ℓ} (a : Option A) → or_else a none ≡ a
or_else-none none = refl
or_else-none (some a) = refl

module _ {K R : Type 0} (dec : Discrete K) where
  create_nil : (table : List (K × R)) → create dec [] table ≡ table
  unfolding create
  create_nil table = refl

  create_none :
      (rows table : List (K × R)) (j : K) (row : R)
      → get dec j table ≡ none
      → create dec ((j, row) ∷ rows) table ≡ create dec rows (put dec j row table)
  unfolding create
  create_none rows table j row e = rw (e, create) refl

  create_some :
      (rows table : List (K × R)) (j : K) (row old : R)
      → get dec j table ≡ some old
      → create dec ((j, row) ∷ rows) table ≡ create dec rows table
  unfolding create
  create_some rows table j row old e = rw (e, create) refl

  -- A row that there is stays; else it is the first of the new ones.
  pub get-create :
      (rows table : List (K × R)) (k : K)
      → get dec k (create dec rows table) ≡ or_else (get dec k table) (get dec k rows)
  unfolding get
  get-create [] table k = rw (create_nil table) (sym (or_else-none (get dec k table)))
  get-create ((j, row) ∷ rows) table k = elim (Option-cases (get dec j table)) [
    | inl e ↦ rw (create_none rows table j row e) (
        rw (get-create rows (put dec j row table) k) (
          rw get-put (elim (dec j k) [
            | yes same ↦
                rw (if_pos _ same)
                  (rw (if_pos _ same) (rw (ap (λ q. get dec q table) (sym same) ∙ e) refl))
            | no other ↦ rw (if_neg _ other) (rw (if_neg _ other) refl)
          ])))
    | inr (old, e) ↦ rw (create_some rows table j row old e) (
        rw (get-create rows table k) (elim (dec j k) [
          | yes same ↦ rw (if_pos _ same) (rw (ap (λ q. get dec q table) (sym same) ∙ e) refl)
          | no other ↦ rw (if_neg _ other) refl
        ]))
  ]

-- The row after an upsert.
abbrev pub assigned :
    {V : Type 0} → (V → CollectedNft) → Option V → Option CollectedNft → Option CollectedNft
assigned row none r = r
assigned row (some v) r = some (assign (row v) r)

get-put-assign :
    (row : CollectedNft) (j k : RowKey)
    → j ≡ k
    → (table : Nfts)
    → get RowKey-discrete k (put RowKey-discrete j (assign row (get RowKey-discrete j table)) table)
      ≡ some (assign row (get RowKey-discrete k table))
get-put-assign row j k same table =
    subst
      (λ q.
        get RowKey-discrete q
          (put RowKey-discrete j (assign row (get RowKey-discrete j table)) table)
        ≡ some (assign row (get RowKey-discrete q table)))
      same (get-put_self RowKey-discrete j (assign row (get RowKey-discrete j table)) table)

module _ (to_bytes : Text → Option (List ℕ)) (key : NftKey) (addr : List ℕ)
    (reads : to_bytes key.collection_addr ≡ some addr) where
  abbrev row_key : RowKey
  row_key = (addr, key.token_id)

  -- A collection whose address reads, and reads otherwise if it is another one.
  abbrev pub Reads : Text → Type 0
  Reads c = (b : List ℕ) × (to_bytes c ≡ some b) × ((b ≡ addr) → c ≡ key.collection_addr)

  other_row :
      (j : NftKey) (r : Reads j.collection_addr)
      → j ≢ key
      → ◌≢◌ {A = RowKey} (r.0, j.token_id) row_key
  other_row j (b, e, back) ne same =
      let q = back (ap (λ (p : RowKey). p.0) same) in
      ne (λ i. record { collection_addr = q i; token_id = (same i).1 })

  same_row :
      (j : NftKey) (r : Reads j.collection_addr)
      → j ≡ key
      → ◌≡◌ {A = RowKey} (r.0, j.token_id) row_key
  same_row j (b, e, back) same =
      let q : to_bytes j.collection_addr ≡ to_bytes key.collection_addr =
        ap (λ (k : NftKey). to_bytes k.collection_addr) same in
      let p : b ≡ addr = cc in λ i. (p i, (same i).token_id)

  module _ {V : Type 0} (row : V → CollectedNft) where
    pub record RowsOf (m : List (NftKey × V)) : Type 0 where
      pub rows : Nfts
      pub made : table_rows to_bytes row m ≡ some rows
      pub first : get RowKey-discrete row_key rows ≡ Option.map row (get NftKey-discrete key m)
      pub upserted :
          (table : Nfts)
          → get RowKey-discrete row_key (upsert rows table)
            ≡ assigned row (get NftKey-discrete key m) (get RowKey-discrete row_key table)

    RowsOf-cons :
        (j : NftKey) (v : V) (m : List (NftKey × V))
        → get NftKey-discrete j m ≡ none
        → Reads j.collection_addr
        → RowsOf m
        → RowsOf ((j, v) ∷ m)
    unfolding get upsert table_rows
    RowsOf-cons j v m absent r ih = record {
      rows = ((r.0, j.token_id), row v) ∷ ih.rows;
      made = rw r.1 (rw ih.made refl);
      first = elim (NftKey-discrete j key) [
        | yes same ↦ rw (if_pos _ same) (rw (if_pos _ (same_row j r same)) refl)
        | no other ↦ rw (if_neg _ other) (rw (if_neg _ (other_row j r other)) ih.first)
      ];
      upserted = λ table. ih.upserted _ ∙ elim (NftKey-discrete j key) [
        | yes same ↦ rw (if_pos _ same) (
            rw (ap (λ q. get NftKey-discrete q m) (sym same) ∙ absent)
              (get-put-assign (row v) _ _ (same_row j r same) table))
        | no other ↦
            rw (if_neg _ other) (rw (get-put_ne RowKey-discrete _ _ _ _ (other_row j r other)) refl)
      ];
    }

    -- The rows are made, and they write what the map holds of the token.
    pub rows_of :
        (m : List (NftKey × V))
        → IsMap NftKey-discrete m
        → AllKeys NftKey-discrete (λ j. Reads j.collection_addr) m
        → RowsOf m
    unfolding get upsert table_rows
    rows_of [] is_map all = record {
      rows = [];
      made = refl;
      first = refl;
      upserted = λ table. refl;
    }
    rows_of ((j, v) ∷ m) is_map all = RowsOf-cons j v m is_map.0 all.0 (rows_of m is_map.1 all.1)
