-- ===== src/Nft/Counts.antt =====
-- What the statements on `nft_collection` do to the count of one collection.
use mathlib.Core.Logic.{ite, if_pos, if_neg}
use mathlib.Core.Option
use rollytics.Prelude.{
  ℕ, ◌≡◌, refl, sym, ap, subst, ◌∙◌, Bool, true, false, not, ◌&&◌, ◌||◌, List, [], ◌∷◌, Option,
  none, some, arith, Bool-cases, inl, inr, if◌then◌else◌, ◌==◌,
}
use rollytics.Prelude.GoMap.{get, get-put}
use rollytics.Text.{Text, text_discrete}
use rollytics.Nft.Changes.{Op, mint, transfer, burn, Changes, apply}
use rollytics.Nft.Ledger.{apply_all}
use rollytics.Nft.Tables.{
  CollectedNftCollection, Nfts, Collections, has_token, count_nfts, nft_counts, update_count,
  update_counts,
}
use rollytics.Nft.Burnt.{is_burnt}
use rollytics.Nft.Pair.{update_origin, update_origins}

abbrev pub count_of : Option CollectedNftCollection → Option ℕ
count_of = Option.map (λ row. row.nft_count)

module _ (a : List ℕ) where
  abbrev pub row_at : Collections → Option CollectedNftCollection
  row_at = get text_discrete a

  -- The new count: the number of rows, unless it is 0.
  abbrev pub recounted : Bool → ℕ → ℕ → ℕ
  recounted listed n old = if listed && not (n == 0) then n else old

  count-update_count :
      (b : List ℕ) (n : ℕ) (rows : Collections)
      → count_of (row_at (update_count b n rows))
        ≡ Option.map (λ old. ite (text_discrete a b) n old) (count_of (row_at rows))
  unfolding update_count get
  count-update_count b n [] = refl
  count-update_count b n ((d, row) ∷ rows) = ground (arith, count-update_count b n rows)

  recounted_none : (n : ℕ) (o : Option ℕ) → o ≡ Option.map (recounted false n) o
  recounted_none n none = refl
  recounted_none n (some old) = refl

  -- A collection without tokens is not among the groups of the query.
  recounted_zero :
      (b : List ℕ) (h : Bool) (table : Nfts) (o : Option ℕ)
      → (count_nfts b table == 0) ≡ true
      → Option.map (recounted h (count_nfts a table)) o
        ≡ Option.map (recounted (ite (text_discrete b a) true h) (count_nfts a table)) o
  recounted_zero b h table none e = refl
  recounted_zero b h table (some old) e = elim (text_discrete b a) [
    | yes same ↦ rw (if_pos _ same) (
        let z : (count_nfts a table == 0) ≡ true =
          subst (λ d. (count_nfts d table == 0) ≡ true) same e in
        ground arith)
    | no other ↦ rw (if_neg _ other) refl
  ]

  recounted_suc :
      (b : List ℕ) (h : Bool) (table : Nfts) (o : Option ℕ)
      → (count_nfts b table == 0) ≡ false
      → Option.map
          (recounted h (count_nfts a table))
          (Option.map (λ old. ite (text_discrete a b) (count_nfts b table) old) o)
        ≡ Option.map (recounted (ite (text_discrete b a) true h) (count_nfts a table)) o
  recounted_suc b h table none e = refl
  recounted_suc b h table (some old) e = elim (text_discrete b a) [
    | yes same ↦ rw (if_pos _ same) (
        rw (if_pos (text_discrete a b) (sym same)) (
          let z : (count_nfts a table == 0) ≡ false =
            subst (λ d. (count_nfts d table == 0) ≡ false) same e in
          let q : count_nfts b table ≡ count_nfts a table = ap (λ d. count_nfts d table) same in
          ground arith))
    | no other ↦ rw (if_neg _ other) (rw (if_neg (text_discrete a b) (λ e. other (sym e))) refl)
  ]

  nft_counts_zero :
      (b : List ℕ) (addrs : List (List ℕ)) (table : Nfts)
      → (count_nfts b table == 0) ≡ true
      → nft_counts (b ∷ addrs) table ≡ nft_counts addrs table
  unfolding nft_counts
  nft_counts_zero b addrs table e = rw e refl

  nft_counts_suc :
      (b : List ℕ) (addrs : List (List ℕ)) (table : Nfts)
      → (count_nfts b table == 0) ≡ false
      → nft_counts (b ∷ addrs) table ≡ (b, count_nfts b table) ∷ nft_counts addrs table
  unfolding nft_counts
  nft_counts_suc b addrs table e = rw e refl

  nft_counts_nil : (table : Nfts) → nft_counts [] table ≡ []
  unfolding nft_counts
  nft_counts_nil table = refl

  -- Through all the counts that the query gives.
  pub count-update_counts :
      (addrs : List (List ℕ)) (table : Nfts) (rows : Collections)
      → count_of (row_at (update_counts (nft_counts addrs table) rows))
        ≡ Option.map (recounted (has_token a addrs) (count_nfts a table)) (count_of (row_at rows))
  unfolding update_counts has_token
  count-update_counts [] table rows =
      rw (nft_counts_nil table) (recounted_none (count_nfts a table) _)
  count-update_counts (b ∷ addrs) table rows = elim (Bool-cases (count_nfts b table == 0)) [
    | inl e ↦
        rw (nft_counts_zero b addrs table e)
          (count-update_counts addrs table rows ∙ recounted_zero b (has_token a addrs) table _ e)
    | inr e ↦ rw (nft_counts_suc b addrs table e) (
        count-update_counts addrs table (update_count b (count_nfts b table) rows)
        ∙ rw (count-update_count b (count_nfts b table) rows)
            (recounted_suc b (has_token a addrs) table _ e))
  ]

  -- The names of collections do not touch the counts.
  count-update_origin :
      (l2 l1 : Text) (rows : Collections)
      → count_of (row_at (update_origin l2 l1 rows)) ≡ count_of (row_at rows)
  unfolding update_origin get
  count-update_origin l2 l1 [] = refl
  count-update_origin l2 l1 ((d, row) ∷ rows) = ground (arith, count-update_origin l2 l1 rows)

  pub count-update_origins :
      (pairs : List (Text × Text)) (rows : Collections)
      → count_of (row_at (update_origins pairs rows)) ≡ count_of (row_at rows)
  unfolding update_origins
  count-update_origins [] rows = refl
  count-update_origins ((l2, l1) ∷ pairs) rows =
      count-update_origins pairs (update_origin l2 l1 rows) ∙ count-update_origin l2 l1 rows

-- Whether an operation is a mint or a burn in a collection.
abbrev pub changes_supply : {M : Type 0} → Text → Op M → Bool
changes_supply c (mint key m) = ite (text_discrete key.collection_addr c) true false
changes_supply c (transfer key recipient) = false
changes_supply c (burn key) = ite (text_discrete key.collection_addr c) true false

abbrev pub any_supply : {M : Type 0} → Text → List (Text × Op M) → Bool
any_supply c [] = false
any_supply c (op ∷ ops) = changes_supply c op.1 || any_supply c ops

or_swap : (x y z : Bool) → (x || (y || z)) ≡ ((y || x) || z)
or_swap x y z = ground arith

module _ {M : Type 0} (c : Text) where
  counted-apply :
      (tx_hash : Text) (op : Op M) (ch : Changes M)
      → is_burnt (get text_discrete c (apply tx_hash op ch).update_count_map)
        ≡ (changes_supply c op || is_burnt (get text_discrete c ch.update_count_map))
  unfolding apply is_burnt
  counted-apply tx_hash (mint key m) ch =
      ground (arith, get-put text_discrete key.collection_addr c tt ch.update_count_map)
  counted-apply tx_hash (transfer key recipient) ch = refl
  counted-apply tx_hash (burn key) ch =
      ground (arith, get-put text_discrete key.collection_addr c tt ch.update_count_map)

  pub counted-apply_all :
      (ops : List (Text × Op M)) (ch : Changes M)
      → is_burnt (get text_discrete c (apply_all ops ch).update_count_map)
        ≡ (any_supply c ops || is_burnt (get text_discrete c ch.update_count_map))
  unfolding apply_all
  counted-apply_all [] ch = refl
  counted-apply_all ((tx_hash, op) ∷ ops) ch =
      counted-apply_all ops (apply tx_hash op ch)
      ∙ rw (counted-apply tx_hash op ch) (or_swap (any_supply c ops) (changes_supply c op) _)
