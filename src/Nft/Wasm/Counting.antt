-- ===== src/Nft/Wasm/Counting.antt =====
-- indexer/collector/wasm-nft/collect.go: the counts of the collections.
use mathlib.Core.Logic.{if_pos, if_neg}
use mathlib.Core.Option
use rollytics.Prelude.{
  ℕ, ◌≡◌, refl, sym, ap, ◌∙◌, Bool, true, false, not, ◌&&◌, ◌||◌, List, [], ◌∷◌, Option, none, some,
  Holds, All, ◌==◌, if◌then◌else◌, arith,
}
use rollytics.Prelude.GoMap.{get, AllKeys, get-AllValues}
use rollytics.Text.{Text, text_discrete}
use rollytics.Types.{ScrapedBlock}
use rollytics.Address.{hex_to_bytes, bytes_to_hex_with_prefix}
use rollytics.Address.Hex.{IsByte}
use rollytics.Address.Laws.{hex_to_bytes-bytes_to_hex}
use rollytics.Nft.Changes.{Keys, no_changes}
use rollytics.Nft.Ledger.{apply_all}
use rollytics.Nft.Tables.{
  CollectedNftCollection, Nfts, Collections, id_or_zero, has_token, count_nfts, update_addrs,
  nft_counts, update_counts, refresh_counts, create,
}
use rollytics.Nft.Services.{Services}
use rollytics.Nft.Pair.{Packets, update_origins, collect_pairs}
use rollytics.Nft.Rows.{or_else, get-create}
use rollytics.Nft.Burnt.{is_burnt}
use rollytics.Nft.Counts.{
  count_of, recounted, any_supply, counted-apply_all, count-update_counts, count-update_origins,
}
use rollytics.Nft.Wasm.{CollectionInfo, Db, acc_address, collect}
use rollytics.Nft.Wasm.Answers.{IsCollectable, HasPairs}
use rollytics.Nft.Wasm.Stages.{Change, IsHex, IsHex-bytes, changes-IsGood, collect-Stages}

same_bytes : {a b : List ℕ} → some a ≡ some b → a ≡ b
same_bytes e = cc

-- The addresses of `updateCountMap`.
update_addrs-has_token :
    (addr : List ℕ) (m : Keys Text)
    → All IsByte addr
    → AllKeys text_discrete IsHex m
    → (addrs : List (List ℕ)) × (update_addrs hex_to_bytes m ≡ some addrs)
      × (has_token addr addrs ≡ is_burnt (get text_discrete (bytes_to_hex_with_prefix addr) m))
unfolding update_addrs has_token get is_burnt
update_addrs-has_token addr [] bytes all = ([], refl, refl)
update_addrs-has_token addr ((c, u) ∷ m) bytes ((bs, e, h), all) =
    let (addrs, made, has) = update_addrs-has_token addr m bytes all in
    (
      bs ∷ addrs,
      rw (IsHex-bytes c (bs, e, h)) (rw made refl),
      elim (text_discrete bs addr) [
        | yes same ↦ rw (if_pos _ same) (
            rw
              (if_pos (text_discrete c (bytes_to_hex_with_prefix addr))
                (e ∙ ap bytes_to_hex_with_prefix same))
              refl)
        | no other ↦ rw (if_neg _ other) (
            rw
              (if_neg (text_discrete c (bytes_to_hex_with_prefix addr)) (λ q. other (
                same_bytes (
                  sym (IsHex-bytes c (bs, e, h))
                  ∙ ap hex_to_bytes q
                  ∙ (hex_to_bytes-bytes_to_hex addr bytes).1))))
              has)
      ],
    )

-- `refresh_counts`, where the addresses are hexadecimal.
refresh_counts-count :
    (addr : List ℕ) (m : Keys Text) (table : Nfts) (rows collections : Collections)
    → All IsByte addr
    → AllKeys text_discrete IsHex m
    → refresh_counts hex_to_bytes m table rows ≡ some collections
    → count_of (get text_discrete addr collections)
      ≡ Option.map
          (recounted addr
            (is_burnt (get text_discrete (bytes_to_hex_with_prefix addr) m))
            (count_nfts addr table))
          (count_of (get text_discrete addr rows))
unfolding refresh_counts
refresh_counts-count addr m table rows collections bytes all done =
    let (addrs, made, has) = update_addrs-has_token addr m bytes all in
    let e : some (update_counts (nft_counts addrs table) rows) ≡ some collections =
      sym (rw made refl) ∙ done in
    let same : update_counts (nft_counts addrs table) rows ≡ collections = cc in
    ap (λ r. count_of (get text_discrete addr r)) (sym same)
    ∙ count-update_counts addr addrs table rows
    ∙ rw has refl

collect_pairs-count :
    (s : Services) (p : Packets) (block : ScrapedBlock) (addr : List ℕ) (rows rows' : Collections)
    → HasPairs s p block
    → collect_pairs s p block rows ≡ some rows'
    → count_of (get text_discrete addr rows') ≡ count_of (get text_discrete addr rows)
unfolding collect_pairs
collect_pairs-count s p block addr rows rows' (events, read, (pairs, paired)) done =
    let e : some (update_origins pairs rows) ≡ some rows' = sym (rw read (rw paired refl)) ∙ done in
    let same : update_origins pairs rows ≡ rows' = cc in
    ap (λ r. count_of (get text_discrete addr r)) (sym same) ∙ count-update_origins addr pairs rows

no_keys : (b : Bool) (c : Text) → (b || is_burnt (get {V = Unit {0}} text_discrete c [])) ≡ b
unfolding is_burnt get
no_keys true c = refl
no_keys false c = refl

-- A count that is found after an insert was there before, or is that of a new row.
Holds-count :
    (f : ℕ → ℕ) (o old new : Option CollectedNftCollection)
    → count_of o ≡ Option.map f (count_of (or_else old new))
    → ((row : CollectedNftCollection) → new ≡ some row → row.nft_count ≡ 0)
    → Holds (λ row. row.nft_count ≡ f (id_or_zero (count_of old))) o
unfolding Holds id_or_zero
Holds-count f none old new e z = tt
Holds-count f (some row) (some r) new e z = ground (arith, e)
Holds-count f (some row) none (some r) e z = ground (arith, e, z r refl)
Holds-count f (some row) none none e z = absurd (ground (arith, e))

-- After the block, the count of a collection is the number of its tokens, if one of them was minted
-- or burnt in the block and one is left; else it is what it was before, 0 for a new collection.
pub collect-counts :
    (s : Services) (p : Packets) (block : ScrapedBlock) (id_of : Text → ℕ)
    (infos : List (Text × CollectionInfo)) (ops : List Change) (db : Db) (addr : List ℕ)
    → IsCollectable s p block id_of infos ops
    → acc_address s (bytes_to_hex_with_prefix addr) ≡ some addr
    → All IsByte addr
    → (db' : Db) × (collect s p block (some infos) db ≡ some db')
      × Holds
          (λ row. row.nft_count ≡ (
            if any_supply (bytes_to_hex_with_prefix addr) ops && not (count_nfts addr db'.nfts == 0)
            then count_nfts addr db'.nfts
            else id_or_zero (count_of (get text_discrete addr db.collections))))
          (get text_discrete addr db'.collections)
collect-counts s p block id_of infos ops db addr h reads bytes =
    let st = collect-Stages s p block id_of infos ops db addr [] h reads in
    let c = apply_all ops no_changes in
    let table = st.after.nfts in
    let rows = create text_discrete st.cols db.collections in
    let good = changes-IsGood s ops h.readable in
    let recount =
      refresh_counts-count addr c.update_count_map table rows st.collections bytes good.counted_keys
        st.counted in
    let listed =
      counted-apply_all (bytes_to_hex_with_prefix addr) ops no_changes
      ∙ no_keys (any_supply (bytes_to_hex_with_prefix addr) ops) (bytes_to_hex_with_prefix addr) in
    (
      st.after,
      st.collected,
      Holds-count
          (recounted addr (any_supply (bytes_to_hex_with_prefix addr) ops) (count_nfts addr table))
          _ _ (get text_discrete addr st.cols)
          (collect_pairs-count s p block addr st.collections st.after.collections h.pairs st.paired
            ∙ recount
            ∙ rw listed (rw (get-create text_discrete st.cols db.collections addr) refl))
          (λ row.
            get-AllValues text_discrete (λ r. r.nft_count ≡ 0) st.cols addr row st.zero_counts),
    )
