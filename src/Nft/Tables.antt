-- ===== src/Nft/Tables.antt =====
-- indexer/collector/wasm-nft/collect.go and evm-nft/collect.go: the statements on the tables `nft`
-- and `nft_collection`. A table is a list of rows behind their primary keys; an error of a statement
-- undoes the transaction of the block, and no statement fails here.
use mathlib.Core.Logic.{ite}
use rollytics.Prelude.{
  ℕ, ◌+◌, Bool, true, false, List, [], ◌∷◌, ◌++◌, Option, none, some, ◌>>=◌, if◌then◌else◌, ◌==◌,
}
use rollytics.Prelude.GoMap.{get, put}
use rollytics.Text.{Text, text_discrete}
use rollytics.Nft.Changes.{NftKey, Keys, or_empty}

-- The primary key of `CollectedNft`: the bytes of the collection's address, and the token.
abbrev pub RowKey : Type 0
RowKey = List ℕ × Text

abbrev pub RowKey-discrete : Discrete RowKey
RowKey-discrete = hlevel text_discrete

pub record CollectedNft : Type 0 where
  pub addr : List ℕ
  pub height : ℕ
  pub timestamp : ℕ
  pub owner_id : ℕ
  pub uri : Text

pub record CollectedNftCollection : Type 0 where
  pub height : ℕ
  pub timestamp : ℕ
  pub name : Text
  pub origin_name : Text
  pub creator_id : ℕ
  pub nft_count : ℕ

abbrev pub Nfts : Type 0
Nfts = List (RowKey × CollectedNft)

abbrev pub Collections : Type 0
Collections = List (List ℕ × CollectedNftCollection)

-- `accountIdMap[account]`, 0 for a missing key
unfoldable pub id_or_zero : Option ℕ → ℕ
id_or_zero none = 0
id_or_zero (some id) = id

-- `Clauses(DoNothingWhenConflict).CreateInBatches`
unfoldable pub create : {K R : Type 0} → Discrete K → List (K × R) → List (K × R) → List (K × R)
unfolding get put
create dec [] table = table
create dec ((k, row) ∷ rows) table = elim (get dec k table) [
  | none ↦ create dec rows (put dec k row table)
  | some old ↦ create dec rows table
]

-- `Clauses(OnConflict{...}).CreateInBatches`, which assigns height, timestamp and owner_id to a row
-- that there is
unfoldable pub assign : CollectedNft → Option CollectedNft → CollectedNft
assign row none = row
assign row (some old) = record old {
  height = row.height;
  timestamp = row.timestamp;
  owner_id = row.owner_id;
}

unfoldable pub upsert : Nfts → Nfts → Nfts
unfolding get put assign
upsert [] table = table
upsert ((k, row) ∷ rows) table =
    upsert rows (put RowKey-discrete k (assign row (get RowKey-discrete k table)) table)

-- The loops that make the rows of the minted and of the transferred tokens; `to_bytes` reads the
-- address of a collection.
unfoldable pub table_rows :
    {V : Type 0} → (Text → Option (List ℕ)) → (V → CollectedNft) → List (NftKey × V) → Option Nfts
table_rows to_bytes row [] = some []
table_rows to_bytes row ((key, v) ∷ m) = do
  addr ← to_bytes key.collection_addr
  rows ← table_rows to_bytes row m
  some (((addr, key.token_id), row v) ∷ rows)

unfoldable pub has_token : Text → List Text → Bool
has_token token_id [] = false
has_token token_id (t ∷ ts) = ite (text_discrete t token_id) true (has_token token_id ts)

unfoldable pub is_among : List ℕ → List Text → RowKey → Bool
unfolding has_token
is_among collection_addr token_ids (addr, token_id) =
    ite (text_discrete addr collection_addr) (has_token token_id token_ids) false

-- `Where("collection_addr = ? AND token_id IN ?", ...).Delete`
unfoldable pub delete_tokens : List ℕ → List Text → Nfts → Nfts
unfolding is_among
delete_tokens collection_addr token_ids [] = []
delete_tokens collection_addr token_ids ((k, row) ∷ table) =
    if is_among collection_addr token_ids k
    then delete_tokens collection_addr token_ids table
    else (k, row) ∷ delete_tokens collection_addr token_ids table

-- The loop that groups the burnt tokens by collection.
unfoldable pub burned_nft_map : Keys NftKey → List (Text × List Text) → List (Text × List Text)
unfolding get put or_empty
burned_nft_map [] m = m
burned_nft_map ((key, u) ∷ keys) m = burned_nft_map keys (
    put text_discrete key.collection_addr
      (or_empty (get text_discrete key.collection_addr m) ++ key.token_id ∷ []) m)

-- The loop that deletes them.
unfoldable pub delete_burned :
    (Text → Option (List ℕ)) → List (Text × List Text) → Nfts → Option Nfts
unfolding delete_tokens
delete_burned to_bytes [] table = some table
delete_burned to_bytes ((collection_addr, token_ids) ∷ groups) table = do
  addr ← to_bytes collection_addr
  delete_burned to_bytes groups (delete_tokens addr token_ids table)

-- `COUNT(*) ... WHERE collection_addr = addr`
unfoldable pub count_nfts : List ℕ → Nfts → ℕ
count_nfts addr [] = 0
count_nfts addr ((k, row) ∷ table) =
    ite (text_discrete k.0 addr) (count_nfts addr table + 1) (count_nfts addr table)

-- The loop over `updateCountMap`.
unfoldable pub update_addrs : (Text → Option (List ℕ)) → Keys Text → Option (List (List ℕ))
update_addrs to_bytes [] = some []
update_addrs to_bytes ((collection_addr, u) ∷ m) = do
  addr ← to_bytes collection_addr
  addrs ← update_addrs to_bytes m
  some (addr ∷ addrs)

-- `SELECT collection_addr, COUNT(*) ... WHERE collection_addr IN ? GROUP BY collection_addr`: a
-- collection without tokens has no group.
unfoldable pub nft_counts : List (List ℕ) → Nfts → List (List ℕ × ℕ)
unfolding count_nfts
nft_counts [] table = []
nft_counts (addr ∷ addrs) table =
    if count_nfts addr table == 0
    then nft_counts addrs table
    else (addr, count_nfts addr table) ∷ nft_counts addrs table

-- `UPDATE nft_collection SET nft_count = count WHERE addr = addr`
unfoldable pub update_count : List ℕ → ℕ → Collections → Collections
update_count addr count [] = []
update_count addr count ((a, row) ∷ rows) =
    (a, ite (text_discrete a addr) (record row { nft_count = count }) row)
    ∷ update_count addr count rows

unfoldable pub update_counts : List (List ℕ × ℕ) → Collections → Collections
unfolding update_count
update_counts [] rows = rows
update_counts ((addr, count) ∷ counts) rows = update_counts counts (update_count addr count rows)

-- From the burnt tokens to the counts of `updateCountMap`.
unfoldable pub delete_burned_nfts : (Text → Option (List ℕ)) → Keys NftKey → Nfts → Option Nfts
unfolding burned_nft_map delete_burned
delete_burned_nfts to_bytes burn_map table =
    delete_burned to_bytes (burned_nft_map burn_map []) table

unfoldable pub refresh_counts :
    (Text → Option (List ℕ)) → Keys Text → Nfts → Collections → Option Collections
unfolding update_addrs nft_counts update_counts
refresh_counts to_bytes update_count_map table rows = do
  addrs ← update_addrs to_bytes update_count_map
  some (update_counts (nft_counts addrs table) rows)
