-- ===== src/InternalTx.antt =====
-- indexer/extension/internaltx: the internal transactions of the EVM call traces of a block.
-- Parameters are the cosmos-sdk's bech32 text of an address and its inverse, and the account
-- dictionary of util/cache: a state `S` and `get_or_create_account_ids`, which may fail.
pub mod Traversal
pub mod Totality
pub mod Rows
pub mod Edges
pub mod Queue
use rollytics.Prelude.{
  ℕ, zero, suc, ◌+◌, Bool, true, false, ◌&&◌, ◌==◌, List, [], ◌∷◌, ◌++◌, Option, none, some, leb,
  ltb, if◌then◌else◌, contains, length, take, drop, ◌>>=◌,
}
use rollytics.Prelude.Int.{ℤ, pos, negsuc}
use rollytics.Text.{Text, codes, has_prefix, trim_prefix, to_lower}
use rollytics.Address.{acc_address_from_string, hex_to_bytes}

pub record EvmInternalTx : Type 0 where
  pub call_type : Text
  pub from : Text
  pub to : Text
  pub gas : Text
  pub gas_used : Text
  pub value : Text
  pub input : Text
  pub output : Text

-- A call with the calls that it makes.
mutual
  pub data InternalTransaction : Type 0 where
    call : EvmInternalTx → InternalTransactions → InternalTransaction

  pub data InternalTransactions : Type 0 where
    nil : InternalTransactions
    cons : InternalTransaction → InternalTransactions → InternalTransactions

pub record TransactionTrace : Type 0 where
  pub tx_hash : Text
  pub error : Text
  pub result : EvmInternalTx
  pub calls : InternalTransactions

pub record InternalTxInfo : Type 0 where
  pub height : ℕ
  pub hash_id : ℕ
  pub index : ℕ
  pub parent_index : ℤ

pub record CollectedEvmInternalTx : Type 0 where
  pub height : ℕ
  pub hash_id : ℕ
  pub index : ℕ
  pub parent_index : ℤ
  pub sequence : ℕ
  pub call_type : Text
  pub from_id : ℕ
  pub to_id : ℕ
  pub input : List ℕ
  pub output : List ℕ
  pub value : List ℕ
  pub gas : List ℕ
  pub gas_used : List ℕ

-- The counter `seqInfo.Sequence`, the slice `edges` of pairs of an account and a sequence, and the
-- dictionary.
pub record State (S : Type 0) : Type 0 where
  pub sequence : ℕ
  pub edges : List (ℕ × ℕ)
  pub store : S

abbrev pub address_prefix : Text
address_prefix = codes "0x000000000000000000000000"

-- The keys of a Go map: a key that is there is not added again. Go iterates in any order; here it
-- is the order of insertion.
unfoldable pub text_eq : Text → Text → Bool
text_eq [] [] = true
text_eq (c ∷ s) (d ∷ t) = c == d && text_eq s t
text_eq _ _ = false

unfoldable pub add_key : Text → List Text → List Text
unfolding text_eq
add_key k [] = k ∷ []
add_key k (j ∷ keys) = if text_eq j k then j ∷ keys else j ∷ add_key k keys

-- The loop over the arguments, of 32 characters each; the fuel is the length of the input.
unfoldable pub add_arguments : ℕ → Text → List Text → List Text
unfolding add_key has_prefix
add_arguments zero input keys = keys
add_arguments (suc n) input keys =
    let keys' =
      (if has_prefix (take 32 input) address_prefix then add_key (take 32 input) keys else keys) in
    let rest = add_arguments n (drop 32 input) keys' in if leb 32 (length input) then rest else keys

-- The keys of the sender and of the receiver.
unfoldable pub party_keys : EvmInternalTx → List Text
unfolding add_key
party_keys tx =
    let from_keys = (if length tx.from == 0 then [] else tx.from ∷ []) in
    if length tx.to == 0 then from_keys else add_key tx.to from_keys

unfoldable pub address_keys : EvmInternalTx → List Text
unfolding party_keys add_arguments
address_keys tx =
    if ltb 10 (length tx.input)
    then add_arguments (length tx.input) (drop 10 tx.input) (party_keys tx)
    else party_keys tx

-- The accounts' ids that are known, in order.
unfoldable pub known_ids : (Text → Option ℕ) → List Text → List ℕ
known_ids ids [] = []
known_ids ids (a ∷ rest) = elim (ids a) [
  | some id ↦ id ∷ known_ids ids rest
  | none ↦ known_ids ids rest
]

-- The loop that appends the edges, one for each id that has not been seen.
unfoldable pub new_edges : ℕ → List ℕ → List ℕ → List (ℕ × ℕ)
unfolding contains
new_edges sequence seen [] = []
new_edges sequence seen (id ∷ ids) =
    let skip = new_edges sequence seen ids in
    let add = new_edges sequence (id ∷ seen) ids in
    if contains id seen then skip else (id, sequence) ∷ add

-- A missing key of a Go map reads as 0.
abbrev pub id_or_zero : Option ℕ → ℕ
id_or_zero none = 0
id_or_zero (some id) = id

module _ {S : Type 0} (bech32 : Text → Option (List ℕ)) (to_string : List ℕ → Text)
    (get_or_create_account_ids : S → List Text → Option ((Text → Option ℕ) × S)) where
  unfoldable pub address_texts : List Text → Option (List Text)
  address_texts [] = some []
  address_texts (key ∷ keys) = do
    addr ← acc_address_from_string bech32 key
    grepped ← address_texts keys
    some (to_string addr ∷ grepped)

  unfoldable pub grep_addresses_from_evm_internal_tx : EvmInternalTx → Option (List Text)
  unfolding address_texts address_keys
  grep_addresses_from_evm_internal_tx tx = address_texts (address_keys tx)

  -- `fromId` and `toId`: 0 for an empty address
  unfoldable pub account_id : (Text → Option ℕ) → Text → Option ℕ
  account_id ids [] = some 0
  account_id ids (c ∷ s) = do
    addr ← acc_address_from_string bech32 (c ∷ s)
    some (id_or_zero (ids (to_string addr)))

  -- `processInternalCall` up to the loop over the nested calls.
  unfoldable pub collect_call :
      InternalTxInfo → EvmInternalTx → State S → Option (CollectedEvmInternalTx × State S)
  unfolding grep_addresses_from_evm_internal_tx account_id known_ids new_edges
  collect_call tx c s = do
    accounts ← grep_addresses_from_evm_internal_tx c
    (ids, store) ← get_or_create_account_ids s.store accounts
    from_id ← account_id ids c.from
    to_id ← account_id ids c.to
    input ← hex_to_bytes c.input
    output ← hex_to_bytes c.output
    value ← hex_to_bytes c.value
    gas ← hex_to_bytes c.gas
    gas_used ← hex_to_bytes c.gas_used
    some (
      record {
        height = tx.height;
        hash_id = tx.hash_id;
        index = tx.index;
        parent_index = tx.parent_index;
        sequence = s.sequence + 1;
        call_type = c.call_type;
        from_id = from_id;
        to_id = to_id;
        input = input;
        output = output;
        value = value;
        gas = gas;
        gas_used = gas_used;
      },
      record {
        sequence = s.sequence + 1;
        edges = s.edges ++ new_edges (s.sequence + 1) [] (known_ids ids accounts);
        store = store;
      },
    )

  unfoldable mutual
    pub process_internal_call :
        InternalTxInfo
        → InternalTransaction
        → State S
        → Option (List CollectedEvmInternalTx × State S)
    process_internal_call tx (call c calls) s = do
      (internal_tx, t) ← collect_call tx c s
      (nested_results, u) ← process_nested tx (tx.index + 1) calls t
      some (internal_tx ∷ nested_results, u)

    -- The loop over the nested calls.
    pub process_nested :
        InternalTxInfo
        → ℕ
        → InternalTransactions
        → State S
        → Option (List CollectedEvmInternalTx × State S)
    process_nested tx next_index nil s = some ([], s)
    process_nested tx next_index (cons c calls) s = do
      (results, t) ←
          process_internal_call (record tx { index = next_index; parent_index = pos tx.index }) c s
      (rest, u) ← process_nested tx (next_index + length results) calls t
      some (results ++ rest, u)

  -- The loop over the traces in `CollectInternalTxs`, from the sequence that the database holds.
  -- `hash_ids` is the map that the hash dictionary has returned for the hashes of all traces, where
  -- these are hexadecimal; before that, an error leaves the block without rows.
  unfoldable pub collect_internal_txs :
      ℕ
      → (Text → Option ℕ)
      → List TransactionTrace
      → State S
      → Option (List CollectedEvmInternalTx × State S)
  unfolding process_internal_call
  collect_internal_txs height hash_ids [] s = some ([], s)
  collect_internal_txs height hash_ids (trace ∷ traces) s =
      let skip = collect_internal_txs height hash_ids traces s in
      if ltb 0 (length trace.error) then skip else do
        hash_id ← hash_ids (to_lower (trim_prefix trace.tx_hash (codes "0x")))
        (results, t) ←
            process_internal_call
              (record { height = height; hash_id = hash_id; index = 0; parent_index = negsuc 0 })
              (call (record trace.result { output = [] }) trace.calls) s
        (rest, u) ← collect_internal_txs height hash_ids traces t
        some (results ++ rest, u)
