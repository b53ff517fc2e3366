-- ===== src/Cleanup/Scan.antt =====
-- indexer/extension/txaccountcleanup: `ProcessBatch` of cleanup.go and `Run` of extension.go, which
-- corrects the accounts of the stored transactions from the greatest sequence down.
-- The sequence is taken as the key of a transaction, with the id of its signer. What the database
-- and the context answer is a record; an answer that is missing stands for an error of any statement
-- for the transaction, of the search for its accounts, or for a context that ended before it.
pub mod Batches
pub mod Resumed
pub mod Completion
use rollytics.Prelude.{
  ℕ, zero, suc, ◌+◌, ◌-◌, max, Bool, true, false, ◌&&◌, List, [], ◌∷◌, Option, none, some, leb,
  if◌then◌else◌, length, ℕ_discrete,
}
use rollytics.Prelude.Int.{ℤ, pos, negsuc}
use rollytics.Cleanup.{
  Rows, expected_set, extra_ids, missing_ids, delete_rows, insert_rows, reconcile_tx,
}

abbrev pub CollectedTxs : Type 0
CollectedTxs = List (ℕ × ℕ)

-- The rows of `tx_accounts` with a sequence.
abbrev pub TxAccounts : Type 0
TxAccounts = ℕ → Rows

pub record CleanupStatus : Type 0 where
  pub last_cleaned_sequence : ℤ
  pub deleted_records : ℕ
  pub inserted_records : ℕ

pub record TxAccountCleanup : Type 0 where
  pub status : CleanupStatus
  pub accounts : TxAccounts

pub record Answers : Type 0 where
  pub is_loaded : Bool
  pub account_ids : ℕ → Option (List ℕ)
  pub is_cancelled : ℕ → Bool
  pub is_queried : ℕ → Bool
  pub is_updated : ℤ → Bool

-- Whether `Run` ends without an error, and what is stored then.
abbrev pub Ended : Type 0
Ended = Bool × TxAccountCleanup

-- The results of `ProcessBatch`, and the table it leaves.
pub record Batch : Type 0 where
  pub is_done : Bool
  pub last_processed_seq : ℕ
  pub total_deleted : ℕ
  pub total_inserted : ℕ
  pub accounts : TxAccounts

unfoldable pub between : ℕ → ℕ → CollectedTxs → CollectedTxs
between start_seq end_seq [] = []
between start_seq end_seq ((sequence, signer) ∷ txs) =
    if leb start_seq sequence && leb sequence end_seq
    then (sequence, signer) ∷ between start_seq end_seq txs
    else between start_seq end_seq txs

unfoldable pub set_rows : ℕ → Rows → TxAccounts → TxAccounts
set_rows sequence rows accounts s = elim (ℕ_discrete sequence s) [
  | yes same ↦ rows
  | no other ↦ accounts s
]

-- The rows that the DELETE removes and those that the INSERT adds are counted.
unfoldable pub reconciled : ℕ → ℕ → List ℕ → Rows → Batch → Batch
reconciled sequence signer ids actual b =
    let expected = expected_set signer ids in
    let kept = delete_rows (extra_ids expected actual) actual in
    let inserted = insert_rows signer (missing_ids expected actual) kept in
    record b {
      last_processed_seq = sequence;
      total_deleted = b.total_deleted + (length actual - length kept);
      total_inserted = b.total_inserted + (length inserted - length kept);
      accounts = set_rows sequence (reconcile_tx signer ids actual) b.accounts;
    }

-- The loop; the rows were read before it.
unfoldable pub reconcile_txs : (ℕ → Option (List ℕ)) → TxAccounts → CollectedTxs → Batch → Batch
unfolding reconciled
reconcile_txs account_ids actual [] b = record b { is_done = true }
reconcile_txs account_ids actual ((sequence, signer) ∷ txs) b = elim (account_ids sequence) [
  | none ↦ b
  | some ids ↦
      reconcile_txs account_ids actual txs (reconciled sequence signer ids (actual sequence) b)
]

unfoldable pub unprocessed : ℕ → TxAccounts → Batch
unprocessed start_seq accounts = record {
  is_done = false;
  last_processed_seq = start_seq - 1;
  total_deleted = 0;
  total_inserted = 0;
  accounts = accounts;
}

unfoldable pub process_batch : Answers → CollectedTxs → ℕ → ℕ → TxAccounts → Batch
unfolding unprocessed between reconcile_txs
process_batch answers txs start_seq end_seq accounts = elim (answers.is_queried end_seq) [
  | false ↦ unprocessed start_seq accounts
  | true ↦
      let b =
        reconcile_txs answers.account_ids accounts (between start_seq end_seq txs)
          (unprocessed start_seq accounts) in
      elim b.is_done [ false ↦ b | true ↦ record b { last_processed_seq = end_seq } ]
]

abbrev pub batch_size : ℕ
batch_size = 1000

-- `max(currentSeq-BatchSize+1, 1)`
unfoldable pub start_of : ℕ → ℕ
start_of current_seq = max (current_seq + 1 - batch_size) 1

unfoldable pub add_batch : ℕ → Batch → CleanupStatus → CleanupStatus
add_batch start_seq b status = record {
  last_cleaned_sequence = pos (start_seq - 1);
  deleted_records = status.deleted_records + b.total_deleted;
  inserted_records = status.inserted_records + b.total_inserted;
}

-- The loop of `Run`, on fuel.
unfoldable pub scan : ℕ → Answers → CollectedTxs → ℕ → TxAccountCleanup → Ended
unfolding process_batch start_of add_batch
scan zero answers txs current_seq e = (false, e)
scan (suc fuel) answers txs current_seq e = elim (answers.is_cancelled current_seq) [
  | true ↦ (false, e)
  | false ↦ elim (leb current_seq 0) [
    | true ↦ (true, e)
    | false ↦
        let start_seq = start_of current_seq in
        let b = process_batch answers txs start_seq current_seq e.accounts in
        let status = add_batch start_seq b e.status in
        elim (b.is_done && answers.is_updated status.last_cleaned_sequence) [
          | false ↦ (false, record e { accounts = b.accounts })
          | true ↦
              scan fuel answers txs (start_seq - 1)
                (record { status = status; accounts = b.accounts })
        ]
  ]
]

-- `COALESCE(MAX(sequence), 0)`
unfoldable pub max_sequence : CollectedTxs → ℕ
max_sequence [] = 0
max_sequence ((sequence, signer) ∷ txs) = max sequence (max_sequence txs)

-- The row that `Initialize` creates when there is none.
unfoldable pub initialize : Option CleanupStatus → CleanupStatus
initialize none = record {
  last_cleaned_sequence = negsuc 0;
  deleted_records = 0;
  inserted_records = 0;
}
initialize (some status) = status

unfoldable pub start_from : Answers → CollectedTxs → ℤ → TxAccountCleanup → Ended
unfolding scan max_sequence
start_from answers txs (pos current_seq) e = scan (suc current_seq) answers txs current_seq e
start_from answers txs (negsuc n) e =
    let max_seq = max_sequence txs in
    elim (answers.is_updated (pos max_seq)) [
      | false ↦ (false, e)
      | true ↦
          scan (suc max_seq) answers txs max_seq
            (record e { status = record (e.status) { last_cleaned_sequence = pos max_seq } })
    ]

-- `Run`, from the status that `Initialize` returns, unless a statement of it fails. A table without
-- a status stands for one with `initialize none`.
unfoldable pub run : Answers → CollectedTxs → TxAccountCleanup → Ended
unfolding start_from
run answers txs e = elim answers.is_loaded [
  | false ↦ (false, e)
  | true ↦ start_from answers txs e.status.last_cleaned_sequence e
]
