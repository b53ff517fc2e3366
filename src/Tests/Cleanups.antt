-- ===== src/Tests/Cleanups.antt =====
-- indexer/extension/txaccountcleanup: a first run that fails at its second batch, and the next run.
use rollytics.Prelude.{
  ℕ, ◌≡◌, refl, true, false, ◌==◌, List, [], ◌∷◌, none, some, arith, if◌then◌else◌, contains,
  ℕ_discrete,
}
use rollytics.Prelude.Int.{pos, negsuc}
use rollytics.Prelude.GoMap.{get, put, IsMap}
use rollytics.Cleanup.{
  nonzero, expected_set, extra_ids, missing_ids, is_missing, stale_signer, flag_eq, delete_rows,
  insert_row, insert_rows, update_signer, reconcile_tx,
}
use rollytics.Cleanup.Reconciled.{AreKeyed}
use rollytics.Cleanup.Scan.{
  CollectedTxs, CleanupStatus, TxAccounts, TxAccountCleanup, Answers, Ended, between, set_rows,
  reconciled, reconcile_txs, unprocessed, process_batch, start_of, add_batch, scan, max_sequence,
  initialize, start_from, run,
}
use rollytics.Cleanup.Scan.Batches.{AreAnswers}
use rollytics.Cleanup.Scan.Resumed.{expected_row, IsClean, run-IsClean}
use rollytics.Cleanup.Scan.Completion.{AreComplete, run-completes}

-- A transaction in each of two batches; the account 7 is extra in the first, and the signer 5 of
-- the second has the wrong flag.
abbrev txs : CollectedTxs
txs = (3, 0) ∷ (1200, 5) ∷ []

abbrev ids : ℕ → List ℕ
ids s = 4 ∷ 5 ∷ []

abbrev rows : TxAccounts
rows s = if s == 3 then (7, true) ∷ [] else (5, false) ∷ []

abbrev first : TxAccountCleanup
first = record {
  status = record { last_cleaned_sequence = negsuc 0; deleted_records = 0; inserted_records = 0 };
  accounts = rows;
}

abbrev failing : Answers
failing = record {
  is_loaded = true;
  account_ids = λ s. if s == 3 then none else some (4 ∷ 5 ∷ []);
  is_cancelled = λ s. false;
  is_queried = λ s. true;
  is_updated = λ s. true;
}

abbrev answering : Answers
answering = record {
  is_loaded = true;
  account_ids = λ s. some (ids s);
  is_cancelled = λ s. false;
  is_queried = λ s. true;
  is_updated = λ s. true;
}

rows-AreKeyed : (s : ℕ) → AreKeyed (rows s)
unfolding get
rows-AreKeyed s = elim (s == 3) as (λ b. AreKeyed (if b then (7, true) ∷ [] else (5, false) ∷ [])) [
  | true ↦ (refl, tt)
  | false ↦ (refl, tt)
]

first-IsClean : IsClean ids txs 1200 first
first-IsClean = record { keyed = rows-AreKeyed; above = tt }

failing-AreAnswers : AreAnswers ids failing.account_ids
failing-AreAnswers s l e = ground (arith, e)

txs-IsMap : IsMap ℕ_discrete txs
unfolding get ℕ_discrete
txs-IsMap = (refl, (refl, tt))

abbrev failed : Ended
failed = run failing txs first

failed-IsClean : IsClean ids txs 1200 failed.1
failed-IsClean = run-IsClean ids txs 1200 failing failing-AreAnswers txs-IsMap first first-IsClean

run-IsClean_example : IsClean ids txs 1200 failed.1
run-IsClean_example =
    run-IsClean ids txs 1200 failing failing-AreAnswers txs-IsMap first first-IsClean

answering-AreComplete : AreComplete ids answering
answering-AreComplete = record {
  is_loaded = refl;
  account_ids = λ s. refl;
  is_cancelled = λ s. refl;
  is_queried = λ s. refl;
  is_updated = λ s. refl;
}

third : get ℕ_discrete 3 txs ≡ some 0
unfolding get ℕ_discrete
third = refl

run-completes_example :
    ((run answering txs failed.1).0 ≡ true)
    × ((run answering txs failed.1).1.status.last_cleaned_sequence ≡ pos 0)
    × (get ℕ_discrete 7 ((run answering txs failed.1).1.accounts 3) ≡ expected_row 0 (ids 3) 7)
run-completes_example =
    run-completes ids txs answering answering-AreComplete 1200 failed.1 txs-IsMap failed-IsClean 3 0
      7 (omega arith) (omega arith) third

initialize-none : initialize none ≡ first.status
unfolding initialize
initialize-none = refl

abbrev expected_status : CleanupStatus
expected_status = record {
  last_cleaned_sequence = pos 200;
  deleted_records = 0;
  inserted_records = 1;
}

-- The first run stores 200, with the row that the later batch lacked, and fails on the other batch.
stored : failed.1.status ≡ expected_status
unfolding run start_from scan max_sequence process_batch start_of add_batch unprocessed between
    reconcile_txs reconciled set_rows reconcile_tx nonzero expected_set extra_ids missing_ids
    is_missing stale_signer flag_eq delete_rows insert_row insert_rows update_signer contains get
    put ℕ_discrete
stored = refl
