-- ===== src/Cleanup/Scan/Completion.antt =====
-- indexer/extension/txaccountcleanup/extension.go: `Run` comes to its end, with all rows right.
use rollytics.Prelude.{
  ℕ, zero, suc, ◌-◌, ◌<◌, ◌≤◌, ◌≡◌, refl, ◌∙◌, ap, subst, inl, inr, true, false, List, some, arith,
  leb, ℕ_discrete, Bool-cases,
}
use rollytics.Prelude.Int.{ℤ, pos, negsuc}
use rollytics.Prelude.GoMap.{get, IsMap}
use rollytics.Cleanup.Scan.{
  CollectedTxs, TxAccountCleanup, Answers, Ended, process_batch, start_of, add_batch, scan,
  max_sequence, start_from, run,
}
use rollytics.Cleanup.Scan.Batches.{AreAnswers, process_batch-is_done}
use rollytics.Cleanup.Scan.Resumed.{expected_row, IsCleanAbove, IsClean, run-IsClean}

-- No error, and no end of the context.
pub record AreComplete (ids : ℕ → List ℕ) (answers : Answers) : Type 0 where
  pub is_loaded : answers.is_loaded ≡ true
  pub account_ids : (s : ℕ) → answers.account_ids s ≡ some (ids s)
  pub is_cancelled : (s : ℕ) → answers.is_cancelled s ≡ false
  pub is_queried : (s : ℕ) → answers.is_queried s ≡ true
  pub is_updated : (s : ℤ) → answers.is_updated s ≡ true

record IsComplete (r : Ended) : Type 0 where
  is_nil : r.0 ≡ true
  last : r.1.status.last_cleaned_sequence ≡ pos 0

next_less :
    (current_seq fuel : ℕ)
    → current_seq < suc fuel
    → leb current_seq 0 ≡ false
    → start_of current_seq - 1 < fuel
unfolding start_of
next_less current_seq fuel less more = ground (arith, less, more)

module _ (ids : ℕ → List ℕ) (txs : CollectedTxs) (answers : Answers)
    (all : AreComplete ids answers) where
  scan-IsComplete :
      (fuel current_seq : ℕ) (e : TxAccountCleanup)
      → current_seq < fuel
      → e.status.last_cleaned_sequence ≡ pos current_seq
      → IsComplete (scan fuel answers txs current_seq e)
  unfolding scan add_batch
  scan-IsComplete zero current_seq e less at = absurd (omega (arith, less))
  scan-IsComplete (suc fuel) current_seq e less at = elim (Bool-cases (leb current_seq 0)) [
    | inl low ↦
        rw (all.is_cancelled current_seq, low, scan)
          (record { is_nil = refl; last = at ∙ ap pos (ground (arith, low)) })
    | inr more ↦
        let start_seq = start_of current_seq in
        let b = process_batch answers txs start_seq current_seq e.accounts in
        let done =
          process_batch-is_done ids e.accounts answers txs start_seq current_seq all.account_ids
            (all.is_queried current_seq) in
        let status = add_batch start_seq b e.status in
        rw (all.is_cancelled current_seq, more, done, all.is_updated (pos (start_seq - 1)), scan)
          (scan-IsComplete fuel (start_seq - 1) (record { status = status; accounts = b.accounts })
            (next_less current_seq fuel less more) refl)
  ]

  start_from-IsComplete :
      (last : ℤ) (e : TxAccountCleanup)
      → e.status.last_cleaned_sequence ≡ last
      → IsComplete (start_from answers txs last e)
  unfolding start_from
  start_from-IsComplete (pos current_seq) e at =
      scan-IsComplete (suc current_seq) current_seq e (omega arith) at
  start_from-IsComplete (negsuc n) e at =
      let max_seq = max_sequence txs in
      rw (all.is_updated (pos max_seq), start_from)
        (scan-IsComplete (suc max_seq) max_seq
          (record e { status = record (e.status) { last_cleaned_sequence = pos max_seq } })
          (omega arith) refl)

  run-IsComplete : (e : TxAccountCleanup) → IsComplete (run answers txs e)
  unfolding run
  run-IsComplete e =
      rw (all.is_loaded, run) (start_from-IsComplete e.status.last_cleaned_sequence e refl)

  -- Without an error and without an end of the context `Run` ends, returns nil and stores 0 as the
  -- last cleaned sequence. From a state that earlier runs left right above their stored sequence, up
  -- to some top, a stored transaction with a sequence from 1 to the top then has a row for an account
  -- exactly if the account is not 0 and named or the signer, with the right flag. The account ids are a key of
  -- the rows of each transaction, and the sequences of the transactions.
  pub run-completes :
      (top : ℕ) (e : TxAccountCleanup)
      → IsMap ℕ_discrete txs
      → IsClean ids txs top e
      → (s signer id : ℕ) → 0 < s
      → s ≤ top
      → get ℕ_discrete s txs ≡ some signer
      → ((run answers txs e).0 ≡ true)
        × ((run answers txs e).1.status.last_cleaned_sequence ≡ pos 0)
        × (get ℕ_discrete id ((run answers txs e).1.accounts s) ≡ expected_row signer (ids s) id)
  run-completes top e h clean s signer id past low f =
      let done = run-IsComplete e in
      let good : AreAnswers ids answers.account_ids =
        λ s l g. ground (arith, all.account_ids s, g) in
      let after = run-IsClean ids txs top answers good h e clean in
      let above =
        subst (λ l. IsCleanAbove ids txs top l (run answers txs e).1.accounts) done.last
          after.above in
      (done.is_nil, done.last, above s signer id past low f)
