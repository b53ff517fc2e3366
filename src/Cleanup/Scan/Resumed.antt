-- ===== src/Cleanup/Scan/Resumed.antt =====
-- indexer/extension/txaccountcleanup/extension.go: `Run` after earlier runs that failed.
use mathlib.Core.Logic.{if_neg}
use rollytics.Prelude.{
  ℕ, zero, suc, ◌-◌, ◌<◌, ◌≤◌, ◌≡◌, refl, sym, ◌∙◌, ap, subst, inl, inr, Bool, true, false, not,
  ◌&&◌, ◌||◌, ◌==◌, List, [], ◌∷◌, Option, none, some, arith, leb, if◌then◌else◌, contains,
  ℕ_discrete, Bool-cases, dec_lt,
}
use rollytics.Prelude.Int.{ℤ, pos, negsuc}
use rollytics.Prelude.GoMap.{get, IsMap}
use rollytics.Cleanup.{reconcile_tx}
use rollytics.Cleanup.Reconciled.{AreKeyed, row-reconcile_tx}
use rollytics.Cleanup.Keyed.{reconcile_tx-AreKeyed}
use rollytics.Cleanup.Scan.{
  CollectedTxs, TxAccounts, TxAccountCleanup, Answers, Batch, Ended, between, unprocessed,
  process_batch, start_of, add_batch, scan, max_sequence, start_from, run,
}
use rollytics.Cleanup.Scan.Batches.{get-between, AreAnswers, Outcome, process_batch-Outcome}

-- The row that an account should have: one if it is named or the signer.
unfoldable pub expected_row : ℕ → List ℕ → ℕ → Option Bool
expected_row signer ids id =
    if not (id == 0) && (contains id ids || id == signer) then some (id == signer) else none

abbrev pub AllKeyed : TxAccounts → Type 0
AllKeyed accounts = (s : ℕ) → AreKeyed (accounts s)

max_sequence-above :
    (s signer : ℕ) (txs : CollectedTxs)
    → get ℕ_discrete s txs ≡ some signer
    → max_sequence txs < s
    → ⊥
unfolding max_sequence get
max_sequence-above s signer [] f past = ground (arith, f)
max_sequence-above s signer ((j, sg) ∷ txs) f past = elim (ℕ_discrete j s) [
  | yes e ↦ omega (arith, e, past)
  | no other ↦
      max_sequence-above s signer txs
        (sym (if_neg (ℕ_discrete j s) other (some sg) (get ℕ_discrete s txs)) ∙ f)
        (omega (arith, past))
]

module _ (ids : ℕ → List ℕ) (txs : CollectedTxs) (top : ℕ) where
  -- The transactions with a sequence above the last cleaned one have the right rows.
  abbrev pub IsCleanAbove : ℤ → TxAccounts → Type 0
  IsCleanAbove (negsuc n) accounts = Unit
  IsCleanAbove (pos last) accounts =
      (s signer id : ℕ)
      → last < s
      → s ≤ top
      → get ℕ_discrete s txs ≡ some signer
      → get ℕ_discrete id (accounts s) ≡ expected_row signer (ids s) id

  pub record IsClean (e : TxAccountCleanup) : Type 0 where
    pub keyed : AllKeyed e.accounts
    pub above : IsCleanAbove e.status.last_cleaned_sequence e.accounts

  module _ (start_seq current_seq : ℕ) (actual : TxAccounts) (c : Batch) (keyed : AllKeyed actual)
      (o : Outcome ids actual
        (between start_seq current_seq txs)
        (unprocessed start_seq actual)
        c) where
    AllKeyed-batch : AllKeyed c.accounts
    unfolding unprocessed
    AllKeyed-batch s = elim (o.each s) [
      | inl e ↦ subst AreKeyed (sym e) (keyed s)
      | inr (sg, f, e) ↦
          subst AreKeyed (sym e) (reconcile_tx-AreKeyed sg (ids s) (actual s) (keyed s))
    ]

    row-corrected :
        (s signer id : ℕ)
        → c.accounts s ≡ reconcile_tx signer (ids s) (actual s)
        → get ℕ_discrete id (c.accounts s) ≡ expected_row signer (ids s) id
    unfolding expected_row
    row-corrected s signer id e =
        ap (get ℕ_discrete id) e ∙ row-reconcile_tx id signer (ids s) (actual s) (keyed s)

    -- A batch leaves right rows right.
    batch-keeps : IsCleanAbove (pos current_seq) actual → IsCleanAbove (pos current_seq) c.accounts
    unfolding unprocessed
    batch-keeps clean s signer id past low f = elim (o.each s) [
      | inl e ↦ ap (get ℕ_discrete id) e ∙ clean s signer id past low f
      | inr (sg, g, e) ↦ absurd (ground (arith, get-between s start_seq current_seq txs, g, past))
    ]

    batch-cleans :
        c.is_done ≡ true
        → IsCleanAbove (pos current_seq) actual
        → IsCleanAbove (pos (start_seq - 1)) c.accounts
    batch-cleans done clean s signer id past low f = elim (dec_lt current_seq s) [
      | yes later ↦ batch-keeps clean s signer id later low f
      | no within ↦ row-corrected s signer id (
          o.all done s signer
            (get-between s start_seq current_seq txs ∙ ground (arith, f, past, within)))
    ]

  module _ (answers : Answers) (good : AreAnswers ids answers.account_ids)
      (h : IsMap ℕ_discrete txs) where
    -- What a batch leaves, with the old status and with the new one.
    batch-IsClean :
        (current_seq : ℕ) (e : TxAccountCleanup) (b : Batch)
        → b ≡ process_batch answers txs (start_of current_seq) current_seq e.accounts
        → e.status.last_cleaned_sequence ≡ pos current_seq
        → IsClean e
        → IsClean (record e { accounts = b.accounts })
          × (b.is_done ≡ true
              → IsClean (record {
                status = add_batch (start_of current_seq) b e.status;
                accounts = b.accounts;
              }))
    unfolding add_batch
    batch-IsClean current_seq e b same at clean =
        let start_seq = start_of current_seq in
        let o =
          subst
            (Outcome ids e.accounts (between start_seq current_seq txs)
              (unprocessed start_seq e.accounts))
            (sym same)
            (process_batch-Outcome ids e.accounts answers txs start_seq current_seq good h) in
        let before : IsCleanAbove (pos current_seq) e.accounts =
          subst (λ l. IsCleanAbove l e.accounts) at clean.above in
        let keyed = AllKeyed-batch start_seq current_seq e.accounts b clean.keyed o in
        let kept = batch-keeps start_seq current_seq e.accounts b clean.keyed o before in
        (
          record { keyed = keyed; above = subst (λ l. IsCleanAbove l b.accounts) (sym at) kept },
          λ done. record {
            keyed = keyed;
            above = batch-cleans start_seq current_seq e.accounts b clean.keyed o done before;
          },
        )

    scan-IsClean :
        (fuel current_seq : ℕ) (e : TxAccountCleanup)
        → e.status.last_cleaned_sequence ≡ pos current_seq
        → IsClean e
        → IsClean (scan fuel answers txs current_seq e).1
    unfolding scan add_batch
    scan-IsClean zero current_seq e at clean = clean
    scan-IsClean (suc fuel) current_seq e at clean =
        let start_seq = start_of current_seq in
        let b = process_batch answers txs start_seq current_seq e.accounts in
        let status = add_batch start_seq b e.status in
        let left = batch-IsClean current_seq e b refl at clean in
        elim (Bool-cases (answers.is_cancelled current_seq)) [
          | inl cancelled ↦ rw (cancelled, scan) clean
          | inr live ↦ elim (Bool-cases (leb current_seq 0)) [
            | inl low ↦ rw (live, low, scan) clean
            | inr more ↦
                elim (Bool-cases (b.is_done && answers.is_updated status.last_cleaned_sequence)) [
                  | inr failed ↦ rw (live, more, failed, scan) left.0
                  | inl stored ↦
                      rw (live, more, stored, scan)
                        (scan-IsClean fuel (start_seq - 1)
                          (record { status = status; accounts = b.accounts }) refl
                          (left.1 (ground (arith, stored))))
                ]
          ]
        ]

    start_from-IsClean :
        (last : ℤ) (e : TxAccountCleanup)
        → e.status.last_cleaned_sequence ≡ last
        → IsClean e
        → IsClean (start_from answers txs last e).1
    unfolding start_from
    start_from-IsClean (pos current_seq) e at clean =
        scan-IsClean (suc current_seq) current_seq e at clean
    start_from-IsClean (negsuc n) e at clean =
        let first : TxAccountCleanup = record e {
          status = record (e.status) { last_cleaned_sequence = pos (max_sequence txs) };
        } in
        elim (answers.is_updated (pos (max_sequence txs)))
          as (λ x.
            IsClean
              (elim x as (λ y. Ended) [
                | false ↦ (false, e)
                | true ↦ scan (suc (max_sequence txs)) answers txs (max_sequence txs) first
              ]).1) [
                | false ↦ clean
                | true ↦
                    scan-IsClean (suc (max_sequence txs)) (max_sequence txs) first refl (record {
                      keyed = clean.keyed;
                      above =
                          λ s signer id past low f. absurd (max_sequence-above s signer txs f past);
                    })
              ]

    -- Whatever the database answers, when the context ends, and however `Run` ends: if the rows were
    -- right for the transactions above the stored sequence, up to some top, they are right for those
    -- above the sequence that is stored afterwards. On the first run nothing is asked of the rows. The
    -- account ids are a key of the rows of each transaction, and the sequences of the transactions.
    pub run-IsClean : (e : TxAccountCleanup) → IsClean e → IsClean (run answers txs e).1
    unfolding run
    run-IsClean e clean = elim (Bool-cases answers.is_loaded) [
      | inl loaded ↦
          rw (loaded, run) (start_from-IsClean e.status.last_cleaned_sequence e refl clean)
      | inr failed ↦ rw (failed, run) clean
    ]
