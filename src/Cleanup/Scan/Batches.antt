-- ===== src/Cleanup/Scan/Batches.antt =====
-- indexer/extension/txaccountcleanup/cleanup.go: the rows after `ProcessBatch`.
use mathlib.Core.Logic.{if_pos, if_neg}
use rollytics.Prelude.{
  ℕ, ◌≡◌, ◌≢◌, refl, sym, ◌∙◌, ap, subst, ◌⊎◌, inl, inr, true, false, ◌&&◌, List, [], ◌∷◌, Option,
  none, some, arith, leb, if◌then◌else◌, ℕ_discrete,
}
use rollytics.Prelude.GoMap.{get, IsMap}
use rollytics.Cleanup.{Rows, reconcile_tx}
use rollytics.Cleanup.Scan.{
  CollectedTxs, TxAccounts, Answers, Batch, between, set_rows, reconciled, reconcile_txs,
  process_batch, unprocessed,
}

pub get-between :
    (s start_seq end_seq : ℕ) (txs : CollectedTxs)
    → get ℕ_discrete s (between start_seq end_seq txs)
      ≡ (if leb start_seq s && leb s end_seq then get ℕ_discrete s txs else none)
unfolding between get
get-between s start_seq end_seq [] = ground arith
get-between s start_seq end_seq ((j, signer) ∷ txs) =
    ground (arith, get-between s start_seq end_seq txs)

pub between-IsMap :
    (start_seq end_seq : ℕ) (txs : CollectedTxs)
    → IsMap ℕ_discrete txs
    → IsMap ℕ_discrete (between start_seq end_seq txs)
unfolding between
between-IsMap start_seq end_seq [] h = tt
between-IsMap start_seq end_seq ((j, signer) ∷ txs) h =
    let fresh : get ℕ_discrete j (between start_seq end_seq txs) ≡ none =
      ground (arith, get-between j start_seq end_seq txs, h.0) in
    elim (leb start_seq j && leb j end_seq)
      as (λ b. IsMap ℕ_discrete (
        if b then (j, signer) ∷ between start_seq end_seq txs else between start_seq end_seq txs)) [
          | true ↦ (fresh, between-IsMap start_seq end_seq txs h.1)
          | false ↦ between-IsMap start_seq end_seq txs h.1
        ]

set_rows_self : (j : ℕ) (rows : Rows) (accounts : TxAccounts) → set_rows j rows accounts j ≡ rows
unfolding set_rows
set_rows_self j rows accounts = ground arith

set_rows_ne :
    (j : ℕ) (rows : Rows) (accounts : TxAccounts) (s : ℕ)
    → j ≢ s
    → set_rows j rows accounts s ≡ accounts s
unfolding set_rows
set_rows_ne j rows accounts s other = ground arith

-- The answers are the ids, when they come.
abbrev pub AreAnswers : (ℕ → List ℕ) → (ℕ → Option (List ℕ)) → Type 0
AreAnswers ids account_ids = (s : ℕ) (l : List ℕ) → account_ids s ≡ some l → l ≡ ids s

module _ (ids : ℕ → List ℕ) (actual : TxAccounts) where
  -- The rows of a sequence are those that were read, corrected.
  abbrev pub IsReconciled : CollectedTxs → ℕ → TxAccounts → Type 0
  IsReconciled txs s accounts =
      (signer : ℕ) × (get ℕ_discrete s txs ≡ some signer)
      × (accounts s ≡ reconcile_tx signer (ids s) (actual s))

  -- What the loop leaves of each sequence: all are corrected if it comes to its end.
  pub record Outcome (txs : CollectedTxs) (b c : Batch) : Type 0 where
    pub each : (s : ℕ) → (c.accounts s ≡ b.accounts s) ⊎ IsReconciled txs s c.accounts
    pub all :
        c.is_done ≡ true
        → (s signer : ℕ) → get ℕ_discrete s txs ≡ some signer
        → c.accounts s ≡ reconcile_tx signer (ids s) (actual s)

  -- One more transaction in front, when its rows are corrected first.
  Outcome-cons :
      (j signer : ℕ) (l : List ℕ) (txs : CollectedTxs) (b c : Batch)
      → l ≡ ids j
      → get ℕ_discrete j txs ≡ none
      → Outcome txs (reconciled j signer l (actual j) b) c
      → Outcome ((j, signer) ∷ txs) b c
  unfolding reconciled get
  Outcome-cons j signer l txs b c same fresh o =
      let here : c.accounts j ≡ reconcile_tx signer (ids j) (actual j) = elim (o.each j) [
        | inl e ↦
            e
            ∙ set_rows_self j (reconcile_tx signer l (actual j)) b.accounts
            ∙ ap (λ l. reconcile_tx signer l (actual j)) same
        | inr (sg, f, e) ↦ absurd (ground (arith, fresh, f))
      ] in
      let moved : (s : ℕ) → j ≡ s → c.accounts s ≡ reconcile_tx signer (ids s) (actual s) =
        λ s e. subst (λ s. c.accounts s ≡ reconcile_tx signer (ids s) (actual s)) e here in
      record {
        each = λ s. elim (ℕ_discrete j s) [
          | yes e ↦
              inr
                (signer, if_pos (ℕ_discrete j s) e (some signer) (get ℕ_discrete s txs), moved s e)
          | no other ↦ elim (o.each s) [
            | inl e ↦ inl (e ∙ set_rows_ne j (reconcile_tx signer l (actual j)) b.accounts s other)
            | inr (sg, f, e) ↦
                inr (sg, if_neg (ℕ_discrete j s) other (some signer) (get ℕ_discrete s txs) ∙ f, e)
          ]
        ];
        all = λ done s sg f. elim (ℕ_discrete j s) [
          | yes e ↦
              let same : signer ≡ sg =
                ground (arith, if_pos (ℕ_discrete j s) e (some signer) (get ℕ_discrete s txs), f) in
              moved s e ∙ ap (λ k. reconcile_tx k (ids s) (actual s)) same
          | no other ↦
              o.all done s sg
                (sym (if_neg (ℕ_discrete j s) other (some signer) (get ℕ_discrete s txs)) ∙ f)
        ];
      }

  pub reconcile_txs-Outcome :
      (account_ids : ℕ → Option (List ℕ)) (txs : CollectedTxs) (b : Batch)
      → AreAnswers ids account_ids
      → IsMap ℕ_discrete txs
      → b.is_done ≡ false
      → Outcome txs b (reconcile_txs account_ids actual txs b)
  unfolding reconcile_txs reconciled get
  reconcile_txs-Outcome account_ids [] b good h undone = record {
    each = λ s. inl refl;
    all = λ e s signer f. absurd (ground (arith, f));
  }
  reconcile_txs-Outcome account_ids ((j, signer) ∷ txs) b good h undone =
      elim (account_ids j)
          as (λ o.
            account_ids j ≡ o
            → Outcome ((j, signer) ∷ txs) b (elim o [
              | none ↦ b
              | some l ↦ reconcile_txs account_ids actual txs (reconciled j signer l (actual j) b)
            ])) [
              | none ↦ λ failed. record {
                each = λ s. inl refl;
                all = λ e s sg f. absurd (ground (arith, e, undone));
              }
              | some l ↦ λ answer. Outcome-cons j signer l txs b _ (good j l answer) h.0 (
                  reconcile_txs-Outcome account_ids txs (reconciled j signer l (actual j) b) good
                    h.1 undone)
            ]
        refl

  pub process_batch-Outcome :
      (answers : Answers) (txs : CollectedTxs) (start_seq end_seq : ℕ)
      → AreAnswers ids answers.account_ids
      → IsMap ℕ_discrete txs
      → Outcome
          (between start_seq end_seq txs)
          (unprocessed start_seq actual)
          (process_batch answers txs start_seq end_seq actual)
  unfolding process_batch unprocessed
  process_batch-Outcome answers txs start_seq end_seq good h =
      let batch = between start_seq end_seq txs in
      let b = reconcile_txs answers.account_ids actual batch (unprocessed start_seq actual) in
      let o =
        reconcile_txs-Outcome answers.account_ids batch (unprocessed start_seq actual) good
          (between-IsMap start_seq end_seq txs h) refl in
      elim (answers.is_queried end_seq)
        as (λ q. Outcome batch (unprocessed start_seq actual) (elim q [
          | false ↦ unprocessed start_seq actual
          | true ↦ elim b.is_done [ false ↦ b | true ↦ record b { last_processed_seq = end_seq } ]
        ])) [
          | false ↦ record { each = λ s. inl refl; all = λ e s sg f. absurd (ground (arith, e)) }
          | true ↦
              elim b.is_done
                  as (λ d.
                    b.is_done ≡ d
                    → Outcome batch (unprocessed start_seq actual)
                        (elim d [ false ↦ b | true ↦ record b { last_processed_seq = end_seq } ])) [
                          | false ↦ λ e. o
                          | true ↦ λ e. record { each = o.each; all = o.all }
                        ]
                refl
        ]

  -- With an answer for every sequence the batch comes to its end.
  reconcile_txs-is_done :
      (account_ids : ℕ → Option (List ℕ)) (txs : CollectedTxs) (b : Batch)
      → ((s : ℕ) → account_ids s ≡ some (ids s))
      → (reconcile_txs account_ids actual txs b).is_done ≡ true
  unfolding reconcile_txs
  reconcile_txs-is_done account_ids [] b all = refl
  reconcile_txs-is_done account_ids ((j, signer) ∷ txs) b all =
      rw (all j, reconcile_txs)
        (reconcile_txs-is_done account_ids txs (reconciled j signer (ids j) (actual j) b) all)

  pub process_batch-is_done :
      (answers : Answers) (txs : CollectedTxs) (start_seq end_seq : ℕ)
      → ((s : ℕ) → answers.account_ids s ≡ some (ids s))
      → answers.is_queried end_seq ≡ true
      → (process_batch answers txs start_seq end_seq actual).is_done ≡ true
  unfolding process_batch
  process_batch-is_done answers txs start_seq end_seq all queried =
      let done =
        reconcile_txs-is_done answers.account_ids (between start_seq end_seq txs)
          (unprocessed start_seq actual) all in
      rw (queried, done, process_batch) done
