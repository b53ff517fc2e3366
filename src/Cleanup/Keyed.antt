-- ===== src/Cleanup/Keyed.antt =====
-- indexer/extension/txaccountcleanup/cleanup.go: the account id stays the key of the rows.
use rollytics.Prelude.{
  ℕ, ◌≡◌, Bool, true, false, not, ◌&&◌, ◌==◌, List, [], ◌∷◌, none, arith, if◌then◌else◌, contains,
  ℕ_discrete,
}
use rollytics.Prelude.GoMap.{get, put, put-IsMap}
use rollytics.Cleanup.{
  Rows, expected_set, extra_ids, missing_ids, is_missing, stale_signer, delete_rows, insert_row,
  insert_rows, update_signer, reconcile_tx,
}
use rollytics.Cleanup.Reconciled.{AreKeyed, row-delete, row-update}

delete-AreKeyed : (ids : List ℕ) (rows : Rows) → AreKeyed rows → AreKeyed (delete_rows ids rows)
unfolding delete_rows
delete-AreKeyed ids [] k = tt
delete-AreKeyed ids ((j, flag) ∷ rows) k =
    let rest = delete-AreKeyed ids rows k.1 in
    let no_row : get ℕ_discrete j (delete_rows ids rows) ≡ none =
      ground (arith, row-delete j ids rows, k.0) in
    elim (contains j ids)
      as (λ b. AreKeyed (if b then delete_rows ids rows else (j, flag) ∷ delete_rows ids rows)) [
        | true ↦ rest
        | false ↦ (no_row, rest)
      ]

insert_row-AreKeyed :
    (signer id : ℕ) (rows : Rows) → AreKeyed rows → AreKeyed (insert_row signer id rows)
unfolding insert_row
insert_row-AreKeyed signer id rows k =
    elim (is_missing (get ℕ_discrete id rows))
      as (λ b. AreKeyed (if b then put ℕ_discrete id (id == signer) rows else rows)) [
        | true ↦ put-IsMap ℕ_discrete id (id == signer) rows k
        | false ↦ k
      ]

insert-AreKeyed :
    (signer : ℕ) (ids : List ℕ) (rows : Rows)
    → AreKeyed rows
    → AreKeyed (insert_rows signer ids rows)
unfolding insert_rows
insert-AreKeyed signer [] rows k = k
insert-AreKeyed signer (id ∷ ids) rows k =
    insert-AreKeyed signer ids (insert_row signer id rows) (insert_row-AreKeyed signer id rows k)

update-AreKeyed :
    (flag : Bool) (ids : List ℕ) (rows : Rows)
    → AreKeyed rows
    → AreKeyed (update_signer flag ids rows)
unfolding update_signer
update-AreKeyed flag ids [] k = tt
update-AreKeyed flag ids ((j, old) ∷ rows) k =
    (ground (arith, row-update j flag ids rows, k.0), update-AreKeyed flag ids rows k.1)

pub reconcile_tx-AreKeyed :
    (signer : ℕ) (ids : List ℕ) (actual : Rows)
    → AreKeyed actual
    → AreKeyed (reconcile_tx signer ids actual)
unfolding reconcile_tx
reconcile_tx-AreKeyed signer ids actual k =
    let expected = expected_set signer ids in
    let stale = stale_signer signer expected actual in
    let inserted =
      insert_rows signer (missing_ids expected actual)
        (delete_rows (extra_ids expected actual) actual) in
    let cleared = update_signer false stale inserted in
    let h = update-AreKeyed false stale inserted (
      insert-AreKeyed signer (missing_ids expected actual)
        (delete_rows (extra_ids expected actual) actual)
        (delete-AreKeyed (extra_ids expected actual) actual k)) in
    elim (not (signer == 0) && contains signer stale)
      as (λ b. AreKeyed (if b then update_signer true (signer ∷ []) cleared else cleared)) [
        | true ↦ update-AreKeyed true (signer ∷ []) cleared h
        | false ↦ h
      ]
