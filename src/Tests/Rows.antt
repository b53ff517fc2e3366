-- ===== src/Tests/Rows.antt =====
-- indexer/extension/txaccountcleanup: an extra row, a missing row and a wrong flag.
use rollytics.Prelude.{
  ℕ, ◌≡◌, refl, true, false, not, ◌&&◌, ◌||◌, ◌==◌, List, [], ◌∷◌, none, some, if◌then◌else◌,
  contains, ℕ_discrete,
}
use rollytics.Prelude.GoMap.{get, put}
use rollytics.Cleanup.{
  Rows, nonzero, expected_set, extra_ids, missing_ids, is_missing, stale_signer, flag_eq,
  delete_rows, insert_row, insert_rows, update_signer, reconcile_tx,
}
use rollytics.Cleanup.Reconciled.{AreKeyed, row-reconcile_tx}

abbrev actual : Rows
actual = (7, true) ∷ (5, false) ∷ []

abbrev named : List ℕ
named = 3 ∷ 0 ∷ 5 ∷ []

reconciled : reconcile_tx 5 named actual ≡ (5, true) ∷ (3, false) ∷ []
unfolding reconcile_tx nonzero expected_set extra_ids missing_ids is_missing stale_signer flag_eq
    delete_rows insert_row insert_rows update_signer contains get put ℕ_discrete
reconciled = refl

actual-AreKeyed : AreKeyed actual
unfolding get ℕ_discrete
actual-AreKeyed = (refl, (refl, tt))

row-reconcile_tx_example :
    get ℕ_discrete 5 (reconcile_tx 5 named actual)
    ≡ (if not (5 == 0) && (contains 5 named || 5 == 5) then some (5 == 5) else none)
row-reconcile_tx_example = row-reconcile_tx 5 5 named actual actual-AreKeyed
