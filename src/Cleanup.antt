-- ===== src/Cleanup.antt =====
-- indexer/extension/txaccountcleanup/cleanup.go: `reconcileTx`, for one transaction.
-- The rows are those of `tx_accounts` with the sequence of the transaction, each an account id and
-- its signer flag; the account id is their key. The ids of the accounts that the events name, from
-- the dictionary, are an argument, as is the id of the signer, 0 for none.
pub mod Reconciled
pub mod Keyed
pub mod Scan
use rollytics.Prelude.{
  ℕ, Bool, true, false, not, ◌&&◌, ◌||◌, ◌==◌, List, [], ◌∷◌, ◌++◌, map, Option, none, some,
  if◌then◌else◌, contains, ℕ_discrete, length,
}
use rollytics.Prelude.GoMap.{get, put}

abbrev pub Rows : Type 0
Rows = List (ℕ × Bool)

-- The keys of `expectedSet`.
unfoldable pub nonzero : List ℕ → List ℕ
nonzero [] = []
nonzero (id ∷ ids) = if id == 0 then nonzero ids else id ∷ nonzero ids

unfoldable pub expected_set : ℕ → List ℕ → List ℕ
unfolding nonzero
expected_set signer ids = if signer == 0 then nonzero ids else signer ∷ nonzero ids

unfoldable pub extra_ids : List ℕ → Rows → List ℕ
unfolding contains
extra_ids expected [] = []
extra_ids expected ((id, signer) ∷ actual) =
    if contains id expected then extra_ids expected actual else id ∷ extra_ids expected actual

unfoldable pub is_missing : Option Bool → Bool
is_missing none = true
is_missing (some b) = false

-- The account ids of `missingEntries`.
unfoldable pub missing_ids : List ℕ → Rows → List ℕ
unfolding get is_missing
missing_ids [] actual = []
missing_ids (id ∷ expected) actual =
    if is_missing (get ℕ_discrete id actual)
    then id ∷ missing_ids expected actual
    else missing_ids expected actual

unfoldable pub flag_eq : Bool → Bool → Bool
flag_eq true b = b
flag_eq false b = not b

unfoldable pub stale_signer : ℕ → List ℕ → Rows → List ℕ
unfolding contains flag_eq
stale_signer signer expected [] = []
stale_signer signer expected ((id, flag) ∷ actual) =
    if contains id expected && not (flag_eq flag (id == signer))
    then id ∷ stale_signer signer expected actual
    else stale_signer signer expected actual

-- `DELETE ... WHERE account_id IN ids`
unfoldable pub delete_rows : List ℕ → Rows → Rows
unfolding contains
delete_rows ids [] = []
delete_rows ids ((id, flag) ∷ rows) =
    if contains id ids then delete_rows ids rows else (id, flag) ∷ delete_rows ids rows

-- `INSERT ... ON CONFLICT DO NOTHING`, of the accounts with their flags
unfoldable pub insert_row : ℕ → ℕ → Rows → Rows
unfolding get put is_missing
insert_row signer id rows =
    if is_missing (get ℕ_discrete id rows) then put ℕ_discrete id (id == signer) rows else rows

unfoldable pub insert_rows : ℕ → List ℕ → Rows → Rows
unfolding insert_row
insert_rows signer [] rows = rows
insert_rows signer (id ∷ ids) rows = insert_rows signer ids (insert_row signer id rows)

-- `UPDATE ... SET signer = flag WHERE account_id IN ids`
unfoldable pub update_signer : Bool → List ℕ → Rows → Rows
unfolding contains
update_signer flag ids [] = []
update_signer flag ids ((id, old) ∷ rows) =
    (id, if contains id ids then flag else old) ∷ update_signer flag ids rows

-- The three writes of the transaction on the database; each does nothing for no ids.
unfoldable pub reconcile_tx : ℕ → List ℕ → Rows → Rows
unfolding expected_set extra_ids missing_ids stale_signer delete_rows insert_rows update_signer
    contains
reconcile_tx signer ids actual =
    let expected = expected_set signer ids in
    let stale = stale_signer signer expected actual in
    let inserted =
      insert_rows signer (missing_ids expected actual)
        (delete_rows (extra_ids expected actual) actual) in
    let cleared = update_signer false stale inserted in
    if not (signer == 0) && contains signer stale
    then update_signer true (signer ∷ []) cleared
    else cleared
