-- ===== src/Cleanup/Reconciled.antt =====
-- indexer/extension/txaccountcleanup/cleanup.go: the rows after `reconcileTx`.
use rollytics.Prelude.{
  ℕ, ◌≡◌, refl, ap, Bool, true, false, not, ◌&&◌, ◌||◌, ◌==◌, List, [], ◌∷◌, Option, none, some,
  arith, if◌then◌else◌, contains, ℕ_discrete,
}
use rollytics.Prelude.GoMap.{get, get-put}
use rollytics.Cleanup.{
  Rows, nonzero, expected_set, extra_ids, missing_ids, is_missing, stale_signer, flag_eq,
  delete_rows, insert_row, insert_rows, update_signer, reconcile_tx,
}

-- The account id is a key.
abbrev pub AreKeyed : Rows → Type 0
AreKeyed [] = Unit
AreKeyed ((id, flag) ∷ rows) = (get ℕ_discrete id rows ≡ none) × AreKeyed rows

abbrev row : ℕ → Rows → Option Bool
row = get ℕ_discrete

pub row-delete :
    (id : ℕ) (ids : List ℕ) (rows : Rows)
    → row id (delete_rows ids rows) ≡ (if contains id ids then none else row id rows)
unfolding delete_rows get
row-delete id ids [] = ground arith
row-delete id ids ((j, flag) ∷ rows) = ground (arith, row-delete id ids rows)

pub row-update :
    (id : ℕ) (flag : Bool) (ids : List ℕ) (rows : Rows)
    → row id (update_signer flag ids rows)
      ≡ elim (row id rows) [ none ↦ none | some old ↦ some (if contains id ids then flag else old) ]
unfolding update_signer get
row-update id flag ids [] = refl
row-update id flag ids ((j, old) ∷ rows) = ground (arith, row-update id flag ids rows)

contains-extra :
    (id : ℕ) (expected : List ℕ) (rows : Rows)
    → contains id (extra_ids expected rows)
      ≡ (not (is_missing (row id rows)) && not (contains id expected))
unfolding extra_ids contains get is_missing
contains-extra id expected [] = ground arith
contains-extra id expected ((j, flag) ∷ rows) = ground (arith, contains-extra id expected rows)

contains-missing :
    (id : ℕ) (expected : List ℕ) (rows : Rows)
    → contains id (missing_ids expected rows) ≡ (contains id expected && is_missing (row id rows))
unfolding missing_ids contains
contains-missing id [] rows = ground arith
contains-missing id (j ∷ expected) rows = ground (arith, contains-missing id expected rows)

row-insert_row :
    (id signer j : ℕ) (rows : Rows)
    → row id (insert_row signer j rows) ≡ elim (row id rows) [
      | some old ↦ some old
      | none ↦ if j == id then some (id == signer) else none
    ]
unfolding insert_row is_missing
row-insert_row id signer j rows = ground (arith, get-put ℕ_discrete j id (j == signer) rows)

row-insert :
    (id signer : ℕ) (ids : List ℕ) (rows : Rows)
    → row id (insert_rows signer ids rows) ≡ elim (row id rows) [
      | some old ↦ some old
      | none ↦ if contains id ids then some (id == signer) else none
    ]
unfolding insert_rows contains
row-insert id signer [] rows = ground arith
row-insert id signer (j ∷ ids) rows =
    ground
      (arith, row-insert id signer ids (insert_row signer j rows), row-insert_row id signer j rows)

contains-stale :
    (id signer : ℕ) (expected : List ℕ) (rows : Rows)
    → AreKeyed rows
    → contains id (stale_signer signer expected rows) ≡ elim (row id rows) [
      | none ↦ false
      | some flag ↦ contains id expected && not (flag_eq flag (id == signer))
    ]
unfolding stale_signer contains get flag_eq
contains-stale id signer expected [] keyed = ground arith
contains-stale id signer expected ((j, flag) ∷ rows) keyed =
    ground (arith, contains-stale id signer expected rows keyed.1, keyed.0)

contains-nonzero :
    (id : ℕ) (ids : List ℕ) → contains id (nonzero ids) ≡ (not (id == 0) && contains id ids)
unfolding nonzero contains
contains-nonzero id [] = ground arith
contains-nonzero id (j ∷ ids) = ground (arith, contains-nonzero id ids)

contains-expected :
    (id signer : ℕ) (ids : List ℕ)
    → contains id (expected_set signer ids) ≡ (not (id == 0) && (contains id ids || id == signer))
unfolding expected_set contains
contains-expected id signer ids = ground (arith, contains-nonzero id ids)

module _ (id signer : ℕ) (ids : List ℕ) (actual : Rows) (keyed : AreKeyed actual) where
  abbrev expected : List ℕ
  expected = expected_set signer ids

  abbrev inserted : Rows
  inserted =
      insert_rows signer (missing_ids expected actual)
        (delete_rows (extra_ids expected actual) actual)

  -- The account has a row exactly if it is expected; its flag is the old one, if it had a row.
  row-inserted : row id inserted ≡ (
      if contains id expected
      then elim (row id actual) [ some old ↦ some old | none ↦ some (id == signer) ]
      else none)
  unfolding is_missing
  row-inserted = ground (
    arith,
    row-insert id signer (missing_ids expected actual)
        (delete_rows (extra_ids expected actual) actual),
    row-delete id (extra_ids expected actual) actual,
    contains-extra id expected actual,
    contains-missing id expected actual,
  )

  abbrev stale : List ℕ
  stale = stale_signer signer expected actual

  abbrev cleared : Rows
  cleared = update_signer false stale inserted

  -- A flag that is wrong is now false.
  row-cleared : row id cleared ≡ (
      if contains id expected
      then elim (row id actual) [
        | none ↦ some (id == signer)
        | some old ↦ some (if flag_eq old (id == signer) then old else false)
      ]
      else none)
  unfolding is_missing flag_eq
  row-cleared = ground (
    arith,
    row-update id false stale inserted,
    row-inserted,
    contains-stale id signer expected actual keyed,
    contains-missing id expected actual,
  )

  -- After the writes an account has a row exactly if it is not 0 and either named by the events or
  -- the signer, whatever rows there were; and the flag of the row tells whether it is the signer.
  pub row-reconcile_tx :
      get ℕ_discrete id (reconcile_tx signer ids actual)
      ≡ (if not (id == 0) && (contains id ids || id == signer) then some (id == signer) else none)
  unfolding reconcile_tx flag_eq contains
  row-reconcile_tx = elim (ℕ_discrete id signer) [
    | yes e ↦ ground (
      arith,
      row-update id true (signer ∷ []) cleared,
      row-cleared,
      contains-stale id signer expected actual keyed,
      ap (λ k. contains k stale) e,
      contains-expected id signer ids,
    )
    | no other ↦ ground (
      arith,
      row-update id true (signer ∷ []) cleared,
      row-cleared,
      contains-expected id signer ids,
    )
  ]
