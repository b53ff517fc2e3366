-- ===== src/InternalTx/Rows.antt =====
-- indexer/extension/internaltx: the indices of the rows of a transaction, the sequences of the rows
-- of a block, and the addresses among the arguments of a call.
use mathlib.Core.List.{map-append}
use rollytics.Prelude.{
  ℕ, zero, suc, ◌+◌, ◌≤◌, ◌<◌, ◌≡◌, ◌≢◌, refl, sym, ap, subst, ◌∙◌, ◌⊎◌, inl, inr, false, List, [],
  ◌∷◌, ◌++◌, map, Option, arith, length, length-append, upto, All, All-append, All-imp, Holds,
  Holds-bind, Holds-bind_any, Holds-imp, All-map, Holds-some, leb, ltb, take, drop, Bool-cases,
}
use rollytics.Prelude.Int.{ℤ, pos, negsuc}
use rollytics.Text.{Text, codes, has_prefix, trim_prefix, to_lower}
use rollytics.InternalTx.{
  EvmInternalTx, InternalTransaction, call, InternalTransactions, nil, cons, InternalTxInfo,
  CollectedEvmInternalTx, State, TransactionTrace, process_internal_call, collect_internal_txs,
  address_keys, party_keys, add_arguments, address_prefix,
}
use rollytics.InternalTx.Traversal.{
  size, size_nested, preorder, preorder_nested, sequences, upto-append, process_internal_call-Run,
  place,
}

-- A place inside the tree with the root `i`: the caller's index is in the tree and before its own.
abbrev pub IsNested : ℕ → ℕ × ℤ × Text → Type 0
IsNested i (j, parent, _) = (m : ℕ) × (parent ≡ pos m) × (i ≤ m) × (m < j)

IsNested-le : (i k : ℕ) (q : ℕ × ℤ × Text) → i ≤ k → IsNested k q → IsNested i q
IsNested-le i k (j, parent, _) le (m, e, low, high) = (m, e, omega arith, high)

mutual
  unfolding preorder size

  preorder_nested-IsNested :
      (i parent : ℕ) (calls : InternalTransactions)
      → parent < i
      → All (IsNested parent) (preorder_nested i parent calls)
  preorder_nested-IsNested i parent nil lt = tt
  preorder_nested-IsNested i parent (cons c calls) lt =
      All-append _ (preorder i (pos parent) c) (preorder_nested (i + size c) parent calls)
        (preorder-IsNested i parent c lt)
        (preorder_nested-IsNested (i + size c) parent calls (omega arith))

  preorder-IsNested :
      (i parent : ℕ) (c : InternalTransaction)
      → parent < i
      → All (IsNested parent) (preorder i (pos parent) c)
  preorder-IsNested i parent (call c calls) lt = (
    (parent, refl, omega arith, lt),
    All-imp _ (λ q. IsNested-le parent i q (omega arith))
        (preorder_nested-IsNested (i + 1) i calls (omega arith)),
  )

mutual
  unfolding preorder size

  preorder-indices :
      (i : ℕ) (parent : ℤ) (c : InternalTransaction)
      → map (λ q. q.0) (preorder i parent c) ≡ upto i (size c)
  preorder-indices i parent (call c calls) =
      let next : i + 1 ≡ suc i = omega arith in
      ap (◌∷◌ i)
        (preorder_nested-indices (i + 1) i calls ∙ ap (λ k. upto k (size_nested calls)) next)

  preorder_nested-indices :
      (i parent : ℕ) (calls : InternalTransactions)
      → map (λ q. q.0) (preorder_nested i parent calls) ≡ upto i (size_nested calls)
  preorder_nested-indices i parent nil = refl
  preorder_nested-indices i parent (cons c calls) =
      map-append (λ q. q.0) (preorder i (pos parent) c) (preorder_nested (i + size c) parent calls)
      ∙ rw (preorder-indices i (pos parent) c, preorder_nested-indices (i + size c) parent calls)
          (sym (upto-append i (size c) (size_nested calls)))

-- The root of a tree, or a place inside it.
abbrev pub IsPlace : ℕ → ℤ → ℕ × ℤ × Text → Type 0
IsPlace i parent q = ((q.0 ≡ i) × (q.1 ≡ parent)) ⊎ IsNested i q

preorder-IsPlace :
    (i : ℕ) (parent : ℤ) (c : InternalTransaction) → All (IsPlace i parent) (preorder i parent c)
unfolding preorder
preorder-IsPlace i parent (call c calls) = (
  inl (refl, refl),
  All-imp _ (λ q h. inr h) (preorder_nested-IsNested (i + 1) i calls (omega arith)),
)

map-map-place :
    (rs : List CollectedEvmInternalTx) → map (λ q. q.0) (map place rs) ≡ map (λ r. r.index) rs
map-map-place [] = refl
map-map-place (r ∷ rs) = ap (◌∷◌ r.index) (map-map-place rs)

sequences-append :
    (height n : ℕ) (rs ts : List CollectedEvmInternalTx) {m l : ℕ}
    → sequences rs ≡ upto (suc n) (length rs)
    → m ≡ n + length rs
    → sequences ts ≡ upto (suc m) (length ts)
    → l ≡ m + length ts
    → All (λ r. r.height ≡ height) rs
    → All (λ r. r.height ≡ height) ts
    → (sequences (rs ++ ts) ≡ upto (suc n) (length (rs ++ ts)))
      × (l ≡ n + length (rs ++ ts))
      × All (λ r. r.height ≡ height) (rs ++ ts)
sequences-append height n rs ts {m = m} first next second last owned others =
    let both : length (rs ++ ts) ≡ length rs + length ts = length-append rs ts in
    let at : suc m ≡ suc n + length rs = omega (arith, next) in
    (
      map-append (λ r. r.sequence) rs ts
          ∙ rw (both, first, second, at) (sym (upto-append (suc n) (length rs) (length ts))),
      omega (arith, next, last, both),
      All-append _ rs ts owned others,
    )

module _ {S : Type 0} (bech32 : Text → Option (List ℕ)) (to_string : List ℕ → Text)
    (get_or_create_account_ids : S → List Text → Option ((Text → Option ℕ) × S)) where
  -- The rows of a transaction have the indices from the first one on, without a gap; the first row
  -- has the parent of the transaction, and each other row's parent is a row before it.
  pub process_internal_call-IsPlace :
      (tx : InternalTxInfo) (c : InternalTransaction) (s : State S)
      → Holds
          (λ (rows, t).
            (map (λ r. r.index) rows ≡ upto tx.index (size c))
            × All (λ r. IsPlace tx.index tx.parent_index (place r)) rows)
          (process_internal_call bech32 to_string get_or_create_account_ids tx c s)
  process_internal_call-IsPlace tx c s =
      Holds-imp _ _ _
        (λ (rows, t) run. (
          sym (map-map-place rows)
              ∙ ap (map (λ q. q.0)) run.placed
              ∙ preorder-indices tx.index tx.parent_index c,
          All-map (IsPlace tx.index tx.parent_index) place rows (
              subst (All (IsPlace tx.index tx.parent_index)) (sym run.placed)
                (preorder-IsPlace tx.index tx.parent_index c)),
        ))
        (process_internal_call-Run bech32 to_string get_or_create_account_ids tx c s)

  -- The rows of a block take the next sequences, one after the other, over all transactions, and
  -- the counter that is stored stands at the last of them; every row is at the height of the block.
  pub collect_internal_txs-sequences :
      (height : ℕ) (hash_ids : Text → Option ℕ) (traces : List TransactionTrace) (s : State S)
      → Holds
          (λ (rows, t).
            (sequences rows ≡ upto (suc s.sequence) (length rows))
            × (t.sequence ≡ s.sequence + length rows)
            × All (λ r. r.height ≡ height) rows)
          (collect_internal_txs bech32 to_string get_or_create_account_ids height hash_ids traces s)
  unfolding collect_internal_txs
  collect_internal_txs-sequences height hash_ids [] s = Holds-some _ (refl, omega arith, tt)
  collect_internal_txs-sequences height hash_ids (trace ∷ traces) s =
      elim (Bool-cases (ltb 0 (length trace.error))) [
        | inl failed ↦ rw failed (collect_internal_txs-sequences height hash_ids traces s)
        | inr fine ↦ rw fine (
            Holds-bind_any _ (hash_ids (to_lower (trim_prefix trace.tx_hash (codes "0x")))) _
              (λ hash_id.
                Holds-bind _ _ _ _
                  (process_internal_call-Run bech32 to_string get_or_create_account_ids
                    (record {
                      height = height;
                      hash_id = hash_id;
                      index = 0;
                      parent_index = negsuc 0;
                    })
                    (call (record trace.result { output = [] }) trace.calls) s)
                  (λ (results, t) run.
                    Holds-bind _ _ _ _ (collect_internal_txs-sequences height hash_ids traces t)
                      (λ (rest, u) (numbered, after, owned). Holds-some _ (
                        sequences-append height s.sequence results rest run.numbered run.after
                          numbered after (All-imp results (λ r own. own.0) run.owned) owned)))))
      ]

abbrev pub IsHexBody : Text → Type 0
IsHexBody = All (λ c. c ≢ b'x')

has_prefix-hex :
    (input : Text) → IsHexBody input → has_prefix (take 32 input) address_prefix ≡ false
unfolding has_prefix
has_prefix-hex [] h = refl
has_prefix-hex (c ∷ []) h = ground arith
has_prefix-hex (c ∷ d ∷ input) h = ground (arith, h.1.0)

All-drop : (n : ℕ) (input : Text) → IsHexBody input → IsHexBody (drop n input)
All-drop zero input h = h
All-drop (suc n) [] h = tt
All-drop (suc n) (c ∷ input) h = All-drop n input h.1

add_arguments-hex :
    (n : ℕ) (input : Text) (keys : List Text) → IsHexBody input → add_arguments n input keys ≡ keys
unfolding add_arguments
add_arguments-hex zero input keys h = refl
add_arguments-hex (suc n) input keys h =
    rw (has_prefix-hex input h) (elim (Bool-cases (leb 32 (length input))) [
      | inl full ↦ rw full (add_arguments-hex n (drop 32 input) keys (All-drop 32 input h))
      | inr rest ↦ rw rest refl
    ])

-- No address is ever found among the arguments of a call: where the input has no x behind its first
-- ten characters, as hexadecimal text has none, the keys are those of a call without an input.
pub address_keys-hex :
    (c : EvmInternalTx)
    → IsHexBody (drop 10 c.input)
    → address_keys c ≡ address_keys (record c { input = [] })
unfolding address_keys party_keys
address_keys-hex c h = elim (Bool-cases (ltb 10 (length c.input))) [
  | inl long ↦ rw long (add_arguments-hex (length c.input) (drop 10 c.input) (party_keys c) h)
  | inr short ↦ rw short refl
]
