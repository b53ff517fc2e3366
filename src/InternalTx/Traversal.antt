-- ===== src/InternalTx/Traversal.antt =====
-- indexer/extension/internaltx/util.go: what `processInternalCall` makes of a tree of calls.
use mathlib.Core.List.{map-append}
use rollytics.Prelude.{
  ℕ, zero, suc, ◌+◌, ◌≡◌, refl, sym, ap, subst, ◌∙◌, List, [], ◌∷◌, ◌++◌, map, Option, arith,
  length, length-append, upto, All, All-append, Holds, Holds-bind, Holds-bind_any, Holds-some,
  length-map,
}
use rollytics.Prelude.Int.{ℤ, pos}
use rollytics.Text.{Text}
use rollytics.Address.{hex_to_bytes}
use rollytics.InternalTx.{
  EvmInternalTx, InternalTransaction, call, InternalTransactions, nil, cons, InternalTxInfo,
  CollectedEvmInternalTx, State, collect_call, grep_addresses_from_evm_internal_tx, account_id,
  process_internal_call, process_nested,
}

-- The number of calls in a tree, and the calls in preorder: each with its index, that of its caller
-- and its type.
unfoldable mutual
  pub size : InternalTransaction → ℕ
  size (call c calls) = suc (size_nested calls)

  pub size_nested : InternalTransactions → ℕ
  size_nested nil = 0
  size_nested (cons c calls) = size c + size_nested calls

unfoldable mutual
  unfolding size

  pub preorder : ℕ → ℤ → InternalTransaction → List (ℕ × ℤ × Text)
  preorder i parent (call c calls) = (i, parent, c.call_type) ∷ preorder_nested (i + 1) i calls

  pub preorder_nested : ℕ → ℕ → InternalTransactions → List (ℕ × ℤ × Text)
  preorder_nested i parent nil = []
  preorder_nested i parent (cons c calls) =
      preorder i (pos parent) c ++ preorder_nested (i + size c) parent calls

abbrev pub place : CollectedEvmInternalTx → ℕ × ℤ × Text
place r = (r.index, r.parent_index, r.call_type)

abbrev pub sequences : List CollectedEvmInternalTx → List ℕ
sequences = map (λ r. r.sequence)

-- The rows of a run that began with the sequence `n`: where they stand, and what is left after it.
pub record Run {S : Type 0} (height hash_id n : ℕ) (places : List (ℕ × ℤ × Text))
    (result : List CollectedEvmInternalTx × State S) : Type 0 where
  pub placed : map place result.0 ≡ places
  pub numbered : sequences result.0 ≡ upto (suc n) (length result.0)
  pub after : result.1.sequence ≡ n + length result.0
  pub owned : All (λ r. (r.height ≡ height) × (r.hash_id ≡ hash_id)) result.0

pub upto-append : (a m n : ℕ) → upto a (m + n) ≡ upto a m ++ upto (a + m) n
upto-append a zero n =
    let left : 0 + n ≡ n = omega arith in
    let right : a + 0 ≡ a = omega arith in rw (left, right) refl
upto-append a (suc m) n =
    let left : suc m + n ≡ suc (m + n) = omega arith in
    let right : a + suc m ≡ suc a + m = omega arith in
    rw (left, right) (ap (◌∷◌ a) (upto-append (suc a) m n))

Run-append :
    {S : Type 0} {height hash_id n : ℕ} {ps qs : List (ℕ × ℤ × Text)}
    {rs ts : List CollectedEvmInternalTx} {s t : State S}
    → Run height hash_id n ps (rs, s)
    → Run height hash_id s.sequence qs (ts, t)
    → Run height hash_id n (ps ++ qs) (rs ++ ts, t)
Run-append {n = n} {rs = rs} {ts = ts} {s = s} r q =
    let both : length (rs ++ ts) ≡ length rs + length ts = length-append rs ts in
    let next : suc s.sequence ≡ suc n + length rs = omega (arith, r.after) in
    record {
      placed = map-append place rs ts ∙ rw (r.placed, q.placed) refl;
      numbered =
          map-append (λ r. r.sequence) rs ts
          ∙ rw (both, r.numbered, q.numbered, next)
              (sym (upto-append (suc n) (length rs) (length ts)));
      after = omega (arith, r.after, q.after, both);
      owned = All-append _ rs ts r.owned q.owned;
    }

mutual
  unfolding size preorder

  length-preorder :
      (i : ℕ) (parent : ℤ) (c : InternalTransaction) → length (preorder i parent c) ≡ size c
  length-preorder i parent (call c calls) = ap suc (length-preorder_nested (i + 1) i calls)

  length-preorder_nested :
      (i parent : ℕ) (calls : InternalTransactions)
      → length (preorder_nested i parent calls) ≡ size_nested calls
  length-preorder_nested i parent nil = refl
  length-preorder_nested i parent (cons c calls) =
      length-append (preorder i (pos parent) c) (preorder_nested (i + size c) parent calls)
      ∙ rw (length-preorder i (pos parent) c, length-preorder_nested (i + size c) parent calls) refl

pub next_sequence : (n : ℕ) → n + 1 ≡ suc n
next_sequence n = omega arith

module _ {S : Type 0} (bech32 : Text → Option (List ℕ)) (to_string : List ℕ → Text)
    (get_or_create_account_ids : S → List Text → Option ((Text → Option ℕ) × S)) where
  collect_call-Run :
      (tx : InternalTxInfo) (c : EvmInternalTx) (s : State S)
      → Holds
          (λ (r, t).
            Run tx.height tx.hash_id s.sequence
              ((tx.index, tx.parent_index, c.call_type) ∷ [])
              (r ∷ [], t))
          (collect_call bech32 to_string get_or_create_account_ids tx c s)
  unfolding collect_call
  collect_call-Run tx c s =
      Holds-bind_any _
        (grep_addresses_from_evm_internal_tx bech32 to_string get_or_create_account_ids c) _
        (λ accounts. Holds-bind_any _ (get_or_create_account_ids s.store accounts) _ (λ found.
          Holds-bind_any _ (account_id bech32 to_string get_or_create_account_ids found.0 c.from) _
            (λ from_id.
              Holds-bind_any _ (account_id bech32 to_string get_or_create_account_ids found.0 c.to)
                _
                (λ to_id. Holds-bind_any _ (hex_to_bytes c.input) _ (λ input.
                  Holds-bind_any _ (hex_to_bytes c.output) _ (λ output.
                    Holds-bind_any _ (hex_to_bytes c.value) _ (λ value.
                      Holds-bind_any _ (hex_to_bytes c.gas) _ (λ gas.
                        Holds-bind_any _ (hex_to_bytes c.gas_used) _ (λ gas_used.
                          Holds-some _ (record {
                            placed = refl;
                            numbered = ap (λ k. k ∷ []) (next_sequence s.sequence);
                            after = refl;
                            owned = ((refl, refl), tt);
                          }))))))))))

  length-Run :
      {height hash_id n : ℕ} (i : ℕ) (parent : ℤ) (c : InternalTransaction)
      {rs : List CollectedEvmInternalTx} {t : State S}
      → Run height hash_id n (preorder i parent c) (rs, t)
      → length rs ≡ size c
  length-Run i parent c {rs = rs} r =
      sym (length-map rs place) ∙ ap length r.placed ∙ length-preorder i parent c

  mutual
    unfolding process_internal_call preorder

    process-Run :
        (tx : InternalTxInfo) (c : InternalTransaction) (s : State S)
        → Holds
            (Run tx.height tx.hash_id s.sequence (preorder tx.index tx.parent_index c))
            (process_internal_call bech32 to_string get_or_create_account_ids tx c s)
    process-Run tx (call c calls) s =
        Holds-bind _ _ _ _ (collect_call-Run tx c s) (λ (internal_tx, t) first.
          Holds-bind _ _ _ _ (process_nested-Run tx (tx.index + 1) calls t)
            (λ (nested_results, u) rest. Holds-some _ (Run-append first rest)))

    process_nested-Run :
        (tx : InternalTxInfo) (next_index : ℕ) (calls : InternalTransactions) (s : State S)
        → Holds
            (Run tx.height tx.hash_id s.sequence (preorder_nested next_index tx.index calls))
            (process_nested bech32 to_string get_or_create_account_ids tx next_index calls s)
    process_nested-Run tx next_index nil s =
        Holds-some _ (record { placed = refl; numbered = refl; after = omega arith; owned = tt })
    process_nested-Run tx next_index (cons c calls) s =
        Holds-bind _ _ _ _
          (process-Run (record tx { index = next_index; parent_index = pos tx.index }) c s)
          (λ (results, t) first.
            Holds-bind _ _ _ _ (process_nested-Run tx (next_index + length results) calls t)
              (λ (rest, u) others. Holds-some _ (
                Run-append first (
                  subst
                    (λ k.
                      Run tx.height tx.hash_id t.sequence
                        (preorder_nested (next_index + k) tx.index calls) (rest, u))
                    (length-Run next_index (pos tx.index) c first) others))))

  -- When the tree of a call is processed without an error, there is one row for each call, in
  -- preorder, with its own index and its caller's, at the height and with the hash of the
  -- transaction; the rows take the next sequences, one after the other, and the counter stands at
  -- the last of them.
  pub process_internal_call-Run :
      (tx : InternalTxInfo) (c : InternalTransaction) (s : State S)
      → Holds
          (Run tx.height tx.hash_id s.sequence (preorder tx.index tx.parent_index c))
          (process_internal_call bech32 to_string get_or_create_account_ids tx c s)
  process_internal_call-Run = process-Run
