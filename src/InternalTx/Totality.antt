-- ===== src/InternalTx/Totality.antt =====
-- indexer/extension/internaltx: which traces of a block are collected without an error.
use rollytics.Prelude.{
  ℕ, ◌+◌, ◌≡◌, refl, ap, ◌∙◌, Bool, true, false, ◌&&◌, ◌||◌, List, [], ◌∷◌, Option, none, some,
  ◌>>=◌, ltb, length, Bool-cases, inl, inr,
}
use rollytics.Prelude.Int.{pos, negsuc}
use rollytics.Text.{Text, codes, trim_prefix, to_lower}
use rollytics.Address.{acc_address_from_string, hex_to_bytes}
use rollytics.InternalTx.{
  EvmInternalTx, InternalTransaction, call, InternalTransactions, nil, cons, InternalTxInfo, State,
  TransactionTrace, address_keys, address_texts, grep_addresses_from_evm_internal_tx, account_id,
  collect_call, process_internal_call, process_nested, collect_internal_txs,
}

abbrev pub is_some {ℓ} : {A : Type ℓ} → Option A → Bool
is_some none = false
is_some (some a) = true

abbrev pub is_hex : Text → Bool
is_hex s = is_some (hex_to_bytes s)

-- A chain has a result if its first part has one and the rest has, whatever the first part gives.
is_some-bind {ℓ κ} :
    {A : Type ℓ} {B : Type κ} {p b : Bool} (o : Option A) (f : A → Option B)
    → is_some o ≡ p
    → ((a : A) → is_some (f a) ≡ b)
    → is_some (o >>= f) ≡ (p && b)
is_some-bind {b = b} none f h k = ap (λ p. p && b) h
is_some-bind {b = b} (some a) f h k = k a ∙ ap (λ p. p && b) h

is_some-last {ℓ κ} :
    {A : Type ℓ} {B : Type κ} {p : Bool} (o : Option A) (f : A → Option B)
    → is_some o ≡ p
    → ((a : A) → is_some (f a) ≡ true)
    → is_some (o >>= f) ≡ p
is_some-last none f h k = h
is_some-last (some a) f h k = k a ∙ h

and_assoc : (a b c : Bool) → (a && (b && c)) ≡ ((a && b) && c)
and_assoc true b c = refl
and_assoc false b c = refl

module _ (bech32 : Text → Option (List ℕ)) where
  abbrev pub is_address : Text → Bool
  is_address s = is_some (acc_address_from_string bech32 s)

  -- The sender or the receiver, which may be empty.
  abbrev pub is_party : Text → Bool
  is_party [] = true
  is_party (c ∷ s) = is_address (c ∷ s)

  unfoldable pub are_addresses : List Text → Bool
  are_addresses [] = true
  are_addresses (key ∷ keys) = is_address key && are_addresses keys

  -- The texts of one call: its address keys, its parties and five hexadecimal numbers.
  unfoldable pub is_readable : EvmInternalTx → Bool
  unfolding are_addresses
  is_readable c =
      are_addresses (address_keys c)
      && (is_party c.from
          && (is_party c.to
              && (is_hex c.input
                  && (is_hex c.output && (is_hex c.value && (is_hex c.gas && is_hex c.gas_used))))))

  unfoldable mutual
    unfolding is_readable

    pub all_readable : InternalTransaction → Bool
    all_readable (call c calls) = is_readable c && nested_readable calls

    pub nested_readable : InternalTransactions → Bool
    nested_readable nil = true
    nested_readable (cons c calls) = all_readable c && nested_readable calls

  -- A failed transaction is skipped; another one has a known hash and readable calls. The output of
  -- the call on top is not read.
  unfoldable pub are_collectable : (Text → Option ℕ) → List TransactionTrace → Bool
  unfolding all_readable
  are_collectable hash_ids [] = true
  are_collectable hash_ids (trace ∷ traces) =
      (ltb 0 (length trace.error)
        || (is_some (hash_ids (to_lower (trim_prefix trace.tx_hash (codes "0x"))))
            && all_readable (call (record trace.result { output = [] }) trace.calls)))
      && are_collectable hash_ids traces

module _ {S : Type 0} (bech32 : Text → Option (List ℕ)) (to_string : List ℕ → Text)
    (get_or_create_account_ids : S → List Text → Option ((Text → Option ℕ) × S))
    (answers : (s : S) (accounts : List Text)
      → is_some (get_or_create_account_ids s accounts) ≡ true) where
  address_texts-is_some :
      (keys : List Text)
      → is_some (address_texts bech32 to_string get_or_create_account_ids keys)
        ≡ are_addresses bech32 keys
  unfolding address_texts are_addresses
  address_texts-is_some [] = refl
  address_texts-is_some (key ∷ keys) =
      is_some-bind _ _ refl
        (λ addr. is_some-last _ _ (address_texts-is_some keys) (λ grepped. refl))

  account_id-is_some :
      (ids : Text → Option ℕ) (s : Text)
      → is_some (account_id bech32 to_string get_or_create_account_ids ids s) ≡ is_party bech32 s
  unfolding account_id
  account_id-is_some ids [] = refl
  account_id-is_some ids (c ∷ s) =
      is_some-last (acc_address_from_string bech32 (c ∷ s)) _ refl (λ addr. refl)

  collect_call-is_some :
      (tx : InternalTxInfo) (c : EvmInternalTx) (s : State S)
      → is_some (collect_call bech32 to_string get_or_create_account_ids tx c s)
        ≡ is_readable bech32 c
  unfolding collect_call grep_addresses_from_evm_internal_tx is_readable
  collect_call-is_some tx c s =
      is_some-bind _ _ (address_texts-is_some (address_keys c)) (λ accounts.
        is_some-bind _ _ (answers s.store accounts) (λ found.
          is_some-bind _ _ (account_id-is_some found.0 c.from) (λ from_id.
            is_some-bind _ _ (account_id-is_some found.0 c.to) (λ to_id.
              is_some-bind (hex_to_bytes c.input) _ refl (λ input.
                is_some-bind (hex_to_bytes c.output) _ refl (λ output.
                  is_some-bind (hex_to_bytes c.value) _ refl (λ value.
                    is_some-bind (hex_to_bytes c.gas) _ refl (λ gas.
                      is_some-last (hex_to_bytes c.gas_used) _ refl (λ gas_used. refl)))))))))

  mutual
    unfolding process_internal_call all_readable

    process-is_some :
        (tx : InternalTxInfo) (c : InternalTransaction) (s : State S)
        → is_some (process_internal_call bech32 to_string get_or_create_account_ids tx c s)
          ≡ all_readable bech32 c
    process-is_some tx (call c calls) s =
        is_some-bind _ _ (collect_call-is_some tx c s) (λ (internal_tx, t).
          is_some-last _ _ (process_nested-is_some tx (tx.index + 1) calls t) (λ rest. refl))

    process_nested-is_some :
        (tx : InternalTxInfo) (next_index : ℕ) (calls : InternalTransactions) (s : State S)
        → is_some (process_nested bech32 to_string get_or_create_account_ids tx next_index calls s)
          ≡ nested_readable bech32 calls
    process_nested-is_some tx next_index nil s = refl
    process_nested-is_some tx next_index (cons c calls) s =
        is_some-bind _ _
          (process-is_some (record tx { index = next_index; parent_index = pos tx.index }) c s)
          (λ (results, t).
            is_some-last _ _ (process_nested-is_some tx (next_index + length results) calls t)
              (λ rest. refl))

  -- When the dictionary answers every time, the loop over the traces of a block ends without an
  -- error exactly if each trace is one of a failed transaction, or its hash has an id and every call
  -- in its tree can be read: the address keys and the parties that are not empty are addresses, and
  -- the five numbers are hexadecimal; the output of the call on top is left out. One trace that is
  -- neither fails the block.
  pub collect_internal_txs-is_some :
      (height : ℕ) (hash_ids : Text → Option ℕ) (traces : List TransactionTrace) (s : State S)
      → is_some
          (collect_internal_txs bech32 to_string get_or_create_account_ids height hash_ids traces s)
        ≡ are_collectable bech32 hash_ids traces
  unfolding collect_internal_txs are_collectable
  collect_internal_txs-is_some height hash_ids [] s = refl
  collect_internal_txs-is_some height hash_ids (trace ∷ traces) s =
      let hash = hash_ids (to_lower (trim_prefix trace.tx_hash (codes "0x"))) in
      let top = call (record trace.result { output = [] }) trace.calls in
      let rest = are_collectable bech32 hash_ids traces in
      elim (Bool-cases (ltb 0 (length trace.error))) [
        | inl failed ↦
            rw (failed, collect_internal_txs, are_collectable)
              (collect_internal_txs-is_some height hash_ids traces s)
        | inr fine ↦
            rw (fine, collect_internal_txs, are_collectable)
              (is_some-bind {b = all_readable bech32 top && rest} hash _ refl (λ hash_id.
                  is_some-bind {b = rest} _ _
                    (process-is_some
                      (record {
                        height = height;
                        hash_id = hash_id;
                        index = 0;
                        parent_index = negsuc 0;
                      })
                      top s)
                    (λ (results, t).
                      is_some-last _ _ (collect_internal_txs-is_some height hash_ids traces t)
                        (λ others. refl)))
                ∙ and_assoc (is_some hash) (all_readable bech32 top) rest)
      ]
