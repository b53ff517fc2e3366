-- ===== src/Tests/Traces.antt =====
-- indexer/extension/internaltx: a call that makes another call.
use rollytics.Prelude.{
  contains, ℕ, suc, ◌+◌, ◌≡◌, refl, List, [], ◌∷◌, map, Option, none, some, true, arith, length,
  upto, All, Holds, count, if◌then◌else◌,
}
use rollytics.Prelude.Int.{negsuc}
use rollytics.Text.{Text, codes, has_prefix, trim_prefix, trim_left, to_lower, lower, pad_zeros}
use rollytics.Address.{acc_address_from_string, address_of_hex, hex_to_bytes}
use rollytics.Address.Hex.{decode_string, digit_value, join_digits}
use rollytics.InternalTx.{
  EvmInternalTx, InternalTransaction, call, nil, cons, InternalTxInfo, State, TransactionTrace,
  process_internal_call, collect_internal_txs, new_edges, address_keys, party_keys, add_arguments,
  add_key, text_eq,
}
use rollytics.InternalTx.Traversal.{
  Run, preorder, size, sequences, place, process_internal_call-Run,
}
use rollytics.InternalTx.Totality.{
  is_some, are_addresses, is_readable, all_readable, are_collectable, collect_internal_txs-is_some,
}
use rollytics.InternalTx.Rows.{
  IsPlace, process_internal_call-IsPlace, collect_internal_txs-sequences, address_keys-hex,
}
use rollytics.InternalTx.Edges.{new_edges-once}

abbrev no_bech32 : Text → Option (List ℕ)
no_bech32 s = none

abbrev as_text : List ℕ → Text
as_text addr = addr

-- A dictionary in which every account has the id 1.
abbrev ids : ℕ → List Text → Option ((Text → Option ℕ) × ℕ)
ids s accounts = some ((λ a. some 1), s + 1)

abbrev fields : EvmInternalTx
fields = record {
  call_type = codes "CALL";
  from = codes "0x1";
  to = [];
  gas = codes "0x5208";
  gas_used = codes "0x0";
  value = codes "0x0";
  input = codes "0xa9059cbb00";
  output = [];
}

abbrev tree : InternalTransaction
tree = call fields (cons (call fields nil) nil)

abbrev info : InternalTxInfo
info = record { height = 7; hash_id = 3; index = 0; parent_index = negsuc 0 }

abbrev first : State ℕ
first = record { sequence = 40; edges = []; store = 0 }

process_internal_call-Run_example :
    Holds
      (Run 7 3 40 (preorder 0 (negsuc 0) tree))
      (process_internal_call no_bech32 as_text ids info tree first)
process_internal_call-Run_example = process_internal_call-Run no_bech32 as_text ids info tree first

process_internal_call-IsPlace_example :
    Holds
      (λ (rows, t).
        (map (λ r. r.index) rows ≡ upto 0 (size tree))
        × All (λ r. IsPlace 0 (negsuc 0) (place r)) rows)
      (process_internal_call no_bech32 as_text ids info tree first)
process_internal_call-IsPlace_example =
    process_internal_call-IsPlace no_bech32 as_text ids info tree first

abbrev traces : List TransactionTrace
traces =
    record {
      tx_hash = codes "0xAB";
      error = [];
      result = fields;
      calls = cons (call fields nil) nil;
    }
    ∷ record { tx_hash = codes "0xCD"; error = codes "reverted"; result = fields; calls = nil }
    ∷ record { tx_hash = codes "0xEF"; error = []; result = fields; calls = nil }
    ∷ []

collect_internal_txs-sequences_example :
    Holds
      (λ (rows, t).
        (sequences rows ≡ upto (suc 40) (length rows))
        × (t.sequence ≡ 40 + length rows)
        × All (λ r. r.height ≡ 7) rows)
      (collect_internal_txs no_bech32 as_text ids 7 (λ hash. some 3) traces first)
collect_internal_txs-sequences_example =
    collect_internal_txs-sequences no_bech32 as_text ids 7 (λ hash. some 3) traces first

collect_internal_txs-is_some_example :
    is_some (collect_internal_txs no_bech32 as_text ids 7 (λ hash. some 3) traces first)
    ≡ are_collectable no_bech32 (λ hash. some 3) traces
collect_internal_txs-is_some_example =
    collect_internal_txs-is_some no_bech32 as_text ids (λ s accounts. refl) 7 (λ hash. some 3)
      traces first

traces-collectable : are_collectable no_bech32 (λ hash. some 3) traces ≡ true
unfolding are_collectable all_readable is_readable are_addresses address_keys party_keys
    add_arguments add_key text_eq acc_address_from_string address_of_hex hex_to_bytes has_prefix
    trim_prefix trim_left to_lower lower pad_zeros decode_string digit_value join_digits
traces-collectable = refl

new_edges-once_example :
    (count 5 (map (λ e. e.0) (new_edges 41 [] (5 ∷ 6 ∷ 5 ∷ [])))
      ≡ (if contains 5 (5 ∷ 6 ∷ 5 ∷ []) then 1 else 0))
    × All (λ e. e.1 ≡ 41) (new_edges 41 [] (5 ∷ 6 ∷ 5 ∷ []))
new_edges-once_example = new_edges-once 41 (5 ∷ 6 ∷ 5 ∷ []) 5

-- A transfer to the address 0x…01, as the ABI encodes it.
abbrev transfer : EvmInternalTx
transfer = record fields {
  input = codes "0xa9059cbb0000000000000000000000000000000000000000000000000000000000000001";
}

address_keys-hex_example : address_keys transfer ≡ address_keys (record transfer { input = [] })
address_keys-hex_example = address_keys-hex transfer (ground arith)
