-- ===== src/Tests/Tokens.antt =====
-- indexer/collector/wasm-nft/collect.go: a block that mints two tokens, moves one and burns the other.
use mathlib.Core.Option
use mathlib.Core.Logic.{if_pos, if_neg}
use rollytics.Prelude.{
  Holds, ℕ, ◌≡◌, refl, ap, List, [], ◌∷◌, map, none, some, All, All-imp, arith, length, replicate,
  ℕ_discrete, ◌&&◌, not, ◌==◌, if◌then◌else◌,
}
use rollytics.Prelude.GoMap.{get}
use rollytics.Text.{Text, codes, text_discrete}
use rollytics.Types.{Attribute, Event, ScrapedBlock}
use rollytics.Events.{parse_events}
use rollytics.Address.{acc_address_from_string, bytes_to_hex_with_prefix}
use rollytics.Nft.Changes.{mint, transfer, burn, Changes, apply, no_changes}
use rollytics.Nft.Ledger.{Ledger, play, operations}
use rollytics.Nft.Services.{Services, block_events}
use rollytics.Nft.Pair.{Packets, collection_pairs}
use rollytics.Nft.Wasm.{Minted, CollectionInfo, Db, readings, write_nfts, collect}
use rollytics.Nft.Wasm.Writes.{row_of}
use rollytics.Nft.Tables.{RowKey-discrete, CollectedNft, count_nfts, id_or_zero}
use rollytics.Nft.Counts.{count_of, any_supply}
use rollytics.Nft.Wasm.Answers.{IsReadable, IsServed, IsCollectable}
use rollytics.Nft.Wasm.Stages.{Change, key_at}
use rollytics.Nft.Wasm.Refinement.{AllowedBlock, replay_block, collect-refines}
use rollytics.Nft.Wasm.Counting.{collect-counts}

abbrev services : Services
services = record {
  bech32 = λ s. none;
  address_text = λ bs. bs;
  decode = λ t. some t;
  tx_hash = λ t. codes "AB";
  account_ids = λ asked. some (map (λ a. (a, length a)) asked);
  nft_ids = λ keys. some (map (λ k. (k, 1)) keys);
  sequence = λ hash height. some 9;
}

known_accounts :
    (asked : List Text)
    → All (λ a. get text_discrete a (map (λ b. (b, length b)) asked) ≡ some (length a)) asked
unfolding get
known_accounts [] = tt
known_accounts (x ∷ xs) = (
  if_pos (text_discrete x x) refl _ _,
  All-imp xs
      (λ a e. elim (text_discrete x a) [
        | yes same ↦ rw (if_pos _ same) (ap (λ b. some (length b)) same)
        | no other ↦ rw (if_neg _ other) e
      ])
      (known_accounts xs),
)

served : IsServed services 5 length
served = record {
  accounts = λ asked. (_, refl, known_accounts asked);
  nfts = λ keys. (_, refl);
  sequences = λ hash. (_, refl);
}

abbrev packets : Packets
packets = record {
  packet_data = λ t. none;
  base64 = λ t. none;
  class_name = λ t. none;
  l2_name = λ port channel class. class;
}

abbrev contract : List ℕ
contract = replicate 20 17

abbrev attribute : Text → Text → Attribute
attribute key value = record { key = key; value = value }

abbrev wasm_event : List Attribute → Event
wasm_event attributes = record {
  event_type = codes "wasm";
  attributes =
      attribute (codes "_contract_address") (codes "0x1111111111111111111111111111111111111111")
      ∷ attributes;
}

abbrev token : Text → Attribute
token = attribute (codes "token_id")

abbrev action : Text → Attribute
action = attribute (codes "action")

abbrev nft_events : List Event
nft_events =
    wasm_event
      (action (codes "mint") ∷ token (codes "1") ∷ attribute (codes "owner") (codes "al") ∷ [])
    ∷ wasm_event
        (action (codes "mint") ∷ token (codes "2") ∷ attribute (codes "owner") (codes "al") ∷ [])
    ∷ wasm_event (
        action (codes "send_nft")
        ∷ token (codes "1")
        ∷ attribute (codes "recipient") (codes "bob")
        ∷ [])
    ∷ wasm_event (action (codes "burn") ∷ token (codes "2") ∷ [])
    ∷ []

abbrev nft_block : ScrapedBlock
nft_block = record {
  chain_id = [];
  height = 5;
  timestamp = 7;
  hash = [];
  proposer = [];
  txs = codes "tx" ∷ [];
  tx_results = record { gas_wanted = 1; gas_used = 1; events = nft_events } ∷ [];
  pre_block = [];
  begin_block = [];
  end_block = [];
}

abbrev changes : List Change
changes =
    (codes "AB", mint (key_at contract (codes "1")) (record { owner = codes "al"; uri = [] }))
    ∷ (codes "AB", mint (key_at contract (codes "2")) (record { owner = codes "al"; uri = [] }))
    ∷ (codes "AB", transfer (key_at contract (codes "1")) (codes "bob"))
    ∷ (codes "AB", burn (key_at contract (codes "2")))
    ∷ []

abbrev col_infos : List (Text × CollectionInfo)
col_infos =
    (
      codes "0x1111111111111111111111111111111111111111",
      record { name = codes "n"; creator = codes "c" },
    )
    ∷ []

abbrev empty_db : Db
empty_db = record { nfts = []; collections = []; tx_nfts = [] }

readable : (token_id : Text) → IsReadable services (key_at contract token_id)
unfolding acc_address_from_string bytes_to_hex_with_prefix ℕ_discrete
readable token_id = record { addr = contract; text = refl; bytes = omega arith; back = refl }

collectable : IsCollectable services packets nft_block length col_infos changes
unfolding block_events parse_events readings operations collection_pairs acc_address_from_string
    bytes_to_hex_with_prefix ℕ_discrete
collectable = record {
  served = served;
  pairs = ([], refl, ([], refl));
  infos_read = ((contract, refl), tt);
  events = parse_events nft_events (codes "AB") (codes "wasm");
  extracted = refl;
  read = refl;
  readable = (
    readable (codes "1"),
    (readable (codes "2"), (readable (codes "1"), (readable (codes "2"), tt))),
  );
}

abbrev no_tokens : Ledger
no_tokens key = none

allowed : AllowedBlock nft_block changes no_tokens
unfolding play ℕ_discrete bytes_to_hex_with_prefix
allowed = (refl, (refl, ((_, refl), ((_, refl), tt))))

collect-refines_example :
    (db' : Db) × (collect services packets nft_block (some col_infos) empty_db ≡ some db')
    × (get RowKey-discrete (contract, codes "1") db'.nfts
        ≡ Option.map
            (row_of length)
            (replay_block nft_block changes no_tokens (key_at contract (codes "1"))))
unfolding acc_address_from_string bytes_to_hex_with_prefix get ℕ_discrete
collect-refines_example =
    collect-refines services packets nft_block length col_infos changes empty_db no_tokens contract
      (codes "1") collectable allowed refl ((λ e. refl), ((λ e. refl), (tt, (tt, tt)))) refl

collect-counts_example :
    (db' : Db) × (collect services packets nft_block (some col_infos) empty_db ≡ some db')
    × Holds
        (λ row. row.nft_count ≡ (
          if any_supply (bytes_to_hex_with_prefix contract) changes
            && not (count_nfts contract db'.nfts == 0)
          then count_nfts contract db'.nfts
          else id_or_zero (count_of (get text_discrete contract empty_db.collections))))
        (get text_discrete contract db'.collections)
unfolding acc_address_from_string bytes_to_hex_with_prefix ℕ_discrete
collect-counts_example =
    collect-counts services packets nft_block length col_infos changes empty_db contract collectable
      refl (omega arith)

-- A token that is burnt and minted again in one block keeps the row that it had.
abbrev reminted : Changes Minted
reminted =
    apply [] (mint (key_at contract (codes "1")) (record { owner = codes "al"; uri = codes "new" }))
      (apply [] (burn (key_at contract (codes "1"))) no_changes)

abbrev old_row : CollectedNft
old_row = record { addr = []; height = 1; timestamp = 1; owner_id = 3; uri = codes "old" }

remint_keeps_row :
    write_nfts services 5 7 ((codes "al", 2) ∷ []) reminted (((contract, codes "1"), old_row) ∷ [])
    ≡ some (((contract, codes "1"), old_row) ∷ [])
unfolding write_nfts apply acc_address_from_string bytes_to_hex_with_prefix ℕ_discrete
remint_keeps_row = refl
