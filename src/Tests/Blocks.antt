-- ===== src/Tests/Blocks.antt =====
-- indexer/util/event.go: a block with one transaction.
use rollytics.Prelude.{◌≡◌, refl, [], ◌∷◌, Option, none, some, arith}
use rollytics.Prelude.GoMap.{get}
use rollytics.Text.{Text, codes, text_discrete}
use rollytics.Types.{Event, ScrapedBlock}
use rollytics.Events.{ok, parse_event, extract_events}
use rollytics.Events.Extraction.{
  last_value, get-parse_event, of_type, block_events, extract_events-of_type,
}

abbrev transfer : Event
transfer = record {
  event_type = codes "move";
  attributes =
      record { key = codes "data"; value = codes "1" }
      ∷ record { key = codes "data"; value = codes "2" }
      ∷ [];
}

abbrev fee : Event
fee = record { event_type = codes "fee"; attributes = [] }

abbrev block : ScrapedBlock
block = record {
  chain_id = [];
  height = 5;
  timestamp = 0;
  hash = [];
  proposer = [];
  txs = codes "tx" ∷ [];
  tx_results = record { gas_wanted = 1; gas_used = 1; events = fee ∷ transfer ∷ [] } ∷ [];
  pre_block = [];
  begin_block = transfer ∷ [];
  end_block = fee ∷ [];
}

abbrev decode : Text → Option Text
decode s = some s

abbrev hash : Text → Text
hash s = s

get-parse_event_example :
    get text_discrete (codes "data") (parse_event [] transfer).attr_map
    ≡ last_value (codes "data") transfer.attributes none
get-parse_event_example = get-parse_event [] (codes "data") transfer

extract_events-of_type_example :
    extract_events decode hash block (codes "move")
    ≡ ok (of_type (codes "move") (block_events decode hash block))
extract_events-of_type_example =
    extract_events-of_type decode hash block (codes "move") ((_, refl), tt) (omega arith)
