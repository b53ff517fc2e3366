-- ===== src/Events.antt =====
-- indexer/util/event.go: the events of a block of one type, in the order of execution.
-- Parameters are base64, which may fail, and the hash of a transaction as text.
pub mod Extraction
use mathlib.Core.Logic.{ite}
use rollytics.Prelude.{List, [], ◌∷◌, ◌++◌, Option, none, some}
use rollytics.Prelude.GoMap.{put}
use rollytics.Text.{Text, text_discrete}
use rollytics.Types.{Attribute, Event, ExecTxResult, ScrapedBlock, ParsedEvent}

-- The error comes with the events before it; fewer results than transactions are a panic.
pub data Extracted : Type 0 where
  ok : List ParsedEvent → Extracted
  decode_error : List ParsedEvent → Extracted
  index_panic : Extracted

-- The loop over the attributes.
unfoldable pub set_attributes : List Attribute → List (Text × Text) → List (Text × Text)
unfolding put
set_attributes [] m = m
set_attributes (a ∷ attributes) m = set_attributes attributes (put text_discrete a.key a.value m)

unfoldable pub parse_event : Text → Event → ParsedEvent
unfolding set_attributes
parse_event tx_hash event = record {
  tx_hash = tx_hash;
  event = event;
  attr_map = set_attributes event.attributes [];
}

unfoldable pub parse_events : List Event → Text → Text → List ParsedEvent
unfolding parse_event
parse_events [] tx_hash event_type = []
parse_events (event ∷ events) tx_hash event_type =
    ite (text_discrete event.event_type event_type)
      (parse_event tx_hash event ∷ parse_events events tx_hash event_type)
      (parse_events events tx_hash event_type)

module _ (decode : Text → Option Text) (tx_hash : Text → Text) where
  -- The loop over the transactions, with the results from the same index on, and what follows it.
  unfoldable pub extract_txs :
      List Text → List ExecTxResult → Text → List ParsedEvent → List ParsedEvent → Extracted
  unfolding parse_events
  extract_txs [] results event_type events end_events = ok (events ++ end_events)
  extract_txs (tx ∷ txs) results event_type events end_events = elim (decode tx) [
    | none ↦ decode_error events
    | some tx_byte ↦ elim results [
      | [] ↦ index_panic
      | result ∷ rest ↦
          extract_txs txs rest event_type
            (events ++ parse_events result.events (tx_hash tx_byte) event_type) end_events
    ]
  ]

  unfoldable pub extract_events : ScrapedBlock → Text → Extracted
  unfolding extract_txs
  extract_events block event_type =
      extract_txs block.txs block.tx_results event_type
        (parse_events block.pre_block [] event_type ++ parse_events block.begin_block [] event_type)
        (parse_events block.end_block [] event_type)
