-- ===== src/Types.antt =====
-- indexer/types/types.go, and the parts of the CometBFT events that the source reads.
use rollytics.Prelude.{ℕ, List}
use rollytics.Text.{Text}

pub record Attribute : Type 0 where
  pub key : Text
  pub value : Text

pub record Event : Type 0 where
  pub event_type : Text
  pub attributes : List Attribute

pub record ExecTxResult : Type 0 where
  pub gas_wanted : ℕ
  pub gas_used : ℕ
  pub events : List Event

pub record ScrapedBlock : Type 0 where
  pub chain_id : Text
  pub height : ℕ
  pub timestamp : ℕ
  pub hash : Text
  pub proposer : Text
  pub txs : List Text
  pub tx_results : List ExecTxResult
  pub pre_block : List Event
  pub begin_block : List Event
  pub end_block : List Event

-- `ParsedEvent`: the map of the attributes holds the last value of each key.
pub record ParsedEvent : Type 0 where
  pub tx_hash : Text
  pub event : Event
  pub attr_map : List (Text × Text)
