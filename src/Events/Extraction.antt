-- ===== src/Events/Extraction.antt =====
-- indexer/util/event.go: what `ExtractEvents` gives, and the map of the attributes of an event.
use mathlib.Core.Logic.{ite}
use mathlib.Core.List.{append_assoc}
use rollytics.Prelude.{
  ◌≤◌, ◌≡◌, refl, sym, ap, ◌∙◌, List, [], ◌∷◌, ◌++◌, Option, none, some, All, IsSome, arith, length,
}
use rollytics.Prelude.GoMap.{get, put, get-put}
use rollytics.Text.{Text, text_discrete}
use rollytics.Types.{Attribute, Event, ExecTxResult, ScrapedBlock, ParsedEvent}
use rollytics.Events.{ok, set_attributes, parse_event, parse_events, extract_txs, extract_events}

-- The value of the last attribute with a key.
abbrev pub last_value : Text → List Attribute → Option Text → Option Text
last_value key [] found = found
last_value key (a ∷ attributes) found =
    last_value key attributes (ite (text_discrete a.key key) (some a.value) found)

get-set_attributes :
    (key : Text) (attributes : List Attribute) (m : List (Text × Text))
    → get text_discrete key (set_attributes attributes m)
      ≡ last_value key attributes (get text_discrete key m)
unfolding set_attributes
get-set_attributes key [] m = refl
get-set_attributes key (a ∷ attributes) m =
    get-set_attributes key attributes (put text_discrete a.key a.value m)
    ∙ ap (last_value key attributes) (get-put text_discrete a.key key a.value m)

-- The map of an event's attributes has for each key the value of its last attribute with the key,
-- and nothing for any other key.
pub get-parse_event :
    (tx_hash key : Text) (event : Event)
    → get text_discrete key (parse_event tx_hash event).attr_map
      ≡ last_value key event.attributes none
unfolding parse_event get
get-parse_event tx_hash key event = get-set_attributes key event.attributes []

-- The events of one type among events with the hashes of their transactions.
unfoldable pub of_type : Text → List (Text × Event) → List ParsedEvent
of_type event_type [] = []
of_type event_type ((tx_hash, event) ∷ events) =
    ite (text_discrete event.event_type event_type)
      (parse_event tx_hash event ∷ of_type event_type events) (of_type event_type events)

abbrev pub with_hash : Text → List Event → List (Text × Event)
with_hash tx_hash [] = []
with_hash tx_hash (event ∷ events) = (tx_hash, event) ∷ with_hash tx_hash events

ite_append :
    {P : Type 0} (d : Dec P) (x : ParsedEvent) (l r : List ParsedEvent) {whole : List ParsedEvent}
    → whole ≡ l ++ r
    → ite d (x ∷ whole) whole ≡ ite d (x ∷ l) l ++ r
ite_append (yes p) x l r e = ap (◌∷◌ x) e
ite_append (no n) x l r e = e

of_type-append :
    (event_type : Text) (xs ys : List (Text × Event))
    → of_type event_type (xs ++ ys) ≡ of_type event_type xs ++ of_type event_type ys
unfolding of_type
of_type-append event_type [] ys = refl
of_type-append event_type ((h, event) ∷ xs) ys =
    ite_append (text_discrete event.event_type event_type) (parse_event h event)
      (of_type event_type xs) (of_type event_type ys) (of_type-append event_type xs ys)

of_type-with_hash :
    (event_type tx_hash : Text) (events : List Event)
    → of_type event_type (with_hash tx_hash events) ≡ parse_events events tx_hash event_type
unfolding of_type parse_events
of_type-with_hash event_type tx_hash [] = refl
of_type-with_hash event_type tx_hash (event ∷ events) =
    ap (λ l. ite (text_discrete event.event_type event_type) (parse_event tx_hash event ∷ l) l)
      (of_type-with_hash event_type tx_hash events)

module _ (decode : Text → Option Text) (tx_hash : Text → Text) where
  -- A transaction that does not decode has no hash.
  abbrev pub hash_of : Option Text → Text
  hash_of none = []
  hash_of (some tx_byte) = tx_hash tx_byte

  abbrev pub tx_events : List Text → List ExecTxResult → List (Text × Event)
  tx_events [] results = []
  tx_events (tx ∷ txs) [] = []
  tx_events (tx ∷ txs) (result ∷ results) =
      with_hash (hash_of (decode tx)) result.events ++ tx_events txs results

  -- All events of a block in the order of execution.
  abbrev pub block_events : ScrapedBlock → List (Text × Event)
  block_events block =
      (with_hash [] block.pre_block ++ with_hash [] block.begin_block)
      ++ (tx_events block.txs block.tx_results ++ with_hash [] block.end_block)

  step :
      (tx : Text) (txs : List Text) (result : ExecTxResult) (results : List ExecTxResult)
      (event_type : Text) (events end_events : List ParsedEvent) (b : Text)
      → decode tx ≡ some b
      → extract_txs decode tx_hash (tx ∷ txs) (result ∷ results) event_type events end_events
        ≡ extract_txs decode tx_hash txs results event_type
            (events ++ parse_events result.events (tx_hash b) event_type)
            end_events
  unfolding extract_txs
  step tx txs result results event_type events end_events b e = rw (e, extract_txs) refl

  extract_txs_lem :
      (txs : List Text) (results : List ExecTxResult) (event_type : Text)
      (events end_events : List ParsedEvent)
      → All (λ tx. IsSome (decode tx)) txs
      → length txs ≤ length results
      → extract_txs decode tx_hash txs results event_type events end_events
        ≡ ok (events ++ (of_type event_type (tx_events txs results) ++ end_events))
  unfolding extract_txs of_type
  extract_txs_lem [] results event_type events end_events all le = refl
  extract_txs_lem (tx ∷ txs) [] event_type events end_events all le = absurd (omega arith)
  extract_txs_lem (tx ∷ txs) (result ∷ results) event_type events end_events ((b, e), all) le =
      let own = parse_events result.events (tx_hash b) event_type in
      let others = of_type event_type (tx_events txs results) in
      let hash : hash_of (decode tx) ≡ tx_hash b = ap hash_of e in
      let split : of_type event_type
            (with_hash (hash_of (decode tx)) result.events ++ tx_events txs results)
          ≡ own ++ others =
        of_type-append event_type (with_hash (hash_of (decode tx)) result.events)
          (tx_events txs results)
        ∙ ap (λ l. l ++ others)
            (of_type-with_hash event_type (hash_of (decode tx)) result.events
              ∙ ap (λ h. parse_events result.events h event_type) hash) in
      step tx txs result results event_type events end_events b e
      ∙ extract_txs_lem txs results event_type (events ++ own) end_events all (omega arith)
      ∙ ap ok (
          append_assoc events own (others ++ end_events)
          ∙ ap (λ l. events ++ l)
              (sym (append_assoc own others end_events) ∙ ap (λ l. l ++ end_events) (sym split)))

  -- Where every transaction decodes and has a result, the events of a type are those of the whole
  -- block that have the type, in the order of execution: before the block, at its beginning, those
  -- of the transactions in turn, each with the hash of its transaction, and at the end of the block.
  pub extract_events-of_type :
      (block : ScrapedBlock) (event_type : Text)
      → All (λ tx. IsSome (decode tx)) block.txs
      → length block.txs ≤ length block.tx_results
      → extract_events decode tx_hash block event_type
        ≡ ok (of_type event_type (block_events block))
  unfolding extract_events
  extract_events-of_type block event_type all le =
      let first = with_hash [] block.pre_block in
      let second = with_hash [] block.begin_block in
      let middle = tx_events block.txs block.tx_results in
      let last = with_hash [] block.end_block in
      extract_txs_lem block.txs block.tx_results event_type _ _ all le
      ∙ ap ok (
          sym (
            of_type-append event_type (first ++ second) (middle ++ last)
            ∙ rw
                (
                  of_type-append event_type first second,
                  of_type-append event_type middle last,
                  of_type-with_hash event_type [] block.pre_block,
                  of_type-with_hash event_type [] block.begin_block,
                  of_type-with_hash event_type [] block.end_block,
                )
                refl))
