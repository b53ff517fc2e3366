-- ===== src/InternalTx/Queue.antt =====
-- indexer/extension/internaltx/extension.go: the work queue between the producer, which asks for the
-- call traces of stored blocks, and the consumer, which writes them to the database.
-- `blocks` are the rows of the block table of the chain, in the order of their heights, each with
-- `tx_count`. `consumed` records, oldest first, each item with whether it was written.
pub mod Heights
pub mod Left
pub mod Order
pub mod Drained
pub mod Progress
use rollytics.Prelude.{
  ℕ, zero, suc, ◌+◌, ◌-◌, ◌<◌, ◌≡◌, min, Bool, true, false, ◌&&◌, List, [], ◌∷◌, ◌++◌, Option, none,
  some, ◌>>=◌, All, ltb, leb, if◌then◌else◌, length, take,
}
use rollytics.InternalTx.{TransactionTrace}

pub record WorkItem : Type 0 where
  pub height : ℕ
  pub call_trace : List TransactionTrace

abbrev pub WorkQueue : Type 0
WorkQueue = List WorkItem

abbrev pub Blocks : Type 0
Blocks = List (ℕ × ℕ)

-- The producer waits, or it pushes the items of a batch whose last height is kept.
pub data Producer : Type 0 where
  waiting : Producer
  pushing : List WorkItem → ℕ → Producer

pub record InternalTxExtension : Type 0 where
  pub last_produced_height : ℕ
  pub work_queue : WorkQueue
  pub producer : Producer
  pub consuming : Option WorkItem
  pub consumed : List (WorkItem × Bool)
  pub blocks : Blocks

-- `Initialize`, with the greatest height of the stored internal transactions, 0 if there is none.
unfoldable pub init : ℕ → Blocks → InternalTxExtension
init last_height blocks = record {
  last_produced_height = last_height;
  work_queue = [];
  producer = waiting;
  consuming = none;
  consumed = [];
  blocks = blocks;
}

unfoldable pub is_not_full : ℕ → WorkQueue → Bool
is_not_full max_size q = ltb (length q) max_size

-- The rows of the query before its limit.
unfoldable pub above : ℕ → Blocks → List ℕ
above last_height [] = []
above last_height ((height, tx_count) ∷ blocks) =
    if ltb last_height height && ltb 0 tx_count
    then height ∷ above last_height blocks
    else above last_height blocks

unfoldable pub get_batch_heights : ℕ → ℕ → InternalTxExtension → List ℕ
unfolding above
get_batch_heights batch_size max_size i =
    let available_space = max_size - length i.work_queue in
    if leb available_space 0
    then []
    else take (min batch_size available_space) (above i.last_produced_height i.blocks)

-- The goroutines of `scrapeBatch`, with the node's answers: one error fails the batch.
unfoldable pub scrape_batch : (ℕ → Option (List TransactionTrace)) → List ℕ → Option (List WorkItem)
scrape_batch answers [] = some []
scrape_batch answers (height ∷ heights) = do
  call_trace ← answers height
  items ← scrape_batch answers heights
  some (record { height = height; call_trace = call_trace } ∷ items)

-- `heights[len(heights)-1]`
unfoldable pub last_of : ℕ → List ℕ → ℕ
last_of h [] = h
last_of h (k ∷ ks) = last_of k ks

unfoldable pub push : WorkItem → InternalTxExtension → InternalTxExtension
push item i = record i { work_queue = i.work_queue ++ item ∷ [] }

-- The steps. An error of the query or of a trace, and a batch without heights, change nothing; a
-- cancelled context ends the extension. `stores` is the indexer, which adds blocks in order.
pub data Step (batch_size max_size : ℕ) : InternalTxExtension → InternalTxExtension → Type 0 where
  stores :
      {i : InternalTxExtension} (height tx_count : ℕ)
      → All (λ b. b.0 < height) i.blocks
      → Step batch_size max_size i (record i { blocks = i.blocks ++ (height, tx_count) ∷ [] })
  produces :
      {i : InternalTxExtension} (answers : ℕ → Option (List TransactionTrace)) (h : ℕ) (hs : List ℕ)
      (items : List WorkItem)
      → i.producer ≡ waiting
      → is_not_full max_size i.work_queue ≡ true
      → get_batch_heights batch_size max_size i ≡ h ∷ hs
      → scrape_batch answers (h ∷ hs) ≡ some items
      → Step batch_size max_size i (record i { producer = pushing items (last_of h hs) })
  pushes :
      {i : InternalTxExtension} (item : WorkItem) (items : List WorkItem) (last : ℕ)
      → i.producer ≡ pushing (item ∷ items) last
      → length i.work_queue < max_size
      → Step batch_size max_size i (record (push item i) { producer = pushing items last })
  finishes :
      {i : InternalTxExtension} (last : ℕ)
      → i.producer ≡ pushing [] last
      → Step batch_size max_size i (record i { producer = waiting; last_produced_height = last })
  pops :
      {i : InternalTxExtension} (item : WorkItem) (rest : WorkQueue)
      → i.consuming ≡ none
      → i.work_queue ≡ item ∷ rest
      → Step batch_size max_size i (record i { consuming = some item; work_queue = rest })
  consumes :
      {i : InternalTxExtension} (item : WorkItem) (written : Bool)
      → i.consuming ≡ some item
      → Step batch_size max_size i
          (record i { consuming = none; consumed = i.consumed ++ (item, written) ∷ [] })

pub data Reach (batch_size max_size : ℕ) (i : InternalTxExtension)
    : InternalTxExtension → Type 0 where
  here : Reach batch_size max_size i i
  next :
      {j k : InternalTxExtension}
      → Reach batch_size max_size i j
      → Step batch_size max_size j k
      → Reach batch_size max_size i k
