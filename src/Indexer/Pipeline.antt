-- ===== src/Indexer/Pipeline.antt =====
-- indexer/indexer.go: the state of the indexer and the steps of its goroutines.
-- `block_chan` is the buffered channel from the scraper, `preparing` the blocks of the running
-- prepare goroutines, and `collecting` the block between its removal from the map and the end of
-- `collector.Collect`. `collected` and `signals` record, oldest first, the blocks given to
-- `collector.Collect` with success and the signals sent to the scraper.
pub mod Order
pub mod Backpressure
use rollytics.Prelude.{
  ℕ, suc, ◌+◌, ◌-◌, ◌<◌, ◌≡◌, Bool, true, false, not, ◌&&◌, List, [], ◌∷◌, ◌++◌, Option, none, some,
  ltb, if◌then◌else◌, length, ℕ_discrete, get_elem?,
}
use rollytics.Prelude.GoMap.{get, put, delete}
use rollytics.Types.{ScrapedBlock}

abbrev pub max_inflight_blocks : ℕ
max_inflight_blocks = 100

abbrev pub min_inflight_blocks : ℕ
min_inflight_blocks = 50

pub data Signal : Type 0 where
  pause start : Signal

pub record Indexer : Type 0 where
  pub height : ℕ
  pub block_map : List (ℕ × ScrapedBlock)
  pub block_chan : List ScrapedBlock
  pub prepare_count : ℕ
  pub preparing : List ScrapedBlock
  pub collecting : Option ScrapedBlock
  pub paused : Bool
  pub collected : List ScrapedBlock
  pub signals : List Signal

unfoldable pub init : ℕ → Indexer
init height = record {
  height = height;
  block_map = [];
  block_chan = [];
  prepare_count = 0;
  preparing = [];
  collecting = none;
  paused = false;
  collected = [];
  signals = [];
}

-- The list without the element at an index.
unfoldable pub remove_at {ℓ} : {A : Type ℓ} → ℕ → List A → List A
remove_at i [] = []
remove_at ℕ.zero (x ∷ xs) = xs
remove_at (suc i) (x ∷ xs) = x ∷ remove_at i xs

-- One receive in `prepare()`: a block below the height is dropped, any other gets a goroutine.
unfoldable pub receive : ScrapedBlock → List ScrapedBlock → Indexer → Indexer
receive block rest s =
    if ltb block.height s.height then record s { block_chan = rest } else record s {
      block_chan = rest;
      prepare_count = s.prepare_count + 1;
      preparing = s.preparing ++ block ∷ [];
    }

-- The end of a prepare goroutine: with success, or because the context is cancelled.
unfoldable pub prepared : ℕ → ScrapedBlock → Indexer → Indexer
unfolding remove_at
prepared i b s = record s {
  block_map = put ℕ_discrete b.height b s.block_map;
  prepare_count = s.prepare_count - 1;
  preparing = remove_at i s.preparing;
}

unfoldable pub decrement_prepare_count : ℕ → Indexer → Indexer
unfolding remove_at
decrement_prepare_count i s = record s {
  prepare_count = s.prepare_count - 1;
  preparing = remove_at i s.preparing;
}

-- The `switch` of `collect()`, on the number of blocks in flight.
unfoldable pub control : Indexer → Indexer
control s =
    let inflight_count = length s.block_map + s.prepare_count in
    if ltb max_inflight_blocks inflight_count && not s.paused
    then record s { paused = true; signals = s.signals ++ pause ∷ [] }
    else if ltb inflight_count min_inflight_blocks && s.paused
    then record s { paused = false; signals = s.signals ++ start ∷ [] }
    else s

-- The locked section of `collect()`.
unfoldable pub take_block : Indexer → Indexer
unfolding control
take_block s =
    let t = control s in
    record t {
      collecting = get ℕ_discrete t.height t.block_map;
      block_map = delete ℕ_discrete t.height t.block_map;
    }

-- `collector.Collect` has returned with no error.
unfoldable pub finish : ScrapedBlock → Indexer → Indexer
finish block s = record s {
  collecting = none;
  collected = s.collected ++ block ∷ [];
  height = s.height + 1;
}

-- The steps. `scrape` is the scraper's send, which waits while the channel is full; a prepare that
-- times out is tried again and changes nothing here, and an error of `Collect` ends the process.
pub data Step : Indexer → Indexer → Type 0 where
  scrape :
      {s : Indexer} (b : ScrapedBlock)
      → length s.block_chan < max_inflight_blocks
      → Step s (record s { block_chan = s.block_chan ++ b ∷ [] })
  receives :
      {s : Indexer} (b : ScrapedBlock) (rest : List ScrapedBlock)
      → s.block_chan ≡ b ∷ rest
      → Step s (receive b rest s)
  prepares :
      {s : Indexer} (i : ℕ) (b : ScrapedBlock)
      → get_elem? s.preparing i ≡ some b
      → Step s (prepared i b s)
  cancels :
      {s : Indexer} (i : ℕ) (b : ScrapedBlock)
      → get_elem? s.preparing i ≡ some b
      → Step s (decrement_prepare_count i s)
  takes : {s : Indexer} → s.collecting ≡ none → Step s (take_block s)
  finishes : {s : Indexer} (b : ScrapedBlock) → s.collecting ≡ some b → Step s (finish b s)

pub data Reach (s : Indexer) : Indexer → Type 0 where
  here : Reach s s
  next : {t u : Indexer} → Reach s t → Step t u → Reach s u
