-- ===== src/Scraper/SlowSync.antt =====
-- indexer/scraper/sync.go: `slowSync`, one batch of five heights a round.
-- A round is given by the order in which its goroutines end and by which of them succeed. The rounds
-- are those before the context ends: a round that it cuts short may leave a block unsent, and is the
-- last one. A node answers with the block of the height that was asked for.
mod Sorting
pub mod Coverage
use rollytics.Prelude.{
  ℕ, ◌+◌, Bool, true, false, List, [], ◌∷◌, ◌++◌, map, Option, none, some, leb, if◌then◌else◌,
}

abbrev pub batch_scrap_size : ℕ
batch_scrap_size = 5

-- `ScrapResult`; `ok` is `Err == nil`.
pub record ScrapResult : Type 0 where
  pub height : ℕ
  pub ok : Bool

-- `sort.Slice` by height, by insertion: the heights of a round differ, so every sort agrees.
unfoldable pub insert_result : ScrapResult → List ScrapResult → List ScrapResult
insert_result r [] = r ∷ []
insert_result r (x ∷ xs) = if leb r.height x.height then r ∷ x ∷ xs else x ∷ insert_result r xs

unfoldable pub sort_results : List ScrapResult → List ScrapResult
unfolding insert_result
sort_results [] = []
sort_results (r ∷ rs) = insert_result r (sort_results rs)

-- The loop for `errorHeight`, which is -1 while no error is found.
unfoldable pub error_height : List ScrapResult → Option ℕ
error_height [] = none
error_height (r ∷ rs) = if r.ok then error_height rs else some r.height

unfoldable pub update_height : ℕ → List ScrapResult → ℕ
unfolding error_height sort_results
update_height height results = elim (error_height (sort_results results)) [
  | none ↦ height + batch_scrap_size
  | some e ↦ e
]

-- One round at the height `height`: what is sent to the channel, and the next height.
unfoldable pub sent_heights : (ℕ → Bool) → List ℕ → List ℕ
sent_heights scraped [] = []
sent_heights scraped (h ∷ hs) =
    if scraped h then h ∷ sent_heights scraped hs else sent_heights scraped hs

unfoldable pub round : (ℕ → Bool) → List ℕ → ℕ → List ℕ × ℕ
unfolding sent_heights update_height
round scraped order height = (
  sent_heights scraped order,
  update_height height (map (λ h. record { height = h; ok = scraped h }) order),
)

-- The rounds of `slowSync` from a height, with all that they send.
unfoldable pub slow_sync : List ((ℕ → Bool) × List ℕ) → ℕ → List ℕ × ℕ
unfolding round
slow_sync [] height = ([], height)
slow_sync ((scraped, order) ∷ rounds) height =
    let (sent, next) = round scraped order height in
    let (sent', last) = slow_sync rounds next in (sent ++ sent', last)
