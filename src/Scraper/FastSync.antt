-- ===== src/Scraper/FastSync.antt =====
-- indexer/scraper/sync.go: `fastSync`, one goroutine for each height, until the chain's end.
-- Heights are at least 1, so `height - 1` is exact. A goroutine that meets another error tries
-- again and changes nothing. A node answers with the block of the height that was asked for. `sent` and `missed` record the heights whose goroutine ended with the
-- block sent to the channel, and with an error of `reachedLatestHeight`.
pub mod Coverage
use rollytics.Prelude.{
  ℕ, suc, ◌+◌, ◌-◌, ◌<◌, ◌≡◌, Bool, true, false, List, [], ◌∷◌, ◌++◌, Option, none, some, ltb,
  if◌then◌else◌, length, get_elem?,
}
use rollytics.Indexer.Pipeline.{Signal, pause, start, remove_at}

pub data Status : Type 0 where
  running paused stopped : Status

-- The goroutine that reads `controlChan`: what it is about to store, after it has loaded the status.
unfoldable pub on_signal : Signal → Status → Option Status
on_signal pause running = some paused
on_signal start paused = some running
on_signal _ status = none

-- Where the loop stands: before the test of the status, after it with a goroutine to start, or
-- waiting for the goroutines to end.
pub data Position : Type 0 where
  at_test spawning waiting : Position

pub record FastSync : Type 0 where
  pub height : ℕ
  pub synced_height : ℕ
  pub status : Status
  pub to_store : Option Status
  pub position : Position
  pub in_flight : List ℕ
  pub sent : List ℕ
  pub missed : List ℕ

unfoldable pub init : ℕ → FastSync
init height = record {
  height = height;
  synced_height = height - 1;
  status = running;
  to_store = none;
  position = at_test;
  in_flight = [];
  sent = [];
  missed = [];
}

unfoldable pub spawn : FastSync → FastSync
spawn s = record s {
  in_flight = s.in_flight ++ s.height ∷ [];
  height = s.height + 1;
  position = at_test;
}

-- Goroutine `i`, for the height `h`, has sent its block.
unfoldable pub scraped : ℕ → ℕ → FastSync → FastSync
unfolding remove_at
scraped i h s = record s {
  in_flight = remove_at i s.in_flight;
  sent = s.sent ++ h ∷ [];
  synced_height = if ltb s.synced_height h then h else s.synced_height;
}

-- Goroutine `i`, for the height `h`, has met the chain's end.
unfoldable pub reached_latest : ℕ → ℕ → FastSync → FastSync
unfolding remove_at
reached_latest i h s = record s {
  in_flight = remove_at i s.in_flight;
  missed = s.missed ++ h ∷ [];
  status = stopped;
}

-- The steps while the context is not cancelled, with at most `max_conc` goroutines at a time. The
-- goroutine for the signals loads the status and stores it later, with other steps between.
pub data Step (max_conc : ℕ) : FastSync → FastSync → Type 0 where
  signals :
      {s : FastSync} (m : Signal)
      → s.to_store ≡ none
      → Step max_conc s (record s { to_store = on_signal m s.status })
  stores :
      {s : FastSync} (new : Status)
      → s.to_store ≡ some new
      → Step max_conc s (record s { status = new; to_store = none })
  tests :
      {s : FastSync}
      → s.position ≡ at_test
      → s.status ≡ running
      → Step max_conc s (record s { position = spawning })
  stops :
      {s : FastSync}
      → s.position ≡ at_test
      → s.status ≡ stopped
      → Step max_conc s (record s { position = waiting })
  spawns :
      {s : FastSync}
      → s.position ≡ spawning
      → length s.in_flight < max_conc
      → Step max_conc s (spawn s)
  scrapes :
      {s : FastSync} (i h : ℕ) → get_elem? s.in_flight i ≡ some h → Step max_conc s (scraped i h s)
  reaches_latest :
      {s : FastSync} (i h : ℕ)
      → get_elem? s.in_flight i ≡ some h
      → Step max_conc s (reached_latest i h s)

pub data Reach (max_conc : ℕ) (s : FastSync) : FastSync → Type 0 where
  here : Reach max_conc s s
  next : {t u : FastSync} → Reach max_conc s t → Step max_conc t u → Reach max_conc s u

-- `fastSync` has returned `synced_height`.
abbrev pub Returned : FastSync → Type 0
Returned s = (s.position ≡ waiting) × (s.in_flight ≡ [])
