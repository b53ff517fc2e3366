-- ===== src/Tests/Scraping.antt =====
-- indexer/scraper/sync.go: a round with a failed height, and a lost block.
use rollytics.Prelude.{
  ℕ, ◌+◌, ◌≤◌, ◌≡◌, refl, Bool, not, ◌&&◌, ◌==◌, List, [], ◌∷◌, ◌++◌, arith, if◌then◌else◌, leb,
  ltb, Has, count, inl, inr, ◌⊎◌,
}
use rollytics.Indexer.Pipeline.{remove_at}
use rollytics.Scraper.SlowSync.{
  slow_sync, round, update_height, error_height, sort_results, insert_result, sent_heights,
}
use rollytics.Scraper.SlowSync.Coverage.{AreBatches, slow_sync-covers}
use rollytics.Scraper.FastSync.{
  FastSync, init, spawn, scraped, reached_latest, tests, spawns, scrapes, reaches_latest, stops,
  waiting, spawning, Reach, here, next, Returned,
}
use rollytics.Scraper.FastSync.Coverage.{fast_sync-covers, fast_sync-loses}

abbrev rounds : List ((ℕ → Bool) × List ℕ)
rounds = ((λ h. not (h == 7)), 9 ∷ 6 ∷ 7 ∷ 5 ∷ 8 ∷ []) ∷ []

round_next : slow_sync rounds 5 ≡ (9 ∷ 6 ∷ 5 ∷ 8 ∷ [], 7)
unfolding slow_sync round update_height error_height sort_results insert_result sent_heights
round_next = refl

rounds-AreBatches : AreBatches rounds 5
rounds-AreBatches = (
  (
    ground arith,
    (
      inr (inr (inr (inl refl))),
      (inr (inl refl), (inr (inr (inl refl)), (inr (inr (inr (inr (inl refl)))), (inl refl, tt)))),
    ),
  ),
  tt,
)

slow_sync-covers_example : Has 6 (slow_sync rounds 5).0
slow_sync-covers_example =
    slow_sync-covers rounds 5 6 rounds-AreBatches (omega arith) (rw round_next (omega arith))

-- The heights 5 and 6 are asked for; 6 is there, 5 has met a node that is behind.
abbrev asked : FastSync
asked =
    record (spawn
      (record (spawn (record (init 5) { position = spawning })) { position = spawning })) {
        position = spawning;
      }

abbrev ended : FastSync
ended =
    record (reached_latest 0 5 (
      scraped 1 6 (
        spawn
          (record (spawn (record (init 5) { position = spawning })) { position = spawning })))) {
            position = waiting;
          }

run : Reach 4 (init 5) ended
unfolding init spawn scraped reached_latest remove_at
run =
    next
      (next
        (next
          (next
            (next (next (next here (tests refl refl)) (spawns refl (omega arith)))
              (tests refl refl))
            (spawns refl (omega arith)))
          (scrapes 1 6 refl))
        (reaches_latest 0 5 refl))
      (stops refl refl)

ended-Returned : Returned ended
unfolding init spawn scraped reached_latest remove_at
ended-Returned = (refl, refl)

fast_sync-covers_example :
    (count 6 ended.sent + count 6 ended.missed ≡ (if leb 5 6 && ltb 6 ended.height then 1 else 0))
    × ((6 ≤ ended.synced_height) ⊎ (count 6 ended.sent ≡ 0))
fast_sync-covers_example = fast_sync-covers 5 6 run ended-Returned

fast_sync-loses_example : count 5 (ended.sent ++ (slow_sync [] (ended.synced_height + 1)).0) ≡ 0
unfolding init spawn scraped reached_latest remove_at count
fast_sync-loses_example =
    fast_sync-loses 5 5 6 [] run ended-Returned (omega arith) (omega arith) (omega arith) tt
