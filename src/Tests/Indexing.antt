-- ===== src/Tests/Indexing.antt =====
-- indexer/indexer.go: two blocks that arrive in the wrong order, and a stale block.
use rollytics.Prelude.{
  ℕ, ◌+◌, ◌≡◌, ◌⊎◌, refl, true, false, [], ◌∷◌, arith, length, upto, if◌then◌else◌, ltb, ◌++◌,
  ℕ_discrete,
}
use rollytics.Prelude.GoMap.{get, put, delete}
use rollytics.Prelude.Int.{pos, ◌≤ℤ◌, ltb_ℤ}
use rollytics.Text.{codes}
use rollytics.Types.{ScrapedBlock}
use rollytics.Indexer.Pipeline.{
  Indexer, init, remove_at, receive, prepared, control, take_block, finish, Reach, here, next,
  scrape, receives, prepares, takes, finishes, pause, start,
}
use rollytics.Indexer.Pipeline.Order.{heights, collected-in_order}
use rollytics.Indexer.Pipeline.Backpressure.{
  Alternates, signals-Alternates, take_block-paused, HasStale, Reach-HasStale,
}
use rollytics.Indexer.Start.{
  compute_start_height, max_ℤ, compute_start_height_bounds, compute_start_height_configured,
  compute_start_height_ahead,
}

abbrev block : ℕ → ScrapedBlock
block h = record {
  chain_id = codes "minimove-2";
  height = h;
  timestamp = 0;
  hash = [];
  proposer = [];
  txs = [];
  tx_results = [];
  pre_block = [];
  begin_block = [];
  end_block = [];
}

abbrev sent : Indexer
sent = record (init 5) { block_chan = block 6 ∷ block 5 ∷ [] }

abbrev received : Indexer
received = receive (block 5) [] (receive (block 6) (block 5 ∷ []) sent)

abbrev ready : Indexer
ready = prepared 0 (block 5) (prepared 0 (block 6) received)

abbrev final : Indexer
final = finish (block 6) (take_block (finish (block 5) (take_block ready)))

run : Reach (init 5) final
unfolding init receive prepared take_block control finish remove_at get put delete ℕ_discrete
run =
    next
      (next
        (next
          (next
            (next
              (next
                (next
                  (next
                    (next (next here (scrape (block 6) (omega arith)))
                      (scrape (block 5) (omega arith)))
                    (receives (block 6) (block 5 ∷ []) refl))
                  (receives (block 5) [] refl))
                (prepares 0 (block 6) refl))
              (prepares 0 (block 5) refl))
            (takes refl))
          (finishes (block 5) refl))
        (takes refl))
      (finishes (block 6) refl)

run_collected : heights final.collected ≡ 5 ∷ 6 ∷ []
unfolding init receive prepared take_block control finish remove_at get put delete ℕ_discrete
run_collected = refl

collected-in_order_example :
    (heights final.collected ≡ upto 5 (length final.collected))
    × (final.height ≡ 5 + length final.collected)
    × (final.prepare_count ≡ length final.preparing)
collected-in_order_example = collected-in_order 5 run

signals-Alternates_example : Alternates false final.signals final.paused
signals-Alternates_example = signals-Alternates 5 run

-- A map that is small again after a pause.
abbrev waiting : Indexer
waiting = record (init 5) { paused = true; signals = pause ∷ [] }

take_block-paused_example :
    let inflight = length waiting.block_map + waiting.prepare_count in
    let paused =
      (if ltb 100 inflight then true else if ltb inflight 50 then false else waiting.paused) in
    ((take_block waiting).paused ≡ paused)
    × ((take_block waiting).signals ≡ (
        if waiting.paused
        then (if paused then waiting.signals else waiting.signals ++ start ∷ [])
        else if paused
        then waiting.signals ++ pause ∷ []
        else waiting.signals))
take_block-paused_example = take_block-paused waiting

-- The block 4 has come a second time while the first copy was collected.
abbrev stale : Indexer
stale = record (init 5) { block_map = (4, block 4) ∷ [] }

stale-HasStale : HasStale 4 stale
unfolding init get ℕ_discrete
stale-HasStale = (omega arith, (block 4, refl))

Reach-HasStale_example : HasStale 4 (take_block stale)
unfolding init
Reach-HasStale_example = Reach-HasStale 4 stale-HasStale (next here (takes refl))

compute_start_height_bounds_example :
    let start = compute_start_height (pos 10) (pos 20) true (pos 15) in
    (pos 10 ≤ℤ start)
    × ((start ≡ pos 10) ⊎ ((true ≡ true) × (start ≤ℤ pos 20) × (start ≤ℤ max_ℤ (pos 0) (pos 15))))
compute_start_height_bounds_example = compute_start_height_bounds (pos 10) (pos 20) (pos 15) true

compute_start_height_configured_example :
    compute_start_height (pos 10) (pos 20) true (pos 15) ≡ pos 15
compute_start_height_configured_example =
    compute_start_height_configured (pos 10) (pos 20) (pos 15) (ground arith) (ground arith)
      (ground arith)

compute_start_height_ahead_example :
    ltb_ℤ (pos 20) (compute_start_height (pos 30) (pos 20) false (pos 15)) ≡ true
compute_start_height_ahead_example =
    compute_start_height_ahead (pos 30) (pos 20) (pos 15) false (ground arith)
