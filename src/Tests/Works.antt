-- ===== src/Tests/Works.antt =====
-- indexer/extension/internaltx/extension.go: three blocks, one without transactions, and a queue of one item.
use rollytics.Prelude.{ℕ, ◌≤◌, ◌≡◌, refl, List, [], ◌∷◌, Option, none, some, arith, length}
use rollytics.InternalTx.{TransactionTrace}
use rollytics.InternalTx.Queue.{
  WorkItem, Blocks, pushing, InternalTxExtension, init, is_not_full, above, get_batch_heights,
  scrape_batch, last_of, push, produces, pushes, Reach, here, next,
}
use rollytics.InternalTx.Queue.Heights.{between}
use rollytics.InternalTx.Queue.Order.{consumed_heights, in_hand, bound, produced-in_order}
use rollytics.InternalTx.Queue.Progress.{catches_up}

abbrev stored : Blocks
stored = (2, 3) ∷ (3, 1) ∷ (4, 0) ∷ (5, 2) ∷ []

abbrev answers : ℕ → Option (List TransactionTrace)
answers height = some []

abbrev item : WorkItem
item = record { height = 3; call_trace = [] }

-- The batch of the height 3 has been pushed, and the producer has not finished it.
abbrev working : InternalTxExtension
working = record {
  last_produced_height = 2;
  work_queue = item ∷ [];
  producer = pushing [] 3;
  consuming = none;
  consumed = [];
  blocks = stored;
}

reached : Reach 5 1 (init 2 stored) working
unfolding init is_not_full get_batch_heights scrape_batch last_of push
reached =
    next (next here (produces answers 3 [] (item ∷ []) refl refl refl refl))
      (pushes item [] 3 refl (omega arith))

produced-in_order_example :
    (in_hand working
      ≡ between 2 (bound working.last_produced_height working.producer) working.blocks)
    × (length working.work_queue ≤ 1)
produced-in_order_example = produced-in_order 2 5 1 stored working (omega arith) reached

catches_up_example :
    (j : InternalTxExtension) × Reach 5 1 working j
    × (j.blocks ≡ working.blocks)
    × (consumed_heights j.consumed ≡ above 2 working.blocks)
catches_up_example =
    catches_up 2 5 1 stored working (omega arith) (omega arith) (omega arith) reached
