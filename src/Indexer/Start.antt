-- ===== src/Indexer/Start.antt =====
-- indexer/indexer.go: `computeStartHeight`, over int64 heights.
use rollytics.Prelude.{Bool, true, false, not, ◌≡◌, ◌⊎◌, arith, if◌then◌else◌}
use rollytics.Prelude.Int.{ℤ, pos, ◌≤ℤ◌, ltb_ℤ}

-- Go's built-in `min` and `max`.
unfoldable pub min_ℤ : ℤ → ℤ → ℤ
min_ℤ a b = if ltb_ℤ b a then b else a

unfoldable pub max_ℤ : ℤ → ℤ → ℤ
max_ℤ a b = if ltb_ℤ a b then b else a

unfoldable pub compute_start_height : ℤ → ℤ → Bool → ℤ → ℤ
unfolding min_ℤ max_ℤ
compute_start_height db_next chain_head start_set start_val =
    if not start_set then db_next else max_ℤ db_next (min_ℤ chain_head (max_ℤ (pos 0) start_val))

-- The start is never below the next height of the database. It is that height, or a start height
-- is configured and the start is at most the chain's head and the configured height.
pub compute_start_height_bounds :
    (db_next chain_head start_val : ℤ) (start_set : Bool)
    → let start = compute_start_height db_next chain_head start_set start_val in
      (db_next ≤ℤ start)
      × ((start ≡ db_next)
          ⊎ ((start_set ≡ true) × (start ≤ℤ chain_head) × (start ≤ℤ max_ℤ (pos 0) start_val)))
unfolding compute_start_height
compute_start_height_bounds db_next chain_head start_val true = ground arith
compute_start_height_bounds db_next chain_head start_val false = ground arith

-- A configured start height between the next height of the database and the chain's head is where
-- indexing starts.
pub compute_start_height_configured :
    (db_next chain_head start_val : ℤ)
    → pos 0 ≤ℤ db_next
    → db_next ≤ℤ start_val
    → start_val ≤ℤ chain_head
    → compute_start_height db_next chain_head true start_val ≡ start_val
unfolding compute_start_height
compute_start_height_configured db_next chain_head start_val p q r = ground arith

-- When the database is ahead of the chain, indexing starts beyond the chain's head, whatever is
-- configured.
pub compute_start_height_ahead :
    (db_next chain_head start_val : ℤ) (start_set : Bool)
    → ltb_ℤ chain_head db_next ≡ true
    → ltb_ℤ chain_head (compute_start_height db_next chain_head start_set start_val) ≡ true
unfolding compute_start_height
compute_start_height_ahead db_next chain_head start_val true h = ground arith
compute_start_height_ahead db_next chain_head start_val false h = ground arith
