-- ===== src/Nft.antt =====
-- indexer/collector/wasm-nft and nft-pair: the tokens and collections of a block.
-- `Changes` gathers the events of a block in Go maps; `Tables` has the rows and the statements on
-- them; `Wasm` is the collector, which ends with `Pair` and writes the edges of `Edges`.
pub mod Changes
pub mod Tables
pub mod Services
pub mod Pair
pub mod Edges
pub mod Wasm
pub mod Ledger
pub mod Settled
pub mod Rows
pub mod Burnt
pub mod Gathered
pub mod Counts
