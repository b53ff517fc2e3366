-- ===== src/Scraper.antt =====
-- indexer/scraper: the blocks of the chain, first fast and concurrently, then in small batches.
pub mod SlowSync
pub mod FastSync
