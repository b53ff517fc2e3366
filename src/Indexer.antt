-- ===== src/Indexer.antt =====
-- indexer/indexer.go: the pipeline from the scraper through prepare() to collect().
-- The goroutines are interleaved: a step is one locked section, one channel operation or the end
-- of one prepare goroutine.
pub mod Start
pub mod Pipeline
