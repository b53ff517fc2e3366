-- ===== src/Lib.antt =====
-- The verification library of rollytics, an indexer for Initia rollups.
--
-- The program follows a chain over the RPC of its nodes, stores what it reads in a database and
-- serves it by a REST API. The scraper sends blocks over a channel to the indexer, fast with one
-- goroutine for each height and, at the chain's end, slowly in batches; the indexer prepares them
-- concurrently and collects them one at a time; all requests go through util/querier. Extensions
-- follow the collected blocks: internaltx reads the call traces of each block of an EVM chain,
-- txaccountcleanup corrects the accounts of stored transactions.
--
-- Prelude, Text        integers, lists, maps and texts as the source uses them
-- Types                indexer/types/types.go: blocks and events
-- Address              util/util.go: addresses and byte strings as text
-- Querier.Health       util/querier/health.go: the circuit breaker over endpoints
-- Querier.Rotation     util/querier/querier.go: `executeWithEndpointRotation`
-- Querier.Rpc          util/querier/rpc.go: `FetchRPCWithRotation`
-- Scraper.FastSync     indexer/scraper/sync.go: `fastSync`, as a step relation
-- Scraper.SlowSync     indexer/scraper/sync.go: `slowSync`, round by round
-- Indexer.Start        indexer/indexer.go: `computeStartHeight`
-- Indexer.Pipeline     indexer/indexer.go: `prepare` and `collect`, as a step relation
-- InternalTx           indexer/extension/internaltx: `processInternalCall` over the trees of calls
-- InternalTx.Queue     indexer/extension/internaltx/extension.go: the work queue, as a step relation
-- Pagination           util/common-handler/common/pagination.go: pages by offset and by cursor
-- Pagination.Table     the rows of a query; its ORDER BY is a sort of the key column
-- Pagination.Collections api/handler/nft/collection.go: `GetCollections`, and a client of it; the client
--                      runs on fuel, one request more than there are collections
-- Dictionary           util/cache/cache.go: ids of message types, type tags and transaction hashes
-- Dictionary.Normal    util/cache/cache.go: ids of accounts and tokens, whose rows hold bytes
-- Cleanup              indexer/extension/txaccountcleanup/cleanup.go: `reconcileTx`
-- Cleanup.Scan         `ProcessBatch`, and `Run` of extension.go; its loop runs on fuel, one more than
--                      the sequence it starts from, and every step goes down
-- Events               indexer/util/event.go: `ExtractEvents`
-- Nft                  indexer/collector/wasm-nft and nft-pair: the tokens and collections of a block
-- Tests                runs at concrete inputs
--
-- A function is called as in the source, in snake case. Errors are values, the clock, the network
-- and the context are arguments or steps, and machine integers keep their wrap-around where the
-- source can reach it. Heights are natural numbers. The fuel of `loop` in Querier.Rotation is
-- enough when it is above five rounds for each endpoint; that of `add_arguments` in InternalTx is
-- the length of the input, of which each round takes 32 characters.
--
-- Not modelled: the HTTP client, the JSON decoders, bech32, gorm and PostgreSQL, fiber, metrics,
-- logs, configuration and wiring, the patchers, and what is generated.
pub mod Prelude
pub mod Text
pub mod Types
pub mod Address
pub mod Querier
pub mod Scraper
pub mod Indexer
pub mod InternalTx
pub mod Pagination
pub mod Dictionary
pub mod Cleanup
pub mod Events
pub mod Nft
mod Tests
