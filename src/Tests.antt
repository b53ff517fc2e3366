-- ===== src/Tests.antt =====
-- Runs of the models at concrete inputs.
mod Indexing
mod Scraping
mod Querying
mod Addresses
mod Traces
mod Pages
mod Dictionaries
mod Rows
mod Blocks
mod Tokens
mod Works
mod Cleanups
mod Accounts
