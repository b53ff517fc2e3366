-- ===== src/Querier.antt =====
-- util/querier: requests to the chain's nodes over several endpoints.
pub mod Health
pub mod Rotation
pub mod Rpc
