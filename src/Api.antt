-- ===== src/Api.antt =====
-- internal/v2/api: the decisions of the API server.
pub mod Aggregate
pub mod Freshness
pub mod Federation
