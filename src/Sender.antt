-- ===== src/Sender.antt =====
-- internal/v2/collector/client.go and spool_space.go: the collector's way to the ingest API, with
-- its spool directory.
pub mod Split
pub mod Space
pub mod Spool
pub mod Markers
