-- ===== src/Store.antt =====
-- internal/v2/store over the tables of schema/pgsql/migrations/001_initial.sql.
pub mod Tables
pub mod Inbox
pub mod Events
pub mod Apply
pub mod Shard
pub mod Cleanup
pub mod Resolve
pub mod Federation
pub mod Processes
