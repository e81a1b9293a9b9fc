-- ===== src/Notifier.antt =====
-- internal/v2/notifier/notifier.go: the outbox as the notifiers work on it, and the event that is
-- made of a record.
pub mod Outbox
pub mod Event
