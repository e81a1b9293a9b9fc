-- ===== src/Tests.antt =====
-- Runs of the definitions on small inputs, and each theorem at an input that meets its hypotheses.
mod Data
mod Validation
mod Inbox
mod Inventory
mod Sending
mod Discovery
mod Delivery
mod Adapters
mod Described
mod Watching
mod Maintenance
mod Aggregation
mod Federated
