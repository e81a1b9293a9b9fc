-- ===== src/Lib.antt =====
-- Icinga Kubernetes 2: collectors watch Kubernetes namespaces and post batches of observations to
-- an API, the API stores them in a durable inbox, workers apply the inbox to the inventory shard by
-- shard, and a notifier delivers what the inventory queues. This library models the decisions and
-- state changes of these roles, each function of the source as a function of the same name.
--
-- The parts and their files (paths from the repository's root):
--   Model: internal/v2/model/model.go. Resources, events, batches; Normalize and StableID, and in
--     Model/Validate the validation of a batch, whose limits Model/Limits states apart. Json holds the
--     values of a summary.
--   Store: schema/pgsql/migrations/001_initial.sql as the record Db (Store/Tables), and of
--     internal/v2/store: Enqueue (Store/Inbox), event_recovery.go (Store/Events, and Store/Resolve for
--     ResolveEvents), applyResource (Store/Apply), ApplyShard (Store/Shard), Cleanup (Store/Cleanup),
--     the business processes (Store/Processes), and the federation cache and the feed of changes
--     (Store/Federation). The inbox holds events per shard; ApplyShard takes the first due ones,
--     applies each by applyResource, which writes inventory, owners, change log and outbox, and
--     marks them.
--   Worker: internal/v2/worker/worker.go. The loop over an interface of the store, and in
--     Worker/Database that interface over Db.
--   Sender: internal/v2/collector/client.go and spool_space.go. Send splits a batch (Sender/Split)
--     and posts each part, or keeps it in the spool directory (Sender/Spool), whose room
--     Sender/Space decides on. Sender/Markers: Reconcile, Heartbeat, and the start with what the
--     directory holds.
--   Collector: internal/v2/collector/collector.go and resync.go. The review of permissions
--     (Collector/Permissions), the wanted namespaces and their partition (Collector/Wanted), and
--     reconcile, which starts and stops shards (Collector/Discovery), also as the file of requests
--     asks (Collector/ResyncFile). A shard watches its namespaces (Collector/Namespaces); a watch
--     lists and then follows a resource (Collector/Watch), makes resources of the objects
--     (Collector/Normalize) and hands them to the sender in batches.
--   Kubeauth: internal/v2/kubeauth/token.go. The cached token of a service account.
--   Adapter: internal/v2/adapter/registry.go, native.go and node.go. The definitions that describe
--     objects, their file and the choice of one (Adapter/Registry), their rules (Adapter/Describe),
--     and the kinds of Kubernetes itself (Adapter/Native, with Adapter/Pod and Adapter/Node).
--   Api: internal/v2/api/server.go and federation.go. The state of a set of resources (Api/Aggregate),
--     how fresh an answer is (Api/Freshness), and reads of other API servers (Api/Federation).
--   Notifier: internal/v2/notifier/notifier.go. The statements on the outbox (Notifier/Outbox),
--     which applyResource fills, and the event that is sent (Notifier/Event).
--   Common: lists, tables, texts, integers and fallible results that all parts share.
--   Tests: runs on small inputs.
--
-- How the code is modelled. A time is a natural number of nanoseconds. A map is a list of pairs, in
-- the order of its iteration where the code ranges over it. A table is a list of rows; a statement
-- or a transaction is a function of the table or of Db, and an error commits nothing. The clock is
-- read once in a transaction. Rows that other transactions hold are a predicate, by which SKIP
-- LOCKED passes over them. Where calls follow one another with time between them, as those of the
-- notifiers do, they are steps of a relation, in any order.
-- Code of other authors is a parameter: SHA-256, CRC-32, the parsers of UUIDs and times, the length
-- of encoded JSON (Model.Validate.Host, Store.Apply.Clock, Sender.Split.Encoder), the answers of
-- the Kubernetes API (Collector.Permissions.Authorization, Collector.Discovery.Observation,
-- Kubeauth.TokenReply, and in Collector.Watch the answers to lists and watches), the accessors of
-- an unstructured object (Adapter.Object.Nested), json.Marshal and the makers of ids
-- (Collector.Normalize.Calls, Model.Ids), and the API, the files and the context that the sender meets
-- (Sender.Spool.World), whose answers are functions of the number of calls made. The API may store a
-- batch and its answer be lost, which the sender takes for a failure: so a batch can be stored twice,
-- and what the sender knows to be delivered is apart from what is stored. What a watch still flushes
-- and marks when it is stopped is a parameter too (Collector.Namespaces.Endings).
-- The JSON of a payload is a resource, or a document that does not decode, with the decoder's
-- message.
-- Loops are structural recursion, but for the sender's loop while its spool is full, which runs on
-- fuel, one unit a round: more than the number of the call at which the context ends are enough.
-- Of the constraints of the tables those are checked that the code can meet.
--
-- Not modelled: routing and encoding of HTTP, the queries of the store that only read, the rest of the
-- API server, the live gateway, the configuration, metrics, migrations and entry points. The spool
-- is seen by one sender at a time, and the watches of a collector one by one.
pub mod Common
pub mod Json
pub mod Model
pub mod Store
pub mod Sender
pub mod Collector
pub mod Kubeauth
pub mod Adapter
pub mod Worker
pub mod Api
pub mod Notifier
mod Tests
