-- ===== src/Store/Inbox.antt =====
-- store.go: Enqueue, the durable inbox of a shard. A pending event is one that is not applied; the
-- row of a shard in ingest_shard_head caches the first pending event and their number.
pub mod Current
pub mod Replay
use icinga_kubernetes.Common.{
  ℕ, zero, suc, ◌+◌, ◌==◌, ltb, leb, ◌||◌, ◌&&◌, Bool, Option, none, some, is_none, or_else, List,
  [], ◌∷◌, sort, String, str_eq, if◌then◌else◌,
}
use icinga_kubernetes.Common.Table.{select, find, update, count, upsert, at}
use icinga_kubernetes.Common.Result.{Result, ok, err, ◌>>=◌, ◌>>◌}
use icinga_kubernetes.Model.{Time, IngestEvent, IngestBatch}
use icinga_kubernetes.Model.Validate.{Host, ValidationError, validate}
use icinga_kubernetes.Store.Tables.{
  EventRow, ShardHead, Payload, Db, DbError, ShardKey, shard_eq, head_key, event_key,
}

-- cluster_name=$1 AND shard=$2 AND applied_at IS NULL
abbrev pub is_pending : ShardKey → EventRow → Bool
is_pending k e = at event_key shard_eq k e && is_none e.applied_at

-- ORDER BY received_at,event_id
abbrev pub received_before : EventRow → EventRow → Bool
received_before a b =
    ltb a.received_at b.received_at || (a.received_at == b.received_at && leb a.event_id b.event_id)

abbrev pub head? {ℓ} : {A : Type ℓ} → List A → Option A
head? [] = none
head? (e ∷ es) = some e

abbrev pub id_of : Option EventRow → Option ℕ
id_of none = none
id_of (some e) = some e.event_id

-- SELECT event_id … WHERE pending ORDER BY received_at,event_id LIMIT 1
unfoldable pub next_event : ShardKey → List EventRow → Option ℕ
next_event k events = id_of (head? (sort received_before (select (is_pending k) events)))

pub record Tally : Type 0 where
  pub rows : List EventRow
  pub inserted : ℕ
  pub first : Option ℕ

-- INSERT INTO ingest_event … ON CONFLICT (event_id) DO NOTHING, with what the loop counts.
unfoldable pub insert_event : ShardKey → IngestEvent → ℕ → Time → Tally → Tally
insert_event (cluster, shard) event id now t = elim (find (at (λ e. e.event_id) ◌==◌ id) t.rows) [
  | some _ ↦ t
  | none ↦ record {
    rows =
        record {
          event_id = id;
          cluster = cluster;
          shard = shard;
          action = event.action;
          payload = Payload.encoded event.resource;
          received_at = now;
          available_at = now;
          attempts = 0;
          applied_at = none;
          error = none;
        }
        ∷ t.rows;
    inserted = t.inserted + 1;
    first = elim t.first [ none ↦ some id | some i ↦ some i ];
  }
]

-- The loop over the events of the batch; `clock i` is clock_timestamp() at event i.
unfoldable pub insert_events :
    Host → ShardKey → (ℕ → Time) → ℕ → List IngestEvent → Tally → Result DbError Tally
insert_events h k clock i [] t = ok t
insert_events h k clock i (event ∷ events) t = elim (h.parse_uuid event.event_id) [
  | none ↦ err DbError.invalid_uuid
  | some id ↦ insert_events h k clock (suc i) events (insert_event k event id (clock i) t)
]

unfoldable pub new_head : ShardKey → Tally → ShardHead
new_head (cluster, shard) t = record {
  cluster = cluster;
  shard = shard;
  event_id = t.first;
  pending_events = t.inserted;
  last_applied_at = none;
  reconciled_at = none;
}

unfoldable pub add_pending : Tally → ShardHead → ShardHead
add_pending t h = record h {
  event_id = elim h.event_id [ none ↦ t.first | some i ↦ some i ];
  pending_events = h.pending_events + t.inserted;
}

unfoldable pub point_to : Option ℕ → ShardHead → ShardHead
point_to next h = record h { event_id = next }

-- INSERT INTO ingest_shard_head … ON CONFLICT DO UPDATE, and the UPDATE after it.
unfoldable pub refresh_head : ShardKey → Tally → List ShardHead → List ShardHead
refresh_head k t heads =
    update (at head_key shard_eq k) (point_to (next_event k t.rows))
      (upsert (at head_key shard_eq k) (new_head k t) (add_pending t) heads)

pub data EnqueueError : Type 0 where
  invalid : ValidationError → EnqueueError
  failed : DbError → EnqueueError

unfoldable pub commit_batch : ShardKey → Tally → Db → Db
commit_batch k t db =
    if ltb 0 t.inserted
    then record db { events = t.rows; heads = refresh_head k t db.heads }
    else record db { events = t.rows }

abbrev pub start : Db → Tally
start db = record { rows = db.events; inserted = 0; first = none }

-- Store.Enqueue
unfoldable pub enqueue : Host → (ℕ → Time) → IngestBatch → Db → Result EnqueueError Db
enqueue h clock b db = elim (validate h b) [
  | err e ↦ err (invalid e)
  | ok _ ↦ elim (insert_events h (b.cluster, b.shard) clock 0 b.events (start db)) [
    | err e ↦ err (failed e)
    | ok t ↦ ok (commit_batch (b.cluster, b.shard) t db)
  ]
]
