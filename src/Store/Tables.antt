-- ===== src/Store/Tables.antt =====
-- schema/pgsql/migrations/001_initial.sql: the rows of the tables that the roles share, and the
-- database as one record. A uuid is its 128-bit number where the code orders by it (inbox events)
-- and its text elsewhere. `bigserial` counters are fields. A transaction is a function of the
-- database that returns the new one or an error; on an error nothing is committed.
use icinga_kubernetes.Common.{ℕ, ◌+◌, String, Option, none, List, ◌∷◌, ◌&&◌, Bool, str_eq}
use icinga_kubernetes.Common.Int.{ℤ}
use icinga_kubernetes.Json.{Value}
use icinga_kubernetes.Model.{Time, State, StringMap, Owner, Resource}

-- payload jsonb: the encoding of a resource, or a document that does not decode to one, with the
-- decoder's message.
pub data Payload : Type 0 where
  encoded : Resource → Payload
  malformed : String → Payload

-- ingest_event
pub record EventRow : Type 0 where
  pub event_id : ℕ
  pub cluster : String
  pub shard : String
  pub action : String
  pub payload : Payload
  pub received_at : Time
  pub available_at : Time
  pub attempts : ℕ
  pub applied_at : Option Time
  pub error : Option String

-- ingest_shard_head
pub record ShardHead : Type 0 where
  pub cluster : String
  pub shard : String
  pub event_id : Option ℕ
  pub pending_events : ℕ
  pub last_applied_at : Option Time
  pub reconciled_at : Option Time

-- resource: the columns are the fields of `resource`, whose owners stand in their own table.
pub record ResourceRow : Type 0 where
  pub resource : Resource
  pub shard : String
  pub changed_at : Time

-- resource_owner
pub record OwnerRow : Type 0 where
  pub resource_id : String
  pub owner : Owner

-- change_log
pub record ChangeRow : Type 0 where
  pub sequence : ℕ
  pub resource_id : String
  pub cluster : String
  pub action : String
  pub changed_at : Time

-- notification_outbox
pub record OutboxRow : Type 0 where
  pub id : ℕ
  pub resource_id : String
  pub cluster : String
  pub group : String
  pub version : String
  pub kind : String
  pub namespace : String
  pub name : String
  pub labels : StringMap
  pub state : State
  pub reason : String
  pub action : String
  pub created_at : Time
  pub available_at : Time
  pub claimed_by : Option String
  pub claimed_until : Option Time
  pub attempts : ℕ
  pub delivered_at : Option Time
  pub last_error : Option String

-- federation_cache
pub record CacheRow : Type 0 where
  pub endpoint : String
  pub cache_key : String
  pub status_code : ℤ
  pub response : Value
  pub freshness : String
  pub fetched_at : Time

-- business_process
pub record ProcessRow : Type 0 where
  pub name : String
  pub definition : Value
  pub generation : ℕ
  pub created_at : Time
  pub updated_at : Time

pub record Db : Type 0 where
  pub events : List EventRow
  pub heads : List ShardHead
  pub resources : List ResourceRow
  pub owners : List OwnerRow
  pub changes : List ChangeRow
  pub outbox : List OutboxRow
  pub federation : List CacheRow
  pub processes : List ProcessRow
  pub next_sequence : ℕ
  pub next_outbox : ℕ

pub data DbError : Type 0 where
  invalid_uuid check_violation unique_violation : DbError
  decode_failed : String → DbError
  bad_limit : DbError

-- PRIMARY KEY (cluster_name, shard)
abbrev pub ShardKey : Type 0
ShardKey = String × String

abbrev pub shard_eq : ShardKey → ShardKey → Bool
shard_eq (c, s) (c', s') = str_eq c c' && str_eq s s'

abbrev pub head_key : ShardHead → ShardKey
head_key h = (h.cluster, h.shard)

abbrev pub event_key : EventRow → ShardKey
event_key e = (e.cluster, e.shard)

-- INSERT INTO change_log(resource_id,cluster_name,action)
unfoldable pub log_change : Time → String → String → String → Db → Db
log_change now id cluster action db = record db {
  changes =
      record {
        sequence = db.next_sequence;
        resource_id = id;
        cluster = cluster;
        action = action;
        changed_at = now;
      }
      ∷ db.changes;
  next_sequence = db.next_sequence + 1;
}

-- INSERT INTO notification_outbox(…), with the columns that the statement names.
unfoldable pub notify : Time → Resource → String → Db → Db
notify now r action db = record db {
  outbox =
      record {
        id = db.next_outbox;
        resource_id = r.id;
        cluster = r.cluster;
        group = r.group;
        version = r.version;
        kind = r.kind;
        namespace = r.namespace;
        name = r.name;
        labels = r.labels;
        state = r.state;
        reason = r.reason;
        action = action;
        created_at = now;
        available_at = now;
        claimed_by = none;
        claimed_until = none;
        attempts = 0;
        delivered_at = none;
        last_error = none;
      }
      ∷ db.outbox;
  next_outbox = db.next_outbox + 1;
}
