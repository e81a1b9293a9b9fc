-- ===== src/Tests/Data.antt =====
-- The hosts, resources and databases of the tests.
use icinga_kubernetes.Common.{String, len, none, some, [], ◌∷◌}
use icinga_kubernetes.Json.{end}
use icinga_kubernetes.Model.{State, Resource, IngestBatch}
use icinga_kubernetes.Model.Validate.{Host}
use icinga_kubernetes.Store.Tables.{Db, ResourceRow}
use icinga_kubernetes.Store.Apply.{Clock}

-- A digest of sixteen equal bytes, and a uuid for every text: its length.
abbrev pub host : Host
host = record {
  sha256 = λ _. 17 ∷ 17 ∷ 17 ∷ 17 ∷ 17 ∷ 17 ∷ 17 ∷ 17 ∷ 17 ∷ 17 ∷ 17 ∷ 17 ∷ 17 ∷ 17 ∷ 17 ∷ 17 ∷ [];
  parse_uuid = λ s. some (len s);
  marshal_size = λ _. some 2;
}

abbrev pub pod_id : String
pod_id = "11111111-1111-5111-9111-111111111111"

abbrev pub pod : Resource
pod = record {
  id = pod_id;
  cluster = "campus";
  uid = "u1";
  group = "core";
  version = "v1";
  kind = "Pod";
  namespace = "web";
  name = "shop";
  resource_version = "7";
  labels = [];
  annotations = [];
  owners = [];
  conditions = [];
  summary = end;
  state = State.warning;
  reason = "0/1 containers ready";
  observed_at = 5_000_000;
  deleted_at = none;
  freshness = "";
}

abbrev pub batch : IngestBatch
batch = record {
  cluster = "campus";
  shard = "pods@web";
  events =
      record { event_id = "a"; action = "upsert"; resource = pod }
      ∷ record { event_id = "bb"; action = "delete"; resource = pod }
      ∷ [];
}

abbrev pub empty_db : Db
empty_db = record {
  events = [];
  heads = [];
  resources = [];
  owners = [];
  changes = [];
  outbox = [];
  federation = [];
  processes = [];
  next_sequence = 1;
  next_outbox = 1;
}

abbrev pub clock : Clock
clock = record { now = 9_000_000; db_now = 9_000_000; parse_time = λ _. none }

abbrev pub marker : Resource
marker = record pod {
  id = "m";
  uid = "reconcile:pods@web";
  kind = "ReconcileMarker";
  observed_at = 6_000_000;
}

abbrev pub pod_row : ResourceRow
pod_row = record { resource = pod; shard = "pods@web"; changed_at = 5_000_000 }

abbrev pub stocked_db : Db
stocked_db = record empty_db { resources = pod_row ∷ [] }
