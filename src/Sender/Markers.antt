-- ===== src/Sender/Markers.antt =====
-- client.go: the markers that the collector sends beside its observations, and the start of a
-- sender with the files of an earlier process.
use Prim.Native.String.{◌++◌ as str_append}
use icinga_kubernetes.Common.{ℕ, suc, ◌+◌, Bool, Option, none, some, List, [], ◌∷◌, String}
use icinga_kubernetes.Common.Result.{Result, ok, err}
use icinga_kubernetes.Json.{end}
use icinga_kubernetes.Model.{Time, State, Resource, IngestBatch, Ids, stable_id}
use icinga_kubernetes.Sender.Spool.{SpoolFile, World, Sender, Run, send}

-- The resource of a marker: what both of them set.
abbrev pub marker : Ids → String → String → String → String → Time → Resource
marker ids cluster uid kind name time = record {
  id = stable_id ids.sha256 cluster uid;
  cluster = cluster;
  uid = uid;
  group = "icinga-kubernetes.io";
  version = "v2";
  kind = kind;
  namespace = "";
  name = name;
  resource_version = ids.format_time time;
  labels = [];
  annotations = [];
  owners = [];
  conditions = [];
  summary = end;
  state = State.ok;
  reason = "";
  observed_at = time;
  deleted_at = none;
  freshness = "";
}

abbrev nul_separated : String → String → String
nul_separated a b = str_append a (str_append "\0" b)

unfoldable pub reconcile_batch : Ids → String → String → Time → IngestBatch
unfolding stable_id
reconcile_batch ids cluster shard cutoff =
    let id = ids.new_sha1 (
      nul_separated cluster
        (nul_separated shard (nul_separated "reconcile" (ids.format_time cutoff)))) in
    record {
      cluster = cluster;
      shard = shard;
      events =
          record {
            event_id = id;
            action = "reconcile";
            resource =
                marker ids cluster (str_append "reconcile:" shard) "ReconcileMarker" shard cutoff;
          }
          ∷ [];
    }

unfoldable pub heartbeat_batch : Ids → String → Time → IngestBatch
unfolding stable_id
heartbeat_batch ids cluster observed =
    let id =
      ids.new_sha1 (nul_separated cluster (nul_separated "heartbeat" (ids.format_time observed))) in
    record {
      cluster = cluster;
      shard = "__heartbeat__";
      events =
          record {
            event_id = id;
            action = "heartbeat";
            resource = marker ids cluster "heartbeat" "Heartbeat" "collector" observed;
          }
          ∷ [];
    }

-- (*Sender).Reconcile and (*Sender).Heartbeat
unfoldable pub send_reconcile : ℕ → World → Ids → String → String → Time → Sender → Run
unfolding send reconcile_batch
send_reconcile fuel w ids cluster shard cutoff s =
    send fuel w (reconcile_batch ids cluster shard cutoff) s

unfoldable pub send_heartbeat : ℕ → World → Ids → String → Time → Sender → Run
unfolding send heartbeat_batch
send_heartbeat fuel w ids cluster observed s = send fuel w (heartbeat_batch ids cluster observed) s

-- What os.ReadDir and entry.Info return of an entry: the file, if it is one with the suffix .json
-- and without a leading dot, and whether its size can be read.
pub data SpoolEntry : Type 0 where
  passed_over unreadable : SpoolEntry
  spooled : SpoolFile → SpoolEntry

pub data DirectoryError : Type 0 where
  not_exist failed : DirectoryError

-- The loop of spoolUsage, with the files and the bytes counted.
unfoldable pub count_spool : List SpoolEntry → ℕ → ℕ → Option (ℕ × ℕ)
count_spool [] files bytes = some (files, bytes)
count_spool (SpoolEntry.passed_over ∷ entries) files bytes = count_spool entries files bytes
count_spool (SpoolEntry.unreadable ∷ entries) files bytes = none
count_spool (SpoolEntry.spooled f ∷ entries) files bytes =
    count_spool entries (suc files) (bytes + f.size)

-- (*Sender).spoolUsage
unfoldable pub spool_usage : Result DirectoryError (List SpoolEntry) → Option (ℕ × ℕ)
unfolding count_spool
spool_usage (err DirectoryError.not_exist) = some (0, 0)
spool_usage (err DirectoryError.failed) = none
spool_usage (ok entries) = count_spool entries 0 0

abbrev pub spooled_files : List SpoolEntry → List SpoolFile
spooled_files [] = []
spooled_files (SpoolEntry.spooled f ∷ entries) = f ∷ spooled_files entries
spooled_files (SpoolEntry.passed_over ∷ entries) = spooled_files entries
spooled_files (SpoolEntry.unreadable ∷ entries) = spooled_files entries

abbrev with_usage : List SpoolFile → ℕ × ℕ → Sender
with_usage found (files, bytes) = record {
  calls = 0;
  files = found;
  spool_files = files;
  spool_bytes = bytes;
  blocked = Bool.false;
  delivered = [];
  stored = [];
}

-- NewSender, where os.MkdirAll has made the directory, with what the directory holds.
unfoldable pub new_sender : Result DirectoryError (List SpoolEntry) → Option Sender
unfolding spool_usage
new_sender (err e) = elim (spool_usage (err e)) [ none ↦ none | some u ↦ some (with_usage [] u) ]
new_sender (ok entries) = elim (spool_usage (ok entries)) [
  | none ↦ none
  | some u ↦ some (with_usage (spooled_files entries) u)
]
