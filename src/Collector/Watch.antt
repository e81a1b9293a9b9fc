-- ===== src/Collector/Watch.antt =====
-- collector.go: the watch of a shard. A list and a watch of the Kubernetes API are the answers that
-- they give, in their order; where the answers given so far end, the loop waits. The state holds the
-- batches that were handed to the sender, and the counters of the metrics.
pub mod Sent
pub mod Order
pub mod Batches
use Prim.Native.String.{◌++◌ as str_append}
use icinga_kubernetes.Common.{
  ℕ, ◌+◌, ◌%◌, ◌^◌, leb, is_empty, Bool, Option, none, some, List, [], ◌∷◌, ◌++◌, length, String,
  str_eq, if◌then◌else◌,
}
use icinga_kubernetes.Model.{Time, IngestEvent, IngestBatch}
use icinga_kubernetes.Collector.Permissions.{Gvr}
use icinga_kubernetes.Adapter.Object.{Object}
use icinga_kubernetes.Adapter.Registry.{Definition}
use icinga_kubernetes.Collector.Normalize.{Calls, normalize_with_registry}
use icinga_kubernetes.Sender.Markers.{reconcile_batch}

-- shard; an empty namespace is the whole cluster.
pub record Target : Type 0 where
  pub gvr : Gvr
  pub namespace : String

-- What a collector's watches share. `send_fails` says of each batch that is sent, by the number
-- of those before it, whether Send returns an error.
pub record Feed : Type 0 where
  pub calls : Calls
  pub cluster : String
  pub batch_size : ℕ
  pub adapters : List Definition
  pub send_fails : ℕ → Bool

pub record Watcher : Type 0 where
  pub sent : List IngestBatch
  pub processed : ℕ
  pub errors : ℕ

unfoldable pub shard_name : Feed → Target → String
shard_name f t =
    let gvr = f.calls.format_gvr t.gvr in
    if str_eq t.namespace "" then gvr else str_append gvr (str_append "@" t.namespace)

abbrev nul_separated : String → String → String
nul_separated a b = str_append a (str_append "\0" b)

-- (*Collector).event; `now` is what time.Now returns.
unfoldable pub event : Feed → String → Gvr → Time → Object → IngestEvent
unfolding normalize_with_registry
event f action gvr now o = record {
  event_id = f.calls.new_sha1 (
      nul_separated "projection-v2" (
        nul_separated f.cluster (
          nul_separated (f.calls.format_gvr gvr)
            (nul_separated o.uid (nul_separated o.resource_version action)))));
  action = action;
  resource = normalize_with_registry f.calls now f.cluster gvr o f.adapters;
}

unfoldable pub snapshot_event : Feed → Gvr → Time → Time → Object → IngestEvent
unfolding event
snapshot_event f gvr started now o =
    let e = event f "upsert" gvr now o in
    record e {
      event_id =
          f.calls.new_sha1
            (nul_separated e.event_id (nul_separated "snapshot" (f.calls.format_time started)));
    }

abbrev pub batch_of : Feed → Target → List IngestEvent → IngestBatch
batch_of f t events = record { cluster = f.cluster; shard = shard_name f t; events = events }

-- The counters are uint64.
abbrev sent_with : Feed → IngestBatch → Watcher → Watcher
sent_with f batch w = record w {
  sent = w.sent ++ batch ∷ [];
  processed =
      if f.send_fails (length w.sent)
      then w.processed
      else (w.processed + length batch.events) % 2 ^ 64;
  errors = if f.send_fails (length w.sent) then (w.errors + 1) % 2 ^ 64 else w.errors;
}

-- (*Collector).flush
unfoldable pub flush : Feed → Target → List IngestEvent → Watcher → Watcher
unfolding shard_name
flush f t events w = if is_empty events then w else sent_with f (batch_of f t events) w

-- The `events = append(events, …)` of a list and of a watch, flushed where the batch is full: the
-- events that stay, and the state.
abbrev pub Filling : Type 0
Filling = List IngestEvent × Watcher

unfoldable pub add_event : Feed → Target → IngestEvent → List IngestEvent → Watcher → Filling
unfolding flush
add_event f t e events w =
    let filled = events ++ e ∷ [] in
    if leb f.batch_size (length filled) then ([], flush f t filled w) else (filled, w)

-- A page of a list, with the time at which each object is normalised, or the error of the call.
pub data Listing : Type 0 where
  list_failed : Listing
  page : List (Time × Object) → String → String → Listing

-- The loop over the items of a page, and the flush after it.
unfoldable pub list_page : Feed → Target → Time → List (Time × Object) → Filling → Watcher
unfolding add_event snapshot_event
list_page f t started [] (events, w) = flush f t events w
list_page f t started ((now, o) ∷ items) (events, w) =
    list_page f t started items (add_event f t (snapshot_event f t.gvr started now o) events w)

-- Where the loop over the pages is: it waits for an answer, a call failed, or the list ended with
-- its resource version.
pub data Snapshot : Type 0 where
  listing failed : Watcher → Snapshot
  listed : String → Watcher → Snapshot

unfoldable pub list_pages : Feed → Target → Time → List Listing → Watcher → Snapshot
unfolding list_page
list_pages f t started [] w = Snapshot.listing w
list_pages f t started (list_failed ∷ pages) w = Snapshot.failed w
list_pages f t started (page items rv continue ∷ pages) w =
    let w' = list_page f t started items ([], w) in
    if str_eq continue "" then Snapshot.listed rv w' else list_pages f t started pages w'

-- watch.EventType
pub data EventType : Type 0 where
  added modified deleted bookmark error : EventType

-- What the select of consume receives: the end of the context, a tick, the closed channel, an event
-- whose object is no unstructured one, or an event with its object and the time of its
-- normalisation.
pub data Arrival : Type 0 where
  cancelled tick closed unknown_object : Arrival
  arrived : EventType → Time → Object → Arrival

-- consume waits with a batch, or returned; both with the resource version.
pub data Consumed : Type 0 where
  waiting : List IngestEvent → String → Watcher → Consumed
  returned : String → Watcher → Consumed

abbrev pub action_of : EventType → String
action_of EventType.deleted = "delete"
action_of EventType.added = "upsert"
action_of EventType.modified = "upsert"
action_of EventType.bookmark = "upsert"
action_of EventType.error = "upsert"

-- (*Collector).consume
unfoldable pub consume :
    Feed → Target → List Arrival → List IngestEvent → String → Watcher → Consumed
unfolding add_event event
consume f t [] batch rv w = Consumed.waiting batch rv w
consume f t (cancelled ∷ arrivals) batch rv w = Consumed.returned rv (flush f t batch w)
consume f t (tick ∷ arrivals) batch rv w = consume f t arrivals [] rv (flush f t batch w)
consume f t (closed ∷ arrivals) batch rv w = Consumed.returned rv (flush f t batch w)
consume f t (unknown_object ∷ arrivals) batch rv w = consume f t arrivals batch rv w
consume f t (arrived EventType.bookmark now o ∷ arrivals) batch rv w =
    consume f t arrivals batch o.resource_version w
consume f t (arrived EventType.error now o ∷ arrivals) batch rv w =
    Consumed.returned o.resource_version (flush f t batch w)
consume f t (arrived EventType.added now o ∷ arrivals) batch rv w =
    let (batch', w') = add_event f t (event f (action_of EventType.added) t.gvr now o) batch w in
    consume f t arrivals batch' o.resource_version w'
consume f t (arrived EventType.modified now o ∷ arrivals) batch rv w =
    let (batch', w') = add_event f t (event f (action_of EventType.modified) t.gvr now o) batch w in
    consume f t arrivals batch' o.resource_version w'
consume f t (arrived EventType.deleted now o ∷ arrivals) batch rv w =
    let (batch', w') = add_event f t (event f (action_of EventType.deleted) t.gvr now o) batch w in
    consume f t arrivals batch' o.resource_version w'

-- The answers to one round of the loop of watch: to the list and to the watch, none if its call
-- fails.
pub record Round : Type 0 where
  pub started : Time
  pub pages : List Listing
  pub arrivals : Option (List Arrival)

-- c.sender.Reconcile, whose error is only logged.
unfoldable pub send_marker : Feed → Target → Time → Watcher → Watcher
unfolding shard_name reconcile_batch
send_marker f t started w = record w {
  sent = w.sent ++ reconcile_batch f.calls.ids f.cluster (shard_name f t) started ∷ [];
}

-- Where a round ends: the loop goes on with a resource version, or waits in the list, or in the
-- watch with a batch.
pub data RoundEnd : Type 0 where
  again : String → Watcher → RoundEnd
  in_list : Watcher → RoundEnd
  in_watch : List IngestEvent → String → Watcher → RoundEnd

abbrev pub watched : Consumed → RoundEnd
watched (Consumed.waiting batch rv w) = in_watch batch rv w
watched (Consumed.returned rv w) = again rv w

abbrev pub open_watch : Feed → Target → Option (List Arrival) → String → Watcher → RoundEnd
open_watch f t none rv w = again rv w
open_watch f t (some arrivals) rv w = watched (consume f t arrivals [] rv w)

abbrev pub after_list : Feed → Target → Round → Snapshot → RoundEnd
after_list f t r (Snapshot.listing w) = in_list w
after_list f t r (Snapshot.failed w) = again "" w
after_list f t r (Snapshot.listed rv w) = open_watch f t r.arrivals rv (send_marker f t r.started w)

unfoldable pub watch_round : Feed → Target → Round → Watcher → RoundEnd
unfolding list_pages consume send_marker
watch_round f t r w = after_list f t r (list_pages f t r.started r.pages w)

abbrev pub state_of : RoundEnd → Watcher
state_of (again rv w) = w
state_of (in_list w) = w
state_of (in_watch batch rv w) = w

abbrev pub pending : RoundEnd → List IngestEvent
pending (again rv w) = []
pending (in_list w) = []
pending (in_watch batch rv w) = batch

abbrev pub and_again : RoundEnd → (Watcher → RoundEnd) → RoundEnd
and_again (again rv w) k = k w
and_again (in_list w) k = in_list w
and_again (in_watch batch rv w) k = in_watch batch rv w

-- (*Collector).watch: the rounds until the context ends, or the one that waits.
unfoldable pub watch : Feed → Target → List Round → Watcher → RoundEnd
unfolding watch_round
watch f t [] w = again "" w
watch f t (r ∷ rounds) w = and_again (watch_round f t r w) (watch f t rounds)
