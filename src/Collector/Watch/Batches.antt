-- ===== src/Collector/Watch/Batches.antt =====
-- collector.go, client.go, model.go: the batches of a watch before the checks of the API.
use Prim.Native.String.{◌++◌ as str_append}
use text.Mathlib.TextPositions.{len-append}
use icinga_kubernetes.Common.{
  ℕ, ◌≤◌, ◌<◌, ◌≡◌, ◌≢◌, refl, ap, arith, inl, inr, Bool-cases, true, false, is_some, leb, ltb,
  Option, none, some, List, [], ◌∷◌, ◌++◌, length, length-append, All, All-append, String, str_eq,
  len,
}
use icinga_kubernetes.Common.Result.{ok}
use icinga_kubernetes.Json.{end}
use icinga_kubernetes.Model.{Time, IngestEvent, IngestBatch}
use icinga_kubernetes.Model.Validate.{
  Host, empty_or_longer, action_refused, validate, field_refused, metadata_refused, summary_refused,
}
use icinga_kubernetes.Model.Accepted.{
  IsAcceptedEvent, IsAcceptedBatch, validate_resource-IsAccepted, validate-IsAcceptedBatch,
}
use icinga_kubernetes.Adapter.Object.{Object}
use icinga_kubernetes.Sender.Markers.{reconcile_batch}
use icinga_kubernetes.Collector.Normalize.{is_within}
use icinga_kubernetes.Collector.Normalize.Parts.{not_empty, within-Unrefused}
use icinga_kubernetes.Collector.Normalize.Accepted.{
  IsNamed, host_of, normalize_with_registry-accepted,
}
use icinga_kubernetes.Collector.Watch.{
  Target, Feed, Watcher, shard_name, event, snapshot_event, flush, Filling, add_event, Listing,
  list_failed, page, list_page, Snapshot, list_pages, EventType, Arrival, cancelled, tick, closed,
  unknown_object, arrived, Consumed, consume, Round, send_marker, RoundEnd, again, in_list,
  in_watch, watched, open_watch, after_list, watch_round, state_of, and_again, watch, batch_of,
}

-- What the configuration, the makers of ids and the Kubernetes API are relied on for.
pub record IsConfigured (f : Feed) (t : Target) (parse_uuid : String → Option ℕ) : Type 0 where
  pub cluster : empty_or_longer 253 f.cluster ≡ false
  pub shard : empty_or_longer 500 (shard_name f t) ≡ false
  pub positive : 1 ≤ f.batch_size
  pub bounded : f.batch_size ≤ 1000
  pub uuids : (s : String) → is_some (parse_uuid (f.calls.new_sha1 s)) ≡ true
  pub times : (time : Time) → empty_or_longer 512 (f.calls.format_time time) ≡ false
  pub empty_map : is_within (f.calls.marshal_size end) 65_536 ≡ true

abbrev pub NamedItem : Target → Time × Object → Type 0
NamedItem t (now, o) = (now ≢ 0) × IsNamed t.gvr o

abbrev pub NamedPage : Target → Listing → Type 0
NamedPage t list_failed = Unit
NamedPage t (page items rv continue) = All (NamedItem t) items

abbrev pub NamedArrival : Target → Arrival → Type 0
NamedArrival t (arrived type now o) = NamedItem t (now, o)
NamedArrival t cancelled = Unit
NamedArrival t tick = Unit
NamedArrival t closed = Unit
NamedArrival t unknown_object = Unit

abbrev pub NamedArrivals : Target → Option (List Arrival) → Type 0
NamedArrivals t none = Unit
NamedArrivals t (some arrivals) = All (NamedArrival t) arrivals

abbrev pub NamedRound : Target → Round → Type 0
NamedRound t r = (r.started ≢ 0) × All (NamedPage t) r.pages × NamedArrivals t r.arrivals

module _ (f : Feed) (t : Target) (parse_uuid : String → Option ℕ)
    (configured : IsConfigured f t parse_uuid) where
  host : Host
  host = host_of f.calls parse_uuid

  abbrev pub Accepted : IngestBatch → Type 0
  Accepted b = validate (host_of f.calls parse_uuid) b ≡ ok tt

  abbrev Good : IngestEvent → Type 0
  Good = IsAcceptedEvent (host_of f.calls parse_uuid) f.cluster

  -- All batches accepted, and a batch that has room.
  abbrev Sound : List IngestEvent → Watcher → Type 0
  Sound batch w = All Accepted w.sent × All Good batch × (length batch < f.batch_size)

  shard_fits : empty_or_longer 512 (shard_name f t) ≡ false
  shard_fits = let s = configured.shard in ground (arith, s)

  event-Good :
      (action : String) (now : Time) (o : Object)
      → action_refused action ≡ false
      → NamedItem t (now, o)
      → Good (event f action t.gvr now o)
  unfolding event
  event-Good action now o a (started, named) = (
    configured.uuids _,
    a,
    (validate_resource-IsAccepted (host_of f.calls parse_uuid) f.cluster _).0 (
        normalize_with_registry-accepted f.calls parse_uuid now f.cluster t.gvr o f.adapters named
          started configured.empty_map),
  )

  snapshot_event-Good :
      (started now : Time) (o : Object)
      → NamedItem t (now, o)
      → Good (snapshot_event f t.gvr started now o)
  unfolding snapshot_event
  snapshot_event-Good started now o named =
      let (id, action, r) = event-Good "upsert" now o refl named in (configured.uuids _, action, r)

  flush-Accepted :
      (events : List IngestEvent) (w : Watcher)
      → All Accepted w.sent
      → All Good events
      → length events ≤ f.batch_size
      → All Accepted (flush f t events w).sent
  unfolding flush
  flush-Accepted [] w a g n = a
  flush-Accepted (e ∷ events) w a g n =
      let b = configured.bounded in
      let batch = batch_of f t (e ∷ events) in
      let accepted : IsAcceptedBatch (host_of f.calls parse_uuid) batch = record {
        cluster = configured.cluster;
        shard = shard_fits;
        nonempty = omega arith;
        bounded = omega (arith, b, n);
        events = g;
      } in
      All-append Accepted w.sent (batch ∷ []) a
        ((validate-IsAcceptedBatch (host_of f.calls parse_uuid) batch).1 accepted, tt)

  add_event-Sound :
      (e : IngestEvent) (events : List IngestEvent) (w : Watcher)
      → Sound events w
      → Good e
      → Sound (add_event f t e events w).0 (add_event f t e events w).1
  unfolding add_event
  add_event-Sound e events w (a, g, n) good =
      let filled = All-append Good events (e ∷ []) g (good, tt) in
      let longer = length-append events (e ∷ []) in
      let b = configured.positive in
      elim (Bool-cases (leb f.batch_size (length (events ++ e ∷ [])))) [
        | inl q ↦ rw q (
          flush-Accepted (events ++ e ∷ []) w a filled (omega (arith, n, longer)),
          tt,
          omega (arith, b),
        )
        | inr q ↦ rw q (a, filled, ground (arith, q))
      ]

  list_page-Accepted :
      (started : Time) (items : List (Time × Object)) (s : Filling)
      → Sound s.0 s.1
      → All (NamedItem t) items
      → All Accepted (list_page f t started items s).sent
  unfolding list_page
  list_page-Accepted started [] (events, w) (a, g, n) named =
      flush-Accepted events w a g (omega (arith, n))
  list_page-Accepted started ((now, o) ∷ items) (events, w) s (named, rest) =
      list_page-Accepted started items _
        (add_event-Sound _ events w s (snapshot_event-Good started now o named)) rest

  marker_uid : empty_or_longer 512 (str_append "reconcile:" (shard_name f t)) ≡ false
  marker_uid =
      let s = configured.shard in
      let size = len-append "reconcile:" (shard_name f t) in
      let uid = str_append "reconcile:" (shard_name f t) in
      let nonempty : str_eq uid "" ≡ false = not_empty uid λ e. omega (arith, size, ap len e) in
      let short : ltb 512 (len uid) ≡ false = ground (arith, s, size) in rw nonempty short

  marker-Accepted :
      (started : Time)
      → started ≢ 0
      → Accepted (reconcile_batch f.calls.ids f.cluster (shard_name f t) started)
  unfolding reconcile_batch field_refused metadata_refused summary_refused
  marker-Accepted started moved =
      let batch = reconcile_batch f.calls.ids f.cluster (shard_name f t) started in
      let accepted : IsAcceptedBatch (host_of f.calls parse_uuid) batch = record {
        cluster = configured.cluster;
        shard = shard_fits;
        nonempty = omega arith;
        bounded = omega arith;
        events = (
          (
            configured.uuids _,
            refl,
            record {
              cluster_eq = refl;
              uid = marker_uid;
              id_eq = refl;
              fields = rw (shard_fits, configured.times started) refl;
              metadata = refl;
              labels = tt;
              annotations = tt;
              owners = tt;
              conditions = tt;
              reason = omega arith;
              summary = within-Unrefused (f.calls.marshal_size end) configured.empty_map;
              state = refl;
              observed = moved;
            },
          ),
          tt,
        );
      } in
      (validate-IsAcceptedBatch (host_of f.calls parse_uuid) batch).1 accepted

  abbrev empty_room : 0 < f.batch_size
  empty_room = let b = configured.positive in omega (arith, b)

  abbrev taken : Snapshot → Watcher
  taken (Snapshot.listing w) = w
  taken (Snapshot.failed w) = w
  taken (Snapshot.listed rv w) = w

  list_pages-Accepted :
      (started : Time) (pages : List Listing) (w : Watcher)
      → All Accepted w.sent
      → All (NamedPage t) pages
      → All Accepted (taken (list_pages f t started pages w)).sent
  unfolding list_pages
  list_pages-Accepted started [] w a named = a
  list_pages-Accepted started (list_failed ∷ pages) w a named = a
  list_pages-Accepted started (page items rv continue ∷ pages) w a (named, rest) =
      let b = list_page-Accepted started items ([], w) (a, tt, empty_room) named in
      elim (Bool-cases (str_eq continue "")) [
        | inl q ↦ rw q b
        | inr q ↦
            rw q (list_pages-Accepted started pages (list_page f t started items ([], w)) b rest)
      ]

  abbrev SoundConsumed : Consumed → Type 0
  SoundConsumed (Consumed.waiting batch rv w) = Sound batch w
  SoundConsumed (Consumed.returned rv w) = All Accepted w.sent

  flush-Sound :
      (batch : List IngestEvent) (w : Watcher)
      → Sound batch w
      → All Accepted (flush f t batch w).sent
  flush-Sound batch w (a, g, n) = flush-Accepted batch w a g (omega (arith, n))

  consume-Sound :
      (arrivals : List Arrival) (batch : List IngestEvent) (rv : String) (w : Watcher)
      → Sound batch w
      → All (NamedArrival t) arrivals
      → SoundConsumed (consume f t arrivals batch rv w)
  unfolding consume
  consume-Sound [] batch rv w s named = s
  consume-Sound (cancelled ∷ rest) batch rv w s named = flush-Sound batch w s
  consume-Sound (closed ∷ rest) batch rv w s named = flush-Sound batch w s
  consume-Sound (tick ∷ rest) batch rv w s (_, named) =
      consume-Sound rest [] rv _ (flush-Sound batch w s, tt, empty_room) named
  consume-Sound (unknown_object ∷ rest) batch rv w s (_, named) =
      consume-Sound rest batch rv w s named
  consume-Sound (arrived EventType.bookmark now o ∷ rest) batch rv w s (_, named) =
      consume-Sound rest batch o.resource_version w s named
  consume-Sound (arrived EventType.error now o ∷ rest) batch rv w s named = flush-Sound batch w s
  consume-Sound (arrived EventType.added now o ∷ rest) batch rv w s (item, named) =
      consume-Sound rest _ o.resource_version _
        (add_event-Sound _ batch w s (event-Good "upsert" now o refl item)) named
  consume-Sound (arrived EventType.modified now o ∷ rest) batch rv w s (item, named) =
      consume-Sound rest _ o.resource_version _
        (add_event-Sound _ batch w s (event-Good "upsert" now o refl item)) named
  consume-Sound (arrived EventType.deleted now o ∷ rest) batch rv w s (item, named) =
      consume-Sound rest _ o.resource_version _
        (add_event-Sound _ batch w s (event-Good "delete" now o refl item)) named

  watched-Accepted : (c : Consumed) → SoundConsumed c → All Accepted (state_of (watched c)).sent
  watched-Accepted (Consumed.waiting batch rv w) (a, _, _) = a
  watched-Accepted (Consumed.returned rv w) a = a

  after_list-Accepted :
      (r : Round) (s : Snapshot)
      → All Accepted (taken s).sent
      → r.started ≢ 0
      → NamedArrivals t r.arrivals
      → All Accepted (state_of (after_list f t r s)).sent
  unfolding send_marker
  after_list-Accepted r (Snapshot.listing w) a moved named = a
  after_list-Accepted r (Snapshot.failed w) a moved named = a
  after_list-Accepted r (Snapshot.listed rv w) a moved named =
      open_watch-Accepted r.arrivals rv (send_marker f t r.started w)
        (All-append Accepted w.sent _ a (marker-Accepted r.started moved, tt)) named
    where
      open_watch-Accepted :
          (arrivals : Option (List Arrival)) (rv : String) (w : Watcher)
          → All Accepted w.sent
          → NamedArrivals t arrivals
          → All Accepted (state_of (open_watch f t arrivals rv w)).sent
      open_watch-Accepted none rv w a named = a
      open_watch-Accepted (some arrivals) rv w a named =
          watched-Accepted (consume f t arrivals [] rv w)
            (consume-Sound arrivals [] rv w (a, tt, empty_room) named)

  and_again-Accepted :
      (e : RoundEnd) (k : Watcher → RoundEnd)
      → All Accepted (state_of e).sent
      → ((w : Watcher) → All Accepted w.sent → All Accepted (state_of (k w)).sent)
      → All Accepted (state_of (and_again e k)).sent
  and_again-Accepted (again rv w) k a more = more w a
  and_again-Accepted (in_list w) k a more = a
  and_again-Accepted (in_watch batch rv w) k a more = a

  -- Every batch that a watch hands to the sender passes the API's validation, whatever the Kubernetes
  -- API answers in its rounds: if the configured sizes and names fit the limits, the makers of ids
  -- make UUIDs, the clock has moved, and every object has a name, a kind, a UID and a version within
  -- the limits, and complete owner references.
  pub watch-Accepted :
      (rounds : List Round) (w : Watcher)
      → All (NamedRound t) rounds
      → All Accepted w.sent
      → All Accepted (state_of (watch f t rounds w)).sent
  unfolding watch watch_round
  watch-Accepted [] w named a = a
  watch-Accepted (r ∷ rounds) w ((moved, pages, arrivals), named) a =
      and_again-Accepted (watch_round f t r w) (watch f t rounds)
        (after_list-Accepted r (list_pages f t r.started r.pages w)
          (list_pages-Accepted r.started r.pages w a pages) moved arrivals)
        (λ v b. watch-Accepted rounds v named b)
