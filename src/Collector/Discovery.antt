-- ===== src/Collector/Discovery.antt =====
-- collector.go: reconcile, the collector's periodic discovery, with the targeted restarts of
-- resync.go. The two maps of shards have the same keys and are one list here, whose `run` stands for
-- the goroutine and its context. What discovery, the authorization API and the resync file return
-- are parameters.
pub mod Keeps
pub mod Exact
pub mod Resync
use icinga_kubernetes.Common.{
  ℕ, ◌+◌, ltb, ◌&&◌, ◌||◌, not, is_none, is_some, any, Bool, true, false, Option, none, some, List,
  [], ◌∷◌, ◌++◌, map, length, String, str_eq, if◌then◌else◌,
}
use icinga_kubernetes.Common.Table.{find, select, upsert, at}
use icinga_kubernetes.Common.Text.{contains}
use icinga_kubernetes.Common.Result.{Result, ok, err}
use icinga_kubernetes.Collector.Permissions.{
  Gvr, gvr_eq, has, allowlisted, namespaced_allowlist, cluster_allowlist, Authorization,
  ReviewError, Reviewed, ResourceRule, effective_rules, effective_cluster_permissions,
}
use icinga_kubernetes.Collector.Wanted.{
  LeaseShard, shard_eq, NamesBy, key_of, partition_namespaces, preserve_existing_namespaces,
  want_namespaced, want_cluster,
}

pub record Shard : Type 0 where
  pub target : LeaseShard
  pub namespaces : List String
  pub run : ℕ

pub record Collector : Type 0 where
  pub shards : List Shard
  pub next_run : ℕ
  pub cancelled : List ℕ
  pub applied_resync : List (String × Gvr)
  pub ready : Bool

-- metav1.APIResource and APIResourceList; the group and version are none where they do not parse.
pub record ApiResource : Type 0 where
  pub name : String
  pub namespaced : Bool
  pub verbs : List String

pub record ApiResourceList : Type 0 where
  pub group_version : Option (String × String)
  pub resources : List ApiResource

pub record ResyncRequest : Type 0 where
  pub id : String
  pub gvr : Gvr

pub data ReconcileError : Type 0 where
  discovery_failed resync_file_invalid : ReconcileError
  resync_changed : String → ReconcileError
  review : ReviewError → ReconcileError

pub record Observation : Type 0 where
  pub lists : List ApiResourceList
  pub discovery_error : Bool
  pub authorization : Authorization
  pub resync : Option (List ResyncRequest)

pub record Settings : Type 0 where
  pub lease_namespace : String
  pub crc32 : String → ℕ

abbrev pub is_watchable : ApiResource → Bool
is_watchable r = not (contains r.name "/") && has r.verbs "list" && has r.verbs "watch"

abbrev pub is_allowlisted : Bool → Gvr → Bool
is_allowlisted namespaced gvr =
    (namespaced && allowlisted namespaced_allowlist gvr)
    || (not namespaced && allowlisted cluster_allowlist gvr)

abbrev pub scope_key : Gvr × Bool → Gvr
scope_key e = e.0

unfoldable pub prefer : String → String → List ApiResource → List (Gvr × Bool) → List (Gvr × Bool)
prefer group version [] preferred = preferred
prefer group version (r ∷ rs) preferred =
    let gvr : Gvr = record { group = group; version = version; resource = r.name } in
    prefer group version rs (
      if is_watchable r && is_allowlisted r.namespaced gvr
      then upsert (at scope_key gvr_eq gvr) (gvr, r.namespaced) (λ _. (gvr, r.namespaced)) preferred
      else preferred)

unfoldable pub prefer_all : List ApiResourceList → List (Gvr × Bool) → List (Gvr × Bool)
unfolding prefer
prefer_all [] preferred = preferred
prefer_all (l ∷ ls) preferred = elim (l.group_version) [
  | none ↦ prefer_all ls preferred
  | some gv ↦ prefer_all ls (prefer gv.0 gv.1 l.resources preferred)
]

abbrev pub of_gvr : Gvr → Shard → Bool
of_gvr gvr s = gvr_eq s.target.gvr gvr

abbrev pub run_of : Shard → ℕ
run_of s = s.run

-- `cancel()` and the two deletions, for the shards that pass the test.
unfoldable pub stop_shards : (Shard → Bool) → Collector → Collector
stop_shards p c = record c {
  shards = select (λ s. not (p s)) c.shards;
  cancelled = map run_of (select p c.shards) ++ c.cancelled;
}

abbrev pub request_id : String × Gvr → String
request_id e = e.0

-- applyResyncRequests
unfoldable pub apply_resync_requests :
    List ResyncRequest → NamesBy Gvr → Collector → Collector × Option ReconcileError
apply_resync_requests [] wanted c = (c, none)
apply_resync_requests (r ∷ rs) wanted c =
    let skipped = apply_resync_requests rs wanted c in
    let stopped = stop_shards (of_gvr r.gvr) c in
    let applied =
      apply_resync_requests rs wanted
        (record stopped { applied_resync = (r.id, r.gvr) ∷ c.applied_resync }) in
    elim (find (at request_id str_eq r.id) c.applied_resync) [
      | some previous ↦
          if gvr_eq previous.1 r.gvr
          then skipped
          else (c, some (ReconcileError.resync_changed r.id))
      | none ↦ if is_some (find (at key_of gvr_eq r.gvr) wanted) then applied else skipped
    ]

abbrev pub target_of : Shard → LeaseShard
target_of s = s.target

-- `state.update(namespaces)` of the shard that runs, or a new shard.
unfoldable pub start_shard : LeaseShard → List String → Collector → Collector
start_shard target namespaces c = record c {
  shards =
      upsert (at target_of shard_eq target)
        (record { target = target; namespaces = namespaces; run = c.next_run })
        (λ s. record s { namespaces = namespaces }) c.shards;
  next_run =
      if is_some (find (at target_of shard_eq target) c.shards) then c.next_run else c.next_run + 1;
}

unfoldable pub start_shards : NamesBy LeaseShard → Collector → Collector
unfolding start_shard
start_shards [] c = c
start_shards ((target, namespaces) ∷ wanted) c =
    start_shards wanted (start_shard target namespaces c)

abbrev pub existing : List Shard → NamesBy LeaseShard
existing = map (λ s. (s.target, s.namespaces))

abbrev pub is_unwanted : NamesBy LeaseShard → Shard → Bool
is_unwanted wanted s = is_none (find (at key_of shard_eq s.target) wanted)

-- collectorReady
unfoldable pub collector_ready : Bool → Bool → ℕ → Bool
collector_ready discovery_error permissions_complete active_shards =
    (not discovery_error && permissions_complete) || ltb 0 active_shards

-- canApplyResync
unfoldable pub can_apply_resync : Bool → Bool → Bool
can_apply_resync discovery_error permissions_complete = not discovery_error && permissions_complete

-- The requests of the file, where they are applied at all.
unfoldable pub resync :
    Observation → Bool → NamesBy Gvr → Collector → Collector × Option ReconcileError
unfolding apply_resync_requests can_apply_resync
resync o complete wanted c = elim (o.resync) [
  | none ↦ (c, some ReconcileError.resync_file_invalid)
  | some requests ↦
      if can_apply_resync o.discovery_error complete
      then apply_resync_requests requests wanted c
      else (c, none)
]

-- The shards, from the partition of what is wanted on.
unfoldable pub elect : Settings → Bool → Bool → NamesBy Gvr → Collector → Collector
unfolding partition_namespaces preserve_existing_namespaces start_shards collector_ready stop_shards
elect settings discovery_error complete wanted c =
    let partitioned = partition_namespaces settings.crc32 wanted in
    let election =
      if complete
      then partitioned
      else preserve_existing_namespaces partitioned (existing c.shards) in
    let started = start_shards election c in
    let swept =
      if not discovery_error && complete
      then stop_shards (is_unwanted election) started
      else started in
    record swept { ready = collector_ready discovery_error complete (length swept.shards) }

abbrev pub review_error : Option ReviewError → Option ReconcileError
review_error none = none
review_error (some e) = some (ReconcileError.review e)

abbrev pub or_error : Option ReconcileError → Option ReconcileError → Option ReconcileError
or_error none e = e
or_error (some e) e' = some e

abbrev pub preferred_of : Observation → List (Gvr × Bool)
preferred_of o = prefer_all o.lists []

abbrev pub rules_of : Settings → Observation → Reviewed (List (String × List ResourceRule))
rules_of settings o = effective_rules o.authorization settings.lease_namespace (preferred_of o)

abbrev pub cluster_of : Observation → Reviewed (List Gvr)
cluster_of o = effective_cluster_permissions o.authorization (preferred_of o)

-- permissionsComplete
abbrev pub permissions_complete : Settings → Observation → Bool
permissions_complete settings o = (rules_of settings o).complete && (cluster_of o).complete

abbrev pub wanted_of : Settings → Observation → NamesBy Gvr
wanted_of settings o =
    want_cluster (cluster_of o).value
      (want_namespaced (rules_of settings o).value (preferred_of o) [])

-- (*Collector).reconcile, with the error that it returns.
unfoldable pub reconcile : Settings → Observation → Collector → Collector × Option ReconcileError
unfolding prefer_all effective_rules effective_cluster_permissions want_namespaced want_cluster
    resync elect
reconcile settings o c =
    let wanted = wanted_of settings o in
    let complete = permissions_complete settings o in
    let (resynced, resync_error) = resync o complete wanted c in
    (
      elect settings o.discovery_error complete wanted resynced,
      if o.discovery_error
          then some ReconcileError.discovery_failed
          else or_error resync_error (
              or_error (review_error (rules_of settings o).error)
                (review_error (cluster_of o).error)),
    )
