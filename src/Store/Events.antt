-- ===== src/Store/Events.antt =====
-- store/event_recovery.go: when a stored warning event counts as history. `parse_time` is
-- time.Parse with the layout RFC3339Nano, `now` what time.Now returns.
pub mod Recovery
use Prim.Native.String.{◌++◌ as str_append}
use text.Mathlib.Text.{starts_with}
use icinga_kubernetes.Common.{
  ℕ, ◌+◌, ◌*◌, ◌==◌, ltb, leb, ◌&&◌, ◌||◌, not, any, Bool, true, false, Option, none, some, or_else,
  List, [], ◌∷◌, String, str_eq, if◌then◌else◌,
}
use icinga_kubernetes.Json.{Fields, get, put, as_text, string}
use icinga_kubernetes.Common.Table.{find}
use icinga_kubernetes.Model.{Time, State, state_text, is_ok, Resource}
use icinga_kubernetes.Store.Tables.{ResourceRow}

abbrev pub ParseTime : Type 0
ParseTime = String → Option Time

abbrev pub second : ℕ
second = 1_000_000_000

-- 10 * time.Minute
abbrev pub event_problem_window : Time
event_problem_window = 600 * second

abbrev pub inactive_event_reason : String
inactive_event_reason = "Historical event: no occurrence in the last 10 minutes"

abbrev pub later_of : Time → Option Time → Time
later_of latest none = latest
later_of latest (some t) = if ltb latest t then t else latest

-- The loop over the keys, from the latest time so far.
unfoldable pub latest_of : ParseTime → Fields → List String → Time → Time
latest_of parse_time summary [] latest = latest
latest_of parse_time summary (key ∷ keys) latest =
    latest_of parse_time summary keys (later_of latest (parse_time (as_text (get key summary))))

-- eventOccurrence
unfoldable pub event_occurrence : ParseTime → Resource → Time
unfolding latest_of
event_occurrence parse_time r =
    latest_of parse_time r.summary
      ("lastTimestamp" ∷ "eventTime" ∷ "series.lastObservedTime" ∷ "deprecatedLastTimestamp" ∷ []) 0

-- eventInactivity: `!last.After(now.Add(-window))` is `last + window ≤ now`.
unfoldable pub event_inactivity : ParseTime → Resource → Time → String
event_inactivity parse_time r now =
    let last = event_occurrence parse_time r in
    if not (last == 0) && leb (last + event_problem_window) now then inactive_event_reason else ""

-- eventLifecycle
unfoldable pub event_lifecycle : String → String
event_lifecycle reason = if starts_with reason inactive_event_reason then "inactive" else "resolved"

-- warningEvent
unfoldable pub warning_event : Resource → Bool
warning_event r =
    str_eq r.kind "Event"
    && (str_eq r.group "core" || str_eq r.group "events.k8s.io")
    && not (is_ok r.state)

first_nonempty : Fields → List String → String
first_nonempty summary [] = ""
first_nonempty summary (key ∷ keys) =
    let uid = as_text (get key summary) in
    let rest = first_nonempty summary keys in if not (str_eq uid "") then uid else rest

-- eventReference
unfoldable pub event_reference : Resource → String
unfolding first_nonempty
event_reference r = first_nonempty r.summary ("regarding.uid" ∷ "involvedObject.uid" ∷ [])

abbrev pub healthy_kinds : List String
healthy_kinds =
    "Pod" ∷ "Deployment" ∷ "StatefulSet" ∷ "ReplicaSet" ∷ "DaemonSet" ∷ "Job"
    ∷ "PersistentVolumeClaim" ∷ []

-- eventRecovery, with the state, kind, observation and deletion of the referenced resource.
unfoldable pub event_recovery : ParseTime → Time → Resource → State → String → Time → Bool → String
event_recovery parse_time now r state kind observed deleted =
    let inactive = event_inactivity parse_time r now in
    let last = event_occurrence parse_time r in
    if not (str_eq inactive "")
    then inactive
    else if last == 0 || ltb observed last
    then ""
    else if deleted
    then "Historical event: referenced resource has been deleted"
    else if not (is_ok state)
    then ""
    else if any (str_eq kind) healthy_kinds
    then str_append "Historical event: referenced " (str_append kind " is healthy")
    else ""

-- SELECT reason … WHERE id=$1 AND resource_version=$2 AND state='ok' AND the lifecycle is one of
-- the two AND deleted_at IS NULL
unfoldable pub is_resolved_before : Resource → ResourceRow → Bool
is_resolved_before r row =
    let lifecycle = as_text (get "eventLifecycle" row.resource.summary) in
    str_eq row.resource.id r.id
    && str_eq row.resource.resource_version r.resource_version
    && is_ok row.resource.state
    && (str_eq lifecycle "resolved" || str_eq lifecycle "inactive")
    && elim row.resource.deleted_at [ none ↦ true | some _ ↦ false ]

-- WHERE cluster_name=$1 AND kubernetes_uid=$2 AND namespace=$3
unfoldable pub is_referenced : Resource → ResourceRow → Bool
is_referenced r row =
    str_eq row.resource.cluster r.cluster
    && str_eq row.resource.uid (event_reference r)
    && str_eq row.resource.namespace r.namespace

abbrev pub reason_of : Option ResourceRow → String
reason_of none = ""
reason_of (some row) = row.resource.reason

-- The reason that the referenced resource gives.
unfoldable pub referenced_reason : ParseTime → Time → Resource → Option ResourceRow → String
referenced_reason parse_time now r none = ""
referenced_reason parse_time now r (some row) =
    event_recovery parse_time now r row.resource.state row.resource.kind row.resource.observed_at
      (elim row.resource.deleted_at [ none ↦ false | some _ ↦ true ])

-- The reason with which resolveEvent closes the event, empty where it leaves it open.
unfoldable pub resolution : ParseTime → Time → List ResourceRow → Resource → String
resolution parse_time now rows r =
    let previous = reason_of (find (is_resolved_before r) rows) in
    let reason = if not (str_eq previous "") then previous else event_inactivity parse_time r now in
    let referenced = referenced_reason parse_time now r (find (is_referenced r) rows) in
    if str_eq reason "" && not (str_eq (event_reference r) "") then referenced else reason

-- r.State, r.Reason = ok, reason; r.Summary["eventLifecycle"] = …
unfoldable pub resolve_with : String → Resource → Resource
resolve_with reason r = record r {
  state = State.ok;
  reason = reason;
  summary = put "eventLifecycle" (string (event_lifecycle reason)) r.summary;
}

-- resolveEvent
unfoldable pub resolve_event : ParseTime → Time → List ResourceRow → Resource → Resource
resolve_event parse_time now rows r =
    let reason = resolution parse_time now rows r in
    if not (warning_event r) then r else if not (str_eq reason "") then resolve_with reason r else r
