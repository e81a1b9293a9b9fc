-- ===== src/Store/Resolve.antt =====
-- store/event_recovery.go: ResolveEvents, which closes the warning events whose resource has
-- recovered after they came. `locked` says which rows other transactions hold, `json_text` is the
-- text that ->> makes of a JSON value that is no string.
pub mod Closed
pub mod Resolved
use icinga_kubernetes.Common.{
  ◌*◌, ◌&&◌, ◌||◌, not, is_none, is_some, Bool, true, false, Option, none, some, or_else, List, [],
  ◌∷◌, sort, String, str_eq, if◌then◌else◌,
}
use icinga_kubernetes.Common.Text.{str_ltb}
use icinga_kubernetes.Common.Table.{select, find, update}
use icinga_kubernetes.Json.{Value, null, boolean, integer, string, array, object, Fields, get, put}
use icinga_kubernetes.Model.{Time, State, is_ok, Resource}
use icinga_kubernetes.Store.Tables.{ResourceRow, Db, notify, log_change}
use icinga_kubernetes.Store.Events.{ParseTime, second, event_recovery, event_lifecycle}

-- summary->>'key'
abbrev pub text_at : (Value → String) → String → Fields → Option String
text_at json_text key summary = elim (get key summary) [
  | none ↦ none
  | some v ↦ elim v [
    | null ↦ none
    | boolean b ↦ some (json_text (boolean b))
    | integer n ↦ some (json_text (integer n))
    | string s ↦ some s
    | array items ↦ some (json_text (array items))
    | object fs ↦ some (json_text (object fs))
  ]
]

abbrev coalesce : Option String → Option String → Option String
coalesce none b = b
coalesce (some a) b = some a

-- COALESCE(e.summary->>'regarding.uid',e.summary->>'involvedObject.uid')
unfoldable pub reference_text : (Value → String) → Fields → Option String
reference_text json_text summary =
    coalesce (text_at json_text "regarding.uid" summary)
      (text_at json_text "involvedObject.uid" summary)

abbrev is_equal : Option String → String → Bool
is_equal none s = false
is_equal (some t) s = str_eq s t

-- The condition of the LEFT JOIN.
unfoldable pub is_parent : (Value → String) → ResourceRow → ResourceRow → Bool
unfolding reference_text
is_parent json_text e p =
    str_eq p.resource.cluster e.resource.cluster
    && str_eq p.resource.namespace e.resource.namespace
    && is_equal (reference_text json_text e.resource.summary) p.resource.uid

-- e.kind='Event' AND e.api_group IN (…) AND e.state<>'ok' AND e.deleted_at IS NULL
unfoldable pub is_open_event : ResourceRow → Bool
is_open_event e =
    str_eq e.resource.kind "Event"
    && (str_eq e.resource.group "core" || str_eq e.resource.group "events.k8s.io")
    && not (is_ok e.resource.state)
    && is_none e.resource.deleted_at

-- 'epoch'::timestamptz, in nanoseconds since Go's zero time.
abbrev pub epoch : Time
epoch = 62_135_596_800 * second

-- The reason with which the row is closed, empty where it stays open. eventRecovery reads the
-- summary of the resource that it gets, and no other field.
unfoldable pub reason_with : ParseTime → Time → Resource → Option ResourceRow → String
unfolding event_recovery
reason_with parse_time now e none = event_recovery parse_time now e State.unknown "" epoch false
reason_with parse_time now e (some p) =
    event_recovery parse_time now e p.resource.state p.resource.kind p.resource.observed_at
      (is_some p.resource.deleted_at)

abbrev pub by_id : ResourceRow → ResourceRow → Bool
by_id a b = str_ltb a.resource.id b.resource.id

-- What the transaction is given: the parsers, the clocks of the process and of the database, and the
-- rows that are locked.
pub record Transaction : Type 0 where
  pub parse_time : ParseTime
  pub json_text : Value → String
  pub now : Time
  pub db_now : Time
  pub locked : String → Bool

unfoldable pub open_events : Transaction → Db → List ResourceRow
unfolding is_open_event
open_events t db =
    sort by_id (select (λ e. is_open_event e && not (t.locked e.resource.id)) db.resources)

unfoldable pub closing_reason : Transaction → Db → ResourceRow → String
unfolding is_parent reason_with
closing_reason t db e =
    reason_with t.parse_time t.now e.resource (find (is_parent t.json_text e) db.resources)

-- The loop over the rows: the ids and reasons of those that are closed.
unfoldable pub recoveries : Transaction → Db → List ResourceRow → List (String × String)
unfolding closing_reason
recoveries t db [] = []
recoveries t db (e ∷ es) =
    let reason = closing_reason t db e in
    let rest = recoveries t db es in
    if str_eq reason "" then rest else (e.resource.id, reason) ∷ rest

-- SET state='ok',reason=$2,summary=summary || …,changed_at=clock_timestamp()
unfoldable pub close_row : Time → String → ResourceRow → ResourceRow
unfolding event_lifecycle
close_row now reason row = record row {
  resource = record (row.resource) {
    state = State.ok;
    reason = reason;
    summary = put "eventLifecycle" (string (event_lifecycle reason)) row.resource.summary;
  };
  changed_at = now;
}

abbrev pub has_resource_id : String → ResourceRow → Bool
has_resource_id id row = str_eq row.resource.id id

abbrev pub announce : Time → Option ResourceRow → Db → Db
announce now none db = db
announce now (some row) db =
    log_change now row.resource.id row.resource.cluster "upsert"
      (notify now row.resource "upsert" db)

-- The statement for one recovery: the update, the notification of the new row and its change.
unfoldable pub close_event : Time → String → String → Db → Db
unfolding close_row notify log_change
close_event now id reason db =
    let updated = record db {
      resources = update (has_resource_id id) (close_row now reason) db.resources;
    } in
    announce now (find (has_resource_id id) updated.resources) updated

unfoldable pub close_events : Time → List (String × String) → Db → Db
unfolding close_event
close_events now [] db = db
close_events now ((id, reason) ∷ rest) db = close_events now rest (close_event now id reason db)

-- Store.ResolveEvents
unfoldable pub resolve_events : Transaction → Db → Db
unfolding open_events recoveries close_events
resolve_events t db = close_events t.db_now (recoveries t db (open_events t db)) db
