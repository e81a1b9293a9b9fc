-- ===== src/Store/Apply.antt =====
-- store.go: applyResource, what one inbox event does to the inventory. The clock of the process
-- and that of the database are read once in a transaction each. Of the constraints of the tables
-- the ones that this code can meet are checked; a NOT NULL column always has a value here.
pub mod Rows
pub mod Watermark
pub mod Monotone
pub mod Notify
pub mod Reconcile
use icinga_kubernetes.Common.{
  ℕ, zero, suc, ◌+◌, ◌*◌, ◌/◌, ◌==◌, ltb, leb, max, ◌&&◌, ◌||◌, not, any, Bool, true, false,
  is_some, is_none, Option, none, some, or_else, List, [], ◌∷◌, length, String, str_eq,
  if◌then◌else◌,
}
use icinga_kubernetes.Common.Table.{select, find, update, upsert, at}
use icinga_kubernetes.Common.Result.{Result, ok, err, refuse, ◌>>=◌, ◌>>◌}
use icinga_kubernetes.Model.{Time, State, state_text, is_ok, StringMap, Owner, Resource}
use icinga_kubernetes.Model.Validate.{state_refused}
use icinga_kubernetes.Store.Tables.{
  ResourceRow, ShardHead, OwnerRow, Db, DbError, ShardKey, shard_eq, head_key, log_change, notify,
}
use icinga_kubernetes.Store.Events.{ParseTime, resolve_event}

pub record Clock : Type 0 where
  pub now : Time
  pub db_now : Time
  pub parse_time : ParseTime

-- r.ObservedAt.Round(time.Microsecond): half up.
unfoldable pub round_micro : Time → Time
round_micro t = (t + 500) / 1000 * 1000

-- `labels=$2::jsonb`: the same keys with the same values.
lookup : String → StringMap → Option String
lookup k [] = none
lookup k ((j, v) ∷ m) = if str_eq j k then some v else lookup k m

agrees : StringMap → StringMap → Bool
unfolding lookup
agrees [] m = true
agrees ((k, v) ∷ l) m = (elim (lookup k m) [ none ↦ false | some w ↦ str_eq v w ]) && agrees l m

unfoldable pub map_eq : StringMap → StringMap → Bool
unfolding agrees
map_eq l m = (length l == length m) && agrees l m

-- The columns that the first SELECT compares.
unfoldable pub relations_unchanged : Resource → Resource → Bool
relations_unchanged old r =
    map_eq old.labels r.labels
    && str_eq old.group r.group
    && str_eq old.version r.version
    && str_eq old.kind r.kind
    && str_eq old.namespace r.namespace
    && str_eq old.name r.name

abbrev pub row_id : ResourceRow → String
row_id row = row.resource.id

abbrev pub find_row : String → List ResourceRow → Option ResourceRow
find_row id = find (at row_id str_eq id)

-- reconciled_at of the shard's row, NULL where there is none.
abbrev pub watermark_of : Option ShardHead → Option Time
watermark_of none = none
watermark_of (some h) = h.reconciled_at

unfoldable pub watermark : ShardKey → Db → Option Time
watermark k db = watermark_of (find (at head_key shard_eq k) db.heads)

-- `x.Valid && observed.Before(x.Time)`
abbrev pub is_before : Time → Option Time → Bool
is_before observed none = false
is_before observed (some t) = ltb observed t

-- GREATEST(old, new), which passes over NULL.
abbrev pub greatest : Option Time → Time → Time
greatest none t = t
greatest (some s) t = max s t

unfoldable pub raise_watermark : Time → ShardHead → ShardHead
raise_watermark cutoff h = record h { reconciled_at = some (greatest h.reconciled_at cutoff) }

unfoldable pub marked_head : ShardKey → Time → ShardHead
marked_head (cluster, shard) cutoff = record {
  cluster = cluster;
  shard = shard;
  event_id = none;
  pending_events = 0;
  last_applied_at = none;
  reconciled_at = some cutoff;
}

unfoldable pub set_watermark : ShardKey → Time → List ShardHead → List ShardHead
set_watermark k cutoff =
    upsert (at head_key shard_eq k) (marked_head k cutoff) (raise_watermark cutoff)

-- WHERE cluster_name=$1 AND shard=$2 AND deleted_at IS NULL AND observed_at < $3
unfoldable pub is_removed : ShardKey → Time → ResourceRow → Bool
is_removed (cluster, shard) cutoff row =
    str_eq row.resource.cluster cluster
    && str_eq row.shard shard
    && is_none row.resource.deleted_at
    && ltb row.resource.observed_at cutoff

unfoldable pub bury : Time → Time → ResourceRow → ResourceRow
bury now cutoff row = record row {
  resource = record row.resource { deleted_at = some now; observed_at = cutoff };
  changed_at = now;
}

-- The two INSERTs over the removed rows.
unfoldable pub log_removed : Time → List ResourceRow → Db → Db
log_removed now [] db = db
log_removed now (row ∷ rows) db = log_change now row.resource.id row.resource.cluster "delete" (
    let rest = log_removed now rows db in
    if is_ok row.resource.state then rest else notify now row.resource "delete" rest)

-- The branch `action == "reconcile"`.
unfoldable pub reconcile : Time → ShardKey → Time → Db → Db
reconcile now k cutoff db = log_removed now (select (is_removed k cutoff) db.resources) (record db {
  heads = set_watermark k cutoff db.heads;
  resources = update (is_removed k cutoff) (bury now cutoff) db.resources;
})

-- The row that INSERT … ON CONFLICT(id) DO UPDATE writes.
unfoldable pub new_row : Time → String → Option Time → Resource → ResourceRow
new_row now shard deleted r = record {
  resource = record r { owners = []; deleted_at = deleted; freshness = "" };
  shard = shard;
  changed_at = now;
}

-- The update leaves id and cluster_name as they are.
unfoldable pub replace_row : Time → String → Option Time → Resource → ResourceRow → ResourceRow
replace_row now shard deleted r old = record {
  resource = record r {
    id = old.resource.id;
    cluster = old.resource.cluster;
    owners = [];
    deleted_at = deleted;
    freshness = "";
  };
  shard = shard;
  changed_at = now;
}

-- UNIQUE (cluster_name, kubernetes_uid), against the rows of other resources.
unfoldable pub is_taken : Resource → ResourceRow → Bool
is_taken r row =
    not (str_eq row.resource.id r.id)
    && str_eq row.resource.cluster r.cluster
    && str_eq row.resource.uid r.uid

-- DELETE FROM resource_owner WHERE resource_id=$1
unfoldable pub without_owners : String → List OwnerRow → List OwnerRow
without_owners id = select (λ o. not (str_eq o.resource_id id))

abbrev pub is_owner : String → String → OwnerRow → Bool
is_owner id uid o = str_eq o.resource_id id && str_eq o.owner.uid uid

-- INSERT INTO resource_owner for each owner, under PRIMARY KEY (resource_id, owner_uid).
unfoldable pub insert_owners : String → List Owner → List OwnerRow → Result DbError (List OwnerRow)
insert_owners id [] rows = ok rows
insert_owners id (o ∷ os) rows =
    let rest = insert_owners id os (record { resource_id = id; owner = o } ∷ rows) in
    if any (is_owner id o.uid) rows then err DbError.unique_violation else rest

abbrev pub owners_for : String → Resource → List OwnerRow → Result DbError (List OwnerRow)
owners_for action r rows =
    if str_eq action "delete"
    then ok (without_owners r.id rows)
    else insert_owners r.id r.owners (without_owners r.id rows)

-- shouldNotify
unfoldable pub should_notify : String → Option ResourceRow → Resource → Bool
should_notify action none r = not (str_eq action "delete") && not (is_ok r.state)
should_notify action (some row) r =
    let old = row.resource in
    if str_eq action "delete"
    then is_none old.deleted_at && not (is_ok old.state)
    else if is_some old.deleted_at
    then not (is_ok r.state)
    else not (str_eq (state_text old.state) (state_text r.state))
      || (not (is_ok r.state)
          && (not (str_eq old.reason r.reason) || not (relations_unchanged old r)))

-- From the first write on: the row, its owners, the change log and the outbox.
unfoldable pub write_resource : Clock → String → String → Resource → Db → Result DbError Db
write_resource c action shard r db = do
  let old = find_row r.id db.resources
  let deleted = if str_eq action "delete" && is_none r.deleted_at then some c.now else r.deleted_at
  refuse (state_refused r.state) DbError.check_violation
  refuse (any (is_taken r) db.resources) DbError.unique_violation
  owners ← owners_for action r db.owners
  let written = log_change c.db_now r.id r.cluster action (record db {
    resources =
        upsert (at row_id str_eq r.id) (new_row c.db_now shard deleted r)
          (replace_row c.db_now shard deleted r) db.resources;
    owners = owners;
  })
  ok (if should_notify action old r then notify c.db_now r action written else written)

-- `previousExists && r.ObservedAt.Before(previousObservedAt)`
abbrev pub is_older : Resource → Option ResourceRow → Bool
is_older r none = false
is_older r (some row) = ltb r.observed_at row.resource.observed_at

-- `if action != "delete" { resolveEvent }`
abbrev pub recovered : Clock → String → Db → Resource → Resource
recovered c action db r =
    if str_eq action "delete" then r else resolve_event c.parse_time c.now db.resources r

-- The branches "upsert" and "delete", behind the watermark.
unfoldable pub store_observation : Clock → String → String → Resource → Db → Result DbError Db
store_observation c action shard r db =
    let r' = recovered c action db r in
    if is_older r' (find_row r'.id db.resources) then ok db else write_resource c action shard r' db

-- applyResource
unfoldable pub apply_resource : Clock → String → String → Resource → Db → Result DbError Db
apply_resource c action shard resource db =
    let r = record resource { observed_at = round_micro resource.observed_at } in
    let k : ShardKey = (r.cluster, shard) in
    if str_eq action "heartbeat"
    then ok db
    else if is_before r.observed_at (watermark k db)
    then ok db
    else if str_eq action "reconcile"
    then ok (reconcile c.db_now k r.observed_at db)
    else store_observation c action shard r db
