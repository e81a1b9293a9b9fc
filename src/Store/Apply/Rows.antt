-- ===== src/Store/Apply/Rows.antt =====
-- store.go: what the writes of applyResource do to the row of any one resource.
use icinga_kubernetes.Common.{
  ◌≡◌, refl, arith, Option, none, some, List, [], ◌∷◌, String, str_eq, eq_iff, if◌then◌else◌,
}
use icinga_kubernetes.Common.Table.{select, update, upsert, at, find-upsert, find-update_where}
use icinga_kubernetes.Model.{Time, Resource}
use icinga_kubernetes.Store.Tables.{ResourceRow, Db, ShardKey, log_change, notify}
use icinga_kubernetes.Store.Apply.{
  row_id, find_row, new_row, replace_row, is_removed, bury, log_removed, reconcile, set_watermark,
}

bury-id : (now cutoff : Time) (row : ResourceRow) → row_id (bury now cutoff row) ≡ row_id row
unfolding bury
bury-id now cutoff row = refl

replace_row-id :
    (now : Time) (shard : String) (deleted : Option Time) (r : Resource) (row : ResourceRow)
    → row_id (replace_row now shard deleted r row) ≡ row_id row
unfolding replace_row
replace_row-id now shard deleted r row = refl

new_row-id :
    (now : Time) (shard : String) (deleted : Option Time) (r : Resource)
    → row_id (new_row now shard deleted r) ≡ r.id
unfolding new_row
new_row-id now shard deleted r = refl

abbrev pub buried : Time → ShardKey → Time → Option ResourceRow → Option ResourceRow
buried now k cutoff none = none
buried now k cutoff (some row) = some (if is_removed k cutoff row then bury now cutoff row else row)

-- A reconciliation buries the row if it passes the test, and leaves it otherwise.
pub find_row-bury :
    (j : String) (now cutoff : Time) (k : ShardKey) (rows : List ResourceRow)
    → find_row j (update (is_removed k cutoff) (bury now cutoff) rows)
      ≡ buried now k cutoff (find_row j rows)
find_row-bury j now cutoff k rows =
    rw
      (find-update_where row_id str_eq eq_iff j (is_removed k cutoff) (bury now cutoff) rows
        (bury-id now cutoff))
      (ground arith)

abbrev pub written : Time → String → Option Time → Resource → Option ResourceRow → ResourceRow
written now shard deleted r none = new_row now shard deleted r
written now shard deleted r (some old) = replace_row now shard deleted r old

-- A write concerns the row of its own resource only.
pub find_row-write :
    (j : String) (now : Time) (shard : String) (deleted : Option Time) (r : Resource)
    (rows : List ResourceRow)
    → find_row j (
        upsert
          (at row_id str_eq r.id)
          (new_row now shard deleted r)
          (replace_row now shard deleted r)
          rows)
      ≡ (if str_eq r.id j
          then some (written now shard deleted r (find_row r.id rows))
          else find_row j rows)
find_row-write j now shard deleted r rows =
    rw
      (find-upsert row_id str_eq eq_iff j r.id (new_row now shard deleted r)
        (replace_row now shard deleted r) rows (new_row-id now shard deleted r)
        (replace_row-id now shard deleted r))
      (ground arith)

module _ (now : Time) where
  pub resources-log_removed :
      (rows : List ResourceRow) (db : Db) → (log_removed now rows db).resources ≡ db.resources
  unfolding log_removed log_change notify
  resources-log_removed [] db = refl
  resources-log_removed (row ∷ rows) db = ground (arith, resources-log_removed rows db)

  pub heads-log_removed :
      (rows : List ResourceRow) (db : Db) → (log_removed now rows db).heads ≡ db.heads
  unfolding log_removed log_change notify
  heads-log_removed [] db = refl
  heads-log_removed (row ∷ rows) db = ground (arith, heads-log_removed rows db)

  pub events-log_removed :
      (rows : List ResourceRow) (db : Db) → (log_removed now rows db).events ≡ db.events
  unfolding log_removed log_change notify
  events-log_removed [] db = refl
  events-log_removed (row ∷ rows) db = ground (arith, events-log_removed rows db)

pub find_row-reconcile :
    (j : String) (now : Time) (k : ShardKey) (cutoff : Time) (db : Db)
    → find_row j (reconcile now k cutoff db).resources
      ≡ buried now k cutoff (find_row j db.resources)
unfolding reconcile
find_row-reconcile j now k cutoff db =
    rw (resources-log_removed now (select (is_removed k cutoff) db.resources) _)
      (find_row-bury j now cutoff k db.resources)

pub heads-reconcile :
    (now : Time) (k : ShardKey) (cutoff : Time) (db : Db)
    → (reconcile now k cutoff db).heads ≡ set_watermark k cutoff db.heads
unfolding reconcile
heads-reconcile now k cutoff db =
    heads-log_removed now (select (is_removed k cutoff) db.resources) _
