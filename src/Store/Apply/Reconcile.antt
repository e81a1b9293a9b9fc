-- ===== src/Store/Apply/Reconcile.antt =====
-- store.go: what a reconciliation marker does to the resources of its shard.
use icinga_kubernetes.Common.{
  ◌+◌, ◌≤◌, ◌≡◌, ◌≢◌, sym, ◌∙◌, ◌⊎◌, arith, Bool, false, not, ◌&&◌, Option, none, some, List, [],
  ◌∷◌, length, String, eq_iff,
}
use icinga_kubernetes.Common.Table.{select, count}
use icinga_kubernetes.Model.{Time, is_ok}
use icinga_kubernetes.Store.Tables.{ResourceRow, Db, ShardKey, log_change, notify}
use icinga_kubernetes.Store.Apply.{find_row, is_removed, bury, log_removed, reconcile}
use icinga_kubernetes.Store.Apply.Rows.{buried, find_row-reconcile}

-- The row is one of the shard's and not deleted.
pub record IsLive (k : ShardKey) (row : ResourceRow) : Type 0 where
  pub cluster : row.resource.cluster ≡ k.0
  pub shard : row.shard ≡ k.1
  pub not_deleted : row.resource.deleted_at ≡ none

buried-IsLive :
    (now cutoff : Time) (k : ShardKey) (o : Option ResourceRow) (row : ResourceRow)
    → buried now k cutoff o ≡ some row
    → IsLive k row
    → (cutoff ≤ row.resource.observed_at) × (o ≡ some row)
unfolding is_removed bury
buried-IsLive now cutoff (c, s) none row e v = absurd (ground arith)
buried-IsLive now cutoff (c, s) (some old) row e v =
    ground
      (arith, v.cluster, v.shard, v.not_deleted, eq_iff old.resource.cluster c, eq_iff old.shard s)

-- After a shard is reconciled at a cutoff, its live resources are exactly ones that were stored as
-- they are now, and every one of them was observed at the cutoff or later.
pub reconcile-live :
    (now cutoff : Time) (k : ShardKey) (db : Db) (j : String) (row : ResourceRow)
    → find_row j (reconcile now k cutoff db).resources ≡ some row
    → IsLive k row
    → (cutoff ≤ row.resource.observed_at) × (find_row j db.resources ≡ some row)
reconcile-live now cutoff k db j row e v =
    buried-IsLive now cutoff k (find_row j db.resources) row
      (sym (find_row-reconcile j now k cutoff db) ∙ e) v

-- What a reconciliation must leave alone.
abbrev pub Spared : ShardKey → Time → ResourceRow → Type 0
Spared k cutoff row =
    (row.resource.cluster ≢ k.0)
    ⊎ (row.shard ≢ k.1)
    ⊎ (row.resource.deleted_at ≢ none)
    ⊎ (cutoff ≤ row.resource.observed_at)

is_removed-Spared :
    (k : ShardKey) (cutoff : Time) (row : ResourceRow)
    → Spared k cutoff row
    → is_removed k cutoff row ≡ false
unfolding is_removed
is_removed-Spared (c, s) cutoff row h =
    ground (arith, eq_iff row.resource.cluster c, eq_iff row.shard s)

-- A resource of another shard, a deleted one, and one observed at the cutoff or later keep their
-- rows.
pub reconcile-Spared :
    (now cutoff : Time) (k : ShardKey) (db : Db) (j : String) (row : ResourceRow)
    → find_row j db.resources ≡ some row
    → Spared k cutoff row
    → find_row j (reconcile now k cutoff db).resources ≡ some row
reconcile-Spared now cutoff k db j row e h =
    rw (find_row-reconcile j now k cutoff db, e) (rw (is_removed-Spared k cutoff row h))

abbrev pub removed_problem : ShardKey → Time → ResourceRow → Bool
removed_problem k cutoff row = is_removed k cutoff row && not (is_ok row.resource.state)

log_removed-counts :
    (now : Time) (k : ShardKey) (cutoff : Time) (rows : List ResourceRow) (db : Db)
    → (length (log_removed now (select (is_removed k cutoff) rows) db).changes
        ≡ length db.changes + count (is_removed k cutoff) rows)
      × (length (log_removed now (select (is_removed k cutoff) rows) db).outbox
          ≡ length db.outbox + count (removed_problem k cutoff) rows)
unfolding log_removed log_change notify
log_removed-counts now k cutoff [] db = (omega arith, omega arith)
log_removed-counts now k cutoff (row ∷ rows) db =
    ground (arith, log_removed-counts now k cutoff rows db)

-- Every removal is one entry of the change log, and every removal of a resource with a problem is
-- one notification.
pub reconcile-counts :
    (now : Time) (k : ShardKey) (cutoff : Time) (db : Db)
    → (length (reconcile now k cutoff db).changes
        ≡ length db.changes + count (is_removed k cutoff) db.resources)
      × (length (reconcile now k cutoff db).outbox
          ≡ length db.outbox + count (removed_problem k cutoff) db.resources)
unfolding reconcile
reconcile-counts now k cutoff db = log_removed-counts now k cutoff db.resources _
