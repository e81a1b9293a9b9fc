-- ===== src/Worker/Database.antt =====
-- worker.go over store.go: the operations of the database as the store of a worker.
use icinga_kubernetes.Common.{ℕ, inl, inr, Bool, true, false, is_some, List, any, if◌then◌else◌}
use icinga_kubernetes.Common.Result.{Result, ok, err, Result-cases}
use icinga_kubernetes.Model.{Time}
use icinga_kubernetes.Model.Validate.{Host}
use icinga_kubernetes.Store.Tables.{Db, DbError, ShardKey}
use icinga_kubernetes.Store.Apply.{Clock}
use icinga_kubernetes.Store.Shard.{Applied, apply_shard}
use icinga_kubernetes.Store.Shard.Completed.{InboxValid}
use icinga_kubernetes.Store.Shard.Current.{apply_shard-InboxValid}
use icinga_kubernetes.Store.Shard.Heads.{HeadsUnique, apply_shard-HeadsUnique}
use icinga_kubernetes.Store.Cleanup.{Retention, cleanup}
use icinga_kubernetes.Store.Cleanup.Kept.{cleanup-Kept, cleanup-HeadsUnique}
use icinga_kubernetes.Store.Resolve.{Transaction, resolve_events}
use icinga_kubernetes.Store.Resolve.Closed.{resolve_events-Announced}
use icinga_kubernetes.Worker.{Call, EventStore, Turn, run}
use icinga_kubernetes.Worker.Runs.{Keeps, worker_of, is_cancelled, IsAlive, run-Good}

-- What the environment is at each operation: the clocks, the locks of other transactions, whether
-- the advisory lock is free, and whether the connection fails.
pub record Environment : Type 0 where
  pub host : Host
  pub clock : ℕ → Clock
  pub locked : ℕ → ShardKey → Bool
  pub transaction : ℕ → Transaction
  pub cleanup_lock : ℕ → Bool
  pub cleanup_clock : ℕ → ℕ → Time
  pub retention : Retention
  pub disconnected : ℕ → Bool

abbrev pub failed_call : Db → Call Db
failed_call db = record { state = db; processed = 0; failed = true }

abbrev pub of_applied : Db → Result DbError Applied → Call Db
of_applied db (ok a) = record { state = a.db; processed = a.count; failed = is_some a.failure }
of_applied db (err x) = failed_call db

abbrev pub succeeded : Db → Call Db
succeeded db = record { state = db; processed = 0; failed = false }

unfoldable pub database : Environment → EventStore Db
unfolding apply_shard cleanup resolve_events
database e = record {
  apply_shard = λ n limit db.
      if e.disconnected n
      then failed_call db
      else of_applied db (apply_shard e.host (e.clock n) (e.locked n) limit db);
  cleanup = λ n db.
      if e.disconnected n
      then failed_call db
      else succeeded (cleanup (e.cleanup_lock n) (e.cleanup_clock n) e.retention db);
  resolve_events = λ n db.
      if e.disconnected n then failed_call db else succeeded (resolve_events (e.transaction n) db);
}

-- What a worker relies on and keeps.
pub record IsSound (db : Db) : Type 0 where
  pub inbox : InboxValid db
  pub unique : HeadsUnique db

of_applied-IsSound :
    (h : Host) (c : Clock) (locked : ShardKey → Bool) (limit : ℕ) (db : Db)
    → IsSound db
    → IsSound (of_applied db (apply_shard h c locked limit db)).state
of_applied-IsSound h c locked limit db v = elim (Result-cases (apply_shard h c locked limit db)) [
  | inr (x, e) ↦ rw e v
  | inl (a, e) ↦ rw e (record {
    inbox = apply_shard-InboxValid h c locked limit db a v.inbox e;
    unique = apply_shard-HeadsUnique h c locked limit db a v.unique e;
  })
]

resolve_events-IsSound : (t : Transaction) (db : Db) → IsSound db → IsSound (resolve_events t db)
resolve_events-IsSound t db v =
    let a = resolve_events-Announced t db in
    record {
      inbox = record {
        distinct = λ id. rw (a.events) (v.inbox.distinct id);
        current = λ k. rw (a.heads, a.events) (v.inbox.current k);
      };
      unique = λ k. rw (a.heads) (v.unique k);
    }

cleanup-IsSound :
    (acquired : Bool) (now : ℕ → Time) (k : Retention) (db : Db)
    → IsSound db
    → IsSound (cleanup acquired now k db)
cleanup-IsSound acquired now k db v = record {
  inbox = let (_, valid) = cleanup-Kept acquired now k db v.unique v.inbox in valid;
  unique = cleanup-HeadsUnique acquired now k db v.unique;
}

if-IsSound :
    (b : Bool) (x y : Call Db)
    → IsSound x.state
    → IsSound y.state
    → IsSound (if b then x else y).state
if-IsSound true x y p q = p
if-IsSound false x y p q = q

pub database-Keeps : (e : Environment) → Keeps (database e) IsSound
unfolding database
database-Keeps e = record {
  apply_shard = λ n limit db v.
      if-IsSound (e.disconnected n) (failed_call db) _ v
        (of_applied-IsSound e.host (e.clock n) (e.locked n) limit db v);
  cleanup = λ n db v.
      if-IsSound (e.disconnected n) (failed_call db) (succeeded _) v
        (cleanup-IsSound (e.cleanup_lock n) (e.cleanup_clock n) e.retention db v);
  resolve_events = λ n db v.
      if-IsSound (e.disconnected n) (failed_call db) (succeeded _) v
        (resolve_events-IsSound (e.transaction n) db v);
}

-- A worker keeps the database sound, whatever the order of its applications, cleanups and
-- recoveries, the clocks, the locks of other transactions and the failures of the connection: event
-- ids stay unique, the cached heads of all shards right, and no shard gets two heads. It returns only if
-- its context has ended, is then not ready, and has its timer armed as long as it runs.
pub run-IsSound :
    (e : Environment) (turns : List Turn) (db : Db)
    → IsSound db
    → IsSound (worker_of (run (database e) turns db)).state
      × IsAlive (any is_cancelled turns) (run (database e) turns db)
run-IsSound e turns db v = run-Good (database e) IsSound (database-Keeps e) turns db v
