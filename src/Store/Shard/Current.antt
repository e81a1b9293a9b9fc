-- ===== src/Store/Shard/Current.antt =====
-- store.go: the bookkeeping of ApplyShard, against a valid inbox.
use icinga_kubernetes.Common.{
  ℕ, suc, ltb, Bool, ◌||◌, none, List, [], ◌∷◌, length, sort, ◌≡◌, refl, inl, inr, arith,
  Bool-cases, Option-cases,
}
use icinga_kubernetes.Common.Result.{ok, Result-cases}
use icinga_kubernetes.Model.{Time, IngestEvent, IngestBatch}
use icinga_kubernetes.Model.Validate.{Host}
use icinga_kubernetes.Store.Tables.{Db, ShardKey, event_key}
use icinga_kubernetes.Store.Inbox.{
  Tally, insert_event, insert_events, start, enqueue, head?, received_before,
}
use icinga_kubernetes.Store.Inbox.Current.{enqueue-Enqueued, enqueue-HeadsCurrent}
use icinga_kubernetes.Store.Inbox.Replay.{events-commit_batch}
use icinga_kubernetes.Store.Apply.{Clock}
use icinga_kubernetes.Store.Shard.{
  Progress, process, claim, Applied, candidates, apply_claimed, apply_shard,
}
use icinga_kubernetes.Store.Shard.Marks.{Distinct}
use icinga_kubernetes.Store.Shard.Loop.{process-Worked}
use icinga_kubernetes.Store.Shard.Completed.{
  InboxValid, insert_event-Distinct, Worked-Ready, complete-InboxValid,
}

abbrev pub begin : Db → Progress
begin db = record { db = db; completed = []; failure = none }

-- The bookkeeping after the loop never fails: in a valid inbox a transaction of ApplyShard commits
-- whenever no applyResource in it fails, and reports as many events as it applied.
pub apply_claimed-commits :
    (h : Host) (c : Clock) (limit : ℕ) (k : ShardKey) (db : Db) (p : Progress)
    → InboxValid db
    → process h c (claim k c.db_now limit db.events) (begin db) ≡ ok p
    → (a : Applied) × (apply_claimed h c limit k db ≡ ok a)
      × InboxValid a.db
      × (a.count ≡ length p.completed)
      × (a.failure ≡ p.failure)
unfolding apply_claimed
apply_claimed-commits h c limit k db p v e =
    let w = process-Worked h c (claim k c.db_now limit db.events) (begin db) p e in
    let (db', done, valid) =
      complete-InboxValid k c.db_now p _ (Worked-Ready k c.db_now limit db p v w) in
    (
      record { db = db'; count = length p.completed; failure = p.failure },
      rw (e, done, apply_claimed),
      valid,
      refl,
      refl,
    )

apply_claimed-InboxValid :
    (h : Host) (c : Clock) (limit : ℕ) (k : ShardKey) (db : Db) (a : Applied)
    → InboxValid db
    → apply_claimed h c limit k db ≡ ok a
    → InboxValid a.db
apply_claimed-InboxValid h c limit k db a v e =
    elim (Result-cases (process h c (claim k c.db_now limit db.events) (begin db))) [
      | inr (x, bad) ↦ absurd (unfold apply_claimed in ground arith)
      | inl (p, good) ↦
          let (b, ran, valid, _, _) = apply_claimed-commits h c limit k db p v good in
          let same : a ≡ b = ground arith in rw same valid
    ]

-- ApplyShard, whatever it applies, postpones or finds, keeps the inbox valid: event ids stay
-- unique, and the cached number of pending events and first pending event of every shard stay right.
pub apply_shard-InboxValid :
    (h : Host) (c : Clock) (locked : ShardKey → Bool) (limit : ℕ) (db : Db) (a : Applied)
    → InboxValid db
    → apply_shard h c locked limit db ≡ ok a
    → InboxValid a.db
unfolding apply_shard
apply_shard-InboxValid h c locked limit db a v e = elim (Bool-cases (ltb limit 1 || ltb 64 limit)) [
  | inl bad ↦ absurd (ground arith)
  | inr good ↦
      elim (Option-cases
        (head? (sort received_before (candidates locked c.db_now db.events db.heads)))) [
          | inl n ↦
              let same : a ≡ record { db = db; count = 0; failure = none } = ground arith in
              rw same v
          | inr (x, s) ↦ apply_claimed-InboxValid h c limit (event_key x) db a v (ground arith)
        ]
]

insert_events-Distinct :
    (h : Host) (k : ShardKey) (clock : ℕ → Time) (i : ℕ) (events : List IngestEvent) (t u : Tally)
    → insert_events h k clock i events t ≡ ok u
    → Distinct t.rows
    → Distinct u.rows
unfolding insert_events
insert_events-Distinct h k clock i [] t u e d = let same : u ≡ t = ground arith in rw same d
insert_events-Distinct h k clock i (x ∷ xs) t u e d =
    elim (Option-cases (h.parse_uuid x.event_id)) [
      | inl n ↦ absurd (ground arith)
      | inr (id, s) ↦
          insert_events-Distinct h k clock (suc i) xs (insert_event k x id (clock i) t) u
            (ground arith) (insert_event-Distinct k x id (clock i) t d)
    ]

-- So does Enqueue.
pub enqueue-InboxValid :
    (h : Host) (clock : ℕ → Time) (b : IngestBatch) (db db' : Db)
    → enqueue h clock b db ≡ ok db'
    → InboxValid db
    → InboxValid db'
enqueue-InboxValid h clock b db db' e v =
    let q = enqueue-Enqueued h clock b db db' e in
    record {
      distinct =
          rw (q.final, events-commit_batch (b.cluster, b.shard) q.tally db)
            (insert_events-Distinct h _ clock 0 b.events (start db) q.tally q.ran v.distinct);
      current = enqueue-HeadsCurrent h clock b db db' e v.current;
    }
