-- ===== src/Store/Inbox/Replay.antt =====
-- store.go: a batch that was enqueued before and arrives again.
use icinga_kubernetes.Common.{
  ℕ, suc, ◌==◌, ◌≡◌, refl, inl, inr, arith, true, is_some, List, [], ◌∷◌, Option-cases,
}
use icinga_kubernetes.Common.Table.{find, at}
use icinga_kubernetes.Common.Result.{ok}
use icinga_kubernetes.Model.{Time, IngestEvent, IngestBatch}
use icinga_kubernetes.Model.Validate.{Host}
use icinga_kubernetes.Store.Tables.{EventRow, Db, ShardKey}
use icinga_kubernetes.Store.Inbox.{Tally, start, insert_event, insert_events, commit_batch, enqueue}
use icinga_kubernetes.Store.Inbox.Current.{enqueue-Enqueued}

-- An inbox row with this primary key is there.
abbrev Present : ℕ → List EventRow → Type 0
Present id rows = is_some (find (at (λ (e : EventRow). e.event_id) ◌==◌ id) rows) ≡ true

insert_event-keeps :
    (k : ShardKey) (event : IngestEvent) (id j : ℕ) (now : Time) (t : Tally)
    → Present j t.rows
    → Present j (insert_event k event id now t).rows
unfolding insert_event
insert_event-keeps k event id j now t h = ground arith

insert_event-adds :
    (k : ShardKey) (event : IngestEvent) (id : ℕ) (now : Time) (t : Tally)
    → Present id (insert_event k event id now t).rows
unfolding insert_event
insert_event-adds k event id now t = ground arith

insert_event-Present :
    (k : ShardKey) (event : IngestEvent) (id : ℕ) (now : Time) (t : Tally)
    → Present id t.rows
    → insert_event k event id now t ≡ t
unfolding insert_event
insert_event-Present k event id now t h = ground arith

insert_events-keeps :
    (h : Host) (k : ShardKey) (clock : ℕ → Time) (i j : ℕ) (events : List IngestEvent) (t u : Tally)
    → insert_events h k clock i events t ≡ ok u
    → Present j t.rows
    → Present j u.rows
unfolding insert_events
insert_events-keeps h k clock i j [] t u e p = ground arith
insert_events-keeps h k clock i j (x ∷ xs) t u e p = elim (Option-cases (h.parse_uuid x.event_id)) [
  | inl n ↦ cc (rw (n, insert_events) at e)
  | inr (id, s) ↦
      insert_events-keeps h k clock (suc i) j xs (insert_event k x id (clock i) t) u (ground arith)
        (insert_event-keeps k x id j (clock i) t p)
]

-- A second pass over the same events, from any tally over the rows that the first one left, adds
-- none.
insert_events-again :
    (h : Host) (k : ShardKey) (clock clock' : ℕ → Time) (i i' : ℕ) (events : List IngestEvent)
    (t u v : Tally)
    → insert_events h k clock i events t ≡ ok u
    → v.rows ≡ u.rows
    → insert_events h k clock' i' events v ≡ ok v
unfolding insert_events
insert_events-again h k clock clock' i i' [] t u v e r = refl
insert_events-again h k clock clock' i i' (x ∷ xs) t u v e r =
    elim (Option-cases (h.parse_uuid x.event_id)) [
      | inl n ↦ cc (rw (n, insert_events) at e)
      | inr (id, s) ↦
          let first = insert_event k x id (clock i) t in
          let ran : insert_events h k clock (suc i) xs first ≡ ok u = ground arith in
          let there : Present id v.rows = rw r (
            insert_events-keeps h k clock (suc i) id xs first u ran
              (insert_event-adds k x id (clock i) t)) in
          rw (s, insert_events)
            (rw (insert_event-Present k x id (clock' i') v there)
              (insert_events-again h k clock clock' (suc i) (suc i') xs first u v ran r))
    ]

pub events-commit_batch :
    (k : ShardKey) (t : Tally) (db : Db) → (commit_batch k t db).events ≡ t.rows
unfolding commit_batch
events-commit_batch k t db = ground arith

commit_batch-start : (k : ShardKey) (db : Db) → commit_batch k (start db) db ≡ db
unfolding commit_batch
commit_batch-start k db = refl

-- Delivery is idempotent: a batch that Enqueue has committed can be sent again, at any later
-- reading of the clock, and is accepted without a change to the database.
pub enqueue-again :
    (h : Host) (clock clock' : ℕ → Time) (b : IngestBatch) (db db' : Db)
    → enqueue h clock b db ≡ ok db'
    → enqueue h clock' b db' ≡ ok db'
unfolding enqueue
enqueue-again h clock clock' b db db' e =
    let q = enqueue-Enqueued h clock b db db' e in
    let k : ShardKey = (b.cluster, b.shard) in
    let again : insert_events h k clock' 0 b.events (start db') ≡ ok (start db') =
      insert_events-again h k clock clock' 0 0 b.events (start db) q.tally (start db') q.ran
        (rw q.final (events-commit_batch k q.tally db)) in
    rw (q.valid, again, commit_batch-start k db', enqueue)
