-- ===== src/Store/Shard/Heads.antt =====
-- store.go: the primary key of ingest_shard_head under the statements of Enqueue and ApplyShard.
use icinga_kubernetes.Common.{
  ℕ, ◌≤◌, ◌≡◌, refl, arith, inl, inr, Bool-cases, Option-cases, none, some, Option, List, String,
  [], ◌∷◌, ◌++◌, sort, ltb, Bool, ◌||◌, length, is_empty,
}
use icinga_kubernetes.Common.Table.{count, update, at, count-upsert}
use icinga_kubernetes.Common.Result.{ok, Result-cases}
use icinga_kubernetes.Model.{Time, Resource, normalize}
use icinga_kubernetes.Model.Validate.{Host}
use icinga_kubernetes.Store.Tables.{
  EventRow, ShardHead, Db, ShardKey, shard_eq, head_key, event_key,
}
use icinga_kubernetes.Store.Inbox.{head?, received_before, next_event}
use icinga_kubernetes.Store.Inbox.Current.{shard_eq_iff}
use icinga_kubernetes.Store.Apply.{
  Clock, set_watermark, marked_head, raise_watermark, apply_resource,
}
use icinga_kubernetes.Store.Apply.Rows.{heads-reconcile}
use icinga_kubernetes.Store.Apply.Monotone.{
  ignored, reconciled, stored, write_resource-Wrote, apply_resource-Outcome,
}
use icinga_kubernetes.Store.Shard.{
  Progress, postpone_event, process, claim, advance_head, overdrawn, complete, candidates, Applied,
  apply_claimed, apply_shard, mark_applied,
}
use icinga_kubernetes.Store.Shard.Loop.{raise_watermark-key, marked_head-key, Payload-cases}

abbrev pub Unique : List ShardHead → Type 0
Unique heads = (k : ShardKey) → count (at head_key shard_eq k) heads ≤ 1

-- PRIMARY KEY (cluster_name, shard)
abbrev pub HeadsUnique : Db → Type 0
HeadsUnique db = Unique db.heads

set_watermark-Unique :
    (k : ShardKey) (cutoff : Time) (heads : List ShardHead)
    → Unique heads
    → Unique (set_watermark k cutoff heads)
unfolding set_watermark
set_watermark-Unique k cutoff heads u j = ground (
  arith,
  u j,
  count-upsert head_key shard_eq shard_eq_iff j k (marked_head k cutoff) (raise_watermark cutoff)
      heads (marked_head-key k cutoff) (raise_watermark-key cutoff),
)

count-update :
    {A : Type 0} (p q : A → Bool) (f : A → A) (rows : List A)
    → ((a : A) → q (f a) ≡ q a)
    → count q (update p f rows) ≡ count q rows
count-update p q f [] h = refl
count-update p q f (a ∷ rows) h = ground (arith, h a, count-update p q f rows h)

advance_head-Unique :
    (k : ShardKey) (next : Option ℕ) (n : ℕ) (now : Time) (heads : List ShardHead)
    → Unique heads
    → Unique (update (at head_key shard_eq k) (advance_head next n now) heads)
unfolding advance_head
advance_head-Unique k next n now heads u j =
    rw
      (count-update (at head_key shard_eq k) (at head_key shard_eq j) (advance_head next n now)
        heads (λ h. refl))
      (u j)

apply_resource-Unique :
    (c : Clock) (action shard : String) (resource : Resource) (db db' : Db)
    → apply_resource c action shard resource db ≡ ok db'
    → HeadsUnique db
    → HeadsUnique db'
apply_resource-Unique c action shard resource db db' e u =
    elim (apply_resource-Outcome c action shard resource db db' e) [
      | ignored same ↦ rw same u
      | reconciled _ _ q ↦
          rw q (rw (heads-reconcile c.db_now _ _ db) (set_watermark-Unique _ _ db.heads u))
      | stored _ _ w ↦
          let wrote = write_resource-Wrote c action shard _ db db' w in rw (wrote.heads) u
    ]

process-Unique :
    (h : Host) (c : Clock) (claimed : List EventRow) (p q : Progress)
    → process h c claimed p ≡ ok q
    → HeadsUnique p.db
    → HeadsUnique q.db
unfolding process postpone_event
process-Unique h c [] p q e u = let same : q ≡ p = ground arith in rw same u
process-Unique h c (x ∷ xs) p q e u = elim (Payload-cases x.payload) [
  | inl (m, bad) ↦
      let stop : q ≡ record p { db = postpone_event c.db_now m x.event_id p.db; failure = some m } =
        ground arith in
      rw stop u
  | inr (r, good) ↦
      elim (Result-cases (apply_resource c x.action x.shard (normalize h.sha256 c.now r) p.db)) [
        | inr (bad, f) ↦ absurd (ground arith)
        | inl (db, f) ↦
            process-Unique h c xs (record p { db = db; completed = p.completed ++ x.event_id ∷ [] })
              q (ground arith) (apply_resource-Unique c x.action x.shard _ p.db db f u)
      ]
]

complete-Unique :
    (k : ShardKey) (now : Time) (p : Progress) (db : Db)
    → complete k now p ≡ ok db
    → HeadsUnique p.db
    → HeadsUnique db
unfolding complete
complete-Unique k now p db e u = elim (Bool-cases (is_empty p.completed)) [
  | inl x ↦ let same : db ≡ p.db = ground (arith, e, x) in rw same u
  | inr x ↦ elim (Bool-cases (overdrawn k (length p.completed) p.db.heads)) [
    | inl y ↦ absurd (ground (arith, e, x, y))
    | inr y ↦
        let events = mark_applied now p.completed p.db.events in
        let same : db.heads
            ≡ update (at head_key shard_eq k)
                (advance_head (next_event k events) (length p.completed) now) p.db.heads =
          ground (arith, e, x, y) in
        rw same (advance_head-Unique k (next_event k events) (length p.completed) now p.db.heads u)
  ]
]

apply_claimed-Unique :
    (h : Host) (c : Clock) (limit : ℕ) (k : ShardKey) (db : Db) (a : Applied)
    → apply_claimed h c limit k db ≡ ok a
    → HeadsUnique db
    → HeadsUnique a.db
unfolding apply_claimed
apply_claimed-Unique h c limit k db a e u =
    elim (Result-cases (
      process h c (claim k c.db_now limit db.events)
        (record { db = db; completed = []; failure = none }))) [
          | inr (x, bad) ↦ absurd (ground arith)
          | inl (p, good) ↦ elim (Result-cases (complete k c.db_now p)) [
            | inr (x, bad) ↦ absurd (ground arith)
            | inl (db', done) ↦
                let same : a.db ≡ db' = ground (arith, e, good, done) in
                rw same (
                  complete-Unique k c.db_now p db' done (
                    process-Unique h c (claim k c.db_now limit db.events)
                      (record { db = db; completed = []; failure = none }) p good u))
          ]
        ]

-- ApplyShard leaves no two heads of one shard.
pub apply_shard-HeadsUnique :
    (h : Host) (c : Clock) (locked : ShardKey → Bool) (limit : ℕ) (db : Db) (a : Applied)
    → HeadsUnique db
    → apply_shard h c locked limit db ≡ ok a
    → HeadsUnique a.db
unfolding apply_shard
apply_shard-HeadsUnique h c locked limit db a u e =
    elim (Bool-cases (ltb limit 1 || ltb 64 limit)) [
      | inl bad ↦ absurd (ground arith)
      | inr good ↦
          elim (Option-cases
            (head? (sort received_before (candidates locked c.db_now db.events db.heads)))) [
              | inl n ↦
                  let same : a ≡ record { db = db; count = 0; failure = none } = ground arith in
                  rw same u
              | inr (x, s) ↦ apply_claimed-Unique h c limit (event_key x) db a (ground arith) u
            ]
    ]
