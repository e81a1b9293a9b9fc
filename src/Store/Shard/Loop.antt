-- ===== src/Store/Shard/Loop.antt =====
-- store.go: the loop of ApplyShard over the claimed events, seen from the inbox.
use icinga_kubernetes.Common.{
  ℕ, suc, none, some, Option, String, List, [], ◌∷◌, ◌++◌, take, ◌≡◌, refl, sym, subst, ◌∙◌, ◌⊎◌,
  inl, inr, arith, Bool-cases, if◌then◌else◌,
}
use mathlib.Core.List.{append-nil, append_assoc}
use icinga_kubernetes.Common.Table.{select, find-upsert}
use icinga_kubernetes.Common.Result.{ok, Result-cases}
use icinga_kubernetes.Model.{Time, Resource, normalize}
use icinga_kubernetes.Model.Validate.{Host}
use icinga_kubernetes.Store.Tables.{
  EventRow, ShardHead, Payload, malformed, encoded, Db, ShardKey, shard_eq, head_key,
}
use icinga_kubernetes.Store.Inbox.Current.{
  shard_eq_iff, Cached, Cached-cong, HeadsCurrent, head_of, count-select,
}
use icinga_kubernetes.Store.Apply.{
  Clock, is_removed, raise_watermark, marked_head, set_watermark, reconcile, apply_resource,
}
use icinga_kubernetes.Store.Apply.Rows.{heads-reconcile, events-log_removed}
use icinga_kubernetes.Store.Apply.Monotone.{
  ignored, reconciled, stored, write_resource-Wrote, apply_resource-Outcome,
}
use icinga_kubernetes.Store.Shard.{Progress, postpone_event, process}
use icinga_kubernetes.Store.Shard.Marks.{ids_of}
use icinga_kubernetes.Store.Shard.Others.{Kept, Kept-refl, Kept-postpone}

events-reconcile :
    (now : Time) (k : ShardKey) (cutoff : Time) (db : Db)
    → (reconcile now k cutoff db).events ≡ db.events
unfolding reconcile
events-reconcile now k cutoff db =
    events-log_removed now (select (is_removed k cutoff) db.resources) _

pub raise_watermark-key :
    (cutoff : Time) (h : ShardHead) → head_key (raise_watermark cutoff h) ≡ head_key h
unfolding raise_watermark
raise_watermark-key cutoff h = refl

pub marked_head-key : (k : ShardKey) (cutoff : Time) → head_key (marked_head k cutoff) ≡ k
unfolding marked_head
marked_head-key k cutoff = refl

abbrev marked : ShardKey → Time → Option ShardHead → ShardHead
marked k cutoff none = marked_head k cutoff
marked k cutoff (some h) = raise_watermark cutoff h

Cached-marked :
    (k : ShardKey) (cutoff : Time) (events : List EventRow) (o : Option ShardHead)
    → Cached k events o
    → Cached k events (some (marked k cutoff o))
unfolding marked_head raise_watermark
Cached-marked k cutoff events none h = (sym h, sym (count-select k events h))
Cached-marked k cutoff events (some b) h = h

head_of-set_watermark :
    (j k : ShardKey) (cutoff : Time) (heads : List ShardHead)
    → head_of j (set_watermark k cutoff heads)
      ≡ (if shard_eq k j then some (marked k cutoff (head_of k heads)) else head_of j heads)
unfolding set_watermark
head_of-set_watermark j k cutoff heads =
    rw
      (find-upsert head_key shard_eq shard_eq_iff j k (marked_head k cutoff)
        (raise_watermark cutoff) heads (marked_head-key k cutoff) (raise_watermark-key cutoff))
      (ground arith)

set_watermark-Cached :
    (k : ShardKey) (cutoff : Time) (events : List EventRow) (heads : List ShardHead)
    → ((j : ShardKey) → Cached j events (head_of j heads))
    → (j : ShardKey) → Cached j events (head_of j (set_watermark k cutoff heads))
set_watermark-Cached k cutoff events heads v j =
    rw (head_of-set_watermark j k cutoff heads) (elim (Bool-cases (shard_eq k j)) [
      | inl same ↦ rw same (
          subst (λ i. Cached i events (some (marked k cutoff (head_of k heads))))
            ((shard_eq_iff k j).0 same) (Cached-marked k cutoff events (head_of k heads) (v k)))
      | inr other ↦ rw other (v j)
    ])

-- applyResource does not touch the inbox, and keeps the cached heads current.
record Applies (db db' : Db) : Type 0 where
  events : db'.events ≡ db.events
  current : HeadsCurrent db → HeadsCurrent db'

apply_resource-Applies :
    (c : Clock) (action shard : String) (resource : Resource) (db db' : Db)
    → apply_resource c action shard resource db ≡ ok db'
    → Applies db db'
apply_resource-Applies c action shard resource db db' e =
    elim (apply_resource-Outcome c action shard resource db db' e) [
      | ignored same ↦ rw same (record { events = refl; current = λ v. v })
      | reconciled _ _ q ↦ rw q (record {
        events = events-reconcile c.db_now _ _ db;
        current = λ v j.
            rw (heads-reconcile c.db_now _ _ db, events-reconcile c.db_now _ _ db)
              (set_watermark-Cached _ _ db.events db.heads v j);
      })
      | stored _ _ w ↦
          let wrote = write_resource-Wrote c action shard _ db db' w in
          record { events = wrote.events; current = λ v j. rw (wrote.heads, wrote.events) (v j) }
    ]

-- What the loop did: `n` of the claimed events are applied, and no event lost its place.
pub record Worked (claimed : List EventRow) (p q : Progress) : Type 0 where
  pub n : ℕ
  pub completed : q.completed ≡ p.completed ++ ids_of (take n claimed)
  pub kept : Kept p.db.events q.db.events
  pub current : HeadsCurrent p.db → HeadsCurrent q.db

pub Payload-cases :
    (p : Payload) → ((m : String) × (p ≡ malformed m)) ⊎ ((r : Resource) × (p ≡ encoded r))
Payload-cases (malformed m) = inl (m, refl)
Payload-cases (encoded r) = inr (r, refl)

Worked-none : (claimed : List EventRow) (p : Progress) → Worked claimed p p
Worked-none claimed p = record {
  n = 0;
  completed = sym (append-nil p.completed);
  kept = Kept-refl p.db.events;
  current = λ v. v;
}

postpone-current :
    (now : Time) (m : String) (id : ℕ) (db : Db)
    → HeadsCurrent db
    → HeadsCurrent (postpone_event now m id db)
unfolding postpone_event
postpone-current now m id db v j =
    let kept = Kept-postpone now m id db.events in
    Cached-cong j db.events _ (head_of j db.heads) (sym (kept.pending j)) (sym (kept.next j)) (v j)

-- The first event is applied, and the loop goes on.
Worked-step :
    (x : EventRow) (xs : List EventRow) (p q : Progress) (db : Db)
    → Applies p.db db
    → Worked xs (record p { db = db; completed = p.completed ++ x.event_id ∷ [] }) q
    → Worked (x ∷ xs) p q
Worked-step x xs p q db a w = record {
  n = suc w.n;
  completed = w.completed ∙ append_assoc p.completed (x.event_id ∷ []) (ids_of (take w.n xs));
  kept = subst (λ es. Kept es q.db.events) a.events w.kept;
  current = λ v. w.current (a.current v);
}

pub process-Worked :
    (h : Host) (c : Clock) (claimed : List EventRow) (p q : Progress)
    → process h c claimed p ≡ ok q
    → Worked claimed p q
unfolding process
process-Worked h c [] p q e =
    let same : q ≡ p = ground arith in subst (λ r. Worked [] p r) (sym same) (Worked-none [] p)
process-Worked h c (x ∷ xs) p q e = elim (Payload-cases x.payload) [
  | inl (m, bad) ↦
      let stop : q ≡ record p { db = postpone_event c.db_now m x.event_id p.db; failure = some m } =
        ground arith in
      rw stop (record {
        n = 0;
        completed = sym (append-nil p.completed);
        kept = unfold postpone_event in Kept-postpone c.db_now m x.event_id p.db.events;
        current = postpone-current c.db_now m x.event_id p.db;
      })
  | inr (r, good) ↦
      elim (Result-cases (apply_resource c x.action x.shard (normalize h.sha256 c.now r) p.db)) [
        | inr (bad, f) ↦ absurd (ground arith)
        | inl (db, f) ↦
            Worked-step x xs p q db (apply_resource-Applies c x.action x.shard _ p.db db f) (
              process-Worked h c xs
                (record p { db = db; completed = p.completed ++ x.event_id ∷ [] }) q (ground arith))
      ]
]
