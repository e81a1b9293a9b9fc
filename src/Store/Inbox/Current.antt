-- ===== src/Store/Inbox/Current.antt =====
-- store.go: ingest_shard_head against the inbox under Enqueue.
use icinga_kubernetes.Common.{
  ℕ, suc, ◌+◌, ◌≤◌, ltb, ◌≡◌, ◌≢◌, refl, sym, subst, ◌∙◌, ◌↔◌, inl, inr, arith, true, Option, none,
  some, List, [], ◌∷◌, eq_iff, Option-cases, Bool-cases, if◌then◌else◌,
}
use icinga_kubernetes.Common.Table.{select, find, count, at, find-upsert, find-update}
use icinga_kubernetes.Common.Result.{ok, Result-cases}
use icinga_kubernetes.Model.{Time, IngestEvent, IngestBatch}
use icinga_kubernetes.Model.Validate.{Host, validate}
use icinga_kubernetes.Store.Tables.{EventRow, ShardHead, Db, ShardKey, shard_eq, head_key}
use icinga_kubernetes.Store.Inbox.{
  is_pending, next_event, Tally, insert_event, insert_events, new_head, add_pending, point_to,
  refresh_head, commit_batch, start, enqueue,
}

pub shard_eq_iff : (j k : ShardKey) → (shard_eq j k ≡ true) ↔ (j ≡ k)
shard_eq_iff (c, s) (c', s') = ground (arith, eq_iff c c', eq_iff s s')

-- The row of a shard, or its absence, agrees with the inbox.
abbrev pub Cached : ShardKey → List EventRow → Option ShardHead → Type 0
Cached k events none = count (is_pending k) events ≡ 0
Cached k events (some h) =
    (h.pending_events ≡ count (is_pending k) events) × (h.event_id ≡ next_event k events)

-- Every shard's cached number of pending events and first pending event are those of the inbox.
abbrev pub HeadsCurrent : Db → Type 0
HeadsCurrent db = (k : ShardKey) → Cached k db.events (find (at head_key shard_eq k) db.heads)

-- What one insertion does to the pending events of every shard.
record Inserted (k : ShardKey) (t u : Tally) : Type 0 where
  counted : count (is_pending k) u.rows + t.inserted ≡ count (is_pending k) t.rows + u.inserted
  grows : t.inserted ≤ u.inserted
  others : (j : ShardKey) → j ≢ k → select (is_pending j) u.rows ≡ select (is_pending j) t.rows
  others_count : (j : ShardKey) → j ≢ k → count (is_pending j) u.rows ≡ count (is_pending j) t.rows
  unchanged : t.inserted ≡ u.inserted → u.rows ≡ t.rows

insert_event-Inserted :
    (k : ShardKey) (event : IngestEvent) (id : ℕ) (now : Time) (t : Tally)
    → Inserted k t (insert_event k event id now t)
unfolding insert_event
insert_event-Inserted (c, s) event id now t = record {
  counted = ground (arith, eq_iff c c, eq_iff s s);
  grows = ground arith;
  others = λ j ne. ground (arith, shard_eq_iff (c, s) j, ne);
  others_count = λ j ne. ground (arith, shard_eq_iff (c, s) j, ne);
  unchanged = ground arith;
}

Inserted-trans : {k : ShardKey} {t u v : Tally} → Inserted k t u → Inserted k u v → Inserted k t v
Inserted-trans a b = record {
  counted = omega (arith, a.counted, b.counted);
  grows = omega (arith, a.grows, b.grows);
  others = λ j ne. b.others j ne ∙ a.others j ne;
  others_count = λ j ne. b.others_count j ne ∙ a.others_count j ne;
  unchanged = λ e.
      b.unchanged (omega (arith, a.grows, b.grows)) ∙ a.unchanged (omega (arith, a.grows, b.grows));
}

insert_events-Inserted :
    (h : Host) (k : ShardKey) (clock : ℕ → Time) (i : ℕ) (events : List IngestEvent) (t u : Tally)
    → insert_events h k clock i events t ≡ ok u
    → Inserted k t u
unfolding insert_events
insert_events-Inserted h k clock i [] t u e = record {
  counted = ground arith;
  grows = ground arith;
  others = λ j ne. ground arith;
  others_count = λ j ne. ground arith;
  unchanged = ground arith;
}
insert_events-Inserted h k clock i (x ∷ xs) t u e = elim (Option-cases (h.parse_uuid x.event_id)) [
  | inl n ↦ cc (rw (n, insert_events) at e)
  | inr (id, s) ↦ Inserted-trans (insert_event-Inserted k x id (clock i) t) (
      insert_events-Inserted h k clock (suc i) xs (insert_event k x id (clock i) t) u
        (ground arith))
]

pub count-select :
    (k : ShardKey) (rows : List EventRow) → count (is_pending k) rows ≡ 0 → next_event k rows ≡ none
unfolding next_event
count-select k [] e = refl
count-select k (r ∷ rows) e = elim (Bool-cases (is_pending k r)) [
  | inl y ↦ absurd (ground arith)
  | inr n ↦ rw n (count-select k rows (ground arith))
]

pub next_event-cong :
    (k : ShardKey) (xs ys : List EventRow)
    → select (is_pending k) xs ≡ select (is_pending k) ys
    → next_event k xs ≡ next_event k ys
unfolding next_event
next_event-cong k xs ys e = rw e

point_to-key : (n : Option ℕ) (b : ShardHead) → head_key (point_to n b) ≡ head_key b
unfolding point_to
point_to-key n b = refl

add_pending-key : (t : Tally) (b : ShardHead) → head_key (add_pending t b) ≡ head_key b
unfolding add_pending
add_pending-key t b = refl

new_head-key : (k : ShardKey) (t : Tally) → head_key (new_head k t) ≡ k
unfolding new_head
new_head-key k t = refl

abbrev pub head_of : ShardKey → List ShardHead → Option ShardHead
head_of k = find (at head_key shard_eq k)

-- The rows that the two statements leave.
head_of-refresh_head :
    (j k : ShardKey) (t : Tally) (heads : List ShardHead)
    → head_of j (refresh_head k t heads) ≡ (
        if shard_eq k j
        then some (
            point_to
              (next_event k t.rows)
              (elim (head_of k heads) [ none ↦ new_head k t | some b ↦ add_pending t b ]))
        else head_of j heads)
unfolding refresh_head
head_of-refresh_head j k t heads =
    rw
      (
        find-update head_key shard_eq shard_eq_iff j k (point_to (next_event k t.rows)) _
            (point_to-key _),
        find-upsert head_key shard_eq shard_eq_iff j k (new_head k t) (add_pending t) heads
            (new_head-key k t) (add_pending-key t),
      )
      (ground arith)

pub Cached-cong :
    (k : ShardKey) (xs ys : List EventRow) (o : Option ShardHead)
    → count (is_pending k) xs ≡ count (is_pending k) ys
    → next_event k xs ≡ next_event k ys
    → Cached k xs o
    → Cached k ys o
Cached-cong k xs ys none c n h = omega arith
Cached-cong k xs ys (some b) c n h = (omega arith, h.1 ∙ n)

-- The row of the batch's own shard, from the row that it had.
Cached-own :
    (k : ShardKey) (t : Tally) (events : List EventRow) (o : Option ShardHead)
    → count (is_pending k) t.rows ≡ count (is_pending k) events + t.inserted
    → Cached k events o
    → Cached k t.rows (
        some (
          point_to
            (next_event k t.rows)
            (elim o [ none ↦ new_head k t | some b ↦ add_pending t b ])))
unfolding new_head add_pending point_to
Cached-own k t events none c h = (omega arith, refl)
Cached-own k t events (some b) c h = (omega arith, refl)

-- A committed batch keeps the cache of every shard current.
commit_batch-HeadsCurrent :
    (k : ShardKey) (u : Tally) (db : Db)
    → Inserted k (start db) u
    → HeadsCurrent db
    → HeadsCurrent (commit_batch k u db)
unfolding commit_batch
commit_batch-HeadsCurrent k u db ins v j = elim (Bool-cases (ltb 0 u.inserted)) [
  | inr empty ↦ rw empty (
      subst (λ rows. Cached j rows (head_of j db.heads)) (sym (ins.unchanged (ground arith))) (v j))
  | inl grown ↦
      rw (grown, head_of-refresh_head j k u db.heads)
        (elim (Bool-cases (shard_eq k j)) [
          | inl same ↦ rw same (
              subst
                (λ i. Cached i u.rows (
                  some (
                    point_to (next_event k u.rows) (elim (head_of k db.heads) [
                      | none ↦ new_head k u
                      | some b ↦ add_pending u b
                    ]))))
                ((shard_eq_iff k j).0 same)
                (Cached-own k u db.events (head_of k db.heads) (omega (arith, ins.counted)) (v k)))
          | inr apart ↦ rw apart (
              let ne : j ≢ k = λ e. cc ((shard_eq_iff k j).1 (sym e)) in
              Cached-cong j db.events u.rows (head_of j db.heads) (sym (ins.others_count j ne))
                (next_event-cong j db.events u.rows (sym (ins.others j ne))) (v j))
        ])
]

-- The parts of a call of Enqueue that commits.
pub record Enqueued (h : Host) (clock : ℕ → Time) (b : IngestBatch) (db db' : Db) : Type 0 where
  pub tally : Tally
  pub valid : validate h b ≡ ok tt
  pub ran : insert_events h (b.cluster, b.shard) clock 0 b.events (start db) ≡ ok tally
  pub final : db' ≡ commit_batch (b.cluster, b.shard) tally db

pub enqueue-Enqueued :
    (h : Host) (clock : ℕ → Time) (b : IngestBatch) (db db' : Db)
    → enqueue h clock b db ≡ ok db'
    → Enqueued h clock b db db'
unfolding enqueue
enqueue-Enqueued h clock b db db' e = elim (Result-cases (validate h b)) [
  | inr (x, v) ↦ cc (rw (v, enqueue) at e)
  | inl (x, v) ↦
      elim (Result-cases (insert_events h (b.cluster, b.shard) clock 0 b.events (start db))) [
        | inr (y, r) ↦ cc (rw (v, r, enqueue) at e)
        | inl (t, r) ↦ record { tally = t; valid = v; ran = r; final = ground arith }
      ]
]

-- Enqueue keeps the cached first event and number of pending events of every shard current,
-- whatever the batch, and also where it inserts only a part of it.
pub enqueue-HeadsCurrent :
    (h : Host) (clock : ℕ → Time) (b : IngestBatch) (db db' : Db)
    → enqueue h clock b db ≡ ok db'
    → HeadsCurrent db
    → HeadsCurrent db'
enqueue-HeadsCurrent h clock b db db' e v =
    let q = enqueue-Enqueued h clock b db db' e in
    rw q.final (
      commit_batch-HeadsCurrent _ q.tally db
        (insert_events-Inserted h _ clock 0 b.events (start db) q.tally q.ran) v)
