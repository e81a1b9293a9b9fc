-- ===== src/Store/Shard/Completed.antt =====
-- store.go: a transaction of ApplyShard from its marks to its commit, against a valid inbox.
use icinga_kubernetes.Common.{
  ℕ, ◌+◌, false, is_empty, none, some, Option, List, [], ◌∷◌, length, take, All, ◌≡◌, ◌≢◌, refl, ap,
  sym, subst, ◌∙◌, inl, inr, arith, Bool-cases, Option-cases, if◌then◌else◌,
}
use icinga_kubernetes.Common.Table.{select, count, find, update, at, find-update}
use icinga_kubernetes.Common.Result.{ok}
use icinga_kubernetes.Model.{Time, IngestEvent}
use icinga_kubernetes.Store.Tables.{EventRow, ShardHead, Db, ShardKey, shard_eq, head_key}
use icinga_kubernetes.Store.Inbox.{is_pending, next_event, Tally, insert_event}
use icinga_kubernetes.Store.Inbox.Current.{
  shard_eq_iff, Cached, Cached-cong, HeadsCurrent, head_of, next_event-cong,
}
use icinga_kubernetes.Store.Shard.{Progress, claim, mark_applied, advance_head, overdrawn, complete}
use icinga_kubernetes.Store.Shard.Marks.{
  has_id, Distinct, OnePending, ids_of, count-marked, count-mark_applied, count-claim-le,
  count-take-le, claim-OnePending, All-take,
}
use icinga_kubernetes.Store.Shard.Others.{
  Kept, count-marked_elsewhere, select-mark_applied, ids-mark_applied,
}
use icinga_kubernetes.Store.Shard.Loop.{Worked}

-- No event is in the inbox twice, and every shard's cache is current.
pub record InboxValid (db : Db) : Type 0 where
  pub distinct : Distinct db.events
  pub current : HeadsCurrent db

pub count-of_find :
    (id : ℕ) (es : List EventRow) → find (has_id id) es ≡ none → count (has_id id) es ≡ 0
count-of_find id [] h = refl
count-of_find id (e ∷ es) h = ground (arith, count-of_find id es)

pub insert_event-Distinct :
    (k : ShardKey) (event : IngestEvent) (id : ℕ) (now : Time) (t : Tally)
    → Distinct t.rows
    → Distinct (insert_event k event id now t).rows
unfolding insert_event
insert_event-Distinct (c, s) event id now t d i = ground (arith, d i, count-of_find id t.rows)

-- A loop that worked off part of a valid inbox's claim.
pub record Ready (k : ShardKey) (p : Progress) (done : List EventRow) : Type 0 where
  distinct : Distinct p.db.events
  current : HeadsCurrent p.db
  completed : p.completed ≡ ids_of done
  done_distinct : Distinct done
  done_pending : All (λ e. OnePending k p.db.events e.event_id) done

All-one :
    (k : ShardKey) (a b : List EventRow) (es : List EventRow)
    → Kept a b
    → All (λ e. OnePending k a e.event_id) es
    → All (λ e. OnePending k b e.event_id) es
All-one k a b [] kept h = tt
All-one k a b (e ∷ es) kept h = (kept.one k e.event_id h.0, All-one k a b es kept h.1)

pub Worked-Ready :
    (k : ShardKey) (now : Time) (limit : ℕ) (db : Db) (q : Progress)
    → InboxValid db
    → (w : Worked
        (claim k now limit db.events)
        (record { db = db; completed = []; failure = none })
        q)
    → Ready k q (take w.n (claim k now limit db.events))
Worked-Ready k now limit db q v w = record {
  distinct = λ id. omega (arith, w.kept.ids id, v.distinct id);
  current = w.current v.current;
  completed = w.completed;
  done_distinct = λ id. omega (
    arith,
    v.distinct id,
    count-take-le (has_id id) w.n (claim k now limit db.events),
    count-claim-le (has_id id) k now limit db.events,
  );
  done_pending = All-one k db.events q.db.events _ w.kept (
      All-take (λ e. OnePending k db.events e.event_id) w.n _
        (claim-OnePending k now limit db.events v.distinct));
}

length-ids_of : (es : List EventRow) → length (ids_of es) ≡ length es
length-ids_of [] = refl
length-ids_of (e ∷ es) = omega (arith, length-ids_of es)

-- The pending events of the shard are fewer by the marked ones.
pub count_complete :
    (k : ShardKey) (now : Time) (p : Progress) (done : List EventRow)
    → Ready k p done
    → count (is_pending k) (mark_applied now p.completed p.db.events) + length p.completed
      ≡ count (is_pending k) p.db.events
count_complete k now p done r = rw r.completed (
    omega (
      arith,
      count-mark_applied k now (ids_of done) p.db.events,
      count-marked k p.db.events done r.done_distinct r.done_pending,
      length-ids_of done,
    ))

-- CHECK (pending_events >= 0) holds: the shard's number covers what is taken off it.
pub not-overdrawn :
    (k : ShardKey) (now : Time) (p : Progress) (done : List EventRow)
    → Ready k p done
    → overdrawn k (length p.completed) p.db.heads ≡ false
unfolding overdrawn
not-overdrawn k now p done r = elim (Option-cases (head_of k p.db.heads)) [
  | inl n ↦ rw (n, overdrawn)
  | inr (b, s) ↦
      let cached = rw s at (r.current k) in
      rw (s, overdrawn) (ground (arith, count_complete k now p done r, cached))
]

advance_head-key :
    (next : Option ℕ) (n : ℕ) (now : Time) (h : ShardHead)
    → head_key (advance_head next n now h) ≡ head_key h
unfolding advance_head
advance_head-key next n now h = refl

abbrev advanced : Option ℕ → ℕ → Time → Option ShardHead → Option ShardHead
advanced next n now none = none
advanced next n now (some h) = some (advance_head next n now h)

Cached-advanced :
    (k : ShardKey) (n : ℕ) (now : Time) (xs ys : List EventRow) (o : Option ShardHead)
    → count (is_pending k) ys + n ≡ count (is_pending k) xs
    → Cached k xs o
    → Cached k ys (advanced (next_event k ys) n now o)
unfolding advance_head
Cached-advanced k n now xs ys none c h = omega arith
Cached-advanced k n now xs ys (some b) c h = (omega arith, refl)

head_of-advance :
    (j k : ShardKey) (next : Option ℕ) (n : ℕ) (now : Time) (heads : List ShardHead)
    → head_of j (update (at head_key shard_eq k) (advance_head next n now) heads)
      ≡ (if shard_eq k j then advanced next n now (head_of j heads) else head_of j heads)
head_of-advance j k next n now heads =
    rw
      (find-update head_key shard_eq shard_eq_iff j k (advance_head next n now) heads
        (advance_head-key next n now))
      (ground arith)

count-cong :
    (j : ShardKey) (xs ys : List EventRow)
    → select (is_pending j) xs ≡ select (is_pending j) ys
    → count (is_pending j) xs ≡ count (is_pending j) ys
count-cong j xs ys e =
    sym (count-select_self j xs) ∙ ap (λ es. length es) e ∙ count-select_self j ys
  where
    count-select_self :
        (i : ShardKey) (es : List EventRow)
        → length (select (is_pending i) es) ≡ count (is_pending i) es
    count-select_self i [] = refl
    count-select_self i (x ∷ es) = ground (arith, count-select_self i es)

-- The other shards' queues are what they were.
elsewhere_complete :
    (j k : ShardKey) (now : Time) (p : Progress) (done : List EventRow)
    → j ≢ k
    → Ready k p done
    → select (is_pending j) (mark_applied now p.completed p.db.events)
      ≡ select (is_pending j) p.db.events
elsewhere_complete j k now p done ne r = rw r.completed (
    select-mark_applied j now (ids_of done) p.db.events
      (count-marked_elsewhere j k p.db.events done ne r.distinct r.done_pending))

-- The database that `complete` leaves where it has something to mark.
completed_db : ShardKey → Time → Progress → Db
completed_db k now p =
    let events = mark_applied now p.completed p.db.events in
    record p.db {
      events = events;
      heads =
          update (at head_key shard_eq k)
            (advance_head (next_event k events) (length p.completed) now) p.db.heads;
    }

completed_db-InboxValid :
    (k : ShardKey) (now : Time) (p : Progress) (done : List EventRow)
    → Ready k p done
    → InboxValid (completed_db k now p)
unfolding completed_db
completed_db-InboxValid k now p done r = record {
  distinct = λ id. omega (arith, ids-mark_applied now p.completed id p.db.events, r.distinct id);
  current = λ j.
      let events = mark_applied now p.completed p.db.events in
      let n = length p.completed in
      rw (head_of-advance j k (next_event k events) n now p.db.heads)
        (elim (Bool-cases (shard_eq k j)) [
          | inl same ↦ rw same (
              subst
                (λ i. Cached i events (advanced (next_event k events) n now (head_of i p.db.heads)))
                ((shard_eq_iff k j).0 same)
                (Cached-advanced k n now p.db.events events (head_of k p.db.heads)
                  (count_complete k now p done r) (r.current k)))
          | inr other ↦
              let ne : j ≢ k = λ e. cc ((shard_eq_iff k j).1 (sym e)) in
              let kept = sym (elsewhere_complete j k now p done ne r) in
              rw other (
                Cached-cong j p.db.events events (head_of j p.db.heads)
                  (count-cong j p.db.events events kept) (next_event-cong j p.db.events events kept)
                  (r.current j))
        ]);
}

-- `complete` succeeds, and leaves a valid inbox.
pub complete-InboxValid :
    (k : ShardKey) (now : Time) (p : Progress) (done : List EventRow)
    → Ready k p done
    → (db' : Db) × (complete k now p ≡ ok db') × InboxValid db'
unfolding complete completed_db
complete-InboxValid k now p done r = elim (Bool-cases (is_empty p.completed)) [
  | inl none_done ↦
      (p.db, rw (none_done, complete), record { distinct = r.distinct; current = r.current })
  | inr some_done ↦ (
    completed_db k now p,
    rw (some_done, not-overdrawn k now p done r, complete),
    completed_db-InboxValid k now p done r,
  )
]
