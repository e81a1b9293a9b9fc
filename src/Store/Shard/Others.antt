-- ===== src/Store/Shard/Others.antt =====
-- store.go: the marks of ApplyShard as the queues of other shards see them, and postponed events.
use icinga_kubernetes.Common.{
  ℕ, ◌+◌, ◌≤◌, ◌==◌, ◌&&◌, Bool, String, List, [], ◌∷◌, sort, insert, All, ◌≡◌, ◌≢◌, refl, ◌∙◌,
  arith, if◌then◌else◌,
}
use icinga_kubernetes.Common.Table.{select, count, update, at}
use icinga_kubernetes.Model.{Time}
use icinga_kubernetes.Store.Tables.{EventRow, ShardKey, event_key}
use icinga_kubernetes.Store.Inbox.{is_pending, received_before, head?, id_of, next_event}
use icinga_kubernetes.Store.Inbox.Current.{shard_eq_iff}
use icinga_kubernetes.Store.Shard.{event_id_of, postpone, mark_applied}
use icinga_kubernetes.Store.Shard.Marks.{has_id, Distinct, OnePending, is_marked, ids_of}

-- A row is pending for one shard only.
count-two_shards :
    (j k : ShardKey) (p : EventRow → Bool) (es : List EventRow)
    → j ≢ k
    → count (λ e. is_pending j e && p e) es + count (λ e. is_pending k e && p e) es ≤ count p es
count-two_shards j k p [] ne = omega arith
count-two_shards j k p (e ∷ es) ne = ground (
  arith,
  count-two_shards j k p es ne,
  shard_eq_iff (event_key e) j,
  shard_eq_iff (event_key e) k,
  ne,
)

count-none :
    (j : ShardKey) (es : List EventRow) → count (λ e. is_pending j e && is_marked [] e) es ≡ 0
count-none j [] = refl
count-none j (e ∷ es) = ground (arith, count-none j es)

count-or-le :
    (j : ShardKey) (id : ℕ) (ids : List ℕ) (es : List EventRow)
    → count (λ e. is_pending j e && is_marked (id ∷ ids) e) es
      ≤ count (λ e. is_pending j e && has_id id e) es
        + count (λ e. is_pending j e && is_marked ids e) es
count-or-le j id ids [] = omega arith
count-or-le j id ids (e ∷ es) = ground (arith, count-or-le j id ids es)

-- None of the marked rows is pending for another shard.
pub count-marked_elsewhere :
    (j k : ShardKey) (events done : List EventRow)
    → j ≢ k
    → Distinct events
    → All (λ e. OnePending k events e.event_id) done
    → count (λ e. is_pending j e && is_marked (ids_of done) e) events ≡ 0
count-marked_elsewhere j k events [] ne d a = count-none j events
count-marked_elsewhere j k events (e ∷ es) ne d a = omega (
  arith,
  count-or-le j e.event_id (ids_of es) events,
  count-two_shards j k (has_id e.event_id) events ne,
  d e.event_id,
  a.0,
  count-marked_elsewhere j k events es ne d a.1,
)

pub select-mark_applied :
    (j : ShardKey) (now : Time) (ids : List ℕ) (events : List EventRow)
    → count (λ e. is_pending j e && is_marked ids e) events ≡ 0
    → select (is_pending j) (mark_applied now ids events) ≡ select (is_pending j) events
unfolding mark_applied
select-mark_applied j now ids [] h = refl
select-mark_applied j now ids (e ∷ es) h = ground (arith, select-mark_applied j now ids es)

pub ids-mark_applied :
    (now : Time) (ids : List ℕ) (id : ℕ) (events : List EventRow)
    → count (has_id id) (mark_applied now ids events) ≡ count (has_id id) events
unfolding mark_applied
ids-mark_applied now ids id [] = refl
ids-mark_applied now ids id (e ∷ es) = ground (arith, ids-mark_applied now ids id es)

-- The queues that two inboxes hold are the same, up to what a postponement changes.
pub record Kept (a b : List EventRow) : Type 0 where
  pub ids : (id : ℕ) → count (has_id id) b ≡ count (has_id id) a
  pub pending : (k : ShardKey) → count (is_pending k) b ≡ count (is_pending k) a
  pub one : (k : ShardKey) (id : ℕ) → OnePending k a id → OnePending k b id
  pub next : (k : ShardKey) → next_event k b ≡ next_event k a

pub Kept-refl : (a : List EventRow) → Kept a a
Kept-refl a = record { ids = λ id. refl; pending = λ k. refl; one = λ k id h. h; next = λ k. refl }

module _ (now : Time) (message : String) (id : ℕ) where
  abbrev touch : List EventRow → List EventRow
  touch = update (has_id id) (postpone now message)

  insert-touch :
      (e : EventRow) (es : List EventRow)
      → insert received_before (if has_id id e then postpone now message e else e) (touch es)
        ≡ touch (insert received_before e es)
  unfolding postpone
  insert-touch e [] = refl
  insert-touch e (x ∷ es) = ground (arith, insert-touch e es)

  sort-touch :
      (es : List EventRow) → sort received_before (touch es) ≡ touch (sort received_before es)
  sort-touch [] = refl
  sort-touch (e ∷ es) = rw (sort-touch es) (insert-touch e (sort received_before es))

  select-touch :
      (k : ShardKey) (es : List EventRow)
      → select (is_pending k) (touch es) ≡ touch (select (is_pending k) es)
  unfolding postpone
  select-touch k [] = refl
  select-touch k (e ∷ es) = ground (arith, select-touch k es)

  id_of-touch : (es : List EventRow) → id_of (head? (touch es)) ≡ id_of (head? es)
  unfolding postpone
  id_of-touch [] = refl
  id_of-touch (e ∷ es) = ground arith

  ids-touch : (i : ℕ) (es : List EventRow) → count (has_id i) (touch es) ≡ count (has_id i) es
  unfolding postpone
  ids-touch i [] = refl
  ids-touch i (e ∷ es) = ground (arith, ids-touch i es)

  pending-touch :
      (k : ShardKey) (es : List EventRow)
      → count (is_pending k) (touch es) ≡ count (is_pending k) es
  unfolding postpone
  pending-touch k [] = refl
  pending-touch k (e ∷ es) = ground (arith, pending-touch k es)

  one-touch :
      (k : ShardKey) (i : ℕ) (es : List EventRow)
      → count (λ e. is_pending k e && has_id i e) (touch es)
        ≡ count (λ e. is_pending k e && has_id i e) es
  unfolding postpone
  one-touch k i [] = refl
  one-touch k i (e ∷ es) = ground (arith, one-touch k i es)

  next_event-touch : (k : ShardKey) (es : List EventRow) → next_event k (touch es) ≡ next_event k es
  unfolding next_event
  next_event-touch k es =
      rw (select-touch k es, sort-touch (select (is_pending k) es))
        (id_of-touch (sort received_before (select (is_pending k) es)))

  pub Kept-postpone :
      (es : List EventRow) → Kept es (update (at event_id_of ◌==◌ id) (postpone now message) es)
  Kept-postpone es = record {
    ids = λ i. ids-touch i es;
    pending = λ k. pending-touch k es;
    one = λ k i h. one-touch k i es ∙ h;
    next = λ k. next_event-touch k es;
  }
