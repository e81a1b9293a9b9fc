-- ===== src/Store/Shard/Marks.antt =====
-- store.go: counting the pending events of a shard before and after ApplyShard marks some applied.
use icinga_kubernetes.Common.{
  ℕ, zero, suc, ◌+◌, ◌≤◌, ◌==◌, ◌&&◌, any, Bool, false, List, [], ◌∷◌, map, length, take, sort,
  insert, All, ◌≡◌, refl, inl, inr, arith, Bool-cases, if◌then◌else◌,
}
use icinga_kubernetes.Common.Table.{select, count, at}
use icinga_kubernetes.Model.{Time}
use icinga_kubernetes.Store.Tables.{EventRow, ShardKey, shard_eq, event_key}
use icinga_kubernetes.Store.Inbox.{is_pending, received_before}
use icinga_kubernetes.Store.Shard.{event_id_of, is_due, claim, mark_applied}

abbrev pub has_id : ℕ → EventRow → Bool
has_id id e = e.event_id == id

-- PRIMARY KEY (event_id)
abbrev pub Distinct : List EventRow → Type 0
Distinct events = (id : ℕ) → count (has_id id) events ≤ 1

module _ (p : EventRow → Bool) where
  count-insert :
      (e : EventRow) (es : List EventRow)
      → count p (insert received_before e es) ≡ (if p e then suc (count p es) else count p es)
  count-insert e [] = refl
  count-insert e (x ∷ es) = ground (arith, count-insert e es)

  count-sort : (es : List EventRow) → count p (sort received_before es) ≡ count p es
  count-sort [] = refl
  count-sort (e ∷ es) = ground (arith, count-sort es, count-insert e (sort received_before es))

  count-select-le : (q : EventRow → Bool) (es : List EventRow) → count p (select q es) ≤ count p es
  count-select-le q [] = omega arith
  count-select-le q (e ∷ es) = ground (arith, count-select-le q es)

  pub count-take-le : (n : ℕ) (es : List EventRow) → count p (take n es) ≤ count p es
  count-take-le zero es = omega arith
  count-take-le (suc n) [] = omega arith
  count-take-le (suc n) (e ∷ es) = ground (arith, count-take-le n es)

pub count-claim-le :
    (p : EventRow → Bool) (k : ShardKey) (now : Time) (limit : ℕ) (events : List EventRow)
    → count p (claim k now limit events) ≤ count p events
unfolding claim
count-claim-le p k now limit events =
    let due = select (λ e. at event_key shard_eq k e && is_due now e) events in
    omega (
      arith,
      count-take-le p limit (sort received_before due),
      count-sort p due,
      count-select-le p (λ e. at event_key shard_eq k e && is_due now e) events,
    )

-- Of the pending events of the shard exactly one has this id.
abbrev pub OnePending : ShardKey → List EventRow → ℕ → Type 0
OnePending k events id = count (λ e. is_pending k e && has_id id e) events ≡ 1

count-and-le :
    (p q : EventRow → Bool) (es : List EventRow) → count (λ e. p e && q e) es ≤ count q es
count-and-le p q [] = omega arith
count-and-le p q (e ∷ es) = ground (arith, count-and-le p q es)

module _ {P Q : EventRow → Type 0} where
  All-map : (f : (e : EventRow) → P e → Q e) (es : List EventRow) → All P es → All Q es
  All-map f [] a = tt
  All-map f (e ∷ es) a = (f e a.0, All-map f es a.1)

module _ (P : EventRow → Type 0) where
  All-insert :
      (e : EventRow) (es : List EventRow) → P e → All P es → All P (insert received_before e es)
  All-insert e [] p a = (p, tt)
  All-insert e (x ∷ es) p a = ground (arith, All-insert e es p a.1)

  All-sort : (es : List EventRow) → All P es → All P (sort received_before es)
  All-sort [] a = tt
  All-sort (e ∷ es) a = All-insert e (sort received_before es) a.0 (All-sort es a.1)

  pub All-take : (n : ℕ) (es : List EventRow) → All P es → All P (take n es)
  All-take zero es a = tt
  All-take (suc n) [] a = tt
  All-take (suc n) (e ∷ es) a = (a.0, All-take n es a.1)

pub Distinct-tail : (e : EventRow) (es : List EventRow) → Distinct (e ∷ es) → Distinct es
Distinct-tail e es d id = ground (arith, d id)

OnePending-cons :
    (k : ShardKey) (x : EventRow) (es : List EventRow) (id : ℕ)
    → Distinct (x ∷ es)
    → OnePending k es id
    → OnePending k (x ∷ es) id
OnePending-cons k x es id d one = ground (arith, d id, count-and-le (is_pending k) (has_id id) es)

select-OnePending :
    (k : ShardKey) (now : Time) (es : List EventRow)
    → Distinct es
    → All
        (λ e. OnePending k es e.event_id)
        (select (λ e. at event_key shard_eq k e && is_due now e) es)
select-OnePending k now [] d = tt
select-OnePending k now (x ∷ es) d = elim (Bool-cases (at event_key shard_eq k x && is_due now x)) [
  | inl due ↦ rw due (
    ground (arith, d x.event_id, count-and-le (is_pending k) (has_id x.event_id) es),
    All-map (λ e. OnePending-cons k x es e.event_id d) _
        (select-OnePending k now es (Distinct-tail x es d)),
  )
  | inr other ↦ rw other (
      All-map (λ e. OnePending-cons k x es e.event_id d) _
        (select-OnePending k now es (Distinct-tail x es d)))
]

pub claim-OnePending :
    (k : ShardKey) (now : Time) (limit : ℕ) (events : List EventRow)
    → Distinct events
    → All (λ e. OnePending k events e.event_id) (claim k now limit events)
unfolding claim
claim-OnePending k now limit events d =
    All-take (λ e. OnePending k events e.event_id) limit _
      (All-sort (λ e. OnePending k events e.event_id) _ (select-OnePending k now events d))

-- event_id IN (…)
abbrev pub is_marked : List ℕ → EventRow → Bool
is_marked ids e = any (λ id. e.event_id == id) ids

abbrev pub ids_of : List EventRow → List ℕ
ids_of = map event_id_of

-- A test that no row of the list has in common with the other counts apart.
count-or :
    (k : ShardKey) (id : ℕ) (ids : List ℕ) (es : List EventRow)
    → any (λ i. id == i) ids ≡ false
    → count (λ e. is_pending k e && is_marked (id ∷ ids) e) es
      ≡ count (λ e. is_pending k e && has_id id e) es
        + count (λ e. is_pending k e && is_marked ids e) es
count-or k id ids [] h = omega arith
count-or k id ids (e ∷ es) h = elim (Bool-cases (e.event_id == id)) [
  | inl same ↦
      let eq : e.event_id ≡ id = ground arith in
      let out : is_marked ids e ≡ false = rw eq h in ground (arith, count-or k id ids es h, out)
  | inr other ↦ ground (arith, count-or k id ids es h)
]

not-marked :
    (id : ℕ) (es : List EventRow)
    → count (has_id id) es ≡ 0
    → any (λ i. id == i) (ids_of es) ≡ false
not-marked id [] h = refl
not-marked id (e ∷ es) h = ground (arith, not-marked id es)

-- As many pending rows are marked as there are ids in the list.
pub count-marked :
    (k : ShardKey) (events done : List EventRow)
    → Distinct done
    → All (λ e. OnePending k events e.event_id) done
    → count (λ e. is_pending k e && is_marked (ids_of done) e) events ≡ length done
count-marked k events [] d a = count-none events
  where
    count-none : (es : List EventRow) → count (λ e. is_pending k e && false) es ≡ 0
    count-none [] = refl
    count-none (e ∷ es) = ground (arith, count-none es)
count-marked k events (e ∷ es) d a = omega (
  arith,
  count-or k e.event_id (ids_of es) events
      (not-marked e.event_id es (ground (arith, d e.event_id))),
  a.0,
  count-marked k events es (Distinct-tail e es d) a.1,
)

-- The marks take exactly the marked rows of the shard out of the pending ones.
pub count-mark_applied :
    (k : ShardKey) (now : Time) (ids : List ℕ) (events : List EventRow)
    → count (is_pending k) (mark_applied now ids events)
        + count (λ e. is_pending k e && is_marked ids e) events
      ≡ count (is_pending k) events
unfolding mark_applied
count-mark_applied k now ids [] = omega arith
count-mark_applied k now ids (e ∷ es) = ground (arith, count-mark_applied k now ids es)
