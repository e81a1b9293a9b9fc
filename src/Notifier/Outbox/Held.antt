-- ===== src/Notifier/Outbox/Held.antt =====
-- notifier.go: a claim while other statements run.
use icinga_kubernetes.Common.{
  ℕ, if◌then◌else◌, ◌+◌, ◌≤◌, ◌<◌, ◌≡◌, ◌≢◌, ◌⊎◌, refl, sym, ap, ◌∙◌, subst, arith, Bool-cases, inl,
  inr, true, Bool, is_some, Option, none, some, Option-cases, List, String,
}
use icinga_kubernetes.Common.Table.{update}
use icinga_kubernetes.Model.{Time, Resource}
use icinga_kubernetes.Store.Tables.{OutboxRow, Db, notify}
use icinga_kubernetes.Notifier.Outbox.{
  is_claimable, candidate, claim_duration, take_claim, has_id, claim_record, is_held,
  mark_delivered, delivered, release, retry,
}
use icinga_kubernetes.Notifier.Outbox.Moves.{Member, Member-update, IsOrdered}
use icinga_kubernetes.Notifier.Outbox.Ordered.{candidate-claimable}

claimed_from :
    (locked : OutboxRow → Bool) (now : Time) (identity : String) (rows : List OutboxRow)
    (e : OutboxRow)
    → (claim_record locked now identity rows).0 ≡ some e
    → (c : OutboxRow) × (candidate locked now rows ≡ some c)
      × (c.id ≡ e.id)
      × ((claim_record locked now identity rows).1
          ≡ update (has_id c.id) (take_claim now identity) rows)
unfolding claim_record take_claim
claimed_from locked now identity rows e q = elim (Option-cases (candidate locked now rows)) [
  | inl n ↦ absurd (ground (arith, q, n))
  | inr (c, n) ↦ (c, n, ap id_of (subst (λ o. (out o).0 ≡ some e) n q), rw (n, claim_record) refl)
]
  where
    out : Option OutboxRow → Option OutboxRow × List OutboxRow
    out o = elim o [
      | none ↦ (none, rows)
      | some e ↦
          (some (take_claim now identity e), update (has_id e.id) (take_claim now identity) rows)
    ]

    id_of : Option OutboxRow → ℕ
    id_of none = 0
    id_of (some e) = e.id

-- Statements of any worker and notifier until a time, but for Retry of the record itself.
pub data Meanwhile (id : ℕ) (until : Time) (a : Db) : Db → Type 0 where
  at_first : Meanwhile id until a a
  queued :
      {b : Db} (now : Time) (r : Resource) (action : String)
      → Meanwhile id until a b
      → Meanwhile id until a (notify now r action b)
  claimed :
      {b : Db} (locked : OutboxRow → Bool) (now : Time) (identity : String)
      → now ≤ until
      → Meanwhile id until a b
      → Meanwhile id until a (record b { outbox = (claim_record locked now identity b.outbox).1 })
  acknowledged :
      {b : Db} (now : Time) (other : ℕ) (identity : String)
      → Meanwhile id until a b
      → Meanwhile id until a (record b { outbox = (delivered now other identity b.outbox).0 })
  retried :
      {b : Db} (now : Time) (other : ℕ) (identity message : String)
      → other ≢ id
      → Meanwhile id until a b
      → Meanwhile id until a (record b { outbox = retry now other identity message b.outbox })

-- Nobody may claim the record before the time.
abbrev Safe : Time → OutboxRow → Type 0
Safe until x =
    (is_some x.delivered_at ≡ true) ⊎ ((u : Time) × (x.claimed_until ≡ some u) × (until ≤ u))

abbrev Held : ℕ → Time → List OutboxRow → Type 0
Held id until rows = (x : OutboxRow) → Member x rows → x.id ≡ id → Safe until x

Safe-unclaimable :
    (until later : Time) (rows : List OutboxRow) (x : OutboxRow)
    → Safe until x
    → later ≤ until
    → is_claimable later rows x ≢ true
unfolding is_claimable
Safe-unclaimable until later rows x (inl d) soon c = ground (arith, d, c)
Safe-unclaimable until later rows x (inr (u, e, l)) soon c = ground (arith, e, l, soon, c)

-- An update that leaves the record of the id safe, or does not touch it.
Held-update :
    (id : ℕ) (until : Time) (p : OutboxRow → Bool) (f : OutboxRow → OutboxRow)
    (rows : List OutboxRow)
    → ((y : OutboxRow) → (f y).id ≡ y.id)
    → ((y : OutboxRow) → Member y rows → y.id ≡ id → p y ≡ true → Safe until (f y))
    → Held id until rows
    → Held id until (update p f rows)
Held-update id until p f rows keeps safe held x m i =
    let (y, n, e) = Member-update p f rows x m in
    elim (Bool-cases (p y)) [
      | inl h ↦
          let moved : f y ≡ x = subst (λ b. (if b then f y else y) ≡ x) h e in
          let same : y.id ≡ id = sym (keeps y) ∙ ap (λ r. r.id) moved ∙ i in
          subst (Safe until) moved (safe y n same h)
      | inr h ↦
          let kept : y ≡ x = subst (λ b. (if b then f y else y) ≡ x) h e in
          subst (Safe until) kept (held y n (ap (λ r. r.id) kept ∙ i))
    ]

Held-claim :
    (id : ℕ) (until now : Time) (locked : OutboxRow → Bool) (identity : String)
    (rows : List OutboxRow)
    → now ≤ until
    → Held id until rows
    → Held id until (claim_record locked now identity rows).1
unfolding claim_record take_claim
Held-claim id until now locked identity rows soon held =
    elim (Option-cases (candidate locked now rows)) [
      | inl n ↦ rw (n, claim_record) held
      | inr (c, n) ↦
          let (free, m) = candidate-claimable locked now rows c n in
          let other : c.id ≢ id = λ i. Safe-unclaimable until now rows c (held c m i) soon free in
          rw (n, claim_record)
            (Held-update id until (has_id c.id) (take_claim now identity) rows (λ y. refl)
              (λ y l i h. let q = other in absurd (q (ground (arith, i, h)))) held)
    ]

Held-delivered :
    (id : ℕ) (until now : Time) (other : ℕ) (identity : String) (rows : List OutboxRow)
    → Held id until rows
    → Held id until (delivered now other identity rows).0
unfolding delivered mark_delivered
Held-delivered id until now other identity rows held =
    Held-update id until (is_held other identity) (mark_delivered now) rows (λ y. refl)
      (λ y l i h. inl refl) held

Held-retry :
    (id : ℕ) (until now : Time) (other : ℕ) (identity message : String) (rows : List OutboxRow)
    → other ≢ id
    → Held id until rows
    → Held id until (retry now other identity message rows)
unfolding retry release is_held
Held-retry id until now other identity message rows d held =
    Held-update id until (is_held other identity) (release now message) rows (λ y. refl)
      (λ y l i h. absurd (d (ground (arith, i, h)))) held

Held-queued :
    (id : ℕ) (until now : Time) (r : Resource) (action : String) (db : Db)
    → id < db.next_outbox
    → Held id until db.outbox
    → Held id until (notify now r action db).outbox
unfolding notify
Held-queued id until now r action db below held x (inl e) i =
    let j = ap (λ y. y.id) e in absurd (omega (arith, below, j, i))
Held-queued id until now r action db below held x (inr m) i = held x m i

abbrev Kept : ℕ → Time → Db → Type 0
Kept id until db = (id < db.next_outbox) × Held id until db.outbox

Meanwhile-Kept :
    (id : ℕ) (until : Time) (a b : Db) → Kept id until a → Meanwhile id until a b → Kept id until b
unfolding notify
Meanwhile-Kept id until a _ k at_first = k
Meanwhile-Kept id until a _ k (queued {b} now r action s) =
    let (below, held) = Meanwhile-Kept id until a b k s in
    (omega (arith, below), Held-queued id until now r action b below held)
Meanwhile-Kept id until a _ k (claimed {b} locked now identity soon s) =
    let (below, held) = Meanwhile-Kept id until a b k s in
    (below, Held-claim id until now locked identity b.outbox soon held)
Meanwhile-Kept id until a _ k (acknowledged {b} now other identity s) =
    let (below, held) = Meanwhile-Kept id until a b k s in
    (below, Held-delivered id until now other identity b.outbox held)
Meanwhile-Kept id until a _ k (retried {b} now other identity message d s) =
    let (below, held) = Meanwhile-Kept id until a b k s in
    (below, Held-retry id until now other identity message b.outbox d held)

-- For thirty seconds after a record is claimed no notifier, the same one included, claims it again,
-- whatever is queued, claimed, acknowledged and given back meanwhile, if Retry does not give back the
-- record itself; in an outbox whose rows have ids below the next one.
pub claim_record-Held :
    (locked locked' : OutboxRow → Bool) (now later : Time) (identity identity' : String)
    (db db' : Db) (e e' : OutboxRow)
    → IsOrdered db.next_outbox db.outbox
    → (claim_record locked now identity db.outbox).0 ≡ some e
    → Meanwhile e.id
        (now + claim_duration)
        (record db { outbox = (claim_record locked now identity db.outbox).1 })
        db'
    → later ≤ now + claim_duration
    → (claim_record locked' later identity' db'.outbox).0 ≡ some e'
    → e'.id ≢ e.id
unfolding take_claim
claim_record-Held locked locked' now later identity identity' db db' e e' v q s soon q' same =
    let until = now + claim_duration in
    let (c, n, i, t) = claimed_from locked now identity db.outbox e q in
    let (free, m) = candidate-claimable locked now db.outbox c n in
    let first : Held e.id until (update (has_id c.id) (take_claim now identity) db.outbox) =
      λ x l j.
        let (y, k, z) = Member-update (has_id c.id) (take_claim now identity) db.outbox x l in
        elim (Bool-cases (has_id c.id y)) [
          | inl h ↦
              let taken = subst (λ b. (if b then take_claim now identity y else y) ≡ x) h z in
              inr (until, sym (ap (λ r. r.claimed_until) taken), omega arith)
          | inr h ↦
              let kept = subst (λ b. (if b then take_claim now identity y else y) ≡ x) h z in
              let o = ap (λ r. r.id) kept in absurd (ground (arith, o, j, i, h))
        ] in
    let below = v.below c m in
    let (_, held) =
      Meanwhile-Kept e.id until
        (record db { outbox = (claim_record locked now identity db.outbox).1 }) db'
        (omega (arith, below, i), subst (Held e.id until) (sym t) first) s in
    let (c', n', i', t') = claimed_from locked' later identity' db'.outbox e' q' in
    let (free', m') = candidate-claimable locked' later db'.outbox c' n' in
    Safe-unclaimable until later db'.outbox c' (held c' m' (i' ∙ same)) soon free'
