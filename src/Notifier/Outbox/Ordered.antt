-- ===== src/Notifier/Outbox/Ordered.antt =====
-- notifier.go: the statements of the notifiers and of the workers, as steps.
use icinga_kubernetes.Common.{
  ℕ, ◌≡◌, refl, sym, ap, ◌∙◌, subst, ◌⊎◌, inl, inr, arith, lt→ltb, ==_iff, ◌&&◌, not, any, Bool,
  true, false, Bool-cases, some, Option-cases, List, [], ◌∷◌, String, eq_iff, if◌then◌else◌, sort,
  insert,
}
use icinga_kubernetes.Common.Table.{select}
use icinga_kubernetes.Model.{Time, Resource}
use icinga_kubernetes.Store.Tables.{OutboxRow, Db, notify}
use icinga_kubernetes.Store.Inbox.{head?}
use icinga_kubernetes.Notifier.Outbox.{
  is_ahead, is_claimable, by_id, candidate, take_claim, has_id, claim_record, is_held,
  mark_delivered, delivered, release, retry,
}
use icinga_kubernetes.Notifier.Outbox.Moves.{
  Member, is_busy, First, IsOrdered, IsMove, update-IsOrdered,
}

Member-select :
    (p : OutboxRow → Bool) (rows : List OutboxRow) (x : OutboxRow)
    → Member x (select p rows)
    → (p x ≡ true) × Member x rows
Member-select p [] x m = elim m [ ]
Member-select p (a ∷ rows) x m = elim (Bool-cases (p a)) [
  | inr e ↦
      let q =
        Member-select p rows x
          (subst (λ c. Member x (if c then a ∷ select p rows else select p rows)) e m) in
      (q.0, inr q.1)
  | inl e ↦ elim (subst (λ c. Member x (if c then a ∷ select p rows else select p rows)) e m) [
    | inl h ↦ (subst (λ y. p y ≡ true) h e, inl h)
    | inr n ↦ let q = Member-select p rows x n in (q.0, inr q.1)
  ]
]

Member-insert :
    (a : OutboxRow) (rows : List OutboxRow) (x : OutboxRow)
    → Member x (insert by_id a rows)
    → (a ≡ x) ⊎ Member x rows
Member-insert a [] x m = m
Member-insert a (b ∷ rows) x m = elim (Bool-cases (by_id a b)) [
  | inl e ↦ subst (λ c. Member x (if c then a ∷ b ∷ rows else b ∷ insert by_id a rows)) e m
  | inr e ↦ elim (subst (λ c. Member x (if c then a ∷ b ∷ rows else b ∷ insert by_id a rows)) e m) [
    | inl h ↦ inr (inl h)
    | inr n ↦ elim (Member-insert a rows x n) [ inl h ↦ inl h | inr k ↦ inr (inr k) ]
  ]
]

Member-sort : (rows : List OutboxRow) (x : OutboxRow) → Member x (sort by_id rows) → Member x rows
Member-sort [] x m = m
Member-sort (a ∷ rows) x m = elim (Member-insert a (sort by_id rows) x m) [
  | inl h ↦ inl h
  | inr n ↦ inr (Member-sort rows x n)
]

Member-head : (rows : List OutboxRow) (x : OutboxRow) → head? rows ≡ some x → Member x rows
Member-head [] x e = absurd (ground (arith, e))
Member-head (a ∷ rows) x e = inl (ground (arith, e))

pub candidate-claimable :
    (locked : OutboxRow → Bool) (now : Time) (rows : List OutboxRow) (x : OutboxRow)
    → candidate locked now rows ≡ some x
    → (is_claimable now rows x ≡ true) × Member x rows
unfolding candidate
candidate-claimable locked now rows x e =
    let p : OutboxRow → Bool = λ e. is_claimable now rows e && not (locked e) in
    let q =
      Member-select p rows x
        (Member-sort (select p rows) x (Member-head (sort by_id (select p rows)) x e)) in
    (ground (arith, q.0), q.1)

-- A claimable row is the first of its resource that is not delivered.
not_ahead :
    (e : OutboxRow) (rows : List OutboxRow) (x : OutboxRow)
    → any (is_ahead e) rows ≡ false
    → Member x rows
    → is_ahead e x ≡ false
not_ahead e [] x n m = elim m [ ]
not_ahead e (a ∷ rows) x n (inl h) = subst (λ y. is_ahead e y ≡ false) h (ground (arith, n))
not_ahead e (a ∷ rows) x n (inr m) = not_ahead e rows x (ground (arith, n)) m

pub is_claimable-First :
    (now : Time) (rows : List OutboxRow) (e : OutboxRow)
    → is_claimable now rows e ≡ true
    → First rows e
unfolding is_claimable
is_claimable-First now rows e c x m r i =
    let n = not_ahead e rows x (ground (arith, c)) m in
    ground (arith, n, eq_iff x.resource_id e.resource_id, r, lt→ltb x.id e.id i)

claim_record-IsOrdered :
    (next : ℕ) (locked : OutboxRow → Bool) (now : Time) (identity : String) (rows : List OutboxRow)
    → IsOrdered next rows
    → IsOrdered next (claim_record locked now identity rows).1
unfolding claim_record take_claim
claim_record-IsOrdered next locked now identity rows v =
    elim (Option-cases (candidate locked now rows)) [
      | inl n ↦ rw (n, claim_record) v
      | inr (e, n) ↦
          let q = candidate-claimable locked now rows e n in
          rw (n, claim_record)
            (update-IsOrdered next rows (has_id e.id) (take_claim now identity) (move e q) v)
    ]
  where
    move :
        (e : OutboxRow)
        → (is_claimable now rows e ≡ true) × Member e rows
        → IsMove rows (has_id e.id) (take_claim now identity)
    move e q = record {
      id = λ x. refl;
      resource = λ x. refl;
      keeps = λ x p d. d;
      busy = λ x m p b. inr (
          subst (First rows) (v.distinct e x q.1 m (sym ((==_iff x.id e.id).0 p)))
            (is_claimable-First now rows e q.0));
    }

held-busy :
    (id : ℕ) (identity : String) (x : OutboxRow) → is_held id identity x ≡ true → is_busy x ≡ true
unfolding is_held
held-busy id identity x h = elim (Option-cases x.claimed_by) [
  | inl n ↦ absurd (ground (arith, h, n))
  | inr (c, n) ↦ ground (arith, n)
]

delivered-IsOrdered :
    (next : ℕ) (now : Time) (id : ℕ) (identity : String) (rows : List OutboxRow)
    → IsOrdered next rows
    → IsOrdered next (delivered now id identity rows).0
unfolding delivered mark_delivered
delivered-IsOrdered next now id identity rows v =
    update-IsOrdered next rows (is_held id identity) (mark_delivered now)
      (record {
        id = λ x. refl;
        resource = λ x. refl;
        keeps = λ x p d. refl;
        busy = λ x m p b. inl (held-busy id identity x p);
      })
      v

retry-IsOrdered :
    (next : ℕ) (now : Time) (id : ℕ) (identity message : String) (rows : List OutboxRow)
    → IsOrdered next rows
    → IsOrdered next (retry now id identity message rows)
unfolding retry release
retry-IsOrdered next now id identity message rows v =
    update-IsOrdered next rows (is_held id identity) (release now message)
      (record {
        id = λ x. refl;
        resource = λ x. refl;
        keeps = λ x p d. d;
        busy = λ x m p b. inl (held-busy id identity x p);
      })
      v

notify-IsOrdered :
    (now : Time) (r : Resource) (action : String) (db : Db)
    → IsOrdered db.next_outbox db.outbox
    → IsOrdered (notify now r action db).next_outbox (notify now r action db).outbox
unfolding notify
notify-IsOrdered now r action db v = record {
  below = λ x m. elim m [
    | inl e ↦ let i = ap (λ y. y.id) e in omega (arith, i)
    | inr n ↦ let b = v.below x n in omega (arith, b)
  ];
  distinct = λ x y m n i. elim m [
    | inl e ↦ elim n [
      | inl f ↦ sym e ∙ f
      | inr f ↦ let b = v.below y f in let j = ap (λ y. y.id) e in absurd (omega (arith, b, j, i))
    ]
    | inr e ↦ elim n [
      | inl f ↦ let b = v.below x e in let j = ap (λ y. y.id) f in absurd (omega (arith, b, j, i))
      | inr f ↦ v.distinct x y e f i
    ]
  ];
  first = λ x m b y n q i. elim m [
    | inl e ↦ absurd (ground (arith, subst (λ z. is_busy z ≡ true) (sym e) b))
    | inr e ↦ elim n [
      | inr f ↦ v.first x e b y f q i
      | inl f ↦ let k = v.below x e in let j = ap (λ y. y.id) f in absurd (omega (arith, k, j, i))
    ]
  ];
}

-- One statement on the outbox: a worker queues a notification, or a notifier, of any identity and at
-- any time, claims a record, acknowledges one or gives one back.
pub data Step : Db → Db → Type 0 where
  queued :
      (now : Time) (r : Resource) (action : String) (db : Db) → Step db (notify now r action db)
  claimed :
      (locked : OutboxRow → Bool) (now : Time) (identity : String) (db : Db)
      → Step db (record db { outbox = (claim_record locked now identity db.outbox).1 })
  acknowledged :
      (now : Time) (id : ℕ) (identity : String) (db : Db)
      → Step db (record db { outbox = (delivered now id identity db.outbox).0 })
  retried :
      (now : Time) (id : ℕ) (identity message : String) (db : Db)
      → Step db (record db { outbox = retry now id identity message db.outbox })

pub data Reach (a : Db) : Db → Type 0 where
  here : Reach a a
  next : {b c : Db} → Reach a b → Step b c → Reach a c

Step-IsOrdered :
    {a b : Db} → Step a b → IsOrdered a.next_outbox a.outbox → IsOrdered b.next_outbox b.outbox
Step-IsOrdered (queued now r action db) v = notify-IsOrdered now r action db v
Step-IsOrdered (claimed locked now identity db) v =
    claim_record-IsOrdered db.next_outbox locked now identity db.outbox v
Step-IsOrdered (acknowledged now id identity db) v =
    delivered-IsOrdered db.next_outbox now id identity db.outbox v
Step-IsOrdered (retried now id identity message db) v =
    retry-IsOrdered db.next_outbox now id identity message db.outbox v

-- Whatever workers queue and notifiers claim, acknowledge and give back, in any order and at any
-- readings of the clock, the ids of the outbox stay unique, and a row that is claimed or delivered
-- has only delivered rows of its resource before it: the notifications of a resource are delivered
-- in the order in which they were queued.
pub Reach-IsOrdered :
    {a b : Db} → Reach a b → IsOrdered a.next_outbox a.outbox → IsOrdered b.next_outbox b.outbox
Reach-IsOrdered here v = v
Reach-IsOrdered (next r s) v = Step-IsOrdered s (Reach-IsOrdered r v)
