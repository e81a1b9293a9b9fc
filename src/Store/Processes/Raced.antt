-- ===== src/Store/Processes/Raced.antt =====
-- store.go: what other writers do between two writes that expect one generation.
use icinga_kubernetes.Common.{
  ℕ, ◌≤◌, ◌<◌, ◌≡◌, ◌≢◌, ◌⊎◌, refl, ap, sym, subst, ◌∙◌, Option-cases, arith, inl, inr, Bool-cases,
  eq_iff, eq_refl, any, not, Bool, true, false, some, List, [], ◌∷◌, ◌++◌, String, str_eq,
  if◌then◌else◌,
}
use icinga_kubernetes.Common.Int.{ℤ, pos, negsuc}
use icinga_kubernetes.Common.Result.{ok}
use icinga_kubernetes.Common.Table.{select, find, update, count, find-update_where}
use icinga_kubernetes.Json.{Value}
use icinga_kubernetes.Model.{Time}
use icinga_kubernetes.Store.Tables.{ProcessRow, Db}
use icinga_kubernetes.Store.Processes.{
  is_object, named, is_expected, get_business_process, new_process, next_generation, is_zero,
  put_business_process, delete_business_process,
}
use icinga_kubernetes.Store.Processes.Exclusive.{
  NamesUnique, name_of, find-named, put_business_process-Won,
}

-- Successful writes of any process at any times, and deletions of processes but the named one.
pub data Writes (name : String) (a : Db) : Db → Type 0 where
  no_writes : Writes name a a
  written :
      {b c : Db} (now : Time) (other : String) (content : Value) (expected : ℤ) (p : ProcessRow)
      → put_business_process now other content expected b ≡ ok (p, c)
      → Writes name a b
      → Writes name a c
  deleted :
      {b c : Db} (other : String) (expected : ℤ) (found : Bool)
      → other ≢ name
      → delete_business_process other expected b ≡ ok (found, c)
      → Writes name a b
      → Writes name a c

-- What a successful write makes of the table.
abbrev Put : Time → String → Value → ℤ → List ProcessRow → List ProcessRow → Type 0
Put now name content expected rows rows' =
    ((is_zero expected ≡ true)
      × (any (named name) rows ≡ false)
      × (rows' ≡ rows ++ new_process now name content ∷ []))
    ⊎ ((q : ProcessRow) × (find (is_expected name expected) rows ≡ some q)
        × (rows' ≡ update (is_expected name expected) (next_generation now content) rows))

put_business_process-Put :
    (now : Time) (name : String) (content : Value) (expected : ℤ) (b c : Db) (p : ProcessRow)
    → put_business_process now name content expected b ≡ ok (p, c)
    → Put now name content expected b.processes c.processes
unfolding put_business_process
put_business_process-Put now name content expected b c p e = elim (Bool-cases (is_zero expected)) [
  | inl z ↦ elim (Bool-cases (is_object content)) [
    | inr o ↦ absurd (ground (arith, e, z, o))
    | inl o ↦ elim (Bool-cases (any (named name) b.processes)) [
      | inl x ↦ absurd (ground (arith, e, z, o, x))
      | inr x ↦
          let same : record b { processes = b.processes ++ new_process now name content ∷ [] } ≡ c =
            ground (arith, e, z, o, x) in
          inl (z, x, sym (ap (λ d. d.processes) same))
    ]
  ]
  | inr z ↦ elim (Option-cases (find (is_expected name expected) b.processes)) [
    | inl x ↦ absurd (ground (arith, e, z, x))
    | inr (q, x) ↦ elim (Bool-cases (is_object content)) [
      | inr o ↦ absurd (ground (arith, e, z, o, x))
      | inl o ↦
          let same : record b {
            processes =
                update (is_expected name expected) (next_generation now content) b.processes;
          }
              ≡ c =
            ground (arith, e, z, o, x) in
          inr (q, x, sym (ap (λ d. d.processes) same))
    ]
  ]
]

abbrev Exceeds : ℤ → ℕ → Type 0
Exceeds (pos n) g = n < g
Exceeds (negsuc n) g = Unit

abbrev Outgrown : String → ℤ → List ProcessRow → Type 0
Outgrown name expected rows =
    ((n : String) → count (named n) rows ≤ 1)
    × ((q : ProcessRow) × (find (named name) rows ≡ some q) × Exceeds expected q.generation)

count-append_new :
    (n : String) (rows : List ProcessRow) (p : ProcessRow)
    → any (named p.name) rows ≡ false
    → count (named n) rows ≤ 1
    → count (named n) (rows ++ p ∷ []) ≤ 1
count-append_new n rows p a h = elim (Bool-cases (str_eq p.name n)) [
  | inr y ↦ let c = count-other n rows p y in omega (arith, c, h)
  | inl y ↦
      let same : p.name ≡ n = (eq_iff p.name n).0 y in
      let c = count-own n rows p (subst (λ m. any (named m) rows ≡ false) same a) in
      omega (arith, c)
]
  where
    count-other :
        (n : String) (rows : List ProcessRow) (p : ProcessRow)
        → str_eq p.name n ≡ false
        → count (named n) (rows ++ p ∷ []) ≡ count (named n) rows
    count-other n [] p y = ground (arith, y)
    count-other n (q ∷ rows) p y = ground (arith, count-other n rows p y)

    count-own :
        (n : String) (rows : List ProcessRow) (p : ProcessRow)
        → any (named n) rows ≡ false
        → count (named n) (rows ++ p ∷ []) ≤ 1
    count-own n [] p y = ground arith
    count-own n (q ∷ rows) p y = ground (arith, y, count-own n rows p)

find-append_old :
    (n : String) (rows : List ProcessRow) (p q : ProcessRow)
    → find (named n) rows ≡ some q
    → find (named n) (rows ++ p ∷ []) ≡ some q
find-append_old n [] p q e = absurd (ground (arith, e))
find-append_old n (x ∷ rows) p q e = ground (arith, e, find-append_old n rows p q)

count-update_named :
    (n : String) (p : ProcessRow → Bool) (now : Time) (content : Value) (rows : List ProcessRow)
    → count (named n) (update p (next_generation now content) rows) ≡ count (named n) rows
count-update_named n p now content [] = refl
count-update_named n p now content (x ∷ rows) =
    ground (arith, count-update_named n p now content rows)

more_generations :
    (expected : ℤ) (b : Bool) (now : Time) (content : Value) (q : ProcessRow)
    → Exceeds expected q.generation
    → Exceeds expected (if b then next_generation now content q else q).generation
more_generations (pos n) true now content q h = omega (arith, h)
more_generations (pos n) false now content q h = h
more_generations (negsuc n) b now content q h = tt

Put-Outgrown :
    (name : String) (expected : ℤ) (now : Time) (other : String) (content : Value) (e : ℤ)
    (rows rows' : List ProcessRow)
    → Put now other content e rows rows'
    → Outgrown name expected rows
    → Outgrown name expected rows'
Put-Outgrown name expected now other content e rows rows' (inl (_, fresh, same))
      (unique, (q, found, more)) =
    rw same (
      λ n. count-append_new n rows (new_process now other content) fresh (unique n),
      (q, find-append_old name rows (new_process now other content) q found, more),
    )
Put-Outgrown name expected now other content e rows rows' (inr (_, _, same))
      (unique, (q, found, more)) =
    let p = is_expected other e in
    let f = next_generation now content in
    let step = find-update_where name_of str_eq eq_iff name p f rows (λ b. refl) in
    rw same (
      λ n. rw (count-update_named n p now content rows) (unique n),
      (
        if p q then f q else q,
        step ∙ rw found refl,
        more_generations expected (p q) now content q more,
      ),
    )

select_other :
    (name other : String) (e : ℤ) (rows : List ProcessRow)
    → other ≢ name
    → find (named name) (select (λ p. not (is_expected other e p)) rows) ≡ find (named name) rows
select_other name other e [] d = refl
select_other name other e (x ∷ rows) d =
    ground (arith, select_other name other e rows d, eq_iff x.name name, eq_iff x.name other, d)

count-select_named :
    (n : String) (p : ProcessRow → Bool) (rows : List ProcessRow)
    → count (named n) (select p rows) ≤ count (named n) rows
count-select_named n p [] = omega arith
count-select_named n p (x ∷ rows) = ground (arith, count-select_named n p rows)

delete-Outgrown :
    (name : String) (expected : ℤ) (other : String) (e : ℤ) (found : Bool) (b c : Db)
    → other ≢ name
    → delete_business_process other e b ≡ ok (found, c)
    → Outgrown name expected b.processes
    → Outgrown name expected c.processes
unfolding delete_business_process
delete-Outgrown name expected other e found b c d q (unique, (r, there, more)) =
    elim (Bool-cases (any (is_expected other e) b.processes)) [
      | inl x ↦
          let rest = select (λ p. not (is_expected other e p)) b.processes in
          let same : record b { processes = rest } ≡ c = ground (arith, q, x) in
          rw (sym (ap (λ y. y.processes) same)) (
            λ n. omega (
              arith,
              unique n,
              count-select_named n (λ p. not (is_expected other e p)) b.processes,
            ),
            (r, select_other name other e b.processes d ∙ there, more),
          )
      | inr x ↦ elim (Bool-cases (any (named other) b.processes)) [
        | inl y ↦ absurd (ground (arith, q, x, y))
        | inr y ↦
            let same : b ≡ c = ground (arith, q, x, y) in
            rw (sym (ap (λ z. z.processes) same)) (unique, (r, there, more))
      ]
    ]

Writes-Outgrown :
    (name : String) (expected : ℤ) (a b : Db)
    → Writes name a b
    → Outgrown name expected a.processes
    → Outgrown name expected b.processes
Writes-Outgrown name expected a _ no_writes o = o
Writes-Outgrown name expected a _ (written {b} {c} now other content e p q w) o =
    Put-Outgrown name expected now other content e b.processes c.processes
      (put_business_process-Put now other content e b c p q) (Writes-Outgrown name expected a b w o)
Writes-Outgrown name expected a _ (deleted {b} {c} other e found d q w) o =
    delete-Outgrown name expected other e found b c d q (Writes-Outgrown name expected a b w o)

first-Outgrown :
    (name : String) (expected : ℤ) (now : Time) (content : Value) (rows rows' : List ProcessRow)
    → ((n : String) → count (named n) rows ≤ 1)
    → Put now name content expected rows rows'
    → Outgrown name expected rows'
first-Outgrown name (negsuc n) now content rows rows' unique (inl (z, _, _)) =
    absurd (ground (arith, z))
first-Outgrown name (pos n) now content rows rows' unique (inl (z, fresh, same)) = rw same (
  λ m. count-append_new m rows (new_process now name content) fresh (unique m),
  (
    new_process now name content,
    found name rows (new_process now name content) fresh (eq_refl name),
    ground (arith, z),
  ),
)
  where
    found :
        (n : String) (rows : List ProcessRow) (p : ProcessRow)
        → any (named n) rows ≡ false
        → named n p ≡ true
        → find (named n) (rows ++ p ∷ []) ≡ some p
    found n [] p a b = ground (arith, b)
    found n (q ∷ rows) p a b = ground (arith, a, b, found n rows p)
first-Outgrown name expected now content rows rows' unique (inr (q, x, same)) =
    let (there, fits) = find-named name expected rows q (unique name) x in
    let p = is_expected name expected in
    let f = next_generation now content in
    let step = find-update_where name_of str_eq eq_iff name p f rows (λ b. refl) in
    rw same (
      λ n. rw (count-update_named n p now content rows) (unique n),
      (f q, step ∙ rw there (rw fits refl), fitting name expected now content q fits),
    )
  where
    fitting :
        (name : String) (expected : ℤ) (now : Time) (content : Value) (q : ProcessRow)
        → is_expected name expected q ≡ true
        → Exceeds expected (next_generation now content q).generation
    fitting name (pos n) now content q h = ground (arith, h)
    fitting name (negsuc n) now content q h = tt

find-any :
    (name : String) (rows : List ProcessRow) (q : ProcessRow)
    → find (named name) rows ≡ some q
    → any (named name) rows ≡ true
find-any name [] q e = absurd (ground (arith, e))
find-any name (x ∷ rows) q e = ground (arith, e, find-any name rows q)

not_expected :
    (name : String) (expected : ℤ) (q : ProcessRow)
    → Exceeds expected q.generation
    → is_expected name expected q ≡ false
not_expected name (pos n) q h = ground (arith, h)
not_expected name (negsuc n) q h = ground arith

Outgrown-refused :
    (later : Time) (name : String) (content : Value) (expected : ℤ) (b c : Db) (p : ProcessRow)
    → Outgrown name expected b.processes
    → put_business_process later name content expected b ≢ ok (p, c)
Outgrown-refused later name content expected b c p (unique, (q, there, more)) e =
    elim (put_business_process-Put later name content expected b c p e) [
      | inl (_, fresh, _) ↦
          let old = find-any name b.processes q there in absurd (ground (arith, fresh, old))
      | inr (r, x, _) ↦
          let (found, fits) = find-named name expected b.processes r (unique name) x in
          let same : q ≡ r = ground (arith, there, found) in
          let misfit = not_expected name expected q more in
          let fits' = subst (λ z. is_expected name expected z ≡ true) (sym same) fits in
          absurd (ground (arith, misfit, fits'))
    ]

-- A successful write of a business process is what is read for its name right afterwards. Until the
-- process is deleted, whatever is written and whichever other processes are deleted, no later write
-- that expects the same generation succeeds; given that no two processes have one name.
pub put_business_process-once :
    (now later : Time) (name : String) (content content' : Value) (expected : ℤ)
    (db db' db'' last : Db) (p p' : ProcessRow)
    → NamesUnique db
    → put_business_process now name content expected db ≡ ok (p, db')
    → Writes name db' db''
    → (get_business_process name db' ≡ some p)
      × (p.definition ≡ content)
      × (put_business_process later name content' expected db'' ≢ ok (p', last))
put_business_process-once now later name content content' expected db db' db'' last p p' unique e
      w =
    let won = put_business_process-Won now name content expected db db' p unique e in
    let first =
      first-Outgrown name expected now content db.processes db'.processes unique
        (put_business_process-Put now name content expected db db' p e) in
    (
      won.stored,
      won.content_eq,
      Outgrown-refused later name content' expected db'' last p'
          (Writes-Outgrown name expected db' db'' w first),
    )
