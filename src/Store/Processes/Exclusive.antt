-- ===== src/Store/Processes/Exclusive.antt =====
-- store.go: concurrent writers of a business process.
use icinga_kubernetes.Common.{
  ◌≤◌, ◌≡◌, ◌≢◌, refl, subst, ◌∙◌, Option-cases, arith, inl, inr, Bool-cases, eq_iff, eq_refl, any,
  true, false, none, some, List, [], ◌∷◌, ◌++◌, String, str_eq,
}
use icinga_kubernetes.Common.Int.{ℤ, pos, negsuc}
use icinga_kubernetes.Common.Result.{Result, ok, err}
use icinga_kubernetes.Common.Table.{find, update, count, find-update_where}
use icinga_kubernetes.Json.{Value}
use icinga_kubernetes.Model.{Time}
use icinga_kubernetes.Store.Tables.{ProcessRow, Db}
use icinga_kubernetes.Store.Processes.{
  ProcessError, is_object, named, is_expected, get_business_process, new_process, next_generation,
  update_process, is_zero, checked, put_business_process,
}

abbrev pub name_of : ProcessRow → String
name_of p = p.name

-- PRIMARY KEY (name)
abbrev pub NamesUnique : Db → Type 0
NamesUnique db = (name : String) → count (named name) db.processes ≤ 1

no_longer_expected :
    (now : Time) (name : String) (definition : Value) (expected : ℤ) (rows : List ProcessRow)
    → find
        (is_expected name expected)
        (update (is_expected name expected) (next_generation now definition) rows)
      ≡ none
no_longer_expected now name definition expected [] = refl
no_longer_expected now name definition (negsuc n) (p ∷ rows) =
    ground (arith, no_longer_expected now name definition (negsuc n) rows)
no_longer_expected now name definition (pos n) (p ∷ rows) =
    ground (arith, no_longer_expected now name definition (pos n) rows)

named_absent :
    (name : String) (rows : List ProcessRow)
    → count (named name) rows ≡ 0
    → find (named name) rows ≡ none
named_absent name [] c = refl
named_absent name (p ∷ rows) c = ground (arith, c, named_absent name rows)

-- The row with the expected generation is the row of the name.
pub find-named :
    (name : String) (expected : ℤ) (rows : List ProcessRow) (p : ProcessRow)
    → count (named name) rows ≤ 1
    → find (is_expected name expected) rows ≡ some p
    → (find (named name) rows ≡ some p) × (is_expected name expected p ≡ true)
find-named name expected [] p c e = absurd (ground (arith, e))
find-named name expected (q ∷ rows) p c e = elim (Bool-cases (is_expected name expected q)) [
  | inl x ↦
      let same : q ≡ p = ground (arith, e, x) in
      (ground (arith, x, same), subst (λ r. is_expected name expected r ≡ true) same x)
  | inr x ↦
      let (found, fits) =
        find-named name expected rows p (ground (arith, c)) (ground (arith, e, x)) in
      elim (Bool-cases (named name q)) [
        | inl y ↦ absurd (ground (arith, found, named_absent name rows (ground (arith, c, y))))
        | inr y ↦ (rw y found, fits)
      ]
]

-- What a write that succeeds has written, and whom it shuts out.
pub record Won (name : String) (content : Value) (expected : ℤ) (p : ProcessRow) (db' : Db)
    : Type 0 where
  pub stored : get_business_process name db' ≡ some p
  pub content_eq : p.definition ≡ content
  pub excludes :
      (later : Time) (other : Value) (r : ProcessRow × Db)
      → put_business_process later name other expected db' ≢ ok r

conflict-checked :
    (content : Value) (w : Result ProcessError (ProcessRow × Db)) (r : ProcessRow × Db)
    → w ≡ err ProcessError.generation_conflict
    → checked content w ≢ ok r
conflict-checked content (ok x) r e h = ground (arith, e)
conflict-checked content (err x) r e h = ground (arith, h)

abbrev replaced : Db → List ProcessRow → Db
replaced db rows = record db { processes = rows }

find-append_new :
    (name : String) (rows : List ProcessRow) (p : ProcessRow)
    → any (named name) rows ≡ false
    → named name p ≡ true
    → (find (named name) (rows ++ p ∷ []) ≡ some p) × (any (named name) (rows ++ p ∷ []) ≡ true)
find-append_new name [] p a b = ground (arith, b)
find-append_new name (q ∷ rows) p a b = ground (arith, a, b, find-append_new name rows p)

insert_process-Won :
    (now : Time) (name : String) (content : Value) (expected : ℤ) (db : Db)
    → is_zero expected ≡ true
    → any (named name) db.processes ≡ false
    → Won name content expected
        (new_process now name content)
        (replaced db (db.processes ++ new_process now name content ∷ []))
unfolding get_business_process put_business_process
insert_process-Won now name content expected db z x =
    let row = new_process now name content in
    let (found, there) = find-append_new name db.processes row x (eq_refl name) in
    record {
      stored = found;
      content_eq = refl;
      excludes = λ later other r h. elim (Bool-cases (is_object other)) [
        | inl o ↦ absurd (ground (arith, rw (z, o, there) at h))
        | inr o ↦ absurd (ground (arith, rw (z, o) at h))
      ];
    }

update_process-Won :
    (now : Time) (name : String) (content : Value) (expected : ℤ) (db : Db) (q : ProcessRow)
    → is_zero expected ≡ false
    → NamesUnique db
    → find (is_expected name expected) db.processes ≡ some q
    → Won name content expected (next_generation now content q) (
        replaced db (update (is_expected name expected) (next_generation now content) db.processes))
unfolding get_business_process put_business_process
update_process-Won now name content expected db q z u x =
    let (found, fits) = find-named name expected db.processes q (u name) x in
    record {
      stored =
          find-update_where name_of str_eq eq_iff name (is_expected name expected)
            (next_generation now content) db.processes (λ b. refl)
          ∙ rw found (rw fits refl);
      content_eq = refl;
      excludes = λ later other r h.
          conflict-checked other
            (update_process later name other expected (
              replaced db
                (update (is_expected name expected) (next_generation now content) db.processes)))
            r (rw (no_longer_expected now name content expected db.processes, update_process) refl)
            (rw z at h);
    }

same_ok :
    (P : ProcessRow → Db → Type 0) {p q : ProcessRow} {d d' : Db}
    → ◌≡◌ {A = Result ProcessError (ProcessRow × Db)} (ok (p, d)) (ok (q, d'))
    → P p d
    → P q d'
same_ok P {p} {q} {d} {d'} e h =
    let a : p ≡ q = ground (arith, e) in
    let b : d ≡ d' = ground (arith, e) in subst (P q) b (subst (λ x. P x d) a h)

-- A successful write of a business process is what is read for its name afterwards, and the next
-- write fails where it expects the same generation, given that no two processes have one name.
pub put_business_process-Won :
    (now : Time) (name : String) (content : Value) (expected : ℤ) (db db' : Db) (p : ProcessRow)
    → NamesUnique db
    → put_business_process now name content expected db ≡ ok (p, db')
    → Won name content expected p db'
unfolding put_business_process
put_business_process-Won now name content expected db db' p u e =
    elim (Bool-cases (is_zero expected)) [
      | inl z ↦ elim (Bool-cases (is_object content)) [
        | inr o ↦ absurd (ground (arith, rw (z, o) at e))
        | inl o ↦ elim (Bool-cases (any (named name) db.processes)) [
          | inl x ↦ absurd (ground (arith, rw (z, o, x) at e))
          | inr x ↦
              same_ok (Won name content expected) (rw (z, o, x) at e)
                (insert_process-Won now name content expected db z x)
        ]
      ]
      | inr z ↦ elim (Option-cases (find (is_expected name expected) db.processes)) [
        | inl x ↦ absurd (ground (arith, rw (z, x, update_process) at e))
        | inr (q, x) ↦ elim (Bool-cases (is_object content)) [
          | inr o ↦ absurd (ground (arith, rw (z, x, o, update_process) at e))
          | inl o ↦
              same_ok (Won name content expected) (rw (z, x, o, update_process) at e)
                (update_process-Won now name content expected db q z u x)
        ]
      ]
    ]
