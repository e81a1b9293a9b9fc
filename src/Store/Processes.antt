-- ===== src/Store/Processes.antt =====
-- store.go: the business processes and their generations, by which concurrent writers exclude each
-- other. The generation that a request expects is an int64; `now` is clock_timestamp().
pub mod Exclusive
pub mod Raced
use icinga_kubernetes.Common.{
  ◌≤◌, ◌≡◌, ◌≢◌, refl, sym, subst, ◌∙◌, Option-cases, arith, inl, inr, Bool-cases, eq_iff, eq_refl,
  ℕ, zero, suc, ◌+◌, ◌==◌, ◌&&◌, ◌||◌, not, any, leb, Bool, true, false, Option, none, some,
  is_some, List, [], ◌∷◌, ◌++◌, sort, String, str_eq, if◌then◌else◌,
}
use icinga_kubernetes.Common.Int.{ℤ, pos, negsuc}
use icinga_kubernetes.Common.Text.{to_lower, str_ltb}
use icinga_kubernetes.Common.Result.{Result, ok, err}
use icinga_kubernetes.Common.Table.{select, find, update, count, find-update_where}
use icinga_kubernetes.Json.{Value, null, boolean, integer, string, array, object}
use icinga_kubernetes.Model.{Time}
use icinga_kubernetes.Store.Tables.{ProcessRow, Db}

-- CHECK (jsonb_typeof(definition) = 'object'), or ErrGenerationConflict.
pub data ProcessError : Type 0 where
  check_violation generation_conflict : ProcessError

abbrev pub is_object : Value → Bool
is_object (object fs) = true
is_object null = false
is_object (boolean b) = false
is_object (integer n) = false
is_object (string s) = false
is_object (array items) = false

abbrev pub named : String → ProcessRow → Bool
named name p = str_eq p.name name

abbrev pub is_generation : ℤ → ℕ → Bool
is_generation (pos n) g = g == n
is_generation (negsuc n) g = false

-- WHERE name=$1 AND generation=$3
abbrev pub is_expected : String → ℤ → ProcessRow → Bool
is_expected name expected p = named name p && is_generation expected p.generation

-- GetBusinessProcess, none for sql.ErrNoRows.
unfoldable pub get_business_process : String → Db → Option ProcessRow
get_business_process name db = find (named name) db.processes

abbrev pub new_process : Time → String → Value → ProcessRow
new_process now name definition = record {
  name = name;
  definition = definition;
  generation = 1;
  created_at = now;
  updated_at = now;
}

abbrev pub next_generation : Time → Value → ProcessRow → ProcessRow
next_generation now definition p = record p {
  definition = definition;
  generation = p.generation + 1;
  updated_at = now;
}

-- INSERT … ON CONFLICT(name) DO NOTHING RETURNING …
abbrev pub insert_process : Time → String → Value → Db → Result ProcessError (ProcessRow × Db)
insert_process now name definition db =
    let row = new_process now name definition in
    if any (named name) db.processes
    then err ProcessError.generation_conflict
    else ok (row, record db { processes = db.processes ++ row ∷ [] })

-- UPDATE … WHERE name=$1 AND generation=$3 RETURNING …
abbrev pub update_process : Time → String → Value → ℤ → Db → Result ProcessError (ProcessRow × Db)
update_process now name definition expected db =
    elim (find (is_expected name expected) db.processes) [
      | none ↦ err ProcessError.generation_conflict
      | some p ↦ ok (
        next_generation now definition p,
        record db {
          processes =
              update (is_expected name expected) (next_generation now definition) db.processes;
        },
      )
    ]

abbrev pub is_zero : ℤ → Bool
is_zero (pos n) = n == 0
is_zero (negsuc n) = false

abbrev pub checked :
    Value → Result ProcessError (ProcessRow × Db) → Result ProcessError (ProcessRow × Db)
checked definition (err e) = err e
checked definition (ok r) = if is_object definition then ok r else err ProcessError.check_violation

-- PutBusinessProcess. The check precedes ON CONFLICT, but not the WHERE of the update.
unfoldable pub put_business_process :
    Time → String → Value → ℤ → Db → Result ProcessError (ProcessRow × Db)
put_business_process now name definition expected db =
    if is_zero expected
    then (if is_object definition
        then insert_process now name definition db
        else err ProcessError.check_violation)
    else checked definition (update_process now name definition expected db)

-- DeleteBusinessProcess: whether a row was deleted. EXISTS sees the table as it was before.
unfoldable pub delete_business_process : String → ℤ → Db → Result ProcessError (Bool × Db)
delete_business_process name expected db =
    if any (is_expected name expected) db.processes
    then ok (
      true,
      record db { processes = select (λ p. not (is_expected name expected p)) db.processes },
    )
    else if any (named name) db.processes
    then err ProcessError.generation_conflict
    else ok (false, db)

abbrev by_lower_name : ProcessRow → ProcessRow → Bool
by_lower_name a b =
    str_ltb (to_lower a.name) (to_lower b.name)
    || (str_eq (to_lower a.name) (to_lower b.name) && not (str_ltb b.name a.name))

-- ListBusinessProcesses
unfoldable pub list_business_processes : Db → List ProcessRow
unfolding to_lower
list_business_processes db = sort by_lower_name db.processes
