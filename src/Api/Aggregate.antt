-- ===== src/Api/Aggregate.antt =====
-- server.go: the state of a set of resources under an operator, from the resources themselves and
-- from their counts. The map of counts is a function of the state.
pub mod Counts
use icinga_kubernetes.Common.{
  ℕ, suc, ◌+◌, ◌≤◌, ◌==◌, ltb, ◌&&◌, ◌||◌, not, any, ◌≡◌, refl, ap, sym, ◌∙◌, arith, inl, inr,
  Bool-cases, Bool, true, false, List, [], ◌∷◌, length, All, is_empty, String, str_eq, eq_iff,
  if◌then◌else◌,
}
use icinga_kubernetes.Common.Table.{count}
use icinga_kubernetes.Model.{
  State, ok, warning, critical, unknown, other, state_text, is_ok, Resource,
}

-- rank[s], where a missing key reads as 0.
abbrev pub rank : State → ℕ
rank s =
    if str_eq (state_text s) "warning"
    then 1
    else if str_eq (state_text s) "unknown"
    then 2
    else if str_eq (state_text s) "critical"
    then 3
    else 0

-- The loop of worst, from the result so far.
unfoldable pub worst_of : List Resource → State → State
worst_of [] result = result
worst_of (r ∷ rs) result =
    worst_of rs (if ltb (rank result) (rank r.state) then r.state else result)

unfoldable pub worst : List Resource → State
unfolding worst_of
worst items = worst_of items ok

abbrev pub has_ok : List Resource → Bool
has_ok items = any (λ r. is_ok r.state) items

abbrev pub has_problem : List Resource → Bool
has_problem items = any (λ r. not (is_ok r.state)) items

unfoldable pub aggregate : List Resource → String → State
unfolding worst
aggregate items op =
    if is_empty items
    then unknown
    else if str_eq op "or"
    then (if has_ok items then ok else worst items)
    else if str_eq op "and"
    then (if has_problem items then worst items else ok)
    else worst items

abbrev pub first_counted : (State → ℕ) → List State → State
first_counted counts [] = unknown
first_counted counts (s ∷ ss) = if ltb 0 (counts s) then s else first_counted counts ss

unfoldable pub aggregate_counts : (State → ℕ) → ℕ → String → State
aggregate_counts counts total op =
    if total == 0
    then unknown
    else if str_eq op "or" && ltb 0 (counts ok)
    then ok
    else if str_eq op "and" && (counts ok == total)
    then ok
    else first_counted counts (critical ∷ unknown ∷ warning ∷ ok ∷ [])

abbrev pub state_eq : State → State → Bool
state_eq a b = str_eq (state_text a) (state_text b)

-- The counts that a query of the resources gives.
abbrev pub count_states : List Resource → State → ℕ
count_states items s = count (λ r. state_eq r.state s) items
