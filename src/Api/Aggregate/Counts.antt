-- ===== src/Api/Aggregate/Counts.antt =====
-- server.go: the state of resources from their counts, beside the state from themselves.
use icinga_kubernetes.Common.{
  ℕ, suc, ◌+◌, ◌≤◌, ◌==◌, ltb, ◌||◌, not, ◌≡◌, refl, ap, sym, ◌∙◌, arith, inl, inr, Bool-cases,
  Bool, true, false, List, [], ◌∷◌, length, All, is_empty, String, str_eq, eq_iff, if◌then◌else◌,
}
use icinga_kubernetes.Model.{State, ok, warning, critical, unknown, other, is_ok, Resource}
use icinga_kubernetes.Api.Aggregate.{
  rank, worst_of, worst, has_ok, has_problem, aggregate, first_counted, aggregate_counts, state_eq,
  count_states,
}

-- CHECK (state IN ('ok', 'warning', 'critical', 'unknown'))
abbrev pub Plain : State → Type 0
Plain ok = Unit
Plain warning = Unit
Plain critical = Unit
Plain unknown = Unit
Plain (other s) = ⊥

abbrev pub PlainResource : Resource → Type 0
PlainResource r = Plain r.state

abbrev worse : State → State → State
worse a b = if ltb (rank a) (rank b) then b else a

abbrev larger : ℕ → ℕ → ℕ
larger a b = if ltb a b then b else a

-- The rank that the counts of the critical, the unknown and the warning states say.
abbrev count_rank : ℕ → ℕ → ℕ → ℕ
count_rank c u w = if ltb 0 c then 3 else if ltb 0 u then 2 else if ltb 0 w then 1 else 0

abbrev of_rank : ℕ → State
of_rank n = if n == 0 then ok else if n == 1 then warning else if n == 2 then unknown else critical

of_rank-rank : (s : State) → Plain s → of_rank (rank s) ≡ s
of_rank-rank ok p = refl
of_rank-rank warning p = refl
of_rank-rank critical p = refl
of_rank-rank unknown p = refl
of_rank-rank (other _) p = elim p [ ]

worse-Plain : (a b : State) → Plain a → Plain b → Plain (worse a b)
worse-Plain a b p q = elim (Bool-cases (ltb (rank a) (rank b))) [ inl e ↦ rw e q | inr e ↦ rw e p ]

rank-worse : (a b : State) → rank (worse a b) ≡ larger (rank a) (rank b)
rank-worse a b = elim (Bool-cases (ltb (rank a) (rank b))) [ inl e ↦ rw e refl | inr e ↦ rw e refl ]

abbrev is_counted : State → Resource → Bool
is_counted s r = state_eq r.state s

-- One more state with its own count.
add_rank :
    (a : ℕ) (s : State)
    → Plain s
    → (c u w : ℕ)
    → larger (larger a (rank s)) (count_rank c u w)
      ≡ larger a (
          count_rank
            (if state_eq s critical then suc c else c)
            (if state_eq s unknown then suc u else u)
            (if state_eq s warning then suc w else w))
add_rank a ok p c u w = ground arith
add_rank a warning p c u w = ground arith
add_rank a critical p c u w = ground arith
add_rank a unknown p c u w = ground arith
add_rank a (other _) p c u w = elim p [ ]

worst_of-Plain :
    (rs : List Resource) (a : State) → All PlainResource rs → Plain a → Plain (worst_of rs a)
unfolding worst_of
worst_of-Plain [] a ps p = p
worst_of-Plain (r ∷ rs) a (p₁, ps) p =
    worst_of-Plain rs (worse a r.state) ps (worse-Plain a r.state p p₁)

worst_of-rank :
    (rs : List Resource) (a : State)
    → All PlainResource rs
    → rank (worst_of rs a)
      ≡ larger (rank a) (
          count_rank (count_states rs critical) (count_states rs unknown) (count_states rs warning))
unfolding worst_of
worst_of-rank [] a ps = ground arith
worst_of-rank (r ∷ rs) a (p, ps) =
    let counts : ℕ =
      count_rank (count_states rs critical) (count_states rs unknown) (count_states rs warning) in
    worst_of-rank rs (worse a r.state) ps
    ∙ ap (λ n. larger n counts) (rank-worse a r.state)
    ∙ add_rank (rank a) r.state p (count_states rs critical) (count_states rs unknown)
        (count_states rs warning)

-- Each resource counts in one of the four states.
one_more :
    (s : State)
    → Plain s
    → (k c u w n : ℕ) → k + c + u + w ≡ n
    → (if state_eq s ok then suc k else k)
        + (if state_eq s critical then suc c else c)
        + (if state_eq s unknown then suc u else u)
        + (if state_eq s warning then suc w else w)
      ≡ suc n
one_more ok p k c u w n h = omega arith
one_more warning p k c u w n h = omega arith
one_more critical p k c u w n h = omega arith
one_more unknown p k c u w n h = omega arith
one_more (other _) p k c u w n h = elim p [ ]

count_states-length :
    (rs : List Resource)
    → All PlainResource rs
    → count_states rs ok
        + count_states rs critical
        + count_states rs unknown
        + count_states rs warning
      ≡ length rs
count_states-length [] ps = refl
count_states-length (r ∷ rs) (p, ps) =
    one_more r.state p (count_states rs ok) (count_states rs critical) (count_states rs unknown)
      (count_states rs warning) (length rs) (count_states-length rs ps)

one_ok :
    (s : State)
    → Plain s
    → (k : ℕ) → is_ok s || ltb 0 k ≡ ltb 0 (if state_eq s ok then suc k else k)
one_ok ok p k = ground arith
one_ok warning p k = refl
one_ok critical p k = refl
one_ok unknown p k = refl
one_ok (other _) p k = elim p [ ]

has_ok-counted :
    (rs : List Resource) → All PlainResource rs → has_ok rs ≡ ltb 0 (count_states rs ok)
has_ok-counted [] ps = refl
has_ok-counted (r ∷ rs) (p, ps) =
    ap (λ b. is_ok r.state || b) (has_ok-counted rs ps) ∙ one_ok r.state p (count_states rs ok)

one_problem :
    (s : State)
    → Plain s
    → (k n : ℕ) → k ≤ n
    → not (is_ok s) || not (k == n) ≡ not ((if state_eq s ok then suc k else k) == suc n)
one_problem ok p k n h = ground arith
one_problem warning p k n h = ground arith
one_problem critical p k n h = ground arith
one_problem unknown p k n h = ground arith
one_problem (other _) p k n h = elim p [ ]

count_states-bound : (rs : List Resource) → All PlainResource rs → count_states rs ok ≤ length rs
count_states-bound rs ps = let h = count_states-length rs ps in omega arith

has_problem-counted :
    (rs : List Resource)
    → All PlainResource rs
    → has_problem rs ≡ not (count_states rs ok == length rs)
has_problem-counted [] ps = refl
has_problem-counted (r ∷ rs) (p, ps) =
    ap (λ b. not (is_ok r.state) || b) (has_problem-counted rs ps)
    ∙ one_problem r.state p (count_states rs ok) (length rs) (count_states-bound rs ps)

first_counted-rank :
    (counts : State → ℕ)
    → ltb 0 (counts ok + counts critical + counts unknown + counts warning) ≡ true
    → first_counted counts (critical ∷ unknown ∷ warning ∷ ok ∷ [])
      ≡ of_rank (larger 0 (count_rank (counts critical) (counts unknown) (counts warning)))
first_counted-rank counts h = ground arith

is_empty-length : (rs : List Resource) → is_empty rs ≡ (length rs == 0)
is_empty-length [] = refl
is_empty-length (r ∷ rs) = ground arith

-- What both functions choose, from the answers to their tests.
abbrev chosen : Bool → Bool → Bool → String → State → State
chosen none_ has problem op rest =
    if none_
    then unknown
    else if str_eq op "or"
    then (if has then ok else rest)
    else if str_eq op "and"
    then (if problem then rest else ok)
    else rest

worst-first :
    (rs : List Resource)
    → All PlainResource rs
    → ltb 0 (length rs) ≡ true
    → first_counted (count_states rs) (critical ∷ unknown ∷ warning ∷ ok ∷ []) ≡ worst rs
unfolding worst
worst-first rs ps h =
    let total = count_states-length rs ps in
    first_counted-rank (count_states rs) (ground (arith, total, h))
    ∙ ap of_rank (sym (worst_of-rank rs ok ps))
    ∙ of_rank-rank (worst_of rs ok) (worst_of-Plain rs ok ps tt)

aggregate-chosen :
    (rs : List Resource) (op : String)
    → aggregate rs op ≡ chosen (is_empty rs) (has_ok rs) (has_problem rs) op (worst rs)
unfolding aggregate
aggregate-chosen rs op = refl

aggregate_counts-chosen :
    (counts : State → ℕ) (total : ℕ) (op : String)
    → aggregate_counts counts total op
      ≡ chosen
          (total == 0)
          (ltb 0 (counts ok))
          (not (counts ok == total))
          op
          (first_counted counts (critical ∷ unknown ∷ warning ∷ ok ∷ []))
unfolding aggregate_counts
aggregate_counts-chosen counts total op = ground (arith, eq_iff op "or", eq_iff op "and")

chosen-rest :
    (e has problem : Bool) (op : String) (a b : State)
    → (e ≡ false → a ≡ b)
    → chosen e has problem op a ≡ chosen e has problem op b
chosen-rest e has problem op a b h = elim (Bool-cases e) [
  | inl y ↦ rw y refl
  | inr n ↦ rw (h n) refl
]

-- The state that the counts of a set of resources give is the one that the resources themselves
-- give, under each operator, when each resource has one of the four states that the database holds.
pub aggregate_counts_lem :
    (rs : List Resource) (op : String)
    → All PlainResource rs
    → aggregate_counts (count_states rs) (length rs) op ≡ aggregate rs op
aggregate_counts_lem rs op ps =
    aggregate_counts-chosen (count_states rs) (length rs) op
    ∙ chosen-rest (length rs == 0) (ltb 0 (count_states rs ok))
        (not (count_states rs ok == length rs)) op
        (first_counted (count_states rs) (critical ∷ unknown ∷ warning ∷ ok ∷ [])) (worst rs)
        (λ e. worst-first rs ps (ground (arith, e)))
    ∙ ap
        (λ e.
          chosen e (ltb 0 (count_states rs ok)) (not (count_states rs ok == length rs)) op
            (worst rs))
        (sym (is_empty-length rs))
    ∙ ap (λ b. chosen (is_empty rs) b (not (count_states rs ok == length rs)) op (worst rs))
        (sym (has_ok-counted rs ps))
    ∙ ap (λ b. chosen (is_empty rs) (has_ok rs) b op (worst rs)) (sym (has_problem-counted rs ps))
    ∙ sym (aggregate-chosen rs op)
