-- ===== src/Api/Federation/Rests.antt =====
-- federation.go: the cooldown of a target that has failed.
use icinga_kubernetes.Common.{
  ◌+◌, ◌≤◌, ◌≡◌, refl, sym, subst, arith, inl, inr, Bool-cases, Bool, true, false, ltb, not, List,
  [], ◌∷◌, String, str_eq, eq_iff, eq_refl, if◌then◌else◌,
}
use icinga_kubernetes.Common.Table.{select, find, count}
use icinga_kubernetes.Model.{Time}
use icinga_kubernetes.Api.Federation.{
  Flight, Gate, Cooldown, has_key, cools, cool, until_of, retry_at, retry_delay, may_start, begin,
  finish,
}

abbrev pub calls_to : String → Flight → Bool
calls_to target f = str_eq f.target target

-- Reads and ends of calls between two readings of the clock, where no call to the target succeeds.
pub data Failing (target : String) (from to : Time) (g : Gate) : Gate → Type 0 where
  still : Failing target from to g g
  reads :
      {h : Gate} (t key : String) (now : Time)
      → now ≤ to
      → Failing target from to g h
      → Failing target from to g (begin t key now h)
  ends :
      {h : Gate} (f : Flight) (failed : Bool) (now : Time)
      → from ≤ now
      → (f.target ≡ target → failed ≡ true)
      → Failing target from to g h
      → Failing target from to g (finish f failed now h)

retry_at-cool :
    (target t : String) (until : Time) (cs : List Cooldown)
    → until_of (find (cools t) (cool target until cs))
      ≡ (if str_eq target t then until else until_of (find (cools t) cs))
retry_at-cool target t until [] = ground (arith, eq_iff target t)
retry_at-cool target t until (c ∷ cs) = ground (
  arith,
  retry_at-cool target t until cs,
  eq_iff target t,
  eq_iff c.target target,
  eq_iff c.target t,
)

retry_at-other :
    (target t : String) (cs : List Cooldown)
    → str_eq target t ≡ false
    → until_of (find (cools t) (select (λ c. not (cools target c)) cs))
      ≡ until_of (find (cools t) cs)
retry_at-other target t [] h = refl
retry_at-other target t (c ∷ cs) h = ground (
  arith,
  retry_at-other target t cs h,
  eq_iff target t,
  eq_iff c.target target,
  eq_iff c.target t,
)

begin-retry : (t key : String) (now : Time) (g : Gate) → (begin t key now g).retry ≡ g.retry
unfolding begin
begin-retry t key now g = elim (Bool-cases (may_start t key now g)) [
  | inl e ↦ rw e refl
  | inr e ↦ rw e refl
]

count-select : (p q : Flight → Bool) (fs : List Flight) → count p (select q fs) ≤ count p fs
count-select p q [] = omega arith
count-select p q (f ∷ fs) = ground (arith, count-select p q fs)

-- A call that is not to the target, or one that may not start, adds none to it.
begin-count :
    (target t key : String) (now : Time) (g : Gate)
    → now ≤ retry_at target g
    → count (calls_to target) (begin t key now g).pending ≤ count (calls_to target) g.pending
unfolding begin
begin-count target t key now g h = elim (Bool-cases (may_start t key now g)) [
  | inr e ↦ rw e (omega arith)
  | inl e ↦ elim (Bool-cases (str_eq t target)) [
    | inr q ↦ rw (e, q) (omega arith)
    | inl q ↦
        let same : t ≡ target = ground (arith, q, eq_iff t target) in
        let late : ltb (retry_at target g) now ≡ true =
          subst (λ x. ltb (retry_at x g) now ≡ true) same (ground (arith, e)) in
        ground (arith, late, h)
  ]
]

abbrev Rests : String → Time → Gate → Gate → Type 0
Rests target to g h =
    (to ≤ retry_at target h)
    × (count (calls_to target) h.pending ≤ count (calls_to target) g.pending)

finish-retry :
    (target : String) (from : Time) (f : Flight) (failed : Bool) (now : Time) (g : Gate)
    → from ≤ now
    → (f.target ≡ target → failed ≡ true)
    → from + retry_delay ≤ retry_at target g
    → from + retry_delay ≤ retry_at target (finish f failed now g)
unfolding finish
finish-retry target from f true now g late fails r =
    let c = retry_at-cool f.target target (now + retry_delay) g.retry in ground (arith, c, late, r)
finish-retry target from f false now g late fails r = elim (Bool-cases (str_eq f.target target)) [
  | inl q ↦ ground (arith, q, fails (ground (arith, q, eq_iff f.target target)))
  | inr q ↦ let c = retry_at-other f.target target g.retry q in ground (arith, c, r)
]

Failing-Rests :
    (target : String) (from : Time) (g h : Gate)
    → from + retry_delay ≤ retry_at target g
    → Failing target from (from + retry_delay) g h
    → Rests target (from + retry_delay) g h
unfolding finish
Failing-Rests target from g _ r still = (r, omega arith)
Failing-Rests target from g _ r (reads {h} t key now early s) =
    let (a, b) = Failing-Rests target from g h r s in
    let k = begin-retry t key now h in
    let c = begin-count target t key now h (omega (arith, early, a)) in
    (
      subst (λ l. from + retry_delay ≤ until_of (find (cools target) l)) (sym k) a,
      omega (arith, b, c),
    )
Failing-Rests target from g _ r (ends {h} f failed now late fails s) =
    let (a, b) = Failing-Rests target from g h r s in
    let c = count-select (calls_to target) (λ p. not (has_key f.key p)) h.pending in
    (finish-retry target from f failed now h late fails a, omega (arith, b, c))

-- Once a call to a target has failed, the number of pending calls to it does not grow for five seconds,
-- whatever reads come in that time and whichever calls end after the failure, if no call to it succeeds.
pub finish-Rests :
    (f : Flight) (from : Time) (g h : Gate)
    → Failing f.target from (from + retry_delay) (finish f true from g) h
    → count (calls_to f.target) h.pending ≤ count (calls_to f.target) g.pending
unfolding finish
finish-Rests f from g h s =
    let cooled = retry_at-cool f.target f.target (from + retry_delay) g.retry in
    let start : from + retry_delay ≤ retry_at f.target (finish f true from g) =
      ground (arith, cooled, eq_refl f.target) in
    let (_, b) = Failing-Rests f.target from (finish f true from g) h start s in
    let c = count-select (calls_to f.target) (λ p. not (has_key f.key p)) g.pending in
    omega (arith, b, c)
