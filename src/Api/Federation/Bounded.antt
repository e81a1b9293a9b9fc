-- ===== src/Api/Federation/Bounded.antt =====
-- federation.go: what the gate keeps, whatever reads and ends of calls follow one another.
use icinga_kubernetes.Common.{
  ℕ, suc, ◌+◌, ◌≤◌, ◌≡◌, refl, sym, ap, subst, arith, inl, inr, Bool-cases, Bool, true, false, ◌&&◌,
  not, any, none, some, List, [], ◌∷◌, length, String, str_eq, eq_iff, if◌then◌else◌, Option-cases,
}
use icinga_kubernetes.Common.Table.{select, find, count}
use icinga_kubernetes.Model.{Time}
use icinga_kubernetes.Api.Federation.{
  Flight, Gate, empty_gate, has_key, known_failed, is_probed, may_start, started, begin, without,
  finish,
}

-- The calls that probe a target.
abbrev pub probes : String → Flight → Bool
probes target f = str_eq f.target target && f.known_failed

-- At most so many calls, one for each key, and a target is marked exactly if one call probes it, and
-- then no other call does.
pub record IsValid (g : Gate) : Type 0 where
  pub bounded : length g.pending ≤ 32
  pub distinct : (key : String) → count (has_key key) g.pending ≤ 1
  pub probed :
      (target : String) → count (probes target) g.pending ≡ (if is_probed target g then 1 else 0)

-- Reads, and the ends of calls that are pending, in any order and at any readings of the clock.
pub data Reach : Gate → Type 0 where
  reach_empty : Reach empty_gate
  reach_begin :
      {g : Gate} (target key : String) (now : Time) → Reach g → Reach (begin target key now g)
  reach_finish :
      {g : Gate} (f : Flight) (failed : Bool) (now : Time)
      → find (has_key f.key) g.pending ≡ some f
      → Reach g
      → Reach (finish f failed now g)

find-none : {A : Type 0} (p : A → Bool) (rows : List A) → find p rows ≡ none → count p rows ≡ 0
find-none p [] e = refl
find-none p (x ∷ rows) e = ground (arith, find-none p rows, e)

one_probe :
    (target t : String) (failed : Bool) (n : ℕ) (ps : List String)
    → any (str_eq target) ps ≡ false
    → n ≡ (if any (str_eq t) ps then 1 else 0)
    → (if str_eq target t && failed then suc n else n)
      ≡ (if any (str_eq t) (if failed then target ∷ ps else ps) then 1 else 0)
one_probe target t false n ps u h = ground (arith, h)
one_probe target t true n ps u h = elim (Bool-cases (str_eq target t)) [
  | inl q ↦
      let same : target ≡ t = ground (arith, q, eq_iff target t) in
      let v : any (str_eq t) ps ≡ false = subst (λ x. any (str_eq x) ps ≡ false) same u in
      ground (arith, q, v, h, eq_iff target t, eq_iff t target)
  | inr q ↦ ground (arith, q, h, eq_iff target t, eq_iff t target)
]

one_call :
    (key k : String) (fs : List Flight)
    → count (has_key key) fs ≡ 0
    → count (has_key k) fs ≤ 1
    → (if str_eq key k then suc (count (has_key k) fs) else count (has_key k) fs) ≤ 1
one_call key k fs u h = elim (Bool-cases (str_eq key k)) [
  | inl q ↦
      let same : key ≡ k = ground (arith, q, eq_iff key k) in
      let v : count (has_key k) fs ≡ 0 = subst (λ x. count (has_key x) fs ≡ 0) same u in
      ground (arith, q, v)
  | inr q ↦ ground (arith, q, h)
]

started-IsValid :
    (target key : String) (now : Time) (g : Gate)
    → IsValid g
    → may_start target key now g ≡ true
    → IsValid (started target key g)
started-IsValid target key now g v e =
    let free : find (has_key key) g.pending ≡ none =
      elim (Option-cases (find (has_key key) g.pending)) [
        | inl n ↦ n
        | inr (f, q) ↦ ground (arith, e, q)
      ] in
    let unused : count (has_key key) g.pending ≡ 0 = find-none (has_key key) g.pending free in
    let unmarked : is_probed target g ≡ false = ground (arith, e) in
    record {
      bounded = let b = v.bounded in ground (arith, e);
      distinct = λ k. one_call key k g.pending unused (v.distinct k);
      probed = λ t.
          one_probe target t (known_failed target g) (count (probes t) g.pending) g.probe unmarked
            (v.probed t);
    }

begin-IsValid :
    (target key : String) (now : Time) (g : Gate) → IsValid g → IsValid (begin target key now g)
unfolding begin
begin-IsValid target key now g v = elim (Bool-cases (may_start target key now g)) [
  | inl e ↦ rw e (started-IsValid target key now g v e)
  | inr e ↦ rw e v
]

select-none :
    {A : Type 0} (p : A → Bool) (rows : List A)
    → count p rows ≤ 0
    → select (λ x. not (p x)) rows ≡ rows
select-none p [] h = refl
select-none p (x ∷ rows) h = elim (Bool-cases (p x)) [
  | inl q ↦ ground (arith, h, q)
  | inr q ↦ rw q (ap (λ l. x ∷ l) (select-none p rows (ground (arith, h, q))))
]

count-without :
    (p : Flight → Bool) (key : String) (f : Flight) (fs : List Flight)
    → find (has_key key) fs ≡ some f
    → count (has_key key) fs ≤ 1
    → count p fs ≡ (if p f then 1 else 0) + count p (select (λ x. not (has_key key x)) fs)
count-without p key f [] e h = ground (arith, e)
count-without p key f (x ∷ fs) e h = elim (Bool-cases (has_key key x)) [
  | inl q ↦
      let same : x ≡ f = ground (arith, e, q) in
      let rest : count (has_key key) fs ≤ 0 = ground (arith, h, q) in
      rw (q, sym same, select-none (has_key key) fs rest) (ground arith)
  | inr q ↦
      let ih = count-without p key f fs (ground (arith, e, q)) (ground (arith, h, q)) in
      rw q (ground (arith, ih))
]

length-select : (p : Flight → Bool) (fs : List Flight) → length (select p fs) ≤ length fs
length-select p [] = omega arith
length-select p (x ∷ fs) = ground (arith, length-select p fs)

is_probed-without :
    (target t : String) (ps : List String)
    → any (str_eq t) (without target ps) ≡ (any (str_eq t) ps && not (str_eq target t))
is_probed-without target t [] = refl
is_probed-without target t (x ∷ ps) =
    ground (arith, is_probed-without target t ps, eq_iff x target, eq_iff t x, eq_iff target t)

last_probe :
    (f : Flight) (t : String) (n m : ℕ) (ps : List String)
    → n ≡ (if any (str_eq t) ps then 1 else 0)
    → n ≡ (if probes t f then 1 else 0) + m
    → m ≡ (if any (str_eq t) (if f.known_failed then without f.target ps else ps) then 1 else 0)
last_probe f t n m ps h c = elim (Bool-cases f.known_failed) [
  | inl q ↦ let w = is_probed-without f.target t ps in rw (q, w) (ground (arith, h, c, q))
  | inr q ↦ rw q (ground (arith, h, c, q))
]

finish-IsValid :
    (f : Flight) (failed : Bool) (now : Time) (g : Gate)
    → find (has_key f.key) g.pending ≡ some f
    → IsValid g
    → IsValid (finish f failed now g)
unfolding finish
finish-IsValid f failed now g e v = record {
  bounded =
      let b = v.bounded in
      let l = length-select (λ p. not (has_key f.key p)) g.pending in omega (arith, b, l);
  distinct = λ k.
      let d = v.distinct k in
      let c = count-without (has_key k) f.key f g.pending e (v.distinct f.key) in
      omega (arith, c, d);
  probed = λ t.
      let p = v.probed t in
      let c = count-without (probes t) f.key f g.pending e (v.distinct f.key) in
      last_probe f t (count (probes t) g.pending)
        (count (probes t) (select (λ x. not (has_key f.key x)) g.pending)) g.probe p c;
}

-- From the first call on, however reads and ends of calls follow one another, at most 32 calls to
-- other servers are pending, one for each request, and a target is marked as probed exactly as long
-- as a call probes it, and then by one call alone.
pub Reach-IsValid : (g : Gate) → Reach g → IsValid g
Reach-IsValid _ reach_empty = record {
  bounded = omega arith;
  distinct = λ k. omega arith;
  probed = λ t. refl;
}
Reach-IsValid _ (reach_begin {g} target key now r) =
    begin-IsValid target key now g (Reach-IsValid g r)
Reach-IsValid _ (reach_finish {g} f failed now e r) =
    finish-IsValid f failed now g e (Reach-IsValid g r)
