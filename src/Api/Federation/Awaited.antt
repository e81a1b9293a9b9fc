-- ===== src/Api/Federation/Awaited.antt =====
-- federation.go: which reads wait, and which are served.
use icinga_kubernetes.Common.{
  max, ◌≡◌, refl, ap, sym, ◌∙◌, arith, inl, inr, Bool-cases, Option-cases, Bool, true, false, ltb,
  ◌||◌, is_none, is_some, Option, none, some, String, if◌then◌else◌,
}
use icinga_kubernetes.Common.Table.{find}
use icinga_kubernetes.Model.{Time}
use icinga_kubernetes.Api.Freshness.{Ages, freshness_rank, worse_freshness, federation_freshness}
use icinga_kubernetes.Api.Federation.{
  Response, Gate, has_key, known_failed, Read, served, waiting, cancelled, is_ready_path, usable,
  aged, aged_cache, awaited, after_begin, Request, target_key, flight_key, is_fresh, read_through,
  Attempt, or_read, keep_fresh, federation_read, begin,
}

worse_freshness-rank :
    (a b : String)
    → freshness_rank (worse_freshness a b) ≡ max (freshness_rank a) (freshness_rank b)
unfolding worse_freshness
worse_freshness-rank a b = elim (Bool-cases (ltb (freshness_rank a) (freshness_rank b))) [
  | inl e ↦ rw e (ground (arith, e))
  | inr e ↦ rw e (ground (arith, e))
]

-- A read whose context has not ended and which has a usable answer in the cache is served that
-- answer, whatever the state of the target and of the other calls, unless it asks for readiness. It is then as
-- stale as the worse of what its source said and what its age says.
pub federation_read-served :
    (json_valid : String → Bool) (q : Request) (a : Attempt) (g : Gate) (r : Response)
    → usable json_valid a.cached ≡ some r
    → a.context_ended ≡ false
    → is_ready_path q.path ≡ false
    → ((federation_read json_valid q a g).0 ≡ served (aged a.ages a.aged_at r))
      × (freshness_rank (aged a.ages a.aged_at r).freshness
          ≡ max
              (freshness_rank r.freshness)
              (freshness_rank (federation_freshness a.ages r.fetched a.aged_at)))
unfolding federation_read read_through after_begin aged
federation_read-served json_valid q a g r u c p = (
  elim (Bool-cases (is_fresh a.compared_at (some r))) [
    | inl e ↦ rw (u, e) refl
    | inr e ↦ rw (u, e, c, p) refl
  ],
  worse_freshness-rank r.freshness (federation_freshness a.ages r.fetched a.aged_at),
)

-- What a waiting read has found.
pub record Awaits (json_valid : String → Bool) (q : Request) (a : Attempt) (g g' : Gate)
    : Type 0 where
  pub pending : is_some (find (has_key (flight_key q)) g'.pending) ≡ true
  pub not_failed : known_failed (target_key q) g ≡ false
  pub unserved : (is_none (usable json_valid a.cached) || is_ready_path q.path) ≡ true

awaited-waiting :
    (failed : Bool) (key : String) (g : Gate) (k : String)
    → awaited failed key g ≡ waiting k
    → (k ≡ key) × (failed ≡ false) × (is_some (find (has_key key) g.pending) ≡ true)
awaited-waiting true key g k e = ground (arith, e)
awaited-waiting false key g k e = elim (Option-cases (find (has_key key) g.pending)) [
  | inl n ↦ ground (arith, e, n)
  | inr (f, n) ↦ ground (arith, e, n)
]

-- The read, from what its cached answer and its context come to.
abbrev read_of : Request → Time → Gate → Bool → Bool → Option Response → Read × Gate
read_of q now g fresh ended cached =
    or_read (keep_fresh fresh cached)
      (if ended then (cancelled, g) else read_through q now cached g) g

abbrev WaitsFor : Request → Gate → Option Response → Gate → Type 0
WaitsFor q g cached g' =
    (is_some (find (has_key (flight_key q)) g'.pending) ≡ true)
    × (known_failed (target_key q) g ≡ false)
    × ((is_none cached || is_ready_path q.path) ≡ true)

read_through-waiting :
    (q : Request) (now : Time) (g : Gate) (cached : Option Response) (k : String)
    → (read_through q now cached g).0 ≡ waiting k
    → (k ≡ flight_key q) × WaitsFor q g cached (read_through q now cached g).1
unfolding read_through after_begin
read_through-waiting q now g none k e =
    let (a, b, c) =
      awaited-waiting (known_failed (target_key q) g) (flight_key q)
        (begin (target_key q) (flight_key q) now g) k e in
    (a, (c, b, refl))
read_through-waiting q now g (some r) k e = elim (Bool-cases (is_ready_path q.path)) [
  | inl p ↦
      let (a, b, c) =
        awaited-waiting (known_failed (target_key q) g) (flight_key q)
          (begin (target_key q) (flight_key q) now g) k (ground (arith, e, p)) in
      (a, (c, b, p))
  | inr p ↦ ground (arith, e, p)
]

read_of-waiting :
    (q : Request) (now : Time) (g : Gate) (fresh ended : Bool) (cached : Option Response)
    (k : String)
    → (read_of q now g fresh ended cached).0 ≡ waiting k
    → (k ≡ flight_key q) × WaitsFor q g cached (read_of q now g fresh ended cached).1
read_of-waiting q now g true ended (some r) k e = ground (arith, e)
read_of-waiting q now g true true none k e = ground (arith, e)
read_of-waiting q now g true false none k e = read_through-waiting q now g none k e
read_of-waiting q now g false true cached k e = ground (arith, e)
read_of-waiting q now g false false cached k e = read_through-waiting q now g cached k e

aged_cache-none :
    (a : Ages) (now : Time) (c : Option Response) → is_none (aged_cache a now c) ≡ is_none c
aged_cache-none a now none = refl
aged_cache-none a now (some r) = refl

-- A read waits only for a call that is then pending, the one of its own request; only if the target
-- was not known to have failed; and only if there is no usable answer in the cache, or it asks for
-- readiness.
pub federation_read-waits :
    (json_valid : String → Bool) (q : Request) (a : Attempt) (g : Gate) (k : String)
    → (federation_read json_valid q a g).0 ≡ waiting k
    → (k ≡ flight_key q) × Awaits json_valid q a g (federation_read json_valid q a g).1
unfolding federation_read
federation_read-waits json_valid q a g k e =
    let cache = usable json_valid a.cached in
    let (key, (pending, failed, unserved)) =
      read_of-waiting q a.started_at g (is_fresh a.compared_at cache) a.context_ended
        (aged_cache a.ages a.aged_at cache) k e in
    (
      key,
      record {
        pending = pending;
        not_failed = failed;
        unserved =
            ap (λ b. b || is_ready_path q.path) (sym (aged_cache-none a.ages a.aged_at cache))
            ∙ unserved;
      },
    )
