-- ===== src/Api/Federation.antt =====
-- federation.go: reads of other API servers. The maps under the mutex are a gate: the calls that are
-- pending, the targets that failed with the end of their cooldown, and those that are probed. A read
-- and the end of a call are one critical section each.
pub mod Bounded
pub mod Awaited
pub mod Rests
use Prim.Native.String.{◌++◌ as str_append}
use icinga_kubernetes.Common.{
  ℕ, ◌+◌, ◌*◌, ltb, leb, ◌==◌, ◌&&◌, ◌||◌, not, any, is_none, is_some, Bool, true, false, Option,
  none, some, List, [], ◌∷◌, ◌++◌, length, String, str_eq, if◌then◌else◌,
}
use icinga_kubernetes.Common.Int.{ℤ, pos, negsuc}
use icinga_kubernetes.Common.Table.{select, find, upsert}
use icinga_kubernetes.Model.{Time}
use icinga_kubernetes.Store.Events.{second}
use icinga_kubernetes.Api.Freshness.{Ages, worse_freshness, valid_freshness, federation_freshness}

-- federationCacheTTL, federationRetryDelay, federationMaxPending
abbrev pub cache_ttl : Time
cache_ttl = 5 * second

abbrev pub retry_delay : Time
retry_delay = 5 * second

abbrev pub max_pending : ℕ
max_pending = 32

pub record Response : Type 0 where
  pub status : ℤ
  pub body : String
  pub freshness : String
  pub fetched : Time

-- federationCall, with what its goroutine holds.
pub record Flight : Type 0 where
  pub key : String
  pub target : String
  pub known_failed : Bool

-- A target with the end of its cooldown.
pub record Cooldown : Type 0 where
  pub target : String
  pub until : Time

pub record Gate : Type 0 where
  pub pending : List Flight
  pub retry : List Cooldown
  pub probe : List String

abbrev pub empty_gate : Gate
empty_gate = record { pending = []; retry = []; probe = [] }

abbrev pub has_key : String → Flight → Bool
has_key key f = str_eq f.key key

abbrev pub cools : String → Cooldown → Bool
cools target c = str_eq c.target target

-- federationRetry[target], where a missing key is the zero time.
abbrev pub until_of : Option Cooldown → Time
until_of none = 0
until_of (some c) = c.until

abbrev pub retry_at : String → Gate → Time
retry_at target g = until_of (find (cools target) g.retry)

abbrev pub known_failed : String → Gate → Bool
known_failed target g = not (retry_at target g == 0)

abbrev pub is_probed : String → Gate → Bool
is_probed target g = any (str_eq target) g.probe

abbrev pub may_start : String → String → Time → Gate → Bool
may_start target key now g =
    is_none (find (has_key key) g.pending)
    && not (is_probed target g)
    && ltb (retry_at target g) now
    && ltb (length g.pending) max_pending

abbrev pub started : String → String → Gate → Gate
started target key g =
    let failed = known_failed target g in
    record g {
      pending = record { key = key; target = target; known_failed = failed } ∷ g.pending;
      probe = if failed then target ∷ g.probe else g.probe;
    }

-- The first critical section.
unfoldable pub begin : String → String → Time → Gate → Gate
begin target key now g = if may_start target key now g then started target key g else g

abbrev pub without : String → List String → List String
without target = select (λ t. not (str_eq t target))

abbrev pub cool : String → Time → List Cooldown → List Cooldown
cool target until =
    upsert (cools target) (record { target = target; until = until })
      (λ c. record c { until = until })

-- The critical section at the end of a call; `failed` is call.err != nil.
unfoldable pub finish : Flight → Bool → Time → Gate → Gate
finish f failed now g = record {
  retry =
      if failed
      then cool f.target (now + retry_delay) g.retry
      else select (λ c. not (cools f.target c)) g.retry;
  probe = if f.known_failed then without f.target g.probe else g.probe;
  pending = select (λ p. not (has_key f.key p)) g.pending;
}

abbrev pub is_server_error : ℤ → Bool
is_server_error (pos n) = leb 500 n
is_server_error (negsuc n) = false

-- What fetchFederation makes of an answer, none for an error. json.Valid is a parameter; `logs` says
-- whether the path is one of container logs.
unfoldable pub accept_response :
    (String → Bool) → Bool → ℤ → String → String → Time → Option Response
unfolding valid_freshness
accept_response json_valid logs status body header now =
    let freshness = if str_eq header "" then "live" else header in
    if is_server_error status
    then none
    else if not (valid_freshness freshness) || (not logs && not (json_valid body))
    then none
    else some (record { status = status; body = body; freshness = freshness; fetched = now })

-- What a read comes to; a waiting one has the key of the call.
pub data Read : Type 0 where
  served : Response → Read
  cancelled recovery_pending cooling_or_busy : Read
  waiting : String → Read

abbrev pub is_ready_path : String → Bool
is_ready_path path = str_eq path "/api/v1/health/ready"

-- The answer in the cache, none where its read fails or it is not usable.
unfoldable pub usable : (String → Bool) → Option Response → Option Response
unfolding valid_freshness
usable json_valid none = none
usable json_valid (some r) =
    if valid_freshness r.freshness && json_valid r.body then some r else none

-- The cached answer, as fresh as its source said and its age says.
unfoldable pub aged : Ages → Time → Response → Response
unfolding worse_freshness federation_freshness
aged a now r = record r {
  freshness = worse_freshness r.freshness (federation_freshness a r.fetched now);
}

-- Where the cached answer is not served.
abbrev pub awaited : Bool → String → Gate → Read
awaited failed key g =
    if failed
    then recovery_pending
    else if is_none (find (has_key key) g.pending)
    then cooling_or_busy
    else waiting key

-- After the first critical section.
unfoldable pub after_begin : String → Option Response → Bool → String → Gate → Read
after_begin path none failed key g = awaited failed key g
after_begin path (some r) failed key g =
    if is_ready_path path then awaited failed key g else served r

abbrev pub nul_separated : String → String → String
nul_separated a b = str_append a (str_append "\0" b)

-- A federation target, and the request to it with the hash of both.
pub record Request : Type 0 where
  pub target_name : String
  pub target_url : String
  pub path : String
  pub hash : String

abbrev pub target_key : Request → String
target_key q = nul_separated q.target_name q.target_url

abbrev pub flight_key : Request → String
flight_key q = nul_separated (target_key q) q.hash

abbrev pub is_fresh : Time → Option Response → Bool
is_fresh now none = false
is_fresh now (some r) = ltb now (r.fetched + cache_ttl)

abbrev pub aged_cache : Ages → Time → Option Response → Option Response
aged_cache a now none = none
aged_cache a now (some r) = some (aged a now r)

-- The read where the cached answer is not fresh.
unfoldable pub read_through : Request → Time → Option Response → Gate → Read × Gate
unfolding begin after_begin
read_through q now cached g =
    let g' = begin (target_key q) (flight_key q) now g in
    (after_begin q.path cached (known_failed (target_key q) g) (flight_key q) g', g')

-- What a read is given: the cached answer, none where reading it fails, the configured ages, whether
-- the context has ended, and the readings of the clock: for the age, for the comparison with the
-- cache's lifetime, and for the cooldown.
pub record Attempt : Type 0 where
  pub cached : Option Response
  pub ages : Ages
  pub context_ended : Bool
  pub aged_at : Time
  pub compared_at : Time
  pub started_at : Time

abbrev pub or_read : Option Response → Read × Gate → Gate → Read × Gate
or_read none rest g = rest
or_read (some r) rest g = (served r, g)

abbrev pub keep_fresh : Bool → Option Response → Option Response
keep_fresh fresh cached = if fresh then cached else none

-- federationRead, to where it waits
unfoldable pub federation_read : (String → Bool) → Request → Attempt → Gate → Read × Gate
unfolding usable aged read_through
federation_read json_valid q a g =
    let cache = usable json_valid a.cached in
    let cached = aged_cache a.ages a.aged_at cache in
    let rest = if a.context_ended then (cancelled, g) else read_through q a.started_at cached g in
    or_read (keep_fresh (is_fresh a.compared_at cache) cached) rest g
