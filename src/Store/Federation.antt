-- ===== src/Store/Federation.antt =====
-- store.go: the cache of responses of federated endpoints, and the feed of changes. Without a
-- database both fail, which is `none` here.
use icinga_kubernetes.Common.{
  ℕ, ◌≡◌, refl, inl, inr, Bool-cases, Option-cases, max, ◌↔◌, arith, ltb, leb, ◌&&◌, ◌||◌, Bool,
  true, Option, none, some, List, [], ◌∷◌, sort, take, String, str_eq, eq_iff, if◌then◌else◌,
}
use icinga_kubernetes.Common.Int.{ℤ, pos, negsuc}
use icinga_kubernetes.Common.Table.{select, find, upsert, at, find-upsert}
use icinga_kubernetes.Json.{Value}
use icinga_kubernetes.Model.{Time}
use icinga_kubernetes.Store.Tables.{ChangeRow, CacheRow, Db}

abbrev pub CacheKey : Type 0
CacheKey = String × String

abbrev pub cache_key_eq : CacheKey → CacheKey → Bool
cache_key_eq (e, k) (e', k') = str_eq e e' && str_eq k k'

abbrev pub cache_key_of : CacheRow → CacheKey
cache_key_of r = (r.endpoint, r.cache_key)

abbrev new_cache : Time → String → String → ℤ → Value → String → CacheRow
new_cache now endpoint key status response freshness = record {
  endpoint = endpoint;
  cache_key = key;
  status_code = status;
  response = response;
  freshness = freshness;
  fetched_at = now;
}

-- ON CONFLICT(endpoint,cache_key) DO UPDATE SET …
abbrev set_cache : Time → ℤ → Value → String → CacheRow → CacheRow
set_cache now status response freshness r = record r {
  status_code = status;
  response = response;
  freshness = freshness;
  fetched_at = now;
}

-- PutFederationCache; `now` is clock_timestamp().
unfoldable pub put_federation_cache : Time → String → String → ℤ → Value → String → Db → Db
put_federation_cache now endpoint key status response freshness db = record db {
  federation =
      upsert (at cache_key_of cache_key_eq (endpoint, key))
        (new_cache now endpoint key status response freshness)
        (set_cache now status response freshness) db.federation;
}

-- GetFederationCache, none for sql.ErrNoRows.
unfoldable pub get_federation_cache : String → String → Db → Option (ℤ × Value × String × Time)
get_federation_cache endpoint key db =
    elim (find (at cache_key_of cache_key_eq (endpoint, key)) db.federation) [
      | none ↦ none
      | some r ↦ some (r.status_code, r.response, r.freshness, r.fetched_at)
    ]

pub cache_key_eq_iff : (j k : CacheKey) → (cache_key_eq j k ≡ true) ↔ (j ≡ k)
cache_key_eq_iff (e, k) (e', k') = ground (arith, eq_iff e e', eq_iff k k')

-- SELECT COALESCE(MAX(sequence),0)
abbrev largest : List ChangeRow → ℕ
largest [] = 0
largest (c ∷ cs) = max c.sequence (largest cs)

-- `if limit < 1 || limit > 1000 { limit = 250 }`
abbrev pub page_limit : ℤ → ℕ
page_limit (pos n) = if ltb n 1 || ltb 1000 n then 250 else n
page_limit (negsuc n) = 250

abbrev pub by_sequence : ChangeRow → ChangeRow → Bool
by_sequence a b = leb a.sequence b.sequence

-- What was put last for an endpoint and a key is what is got for them, with the time of the put; what
-- is got for any other stays as it was.
pub get-put_federation_cache :
    (now : Time) (endpoint key : String) (status : ℤ) (response : Value) (freshness : String)
    (db : Db) (endpoint' key' : String)
    → get_federation_cache endpoint' key'
        (put_federation_cache now endpoint key status response freshness db)
      ≡ (if cache_key_eq (endpoint, key) (endpoint', key')
          then some (status, response, freshness, now)
          else get_federation_cache endpoint' key' db)
unfolding get_federation_cache put_federation_cache
get-put_federation_cache now endpoint key status response freshness db endpoint' key' =
    let old = find (at cache_key_of cache_key_eq (endpoint, key)) db.federation in
    rw
      (
        get_federation_cache,
        find-upsert cache_key_of cache_key_eq cache_key_eq_iff (endpoint', key') (endpoint, key)
            (new_cache now endpoint key status response freshness)
            (set_cache now status response freshness) db.federation refl (λ b. refl),
      )
      (elim (Bool-cases (cache_key_eq (endpoint, key) (endpoint', key'))) [
        | inl e ↦ rw e (elim (Option-cases old) [ inl o ↦ rw o refl | inr (r, o) ↦ rw o refl ])
        | inr e ↦ rw e refl
      ])

-- LatestSequence
unfoldable pub latest_sequence : Db → ℕ
latest_sequence db = largest db.changes

-- Changes
unfoldable pub changes_after : ℕ → ℤ → Db → List ChangeRow
changes_after after limit db =
    take (page_limit limit) (sort by_sequence (select (λ c. ltb after c.sequence) db.changes))
