-- ===== src/Api/Freshness.antt =====
-- server.go: how fresh an answer is. An age is compared by the times it lies between, durations being
-- positive.
use icinga_kubernetes.Common.{
  ℕ, ◌+◌, ltb, leb, ◌||◌, Bool, Option, none, some, String, str_eq, if◌then◌else◌,
}
use icinga_kubernetes.Model.{Time}

-- rank[s], where a missing key reads as 0.
abbrev pub freshness_rank : String → ℕ
freshness_rank s = if str_eq s "stale" then 1 else if str_eq s "unavailable" then 2 else 0

unfoldable pub worse_freshness : String → String → String
worse_freshness left right =
    if ltb (freshness_rank left) (freshness_rank right) then right else left

unfoldable pub valid_freshness : String → Bool
valid_freshness value = str_eq value "live" || str_eq value "stale" || str_eq value "unavailable"

-- The configured durations.
pub record Ages : Type 0 where
  pub stale_after : Time
  pub unavailable_after : Time

-- federationFreshness, of an answer that was fetched at a time.
unfoldable pub federation_freshness : Ages → Time → Time → String
federation_freshness a fetched now =
    if leb (fetched + a.unavailable_after) now
    then "unavailable"
    else if leb (fetched + a.stale_after) now
    then "stale"
    else "live"

-- localFreshness: `status` is what the store's Status gives, none if it fails: the times of the
-- oldest pending event and of the last applied one; a zero time is none.
abbrev pub reference_time : Option Time → Option Time → Option Time
reference_time none last = last
reference_time (some oldest) last = some oldest

unfoldable pub local_freshness : Ages → Time → Time → Option (Option Time × Option Time) → String
unfolding federation_freshness
local_freshness a started now none = "unavailable"
local_freshness a started now (some (oldest, last)) = elim (reference_time oldest last) [
  | none ↦ if leb (started + a.stale_after) now then "unavailable" else "live"
  | some reference ↦ federation_freshness a reference now
]
