-- ===== src/Model.antt =====
-- internal/v2/model/model.go: the resources, events and batches that the roles exchange.
-- A time is the number of nanoseconds since Go's zero time, so `IsZero` is `t == 0`. A map is a
-- list of pairs; a nil map reads as the empty one. SHA-256 is a parameter.
pub mod Validate
pub mod Accepted
pub mod Limits
use Prim.Native.String.{◌++◌ as str_append}
use icinga_kubernetes.Common.{
  ℕ, ◌+◌, ◌/◌, ◌%◌, ◌==◌, ◌||◌, String, str_eq, Bool, Option, List, [], ◌∷◌, if◌then◌else◌,
}
use icinga_kubernetes.Common.Text.{hex_digit}
use icinga_kubernetes.Json.{Fields}

abbrev pub Time : Type 0
Time = ℕ

-- type State string, with its four constants; `other` is any other text.
pub data State : Type 0 where
  ok warning critical unknown : State
  other : String → State

abbrev pub state_text : State → String
state_text ok = "ok"
state_text warning = "warning"
state_text critical = "critical"
state_text unknown = "unknown"
state_text (other s) = s

abbrev pub is_ok : State → Bool
is_ok s = str_eq (state_text s) "ok"

abbrev pub StringMap : Type 0
StringMap = List (String × String)

pub record Owner : Type 0 where
  pub uid : String
  pub api_version : String
  pub kind : String
  pub name : String
  pub controller : Bool

pub record Condition : Type 0 where
  pub type : String
  pub status : String
  pub reason : String
  pub message : String
  pub last_transition_time : Option Time

pub record Resource : Type 0 where
  pub id : String
  pub cluster : String
  pub uid : String
  pub group : String
  pub version : String
  pub kind : String
  pub namespace : String
  pub name : String
  pub resource_version : String
  pub labels : StringMap
  pub annotations : StringMap
  pub owners : List Owner
  pub conditions : List Condition
  pub summary : Fields
  pub state : State
  pub reason : String
  pub observed_at : Time
  pub deleted_at : Option Time
  pub freshness : String

pub record IngestEvent : Type 0 where
  pub event_id : String
  pub action : String
  pub resource : Resource

pub record IngestBatch : Type 0 where
  pub cluster : String
  pub shard : String
  pub events : List IngestEvent

-- The bytes of the digest, `[32]byte`.
abbrev pub Sha256 : Type 0
Sha256 = String → List ℕ

-- `b[6] = (b[6] & 0x0f) | 0x50` and `b[8] = (b[8] & 0x3f) | 0x80`, with the bytes counted from `i`.
unfoldable pub stamp : ℕ → List ℕ → List ℕ
stamp i [] = []
stamp i (b ∷ bs) =
    (if i == 6 then b % 16 + 80 else if i == 8 then b % 64 + 128 else b) ∷ stamp (i + 1) bs

-- The first sixteen bytes in hexadecimal, in groups of 4, 2, 2, 2 and 6.
format_uuid : ℕ → List ℕ → String
unfolding hex_digit
format_uuid i [] = ""
format_uuid i (b ∷ bs) =
    let rest =
      String.◌∷◌ (hex_digit (b / 16)) (String.◌∷◌ (hex_digit (b % 16)) (format_uuid (i + 1) bs)) in
    if i == 16
    then ""
    else if (i == 4) || (i == 6) || (i == 8) || (i == 10)
    then str_append "-" rest
    else rest

unfoldable pub stable_id : Sha256 → String → String → String
unfolding stamp format_uuid
stable_id sha256 cluster uid =
    format_uuid 0 (stamp 0 (sha256 (str_append cluster (str_append "\0" uid))))

-- What the ids are made with: SHA-256, uuid.NewSHA1 in the namespace of object identifiers as a
-- text, and time.Format in RFC3339Nano.
pub record Ids : Type 0 where
  pub sha256 : Sha256
  pub new_sha1 : String → String
  pub format_time : Time → String

-- (*Resource).Normalize; `now` is what time.Now returns.
unfoldable pub normalize : Sha256 → Time → Resource → Resource
normalize sha256 now r = record r {
  id = if str_eq r.id "" then stable_id sha256 r.cluster r.uid else r.id;
  state = if str_eq (state_text r.state) "" then unknown else r.state;
  observed_at = if r.observed_at == 0 then now else r.observed_at;
}
