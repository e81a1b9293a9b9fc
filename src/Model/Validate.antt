-- ===== src/Model/Validate.antt =====
-- model.go: the validation of a batch before it is stored. An error is a constructor of the place
-- that refuses; where Go ranges over a map the key in the message is left out, since the order of
-- the range is not determined. `parse_uuid` is google/uuid's, `marshal_size` the length of the JSON
-- text of a summary, or none where json.Marshal fails.
use icinga_kubernetes.Common.{
  ℕ, suc, ◌*◌, ◌==◌, ◌||◌, ◌&&◌, not, ltb, String, str_eq, len, Bool, true, Option, none, some,
  is_none, List, [], ◌∷◌, length, any,
}
use icinga_kubernetes.Common.Text.{to_lower, contains}
use icinga_kubernetes.Common.Result.{Result, ok, err, refuse, ◌>>◌}
use icinga_kubernetes.Json.{Fields}
use icinga_kubernetes.Model.{
  State, state_text, Owner, Condition, Resource, IngestEvent, IngestBatch, Sha256, stable_id,
}

pub data ResourceError : Type 0 where
  cluster_mismatch bad_uid id_mismatch bad_field metadata_limits bad_label bad_annotation :
      ResourceError
  bad_owner bad_condition : ℕ → ResourceError
  long_reason bad_summary bad_state observed_at_required : ResourceError

pub data ValidationError : Type 0 where
  bad_cluster bad_shard bad_event_count : ValidationError
  bad_event_id bad_action : ℕ → ValidationError
  bad_resource : ℕ → ResourceError → ValidationError

pub record Host : Type 0 where
  pub sha256 : Sha256
  pub parse_uuid : String → Option ℕ
  pub marshal_size : Fields → Option ℕ

abbrev pub sensitive_names : List String
sensitive_names =
    "token" ∷ "secret" ∷ "password" ∷ "credential" ∷ "authorization" ∷ "private-key" ∷ []

unfoldable pub contains_sensitive_name : String → Bool
contains_sensitive_name value = any (λ needle. contains value needle) sensitive_names

-- s == "" || len(s) > n
abbrev pub empty_or_longer : ℕ → String → Bool
empty_or_longer n s = str_eq s "" || ltb n (len s)

unfoldable pub label_refused : String × String → Bool
label_refused (key, value) = ltb 253 (len key) || ltb 256 (len value)

unfoldable pub annotation_refused : String × String → Bool
unfolding contains_sensitive_name
annotation_refused (key, value) =
    ltb 253 (len key) || ltb 4096 (len value) || contains_sensitive_name (to_lower key)

unfoldable pub owner_refused : Owner → Bool
owner_refused o =
    str_eq o.uid ""
    || str_eq o.kind ""
    || str_eq o.name ""
    || ltb 512 (len o.uid)
    || ltb 512 (len o.api_version)
    || ltb 512 (len o.kind)
    || ltb 512 (len o.name)

unfoldable pub condition_refused : Condition → Bool
condition_refused c =
    str_eq c.type ""
    || str_eq c.status ""
    || ltb 512 (len c.type)
    || ltb 512 (len c.status)
    || ltb 1024 (len c.reason)
    || ltb 4096 (len c.message)

-- The five named fields that must hold 1..512 bytes.
unfoldable pub field_refused : Resource → Bool
field_refused r =
    any (empty_or_longer 512) (r.group ∷ r.version ∷ r.kind ∷ r.name ∷ r.resource_version ∷ [])

unfoldable pub metadata_refused : Resource → Bool
metadata_refused r =
    ltb 253 (len r.namespace)
    || ltb 256 (length r.labels)
    || ltb 256 (length r.annotations)
    || ltb 64 (length r.owners)
    || ltb 64 (length r.conditions)

unfoldable pub summary_refused : Host → Fields → Bool
summary_refused h summary = elim (h.marshal_size summary) [
  | none ↦ true
  | some n ↦ ltb (64 * 1024) n
]

abbrev pub state_refused : State → Bool
state_refused s =
    not (str_eq (state_text s) "ok")
    && not (str_eq (state_text s) "warning")
    && not (str_eq (state_text s) "critical")
    && not (str_eq (state_text s) "unknown")

-- `for index, item := range items`: the first item that the test refuses ends the loop.
unfoldable pub check_all {ℓ} :
    {A E : Type ℓ} → (A → Bool) → (ℕ → E) → ℕ → List A → Result E (Unit {ℓ})
check_all refused error index [] = ok tt
check_all refused error index (x ∷ xs) =
    refuse (refused x) (error index) >> check_all refused error (suc index) xs

-- Resource.validate
unfoldable pub validate_resource : Host → String → Resource → Result ResourceError (Unit {0})
validate_resource h cluster r = do
  refuse (not (str_eq r.cluster cluster)) cluster_mismatch
  refuse (empty_or_longer 512 r.uid) bad_uid
  refuse (not (str_eq r.id (stable_id h.sha256 cluster r.uid))) id_mismatch
  refuse (field_refused r) bad_field
  refuse (metadata_refused r) metadata_limits
  refuse (any label_refused r.labels) bad_label
  refuse (any annotation_refused r.annotations) bad_annotation
  check_all owner_refused bad_owner 0 r.owners
  check_all condition_refused bad_condition 0 r.conditions
  refuse (ltb 4096 (len r.reason)) long_reason
  refuse (summary_refused h r.summary) bad_summary
  refuse (state_refused r.state) bad_state
  refuse (r.observed_at == 0) observed_at_required

abbrev pub action_refused : String → Bool
action_refused a =
    not (str_eq a "upsert")
    && not (str_eq a "delete")
    && not (str_eq a "reconcile")
    && not (str_eq a "heartbeat")

abbrev pub at_event : {A : Type 0} → ℕ → Result ResourceError A → Result ValidationError A
at_event index (ok a) = ok a
at_event index (err e) = err (bad_resource index e)

-- The body of the loop over the events.
unfoldable pub validate_event : Host → String → ℕ → IngestEvent → Result ValidationError (Unit {0})
validate_event h cluster index event = do
  refuse (is_none (h.parse_uuid event.event_id)) (bad_event_id index)
  refuse (action_refused event.action) (bad_action index)
  at_event index (validate_resource h cluster event.resource)

unfoldable pub validate_events :
    Host → String → ℕ → List IngestEvent → Result ValidationError (Unit {0})
validate_events h cluster index [] = ok tt
validate_events h cluster index (event ∷ events) =
    validate_event h cluster index event >> validate_events h cluster (suc index) events

-- IngestBatch.Validate
unfoldable pub validate : Host → IngestBatch → Result ValidationError (Unit {0})
validate h b = do
  refuse (empty_or_longer 253 b.cluster) bad_cluster
  refuse (empty_or_longer 512 b.shard) bad_shard
  refuse (ltb (length b.events) 1 || ltb 1000 (length b.events)) bad_event_count
  validate_events h b.cluster 0 b.events
