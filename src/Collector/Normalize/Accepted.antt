-- ===== src/Collector/Normalize/Accepted.antt =====
-- collector.go, model.go: a collector's resource before the checks of the API.
use icinga_kubernetes.Common.{
  ℕ, ◌≤◌, ◌≡◌, ◌≢◌, refl, arith, inl, inr, Bool-cases, true, false, ltb, ◌==◌, Option, List, [],
  length, sort, All, String, str_eq, len, if◌then◌else◌,
}
use icinga_kubernetes.Json.{Fields, end}
use icinga_kubernetes.Common.Result.{ok}
use icinga_kubernetes.Model.{State, Time, Condition, normalize, state_text}
use icinga_kubernetes.Model.Validate.{
  Host, empty_or_longer, label_refused, annotation_refused, state_refused, condition_refused,
  field_refused, metadata_refused, summary_refused, validate_resource,
}
use icinga_kubernetes.Model.Accepted.{IsAccepted, validate_resource-IsAccepted}
use icinga_kubernetes.Collector.Permissions.{Gvr}
use icinga_kubernetes.Adapter.Object.{Object}
use icinga_kubernetes.Adapter.Registry.{Definition}
use icinga_kubernetes.Adapter.Describe.{describe}
use icinga_kubernetes.Adapter.Describe.States.{Known, describe-Known}
use icinga_kubernetes.Collector.Normalize.{
  Calls, is_within, by_key, items_of, keep_fields, bounded_summary, add_owners, raw_conditions,
  conditions_of, core_group, label_limits, annotation_limits, bounded_string_map, safe_annotations,
  project_object, normalize_with_registry,
}
use icinga_kubernetes.Collector.Normalize.Bounded.{Passes, bounded_string_map_lem}
use icinga_kubernetes.Collector.Normalize.Parts.{
  truncate-len, add_owners-Unrefused, add_conditions-Unrefused, keep_fields-within, All-map,
  label-Unrefused, annotation-Unrefused, Unrefused, within-Unrefused,
}

-- What the collector relies on of an object of the Kubernetes API.
pub record IsNamed (gvr : Gvr) (o : Object) : Type 0 where
  pub uid : empty_or_longer 512 o.uid ≡ false
  pub group : ltb 512 (len gvr.group) ≡ false
  pub version : empty_or_longer 512 gvr.version ≡ false
  pub kind : empty_or_longer 512 o.kind ≡ false
  pub name : empty_or_longer 512 o.name ≡ false
  pub resource_version : empty_or_longer 512 o.resource_version ≡ false
  pub namespace : ltb 253 (len o.namespace) ≡ false
  pub owners : All (λ r. (r.uid ≢ "") × (r.kind ≢ "") × (r.name ≢ "")) o.owner_references

-- The API's own calls, which agree with the collector's on digests and JSON.
abbrev pub host_of : Calls → (String → Option ℕ) → Host
host_of c parse_uuid = record {
  sha256 = c.sha256;
  parse_uuid = parse_uuid;
  marshal_size = c.marshal_size;
}

-- Normalize keeps a state that is one of the four.
normalized_state :
    (s : State)
    → Known s
    → state_refused (if str_eq (state_text s) "" then State.unknown else s) ≡ false
normalized_state s (inl e) = rw e refl
normalized_state s (inr (inl e)) = rw e refl
normalized_state s (inr (inr (inl e))) = rw e refl
normalized_state s (inr (inr (inr e))) = rw e refl

normalized_time : (now : Time) → now ≢ 0 → (if now == 0 then now else now) ≢ 0
normalized_time now h e = h (ground (arith, e))

short_list : (n limit : ℕ) → n ≤ limit → ltb limit n ≡ false
short_list n limit b = ground (arith, b)

core_group-short :
    (g : String) → ltb 512 (len g) ≡ false → empty_or_longer 512 (core_group g) ≡ false
core_group-short g e = elim (Bool-cases (str_eq g "")) [ inl q ↦ rw q refl | inr q ↦ rw q (rw q e) ]

module _ (c : Calls) (parse_uuid : String → Option ℕ) (now : Time) (cluster : String) (gvr : Gvr)
    (o : Object) where
  project_object-IsAccepted :
      (conditions : List Condition) (state : State) (reason : String) (summary : Fields)
      → IsNamed gvr o
      → now ≢ 0
      → is_within (c.marshal_size end) 65_536 ≡ true
      → Known state
      → length conditions ≤ 64
      → All (Unrefused condition_refused) conditions
      → IsAccepted (host_of c parse_uuid) cluster (
          normalize c.sha256 now
            (project_object c now cluster gvr o conditions ((state, reason), summary)))
  unfolding normalize project_object bounded_summary safe_annotations field_refused metadata_refused
      summary_refused
  project_object-IsAccepted conditions state reason summary named started empty known n a =
      let (labels, _) = bounded_string_map_lem label_limits o.labels in
      let (annotations, _) = bounded_string_map_lem annotation_limits o.annotations in
      let (owners, sound) =
        add_owners-Unrefused o.owner_references [] (omega arith) tt named.owners in
      record {
        cluster_eq = refl;
        uid = named.uid;
        id_eq = refl;
        fields =
            rw
              (
                core_group-short gvr.group named.group,
                named.version,
                named.kind,
                named.name,
                named.resource_version,
              )
              refl;
        metadata =
            rw
              (
                named.namespace,
                short_list (length (bounded_string_map o.labels label_limits)) 256 labels.items,
                short_list (length (bounded_string_map o.annotations annotation_limits)) 256
                    annotations.items,
                short_list (length (add_owners o.owner_references [])) 64 owners,
                short_list (length conditions) 64 n,
              )
              refl;
        labels =
            All-map (Passes label_limits) (Unrefused label_refused) label-Unrefused _
              labels.entries;
        annotations =
            All-map (Passes annotation_limits) (Unrefused annotation_refused) annotation-Unrefused _
              annotations.entries;
        owners = sound;
        conditions = a;
        reason = truncate-len reason 4096;
        summary =
            within-Unrefused
              (c.marshal_size (keep_fields c 65_536 (sort by_key (items_of summary)) end))
              (keep_fields-within c 65_536 (sort by_key (items_of summary)) end empty);
        state = normalized_state state known;
        observed = normalized_time now started;
      }

  -- The resource that the collector makes of an object is one that the API's validation accepts,
  -- whatever conditions, labels, annotations, owners, summary and reason the object leads to: if its
  -- identity fits the limits, its owner references have a UID, a kind and a name, the clock has
  -- moved and the JSON text of an empty map is within 64 KiB.
  pub normalize_with_registry-accepted :
      (registry : List Definition)
      → IsNamed gvr o
      → now ≢ 0
      → is_within (c.marshal_size end) 65_536 ≡ true
      → validate_resource
          (host_of c parse_uuid)
          cluster
          (normalize_with_registry c now cluster gvr o registry)
        ≡ ok tt
  unfolding normalize_with_registry conditions_of
  normalize_with_registry-accepted registry named started empty =
      let conditions = conditions_of c gvr o in
      let d = describe registry gvr.group c.nested o conditions in
      let (n, a) = add_conditions-Unrefused c (raw_conditions c.nested gvr o) [] (omega arith) tt in
      (validate_resource-IsAccepted (host_of c parse_uuid) cluster
          (normalize_with_registry c now cluster gvr o registry)).1
        (project_object-IsAccepted conditions d.0.0 d.0.1 d.1 named started empty
          (describe-Known registry gvr.group c.nested o conditions) n a)
