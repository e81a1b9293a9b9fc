-- ===== src/Model/Limits.antt =====
-- model.go: the limits on a batch, written out beside the tests of Validate.
use icinga_kubernetes.Common.{
  ℕ, ◌≤◌, ◌≡◌, ◌≢◌, ◌⊎◌, ◌↔◌, inl, inr, refl, arith, String, eq_iff, len, false, true, is_some,
  some, Option-cases, List, [], ◌∷◌, length, All,
}
use icinga_kubernetes.Common.Text.{to_lower, contains}
use icinga_kubernetes.Common.Result.{ok}
use icinga_kubernetes.Model.{
  State, state_text, Owner, Condition, Resource, IngestEvent, IngestBatch, stable_id,
}
use icinga_kubernetes.Model.Validate.{
  Host, label_refused, annotation_refused, owner_refused, condition_refused, field_refused,
  metadata_refused, summary_refused, state_refused, action_refused, empty_or_longer,
  contains_sensitive_name, validate,
}
use icinga_kubernetes.Model.Accepted.{IsAccepted, IsAcceptedEvent, validate-IsAcceptedBatch}

-- A text that is there and has at most `n` bytes.
abbrev pub Sized : ℕ → String → Type 0
Sized n s = (s ≢ "") × (len s ≤ n)

abbrev pub LabelFits : String × String → Type 0
LabelFits (key, value) = (len key ≤ 253) × (len value ≤ 256)

-- No part of the key, whatever its case, is one of the words.
abbrev pub AnnotationFits : String × String → Type 0
AnnotationFits (key, value) =
    (len key ≤ 253)
    × (len value ≤ 4096)
    × All (λ word. contains (to_lower key) word ≡ false)
        ("token" ∷ "secret" ∷ "password" ∷ "credential" ∷ "authorization" ∷ "private-key" ∷ [])

abbrev pub OwnerFits : Owner → Type 0
OwnerFits o = Sized 512 o.uid × Sized 512 o.kind × Sized 512 o.name × (len o.api_version ≤ 512)

abbrev pub ConditionFits : Condition → Type 0
ConditionFits c =
    Sized 512 c.type × Sized 512 c.status × (len c.reason ≤ 1024) × (len c.message ≤ 4096)

pub record ResourceFits (h : Host) (cluster : String) (r : Resource) : Type 0 where
  pub cluster_eq : r.cluster ≡ cluster
  pub uid : Sized 512 r.uid
  pub id_eq : r.id ≡ stable_id h.sha256 cluster r.uid
  pub group : Sized 512 r.group
  pub version : Sized 512 r.version
  pub kind : Sized 512 r.kind
  pub name : Sized 512 r.name
  pub resource_version : Sized 512 r.resource_version
  pub namespace : len r.namespace ≤ 253
  pub label_count : length r.labels ≤ 256
  pub annotation_count : length r.annotations ≤ 256
  pub owner_count : length r.owners ≤ 64
  pub condition_count : length r.conditions ≤ 64
  pub labels : All LabelFits r.labels
  pub annotations : All AnnotationFits r.annotations
  pub owners : All OwnerFits r.owners
  pub conditions : All ConditionFits r.conditions
  pub reason : len r.reason ≤ 4096
  pub summary : (n : ℕ) × (h.marshal_size r.summary ≡ some n) × (n ≤ 65_536)
  pub state :
      (state_text r.state ≡ "ok")
      ⊎ (state_text r.state ≡ "warning")
      ⊎ (state_text r.state ≡ "critical")
      ⊎ (state_text r.state ≡ "unknown")
  pub observed : r.observed_at ≢ 0

pub record EventFits (h : Host) (cluster : String) (e : IngestEvent) : Type 0 where
  pub uuid : is_some (h.parse_uuid e.event_id) ≡ true
  pub action :
      (e.action ≡ "upsert")
      ⊎ (e.action ≡ "delete")
      ⊎ (e.action ≡ "reconcile")
      ⊎ (e.action ≡ "heartbeat")
  pub resource : ResourceFits h cluster e.resource

pub record BatchFits (h : Host) (b : IngestBatch) : Type 0 where
  pub cluster : Sized 253 b.cluster
  pub shard : Sized 512 b.shard
  pub nonempty : 1 ≤ length b.events
  pub bounded : length b.events ≤ 1000
  pub events : All (EventFits h b.cluster) b.events

All-iff {ℓ} :
    {A : Type ℓ} {P Q : A → Type 0} → ((a : A) → P a ↔ Q a) → (xs : List A) → All P xs ↔ All Q xs
All-iff f [] = (λ _. tt, λ _. tt)
All-iff f (x ∷ xs) =
    (λ (p, ps). ((f x).0 p, (All-iff f xs).0 ps), λ (q, qs). ((f x).1 q, (All-iff f xs).1 qs))

sized : (n : ℕ) (s : String) → (empty_or_longer n s ≡ false) ↔ Sized n s
sized n s = (
  λ e. (ground (arith, e, eq_iff s ""), ground (arith, e)),
  λ (a, b). ground (arith, a, b, eq_iff s ""),
)

label_iff : (l : String × String) → (label_refused l ≡ false) ↔ LabelFits l
unfolding label_refused
label_iff (k, v) = (λ e. (ground (arith, e), ground (arith, e)), λ (a, b). ground (arith, a, b))

annotation_iff : (a : String × String) → (annotation_refused a ≡ false) ↔ AnnotationFits a
unfolding annotation_refused contains_sensitive_name
annotation_iff (k, v) = ground arith

owner_iff : (o : Owner) → (owner_refused o ≡ false) ↔ OwnerFits o
unfolding owner_refused
owner_iff o = ground (arith, eq_iff o.uid "", eq_iff o.kind "", eq_iff o.name "")

condition_iff : (c : Condition) → (condition_refused c ≡ false) ↔ ConditionFits c
unfolding condition_refused
condition_iff c = ground (arith, eq_iff c.type "", eq_iff c.status "")

state_iff :
    (s : State)
    → (state_refused s ≡ false) ↔ (
        (state_text s ≡ "ok")
        ⊎ (state_text s ≡ "warning")
        ⊎ (state_text s ≡ "critical")
        ⊎ (state_text s ≡ "unknown"))
state_iff s =
    let t = state_text s in
    ground (arith, eq_iff t "ok", eq_iff t "warning", eq_iff t "critical", eq_iff t "unknown")

action_iff :
    (a : String)
    → (action_refused a ≡ false)
      ↔ ((a ≡ "upsert") ⊎ (a ≡ "delete") ⊎ (a ≡ "reconcile") ⊎ (a ≡ "heartbeat"))
action_iff a =
    ground (arith, eq_iff a "upsert", eq_iff a "delete", eq_iff a "reconcile", eq_iff a "heartbeat")

summary_iff :
    (h : Host) (r : Resource)
    → (summary_refused h r.summary ≡ false)
      ↔ ((n : ℕ) × (h.marshal_size r.summary ≡ some n) × (n ≤ 65_536))
unfolding summary_refused
summary_iff h r = elim (Option-cases (h.marshal_size r.summary)) [
  | inl e ↦ rw e (λ x. absurd (ground (arith, x)), λ (n, q, b). absurd (ground (arith, q)))
  | inr (n, e) ↦ rw e (λ x. (n, refl, ground (arith, x)), λ (m, q, b). ground (arith, q, b))
]

fields_iff :
    (r : Resource)
    → (field_refused r ≡ false) ↔ (
        Sized 512 r.group
        × Sized 512 r.version
        × Sized 512 r.kind
        × Sized 512 r.name
        × Sized 512 r.resource_version)
unfolding field_refused
fields_iff r = ground (
  arith,
  eq_iff r.group "",
  eq_iff r.version "",
  eq_iff r.kind "",
  eq_iff r.name "",
  eq_iff r.resource_version "",
)

metadata_iff :
    (r : Resource)
    → (metadata_refused r ≡ false) ↔ (
        (len r.namespace ≤ 253)
        × (length r.labels ≤ 256)
        × (length r.annotations ≤ 256)
        × (length r.owners ≤ 64)
        × (length r.conditions ≤ 64))
unfolding metadata_refused
metadata_iff r = ground arith

resource_iff :
    (h : Host) (cluster : String) (r : Resource) → IsAccepted h cluster r ↔ ResourceFits h cluster r
resource_iff h cluster r = (
  λ a.
      let (group, version, kind, name, resource_version) = (fields_iff r).0 a.fields in
      let (namespace, labels, annotations, owners, conditions) = (metadata_iff r).0 a.metadata in
      record {
        cluster_eq = a.cluster_eq;
        uid = (sized 512 r.uid).0 a.uid;
        id_eq = a.id_eq;
        group = group;
        version = version;
        kind = kind;
        name = name;
        resource_version = resource_version;
        namespace = namespace;
        label_count = labels;
        annotation_count = annotations;
        owner_count = owners;
        condition_count = conditions;
        labels = (All-iff label_iff r.labels).0 a.labels;
        annotations = (All-iff annotation_iff r.annotations).0 a.annotations;
        owners = (All-iff owner_iff r.owners).0 a.owners;
        conditions = (All-iff condition_iff r.conditions).0 a.conditions;
        reason = a.reason;
        summary = (summary_iff h r).0 a.summary;
        state = (state_iff r.state).0 a.state;
        observed = a.observed;
      },
  λ f. record {
    cluster_eq = f.cluster_eq;
    uid = (sized 512 r.uid).1 f.uid;
    id_eq = f.id_eq;
    fields = (fields_iff r).1 (f.group, f.version, f.kind, f.name, f.resource_version);
    metadata =
        (metadata_iff r).1
          (f.namespace, f.label_count, f.annotation_count, f.owner_count, f.condition_count);
    labels = (All-iff label_iff r.labels).1 f.labels;
    annotations = (All-iff annotation_iff r.annotations).1 f.annotations;
    owners = (All-iff owner_iff r.owners).1 f.owners;
    conditions = (All-iff condition_iff r.conditions).1 f.conditions;
    reason = f.reason;
    summary = (summary_iff h r).1 f.summary;
    state = (state_iff r.state).1 f.state;
    observed = f.observed;
  },
)

event_iff :
    (h : Host) (cluster : String) (e : IngestEvent)
    → IsAcceptedEvent h cluster e ↔ EventFits h cluster e
event_iff h cluster e = (
  λ (u, a, r). record {
    uuid = u;
    action = (action_iff e.action).0 a;
    resource = (resource_iff h cluster e.resource).0 r;
  },
  λ f. (f.uuid, (action_iff e.action).1 f.action, (resource_iff h cluster e.resource).1 f.resource),
)

-- IngestBatch.Validate returns nil exactly for the batches of 1 to 1000 events that fit the limits in
-- bytes and in number which BatchFits lists, whose events all carry a UUID and one of the four
-- actions, and whose resources have the batch's own cluster and the id that it and their UID give.
pub validate-BatchFits : (h : Host) (b : IngestBatch) → (validate h b ≡ ok tt) ↔ BatchFits h b
validate-BatchFits h b = (
  λ e.
      let a = (validate-IsAcceptedBatch h b).0 e in
      record {
        cluster = (sized 253 b.cluster).0 a.cluster;
        shard = (sized 512 b.shard).0 a.shard;
        nonempty = a.nonempty;
        bounded = a.bounded;
        events = (All-iff (event_iff h b.cluster) b.events).0 a.events;
      },
  λ f. (validate-IsAcceptedBatch h b).1 (record {
    cluster = (sized 253 b.cluster).1 f.cluster;
    shard = (sized 512 b.shard).1 f.shard;
    nonempty = f.nonempty;
    bounded = f.bounded;
    events = (All-iff (event_iff h b.cluster) b.events).1 f.events;
  }),
)
