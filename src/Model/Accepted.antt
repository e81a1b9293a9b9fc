-- ===== src/Model/Accepted.antt =====
-- model.go: what a batch that Validate accepts is known to be.
use icinga_kubernetes.Common.{
  ℕ, suc, ◌≤◌, ◌≡◌, ◌≢◌, refl, ◌↔◌, arith, String, eq_iff, len, Bool, true, false, is_some, any,
  List, [], ◌∷◌, length, All,
}
use icinga_kubernetes.Common.Result.{ok}
use icinga_kubernetes.Model.{Resource, IngestEvent, IngestBatch, stable_id}
use icinga_kubernetes.Model.Validate.{
  Host, ResourceError, label_refused, annotation_refused, owner_refused, condition_refused,
  field_refused, metadata_refused, summary_refused, state_refused, action_refused, empty_or_longer,
  check_all, validate_resource, validate_event, validate_events, validate,
}

-- What the code promises of a resource in a batch of `cluster`.
pub record IsAccepted (h : Host) (cluster : String) (r : Resource) : Type 0 where
  pub cluster_eq : r.cluster ≡ cluster
  pub uid : empty_or_longer 512 r.uid ≡ false
  pub id_eq : r.id ≡ stable_id h.sha256 cluster r.uid
  pub fields : field_refused r ≡ false
  pub metadata : metadata_refused r ≡ false
  pub labels : All (λ l. label_refused l ≡ false) r.labels
  pub annotations : All (λ a. annotation_refused a ≡ false) r.annotations
  pub owners : All (λ o. owner_refused o ≡ false) r.owners
  pub conditions : All (λ c. condition_refused c ≡ false) r.conditions
  pub reason : len r.reason ≤ 4096
  pub summary : summary_refused h r.summary ≡ false
  pub state : state_refused r.state ≡ false
  pub observed : r.observed_at ≢ 0

abbrev pub IsAcceptedEvent : Host → String → IngestEvent → Type 0
IsAcceptedEvent h cluster e =
    (is_some (h.parse_uuid e.event_id) ≡ true)
    × (action_refused e.action ≡ false)
    × IsAccepted h cluster e.resource

pub record IsAcceptedBatch (h : Host) (b : IngestBatch) : Type 0 where
  pub cluster : empty_or_longer 253 b.cluster ≡ false
  pub shard : empty_or_longer 512 b.shard ≡ false
  pub nonempty : 1 ≤ length b.events
  pub bounded : length b.events ≤ 1000
  pub events : All (IsAcceptedEvent h b.cluster) b.events

any-All {ℓ} :
    {A : Type ℓ} (p : A → Bool) (xs : List A) → (any p xs ≡ false) ↔ All (λ x. p x ≡ false) xs
any-All p [] = (λ _. tt, λ _. refl)
any-All p (x ∷ xs) = ground (arith, any-All p xs)

check_all-All {ℓ} :
    {A E : Type ℓ} (p : A → Bool) (error : ℕ → E) (i : ℕ) (xs : List A)
    → (check_all p error i xs ≡ ok tt) ↔ All (λ x. p x ≡ false) xs
unfolding check_all
check_all-All p error i [] = (λ _. tt, λ _. refl)
check_all-All p error i (x ∷ xs) = ground (arith, check_all-All p error (suc i) xs)

-- Resource.validate returns nil exactly for the accepted resources.
pub validate_resource-IsAccepted :
    (h : Host) (cluster : String) (r : Resource)
    → (validate_resource h cluster r ≡ ok tt) ↔ IsAccepted h cluster r
unfolding validate_resource
validate_resource-IsAccepted h cluster r = (
  λ e. record {
    cluster_eq = ground (arith, eq_iff r.cluster cluster);
    uid = ground arith;
    id_eq = ground (arith, eq_iff r.id (stable_id h.sha256 cluster r.uid));
    fields = ground arith;
    metadata = ground arith;
    labels = (any-All label_refused r.labels).0 (ground arith);
    annotations = (any-All annotation_refused r.annotations).0 (ground arith);
    owners = (check_all-All owner_refused ResourceError.bad_owner 0 r.owners).0 (ground arith);
    conditions =
        (check_all-All condition_refused ResourceError.bad_condition 0 r.conditions).0
          (ground arith);
    reason = ground arith;
    summary = ground arith;
    state = ground arith;
    observed = ground arith;
  },
  λ a. ground (
    arith,
    eq_iff r.cluster cluster,
    eq_iff r.id (stable_id h.sha256 cluster r.uid),
    any-All label_refused r.labels,
    any-All annotation_refused r.annotations,
    check_all-All owner_refused ResourceError.bad_owner 0 r.owners,
    check_all-All condition_refused ResourceError.bad_condition 0 r.conditions,
  ),
)

pub validate_event-IsAcceptedEvent :
    (h : Host) (cluster : String) (i : ℕ) (e : IngestEvent)
    → (validate_event h cluster i e ≡ ok tt) ↔ IsAcceptedEvent h cluster e
unfolding validate_event
validate_event-IsAcceptedEvent h cluster i e = (
  λ p. (
    ground arith,
    ground arith,
    (validate_resource-IsAccepted h cluster e.resource).0 (ground arith),
  ),
  λ (id, action, r).
      let p = (validate_resource-IsAccepted h cluster e.resource).1 r in ground arith,
)

validate_events-All :
    (h : Host) (cluster : String) (i : ℕ) (events : List IngestEvent)
    → (validate_events h cluster i events ≡ ok tt) ↔ All (IsAcceptedEvent h cluster) events
unfolding validate_events
validate_events-All h cluster i [] = (λ _. tt, λ _. refl)
validate_events-All h cluster i (e ∷ es) = (
  λ p. (
    (validate_event-IsAcceptedEvent h cluster i e).0 (ground arith),
    (validate_events-All h cluster (suc i) es).0 (ground arith),
  ),
  λ a.
      let p = (validate_event-IsAcceptedEvent h cluster i e).1 a.0 in
      let q = (validate_events-All h cluster (suc i) es).1 a.1 in ground arith,
)

-- IngestBatch.Validate returns nil exactly for the batches that satisfy the limits, whose events
-- all carry a UUID, one of the four actions and an accepted resource of the batch's own cluster.
pub validate-IsAcceptedBatch :
    (h : Host) (b : IngestBatch) → (validate h b ≡ ok tt) ↔ IsAcceptedBatch h b
unfolding validate
validate-IsAcceptedBatch h b = (
  λ e. record {
    cluster = ground arith;
    shard = ground arith;
    nonempty = ground arith;
    bounded = ground arith;
    events = (validate_events-All h b.cluster 0 b.events).0 (ground arith);
  },
  λ a. ground (arith, validate_events-All h b.cluster 0 b.events),
)
