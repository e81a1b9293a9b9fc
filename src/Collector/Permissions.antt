-- ===== src/Collector/Permissions.antt =====
-- collector.go: the allowlists and the review of the collector's permissions.
pub mod Sound
use icinga_kubernetes.Common.{
  ◌≡◌, ◌↔◌, arith, eq_iff, ◌&&◌, ◌||◌, not, is_empty, any, Bool, true, false, Option, none, some,
  List, [], ◌∷◌, ◌++◌, sort, String, str_eq, if◌then◌else◌,
}

-- schema.GroupVersionResource
pub record Gvr : Type 0 where
  pub group : String
  pub version : String
  pub resource : String

abbrev pub gvr_eq : Gvr → Gvr → Bool
gvr_eq a b = str_eq a.group b.group && str_eq a.version b.version && str_eq a.resource b.resource

pub gvr_eq_iff : (a b : Gvr) → (gvr_eq a b ≡ true) ↔ (a ≡ b)
gvr_eq_iff a b =
    ground (arith, eq_iff a.group b.group, eq_iff a.version b.version, eq_iff a.resource b.resource)

unfoldable pub has : List String → String → Bool
has values want = any (λ v. str_eq v want) values

-- The catalogs, each group with its resources.
abbrev pub Catalog : Type 0
Catalog = List (String × List String)

abbrev pub namespaced_allowlist : Catalog
namespaced_allowlist =
    (
      "",
      "endpoints" ∷ "events" ∷ "persistentvolumeclaims" ∷ "pods" ∷ "replicationcontrollers"
          ∷ "services" ∷ [],
    )
    ∷ ("apps", "daemonsets" ∷ "deployments" ∷ "replicasets" ∷ "statefulsets" ∷ [])
    ∷ ("batch", "cronjobs" ∷ "jobs" ∷ [])
    ∷ ("autoscaling", "horizontalpodautoscalers" ∷ [])
    ∷ ("policy", "poddisruptionbudgets" ∷ [])
    ∷ ("networking.k8s.io", "ingresses" ∷ "networkpolicies" ∷ [])
    ∷ ("discovery.k8s.io", "endpointslices" ∷ [])
    ∷ ("route.openshift.io", "routes" ∷ [])
    ∷ []

abbrev pub cluster_allowlist : Catalog
cluster_allowlist =
    ("", "namespaces" ∷ "nodes" ∷ [])
    ∷ ("config.openshift.io", "clusterversions" ∷ "clusteroperators" ∷ [])
    ∷ []

unfoldable pub allowlisted : Catalog → Gvr → Bool
unfolding has
allowlisted [] gvr = false
allowlisted ((group, resources) ∷ catalog) gvr =
    if str_eq group gvr.group then has resources gvr.resource else allowlisted catalog gvr

-- authorizationv1.ResourceRule
pub record ResourceRule : Type 0 where
  pub verbs : List String
  pub api_groups : List String
  pub resources : List String
  pub resource_names : List String

unfoldable pub all_verbs : ResourceRule → List String → Bool
unfolding has
all_verbs rule [] = true
all_verbs rule (v ∷ vs) = (has rule.verbs v || has rule.verbs "*") && all_verbs rule vs

unfoldable pub rule_allows : List ResourceRule → Gvr → List String → Bool
unfolding has all_verbs
rule_allows [] gvr verbs = false
rule_allows (rule ∷ rules) gvr verbs =
    let rest = rule_allows rules gvr verbs in
    if not (is_empty rule.resource_names)
    then rest
    else if not (has rule.api_groups gvr.group) && not (has rule.api_groups "*")
    then rest
    else if not (has rule.resources gvr.resource) && not (has rule.resources "*")
    then rest
    else if all_verbs rule verbs
    then true
    else rest

-- What the API answers to the list of the namespaces, to a SelfSubjectRulesReview and, true or
-- false, to a SelfSubjectAccessReview; `forbidden` is a status of 401 or 403.
pub data NamespaceList : Type 0 where
  listed : List String → NamespaceList
  list_forbidden list_failed : NamespaceList

pub data RulesReview : Type 0 where
  reviewed : List ResourceRule → Bool → RulesReview
  review_forbidden review_failed : RulesReview

pub record Authorization : Type 0 where
  pub namespaces : NamespaceList
  pub rules : String → RulesReview
  pub access : String → Gvr → String → Option Bool
  pub cluster_access : Gvr → String → Option Bool

pub data ReviewError : Type 0 where
  namespaces_failed : ReviewError
  rules_failed : String → ReviewError
  access_failed : String → Gvr → String → ReviewError
  cluster_access_failed : Gvr → String → ReviewError

-- What a review yields: its value, whether it is complete, and its first error.
pub record Reviewed {ℓ} (A : Type ℓ) : Type ℓ where
  pub value : A
  pub complete : Bool
  pub error : Option ReviewError

abbrev pub first_error : Option ReviewError → Option ReviewError → Option ReviewError
first_error none e = e
first_error (some e) e' = some e

-- The loop over the verbs: it stops at the first that is denied or whose review fails.
pub data Probe : Type 0 where
  permitted denied : Probe
  probe_failed : String → Probe

unfoldable pub probe : (String → Option Bool) → List String → Probe
probe ask [] = permitted
probe ask (v ∷ vs) =
    let rest = probe ask vs in
    elim (ask v) [ none ↦ probe_failed v | some allowed ↦ if allowed then rest else denied ]

abbrev pub list_watch : List String
list_watch = "list" ∷ "watch" ∷ []

-- The rule that stands for a resource whose access reviews are positive.
abbrev pub probed_rule : Gvr → ResourceRule
probed_rule gvr = record {
  verbs = list_watch;
  api_groups = gvr.group ∷ [];
  resources = gvr.resource ∷ [];
  resource_names = [];
}

-- The bounded access reviews of one namespace, over the preferred resources with their scope.
unfoldable pub probe_namespace :
    Authorization → String → List (Gvr × Bool) → Reviewed (List ResourceRule)
unfolding probe
probe_namespace a ns [] = record { value = []; complete = true; error = none }
probe_namespace a ns ((gvr, namespaced) ∷ preferred) =
    let rest = probe_namespace a ns preferred in
    if namespaced
    then (elim (probe (a.access ns gvr) list_watch) [
      | permitted ↦ record rest { value = probed_rule gvr ∷ rest.value }
      | denied ↦ rest
      | probe_failed verb ↦ record rest {
        complete = false;
        error = some (ReviewError.access_failed ns gvr verb);
      }
    ])
    else rest

unfoldable pub review_namespace :
    Authorization → List (Gvr × Bool) → String → Reviewed (List ResourceRule)
unfolding probe_namespace
review_namespace a preferred ns = elim (a.rules ns) [
  | reviewed rules incomplete ↦ record { value = rules; complete = not incomplete; error = none }
  | review_forbidden ↦ probe_namespace a ns preferred
  | review_failed ↦ record {
    value = [];
    complete = false;
    error = some (ReviewError.rules_failed ns);
  }
]

unfoldable pub review_namespaces :
    Authorization → List (Gvr × Bool) → List String → Reviewed (List (String × List ResourceRule))
unfolding review_namespace
review_namespaces a preferred [] = record { value = []; complete = true; error = none }
review_namespaces a preferred (ns ∷ nss) =
    let r = review_namespace a preferred ns in
    let rest = review_namespaces a preferred nss in
    record {
      value = (ns, r.value) ∷ rest.value;
      complete = r.complete && rest.complete;
      error = first_error r.error rest.error;
    }

-- effectiveRules. A namespace without rules has an entry here without any. The namespaces are in
-- the order of the API's list, which the source sorts; it decides which error is the first.
unfoldable pub effective_rules :
    Authorization → String → List (Gvr × Bool) → Reviewed (List (String × List ResourceRule))
unfolding review_namespaces
effective_rules a lease_namespace preferred = elim (a.namespaces) [
  | listed namespaces ↦ review_namespaces a preferred namespaces
  | list_forbidden ↦ review_namespaces a preferred (lease_namespace ∷ [])
  | list_failed ↦
      let r = review_namespaces a preferred (lease_namespace ∷ []) in
      record r { complete = false; error = some ReviewError.namespaces_failed }
]

-- effectiveClusterPermissions, as the list of the resources that are permitted.
unfoldable pub effective_cluster_permissions :
    Authorization → List (Gvr × Bool) → Reviewed (List Gvr)
unfolding probe
effective_cluster_permissions a [] = record { value = []; complete = true; error = none }
effective_cluster_permissions a ((gvr, namespaced) ∷ preferred) =
    let rest = effective_cluster_permissions a preferred in
    if namespaced then rest else elim (probe (a.cluster_access gvr) list_watch) [
      | permitted ↦ record rest { value = gvr ∷ rest.value }
      | denied ↦ rest
      | probe_failed verb ↦ record rest {
        complete = false;
        error = some (ReviewError.cluster_access_failed gvr verb);
      }
    ]
