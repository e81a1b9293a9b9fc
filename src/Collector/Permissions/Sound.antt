-- ===== src/Collector/Permissions/Sound.antt =====
-- collector.go: what it takes that a rule or a review permits the list and the watch of a resource.
use icinga_kubernetes.Common.{
  ◌≡◌, ◌↔◌, ◌⊎◌, inl, inr, refl, subst, arith, is_empty, Bool, true, false, some, Option-cases,
  List, [], ◌∷◌, Exists, All, String,
}
use icinga_kubernetes.Collector.Permissions.{
  Gvr, has, ResourceRule, all_verbs, rule_allows, Authorization, probe, list_watch, probed_rule,
  probe_namespace,
}

-- Is `x` or the asterisk in the list?
abbrev pub Covers : List String → String → Type 0
Covers l x = (has l x ≡ true) ⊎ (has l "*" ≡ true)

-- A rule without a restriction to names that covers the group, the resource and each verb.
abbrev pub Allows : Gvr → List String → ResourceRule → Type 0
Allows gvr verbs rule =
    (is_empty rule.resource_names ≡ true)
    × Covers rule.api_groups gvr.group
    × Covers rule.resources gvr.resource
    × All (Covers rule.verbs) verbs

all_verbs_iff :
    (rule : ResourceRule) (vs : List String)
    → (all_verbs rule vs ≡ true) ↔ All (Covers rule.verbs) vs
unfolding all_verbs
all_verbs_iff rule [] = (λ _. tt, λ _. refl)
all_verbs_iff rule (v ∷ vs) = ground (arith, all_verbs_iff rule vs)

-- The collector takes a resource for permitted exactly if one rule, without a restriction to names,
-- covers its group, its resource and every verb, each by name or by an asterisk.
pub rule_allows_lem :
    (rules : List ResourceRule) (gvr : Gvr) (verbs : List String)
    → (rule_allows rules gvr verbs ≡ true) ↔ Exists (Allows gvr verbs) rules
unfolding rule_allows
rule_allows_lem [] gvr verbs = ground arith
rule_allows_lem (rule ∷ rules) gvr verbs =
    ground (arith, rule_allows_lem rules gvr verbs, all_verbs_iff rule verbs)

-- A preferred, namespaced resource whose group and name cover those of `gvr` and whose list and whose watch
-- were reviewed and allowed.
abbrev pub Probed : Authorization → String → Gvr → (Gvr × Bool) → Type 0
Probed a ns gvr (g, namespaced) =
    (namespaced ≡ true)
    × Covers (g.group ∷ []) gvr.group
    × Covers (g.resource ∷ []) gvr.resource
    × (a.access ns g "list" ≡ some true)
    × (a.access ns g "watch" ≡ some true)

probe_namespace-cases :
    (a : Authorization) (ns : String) (g : Gvr) (preferred : List (Gvr × Bool))
    → let rest = (probe_namespace a ns preferred).value in
      let all = (probe_namespace a ns ((g, true) ∷ preferred)).value in
      ((a.access ns g "list" ≡ some true)
        × (a.access ns g "watch" ≡ some true)
        × (all ≡ probed_rule g ∷ rest))
      ⊎ (all ≡ rest)
unfolding probe_namespace probe
probe_namespace-cases a ns g preferred = elim (Option-cases (a.access ns g "list")) [
  | inl n ↦ ground (arith, n)
  | inr (b, n) ↦ elim (Option-cases (a.access ns g "watch")) [
    | inl m ↦ ground (arith, n, m)
    | inr (c, m) ↦ ground (arith, n, m)
  ]
]

probed_rule-allows :
    (g gvr : Gvr) (rules : List ResourceRule)
    → rule_allows (probed_rule g ∷ rules) gvr list_watch ≡ true
    → (Covers (g.group ∷ []) gvr.group × Covers (g.resource ∷ []) gvr.resource)
      ⊎ (rule_allows rules gvr list_watch ≡ true)
unfolding rule_allows has
probed_rule-allows g gvr rules e = ground (arith, e)

-- Where the rules of a namespace cannot be reviewed, a resource is taken for permitted only if both
-- its list and its watch were reviewed and allowed in that namespace; up to the version, which
-- rules do not have, and to a group or a resource whose name is an asterisk.
pub probe_namespace-Probed :
    (a : Authorization) (ns : String) (preferred : List (Gvr × Bool)) (gvr : Gvr)
    → rule_allows ((probe_namespace a ns preferred).value) gvr list_watch ≡ true
    → Exists (Probed a ns gvr) preferred
unfolding probe_namespace rule_allows has
probe_namespace-Probed a ns [] gvr e = absurd (ground (arith, e))
probe_namespace-Probed a ns ((g, false) ∷ preferred) gvr e =
    inr (probe_namespace-Probed a ns preferred gvr e)
probe_namespace-Probed a ns ((g, true) ∷ preferred) gvr e =
    elim (probe_namespace-cases a ns g preferred) [
      | inr q ↦ inr (
          probe_namespace-Probed a ns preferred gvr
            (subst (λ r. rule_allows r gvr list_watch ≡ true) q e))
      | inl (l, w, q) ↦
          elim (probed_rule-allows g gvr ((probe_namespace a ns preferred).value)
            (subst (λ r. rule_allows r gvr list_watch ≡ true) q e)) [
              | inl (x, y) ↦ inl (refl, x, y, l, w)
              | inr r ↦ inr (probe_namespace-Probed a ns preferred gvr r)
            ]
    ]
