-- ===== src/Tests/Discovery.antt =====
-- A collector that may list the pods of one namespace.
use icinga_kubernetes.Common.{◌≡◌, refl, true, false, some, [], ◌∷◌, Exists}
use icinga_kubernetes.Collector.Permissions.{
  Gvr, ResourceRule, Authorization, reviewed, review_forbidden, listed, rule_allows, list_watch,
  probe_namespace, effective_rules, effective_cluster_permissions, review_namespaces,
  review_namespace, all_verbs, has, allowlisted, probe,
}
use icinga_kubernetes.Collector.Permissions.Sound.{Probed, probe_namespace-Probed}
use icinga_kubernetes.Collector.Wanted.{LeaseShard, NamesBy}
use icinga_kubernetes.Collector.Discovery.{
  Shard, Collector, Settings, Observation, reconcile, wanted_of, permissions_complete,
  ResyncRequest, prefer_all, prefer,
}
use icinga_kubernetes.Collector.Discovery.Keeps.{find_shard, Kept, reconcile-Kept}
use icinga_kubernetes.Collector.Discovery.Exact.{Watches, reconcile-exact}

abbrev pods : Gvr
pods = record { group = ""; version = "v1"; resource = "pods" }

abbrev pods_rule : ResourceRule
pods_rule = record {
  verbs = "list" ∷ "watch" ∷ [];
  api_groups = "" ∷ [];
  resources = "*" ∷ [];
  resource_names = [];
}

abbrev authorization : Authorization
authorization = record {
  namespaces = listed ("web" ∷ []);
  rules = λ _. review_forbidden;
  access = λ ns gvr verb. some true;
  cluster_access = λ gvr verb. some false;
}

probed_test :
    rule_allows ((probe_namespace authorization "web" ((pods, true) ∷ [])).value) pods list_watch
    ≡ true
unfolding probe_namespace probe rule_allows all_verbs has
probed_test = refl

probe_namespace-Probed_example : Exists (Probed authorization "web" pods) ((pods, true) ∷ [])
probe_namespace-Probed_example =
    probe_namespace-Probed authorization "web" ((pods, true) ∷ []) pods probed_test

abbrev settings : Settings
settings = record { lease_namespace = "icinga"; crc32 = λ _. 21 }

abbrev web_shard : LeaseShard
web_shard = record { gvr = pods; partition = 5 }

abbrev wanted_pods : NamesBy Gvr
wanted_pods = (pods, "web" ∷ []) ∷ []

abbrev observed : Observation
observed = record {
  lists =
      record {
        group_version = some ("", "v1");
        resources = record { name = "pods"; namespaced = true; verbs = "list" ∷ "watch" ∷ [] } ∷ [];
      }
      ∷ [];
  discovery_error = false;
  authorization = authorization;
  resync = some [];
}

abbrev running_shard : Shard
running_shard = record { target = web_shard; namespaces = "web" ∷ "old" ∷ []; run = 0 }

abbrev collector : Collector
collector = record {
  shards = running_shard ∷ [];
  next_run = 1;
  cancelled = [];
  applied_resync = [];
  ready = true;
}

complete_test : permissions_complete settings observed ≡ true
unfolding effective_rules review_namespaces review_namespace probe_namespace probe
    effective_cluster_permissions prefer_all prefer allowlisted has
complete_test = refl

reconcile-exact_example :
    Watches settings.crc32
      (wanted_of settings observed)
      web_shard
      (find_shard web_shard (reconcile settings observed collector).0.shards)
reconcile-exact_example = reconcile-exact settings observed collector web_shard refl complete_test

-- The review of the rules is incomplete.
abbrev failing : Observation
failing = record observed { authorization = record authorization { rules = λ _. reviewed [] true } }

incomplete_test : permissions_complete settings failing ≡ false
unfolding effective_rules review_namespaces review_namespace probe_namespace probe
    effective_cluster_permissions prefer_all prefer allowlisted has
incomplete_test = refl

reconcile-Kept_example :
    Kept running_shard (find_shard web_shard (reconcile settings failing collector).0.shards)
reconcile-Kept_example =
    reconcile-Kept settings failing collector web_shard running_shard incomplete_test refl

abbrev service_resync : ResyncRequest
service_resync = record {
  id = "r1";
  gvr = record { group = ""; version = "v1"; resource = "services" };
}
