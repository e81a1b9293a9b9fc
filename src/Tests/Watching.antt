-- ===== src/Tests/Watching.antt =====
-- A collector that watches the deployments of one namespace.
use icinga_kubernetes.Common.{
  ◌≡◌, ◌≤◌, ℕ, refl, none, some, true, false, [], ◌∷◌, ◌++◌, String, len, All, map, sort, arith,
  length,
}
use icinga_kubernetes.Common.Int.{pos}
use icinga_kubernetes.Model.{StringMap}
use icinga_kubernetes.Collector.Permissions.{Gvr, has}
use icinga_kubernetes.Collector.Normalize.{
  Calls, annotation_limits, bounded_string_map, truncate, by_key,
}
use icinga_kubernetes.Collector.Normalize.Bounded.{
  IsBounded, PassesKey, total_size, cut, bounded_string_map_lem,
}
use icinga_kubernetes.Collector.Normalize.Truncate.{truncate_lem}
use text.Mathlib.Text.{is_char_boundary}
use text.Mathlib.TextBridge.{IsPrefix}
use icinga_kubernetes.Collector.Normalize.Accepted.{IsNamed}
use icinga_kubernetes.Collector.Watch.{
  Target, Feed, Watcher, Round, page, arrived, EventType, watch_round, watch, state_of, pending,
  shard_name, snapshot_event,
}
use icinga_kubernetes.Collector.Watch.Sent.{all_sent, round_events}
use icinga_kubernetes.Collector.Watch.Order.{watch_round-events}
use icinga_kubernetes.Collector.Watch.Batches.{IsConfigured, Accepted, watch-Accepted}
use icinga_kubernetes.Collector.Namespaces.{
  Watches, reconcile_watches, reconcile_watches_lem, Ending, farewells, unwanted, start_watches,
}
use icinga_kubernetes.Collector.ResyncFile.{Names, Document}
use icinga_kubernetes.Tests.Data.{host}
use icinga_kubernetes.Tests.Described.{nested, deployment}

abbrev deployments : Gvr
deployments = record { group = "apps"; version = "v1"; resource = "deployments" }

abbrev calls : Calls
calls = record {
  ids = record { sha256 = host.sha256; new_sha1 = λ s. s; format_time = λ t. "now" };
  marshal_size = host.marshal_size;
  parse_time = λ s. none;
  format_gvr = λ g. "apps/v1, Resource=deployments";
  nested = nested;
}

abbrev feed : Feed
feed = record {
  calls = calls;
  cluster = "campus";
  batch_size = 2;
  adapters = [];
  send_fails = λ n. false;
}

abbrev target : Target
target = record { gvr = deployments; namespace = "web" }

abbrev idle : Watcher
idle = record { sent = []; processed = 0; errors = 0 }

abbrev web_round : Round
web_round = record {
  started = 5;
  pages = page ((6, deployment) ∷ []) "7" "" ∷ [];
  arrivals = some (arrived EventType.deleted 8 deployment ∷ []);
}

watch_round-events_example :
    all_sent (state_of (watch_round feed target web_round idle))
      ++ pending (watch_round feed target web_round idle)
    ≡ all_sent idle ++ round_events feed target web_round
watch_round-events_example = watch_round-events feed target web_round idle

configured : IsConfigured feed target host.parse_uuid
unfolding shard_name
configured = record {
  cluster = refl;
  shard = refl;
  positive = omega arith;
  bounded = omega arith;
  uuids = λ s. refl;
  times = λ t. refl;
  empty_map = refl;
}

deployment-IsNamed : IsNamed deployments deployment
deployment-IsNamed = record {
  uid = refl;
  group = refl;
  version = refl;
  kind = refl;
  name = refl;
  resource_version = refl;
  namespace = refl;
  owners = tt;
}

watch-Accepted_example :
    All
      (Accepted feed target host.parse_uuid configured)
      (state_of (watch feed target (web_round ∷ []) idle)).sent
watch-Accepted_example =
    watch-Accepted feed target host.parse_uuid configured (web_round ∷ []) idle
      (
        (
          λ e. omega (arith, e),
          (((λ e. omega (arith, e), deployment-IsNamed), tt), tt),
          ((λ e. omega (arith, e), deployment-IsNamed), tt),
        ),
        tt,
      )
      tt

abbrev api_token : StringMap
api_token = ("team", "shop") ∷ ("api-token", "x") ∷ []

bounded_string_map_lem_example :
    IsBounded annotation_limits (bounded_string_map api_token annotation_limits)
    × (length api_token ≤ 256
        → total_size (map (cut annotation_limits) api_token) ≤ 65_536
        → All (PassesKey annotation_limits) api_token
        → bounded_string_map api_token annotation_limits
          ≡ map (cut annotation_limits) (sort by_key api_token))
bounded_string_map_lem_example = bounded_string_map_lem annotation_limits api_token

truncate_lem_example :
    IsPrefix (truncate "äö" 3) "äö"
    × (len (truncate "äö" 3) ≤ 3)
    × (len "äö" ≤ 3 → truncate "äö" 3 ≡ "äö")
    × ((j : ℕ) → j ≤ 3 → is_char_boundary "äö" j ≡ true → j ≤ len (truncate "äö" 3))
truncate_lem_example = truncate_lem "äö" 3

abbrev watches : Watches
watches = record { running = "web" ∷ []; watcher = idle; readings = 0 }

abbrev names : Names
names = record { is_subdomain = λ s. true; is_label = λ s. true }

abbrev restarts : Document
restarts = record { version = pos 1; requests = record { id = "r1"; gvr = deployments } ∷ [] }

-- The stopped watch still flushes the event that it holds.
abbrev ending : ℕ → String → Ending
ending k namespace = record {
  flushed = (snapshot_event feed deployments 5 6 deployment ∷ []) ∷ [];
  marked = none;
}

reconcile_watches_lem_example :
    ((n : String)
      → has (reconcile_watches feed (λ k. k) ending deployments ("shop" ∷ []) watches).running n
        ≡ has ("shop" ∷ []) n)
    × ((reconcile_watches feed (λ k. k) ending deployments ("shop" ∷ []) watches).watcher.sent
        ≡ []
          ++ farewells feed
              (λ k. k)
              ending
              deployments
              0
              (unwanted ("shop" ∷ []) (start_watches ("shop" ∷ []) ("web" ∷ []))))
reconcile_watches_lem_example =
    reconcile_watches_lem feed (λ k. k) ending deployments ("shop" ∷ []) watches
