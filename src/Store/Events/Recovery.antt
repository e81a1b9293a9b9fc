-- ===== src/Store/Events/Recovery.antt =====
-- store/event_recovery.go: the reasons of eventRecovery and resolveEvent.
use icinga_kubernetes.Common.{
  ◌+◌, ◌≤◌, ◌<◌, ◌≡◌, ◌≢◌, ◌↔◌, ◌⊎◌, arith, Bool, true, any, String, str_eq, eq_iff, List, [], ◌∷◌,
}
use icinga_kubernetes.Json.{Fields, get, as_text}
use icinga_kubernetes.Model.{Time, State, is_ok, Resource}
use icinga_kubernetes.Store.Tables.{ResourceRow}
use icinga_kubernetes.Store.Events.{
  ParseTime, event_problem_window, inactive_event_reason, later_of, latest_of, event_occurrence,
  event_inactivity, healthy_kinds, event_recovery, warning_event, resolution, resolve_with,
  resolve_event,
}

latest_of-ge :
    (p : ParseTime) (s : Fields) (keys : List String) (latest : Time)
    → latest ≤ latest_of p s keys latest
unfolding latest_of
latest_of-ge p s [] latest = omega arith
latest_of-ge p s (k ∷ keys) latest =
    ground (arith, latest_of-ge p s keys (later_of latest (p (as_text (get k s)))))

-- An event is closed for inactivity exactly when a time of occurrence is known and lies the whole
-- window in the past.
pub event_inactivity_iff :
    (p : ParseTime) (r : Resource) (now : Time)
    → (event_inactivity p r now ≢ "")
      ↔ ((0 < event_occurrence p r) × (event_occurrence p r + event_problem_window ≤ now))
unfolding event_inactivity
event_inactivity_iff p r now =
    (λ h. ground (arith, h), λ h e. ground (arith, eq_iff inactive_event_reason ""))

-- The reasons for which the referenced resource closes an event that is not inactive.
abbrev pub ProvesRecovery : State → String → Bool → Type 0
ProvesRecovery state kind deleted =
    (deleted ≡ true) ⊎ ((is_ok state ≡ true) × (any (str_eq kind) healthy_kinds ≡ true))

-- eventRecovery gives a reason only for an event with a known occurrence: because the occurrence is
-- a whole window old, or because the referenced resource, observed no earlier than the occurrence,
-- is deleted or is an ok resource of a kind with a health of its own.
pub event_recovery_sound :
    (p : ParseTime) (now : Time) (r : Resource) (state : State) (kind : String) (observed : Time)
    (deleted : Bool)
    → event_recovery p now r state kind observed deleted ≢ ""
    → (0 < event_occurrence p r)
      × ((event_occurrence p r + event_problem_window ≤ now)
          ⊎ ((event_occurrence p r ≤ observed) × ProvesRecovery state kind deleted))
unfolding event_recovery event_inactivity
event_recovery_sound p now r state kind observed deleted h = (ground (arith, h), ground (arith, h))

-- resolveEvent changes nothing but the state, the reason and the summary, and these only for an
-- open warning event, which it closes as ok.
pub resolve_event-frame :
    (p : ParseTime) (now : Time) (rows : List ResourceRow) (r : Resource)
    → ((resolve_event p now rows r ≡ r)
        ⊎ ((warning_event r ≡ true)
            × (resolution p now rows r ≢ "")
            × (resolve_event p now rows r ≡ resolve_with (resolution p now rows r) r)))
unfolding resolve_event
resolve_event-frame p now rows r = ground (arith, eq_iff (resolution p now rows r) "")
