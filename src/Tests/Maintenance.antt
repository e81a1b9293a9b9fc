-- ===== src/Tests/Maintenance.antt =====
-- A database that a worker applies to, cleans and closes events in.
use icinga_kubernetes.Common.{◌≢◌, eq_iff}
use icinga_kubernetes.Store.Tables.{ResourceRow}
use icinga_kubernetes.Store.Events.{
  inactive_event_reason, event_recovery, event_inactivity, event_occurrence, latest_of,
}
use icinga_kubernetes.Store.Processes.{get_business_process, delete_business_process}
use icinga_kubernetes.Store.Processes.Raced.{deleted, no_writes, put_business_process-once}
use icinga_kubernetes.Store.Resolve.{
  is_open_event, closing_reason, is_parent, reference_text, reason_with,
}
use icinga_kubernetes.Store.Resolve.Resolved.{IdsUnique, Resolved, resolve_events-Resolved}
use icinga_kubernetes.Tests.Data.{pod}
use icinga_kubernetes.Common.{
  ◌≡◌, refl, none, some, true, false, [], ◌∷◌, List, any, arith, if◌then◌else◌,
}
use icinga_kubernetes.Common.Int.{pos}
use icinga_kubernetes.Common.Result.{ok}
use icinga_kubernetes.Json.{Value, end}
use icinga_kubernetes.Store.Tables.{Db, ProcessRow}
use icinga_kubernetes.Store.Shard.Completed.{InboxValid}
use icinga_kubernetes.Store.Shard.Heads.{HeadsUnique}
use icinga_kubernetes.Store.Cleanup.{Retention, cleanup}
use icinga_kubernetes.Store.Cleanup.Kept.{Kept, cleanup-Kept}
use icinga_kubernetes.Store.Resolve.{Transaction, resolve_events, recoveries, open_events}
use icinga_kubernetes.Store.Federation.{
  put_federation_cache, get_federation_cache, cache_key_eq, get-put_federation_cache,
}
use icinga_kubernetes.Store.Processes.{put_business_process}
use icinga_kubernetes.Store.Processes.Exclusive.{NamesUnique}
use icinga_kubernetes.Worker.{Turn, cleanup_due, events_due, idle_due, run}
use icinga_kubernetes.Worker.Runs.{worker_of, is_cancelled, IsAlive}
use icinga_kubernetes.Worker.Database.{Environment, database, IsSound, run-IsSound}
use icinga_kubernetes.Tests.Data.{host, clock, empty_db, stocked_db}

abbrev retention : Retention
retention = record { events = 1; tombstones = 1; history = 1; federation_cache = 1 }

abbrev transaction : Transaction
transaction = record {
  parse_time = λ s. none;
  json_text = λ v. "";
  now = 9;
  db_now = 9;
  locked = λ id. false;
}

stocked_db-InboxValid : InboxValid stocked_db
stocked_db-InboxValid = record { distinct = λ id. omega arith; current = λ k. refl }

stocked_db-HeadsUnique : HeadsUnique stocked_db
stocked_db-HeadsUnique k = omega arith

cleanup-Kept_example :
    Kept stocked_db (cleanup true (λ n. 9_000_000_000) retention stocked_db)
    × InboxValid (cleanup true (λ n. 9_000_000_000) retention stocked_db)
cleanup-Kept_example =
    cleanup-Kept true (λ n. 9_000_000_000) retention stocked_db stocked_db-HeadsUnique
      stocked_db-InboxValid

abbrev environment : Environment
environment = record {
  host = host;
  clock = λ n. clock;
  locked = λ n k. false;
  transaction = λ n. transaction;
  cleanup_lock = λ n. true;
  cleanup_clock = λ n i. 9_000_000_000;
  retention = retention;
  disconnected = λ n. false;
}

abbrev turns : List Turn
turns =
    record { cancelled_before = false; wakeup = idle_due; cancelled_after = false }
    ∷ record { cancelled_before = false; wakeup = events_due; cancelled_after = false }
    ∷ record { cancelled_before = false; wakeup = cleanup_due; cancelled_after = false }
    ∷ []

run-IsSound_example :
    IsSound (worker_of (run (database environment) turns stocked_db)).state
    × IsAlive (any is_cancelled turns) (run (database environment) turns stocked_db)
run-IsSound_example =
    run-IsSound environment turns stocked_db
      (record { inbox = stocked_db-InboxValid; unique = stocked_db-HeadsUnique })

get-put_federation_cache_example :
    get_federation_cache "lab" "k"
      (put_federation_cache 5 "lab" "k" (pos 200) Value.null "live" stocked_db)
    ≡ (if cache_key_eq ("lab", "k") ("lab", "k")
        then some (pos 200, Value.null, "live", 5)
        else get_federation_cache "lab" "k" stocked_db)
get-put_federation_cache_example =
    get-put_federation_cache 5 "lab" "k" (pos 200) Value.null "live" stocked_db "lab" "k"

abbrev shop_process : ProcessRow
shop_process = record {
  name = "shop";
  definition = Value.object end;
  generation = 3;
  created_at = 1;
  updated_at = 2;
}

abbrev process_db : Db
process_db = record empty_db { processes = shop_process ∷ [] }

abbrev written : ProcessRow
written = record shop_process { generation = 4; updated_at = 7 }

process_db-NamesUnique : NamesUnique process_db
process_db-NamesUnique name = ground arith

put_test :
    put_business_process 7 "shop" (Value.object end) (pos 3) process_db
    ≡ ok (written, record process_db { processes = written ∷ [] })
unfolding put_business_process
put_test = refl

abbrev event_row : ResourceRow
event_row = record {
  resource = record pod { id = "e"; kind = "Event" };
  shard = "events@web";
  changed_at = 1;
}

-- The event occurred more than ten minutes ago.
abbrev event_db : Db
event_db = record empty_db { resources = event_row ∷ [] }

abbrev late : Transaction
late = record transaction { parse_time = λ s. some 1; now = 900_000_000_000 }

closed_test :
    recoveries late event_db (open_events late event_db) ≡ ("e", inactive_event_reason) ∷ []
unfolding recoveries open_events is_open_event closing_reason is_parent reference_text reason_with
    event_recovery event_inactivity event_occurrence latest_of
closed_test = refl

event_db-IdsUnique : IdsUnique event_db
event_db-IdsUnique id = ground arith

resolve_events-Resolved_example :
    Resolved late event_db
      (resolve_events late event_db)
      (recoveries late event_db (open_events late event_db))
resolve_events-Resolved_example = resolve_events-Resolved late event_db event_db-IdsUnique

abbrev written_db : Db
written_db = record process_db { processes = written ∷ [] }

deleted_test : delete_business_process "other" (pos 1) written_db ≡ ok (false, written_db)
unfolding delete_business_process
deleted_test = refl

-- Another process is deleted between the two writes.
put_business_process-once_example :
    (get_business_process "shop" written_db ≡ some written)
    × (written.definition ≡ Value.object end)
    × (put_business_process 9 "shop" (Value.object end) (pos 3) written_db
        ≢ ok (written, written_db))
put_business_process-once_example =
    put_business_process-once 7 9 "shop" (Value.object end) (Value.object end) (pos 3) process_db
      written_db written_db written_db written written process_db-NamesUnique put_test
      (deleted "other" (pos 1) false (λ e. ground (arith, (eq_iff "other" "shop").1 e)) deleted_test
        no_writes)
