-- ===== src/Tests/Inbox.antt =====
-- Enqueue and ApplyShard.
use icinga_kubernetes.Common.{ℕ, ◌≡◌, refl, arith, ◌+◌, false, none, [], ◌∷◌, length}
use icinga_kubernetes.Common.Result.{ok, err}
use icinga_kubernetes.Model.{stable_id, normalize}
use icinga_kubernetes.Model.Validate.{
  validate, validate_events, validate_event, validate_resource, field_refused, metadata_refused,
  summary_refused, check_all,
}
use icinga_kubernetes.Store.Tables.{Db, log_change, notify, ShardKey}
use icinga_kubernetes.Store.Inbox.{
  enqueue, insert_events, insert_event, commit_batch, refresh_head, new_head, add_pending, point_to,
  next_event,
}
use icinga_kubernetes.Store.Inbox.Replay.{enqueue-again}
use icinga_kubernetes.Store.Apply.{
  apply_resource, watermark, store_observation, write_resource, round_micro, should_notify, new_row,
  without_owners, insert_owners, is_taken,
}
use icinga_kubernetes.Store.Events.{resolve_event, warning_event, resolution}
use icinga_kubernetes.Store.Shard.{
  apply_shard, apply_claimed, Applied, Progress, candidates, claim, process, complete, mark_applied,
  advance_head, overdrawn,
}
use icinga_kubernetes.Store.Shard.Completed.{InboxValid}
use icinga_kubernetes.Store.Shard.Current.{
  apply_shard-InboxValid, apply_claimed-commits, enqueue-InboxValid, begin,
}
use icinga_kubernetes.Tests.Data.{host, batch, empty_db, clock}

abbrev ticks : ℕ → ℕ
ticks i = 1000 + i

queued : Db
unfolding enqueue validate validate_events validate_event validate_resource field_refused
    metadata_refused summary_refused check_all stable_id insert_events insert_event commit_batch
    refresh_head new_head add_pending point_to next_event
queued = elim (enqueue host ticks batch empty_db) [ ok db ↦ db | err _ ↦ empty_db ]

enqueue_test : enqueue host ticks batch empty_db ≡ ok queued
unfolding queued
enqueue_test = refl

empty_db-InboxValid : InboxValid empty_db
empty_db-InboxValid = record { distinct = λ id. omega arith; current = λ k. refl }

enqueue-again_example : enqueue host (λ i. 2000 + i) batch queued ≡ ok queued
enqueue-again_example = enqueue-again host ticks (λ i. 2000 + i) batch empty_db queued enqueue_test

queued-InboxValid : InboxValid queued
queued-InboxValid =
    enqueue-InboxValid host ticks batch empty_db queued enqueue_test empty_db-InboxValid

enqueue-InboxValid_example : InboxValid queued
enqueue-InboxValid_example =
    enqueue-InboxValid host ticks batch empty_db queued enqueue_test empty_db-InboxValid

abbrev key : ShardKey
key = ("campus", "pods@web")

worked : Progress
unfolding queued process apply_resource normalize stable_id watermark store_observation
    write_resource round_micro should_notify new_row without_owners insert_owners resolve_event
    warning_event resolution log_change notify claim is_taken
worked = elim (process host clock (claim key 9_000_000 8 queued.events) (begin queued)) [
  | ok p ↦ p
  | err _ ↦ begin queued
]

process_test : process host clock (claim key 9_000_000 8 queued.events) (begin queued) ≡ ok worked
unfolding worked
process_test = refl

apply_claimed-commits_example :
    (a : Applied) × (apply_claimed host clock 8 key queued ≡ ok a)
    × InboxValid a.db
    × (a.count ≡ length worked.completed)
    × (a.failure ≡ worked.failure)
apply_claimed-commits_example =
    apply_claimed-commits host clock 8 key queued worked queued-InboxValid process_test

-- Both events of the batch are applied: the pod's row is written and then deleted.
worked_test : worked.completed ≡ 1 ∷ 2 ∷ []
unfolding worked
worked_test = refl

shard_done : Applied
unfolding worked apply_shard apply_claimed candidates complete mark_applied advance_head overdrawn
shard_done = elim (apply_shard host clock (λ _. false) 8 queued) [
  | ok a ↦ a
  | err _ ↦ record { db = queued; count = 0; failure = none }
]

apply_shard_test : apply_shard host clock (λ _. false) 8 queued ≡ ok shard_done
unfolding shard_done
apply_shard_test = refl

apply_shard-InboxValid_example : InboxValid shard_done.db
apply_shard-InboxValid_example =
    apply_shard-InboxValid host clock (λ _. false) 8 queued shard_done queued-InboxValid
      apply_shard_test
