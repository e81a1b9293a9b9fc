-- ===== src/Collector/Watch/Order.antt =====
-- collector.go: the events that a watch sends, one after another.
use mathlib.Core.List.{append-nil, append_assoc}
use icinga_kubernetes.Common.{
  ◌≡◌, refl, sym, ◌∙◌, ap, false, Option, none, some, List, [], ◌∷◌, ◌++◌, String,
}
use icinga_kubernetes.Model.{Time, IngestEvent}
use icinga_kubernetes.Sender.Markers.{reconcile_batch}
use icinga_kubernetes.Collector.Watch.{
  Target, Feed, Watcher, shard_name, event, flush, add_event, Snapshot, list_pages, EventType,
  Arrival, cancelled, tick, closed, unknown_object, arrived, Consumed, consume, Round, send_marker,
  RoundEnd, again, in_list, in_watch, watched, open_watch, after_list, watch_round, state_of,
  pending, and_again, watch,
}
use icinga_kubernetes.Collector.Watch.Sent.{
  all_sent, is_complete, heard, heard_by, snapshot_of, round_events, events_of-snoc, flush-sent,
  add_event-sent, Listed, list_pages-Listed,
}

-- What a watch has sent and holds.
abbrev pub consumed_events : Consumed → List IngestEvent
consumed_events (Consumed.waiting batch rv w) = all_sent w ++ batch
consumed_events (Consumed.returned rv w) = all_sent w

regroup :
    {A : Type 0} (a b c : List A) (x : A) (after : List A)
    → after ≡ a ++ (b ++ x ∷ [])
    → after ++ c ≡ (a ++ b) ++ (x ∷ c)
regroup a b c x after e =
    ap (λ l. l ++ c) (e ∙ sym (append_assoc a b (x ∷ []))) ∙ append_assoc (a ++ b) (x ∷ []) c

module _ (f : Feed) (t : Target) where
  consume-heard :
      (arrivals : List Arrival) (batch : List IngestEvent) (rv : String) (w : Watcher)
      → consumed_events (consume f t arrivals batch rv w)
        ≡ (all_sent w ++ batch) ++ heard f t arrivals
  unfolding consume
  consume-heard [] batch rv w = sym (append-nil (all_sent w ++ batch))
  consume-heard (cancelled ∷ rest) batch rv w =
      flush-sent f t batch w ∙ sym (append-nil (all_sent w ++ batch))
  consume-heard (closed ∷ rest) batch rv w =
      flush-sent f t batch w ∙ sym (append-nil (all_sent w ++ batch))
  consume-heard (tick ∷ rest) batch rv w =
      consume-heard rest [] rv (flush f t batch w)
      ∙ ap (λ l. l ++ heard f t rest)
          (append-nil (all_sent (flush f t batch w)) ∙ flush-sent f t batch w)
  consume-heard (unknown_object ∷ rest) batch rv w = consume-heard rest batch rv w
  consume-heard (arrived EventType.bookmark now o ∷ rest) batch rv w =
      consume-heard rest batch o.resource_version w
  consume-heard (arrived EventType.error now o ∷ rest) batch rv w =
      flush-sent f t batch w ∙ sym (append-nil (all_sent w ++ batch))
  consume-heard (arrived EventType.added now o ∷ rest) batch rv w =
      let e = event f "upsert" t.gvr now o in
      let (batch', w') = add_event f t e batch w in
      consume-heard rest batch' o.resource_version w'
      ∙ regroup (all_sent w) batch (heard f t rest) e (all_sent w' ++ batch')
          (add_event-sent f t e batch w)
  consume-heard (arrived EventType.modified now o ∷ rest) batch rv w =
      let e = event f "upsert" t.gvr now o in
      let (batch', w') = add_event f t e batch w in
      consume-heard rest batch' o.resource_version w'
      ∙ regroup (all_sent w) batch (heard f t rest) e (all_sent w' ++ batch')
          (add_event-sent f t e batch w)
  consume-heard (arrived EventType.deleted now o ∷ rest) batch rv w =
      let e = event f "delete" t.gvr now o in
      let (batch', w') = add_event f t e batch w in
      consume-heard rest batch' o.resource_version w'
      ∙ regroup (all_sent w) batch (heard f t rest) e (all_sent w' ++ batch')
          (add_event-sent f t e batch w)

  watched-events :
      (c : Consumed) → all_sent (state_of (watched c)) ++ pending (watched c) ≡ consumed_events c
  watched-events (Consumed.waiting batch rv w) = refl
  watched-events (Consumed.returned rv w) = append-nil (all_sent w)

  open_watch-events :
      (arrivals : Option (List Arrival)) (rv : String) (w : Watcher)
      → all_sent (state_of (open_watch f t arrivals rv w)) ++ pending (open_watch f t arrivals rv w)
        ≡ all_sent w ++ heard_by f t arrivals
  open_watch-events none rv w = refl
  open_watch-events (some arrivals) rv w =
      watched-events (consume f t arrivals [] rv w)
      ∙ consume-heard arrivals [] rv w
      ∙ ap (λ l. l ++ heard f t arrivals) (append-nil (all_sent w))

  marker_events : Time → List IngestEvent
  marker_events started = (reconcile_batch f.calls.ids f.cluster (shard_name f t) started).events

  marker_sent :
      (r : Round) (v : Watcher)
      → all_sent (send_marker f t r.started v) ≡ all_sent v ++ marker_events r.started
  unfolding send_marker marker_events
  marker_sent r v = events_of-snoc v.sent _

  Unmarked : Round → Watcher → Watcher → Type 0
  Unmarked r w v = all_sent v ++ [] ≡ all_sent w ++ round_events f t r

  unmarked :
      (r : Round) (w v : Watcher)
      → is_complete r.pages ≡ false
      → all_sent v ≡ all_sent w ++ snapshot_of f t r
      → Unmarked r w v
  unfolding Unmarked
  unmarked r w v c e = rw c (
      append-nil (all_sent v)
      ∙ e
      ∙ ap (λ l. all_sent w ++ l) (sym (append-nil (snapshot_of f t r))))

  after_list-events :
      (r : Round) (w : Watcher) (s : Snapshot)
      → Listed f t r.started r.pages w s
      → all_sent (state_of (after_list f t r s)) ++ pending (after_list f t r s)
        ≡ all_sent w ++ round_events f t r
  unfolding Listed Unmarked marker_events
  after_list-events r w (Snapshot.listing v) (c, e) = unmarked r w v c e
  after_list-events r w (Snapshot.failed v) (c, e) = unmarked r w v c e
  after_list-events r w (Snapshot.listed rv v) (c, e) =
      let marker = marker_events r.started in
      let after = heard_by f t r.arrivals in
      rw c (
        open_watch-events r.arrivals rv (send_marker f t r.started v)
        ∙ ap (λ l. l ++ after)
            (marker_sent r v
              ∙ ap (λ l. l ++ marker) e
              ∙ append_assoc (all_sent w) (snapshot_of f t r) marker)
        ∙ append_assoc (all_sent w) (snapshot_of f t r ++ marker) after
        ∙ ap (λ l. all_sent w ++ l) (append_assoc (snapshot_of f t r) marker after))

  -- Whatever the Kubernetes API answers in a round of a watch, what the sender got, followed by the
  -- batch that is being filled, grows by one event for each object of the list, in its order; and, only
  -- if the list ended, by the reconcile marker with the time at which the list started, and then by
  -- one event for each change that the watch reported, in its order, until it ended.
  pub watch_round-events :
      (r : Round) (w : Watcher)
      → all_sent (state_of (watch_round f t r w)) ++ pending (watch_round f t r w)
        ≡ all_sent w ++ round_events f t r
  unfolding watch_round
  watch_round-events r w =
      after_list-events r w (list_pages f t r.started r.pages w)
        (list_pages-Listed f t r.started r.pages w)

  abbrev pub rounds_events : List Round → List IngestEvent
  rounds_events [] = []
  rounds_events (r ∷ rounds) = round_events f t r ++ rounds_events rounds

  -- Some first rounds, with all their events.
  abbrev pub Rounds : List Round → Watcher → RoundEnd → Type 0
  Rounds rounds w e =
      (done : List Round) × (rest : List Round) × (done ++ rest ≡ rounds)
      × (all_sent (state_of e) ++ pending e ≡ all_sent w ++ rounds_events done)

  and_again-Rounds :
      (r : Round) (rounds : List Round) (w : Watcher) (e : RoundEnd)
      → all_sent (state_of e) ++ pending e ≡ all_sent w ++ round_events f t r
      → ((v : Watcher) → Rounds rounds v (watch f t rounds v))
      → Rounds (r ∷ rounds) w (and_again e (watch f t rounds))
  and_again-Rounds r rounds w (again rv v) p more =
      let (done, rest, q, h) = more v in
      (
        r ∷ done,
        rest,
        ap (λ l. r ∷ l) q,
        h
            ∙ ap (λ l. l ++ rounds_events done) (sym (append-nil (all_sent v)) ∙ p)
            ∙ append_assoc (all_sent w) (round_events f t r) (rounds_events done),
      )
  and_again-Rounds r rounds w (in_list v) p more =
      (r ∷ [], rounds, refl, p ∙ ap (λ l. all_sent w ++ l) (sym (append-nil (round_events f t r))))
  and_again-Rounds r rounds w (in_watch batch rv v) p more =
      (r ∷ [], rounds, refl, p ∙ ap (λ l. all_sent w ++ l) (sym (append-nil (round_events f t r))))

  -- A watch sends what its rounds send, one round after the other and none of it twice.
  pub watch-Rounds : (rounds : List Round) (w : Watcher) → Rounds rounds w (watch f t rounds w)
  unfolding watch
  watch-Rounds [] w = ([], [], refl, refl)
  watch-Rounds (r ∷ rounds) w =
      and_again-Rounds r rounds w (watch_round f t r w) (watch_round-events r w)
        (watch-Rounds rounds)
