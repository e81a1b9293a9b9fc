-- ===== src/Collector/Watch/Sent.antt =====
-- collector.go: the events of a list and of a watch, and what the list of a watch sends.
use mathlib.Core.List.{append-nil, append_assoc}
use icinga_kubernetes.Common.{
  ◌≡◌, refl, sym, ◌∙◌, ap, inl, inr, Bool-cases, Bool, true, false, leb, Option, none, some, List,
  [], ◌∷◌, ◌++◌, map, length, String, str_eq, if◌then◌else◌,
}
use icinga_kubernetes.Model.{Time, IngestEvent, IngestBatch}
use icinga_kubernetes.Adapter.Object.{Object}
use icinga_kubernetes.Sender.Markers.{reconcile_batch}
use icinga_kubernetes.Collector.Watch.{
  Target, Feed, Watcher, shard_name, event, snapshot_event, flush, Filling, add_event, Listing,
  list_failed, page, list_page, Snapshot, list_pages, EventType, Arrival, cancelled, tick, closed,
  unknown_object, arrived, Round,
}

abbrev pub events_of : List IngestBatch → List IngestEvent
events_of [] = []
events_of (b ∷ bs) = b.events ++ events_of bs

abbrev pub all_sent : Watcher → List IngestEvent
all_sent w = events_of w.sent

-- The objects of the pages up to the last one, or up to a failure; and whether the list ended.
abbrev pub objects_of : List Listing → List (Time × Object)
objects_of [] = []
objects_of (list_failed ∷ pages) = []
objects_of (page items rv continue ∷ pages) =
    items ++ (if str_eq continue "" then [] else objects_of pages)

abbrev pub is_complete : List Listing → Bool
is_complete [] = false
is_complete (list_failed ∷ pages) = false
is_complete (page items rv continue ∷ pages) =
    if str_eq continue "" then true else is_complete pages

-- The events of what arrives before the watch ends.
abbrev pub heard : Feed → Target → List Arrival → List IngestEvent
heard f t [] = []
heard f t (cancelled ∷ as') = []
heard f t (tick ∷ as') = heard f t as'
heard f t (closed ∷ as') = []
heard f t (unknown_object ∷ as') = heard f t as'
heard f t (arrived EventType.bookmark now o ∷ as') = heard f t as'
heard f t (arrived EventType.error now o ∷ as') = []
heard f t (arrived EventType.added now o ∷ as') = event f "upsert" t.gvr now o ∷ heard f t as'
heard f t (arrived EventType.modified now o ∷ as') = event f "upsert" t.gvr now o ∷ heard f t as'
heard f t (arrived EventType.deleted now o ∷ as') = event f "delete" t.gvr now o ∷ heard f t as'

abbrev pub heard_by : Feed → Target → Option (List Arrival) → List IngestEvent
heard_by f t none = []
heard_by f t (some arrivals) = heard f t arrivals

abbrev pub snapshot_of : Feed → Target → Round → List IngestEvent
snapshot_of f t r =
    map (λ item. snapshot_event f t.gvr r.started item.0 item.1) (objects_of r.pages)

-- What a round sends: the snapshot, and if it is complete the marker and what is heard afterwards.
abbrev pub round_events : Feed → Target → Round → List IngestEvent
round_events f t r =
    snapshot_of f t r
    ++ (if is_complete r.pages
        then (reconcile_batch f.calls.ids f.cluster (shard_name f t) r.started).events
          ++ heard_by f t r.arrivals
        else [])

pub events_of-snoc :
    (bs : List IngestBatch) (b : IngestBatch) → events_of (bs ++ b ∷ []) ≡ events_of bs ++ b.events
events_of-snoc [] b = append-nil b.events
events_of-snoc (c ∷ bs) b =
    ap (λ l. c.events ++ l) (events_of-snoc bs b)
    ∙ sym (append_assoc c.events (events_of bs) b.events)

pub flush-sent :
    (f : Feed) (t : Target) (events : List IngestEvent) (w : Watcher)
    → all_sent (flush f t events w) ≡ all_sent w ++ events
unfolding flush
flush-sent f t [] w = sym (append-nil (all_sent w))
flush-sent f t (e ∷ events) w = events_of-snoc w.sent _

pub add_event-sent :
    (f : Feed) (t : Target) (e : IngestEvent) (events : List IngestEvent) (w : Watcher)
    → all_sent (add_event f t e events w).1 ++ (add_event f t e events w).0
      ≡ all_sent w ++ (events ++ e ∷ [])
unfolding add_event
add_event-sent f t e events w = elim (Bool-cases (leb f.batch_size (length (events ++ e ∷ [])))) [
  | inl q ↦ rw q (append-nil _ ∙ flush-sent f t (events ++ e ∷ []) w)
  | inr q ↦ rw q refl
]

pub list_page-sent :
    (f : Feed) (t : Target) (started : Time) (items : List (Time × Object)) (s : Filling)
    → all_sent (list_page f t started items s)
      ≡ (all_sent s.1 ++ s.0) ++ map (λ item. snapshot_event f t.gvr started item.0 item.1) items
unfolding list_page
list_page-sent f t started [] (events, w) =
    flush-sent f t events w ∙ sym (append-nil (all_sent w ++ events))
list_page-sent f t started ((now, o) ∷ items) (events, w) =
    let e = snapshot_event f t.gvr started now o in
    let rest = map (λ (item : Time × Object). snapshot_event f t.gvr started item.0 item.1) items in
    list_page-sent f t started items (add_event f t e events w)
    ∙ ap (λ l. l ++ rest)
        (add_event-sent f t e events w ∙ sym (append_assoc (all_sent w) events (e ∷ [])))
    ∙ append_assoc (all_sent w ++ events) (e ∷ []) rest

abbrev pub snapshots : Feed → Target → Time → List Listing → List IngestEvent
snapshots f t started pages =
    map (λ item. snapshot_event f t.gvr started item.0 item.1) (objects_of pages)

-- What a list has sent, and whether it ended.
unfoldable pub Listed : Feed → Target → Time → List Listing → Watcher → Snapshot → Type 0
Listed f t started pages w (Snapshot.listing w') =
    (is_complete pages ≡ false) × (all_sent w' ≡ all_sent w ++ snapshots f t started pages)
Listed f t started pages w (Snapshot.failed w') =
    (is_complete pages ≡ false) × (all_sent w' ≡ all_sent w ++ snapshots f t started pages)
Listed f t started pages w (Snapshot.listed rv w') =
    (is_complete pages ≡ true) × (all_sent w' ≡ all_sent w ++ snapshots f t started pages)

map-append : {A B : Type 0} (g : A → B) (xs ys : List A) → map g (xs ++ ys) ≡ map g xs ++ map g ys
map-append g [] ys = refl
map-append g (x ∷ xs) ys = ap (λ l. g x ∷ l) (map-append g xs ys)

-- Two stretches of events, one after the other.
both_sent :
    {A B : Type 0} (g : A → B) (xs ys : List A) (before between after : List B)
    → between ≡ before ++ map g xs
    → after ≡ between ++ map g ys
    → after ≡ before ++ map g (xs ++ ys)
both_sent g xs ys before between after p q =
    q
    ∙ ap (λ l. l ++ map g ys) p
    ∙ append_assoc before (map g xs) (map g ys)
    ∙ ap (λ l. before ++ l) (sym (map-append g xs ys))

module _ (f : Feed) (t : Target) (started : Time) where
  abbrev item_event : Time × Object → IngestEvent
  item_event item = snapshot_event f t.gvr started item.0 item.1

  -- A page before further ones.
  Listed-page :
      (items : List (Time × Object)) (rv continue : String) (pages : List Listing) (w w' : Watcher)
      (s : Snapshot)
      → str_eq continue "" ≡ false
      → all_sent w' ≡ all_sent w ++ map item_event items
      → Listed f t started pages w' s
      → Listed f t started (page items rv continue ∷ pages) w s
  unfolding Listed
  Listed-page items rv continue pages w w' (Snapshot.listing v) q e (c, h) =
      rw q (
        c,
        both_sent item_event items (objects_of pages) (all_sent w) (all_sent w') (all_sent v) e h,
      )
  Listed-page items rv continue pages w w' (Snapshot.failed v) q e (c, h) =
      rw q (
        c,
        both_sent item_event items (objects_of pages) (all_sent w) (all_sent w') (all_sent v) e h,
      )
  Listed-page items rv continue pages w w' (Snapshot.listed r v) q e (c, h) =
      rw q (
        c,
        both_sent item_event items (objects_of pages) (all_sent w) (all_sent w') (all_sent v) e h,
      )

  pub list_pages-Listed :
      (pages : List Listing) (w : Watcher)
      → Listed f t started pages w (list_pages f t started pages w)
  unfolding list_pages Listed
  list_pages-Listed [] w = (refl, sym (append-nil (all_sent w)))
  list_pages-Listed (list_failed ∷ pages) w = (refl, sym (append-nil (all_sent w)))
  list_pages-Listed (page items rv continue ∷ pages) w =
      let w' = list_page f t started items ([], w) in
      let sent : all_sent w' ≡ all_sent w ++ map item_event items =
        list_page-sent f t started items ([], w)
        ∙ ap (λ l. l ++ map item_event items) (append-nil (all_sent w)) in
      elim (Bool-cases (str_eq continue "")) [
        | inl q ↦
            rw (q, list_pages)
              (
                rw q refl,
                rw q (sent ∙ ap (λ l. all_sent w ++ map item_event l) (sym (append-nil items))),
              )
        | inr q ↦
            rw (q, list_pages)
              (Listed-page items rv continue pages w w' (list_pages f t started pages w') q sent
                (list_pages-Listed pages w'))
      ]
