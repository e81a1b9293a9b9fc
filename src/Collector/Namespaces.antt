-- ===== src/Collector/Namespaces.antt =====
-- collector.go: the watches of the namespaces of a lease shard, which follow the shard's state. The
-- goroutine of a watch is its namespace in the list of those that run. A set of names is a list
-- without an order that matters.
use mathlib.Core.List.{append-nil, append_assoc}
use icinga_kubernetes.Common.{
  Option, none, some, sym, ap, ◌∙◌, ℕ, suc, ◌≡◌, refl, arith, inl, inr, Bool-cases, Bool, false,
  ◌&&◌, ◌||◌, not, List, [], ◌∷◌, ◌++◌, String, str_eq, eq_iff, if◌then◌else◌,
}
use icinga_kubernetes.Common.Table.{select}
use icinga_kubernetes.Model.{Time, IngestEvent, IngestBatch}
use icinga_kubernetes.Collector.Permissions.{Gvr, has}
use icinga_kubernetes.Collector.Watch.{
  Target, Feed, Watcher, shard_name, send_marker, flush, batch_of,
}
use icinga_kubernetes.Sender.Markers.{reconcile_batch}

-- What a watch still does when its context ends and until it is done: it flushes what it holds of a
-- page or of a batch, and sends its own marker where its list has just ended.
pub record Ending : Type 0 where
  pub flushed : List (List IngestEvent)
  pub marked : Option Time

-- The endings of the watches, each by its namespace and the number of readings of the clock.
abbrev pub Endings : Type 0
Endings = ℕ → String → Ending

abbrev pub flush_all : Feed → Target → List (List IngestEvent) → Watcher → Watcher
flush_all f t [] w = w
flush_all f t (events ∷ more) w = flush_all f t more (flush f t events w)

abbrev pub mark : Feed → Target → Option Time → Watcher → Watcher
mark f t none w = w
mark f t (some started) w = send_marker f t started w

-- `running.cancel(); <-running.done`
unfoldable pub end_watch : Feed → Target → Ending → Watcher → Watcher
unfolding flush send_marker
end_watch f t e w = mark f t e.marked (flush_all f t e.flushed w)

-- The watches that run, the state of the sender, and the number of readings of the clock.
pub record Watches : Type 0 where
  pub running : List String
  pub watcher : Watcher
  pub readings : ℕ

-- `for namespace := range wanted`: a watch for each one that has none.
unfoldable pub start_watches : List String → List String → List String
start_watches [] running = running
start_watches (namespace ∷ wanted) running =
    start_watches wanted (if has running namespace then running else running ++ namespace ∷ [])

abbrev pub stop_watch : Feed → (ℕ → Time) → Endings → Gvr → String → Watches → Watches
stop_watch f clock endings gvr namespace w =
    let target : Target = record { gvr = gvr; namespace = namespace } in
    record {
      running = select (λ n. not (str_eq n namespace)) w.running;
      watcher =
          send_marker f target (clock w.readings)
            (end_watch f target (endings w.readings namespace) w.watcher);
      readings = suc w.readings;
    }

-- `for namespace, running := range watchers`: the watch of a namespace that is no longer wanted is
-- stopped, and only then is its marker sent.
unfoldable pub stop_watches :
    Feed → (ℕ → Time) → Endings → Gvr → List String → List String → Watches → Watches
unfolding send_marker end_watch
stop_watches f clock endings gvr wanted [] w = w
stop_watches f clock endings gvr wanted (namespace ∷ names) w =
    stop_watches f clock endings gvr wanted names
      (if has wanted namespace then w else stop_watch f clock endings gvr namespace w)

-- The closure `reconcile` of watchNamespaces.
unfoldable pub reconcile_watches :
    Feed → (ℕ → Time) → Endings → Gvr → List String → Watches → Watches
unfolding start_watches stop_watches
reconcile_watches f clock endings gvr wanted w =
    let started = start_watches wanted w.running in
    stop_watches f clock endings gvr wanted started (record w { running = started })

-- (*Collector).watchNamespaces, as far as the changes of the shard's namespaces have come.
unfoldable pub watch_namespaces :
    Feed → (ℕ → Time) → Endings → Gvr → List (List String) → Watches → Watches
unfolding reconcile_watches
watch_namespaces f clock endings gvr [] w = w
watch_namespaces f clock endings gvr (wanted ∷ changes) w =
    watch_namespaces f clock endings gvr changes (reconcile_watches f clock endings gvr wanted w)

has-snoc : (l : List String) (a n : String) → has (l ++ a ∷ []) n ≡ (has l n || str_eq a n)
unfolding has
has-snoc [] a n = ground arith
has-snoc (x ∷ l) a n = ground (arith, has-snoc l a n)

start_watches-has :
    (wanted running : List String) (n : String)
    → has (start_watches wanted running) n ≡ (has running n || has wanted n)
unfolding start_watches has
start_watches-has [] running n = ground arith
start_watches-has (a ∷ wanted) running n = elim (Bool-cases (has running a)) [
  | inl e ↦ rw e (ground (arith, e, start_watches-has wanted running n, eq_iff a n))
  | inr e ↦
      rw e (ground (arith, start_watches-has wanted (running ++ a ∷ []) n, has-snoc running a n))
]

has-select :
    (l : List String) (a n : String)
    → has (select (λ m. not (str_eq m a)) l) n ≡ (has l n && not (str_eq a n))
unfolding has
has-select [] a n = refl
has-select (x ∷ l) a n = ground (arith, has-select l a n, eq_iff x a, eq_iff x n, eq_iff a n)

has-cons : (a n : String) (l : List String) → has (a ∷ l) n ≡ (str_eq a n || has l n)
unfolding has
has-cons a n l = refl

has-nil : (n : String) → has [] n ≡ false
unfolding has
has-nil n = refl

stop_watches-has :
    (f : Feed) (clock : ℕ → Time) (endings : Endings) (gvr : Gvr) (wanted names : List String)
    (w : Watches) (n : String)
    → has (stop_watches f clock endings gvr wanted names w).running n
      ≡ (has w.running n && not (has names n && not (has wanted n)))
unfolding stop_watches
stop_watches-has f clock endings gvr wanted [] w n = ground (arith, has-nil n)
stop_watches-has f clock endings gvr wanted (a ∷ names) w n = elim (Bool-cases (has wanted a)) [
  | inl e ↦
      rw (e, stop_watches)
        (ground (
          arith,
          e,
          has-cons a n names,
          stop_watches-has f clock endings gvr wanted names w n,
          eq_iff a n,
        ))
  | inr e ↦
      rw (e, stop_watches)
        (ground (
          arith,
          e,
          has-cons a n names,
          stop_watches-has f clock endings gvr wanted names (stop_watch f clock endings gvr a w) n,
          has-select w.running a n,
          eq_iff a n,
        ))
]

-- What the ending of a watch sends, with the batches that are not empty.
abbrev pub last_batches : Feed → Target → List (List IngestEvent) → List IngestBatch
last_batches f t [] = []
last_batches f t ([] ∷ more) = last_batches f t more
last_batches f t ((e ∷ events) ∷ more) = batch_of f t (e ∷ events) ∷ last_batches f t more

abbrev pub last_marker : Feed → Target → Option Time → List IngestBatch
last_marker f t none = []
last_marker f t (some started) = reconcile_batch f.calls.ids f.cluster (shard_name f t) started ∷ []

abbrev pub ended : Feed → Target → Ending → List IngestBatch
ended f t e = last_batches f t e.flushed ++ last_marker f t e.marked

-- What the namespaces whose watches are stopped lead to: the last batches of each, and its marker.
abbrev pub farewells : Feed → (ℕ → Time) → Endings → Gvr → ℕ → List String → List IngestBatch
farewells f clock endings gvr k [] = []
farewells f clock endings gvr k (namespace ∷ names) =
    let t : Target = record { gvr = gvr; namespace = namespace } in
    ended f t (endings k namespace)
    ++ (reconcile_batch f.calls.ids f.cluster (shard_name f t) (clock k)
        ∷ farewells f clock endings gvr (suc k) names)

abbrev pub unwanted : List String → List String → List String
unwanted wanted = select (λ n. not (has wanted n))

flush_all-sent :
    (f : Feed) (t : Target) (batches : List (List IngestEvent)) (w : Watcher)
    → (flush_all f t batches w).sent ≡ w.sent ++ last_batches f t batches
unfolding flush
flush_all-sent f t [] w = sym (append-nil w.sent)
flush_all-sent f t ([] ∷ more) w = flush_all-sent f t more w
flush_all-sent f t ((e ∷ events) ∷ more) w =
    flush_all-sent f t more (flush f t (e ∷ events) w)
    ∙ append_assoc w.sent (batch_of f t (e ∷ events) ∷ []) (last_batches f t more)

mark-sent :
    (f : Feed) (t : Target) (m : Option Time) (w : Watcher)
    → (mark f t m w).sent ≡ w.sent ++ last_marker f t m
unfolding send_marker
mark-sent f t none w = sym (append-nil w.sent)
mark-sent f t (some started) w = refl

end_watch-sent :
    (f : Feed) (t : Target) (e : Ending) (w : Watcher)
    → (end_watch f t e w).sent ≡ w.sent ++ ended f t e
unfolding end_watch
end_watch-sent f t e w =
    mark-sent f t e.marked (flush_all f t e.flushed w)
    ∙ ap (λ l. l ++ last_marker f t e.marked) (flush_all-sent f t e.flushed w)
    ∙ append_assoc w.sent (last_batches f t e.flushed) (last_marker f t e.marked)

stop_watches-sent :
    (f : Feed) (clock : ℕ → Time) (endings : Endings) (gvr : Gvr) (wanted names : List String)
    (w : Watches)
    → (stop_watches f clock endings gvr wanted names w).watcher.sent
      ≡ w.watcher.sent ++ farewells f clock endings gvr w.readings (unwanted wanted names)
unfolding stop_watches send_marker
stop_watches-sent f clock endings gvr wanted [] w = sym (append-nil w.watcher.sent)
stop_watches-sent f clock endings gvr wanted (a ∷ names) w = elim (Bool-cases (has wanted a)) [
  | inl e ↦ rw (e, stop_watches) (stop_watches-sent f clock endings gvr wanted names w)
  | inr e ↦
      let t : Target = record { gvr = gvr; namespace = a } in
      let last = ended f t (endings w.readings a) in
      let marker = reconcile_batch f.calls.ids f.cluster (shard_name f t) (clock w.readings) in
      let rest = farewells f clock endings gvr (suc w.readings) (unwanted wanted names) in
      rw (e, stop_watches)
        (stop_watches-sent f clock endings gvr wanted names (stop_watch f clock endings gvr a w)
          ∙ ap (λ l. (l ++ marker ∷ []) ++ rest)
              (end_watch-sent f t (endings w.readings a) w.watcher)
          ∙ append_assoc (w.watcher.sent ++ last) (marker ∷ []) rest
          ∙ append_assoc w.watcher.sent last (marker ∷ rest))
]

kept :
    (running wanted : Bool)
    → ((running || wanted) && not ((running || wanted) && not wanted)) ≡ wanted
kept running wanted = ground arith

-- After the reconciliation of a lease shard's watches exactly the wanted namespaces are watched. Beside
-- what the watches that go on send, the sender has got, for each namespace whose watch was stopped,
-- the batches and the marker that its watch still sent until it was done, and then one reconcile marker.
pub reconcile_watches_lem :
    (f : Feed) (clock : ℕ → Time) (endings : Endings) (gvr : Gvr) (wanted : List String)
    (w : Watches)
    → ((n : String) → has (reconcile_watches f clock endings gvr wanted w).running n ≡ has wanted n)
      × ((reconcile_watches f clock endings gvr wanted w).watcher.sent
          ≡ w.watcher.sent
            ++ farewells f clock endings gvr w.readings
                (unwanted wanted (start_watches wanted w.running)))
unfolding reconcile_watches
reconcile_watches_lem f clock endings gvr wanted w =
    let started = start_watches wanted w.running in
    let w' = record w { running = started } in
    (
      λ n.
          stop_watches-has f clock endings gvr wanted started w' n
          ∙ ap (λ b. b && not (b && not (has wanted n))) (start_watches-has wanted w.running n)
          ∙ kept (has w.running n) (has wanted n),
      stop_watches-sent f clock endings gvr wanted started w',
    )
