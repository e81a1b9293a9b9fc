-- ===== src/Sender/Split/Fits.antt =====
-- client.go: what splitBatch promises of the requests it cuts.
use icinga_kubernetes.Common.{
  ℕ, ◌+◌, ◌-◌, ◌≤◌, ◌≡◌, refl, ap, sym, ◌&&◌, ◌∙◌, subst, inl, inr, is_empty, false, true, or_else,
  List, [], ◌∷◌, ◌++◌, All, All-append, arith, Option-cases, Bool-cases, if◌then◌else◌,
}
use icinga_kubernetes.Common.Result.{ok, Result-cases}
use icinga_kubernetes.Model.{IngestEvent, IngestBatch}
use icinga_kubernetes.Sender.Split.{
  Encoder, Chunking, add_event, start_chunk, extend_chunk, separator, is_full, split_events,
  split_batch, no_events,
}

abbrev pub size_of : Encoder → IngestEvent → ℕ
size_of j e = or_else (j.event_size e) 0

-- The length of a JSON array's elements with their commas.
abbrev pub elements : Encoder → List IngestEvent → ℕ
elements j [] = 0
elements j (e ∷ []) = size_of j e
elements j (e ∷ e' ∷ es) = size_of j e + 1 + elements j (e' ∷ es)

-- The length of a batch: the envelope with an empty array, and the elements in it.
abbrev pub batch_size : Encoder → IngestBatch → ℕ
batch_size j b = or_else (j.empty_size b.cluster b.shard) 0 + elements j b.events

abbrev pub all_events : List IngestBatch → List IngestEvent
all_events [] = []
all_events (b ∷ bs) = b.events ++ all_events bs

elements-append :
    (j : Encoder) (es : List IngestEvent) (e : IngestEvent)
    → elements j (es ++ e ∷ []) ≡ elements j es + (if is_empty es then 0 else 1) + size_of j e
elements-append j [] e = omega arith
elements-append j (a ∷ []) e = omega arith
elements-append j (a ∷ b ∷ es) e = omega (arith, elements-append j (b ∷ es) e)

elements-empty : (j : Encoder) (es : List IngestEvent) → is_empty es ≡ true → elements j es ≡ 0
elements-empty j [] n = refl
elements-empty j (e ∷ es) n = absurd (ground arith)

append_nil : (es : List IngestEvent) → es ++ [] ≡ es
append_nil [] = refl
append_nil (e ∷ es) = ap (λ l. e ∷ l) (append_nil es)

append_assoc : (xs ys zs : List IngestEvent) → (xs ++ ys) ++ zs ≡ xs ++ (ys ++ zs)
append_assoc [] ys zs = refl
append_assoc (x ∷ xs) ys zs = ap (λ l. x ∷ l) (append_assoc xs ys zs)

all_events-append :
    (bs : List IngestBatch) (b : IngestBatch)
    → all_events (bs ++ b ∷ []) ≡ all_events bs ++ b.events
all_events-append [] b = append_nil b.events
all_events-append (a ∷ bs) b =
    ap (λ l. a.events ++ l) (all_events-append bs b)
    ∙ sym (append_assoc a.events (all_events bs) b.events)

-- A request of the batch's own shard, with events, within the limit.
pub record IsChunk (j : Encoder) (batch : IngestBatch) (limit : ℕ) (b : IngestBatch) : Type 0 where
  pub cluster : b.cluster ≡ batch.cluster
  pub shard : b.shard ≡ batch.shard
  pub events : is_empty b.events ≡ false
  pub size : batch_size j b ≤ limit

record IsCut (j : Encoder) (batch : IngestBatch) (base limit : ℕ) (done : List IngestEvent)
    (c : Chunking) : Type 0 where
  chunks : All (IsChunk j batch limit) c.chunks
  cluster : c.current.cluster ≡ batch.cluster
  shard : c.current.shard ≡ batch.shard
  bytes : c.current_bytes ≡ base + elements j c.current.events
  fits : is_empty c.current.events ≡ false → c.current_bytes + 2 ≤ limit
  complete : all_events c.chunks ++ c.current.events ≡ done

module _ (j : Encoder) (batch : IngestBatch) (base limit : ℕ)
    (envelope : or_else (j.empty_size batch.cluster batch.shard) 0 ≡ base + 2) where
  current-IsChunk :
      (done : List IngestEvent) (c : Chunking)
      → IsCut j batch base limit done c
      → is_empty c.current.events ≡ false
      → IsChunk j batch limit c.current
  current-IsChunk done c v busy = record {
    cluster = v.cluster;
    shard = v.shard;
    events = busy;
    size =
        let q = v.fits busy in
        let b = v.bytes in
        let k = v.cluster in let s = v.shard in rw (k, s) (rw envelope (omega (arith, q, b)));
  }

  start_chunk-IsCut :
      (done : List IngestEvent) (e : IngestEvent) (c : Chunking)
      → base + size_of j e + 2 ≤ limit
      → is_empty c.current.events ≡ false
      → IsCut j batch base limit done c
      → IsCut j batch base limit (done ++ e ∷ []) (start_chunk base (size_of j e) e c)
  start_chunk-IsCut done e c small busy v = record {
    chunks =
        All-append (IsChunk j batch limit) c.chunks (c.current ∷ []) v.chunks
          (current-IsChunk done c v busy, tt);
    cluster = v.cluster;
    shard = v.shard;
    bytes = refl;
    fits = λ _. small;
    complete = rw (all_events-append c.chunks c.current, v.complete) refl;
  }

  extend_fits :
      (done : List IngestEvent) (e : IngestEvent) (c : Chunking)
      → base + size_of j e + 2 ≤ limit
      → is_full limit (size_of j e) c ≡ false
      → IsCut j batch base limit done c
      → c.current_bytes + (separator c + size_of j e) + 2 ≤ limit
  extend_fits done e c small f v =
      let b = v.bytes in
      elim (Bool-cases (is_empty c.current.events)) [
        | inl n ↦ ground (arith, elements-empty j c.current.events n, n, b)
        | inr n ↦ ground (arith, f, n)
      ]

  extend_chunk-IsCut :
      (done : List IngestEvent) (e : IngestEvent) (c : Chunking)
      → base + size_of j e + 2 ≤ limit
      → is_full limit (size_of j e) c ≡ false
      → IsCut j batch base limit done c
      → IsCut j batch base limit (done ++ e ∷ []) (extend_chunk (size_of j e) e c)
  extend_chunk-IsCut done e c small f v = record {
    chunks = v.chunks;
    cluster = v.cluster;
    shard = v.shard;
    bytes = let b = v.bytes in omega (arith, b, elements-append j c.current.events e);
    fits = λ _. let b = v.bytes in extend_fits done e c small f v;
    complete =
        sym (append_assoc (all_events c.chunks) c.current.events (e ∷ []))
        ∙ ap (λ l. l ++ e ∷ []) v.complete;
  }

  add_event-IsCut :
      (done : List IngestEvent) (e : IngestEvent) (c : Chunking)
      → base + size_of j e + 2 ≤ limit
      → IsCut j batch base limit done c
      → IsCut j batch base limit (done ++ e ∷ []) (add_event limit base (size_of j e) e c)
  unfolding add_event
  add_event-IsCut done e c small v = elim (Bool-cases (is_full limit (size_of j e) c)) [
    | inl f ↦ rw f (start_chunk-IsCut done e c small (ground (arith, f)) v)
    | inr f ↦ rw f (extend_chunk-IsCut done e c small f v)
  ]

  split_events-IsCut :
      (index : ℕ) (done es : List IngestEvent) (c c' : Chunking)
      → IsCut j batch base limit done c
      → split_events j limit base index es c ≡ ok c'
      → IsCut j batch base limit (done ++ es) c'
  unfolding split_events
  split_events-IsCut index done [] c c' v e =
      rw (append_nil done) (subst (λ x. IsCut j batch base limit done x) (ground (arith, e)) v)
  split_events-IsCut index done (x ∷ es) c c' v e = elim (Option-cases (j.event_size x)) [
    | inl n ↦ absurd (ground arith)
    | inr (size, n) ↦
        let small : base + size_of j x + 2 ≤ limit = ground (arith, e, n) in
        let step : split_events j limit base (index + 1) es (add_event limit base (size_of j x) x c)
            ≡ ok c' =
          ground (arith, e, n) in
        subst (λ l. IsCut j batch base limit l c') (append_assoc done (x ∷ []) es)
          (split_events-IsCut (index + 1) (done ++ x ∷ []) es
            (add_event limit base (size_of j x) x c) c' (add_event-IsCut done x c small v) step)
  ]

add_event-busy :
    (limit base size : ℕ) (e : IngestEvent) (c : Chunking)
    → is_empty ((add_event limit base size e c).current.events) ≡ false
unfolding add_event
add_event-busy limit base size e c = elim (Bool-cases (is_full limit size c)) [
  | inl f ↦ rw f refl
  | inr f ↦ rw f (append-busy c.current.events)
]
  where
    append-busy : (es : List IngestEvent) → is_empty (es ++ e ∷ []) ≡ false
    append-busy [] = refl
    append-busy (x ∷ es) = refl

split_events-busy :
    (j : Encoder) (limit base index : ℕ) (es : List IngestEvent) (c c' : Chunking)
    → is_empty es && is_empty c.current.events ≡ false
    → split_events j limit base index es c ≡ ok c'
    → is_empty c'.current.events ≡ false
unfolding split_events
split_events-busy j limit base index [] c c' busy e = ground (arith, busy, e)
split_events-busy j limit base index (x ∷ es) c c' busy e = elim (Option-cases (j.event_size x)) [
  | inl n ↦ absurd (ground (arith, e, n))
  | inr (size, n) ↦
      let next = add_event limit base size x c in
      split_events-busy j limit base (index + 1) es next c'
        (ground (arith, add_event-busy limit base size x c)) (ground (arith, e, n))
]

-- splitBatch cuts, where it succeeds, into requests of the batch's cluster and shard that have
-- events and whose JSON text is within the limit, and whose events one after another are those of
-- the batch; given that the text of the empty envelope has its two brackets at least.
pub split_batch-IsChunk :
    (j : Encoder) (batch : IngestBatch) (limit : ℕ) (bs : List IngestBatch)
    → 2 ≤ or_else (j.empty_size batch.cluster batch.shard) 2
    → split_batch j batch limit ≡ ok bs
    → All (IsChunk j batch limit) bs × (all_events bs ≡ batch.events)
unfolding split_batch
split_batch-IsChunk j batch limit bs wide e =
    elim (Option-cases (j.empty_size batch.cluster batch.shard)) [
      | inl n ↦ absurd (ground (arith, e, n))
      | inr (empty, n) ↦
          let base = empty - 2 in
          let busy : is_empty batch.events ≡ false = ground (arith, e, n) in
          let start : Chunking = record {
            chunks = [];
            current = no_events batch;
            current_bytes = base;
          } in
          elim (Result-cases (split_events j limit base 0 batch.events start)) [
            | inr (x, f) ↦ absurd (ground (arith, e, n, f))
            | inl (c, f) ↦
                let envelope : or_else (j.empty_size batch.cluster batch.shard) 0 ≡ base + 2 =
                  ground (arith, n, wide) in
                let v =
                  split_events-IsCut j batch base limit envelope 0 [] batch.events start c
                    (record {
                      chunks = tt;
                      cluster = refl;
                      shard = refl;
                      bytes = omega arith;
                      fits = λ q. absurd (ground (arith, q));
                      complete = refl;
                    })
                    f in
                let last = current-IsChunk j batch base limit envelope batch.events c v (
                  split_events-busy j limit base 0 batch.events start c (ground (arith, busy)) f) in
                let out : c.chunks ++ c.current ∷ [] ≡ bs = ground (arith, e, n, f) in
                subst (λ l. All (IsChunk j batch limit) l × (all_events l ≡ batch.events)) out
                  (
                    All-append (IsChunk j batch limit) c.chunks (c.current ∷ []) v.chunks
                        (last, tt),
                    all_events-append c.chunks c.current ∙ v.complete,
                  )
          ]
    ]
