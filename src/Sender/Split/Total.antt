-- ===== src/Sender/Split/Total.antt =====
-- client.go: which batches splitBatch cuts.
use icinga_kubernetes.Common.{
  ℕ, ◌+◌, ◌-◌, ◌≤◌, ◌≡◌, refl, inl, inr, is_empty, false, true, some, List, [], ◌∷◌, ◌++◌, All,
  arith, Option-cases, is_some,
}
use icinga_kubernetes.Common.Result.{ok}
use icinga_kubernetes.Model.{IngestEvent, IngestBatch}
use icinga_kubernetes.Sender.Split.{
  Encoder, Chunking, add_event, split_events, split_batch, no_events,
}
use icinga_kubernetes.Sender.Split.Fits.{size_of}

-- An event that encodes to a text that fits into a request of its own.
abbrev pub FitsAlone : Encoder → ℕ → ℕ → IngestEvent → Type 0
FitsAlone j empty limit e =
    (is_some (j.event_size e) ≡ true) × (empty - 2 + size_of j e + 2 ≤ limit)

split_events-total :
    (j : Encoder) (limit empty index : ℕ) (es : List IngestEvent) (c : Chunking)
    → All (FitsAlone j empty limit) es
    → (c' : Chunking) × (split_events j limit (empty - 2) index es c ≡ ok c')
unfolding split_events
split_events-total j limit empty index [] c fit = (c, refl)
split_events-total j limit empty index (x ∷ es) c ((some_x, small), fit) =
    elim (Option-cases (j.event_size x)) [
      | inl n ↦ absurd (ground (arith, some_x, n))
      | inr (size, n) ↦
          let (c', rest) =
            split_events-total j limit empty (index + 1) es (add_event limit (empty - 2) size x c)
              fit in
          (c', ground (arith, rest, n, small))
    ]

-- splitBatch cuts every batch with events whose envelope encodes and each of whose events encodes
-- to a text that fits into a request of its own.
pub split_batch-total :
    (j : Encoder) (batch : IngestBatch) (limit empty : ℕ)
    → is_empty batch.events ≡ false
    → j.empty_size batch.cluster batch.shard ≡ some empty
    → All (FitsAlone j empty limit) batch.events
    → (bs : List IngestBatch) × (split_batch j batch limit ≡ ok bs)
unfolding split_batch
split_batch-total j batch limit empty busy n fit =
    let start : Chunking = record {
      chunks = [];
      current = no_events batch;
      current_bytes = empty - 2;
    } in
    let (c, f) = split_events-total j limit empty 0 batch.events start fit in
    (c.chunks ++ c.current ∷ [], ground (arith, busy, n, f))
