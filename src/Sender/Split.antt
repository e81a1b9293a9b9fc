-- ===== src/Sender/Split.antt =====
-- client.go: splitBatch, which cuts a batch into requests of a bounded size. The length of an
-- encoded event and of the envelope of a batch, what encoding/json returns, are parameters.
pub mod Fits
pub mod Total
use icinga_kubernetes.Common.{
  ℕ, zero, ◌+◌, ◌-◌, ltb, ◌&&◌, not, is_empty, none, some, Bool, Option, List, [], ◌∷◌, ◌++◌,
  String, if◌then◌else◌,
}
use icinga_kubernetes.Common.Result.{Result, ok, err, refuse, ◌>>=◌, ◌>>◌}
use icinga_kubernetes.Model.{IngestEvent, IngestBatch}

-- The length of the JSON text, or none where json.Marshal fails.
pub record Encoder : Type 0 where
  pub event_size : IngestEvent → Option ℕ
  pub empty_size : String → String → Option ℕ

pub data SplitError : Type 0 where
  empty_batch envelope_failed : SplitError
  encode_failed too_large : ℕ → SplitError

abbrev pub max_ingest_batch_bytes : ℕ
max_ingest_batch_bytes = 2_097_152 - 65_536

-- The chunks that are complete, and the one that is filled.
pub record Chunking : Type 0 where
  pub chunks : List IngestBatch
  pub current : IngestBatch
  pub current_bytes : ℕ

abbrev pub no_events : IngestBatch → IngestBatch
no_events b = record b { events = [] }

-- chunks = append(chunks, current), and a new current chunk with the event.
abbrev pub start_chunk : ℕ → ℕ → IngestEvent → Chunking → Chunking
start_chunk base size event c = record {
  chunks = c.chunks ++ c.current ∷ [];
  current = record c.current { events = event ∷ [] };
  current_bytes = base + size;
}

abbrev pub separator : Chunking → ℕ
separator c = if is_empty c.current.events then 0 else 1

abbrev pub extend_chunk : ℕ → IngestEvent → Chunking → Chunking
extend_chunk size event c = record c {
  current = record c.current { events = c.current.events ++ event ∷ [] };
  current_bytes = c.current_bytes + (separator c + size);
}

abbrev pub is_full : ℕ → ℕ → Chunking → Bool
is_full limit size c =
    not (is_empty c.current.events) && ltb limit (c.current_bytes + separator c + size + 2)

-- One round of the loop over the events.
unfoldable pub add_event : ℕ → ℕ → ℕ → IngestEvent → Chunking → Chunking
add_event limit base size event c =
    if is_full limit size c then start_chunk base size event c else extend_chunk size event c

unfoldable pub split_events :
    Encoder → ℕ → ℕ → ℕ → List IngestEvent → Chunking → Result SplitError Chunking
split_events j limit base index [] c = ok c
split_events j limit base index (e ∷ es) c = elim (j.event_size e) [
  | none ↦ err (SplitError.encode_failed index)
  | some size ↦
      let rest = split_events j limit base (index + 1) es (add_event limit base size e c) in
      if ltb limit (base + size + 2) then err (SplitError.too_large index) else rest
]

unfoldable pub split_batch : Encoder → IngestBatch → ℕ → Result SplitError (List IngestBatch)
split_batch j batch limit =
    if is_empty batch.events
    then err SplitError.empty_batch
    else elim (j.empty_size batch.cluster batch.shard) [
      | none ↦ err SplitError.envelope_failed
      | some empty ↦
          let base = empty - 2 in
          do
            c ←
                split_events j limit base 0 batch.events
                  (record { chunks = []; current = no_events batch; current_bytes = base })
            ok (c.chunks ++ c.current ∷ [])
    ]
