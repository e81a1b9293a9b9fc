-- ===== src/Tests/Sending.antt =====
-- The sender against an API that refuses its first two requests.
use icinga_kubernetes.Common.{
  ◌+◌, ◌≡◌, refl, arith, leb, le→leb, true, false, none, some, List, [], ◌∷◌, All,
}
use icinga_kubernetes.Common.Result.{ok}
use icinga_kubernetes.Model.{IngestBatch}
use icinga_kubernetes.Sender.Split.{Encoder, split_batch, split_events, add_event}
use icinga_kubernetes.Sender.Split.Fits.{IsChunk, all_events, split_batch-IsChunk}
use icinga_kubernetes.Sender.Space.{SpoolDiskSpace}
use icinga_kubernetes.Sender.Spool.{Sender, World, send}
use icinga_kubernetes.Sender.Spool.Steps.{IsValid}
use icinga_kubernetes.Sender.Spool.Fifo.{SentOf, or_none, send-SentOf}
use icinga_kubernetes.Sender.Spool.Returns.{has_returned, send-returns}
use icinga_kubernetes.Tests.Data.{batch, pod}

abbrev encoder : Encoder
encoder = record { event_size = λ _. some 100; empty_size = λ c s. some 40 }

-- Room for one event of 100 bytes beside the 40 of the envelope.
abbrev halves : List IngestBatch
halves =
    record batch { events = record { event_id = "a"; action = "upsert"; resource = pod } ∷ [] }
    ∷ record batch { events = record { event_id = "bb"; action = "delete"; resource = pod } ∷ [] }
    ∷ []

split_test : split_batch encoder batch 150 ≡ ok halves
unfolding split_batch split_events add_event
split_test = refl

split_batch-IsChunk_example :
    All (IsChunk encoder batch 150) halves × (all_events halves ≡ batch.events)
split_batch-IsChunk_example = split_batch-IsChunk encoder batch 150 halves (omega arith) split_test

abbrev disk : SpoolDiskSpace
disk = record { available = 1_000_000_000; total = 2_000_000_000; free_inodes = 500; inodes = 1000 }

abbrev world : World
world = record {
  encoder = encoder;
  marshal = λ _. some 240;
  max_bytes = 1000;
  accepts = λ n _. leb 5 n;
  answers = λ _. true;
  cancels = λ n. leb 50 n;
  lists = λ _. true;
  reads = λ _. true;
  removes = λ _. true;
  makes_directory = λ _. none;
  disk_space = λ _. ok disk;
  writes = λ _. none;
  new_name = λ n. 100 + n;
}

abbrev fresh_sender : Sender
fresh_sender = record {
  calls = 0;
  files = [];
  spool_files = 0;
  spool_bytes = 0;
  blocked = false;
  delivered = [];
  stored = [];
}

fresh_sender-IsValid : IsValid world fresh_sender
fresh_sender-IsValid = record {
  ascending = tt;
  older = tt;
  files = omega arith;
  bytes = omega arith;
}

send-SentOf_example :
    SentOf world
      (or_none (split_batch encoder batch 2_031_616))
      fresh_sender
      (send 60 world batch fresh_sender)
send-SentOf_example =
    send-SentOf world (λ n. omega arith) (λ n. refl) 60 batch fresh_sender fresh_sender-IsValid

send-returns_example : has_returned (send 60 world batch fresh_sender) ≡ true
send-returns_example =
    send-returns world 50 (λ n e. le→leb 50 n e) 60 batch fresh_sender (omega arith)
