-- ===== src/Sender/Spool.antt =====
-- client.go: the Sender with its spool directory. What the environment answers at each call (the
-- ingest API, the filesystem, the context, the clock and the UUID generator) is a function of the
-- number of calls before it. The directory holds the files that replay reads, as os.ReadDir lists
-- them; a file's name is the number that the digits of its timestamp and its UUID spell, whose
-- order is that of the text. A file has the batch that its JSON decodes to, or none.
-- The mutex makes spool and replay atomic. Metrics other than the blocked flag are left out.
pub mod Steps
pub mod Grown
pub mod Taken
pub mod Fifo
pub mod Returns
use icinga_kubernetes.Common.{
  ℕ, zero, suc, ◌+◌, ◌-◌, ltb, leb, ◌==◌, not, is_none, Bool, true, false, Option, none, some, List,
  [], ◌∷◌, ◌++◌, sort, String, if◌then◌else◌,
}
use icinga_kubernetes.Common.Table.{select}
use icinga_kubernetes.Common.Result.{Result, ok, err}
use icinga_kubernetes.Model.{IngestBatch}
use icinga_kubernetes.Sender.Split.{Encoder, SplitError, split_batch, max_ingest_batch_bytes}
use icinga_kubernetes.Sender.Space.{SpoolDiskSpace, can_write}

pub record SpoolFile : Type 0 where
  pub name : ℕ
  pub content : Option IngestBatch
  pub size : ℕ

-- ENOSPC or EDQUOT, or another error of the filesystem.
pub data FileError : Type 0 where
  exhausted failed : FileError

pub data SendError : Type 0 where
  spool_full file_failed encode_failed invalid_spool_file rejected cancelled : SendError
  split_failed : SplitError → SendError

pub record World : Type 0 where
  pub encoder : Encoder
  pub marshal : IngestBatch → Option ℕ
  pub max_bytes : ℕ
  pub accepts : ℕ → IngestBatch → Bool
  pub answers : ℕ → Bool
  pub cancels : ℕ → Bool
  pub lists : ℕ → Bool
  pub reads : ℕ → Bool
  pub removes : ℕ → Bool
  pub makes_directory : ℕ → Option FileError
  pub disk_space : ℕ → Result FileError SpoolDiskSpace
  pub writes : ℕ → Option FileError
  pub new_name : ℕ → ℕ

-- `delivered` are the batches that the API has confirmed, and `stored` those that it has accepted,
-- confirmed or not, both the latest first.
pub record Sender : Type 0 where
  pub calls : ℕ
  pub files : List SpoolFile
  pub spool_files : ℕ
  pub spool_bytes : ℕ
  pub blocked : Bool
  pub delivered : List IngestBatch
  pub stored : List IngestBatch

-- The state after a call, and the error that it returns.
abbrev pub Outcome : Type 0
Outcome = Sender × Option SendError

-- `if err != nil { return err }`
abbrev pub and_then : Outcome → (Sender → Outcome) → Outcome
and_then (s, none) k = k s
and_then (s, some x) k = (s, some x)

abbrev pub called : Sender → Sender
called s = record s { calls = suc s.calls }

-- The API accepts the batch, and its answer arrives.
abbrev pub confirm : IngestBatch → Sender → Sender
confirm batch s = record s {
  blocked = false;
  delivered = batch ∷ s.delivered;
  stored = batch ∷ s.stored;
}

-- The API accepts the batch, but its answer is lost: an error of client.Do.
abbrev pub lose_answer : IngestBatch → Sender → Sender
lose_answer batch s = record s { stored = batch ∷ s.stored }

-- (*Sender).post
unfoldable pub post : World → IngestBatch → Sender → Outcome
post w batch s = elim (w.marshal batch) [
  | none ↦ (s, some SendError.encode_failed)
  | some size ↦
      if w.accepts s.calls batch
      then (if w.answers s.calls
          then (confirm batch (called s), none)
          else (lose_answer batch (called s), some SendError.rejected))
      else (called s, some SendError.rejected)
]

abbrev pub named : ℕ → SpoolFile → Bool
named n f = f.name == n

-- os.Remove and the counters of what the spool holds, which a file's removal never takes below 0
-- while they count the files in the directory.
unfoldable pub drop_file : SpoolFile → Sender → Sender
drop_file f s = record (called s) {
  files = select (λ g. not (named f.name g)) s.files;
  spool_files = s.spool_files - 1;
  spool_bytes = s.spool_bytes - f.size;
}

abbrev pub remove_file : World → SpoolFile → Sender → Outcome
remove_file w f s =
    if w.removes s.calls then (drop_file f s, none) else (called s, some SendError.file_failed)

-- One round of replay's loop: read, decode, post, remove.
unfoldable pub replay_file : World → SpoolFile → Sender → Outcome
replay_file w f s =
    if w.reads s.calls
    then (elim f.content [
      | none ↦ (called s, some SendError.invalid_spool_file)
      | some batch ↦ and_then (post w batch (called s)) (remove_file w f)
    ])
    else (called s, some SendError.file_failed)

unfoldable pub replay_files : World → List SpoolFile → Sender → Outcome
replay_files w [] s = (s, none)
replay_files w (f ∷ fs) s = and_then (replay_file w f s) (replay_files w fs)

-- sort.Strings
abbrev pub by_name : SpoolFile → SpoolFile → Bool
by_name f g = leb f.name g.name

-- (*Sender).replay
unfoldable pub replay : World → Sender → Outcome
replay w s =
    if w.lists s.calls
    then replay_files w (sort by_name s.files) (called s)
    else (called s, some SendError.file_failed)

abbrev pub full : Sender → Outcome
full s = (record s { blocked = true }, some SendError.spool_full)

-- The deferred function of spool: storage that is exhausted counts as a full spool.
abbrev pub fail_spool : FileError → Sender → Outcome
fail_spool FileError.exhausted s = full s
fail_spool FileError.failed s = (s, some SendError.file_failed)

abbrev pub add_file : World → IngestBatch → ℕ → Sender → Sender
add_file w batch size s = record (called s) {
  files = s.files ++ record { name = w.new_name s.calls; content = some batch; size = size } ∷ [];
  spool_files = s.spool_files + 1;
  spool_bytes = s.spool_bytes + size;
  blocked = false;
}

-- The file under its temporary name is written, synced, closed and renamed, or removed.
unfoldable pub write_file : World → IngestBatch → ℕ → Sender → Outcome
write_file w batch size s = elim (w.writes s.calls) [
  | some x ↦ fail_spool x (called s)
  | none ↦ (add_file w batch size s, none)
]

-- From the capacity check on.
unfoldable pub admit : World → IngestBatch → ℕ → Sender → Outcome
admit w batch size s =
    if ltb w.max_bytes (s.spool_bytes + size) then full s else elim (w.disk_space s.calls) [
      | err x ↦ fail_spool x (called s)
      | ok space ↦
          if can_write space size then write_file w batch size (called s) else full (called s)
    ]

-- (*Sender).spool
unfoldable pub spool : World → IngestBatch → Sender → Outcome
spool w batch s = elim (w.makes_directory s.calls) [
  | some x ↦ fail_spool x (called s)
  | none ↦ elim (w.marshal batch) [
    | none ↦ (called s, some SendError.encode_failed)
    | some size ↦ admit w batch size (called s)
  ]
]

-- `s.replay(ctx) == nil && s.post(ctx, batch) == nil`
unfoldable pub deliver : World → IngestBatch → Sender → Outcome
deliver w batch s = and_then (replay w s) (post w batch)

-- After a spool: a full one makes the caller deliver, and its errors leave the spool full.
abbrev pub or_deliver : World → IngestBatch → Outcome → Outcome
or_deliver w batch (s, some SendError.spool_full) =
    let (s', result) = deliver w batch s in
    if is_none result
    then (record s' { blocked = false }, none)
    else (s', some SendError.spool_full)
or_deliver w batch (s, result) = (s, result)

-- A round of spoolWithBackpressure behind its look at the context.
unfoldable pub attempt : World → IngestBatch → Sender → Outcome
attempt w batch s = or_deliver w batch (spool w batch s)

-- A call that has returned, or whose loop still runs when the fuel is out.
pub data Run : Type 0 where
  returned : Outcome → Run
  running : Sender → Run

abbrev pub is_full : Option SendError → Bool
is_full none = false
is_full (some SendError.spool_full) = true
is_full (some x) = false

-- (*Sender).spoolWithBackpressure, for at most `fuel` rounds. The wait of a second ends at once
-- when the context does, which the next round sees.
unfoldable pub spool_with_backpressure : ℕ → World → IngestBatch → Sender → Run
spool_with_backpressure zero w batch s = running s
spool_with_backpressure (suc fuel) w batch s =
    let (s', result) = attempt w batch (called s) in
    let again = spool_with_backpressure fuel w batch s' in
    if w.cancels s.calls
    then returned (called s, some SendError.cancelled)
    else if is_full result
    then again
    else returned (s', result)

-- (*Sender).sendChunk
unfoldable pub send_chunk : ℕ → World → IngestBatch → Sender → Run
send_chunk fuel w batch s =
    let (s', result) = deliver w batch s in
    if is_none result then returned (s', none) else spool_with_backpressure fuel w batch s'

abbrev pub and_continue : Run → (Sender → Run) → Run
and_continue (returned (s, none)) k = k s
and_continue r k = r

unfoldable pub send_chunks : ℕ → World → List IngestBatch → Sender → Run
send_chunks fuel w [] s = returned (s, none)
send_chunks fuel w (b ∷ bs) s = and_continue (send_chunk fuel w b s) (send_chunks fuel w bs)

-- (*Sender).Send
unfoldable pub send : ℕ → World → IngestBatch → Sender → Run
send fuel w batch s = elim (split_batch w.encoder batch max_ingest_batch_bytes) [
  | err x ↦ returned (s, some (SendError.split_failed x))
  | ok chunks ↦ send_chunks fuel w chunks s
]
