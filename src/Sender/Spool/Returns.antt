-- ===== src/Sender/Spool/Returns.antt =====
-- client.go: how long the loop of Send runs.
use icinga_kubernetes.Common.{
  ℕ, zero, suc, ◌+◌, ◌≤◌, ◌<◌, leb, leb→le, Bool, ◌≡◌, refl, true, false, none, some, List, [], ◌∷◌,
  inl, inr, Bool-cases, Option-cases, arith, sort,
}
use icinga_kubernetes.Common.Result.{Result-cases}
use icinga_kubernetes.Model.{IngestBatch}
use icinga_kubernetes.Sender.Spool.{
  SpoolFile, Sender, World, Outcome, SendError, Run, returned, running, called, and_then, post,
  drop_file, remove_file, replay_file, replay_files, by_name, replay, fail_spool, write_file, admit,
  spool, deliver, or_deliver, attempt, spool_with_backpressure, send_chunk, send_chunks, send,
  and_continue, FileError,
}
use icinga_kubernetes.Sender.Split.{split_batch, max_ingest_batch_bytes}

module _ (w : World) where
  post-calls : (b : IngestBatch) (s : Sender) → s.calls ≤ (post w b s).0.calls
  unfolding post
  post-calls b s = ground arith

  remove_file-calls : (f : SpoolFile) (s : Sender) → s.calls ≤ (remove_file w f s).0.calls
  unfolding drop_file
  remove_file-calls f s = ground arith

  and_then-calls :
      (n : ℕ) (o : Outcome) (k : Sender → Outcome)
      → n ≤ o.0.calls
      → ((s : Sender) → s.calls ≤ (k s).0.calls)
      → n ≤ (and_then o k).0.calls
  and_then-calls n (s, none) k a b = omega (arith, a, b s)
  and_then-calls n (s, some x) k a b = a

  replay_file-calls : (f : SpoolFile) (s : Sender) → s.calls ≤ (replay_file w f s).0.calls
  unfolding replay_file
  replay_file-calls f s = elim (Option-cases f.content) [
    | inl c ↦ ground (arith, c)
    | inr (b, c) ↦
        let p = post-calls b (called s) in
        let q =
          and_then-calls s.calls (post w b (called s)) (remove_file w f) (omega (arith, p))
            (remove_file-calls f) in
        ground (arith, c, q)
  ]

  replay_files-calls : (fs : List SpoolFile) (s : Sender) → s.calls ≤ (replay_files w fs s).0.calls
  unfolding replay_files
  replay_files-calls [] s = omega arith
  replay_files-calls (f ∷ fs) s =
      and_then-calls s.calls (replay_file w f s) (replay_files w fs) (replay_file-calls f s)
        (replay_files-calls fs)

  replay-calls : (s : Sender) → s.calls ≤ (replay w s).0.calls
  unfolding replay
  replay-calls s = ground (arith, replay_files-calls (sort by_name s.files) (called s))

  deliver-calls : (b : IngestBatch) (s : Sender) → s.calls ≤ (deliver w b s).0.calls
  unfolding deliver
  deliver-calls b s = and_then-calls s.calls (replay w s) (post w b) (replay-calls s) (post-calls b)

  fail_spool-calls : (x : FileError) (s : Sender) → s.calls ≤ (fail_spool x s).0.calls
  fail_spool-calls FileError.exhausted s = omega arith
  fail_spool-calls FileError.failed s = omega arith

  spool-calls : (b : IngestBatch) (s : Sender) → s.calls ≤ (spool w b s).0.calls
  unfolding spool admit write_file
  spool-calls b s = ground arith

  or_deliver-calls :
      (n : ℕ) (b : IngestBatch) (o : Outcome) → n ≤ o.0.calls → n ≤ (or_deliver w b o).0.calls
  or_deliver-calls n b (s, none) a = a
  or_deliver-calls n b (s, some SendError.spool_full) a = ground (arith, a, deliver-calls b s)
  or_deliver-calls n b (s, some SendError.file_failed) a = a
  or_deliver-calls n b (s, some SendError.encode_failed) a = a
  or_deliver-calls n b (s, some SendError.invalid_spool_file) a = a
  or_deliver-calls n b (s, some SendError.rejected) a = a
  or_deliver-calls n b (s, some SendError.cancelled) a = a
  or_deliver-calls n b (s, some (SendError.split_failed x)) a = a

  attempt-calls : (b : IngestBatch) (s : Sender) → s.calls ≤ (attempt w b s).0.calls
  unfolding attempt
  attempt-calls b s = or_deliver-calls s.calls b (spool w b s) (spool-calls b s)

abbrev pub has_returned : Run → Bool
has_returned (returned o) = true
has_returned (running s) = false

-- The context has ended from the call `T` on.
abbrev pub EndsAt : World → ℕ → Type 0
EndsAt w T = (n : ℕ) → T ≤ n → w.cancels n ≡ true

module _ (w : World) (T : ℕ) (ends : EndsAt w T) where
  backpressure-returns :
      (fuel : ℕ) (b : IngestBatch) (s : Sender)
      → 0 < fuel
      → T < fuel + s.calls
      → has_returned (spool_with_backpressure fuel w b s) ≡ true
  unfolding spool_with_backpressure
  backpressure-returns zero b s some_fuel enough = absurd (omega (arith, some_fuel))
  backpressure-returns (suc fuel) b s some_fuel enough = elim (Bool-cases (w.cancels s.calls)) [
    | inl c ↦ ground (arith, c)
    | inr c ↦
        let early : s.calls < T = elim (Bool-cases (leb T s.calls)) [
          | inl l ↦ absurd (ground (arith, c, ends s.calls (leb→le T s.calls l)))
          | inr l ↦ ground (arith, l)
        ] in
        let more = attempt-calls w b (called s) in
        let next =
          backpressure-returns fuel b ((attempt w b (called s)).0) (omega (arith, early, enough))
            (omega (arith, early, enough, more)) in
        ground (arith, c, next)
  ]

  send_chunk-returns :
      (fuel : ℕ) (b : IngestBatch) (s : Sender)
      → T < fuel
      → has_returned (send_chunk fuel w b s) ≡ true
  unfolding send_chunk
  send_chunk-returns fuel b s enough =
      let q =
        backpressure-returns fuel b ((deliver w b s).0) (omega (arith, enough))
          (omega (arith, enough)) in
      ground (arith, q)

  send_chunks-returns :
      (fuel : ℕ) (bs : List IngestBatch) (s : Sender)
      → T < fuel
      → has_returned (send_chunks fuel w bs s) ≡ true
  unfolding send_chunks
  send_chunks-returns fuel [] s enough = refl
  send_chunks-returns fuel (b ∷ bs) s enough =
      go (λ t. send_chunks-returns fuel bs t enough) (send_chunk fuel w b s)
        (send_chunk-returns fuel b s enough)
    where
      go :
          ((t : Sender) → has_returned (send_chunks fuel w bs t) ≡ true)
          → (r : Run) → has_returned r ≡ true
          → has_returned (and_continue r (send_chunks fuel w bs)) ≡ true
      go next (returned (s', none)) e = next s'
      go next (returned (s', some x)) e = refl
      go next (running s') e = e

-- Send returns, with a result or an error, if its context ends at some call, however long the spool
-- stays full: more rounds than the number of that call are enough.
pub send-returns :
    (w : World) (T : ℕ)
    → EndsAt w T
    → (fuel : ℕ) (batch : IngestBatch) (s : Sender) → T < fuel
    → has_returned (send fuel w batch s) ≡ true
unfolding send
send-returns w T ends fuel batch s enough =
    elim (Result-cases (split_batch w.encoder batch max_ingest_batch_bytes)) [
      | inl (bs, e) ↦ rw (e, send) (send_chunks-returns w T ends fuel bs s enough)
      | inr (x, e) ↦ rw (e, send) refl
    ]
