-- ===== src/Sender/Spool/Fifo.antt =====
-- client.go: what Send does to the history of a sender.
use icinga_kubernetes.Common.{
  ℕ, zero, suc, ◌≡◌, refl, ◌∙◌, ap, true, false, is_none, none, some, List, [], ◌∷◌, ◌++◌, inl, inr,
  Bool-cases, arith, if◌then◌else◌,
}
use icinga_kubernetes.Model.{IngestBatch}
use icinga_kubernetes.Sender.Spool.{
  Sender, World, Outcome, SendError, Run, returned, running, called, spool, deliver, or_deliver,
  attempt, is_full, spool_with_backpressure, send_chunk, send_chunks, and_continue, send,
}
use icinga_kubernetes.Common.Result.{Result, ok, err, Result-cases}
use icinga_kubernetes.Sender.Split.{SplitError, split_batch, max_ingest_batch_bytes}
use icinga_kubernetes.Sender.Spool.Steps.{NamesAscend, IsValid, blocked-IsValid}
use icinga_kubernetes.Sender.Spool.Taken.{spool-Took}
use icinga_kubernetes.Sender.Spool.Grown.{
  Grown, Took, taken, history, same, Grown-trans, Exact-trans, called-Grown, deliver-Took,
  append_assoc,
}

-- What a run has done for a batch: all of it, if it returns without an error, and else nothing.
abbrev pub RunTook : World → IngestBatch → Sender → Run → Type 0
RunTook w b s (returned o) = Took w b s o
RunTook w b s (running s') = Grown w [] s s'

-- What a run has done for the batches `bs`: all of them, if it returns without an error, and else
-- some first ones.
abbrev pub SentOf : World → List IngestBatch → Sender → Run → Type 0
SentOf w bs s (returned (s', none)) = Grown w bs s s'
SentOf w bs s (returned (s', some x)) =
    (p : List IngestBatch) × (rest : List IngestBatch) × (p ++ rest ≡ bs) × Grown w p s s'
SentOf w bs s (running s') =
    (p : List IngestBatch) × (rest : List IngestBatch) × (p ++ rest ≡ bs) × Grown w p s s'

abbrev pub or_none : Result SplitError (List IngestBatch) → List IngestBatch
or_none (ok bs) = bs
or_none (err x) = []

Grown-append :
    (w : World) (bs cs : List IngestBatch) (s s' s'' : Sender)
    → Grown w bs s s'
    → Grown w cs s' s''
    → Grown w (bs ++ cs) s s''
Grown-append w bs cs s s' s'' g h = record {
  valid = h.valid;
  history = h.history ∙ ap (λ l. l ++ cs) g.history ∙ append_assoc (history s) bs cs;
  calls = omega (arith, g.calls, h.calls);
  exact = Exact-trans w s s' s'' g.calls h.calls g.exact h.exact;
}

module _ (w : World) (later : NamesAscend w) (removed : (n : ℕ) → w.removes n ≡ true) where
  or_deliver-Took :
      (b : IngestBatch) (s : Sender) (o : Outcome) → Took w b s o → Took w b s (or_deliver w b o)
  or_deliver-Took b s (s', none) g = g
  or_deliver-Took b s (s', some SendError.spool_full) g =
      go (deliver w b s') (deliver-Took w later removed b s' g.valid)
    where
      go :
          (o : Outcome)
          → Took w b s' o
          → Took w b s (
              if is_none o.1
              then (record (o.0) { blocked = false }, none)
              else (o.0, some SendError.spool_full))
      go (s'', none) h =
          let t = Grown-trans w later removed (b ∷ []) s s' s'' g h in
          record {
            valid = blocked-IsValid w false s'' t.valid;
            history = t.history;
            calls = t.calls;
            exact = t.exact;
          }
      go (s'', some x) h = Grown-trans w later removed [] s s' s'' g h
  or_deliver-Took b s (s', some SendError.file_failed) g = g
  or_deliver-Took b s (s', some SendError.encode_failed) g = g
  or_deliver-Took b s (s', some SendError.invalid_spool_file) g = g
  or_deliver-Took b s (s', some SendError.rejected) g = g
  or_deliver-Took b s (s', some SendError.cancelled) g = g
  or_deliver-Took b s (s', some (SendError.split_failed x)) g = g

  attempt-Took : (b : IngestBatch) (s : Sender) → IsValid w s → Took w b s (attempt w b s)
  unfolding attempt
  attempt-Took b s v = or_deliver-Took b s (spool w b s) (spool-Took w later removed b s v)

  RunTook-trans :
      (b : IngestBatch) (s s' : Sender) (r : Run)
      → Grown w [] s s'
      → RunTook w b s' r
      → RunTook w b s r
  RunTook-trans b s s' (returned o) g h = Grown-trans w later removed (taken b (o.1)) s s' (o.0) g h
  RunTook-trans b s s' (running t) g h = Grown-trans w later removed [] s s' t g h

  not_taken :
      (b : IngestBatch) (s : Sender) (o : Outcome)
      → is_full (o.1) ≡ true
      → Took w b s o
      → Grown w [] s (o.0)
  not_taken b s (s', none) f g = absurd (ground (arith, f))
  not_taken b s (s', some x) f g = g

  backpressure-RunTook :
      (fuel : ℕ) (b : IngestBatch) (s : Sender)
      → IsValid w s
      → RunTook w b s (spool_with_backpressure fuel w b s)
  unfolding spool_with_backpressure
  backpressure-RunTook zero b s v = same w later removed s v
  backpressure-RunTook (suc fuel) b s v =
      let g = called-Grown w later removed s v in
      elim (Bool-cases (w.cancels s.calls)) [
        | inl c ↦ rw (c, spool_with_backpressure) g
        | inr c ↦
            rw (c, spool_with_backpressure)
              (go (backpressure-RunTook fuel b) g (attempt w b (called s))
                (attempt-Took b (called s) g.valid))
      ]
    where
      go :
          ((t : Sender) → IsValid w t → RunTook w b t (spool_with_backpressure fuel w b t))
          → Grown w [] s (called s)
          → (o : Outcome) → Took w b (called s) o
          → RunTook w b s (
              if is_full (o.1) then spool_with_backpressure fuel w b (o.0) else returned (o.0, o.1))
      go next g o h = elim (Bool-cases (is_full (o.1))) [
        | inl f ↦ rw f (
            RunTook-trans b s (o.0) (spool_with_backpressure fuel w b (o.0))
              (Grown-trans w later removed [] s (called s) (o.0) g (not_taken b (called s) o f h))
              (next (o.0) h.valid))
        | inr f ↦ rw f (Grown-trans w later removed (taken b (o.1)) s (called s) (o.0) g h)
      ]

  send_chunk-RunTook :
      (fuel : ℕ) (b : IngestBatch) (s : Sender)
      → IsValid w s
      → RunTook w b s (send_chunk fuel w b s)
  unfolding send_chunk
  send_chunk-RunTook fuel b s v = go (deliver w b s) (deliver-Took w later removed b s v)
    where
      go :
          (o : Outcome)
          → Took w b s o
          → RunTook w b s (
              if is_none (o.1)
              then returned (o.0, none)
              else spool_with_backpressure fuel w b (o.0))
      go (s', none) h = h
      go (s', some x) h =
          RunTook-trans b s s' (spool_with_backpressure fuel w b s') h
            (backpressure-RunTook fuel b s' h.valid)

  send_chunks-SentOf :
      (fuel : ℕ) (bs : List IngestBatch) (s : Sender)
      → IsValid w s
      → SentOf w bs s (send_chunks fuel w bs s)
  unfolding send_chunks
  send_chunks-SentOf fuel [] s v = same w later removed s v
  send_chunks-SentOf fuel (b ∷ bs) s v =
      go (send_chunks-SentOf fuel bs) (send_chunk fuel w b s) (send_chunk-RunTook fuel b s v)
    where
      more :
          (s' : Sender) (r : Run) → Grown w (b ∷ []) s s' → SentOf w bs s' r → SentOf w (b ∷ bs) s r
      more s' (returned (t, none)) g h = Grown-append w (b ∷ []) bs s s' t g h
      more s' (returned (t, some x)) g (p, rest, e, h) =
          (b ∷ p, rest, ap (λ l. b ∷ l) e, Grown-append w (b ∷ []) p s s' t g h)
      more s' (running t) g (p, rest, e, h) =
          (b ∷ p, rest, ap (λ l. b ∷ l) e, Grown-append w (b ∷ []) p s s' t g h)

      go :
          ((t : Sender) → IsValid w t → SentOf w bs t (send_chunks fuel w bs t))
          → (r : Run) → RunTook w b s r
          → SentOf w (b ∷ bs) s (and_continue r (send_chunks fuel w bs))
      go next (returned (s', none)) h = more s' (send_chunks fuel w bs s') h (next s' h.valid)
      go next (returned (s', some x)) h = ([], b ∷ bs, refl, h)
      go next (running s') h = ([], b ∷ bs, refl, h)

-- A batch is neither lost nor confirmed twice nor overtaken on its way through Send, whose removals of
-- confirmed files do not fail: what the API has confirmed, followed by what the spool holds in the
-- order of its names, grows by the requests that splitBatch cuts the batch into if Send returns nil,
-- by some first ones of them if it returns an error or still runs, and by nothing if splitBatch
-- fails. Unless an answer of the API is lost meanwhile, it has then accepted what it has confirmed, in
-- that order and nothing else; a request whose answer is lost waits or is repeated like a refused
-- one. The names of the spool ascend with the calls.
pub send-SentOf :
    (w : World) (later : NamesAscend w) (removed : (n : ℕ) → w.removes n ≡ true) (fuel : ℕ)
    (batch : IngestBatch) (s : Sender)
    → IsValid w s
    → SentOf w
        (or_none (split_batch w.encoder batch max_ingest_batch_bytes))
        s
        (send fuel w batch s)
unfolding send
send-SentOf w later removed fuel batch s v =
    elim (Result-cases (split_batch w.encoder batch max_ingest_batch_bytes)) [
      | inl (bs, e) ↦ rw (e, send) (send_chunks-SentOf w later removed fuel bs s v)
      | inr (x, e) ↦ rw (e, send) ([], [], refl, same w later removed s v)
    ]
