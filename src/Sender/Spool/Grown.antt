-- ===== src/Sender/Spool/Grown.antt =====
-- client.go: what a replay does to the history of a sender, as long as the removal of a delivered
-- file does not fail.
use icinga_kubernetes.Common.{
  ℕ, suc, ◌≤◌, ◌<◌, ◌⊎◌, ◌≡◌, refl, sym, ◌∙◌, ap, true, false, Option, none, some, List, [], ◌∷◌,
  ◌++◌, inl, inr, Bool-cases, Option-cases, arith,
}
use icinga_kubernetes.Model.{IngestBatch}
use icinga_kubernetes.Sender.Spool.{
  SpoolFile, Sender, World, Outcome, SendError, called, and_then, post, drop_file, replay_file,
  confirm, lose_answer, replay_files, replay, deliver,
}
use icinga_kubernetes.Sender.Spool.Steps.{
  NamesAscend, IsValid, sort-Ascending, drop_file-files, called-IsValid, drop_file-IsValid,
  delivered-IsValid, lost-IsValid,
}

-- The batches of the spool, in the order of their names.
abbrev pub pending : List SpoolFile → List IngestBatch
pending [] = []
pending (f ∷ fs) = elim f.content [ none ↦ pending fs | some b ↦ b ∷ pending fs ]

abbrev pub oldest_first : List IngestBatch → List IngestBatch
oldest_first [] = []
oldest_first (b ∷ bs) = oldest_first bs ++ b ∷ []

-- What the API has confirmed, in that order, and then what waits.
abbrev pub history : Sender → List IngestBatch
history s = oldest_first s.delivered ++ pending s.files

pub append_assoc : (xs ys zs : List IngestBatch) → (xs ++ ys) ++ zs ≡ xs ++ (ys ++ zs)
append_assoc [] ys zs = refl
append_assoc (x ∷ xs) ys zs = ap (λ l. x ∷ l) (append_assoc xs ys zs)

pub append_nil : (xs : List IngestBatch) → xs ++ [] ≡ xs
append_nil [] = refl
append_nil (x ∷ xs) = ap (λ l. x ∷ l) (append_nil xs)

pub pending-snoc :
    (fs : List SpoolFile) (n : ℕ) (b : IngestBatch) (size : ℕ)
    → pending (fs ++ record { name = n; content = some b; size = size } ∷ []) ≡ pending fs ++ b ∷ []
pending-snoc [] n b size = refl
pending-snoc (f ∷ fs) n b size = ground (arith, pending-snoc fs n b size)

-- The batch that a call without an error has taken over.
abbrev pub taken : IngestBatch → Option SendError → List IngestBatch
taken b none = b ∷ []
taken b (some x) = []

-- The API has accepted what it has confirmed, in that order and nothing else; or an answer of it was
-- lost.
abbrev pub Exact : World → Sender → Sender → Type 0
Exact w s s' =
    ((bs : List IngestBatch) × (s'.delivered ≡ bs ++ s.delivered) × (s'.stored ≡ bs ++ s.stored))
    ⊎ ((n : ℕ) × (s.calls ≤ n) × (n < s'.calls) × (w.answers n ≡ false))

pub Exact-trans :
    (w : World) (s s' s'' : Sender)
    → s.calls ≤ s'.calls
    → s'.calls ≤ s''.calls
    → Exact w s s'
    → Exact w s' s''
    → Exact w s s''
Exact-trans w s s' s'' i j (inr (n, a, b, c)) y = inr (n, a, omega (arith, b, j), c)
Exact-trans w s s' s'' i j (inl x) (inr (n, a, b, c)) = inr (n, omega (arith, a, i), b, c)
Exact-trans w s s' s'' i j (inl (bs, d, e)) (inl (bs', d', e')) = inl (
  bs' ++ bs,
  d' ∙ ap (λ l. bs' ++ l) d ∙ sym (append_assoc bs' bs s.delivered),
  e' ∙ ap (λ l. bs' ++ l) e ∙ sym (append_assoc bs' bs s.stored),
)

-- A valid sender, whose history has grown by `bs`.
pub record Grown (w : World) (bs : List IngestBatch) (s s' : Sender) : Type 0 where
  pub valid : IsValid w s'
  pub history : history s' ≡ history s ++ bs
  pub calls : s.calls ≤ s'.calls
  pub exact : Exact w s s'

abbrev pub Took : World → IngestBatch → Sender → Outcome → Type 0
Took w b s o = Grown w (taken b o.1) s o.0

-- After a replay that was to leave the files `fs`.
record Replayed (w : World) (fs : List SpoolFile) (s : Sender) (o : Outcome) : Type 0 where
  grown : Grown w [] s o.0
  files : o.1 ≡ none → o.0.files ≡ fs

module _ (w : World) (later : NamesAscend w) (removed : (n : ℕ) → w.removes n ≡ true) where
  pub same : (s : Sender) → IsValid w s → Grown w [] s s
  same s v = record {
    valid = v;
    history = sym (append_nil (history s));
    calls = omega arith;
    exact = inl ([], refl, refl);
  }

  pub Grown-trans :
      (bs : List IngestBatch) (s s' s'' : Sender)
      → Grown w [] s s'
      → Grown w bs s' s''
      → Grown w bs s s''
  Grown-trans bs s s' s'' g h = record {
    valid = h.valid;
    history = h.history ∙ ap (λ l. l ++ bs) (g.history ∙ append_nil (history s));
    calls = omega (arith, g.calls, h.calls);
    exact = Exact-trans w s s' s'' g.calls h.calls g.exact h.exact;
  }

  pub called-Grown : (s : Sender) → IsValid w s → Grown w [] s (called s)
  called-Grown s v = record {
    valid = called-IsValid w later s v;
    history = sym (append_nil (history s));
    calls = omega arith;
    exact = inl ([], refl, refl);
  }

  lost-Grown :
      (b : IngestBatch) (s : Sender)
      → IsValid w s
      → w.answers s.calls ≡ false
      → Grown w [] s (lose_answer b (called s))
  lost-Grown b s v l = record {
    valid = lost-IsValid w b (called s) (called-IsValid w later s v);
    history = sym (append_nil (history s));
    calls = omega arith;
    exact = inr (s.calls, omega arith, omega arith, l);
  }

  -- A post to the API while nothing waits.
  post-Took : (b : IngestBatch) (s : Sender) → IsValid w s → s.files ≡ [] → Took w b s (post w b s)
  unfolding post
  post-Took b s v e = elim (Option-cases (w.marshal b)) [
    | inl n ↦ rw (n, post) (same s v)
    | inr (size, n) ↦ elim (Bool-cases (w.accepts s.calls b)) [
      | inr a ↦ rw (n, a, post) (called-Grown s v)
      | inl a ↦ elim (Bool-cases (w.answers s.calls)) [
        | inr l ↦ rw (n, a, l, post) (lost-Grown b s v l)
        | inl l ↦
            rw (n, a, l, post)
              (record {
                valid = delivered-IsValid w b (called s) (called-IsValid w later s v);
                history = rw e (
                    append_nil (oldest_first (b ∷ s.delivered))
                    ∙ sym (ap (λ l. l ++ b ∷ []) (append_nil (oldest_first s.delivered))));
                calls = omega arith;
                exact = inl (b ∷ [], refl, refl);
              })
      ]
    ]
  ]

  handed_over : IngestBatch → Sender → Sender
  handed_over b s = confirm b (called (called s))

  drop-Grown :
      (f : SpoolFile) (fs : List SpoolFile) (b : IngestBatch) (s : Sender)
      → s.files ≡ f ∷ fs
      → f.content ≡ some b
      → IsValid w s
      → Grown w [] s (drop_file f (handed_over b s))
  unfolding handed_over drop_file
  drop-Grown f fs b s e c v =
      let v' =
        delivered-IsValid w b (called (called s))
          (called-IsValid w later (called s) (called-IsValid w later s v)) in
      record {
        valid = drop_file-IsValid w later f fs (handed_over b s) e v';
        history =
            rw (drop_file-files f fs (handed_over b s) e v.ascending, e)
              (rw c (
                append_assoc (oldest_first s.delivered) (b ∷ []) (pending fs)
                ∙ sym (append_nil (oldest_first s.delivered ++ b ∷ pending fs))));
        calls = omega arith;
        exact = inl (b ∷ [], refl, refl);
      }

  replay_file-Replayed :
      (f : SpoolFile) (fs : List SpoolFile) (s : Sender)
      → s.files ≡ f ∷ fs
      → IsValid w s
      → Replayed w fs s (replay_file w f s)
  unfolding replay_file post handed_over
  replay_file-Replayed f fs s e v =
      let g = called-Grown s v in
      let g' =
        Grown-trans [] s (called s) (called (called s)) g (called-Grown (called s) g.valid) in
      elim (Bool-cases (w.reads s.calls)) [
        | inr r ↦
            rw (r, replay_file) (record { grown = g; files = λ q. absurd (ground (arith, q)) })
        | inl r ↦ elim (Option-cases f.content) [
          | inl c ↦
              rw (r, c, replay_file) (record { grown = g; files = λ q. absurd (ground (arith, q)) })
          | inr (b, c) ↦ elim (Option-cases (w.marshal b)) [
            | inl n ↦
                rw (r, c, n, replay_file, post)
                  (record { grown = g; files = λ q. absurd (ground (arith, q)) })
            | inr (size, n) ↦ elim (Bool-cases (w.accepts (suc s.calls) b)) [
              | inr a ↦
                  rw (r, c, n, a, replay_file, post)
                    (record { grown = g'; files = λ q. absurd (ground (arith, q)) })
              | inl a ↦ elim (Bool-cases (w.answers (suc s.calls))) [
                | inr l ↦
                    rw (r, c, n, a, l, replay_file, post)
                      (record {
                        grown =
                            Grown-trans [] s (called s) (lose_answer b (called (called s))) g
                              (lost-Grown b (called s) g.valid l);
                        files = λ q. absurd (ground (arith, q));
                      })
                | inl l ↦
                    rw (r, c, n, a, l, removed (suc (suc s.calls)), replay_file, post)
                      (record {
                        grown = drop-Grown f fs b s e c v;
                        files = λ q. drop_file-files f fs (handed_over b s) e v.ascending;
                      })
              ]
            ]
          ]
        ]
      ]

  and_then-Replayed :
      (fs : List SpoolFile) (s : Sender) (k : Sender → Outcome) (o : Outcome)
      → Replayed w fs s o
      → ((s' : Sender) → s'.files ≡ fs → IsValid w s' → Replayed w [] s' (k s'))
      → Replayed w [] s (and_then o k)
  and_then-Replayed fs s k (s', none) r f =
      let q = f s' (r.files refl) (r.grown.valid) in
      record { grown = Grown-trans [] s s' ((k s').0) r.grown q.grown; files = q.files }
  and_then-Replayed fs s k (s', some x) r f = record {
    grown = r.grown;
    files = λ q. absurd (ground (arith, q));
  }

  replay_files-Replayed :
      (fs : List SpoolFile) (s : Sender)
      → s.files ≡ fs
      → IsValid w s
      → Replayed w [] s (replay_files w fs s)
  unfolding replay_files
  replay_files-Replayed [] s e v = record { grown = same s v; files = λ _. e }
  replay_files-Replayed (f ∷ fs) s e v =
      and_then-Replayed fs s (replay_files w fs) (replay_file w f s)
        (replay_file-Replayed f fs s e v) (replay_files-Replayed fs)

  replay-Replayed : (s : Sender) → IsValid w s → Replayed w [] s (replay w s)
  unfolding replay
  replay-Replayed s v =
      let g = called-Grown s v in
      elim (Bool-cases (w.lists s.calls)) [
        | inr r ↦ rw (r, replay) (record { grown = g; files = λ q. absurd (ground (arith, q)) })
        | inl r ↦
            rw (r, sort-Ascending s.files v.ascending, replay)
              (let q = replay_files-Replayed s.files (called s) refl g.valid in
                record { grown = Grown-trans [] s (called s) _ g q.grown; files = q.files })
      ]

  pub deliver-Took : (b : IngestBatch) (s : Sender) → IsValid w s → Took w b s (deliver w b s)
  unfolding deliver
  deliver-Took b s v = go (replay w s) (replay-Replayed s v)
    where
      go : (o : Outcome) → Replayed w [] s o → Took w b s (and_then o (post w b))
      go (s', none) r =
          Grown-trans (taken b ((post w b s').1)) s s' ((post w b s').0) r.grown
            (post-Took b s' (r.grown.valid) (r.files refl))
      go (s', some x) r = r.grown
