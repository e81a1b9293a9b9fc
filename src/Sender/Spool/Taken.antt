-- ===== src/Sender/Spool/Taken.antt =====
-- client.go: what a spool does to the history of a sender.
use icinga_kubernetes.Common.{
  ℕ, ◌+◌, ltb, ◌≡◌, sym, ◌∙◌, ap, refl, true, arith, [], ◌∷◌, ◌++◌, inl, inr, Bool-cases,
  Option-cases,
}
use icinga_kubernetes.Common.Result.{Result-cases}
use icinga_kubernetes.Model.{IngestBatch}
use icinga_kubernetes.Sender.Spool.{
  Sender, World, called, fail_spool, write_file, admit, spool, FileError,
}
use icinga_kubernetes.Sender.Space.{can_write}
use icinga_kubernetes.Sender.Spool.Steps.{NamesAscend, IsValid, add_file-IsValid, blocked-IsValid}
use icinga_kubernetes.Sender.Spool.Grown.{
  pending, oldest_first, append_assoc, pending-snoc, Grown, Took, same, Grown-trans, called-Grown,
}

module _ (w : World) (later : NamesAscend w) (removed : (n : ℕ) → w.removes n ≡ true) where
  fail_spool-Took :
      (x : FileError) (b : IngestBatch) (s s' : Sender)
      → Grown w [] s s'
      → Took w b s (fail_spool x s')
  fail_spool-Took FileError.exhausted b s s' g = record {
    valid = blocked-IsValid w true s' g.valid;
    history = g.history;
    calls = g.calls;
    exact = g.exact;
  }
  fail_spool-Took FileError.failed b s s' g = g

  write_file-Took :
      (b : IngestBatch) (size : ℕ) (s : Sender) → IsValid w s → Took w b s (write_file w b size s)
  unfolding write_file
  write_file-Took b size s v = elim (Option-cases (w.writes s.calls)) [
    | inr (x, e) ↦
        rw (e, write_file) (fail_spool-Took x b s (called s) (called-Grown w later removed s v))
    | inl e ↦
        rw (e, write_file)
          (record {
            valid = add_file-IsValid w later b size s v;
            history =
                ap (λ l. oldest_first s.delivered ++ l)
                  (pending-snoc s.files (w.new_name s.calls) b size)
                ∙ sym (append_assoc (oldest_first s.delivered) (pending s.files) (b ∷ []));
            calls = omega arith;
            exact = inl ([], refl, refl);
          })
  ]

  admit-Took :
      (b : IngestBatch) (size : ℕ) (s : Sender) → IsValid w s → Took w b s (admit w b size s)
  unfolding admit
  admit-Took b size s v =
      let g = called-Grown w later removed s v in
      elim (Bool-cases (ltb w.max_bytes (s.spool_bytes + size))) [
        | inl m ↦
            rw (m, admit) (fail_spool-Took FileError.exhausted b s s (same w later removed s v))
        | inr m ↦ elim (Result-cases (w.disk_space s.calls)) [
          | inr (x, d) ↦ rw (m, d, admit) (fail_spool-Took x b s (called s) g)
          | inl (space, d) ↦ elim (Bool-cases (can_write space size)) [
            | inr c ↦ rw (m, d, c, admit) (fail_spool-Took FileError.exhausted b s (called s) g)
            | inl c ↦
                rw (m, d, c, admit)
                  (Grown-trans w later removed _ s (called s) _ g
                    (write_file-Took b size (called s) g.valid))
          ]
        ]
      ]

  pub spool-Took : (b : IngestBatch) (s : Sender) → IsValid w s → Took w b s (spool w b s)
  unfolding spool
  spool-Took b s v =
      let g = called-Grown w later removed s v in
      elim (Option-cases (w.makes_directory s.calls)) [
        | inr (x, m) ↦ rw (m, spool) (fail_spool-Took x b s (called s) g)
        | inl m ↦ elim (Option-cases (w.marshal b)) [
          | inl n ↦ rw (m, n, spool) g
          | inr (size, n) ↦
              rw (m, n, spool)
                (Grown-trans w later removed _ s (called s) _ g
                  (admit-Took b size (called s) g.valid))
        ]
      ]
