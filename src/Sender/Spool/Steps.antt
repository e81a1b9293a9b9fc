-- ===== src/Sender/Spool/Steps.antt =====
-- client.go: the order of the spool directory and its counters. That the names ascend is a hypothesis on the clock and the UUID generator.
use icinga_kubernetes.Common.{
  ℕ, suc, ◌+◌, ◌<◌, ◌≡◌, refl, ap, subst, not, Bool, some, List, [], ◌∷◌, ◌++◌, length, All,
  All-append, sort, insert, arith,
}
use icinga_kubernetes.Common.Table.{select}
use icinga_kubernetes.Model.{IngestBatch}
use icinga_kubernetes.Sender.Spool.{
  SpoolFile, Sender, World, called, named, drop_file, add_file, by_name, confirm, lose_answer,
}

abbrev pub Ascending : List SpoolFile → Type 0
Ascending [] = Unit {0}
Ascending (f ∷ fs) = All (λ g. f.name < g.name) fs × Ascending fs

abbrev pub total_size : List SpoolFile → ℕ
total_size [] = 0
total_size (f ∷ fs) = f.size + total_size fs

abbrev pub Older : World → ℕ → SpoolFile → Type 0
Older w n f = f.name < w.new_name n

-- Names that are made later are greater.
abbrev pub NamesAscend : World → Type 0
NamesAscend w = (n : ℕ) → w.new_name n < w.new_name (suc n)

pub record IsValid (w : World) (s : Sender) : Type 0 where
  pub ascending : Ascending s.files
  pub older : All (Older w s.calls) s.files
  pub files : s.spool_files ≡ length s.files
  pub bytes : s.spool_bytes ≡ total_size s.files

pub sort-Ascending : (fs : List SpoolFile) → Ascending fs → sort by_name fs ≡ fs
sort-Ascending [] a = refl
sort-Ascending (f ∷ fs) (a, b) = rw (sort-Ascending fs b) (insert_first f fs a)
  where
    insert_first :
        (f : SpoolFile) (fs : List SpoolFile)
        → All (λ g. f.name < g.name) fs
        → insert by_name f fs ≡ f ∷ fs
    insert_first f [] a = refl
    insert_first f (g ∷ fs) (a, b) = ground (arith, a)

select_later :
    (n : ℕ) (fs : List SpoolFile) → All (λ g. n < g.name) fs → select (λ g. not (named n g)) fs ≡ fs
select_later n [] a = refl
select_later n (g ∷ fs) (a, b) = ground (arith, a, select_later n fs b)

pub drop_file-files :
    (f : SpoolFile) (fs : List SpoolFile) (s : Sender)
    → s.files ≡ f ∷ fs
    → Ascending s.files
    → (drop_file f s).files ≡ fs
unfolding drop_file
drop_file-files f fs s e a =
    let (b, c) = subst Ascending e a in rw e (ground (arith, select_later f.name fs b))

module _ (w : World) (later : NamesAscend w) where
  All-Older : (n : ℕ) (fs : List SpoolFile) → All (Older w n) fs → All (Older w (suc n)) fs
  All-Older n [] a = tt
  All-Older n (f ∷ fs) (a, b) = (omega (arith, a, later n), All-Older n fs b)

  pub called-IsValid : (s : Sender) → IsValid w s → IsValid w (called s)
  called-IsValid s v = record {
    ascending = v.ascending;
    older = All-Older s.calls s.files v.older;
    files = v.files;
    bytes = v.bytes;
  }

  pub drop_file-IsValid :
      (f : SpoolFile) (fs : List SpoolFile) (s : Sender)
      → s.files ≡ f ∷ fs
      → IsValid w s
      → IsValid w (drop_file f s)
  unfolding drop_file
  drop_file-IsValid f fs s e v =
      let d = drop_file-files f fs s e v.ascending in
      let a = subst Ascending e v.ascending in
      let o = subst (All (Older w s.calls)) e v.older in
      let n = v.files in
      let b = v.bytes in
      record {
        ascending = rw d a.1;
        older = rw d (All-Older s.calls fs o.1);
        files = rw d (omega (arith, n, ap length e));
        bytes = rw d (omega (arith, b, ap total_size e));
      }

  Ascending-append :
      (fs : List SpoolFile) (g : SpoolFile)
      → Ascending fs
      → All (λ f. f.name < g.name) fs
      → Ascending (fs ++ g ∷ [])
  Ascending-append [] g a b = (tt, tt)
  Ascending-append (f ∷ fs) g (a, c) (b, d) =
      (All-append (λ h. f.name < h.name) fs (g ∷ []) a (b, tt), Ascending-append fs g c d)

  length-snoc : (fs : List SpoolFile) (g : SpoolFile) → length (fs ++ g ∷ []) ≡ length fs + 1
  length-snoc [] g = refl
  length-snoc (f ∷ fs) g = omega (arith, length-snoc fs g)

  total_size-snoc :
      (fs : List SpoolFile) (g : SpoolFile) → total_size (fs ++ g ∷ []) ≡ total_size fs + g.size
  total_size-snoc [] g = omega arith
  total_size-snoc (f ∷ fs) g = omega (arith, total_size-snoc fs g)

  pub add_file-IsValid :
      (batch : IngestBatch) (size : ℕ) (s : Sender)
      → IsValid w s
      → IsValid w (add_file w batch size s)
  add_file-IsValid batch size s v =
      let g : SpoolFile = record { name = w.new_name s.calls; content = some batch; size = size } in
      let n = v.files in
      let b = v.bytes in
      record {
        ascending = Ascending-append s.files g v.ascending v.older;
        older =
            All-append (Older w (suc s.calls)) s.files (g ∷ []) (All-Older s.calls s.files v.older)
              (later s.calls, tt);
        files = omega (arith, n, length-snoc s.files g);
        bytes = omega (arith, b, total_size-snoc s.files g);
      }

pub blocked-IsValid :
    (w : World) (b : Bool) (s : Sender) → IsValid w s → IsValid w (record s { blocked = b })
blocked-IsValid w b s v = record {
  ascending = v.ascending;
  older = v.older;
  files = v.files;
  bytes = v.bytes;
}

pub delivered-IsValid :
    (w : World) (b : IngestBatch) (s : Sender) → IsValid w s → IsValid w (confirm b s)
delivered-IsValid w b s v = record {
  ascending = v.ascending;
  older = v.older;
  files = v.files;
  bytes = v.bytes;
}

pub lost-IsValid :
    (w : World) (b : IngestBatch) (s : Sender) → IsValid w s → IsValid w (lose_answer b s)
lost-IsValid w b s v = record {
  ascending = v.ascending;
  older = v.older;
  files = v.files;
  bytes = v.bytes;
}
