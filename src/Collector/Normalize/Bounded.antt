-- ===== src/Collector/Normalize/Bounded.antt =====
-- collector.go: what the limits on maps and lists leave.
use mathlib.Core.List.{append-nil, append_assoc}
use icinga_kubernetes.Common.{
  ℕ, suc, ◌+◌, ◌≤◌, ◌≡◌, refl, sym, ◌∙◌, arith, inl, inr, Bool-cases, Bool, false, ◌&&◌, ltb, List,
  [], ◌∷◌, ◌++◌, length, map, All, All-append, length-append, insert, sort, String, len,
}
use icinga_kubernetes.Common.Text.{to_lower}
use icinga_kubernetes.Model.{StringMap}
use icinga_kubernetes.Collector.Normalize.{
  truncate, contains_any, sensitive_needles, MapLimits, is_passed_over, keep_entries, by_key,
  bounded_string_map,
}
use icinga_kubernetes.Collector.Normalize.Truncate.{truncate_lem}

abbrev pub entry_size : String × String → ℕ
entry_size (k, v) = len k + len v

abbrev pub total_size : StringMap → ℕ
total_size [] = 0
total_size (e ∷ es) = entry_size e + total_size es

abbrev pub PassesKey : MapLimits → String × String → Type 0
PassesKey l (k, v) =
    (len k ≤ l.max_key)
    × ((l.filter_sensitive && contains_any (to_lower k) sensitive_needles) ≡ false)

abbrev pub Passes : MapLimits → String × String → Type 0
Passes l (k, v) = PassesKey l (k, v) × (len v ≤ l.max_value)

pub record IsBounded (l : MapLimits) (m : StringMap) : Type 0 where
  pub items : length m ≤ l.max_items
  pub size : total_size m ≤ l.max_bytes
  pub entries : All (Passes l) m

abbrev pub cut : MapLimits → String × String → String × String
cut l (k, v) = (k, truncate v l.max_value)

total_size-append : (m n : StringMap) → total_size (m ++ n) ≡ total_size m + total_size n
total_size-append [] n = omega arith
total_size-append (e ∷ m) n = omega (arith, total_size-append m n)

keep_entries-IsBounded :
    (l : MapLimits) (entries out : StringMap) (used : ℕ)
    → IsBounded l out
    → used ≡ total_size out
    → IsBounded l (keep_entries l entries out used)
unfolding keep_entries
keep_entries-IsBounded l [] out used b e = b
keep_entries-IsBounded l ((k, v) ∷ entries) out used b e =
    let value = truncate v l.max_value in
    let next = used + len k + len value in
    elim (Bool-cases (is_passed_over l (length out) k)) [
      | inl p ↦ rw (p, keep_entries) (keep_entries-IsBounded l entries out used b e)
      | inr p ↦ elim (Bool-cases (ltb l.max_bytes next)) [
        | inl q ↦ rw (p, q, keep_entries) (keep_entries-IsBounded l entries out used b e)
        | inr q ↦
            let (_, small, _, _) = truncate_lem v l.max_value in
            let n = b.items in
            let grown = total_size-append out ((k, value) ∷ []) in
            rw (p, q, keep_entries)
              (keep_entries-IsBounded l entries (out ++ (k, value) ∷ []) next
                (record {
                  items = ground (arith, n, p, length-append out ((k, value) ∷ []));
                  size = ground (arith, q, e, grown);
                  entries =
                      All-append (Passes l) out ((k, value) ∷ []) b.entries
                        (((ground (arith, p), ground (arith, p)), small), tt);
                })
                (omega (arith, e, grown)))
      ]
    ]

keep_entries-all :
    (l : MapLimits) (entries out : StringMap) (used : ℕ)
    → used ≡ total_size out
    → length out + length entries ≤ l.max_items
    → total_size out + total_size (map (cut l) entries) ≤ l.max_bytes
    → All (PassesKey l) entries
    → keep_entries l entries out used ≡ out ++ map (cut l) entries
unfolding keep_entries
keep_entries-all l [] out used e n t a = sym (append-nil out)
keep_entries-all l ((k, v) ∷ entries) out used e n t (a, rest) =
    let value = truncate v l.max_value in
    let next = used + len k + len value in
    let p : is_passed_over l (length out) k ≡ false = ground (arith, a, n) in
    let q : ltb l.max_bytes next ≡ false = ground (arith, e, t) in
    let grown = total_size-append out ((k, value) ∷ []) in
    rw (p, q, keep_entries)
      (keep_entries-all l entries (out ++ (k, value) ∷ []) next (omega (arith, e, grown))
          (omega (arith, n, length-append out ((k, value) ∷ []))) (omega (arith, t, grown)) rest
        ∙ append_assoc out ((k, value) ∷ []) (map (cut l) entries))

-- Sorting keeps what holds of all entries, their number and their size.
module _ {ℓ} {A : Type ℓ} (before : A → A → Bool) where
  All-insert : (P : A → Type 0) (a : A) (xs : List A) → P a → All P xs → All P (insert before a xs)
  All-insert P a [] p q = (p, tt)
  All-insert P a (x ∷ xs) p (q, qs) = elim (Bool-cases (before a x)) [
    | inl e ↦ rw (e, insert) (p, (q, qs))
    | inr e ↦ rw (e, insert) (q, All-insert P a xs p qs)
  ]

  pub All-sort : (P : A → Type 0) (xs : List A) → All P xs → All P (sort before xs)
  All-sort P [] q = tt
  All-sort P (x ∷ xs) (p, ps) = All-insert P x (sort before xs) p (All-sort P xs ps)

  length-insert : (a : A) (xs : List A) → length (insert before a xs) ≡ suc (length xs)
  length-insert a [] = refl
  length-insert a (x ∷ xs) = ground (arith, length-insert a xs)

  pub length-sort : (xs : List A) → length (sort before xs) ≡ length xs
  length-sort [] = refl
  length-sort (x ∷ xs) = omega (arith, length-insert x (sort before xs), length-sort xs)

total_size-insert :
    (l : MapLimits) (e : String × String) (es : StringMap)
    → total_size (map (cut l) (insert by_key e es))
      ≡ entry_size (cut l e) + total_size (map (cut l) es)
total_size-insert l e [] = refl
total_size-insert l e (x ∷ es) = ground (arith, total_size-insert l e es)

total_size-sort :
    (l : MapLimits) (es : StringMap)
    → total_size (map (cut l) (sort by_key es)) ≡ total_size (map (cut l) es)
total_size-sort l [] = refl
total_size-sort l (e ∷ es) =
    omega (arith, total_size-insert l e (sort by_key es), total_size-sort l es)

-- What boundedStringMap returns has at most so many entries and bytes as the limits allow, no key
-- that is too long or that the filter refuses, and no value that is too long; and where the entries
-- pass these limits, values cut, it keeps all of them, in the order of their keys.
pub bounded_string_map_lem :
    (l : MapLimits) (m : StringMap)
    → IsBounded l (bounded_string_map m l)
      × (length m ≤ l.max_items
          → total_size (map (cut l) m) ≤ l.max_bytes
          → All (PassesKey l) m
          → bounded_string_map m l ≡ map (cut l) (sort by_key m))
unfolding bounded_string_map
bounded_string_map_lem l m = (
  keep_entries-IsBounded l (sort by_key m) [] 0
      (record { items = omega arith; size = omega arith; entries = tt }) refl,
  λ n t a.
      keep_entries-all l (sort by_key m) [] 0 refl (omega (arith, n, length-sort by_key m))
        (omega (arith, t, total_size-sort l m)) (All-sort by_key (PassesKey l) m a),
)
