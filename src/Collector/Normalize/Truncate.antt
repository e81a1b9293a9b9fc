-- ===== src/Collector/Normalize/Truncate.antt =====
-- collector.go: what truncate leaves of a text.
use Prim.Native.Char.{len_utf8, len_utf8_def, width}
use Prim.Native.String.{slice}
use Prim.Native.String.append
use Prim.Native.String.len
use Prim.Native.Nat.{Ordering}
use text.Mathlib.Text.{is_char_boundary}
use text.Mathlib.TextBridge.{IsPrefix}
use text.Mathlib.TextEquality.{slice-prefix}
use text.Mathlib.TextPositions.{boundary-zero, boundary-append, slice_all, len-append, len_utf8-pos}
use icinga_kubernetes.Common.{
  ap, ◌∙◌, ℕ, zero, suc, ◌+◌, ◌≤◌, ◌≡◌, ◌≢◌, refl, sym, subst, arith, inl, inr, Bool-cases, true,
  leb, String, len, ◌==◌, ==_iff,
}
use icinga_kubernetes.Collector.Normalize.{valid_end, truncate}

valid_end_lem :
    (s : String) (k : ℕ)
    → (is_char_boundary s (valid_end s k) ≡ true)
      × (valid_end s k ≤ k)
      × ((j : ℕ) → j ≤ k → is_char_boundary s j ≡ true → j ≤ valid_end s k)
unfolding valid_end
valid_end_lem s zero = (boundary-zero s, omega arith, λ j b _. b)
valid_end_lem s (suc k) =
    let (boundary, bound, last) = valid_end_lem s k in
    elim (Bool-cases (is_char_boundary s (suc k))) [
      | inl e ↦ rw e (e, omega arith, λ j b _. b)
      | inr e ↦ rw e (
        boundary,
        omega (arith, bound),
        λ j b f. elim (Bool-cases (j == suc k)) [
          | inl q ↦ absurd (
              ground
                (arith, subst (λ i. is_char_boundary s i ≡ true) ((==_iff j (suc k)).0 q) f, e))
          | inr q ↦ last j (ground (arith, b, q)) f
        ],
      )
    ]

-- The bytes of what slice takes up to the end of a character.
slice-len : (s : String) (i : ℕ) → is_char_boundary s i ≡ true → len (slice s 0 i) ≡ i
slice-len s i e = (==_iff (len (slice s 0 i)) i).0 e

boundary-le : (s : String) (j : ℕ) → is_char_boundary s j ≡ true → j ≤ len s
boundary-le s j f =
    let (rest, e) = slice-prefix s j in
    omega (arith, slice-len s j f, len-append (slice s 0 j) rest, ap len e)

width-le : (o p q : Ordering) → width o p q ≤ 4
width-le o p q = ground arith

-- What truncate returns is a first part of the text, within the limit and whole characters, the
-- longest such; a text within the limit is returned as it is.
pub truncate_lem :
    (s : String) (limit : ℕ)
    → IsPrefix (truncate s limit) s
      × (len (truncate s limit) ≤ limit)
      × (len s ≤ limit → truncate s limit ≡ s)
      × ((j : ℕ) → j ≤ limit → is_char_boundary s j ≡ true → j ≤ len (truncate s limit))
unfolding truncate
truncate_lem s limit = elim (Bool-cases (leb (len s) limit)) [
  | inl e ↦ rw e (
    subst (λ t. IsPrefix t s) (slice_all s) (slice-prefix s (len s)),
    ground (arith, e),
    λ _. refl,
    λ j b f. boundary-le s j f,
  )
  | inr e ↦
      let (boundary, bound, last) = valid_end_lem s limit in
      let size = slice-len s (valid_end s limit) boundary in
      rw e (
        slice-prefix s (valid_end s limit),
        omega (arith, bound, size),
        λ b. absurd (ground (arith, e, b)),
        λ j b f. omega (arith, last j b f, size),
      )
]

-- A text with characters keeps one, where the limit is that of the longest character.
pub truncate-nonempty : (s : String) (limit : ℕ) → s ≢ "" → 4 ≤ limit → truncate s limit ≢ ""
truncate-nonempty String.[] limit h b e = absurd (h refl)
truncate-nonempty (String.◌∷◌ c s) limit h b e =
    let first = String.◌∷◌ c String.[] in
    let size : len first ≡ len_utf8 c =
      len.cons c String.[] ∙ ground (arith, ap (λ k. len_utf8 c + k) len.nil) in
    let boundary =
      subst (λ t. is_char_boundary t (len first) ≡ true)
        (append.cons c String.[] s ∙ ap (λ t. String.◌∷◌ c t) (append.nil s))
        (boundary-append first s) in
    let (_, _, _, last) = truncate_lem (String.◌∷◌ c s) limit in
    let small = subst (λ k. k ≤ 4) (sym (len_utf8_def c)) (width-le _ _ _) in
    let kept = last (len first) (omega (arith, size, small, b)) boundary in
    omega (arith, kept, size, ap len e, len.nil, (len_utf8-pos c).1)
