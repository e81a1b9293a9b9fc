-- ===== src/Common/Text.antt =====
-- Go's `strings` functions on native texts. Letter case is that of ASCII, the alphabet of the
-- Kubernetes names, kinds and keys that the program folds.
use Prim.Native.Nat.{Ordering, ℕ, zero, suc, ◌/◌, ◌%◌}
use Prim.Native.Char.{Char}
use Prim.Native.String.{String, char_at, ◌++◌ as str_append, compare as str_compare}
use mathlib.Core.Bool.{Bool}
use mathlib.Core.List.{List, [], ◌∷◌}
use mathlib.Core.Option.{none, some}
use text.Mathlib.Text.{◌==◌, find?}
use icinga_kubernetes.Common.Tests.{ltb, is_some, if◌then◌else◌}
use icinga_kubernetes.Common.Int.{ℤ, pos, negsuc}

lower_char : Char → Char
lower_char c = elim (find? "ABCDEFGHIJKLMNOPQRSTUVWXYZ" (String.◌∷◌ c String.[])) [
  | none ↦ c
  | some i ↦ char_at "abcdefghijklmnopqrstuvwxyz" i
]

-- strings.ToLower
unfoldable pub to_lower : String → String
unfolding lower_char
to_lower String.[] = String.[]
to_lower (String.◌∷◌ c s) = String.◌∷◌ (lower_char c) (to_lower s)

-- strings.EqualFold
unfoldable pub equal_fold : String → String → Bool
unfolding to_lower
equal_fold a b = to_lower a == to_lower b

-- Go's < on strings: the order of the bytes.
abbrev pub str_ltb : String → String → Bool
str_ltb a b = elim (str_compare a b) [ Ordering.lt ↦ Bool.true | _ ↦ Bool.false ]

-- strings.Contains
abbrev pub contains : String → String → Bool
contains s t = is_some (find? s t)

-- fmt's %d for a natural number below 10, and %x for a half byte.
unfoldable pub hex_digit : ℕ → Char
hex_digit n = char_at "0123456789abcdef" n

-- The decimal digits, with fuel for as many as there are.
show_digits : ℕ → ℕ → String
unfolding hex_digit
show_digits zero n = ""
show_digits (suc fuel) n =
    let last = String.◌∷◌ (hex_digit (n % 10)) String.[] in
    let rest = show_digits fuel (n / 10) in if ltb n 10 then last else str_append rest last

-- fmt's %d
unfoldable pub show_ℕ : ℕ → String
unfolding show_digits
show_ℕ n = show_digits (suc n) n

unfoldable pub show_ℤ : ℤ → String
unfolding show_ℕ
show_ℤ (pos n) = show_ℕ n
show_ℤ (negsuc n) = str_append "-" (show_ℕ (suc n))

-- The first part of a text up to a dot, and the parts after it.
abbrev prepend : Char → List String → List String
prepend c [] = String.◌∷◌ c String.[] ∷ []
prepend c (p ∷ ps) = String.◌∷◌ c p ∷ ps

-- strings.Split(path, ".")
unfoldable pub split_dots : String → List String
split_dots String.[] = "" ∷ []
split_dots (String.◌∷◌ c s) =
    let rest = split_dots s in
    if is_some (find? "." (String.◌∷◌ c String.[])) then "" ∷ rest else prepend c rest
