-- ===== src/Notifier/Event/Summary.antt =====
-- notifier.go: eventSummary against the contract of the Notifications API.
use icinga_kubernetes.Common.{
  ℕ, zero, suc, ◌≤◌, ◌≡◌, refl, arith, ◌&&◌, ◌||◌, Bool, false, Bool-cases, inl, inr, String,
  str_eq, if◌then◌else◌,
}
use icinga_kubernetes.Notifier.Event.{
  is_break, is_space, first_line, trim_start, trim_end, take_runes, default_message, event_summary,
}

-- Has the text a line feed or a carriage return?
abbrev pub has_break : String → Bool
has_break String.[] = false
has_break (String.◌∷◌ c s) = is_break c || has_break s

-- The number of the runes of a text.
abbrev pub runes : String → ℕ
runes String.[] = 0
runes (String.◌∷◌ c s) = suc (runes s)

first_line-has_break : (s : String) → has_break (first_line s) ≡ false
unfolding first_line
first_line-has_break String.[] = refl
first_line-has_break (String.◌∷◌ c s) = elim (Bool-cases (is_break c)) [
  | inl e ↦ rw (e, first_line) refl
  | inr e ↦ rw (e, first_line) (rw e (first_line-has_break s))
]

trim_start-has_break : (s : String) → has_break s ≡ false → has_break (trim_start s) ≡ false
unfolding trim_start
trim_start-has_break String.[] h = refl
trim_start-has_break (String.◌∷◌ c s) h = ground (arith, trim_start-has_break s, h)

trim_end-has_break : (s : String) → has_break s ≡ false → has_break (trim_end s) ≡ false
unfolding trim_end
trim_end-has_break String.[] h = refl
trim_end-has_break (String.◌∷◌ c s) h =
    let rest : has_break (trim_end s) ≡ false = trim_end-has_break s (ground (arith, h)) in
    elim (Bool-cases (is_space c && str_eq (trim_end s) "")) [
      | inl e ↦ rw (e, trim_end) refl
      | inr e ↦ rw (e, trim_end) (ground (arith, rest, h))
    ]

take_runes-has_break :
    (n : ℕ) (s : String) → has_break s ≡ false → has_break (take_runes n s) ≡ false
unfolding take_runes
take_runes-has_break zero s h = refl
take_runes-has_break (suc n) String.[] h = refl
take_runes-has_break (suc n) (String.◌∷◌ c s) h = ground (arith, take_runes-has_break n s, h)

take_runes-runes : (n : ℕ) (s : String) → runes (take_runes n s) ≤ n
unfolding take_runes
take_runes-runes zero s = omega arith
take_runes-runes (suc n) String.[] = omega arith
take_runes-runes (suc n) (String.◌∷◌ c s) = omega (arith, take_runes-runes n s)

-- Whatever the message, its summary is one line of no more runes than the bound, given that the
-- text of the state has no line break.
pub event_summary_lem :
    (n : ℕ) (message state : String)
    → has_break (default_message state) ≡ false
    → (has_break (event_summary n message state) ≡ false)
      × (runes (event_summary n message state) ≤ n)
unfolding event_summary
event_summary_lem n message state plain =
    let summary = trim_end (trim_start (first_line message)) in
    let one_line =
      trim_end-has_break (trim_start (first_line message))
        (trim_start-has_break (first_line message) (first_line-has_break message)) in
    (
      take_runes-has_break n (if str_eq summary "" then default_message state else summary)
          (ground (arith, plain, one_line)),
      take_runes-runes n (if str_eq summary "" then default_message state else summary),
    )
