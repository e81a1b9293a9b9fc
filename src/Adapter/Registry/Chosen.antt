-- ===== src/Adapter/Registry/Chosen.antt =====
-- registry.go: which definition describes an object.
use icinga_kubernetes.Common.{
  ℕ, ◌≡◌, refl, subst, arith, ◌⊎◌, inl, inr, Bool-cases, Option-cases, true, false, Option, none,
  some, List, [], ◌∷◌, All, Exists, String,
}
use icinga_kubernetes.Adapter.Registry.{Definition, match_score, is_better, choose}

-- The definition does not match, or its score is at most `s`.
abbrev pub AtMost : String → String → ℕ → Definition → Type 0
AtMost group kind s d = is_better (match_score group kind d) (some s) ≡ false

pub record IsBest (group kind : String) (ds : List Definition) (s : ℕ) (d : Definition)
    : Type 0 where
  pub member : Exists (λ x. x ≡ d) ds
  pub score : match_score group kind d ≡ some s
  pub best : All (AtMost group kind s) ds

NoBetter : String → String → Option ℕ → Definition → Type 0
NoBetter group kind best d = is_better (match_score group kind d) best ≡ false

record IsChosen (group kind : String) (best : Option ℕ) (selected : Option Definition)
    (ds : List Definition) (r : Option Definition) : Type 0 where
  kept :
      (All (NoBetter group kind best) ds × (r ≡ selected))
      ⊎ ((d : Definition) × (s : ℕ) × (r ≡ some d)
          × IsBest group kind ds s d
          × (is_better (some s) best ≡ true))

not_above :
    (o best : Option ℕ) (s : ℕ)
    → is_better o best ≡ false
    → is_better (some s) best ≡ true
    → is_better o (some s) ≡ false
not_above none best s a b = refl
not_above (some r) none s a b = absurd (ground (arith, a))
not_above (some r) (some t) s a b = ground (arith, a, b)

above :
    (best : Option ℕ) (s t : ℕ)
    → is_better (some s) best ≡ true
    → is_better (some t) (some s) ≡ true
    → is_better (some t) best ≡ true
above none s t a b = refl
above (some r) s t a b = ground (arith, a, b)

choose-IsChosen :
    (group kind : String) (best : Option ℕ) (selected : Option Definition) (ds : List Definition)
    → IsChosen group kind best selected ds (choose group kind best selected ds)
unfolding choose NoBetter
choose-IsChosen group kind best selected [] = record { kept = inl (tt, refl) }
choose-IsChosen group kind best selected (d ∷ ds) =
    elim (Bool-cases (is_better (match_score group kind d) best)) [
      | inr b ↦
          rw (b, choose)
            (elim (choose-IsChosen group kind best selected ds).kept [
              | inl (a, e) ↦ record { kept = inl ((b, a), e) }
              | inr (x, s, e, i, c) ↦ record {
                kept = inr (
                  x,
                  s,
                  e,
                  record {
                    member = inr i.member;
                    score = i.score;
                    best = (not_above (match_score group kind d) best s b c, i.best);
                  },
                  c,
                );
              }
            ])
      | inl b ↦ elim (Option-cases (match_score group kind d)) [
        | inl n ↦ absurd (ground (arith, b, n))
        | inr (s, n) ↦
            rw (b, choose)
              (elim (choose-IsChosen group kind (match_score group kind d) (some d) ds).kept [
                | inl (a, e) ↦ record {
                  kept = inr (
                    d,
                    s,
                    e,
                    record {
                      member = inl refl;
                      score = n;
                      best = (ground (arith, n), subst (λ o. All (NoBetter group kind o) ds) n a);
                    },
                    subst (λ o. is_better o best ≡ true) n b,
                  );
                }
                | inr (x, t, e, i, c) ↦ record {
                  kept = inr (
                    x,
                    t,
                    e,
                    record {
                      member = inr i.member;
                      score = i.score;
                      best = (ground (arith, n, c), i.best);
                    },
                    above best s t (subst (λ o. is_better o best ≡ true) n b)
                        (subst (λ o. is_better (some t) o ≡ true) n c),
                  );
                }
              ])
      ]
    ]

-- The definition that is chosen for a group and a kind is one of the registry that matches them, and
-- no other scores more; none is chosen only if none matches.
pub choose-IsBest :
    (group kind : String) (ds : List Definition)
    → ((choose group kind none none ds ≡ none) × All (λ d. match_score group kind d ≡ none) ds)
      ⊎ ((d : Definition) × (s : ℕ) × (choose group kind none none ds ≡ some d)
          × IsBest group kind ds s d)
unfolding NoBetter
choose-IsBest group kind ds = elim (choose-IsChosen group kind none none ds).kept [
  | inl (a, e) ↦ inl (e, unmatched ds a)
  | inr (d, s, e, i, c) ↦ inr (d, s, e, i)
]
  where
    unmatched :
        (ds : List Definition)
        → All (NoBetter group kind none) ds
        → All (λ d. match_score group kind d ≡ none) ds
    unmatched [] a = tt
    unmatched (d ∷ ds) (x, a) = (
      elim (Option-cases (match_score group kind d)) [
        | inl n ↦ n
        | inr (s, n) ↦ absurd (ground (arith, x, n))
      ],
      unmatched ds a,
    )
