-- ===== src/Kubeauth/Valid.antt =====
-- token.go: which tokens are handed out.
use icinga_kubernetes.Common.{
  ℕ, ◌<◌, ◌≡◌, refl, inl, inr, arith, ◌==◌, leb, ◌||◌, Bool-cases, true, false, String, str_eq,
  eq_iff, if◌then◌else◌,
}
use icinga_kubernetes.Common.Result.{ok, err}
use icinga_kubernetes.Model.{Time}
use icinga_kubernetes.Kubeauth.{
  Source, TokenReply, issued, refused, is_cached, keep_token, renew, get_token, invalidate, Call,
  finish, round_trip,
}

-- The source holds the token, which is not empty and expires after `t`.
abbrev pub IsFresh : Time → String → Source → Type 0
IsFresh t token s = (s.token ≡ token) × (str_eq token "" ≡ false) × (t < s.expires)

-- The time at which Token returns: that of its first look at the clock if the token is cached, and
-- else of the second.
abbrev pub returned_at : Time → Time → Source → Time
returned_at now later s = if is_cached now s then now else later

-- The token that Token returns is the one that the source then holds, is not empty and has not
-- expired when it is returned.
pub get_token-IsFresh :
    (now : Time) (reply : TokenReply) (later : Time) (s : Source) (token : String)
    → (get_token now reply later s).1 ≡ ok token
    → IsFresh (returned_at now later s) token (get_token now reply later s).0
unfolding get_token renew keep_token
get_token-IsFresh now refused later s token e = ground (arith, e)
get_token-IsFresh now (issued t x) later s token e = ground (arith, e)

-- Token returns a token whenever the source holds one that has not expired at the second reading of
-- the clock, whatever the API answers.
pub get_token-available :
    (now : Time) (reply : TokenReply) (later : Time) (s : Source)
    → str_eq s.token "" ≡ false
    → later < s.expires
    → (token : String) × ((get_token now reply later s).1 ≡ ok token)
unfolding get_token renew keep_token
get_token-available now refused later s named fresh = (s.token, ground (arith, named, fresh))
get_token-available now (issued t x) later s named fresh = elim (Bool-cases (is_cached now s)) [
  | inl c ↦ (s.token, ground (arith, c))
  | inr c ↦ elim (Bool-cases (str_eq t "" || leb x later)) [
    | inl b ↦ (s.token, ground (arith, named, fresh, c, b))
    | inr b ↦ (t, ground (arith, c, b))
  ]
]

finish-refused :
    (answer : String → ℕ) (token : String) (t : Time) (o : Call)
    → ((a : String) → o.1 ≡ ok a → o.0.token ≡ a)
    → (finish answer o).1 ≡ ok token
    → answer token ≡ 401
    → is_cached t (finish answer o).0 ≡ false
unfolding finish invalidate
finish-refused answer token t (s, err x) held e unauthorized = absurd (ground (arith, e))
finish-refused answer token t (s, ok a) held e unauthorized =
    let u : (answer a == 401) ≡ true = ground (arith, e, unauthorized) in
    let i : str_eq a s.token ≡ true = ground (arith, held a refl, eq_iff a s.token) in
    rw (u, i, finish, invalidate) refl

-- After a response with the status 401 the source no longer holds the token that was sent, so that
-- the next call of Token requests one.
pub round_trip-refused :
    (now : Time) (reply : TokenReply) (later : Time) (answer : String → ℕ) (s : Source)
    (token : String) (t : Time)
    → (round_trip now reply later answer s).1 ≡ ok token
    → answer token ≡ 401
    → is_cached t (round_trip now reply later answer s).0 ≡ false
unfolding round_trip
round_trip-refused now reply later answer s token t e unauthorized =
    finish-refused answer token t (get_token now reply later s)
      (λ a f. (get_token-IsFresh now reply later s a f).0) e unauthorized
