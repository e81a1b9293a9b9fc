-- ===== src/Kubeauth.antt =====
-- internal/v2/kubeauth/token.go: the cached credential of a service account. The answer of the
-- TokenRequest and the clock's readings before and after it are arguments.
pub mod Valid
use icinga_kubernetes.Common.{
  ℕ, ◌+◌, ◌-◌, ◌*◌, ◌/◌, ltb, leb, ◌==◌, ◌&&◌, ◌||◌, not, Bool, true, false, String, str_eq,
  if◌then◌else◌,
}
use icinga_kubernetes.Common.Result.{Result, ok, err}
use icinga_kubernetes.Model.{Time}
use icinga_kubernetes.Store.Events.{second}

pub record Source : Type 0 where
  pub token : String
  pub expires : Time
  pub refresh : Time

-- The token and its expiration, or an error of the API.
pub data TokenReply : Type 0 where
  issued : String → Time → TokenReply
  refused : TokenReply

pub data TokenError : Type 0 where
  token_request_failed : TokenError

-- What a call of Token returns, and the source after it.
abbrev pub Call : Type 0
Call = Source × Result TokenError String

-- The branch `err != nil`: a token that is still valid is kept, and asked for again soon.
unfoldable pub keep_token : Time → Source → Call
keep_token now s = (
  record s { refresh = now + 15 * second },
  if not (str_eq s.token "") && ltb now s.expires
      then ok s.token
      else err TokenError.token_request_failed,
)

unfoldable pub renew : TokenReply → Time → Source → Call
unfolding keep_token
renew refused now s = keep_token now s
renew (issued token expires) now s =
    if str_eq token "" || leb expires now then keep_token now s else (
      record { token = token; expires = expires; refresh = now + (expires - now) * 4 / 5 },
      ok token,
    )

abbrev pub is_cached : Time → Source → Bool
is_cached now s = not (str_eq s.token "") && ltb now s.refresh && ltb now s.expires

-- (*Source).Token; `later` is the time after the request.
unfoldable pub get_token : Time → TokenReply → Time → Source → Call
unfolding renew
get_token now reply later s = if is_cached now s then (s, ok s.token) else renew reply later s

-- (*Source).Invalidate
unfoldable pub invalidate : String → Source → Source
invalidate token s = if str_eq token s.token then record s { token = "" } else s

-- RoundTrip behind its call of Token: the source by the status of the response to the token, where
-- a request without a response has the status 0.
unfoldable pub finish : (String → ℕ) → Call → Call
unfolding invalidate
finish answer (s, err x) = (s, err x)
finish answer (s, ok token) = (if answer token == 401 then invalidate token s else s, ok token)

-- transport.RoundTrip, with the token that is sent.
unfoldable pub round_trip : Time → TokenReply → Time → (String → ℕ) → Source → Call
unfolding get_token finish
round_trip now reply later answer s = finish answer (get_token now reply later s)
