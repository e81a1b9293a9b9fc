-- ===== src/Notifier/Outbox.antt =====
-- notifier.go: Claim, Delivered and Retry, each one statement on the table notification_outbox.
-- `locked` are the rows that another statement holds (FOR UPDATE SKIP LOCKED).
pub mod Moves
pub mod Ordered
pub mod Held
use icinga_kubernetes.Common.{
  ℕ, ◌+◌, ◌*◌, ◌^◌, ltb, leb, ◌==◌, min, ◌&&◌, not, any, Bool, true, false, is_none, Option, none,
  some, List, [], ◌∷◌, sort, String, str_eq, if◌then◌else◌,
}
use icinga_kubernetes.Common.Table.{select, update, count}
use icinga_kubernetes.Common.Result.{Result, ok, err}
use icinga_kubernetes.Model.{Time}
use icinga_kubernetes.Store.Tables.{OutboxRow}
use icinga_kubernetes.Store.Inbox.{head?}
use icinga_kubernetes.Store.Events.{second}

abbrev pub claim_duration : Time
claim_duration = 30 * second

-- earlier.resource_id=event.resource_id AND earlier.id<event.id AND earlier.delivered_at IS NULL
abbrev pub is_ahead : OutboxRow → OutboxRow → Bool
is_ahead event earlier =
    str_eq earlier.resource_id event.resource_id
    && ltb earlier.id event.id
    && is_none earlier.delivered_at

abbrev pub is_expired : Time → Option Time → Bool
is_expired now none = true
is_expired now (some until) = ltb until now

unfoldable pub is_claimable : Time → List OutboxRow → OutboxRow → Bool
is_claimable now rows event =
    is_none event.delivered_at
    && leb event.available_at now
    && is_expired now event.claimed_until
    && not (any (is_ahead event) rows)

abbrev pub by_id : OutboxRow → OutboxRow → Bool
by_id a b = leb a.id b.id

-- The common table expression `candidate`.
unfoldable pub candidate : (OutboxRow → Bool) → Time → List OutboxRow → Option OutboxRow
unfolding is_claimable
candidate locked now rows =
    head? (sort by_id (select (λ e. is_claimable now rows e && not (locked e)) rows))

unfoldable pub take_claim : Time → String → OutboxRow → OutboxRow
take_claim now identity e = record e {
  claimed_by = some identity;
  claimed_until = some (now + claim_duration);
  attempts = e.attempts + 1;
}

abbrev pub has_id : ℕ → OutboxRow → Bool
has_id id e = e.id == id

-- Store.Claim: the record that is returned, and the table after it.
unfoldable pub claim_record :
    (OutboxRow → Bool) → Time → String → List OutboxRow → Option OutboxRow × List OutboxRow
unfolding candidate take_claim
claim_record locked now identity rows = elim (candidate locked now rows) [
  | none ↦ (none, rows)
  | some e ↦ (some (take_claim now identity e), update (has_id e.id) (take_claim now identity) rows)
]

abbrev pub is_claimed_by : String → Option String → Bool
is_claimed_by identity none = false
is_claimed_by identity (some holder) = str_eq holder identity

-- WHERE id=$1 AND claimed_by=$2 AND delivered_at IS NULL
unfoldable pub is_held : ℕ → String → OutboxRow → Bool
is_held id identity e = has_id id e && is_claimed_by identity e.claimed_by && is_none e.delivered_at

unfoldable pub mark_delivered : Time → OutboxRow → OutboxRow
mark_delivered now e = record e {
  delivered_at = some now;
  claimed_by = none;
  claimed_until = none;
  last_error = none;
}

pub data DeliveryError : Type 0 where
  claim_lost : DeliveryError

-- Store.Delivered, with the table that the statement leaves.
unfoldable pub delivered :
    Time → ℕ → String → List OutboxRow → List OutboxRow × Result DeliveryError (Unit {0})
unfolding is_held mark_delivered
delivered now id identity rows = (
  update (is_held id identity) (mark_delivered now) rows,
  if count (is_held id identity) rows == 1 then ok tt else err DeliveryError.claim_lost,
)

-- LEAST(interval '1 minute', power(2, LEAST(attempts, 6)) * interval '1 second')
unfoldable pub backoff : ℕ → Time
backoff attempts = min (60 * second) (2 ^ min attempts 6 * second)

unfoldable pub release : Time → String → OutboxRow → OutboxRow
unfolding backoff
release now message e = record e {
  available_at = now + backoff e.attempts;
  claimed_by = none;
  claimed_until = none;
  last_error = some message;
}

-- Store.Retry; `message` is the error's text, cut to 4096 bytes.
unfoldable pub retry : Time → ℕ → String → String → List OutboxRow → List OutboxRow
unfolding is_held release
retry now id identity message = update (is_held id identity) (release now message)
