-- ===== src/Tests/Delivery.antt =====
-- A service account's token, and the notifications of one pod.
use icinga_kubernetes.Common.{inl, inr, ap, sym, ◌∙◌}
use icinga_kubernetes.Notifier.Outbox.Held.{at_first, queued, claim_record-Held}
use icinga_kubernetes.Notifier.Outbox.Moves.{IsOrdered}
use icinga_kubernetes.Store.Tables.{Db, notify}
use icinga_kubernetes.Tests.Data.{pod, empty_db}
use icinga_kubernetes.Common.{
  ℕ, ◌+◌, ◌≡◌, ◌≢◌, refl, arith, false, none, some, List, [], ◌∷◌, String,
}
use icinga_kubernetes.Common.Result.{ok}
use icinga_kubernetes.Model.{State}
use icinga_kubernetes.Store.Tables.{Db, OutboxRow, notify}
use icinga_kubernetes.Kubeauth.{
  Source, issued, refused, get_token, renew, keep_token, round_trip, finish,
}
use icinga_kubernetes.Kubeauth.Valid.{IsFresh, returned_at, get_token-IsFresh, get_token-available}
use icinga_kubernetes.Notifier.Event.{
  event_summary, first_line, trim_start, trim_end, take_runes, default_message, is_space, is_break,
}
use icinga_kubernetes.Notifier.Event.Summary.{has_break}
use icinga_kubernetes.Notifier.Outbox.{
  claim_record, claim_duration, candidate, is_claimable, take_claim,
}
use icinga_kubernetes.Notifier.Outbox.Moves.{IsOrdered}
use icinga_kubernetes.Notifier.Outbox.Ordered.{Reach, here, next, Step, Reach-IsOrdered}
use icinga_kubernetes.Tests.Data.{empty_db, pod}

abbrev empty_source : Source
empty_source = record { token = ""; expires = 0; refresh = 0 }

abbrev held_source : Source
held_source = record { token = "t"; expires = 900; refresh = 700 }

issued_test : (get_token 5 (issued "t" 900) 10 empty_source).1 ≡ ok "t"
unfolding get_token renew keep_token
issued_test = refl

get_token-IsFresh_example :
    IsFresh (returned_at 5 10 empty_source) "t" (get_token 5 (issued "t" 900) 10 empty_source).0
get_token-IsFresh_example = get_token-IsFresh 5 (issued "t" 900) 10 empty_source "t" issued_test

get_token-available_example :
    (token : String) × ((get_token 800 refused 810 held_source).1 ≡ ok token)
get_token-available_example = get_token-available 800 refused 810 held_source refl (omega arith)

unauthorized_test : (round_trip 5 (issued "t" 900) 10 (λ _. 401) empty_source).1 ≡ ok "t"
unfolding round_trip finish get_token renew keep_token
unauthorized_test = refl

summary_test : event_summary 10 " one line\ntwo" "ok" ≡ "one line"
unfolding event_summary first_line trim_start trim_end take_runes is_space is_break
summary_test = refl

plain_test : has_break (default_message "critical") ≡ false
unfolding is_break
plain_test = refl

-- A pod's problem is queued and claimed.
abbrev queued_db : Db
unfolding notify
queued_db = notify 100 pod "upsert" empty_db

abbrev claimed_db : Db
unfolding claim_record
claimed_db = record queued_db { outbox = (claim_record (λ _. false) 200 "n1" queued_db.outbox).1 }

empty_db-IsOrdered : IsOrdered empty_db.next_outbox empty_db.outbox
empty_db-IsOrdered = record {
  below = λ x m. elim m [ ];
  distinct = λ x y m n e. elim m [ ];
  first = λ x m b. elim m [ ];
}

reached : Reach empty_db claimed_db
unfolding queued_db notify claimed_db
reached =
    next (next here (Step.queued 100 pod "upsert" empty_db))
      (Step.claimed (λ _. false) 200 "n1" queued_db)

Reach-IsOrdered_example : IsOrdered claimed_db.next_outbox claimed_db.outbox
Reach-IsOrdered_example = Reach-IsOrdered reached empty_db-IsOrdered

abbrev row : ℕ → String → OutboxRow
row id resource = record {
  id = id;
  resource_id = resource;
  cluster = "campus";
  group = "core";
  version = "v1";
  kind = "Pod";
  namespace = "web";
  name = "shop";
  labels = [];
  state = State.critical;
  reason = "";
  action = "upsert";
  created_at = 0;
  available_at = 0;
  claimed_by = none;
  claimed_until = none;
  attempts = 0;
  delivered_at = none;
  last_error = none;
}

abbrev waiting : List OutboxRow
waiting = row 1 "a" ∷ row 2 "a" ∷ row 3 "b" ∷ []

abbrev with_claim : ℕ → String → OutboxRow → OutboxRow
with_claim now identity e = record e {
  claimed_by = some identity;
  claimed_until = some (now + claim_duration);
  attempts = 1;
}

abbrev one_waiting : Db
one_waiting = record empty_db { outbox = row 1 "a" ∷ []; next_outbox = 2 }

one_waiting-IsOrdered : IsOrdered 2 (row 1 "a" ∷ [])
one_waiting-IsOrdered = record {
  below =
      λ x m. elim m [ inl e ↦ let i = ap (λ r. r.id) e in omega (arith, i) | inr n ↦ elim n [ ] ];
  distinct = λ x y m n i. elim m [
    | inr k ↦ elim k [ ]
    | inl e ↦ elim n [ inl f ↦ sym e ∙ f | inr k ↦ elim k [ ] ]
  ];
  first = λ x m b y n q i. elim n [
    | inr k ↦ elim k [ ]
    | inl f ↦ elim m [
      | inr k ↦ elim k [ ]
      | inl e ↦
          let a = ap (λ r. r.id) e in let b = ap (λ r. r.id) f in absurd (omega (arith, a, b, i))
    ]
  ];
}

abbrev first_claimed : Db
first_claimed = record one_waiting {
  outbox = (claim_record (λ _. false) 50 "n1" one_waiting.outbox).1;
}

abbrev pod_record : OutboxRow
pod_record = record (row 2 pod.id) {
  cluster = pod.cluster;
  group = pod.group;
  version = pod.version;
  kind = pod.kind;
  namespace = pod.namespace;
  name = pod.name;
  labels = pod.labels;
  state = pod.state;
  reason = pod.reason;
  action = "upsert";
  created_at = 55;
  available_at = 55;
}

first_claim_test :
    (claim_record (λ _. false) 50 "n1" one_waiting.outbox).0 ≡ some (with_claim 50 "n1" (row 1 "a"))
unfolding claim_record candidate is_claimable take_claim
first_claim_test = refl

next_claim_test :
    (claim_record (λ _. false) 60 "n2" (notify 55 pod "upsert" first_claimed).outbox).0
    ≡ some (with_claim 60 "n2" pod_record)
unfolding claim_record candidate is_claimable take_claim notify
next_claim_test = refl

claim_record-Held_example : (with_claim 60 "n2" pod_record).id ≢ (with_claim 50 "n1" (row 1 "a")).id
claim_record-Held_example =
    claim_record-Held (λ _. false) (λ _. false) 50 60 "n1" "n2" one_waiting
      (notify 55 pod "upsert" first_claimed) (with_claim 50 "n1" (row 1 "a"))
      (with_claim 60 "n2" pod_record) one_waiting-IsOrdered first_claim_test
      (queued 55 pod "upsert" at_first) (omega arith) next_claim_test
