-- ===== src/Tests/Federated.antt =====
-- A server that reads from another one.
use icinga_kubernetes.Common.{◌≡◌, ◌≤◌, max, refl, arith, none, some, true, false, [], ◌∷◌}
use icinga_kubernetes.Common.Int.{pos}
use icinga_kubernetes.Common.Table.{count}
use icinga_kubernetes.Api.Freshness.{Ages, freshness_rank, federation_freshness}
use icinga_kubernetes.Api.Federation.{
  Response, Flight, Gate, empty_gate, served, waiting, usable, aged, Request, flight_key, Attempt,
  federation_read, read_through, after_begin, begin, finish,
}
use icinga_kubernetes.Api.Federation.Bounded.{reach_empty, reach_begin, IsValid, Reach-IsValid}
use icinga_kubernetes.Api.Federation.Awaited.{federation_read-served, Awaits, federation_read-waits}
use icinga_kubernetes.Api.Federation.Rests.{reads, still, calls_to, finish-Rests}

abbrev ages : Ages
ages = record { stale_after = 60_000_000_000; unavailable_after = 300_000_000_000 }

abbrev answer : Response
answer = record { status = pos 200; body = "{}"; freshness = "live"; fetched = 1_000_000_000 }

abbrev request : Request
request = record {
  target_name = "lab";
  target_url = "https://lab";
  path = "/api/v1/resources";
  hash = "ab";
}

abbrev cold : Attempt
cold = record {
  cached = none;
  ages = ages;
  context_ended = false;
  aged_at = 100_000_000_000;
  compared_at = 100_000_000_000;
  started_at = 100_000_000_000;
}

abbrev warm : Attempt
warm = record cold { cached = some answer }

usable_test : usable (λ s. true) warm.cached ≡ some answer
unfolding usable
usable_test = refl

federation_read-served_example :
    ((federation_read (λ s. true) request warm empty_gate).0
      ≡ served (aged ages 100_000_000_000 answer))
    × (freshness_rank (aged ages 100_000_000_000 answer).freshness
        ≡ max
            (freshness_rank "live")
            (freshness_rank (federation_freshness ages 1_000_000_000 100_000_000_000)))
federation_read-served_example =
    federation_read-served (λ s. true) request warm empty_gate answer usable_test refl refl

waits_test : (federation_read (λ s. true) request cold empty_gate).0 ≡ waiting (flight_key request)
unfolding federation_read read_through after_begin begin usable
waits_test = refl

federation_read-waits_example :
    (flight_key request ≡ flight_key request)
    × Awaits
        (λ s. true)
        request
        cold
        empty_gate
        (federation_read (λ s. true) request cold empty_gate).1
federation_read-waits_example =
    federation_read-waits (λ s. true) request cold empty_gate (flight_key request) waits_test

Reach-IsValid_example : IsValid (begin "lab" "lab/a" 5 (begin "lab" "lab/b" 4 empty_gate))
Reach-IsValid_example =
    Reach-IsValid (begin "lab" "lab/a" 5 (begin "lab" "lab/b" 4 empty_gate))
      (reach_begin "lab" "lab/a" 5 (reach_begin "lab" "lab/b" 4 reach_empty))

abbrev flight : Flight
flight = record { key = "lab/b"; target = "lab"; known_failed = false }

abbrev flying : Gate
flying = record empty_gate { pending = flight ∷ [] }

finish-Rests_example :
    count (calls_to "lab") (begin "lab" "lab/a" 5 (finish flight true 4 flying)).pending
    ≤ count (calls_to "lab") flying.pending
finish-Rests_example =
    finish-Rests flight 4 flying (begin "lab" "lab/a" 5 (finish flight true 4 flying))
      (reads "lab" "lab/a" 5 (omega arith) still)
