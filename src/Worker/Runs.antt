-- ===== src/Worker/Runs.antt =====
-- worker.go: what holds of a worker's runs, over any store.
use icinga_kubernetes.Common.{
  ℕ, ◌≡◌, refl, sym, subst, arith, inl, inr, Bool-cases, Bool, true, false, ◌||◌, any, none,
  is_some, List, [], ◌∷◌,
}
use icinga_kubernetes.Worker.{
  EventStore, Worker, Wakeup, done, cleanup_due, events_due, idle_due, Turn, Loop, wake, turn,
  and_then, run_turns, start, run, cleaned, resolved, applied, apply_shard_size, called,
  count_processed,
}

-- The laws of a store: each operation keeps what holds of the state.
pub record Keeps {S : Type 0} (s : EventStore S) (I : S → Type 0) : Type 0 where
  pub apply_shard : (n limit : ℕ) (x : S) → I x → I (s.apply_shard n limit x).state
  pub cleanup : (n : ℕ) (x : S) → I x → I (s.cleanup n x).state
  pub resolve_events : (n : ℕ) (x : S) → I x → I (s.resolve_events n x).state

abbrev pub worker_of : {S : Type 0} → Loop S → Worker S
worker_of (Loop.running w) = w
worker_of (Loop.returned w) = w

abbrev pub is_done : Wakeup → Bool
is_done done = true
is_done cleanup_due = false
is_done events_due = false
is_done idle_due = false

abbrev pub is_cancelled : Turn → Bool
is_cancelled t = t.cancelled_before || is_done t.wakeup || t.cancelled_after

-- A worker that runs has its timer armed. One that returned is not ready, and its context has ended.
abbrev pub IsAlive : {S : Type 0} → Bool → Loop S → Type 0
IsAlive cancelled (Loop.running w) = is_some w.armed ≡ true
IsAlive cancelled (Loop.returned w) = (w.ready ≡ false) × (cancelled ≡ true)

module _ {S : Type 0} where
  cleaned-state :
      (failed cancelled : Bool) (w : Worker S)
      → (worker_of (cleaned failed cancelled w)).state ≡ w.state
  cleaned-state true true w = refl
  cleaned-state true false w = refl
  cleaned-state false cancelled w = refl

  cleaned-IsAlive :
      (failed cancelled : Bool) (w : Worker S)
      → is_some w.armed ≡ true
      → IsAlive cancelled (cleaned failed cancelled w)
  cleaned-IsAlive true true w a = (refl, refl)
  cleaned-IsAlive true false w a = a
  cleaned-IsAlive false cancelled w a = a

  resolved-state :
      (failed cancelled : Bool) (w : Worker S)
      → (worker_of (resolved failed cancelled w)).state ≡ w.state
  resolved-state true true w = refl
  resolved-state true false w = refl
  resolved-state false cancelled w = refl

  resolved-IsAlive :
      (failed cancelled : Bool) (w : Worker S)
      → is_some w.armed ≡ true
      → IsAlive cancelled (resolved failed cancelled w)
  resolved-IsAlive true true w a = a
  resolved-IsAlive true false w a = a
  resolved-IsAlive false cancelled w a = a

  applied-state :
      (n : ℕ) (failed cancelled : Bool) (w : Worker S)
      → (worker_of (applied n failed cancelled w)).state ≡ w.state
  applied-state n true true w = refl
  applied-state n true false w = refl
  applied-state n false cancelled w = refl

  applied-IsAlive :
      (n : ℕ) (failed cancelled : Bool) (w : Worker S)
      → IsAlive cancelled (applied n failed cancelled w)
  applied-IsAlive n true true w = (refl, refl)
  applied-IsAlive n true false w = refl
  applied-IsAlive n false cancelled w = refl

module _ {S : Type 0} (s : EventStore S) (I : S → Type 0) (keeps : Keeps s I) where
  record Good (cancelled : Bool) (l : Loop S) : Type 0 where
    pub state : I (worker_of l).state
    pub alive : IsAlive cancelled l

  wake-Good :
      (k : Wakeup) (cancelled : Bool) (w : Worker S)
      → I w.state
      → is_some w.armed ≡ true
      → Good (is_done k || cancelled) (wake s k cancelled w)
  unfolding wake
  wake-Good done cancelled w i a = record { state = i; alive = (refl, refl) }
  wake-Good cleanup_due cancelled w i a =
      let c = s.cleanup w.calls w.state in
      record {
        state =
            subst I (sym (cleaned-state c.failed cancelled (called c w)))
              (keeps.cleanup w.calls w.state i);
        alive = cleaned-IsAlive c.failed cancelled (called c w) a;
      }
  wake-Good events_due cancelled w i a =
      let c = s.resolve_events w.calls w.state in
      record {
        state =
            subst I (sym (resolved-state c.failed cancelled (called c w)))
              (keeps.resolve_events w.calls w.state i);
        alive = resolved-IsAlive c.failed cancelled (called c w) a;
      }
  wake-Good idle_due cancelled w i a =
      let c = s.apply_shard w.calls apply_shard_size w.state in
      let v = count_processed c.processed (called c (record w { armed = none })) in
      rw a (record {
        state =
            subst I (sym (applied-state c.processed c.failed cancelled v))
              (keeps.apply_shard w.calls apply_shard_size w.state i);
        alive = applied-IsAlive c.processed c.failed cancelled v;
      })

  IsAlive-weaken : (b c : Bool) (l : Loop S) → (b ≡ true → c ≡ true) → IsAlive b l → IsAlive c l
  IsAlive-weaken b c (Loop.running w) h a = a
  IsAlive-weaken b c (Loop.returned w) h (ready, ended) = (ready, h ended)

  turn-Good :
      (t : Turn) (w : Worker S)
      → I w.state
      → is_some w.armed ≡ true
      → Good (is_cancelled t) (turn s t w)
  unfolding turn
  turn-Good t w i a = elim (Bool-cases t.cancelled_before) [
    | inl e ↦ rw (e, turn) (record { state = i; alive = (refl, ground (arith, e)) })
    | inr e ↦ rw (e, turn) (wake-Good t.wakeup t.cancelled_after w i a)
  ]

  and_then-Good :
      (b c : Bool) (l : Loop S) (k : Worker S → Loop S)
      → Good b l
      → (b ≡ true → c ≡ true)
      → ((w : Worker S) → I w.state → is_some w.armed ≡ true → Good c (k w))
      → Good c (and_then l k)
  and_then-Good b c (Loop.running w) k g h more = more w g.state g.alive
  and_then-Good b c (Loop.returned w) k g h more = record {
    state = g.state;
    alive = IsAlive-weaken b c (Loop.returned w) h g.alive;
  }

  run_turns-Good :
      (turns : List Turn) (w : Worker S)
      → I w.state
      → is_some w.armed ≡ true
      → Good (any is_cancelled turns) (run_turns s turns w)
  unfolding run_turns
  run_turns-Good [] w i a = record { state = i; alive = a }
  run_turns-Good (t ∷ turns) w i a =
      and_then-Good (is_cancelled t) (any is_cancelled (t ∷ turns)) (turn s t w) (run_turns s turns)
        (turn-Good t w i a) (λ x. ground (arith, x))
        (λ v j b. weaken t turns v (run_turns-Good turns v j b))
    where
      weaken :
          (t : Turn) (turns : List Turn) (v : Worker S)
          → Good (any is_cancelled turns) (run_turns s turns v)
          → Good (any is_cancelled (t ∷ turns)) (run_turns s turns v)
      weaken t turns v g = record {
        state = g.state;
        alive =
            IsAlive-weaken (any is_cancelled turns) (any is_cancelled (t ∷ turns))
              (run_turns s turns v) (λ x. ground (arith, x)) g.alive;
      }

  -- Whatever order the tickers, the timer and the errors of the store come in, a worker keeps what
  -- the operations of its store keep; while it runs its timer is armed, so that the next ApplyShard
  -- is due; and it returns only if its context has ended, and is then not ready.
  pub run-Good :
      (turns : List Turn) (x : S)
      → I x
      → I (worker_of (run s turns x)).state × IsAlive (any is_cancelled turns) (run s turns x)
  unfolding run
  run-Good turns x i = let g = run_turns-Good turns (start x) i refl in (g.state, g.alive)
