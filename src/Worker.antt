-- ===== src/Worker.antt =====
-- internal/v2/worker/worker.go: the loop of a worker over the store. The interface eventStore is a
-- record of the store's operations on a state, each with the number of the operations before it,
-- which stands for what the environment answers.
pub mod Runs
pub mod Database
use icinga_kubernetes.Common.{
  ℕ, suc, ◌+◌, ◌%◌, ◌^◌, ltb, Bool, true, false, Option, none, some, is_some, List, [], ◌∷◌,
  if◌then◌else◌,
}

-- A call that returns an error, with the state and the number of events it returns.
pub record Call (S : Type 0) : Type 0 where
  pub state : S
  pub processed : ℕ
  pub failed : Bool

pub record EventStore (S : Type 0) : Type 0 where
  pub apply_shard : ℕ → ℕ → S → Call S
  pub cleanup : ℕ → S → Call S
  pub resolve_events : ℕ → S → Call S

abbrev pub apply_shard_size : ℕ
apply_shard_size = 8

-- What the idle timer was reset to: at once, `waits.idle` or `waits.retry`.
pub data Wait : Type 0 where
  at_once idle retry : Wait

-- `armed` is what the timer waits for, none once it has fired. The counters are uint64.
pub record Worker (S : Type 0) : Type 0 where
  pub state : S
  pub calls : ℕ
  pub ready : Bool
  pub processed : ℕ
  pub errors : ℕ
  pub armed : Option Wait

-- What select takes: the end of the context, a tick of one of the two tickers, or the idle timer.
pub data Wakeup : Type 0 where
  done cleanup_due events_due idle_due : Wakeup

-- One round of the loop, with what ctx.Err() says at its start and after the call.
pub record Turn : Type 0 where
  pub cancelled_before : Bool
  pub wakeup : Wakeup
  pub cancelled_after : Bool

pub data Loop (S : Type 0) : Type 0 where
  running returned : Worker S → Loop S

module _ {S : Type 0} where
  -- `defer metrics.SetReady(false)`
  abbrev pub stop : Worker S → Loop S
  stop w = Loop.returned (record w { ready = false })

  abbrev pub count_error : Worker S → Worker S
  count_error w = record w { errors = (w.errors + 1) % 2 ^ 64 }

  abbrev pub called : Call S → Worker S → Worker S
  called c w = record w { state = c.state; calls = suc w.calls }

  abbrev pub cleaned : Bool → Bool → Worker S → Loop S
  cleaned failed cancelled w =
      if failed
      then (if cancelled then stop w else Loop.running (count_error w))
      else Loop.running w

  abbrev pub resolved : Bool → Bool → Worker S → Loop S
  resolved failed cancelled w =
      if failed
      then (if cancelled then Loop.running w else Loop.running (count_error w))
      else Loop.running w

  -- `idle.Reset(0)` if events were processed, and else the wait that is given.
  abbrev pub rearm : ℕ → Wait → Worker S → Worker S
  rearm processed wait w = record w { armed = some (if ltb 0 processed then at_once else wait) }

  abbrev pub count_processed : ℕ → Worker S → Worker S
  count_processed processed w = record w { processed = (w.processed + processed) % 2 ^ 64 }

  abbrev pub set_ready : Bool → Worker S → Worker S
  set_ready ready w = record w { ready = ready }

  abbrev pub applied : ℕ → Bool → Bool → Worker S → Loop S
  applied processed failed cancelled w =
      if failed
      then (if cancelled
          then stop (set_ready false w)
          else Loop.running (rearm processed retry (count_error (set_ready false w))))
      else Loop.running (rearm processed idle (set_ready true w))

  abbrev pub fire : EventStore S → Bool → Worker S → Loop S
  fire s cancelled w =
      let c = s.apply_shard w.calls apply_shard_size w.state in
      applied c.processed c.failed cancelled
        (count_processed c.processed (called c (record w { armed = none })))

  -- The select. A timer that has fired and was not reset does not fire again.
  unfoldable pub wake : EventStore S → Wakeup → Bool → Worker S → Loop S
  wake s done cancelled w = stop w
  wake s cleanup_due cancelled w =
      let c = s.cleanup w.calls w.state in cleaned c.failed cancelled (called c w)
  wake s events_due cancelled w =
      let c = s.resolve_events w.calls w.state in resolved c.failed cancelled (called c w)
  wake s idle_due cancelled w = if is_some w.armed then fire s cancelled w else Loop.running w

  unfoldable pub turn : EventStore S → Turn → Worker S → Loop S
  unfolding wake
  turn s t w = if t.cancelled_before then stop w else wake s t.wakeup t.cancelled_after w

  abbrev pub and_then : Loop S → (Worker S → Loop S) → Loop S
  and_then (Loop.running w) k = k w
  and_then (Loop.returned w) k = Loop.returned w

  -- The loop of run, over the rounds so far.
  unfoldable pub run_turns : EventStore S → List Turn → Worker S → Loop S
  unfolding turn
  run_turns s [] w = Loop.running w
  run_turns s (t ∷ turns) w = and_then (turn s t w) (run_turns s turns)

  abbrev pub start : S → Worker S
  start state = record {
    state = state;
    calls = 0;
    ready = false;
    processed = 0;
    errors = 0;
    armed = some at_once;
  }

  -- run
  unfoldable pub run : EventStore S → List Turn → S → Loop S
  unfolding run_turns
  run s turns state = run_turns s turns (start state)
