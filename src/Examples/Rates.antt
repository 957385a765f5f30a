-- ===== src/Examples/Rates.antt =====
-- A limiter for two messages a second, and the supervisor of a bind.
use siphon_smpp.Common.{
  ℕ, zero, suc, ◌+◌, ◌-◌, ◌*◌, ◌≤◌, Bool, true, false, not, Option, none, some, List, [], ◌∷◌, ◌≡◌,
  refl, ok, err, arith,
}
use siphon_smpp.RateLimiter.{
  nanos_per_sec, token, Bucket, new, try_acquire, wait_for, acquire, grants,
}
use siphon_smpp.RateLimiter.Bounds.{IsValid, last_instant, grants_bounded}
use siphon_smpp.RateLimiter.Waits.{acquire_returns}
use siphon_smpp.Runtime.Supervisor.{Observed, await_bind, run_bind_loop}
use siphon_smpp.Runtime.Backoff.{expected_sleeps, await_bind_returns, run_bind_loop-sleeps}
use siphon_smpp.Runtime.{State, Smsc, bind_gone}
use siphon_smpp.Runtime.Client.{on_smsc_bound}
use siphon_smpp.Runtime.Startup.{nanos_per_milli}
use siphon_smpp.Runtime.BindClient.{client_of, listener_of, by_timer, client_timer}
use siphon_smpp.Status.{esme_rsyserr}
use siphon_smpp.Outcome.{on_bind, into_pyerr}
use siphon_smpp.Sends.{BindTarget, bind_handle, Exchange, settle_on_bind, send_error}
use siphon_smpp.Examples.Fixtures.{state, empty_state, script, up}

abbrev instants : List ℕ
instants = 0 ∷ 5 ∷ 5 ∷ 500000000 ∷ 500000001 ∷ []

grants_bounded_example :
    (grants instants (new 2 0)).1 * token ≤ 2 * (nanos_per_sec + (last_instant 0 instants - 0))
grants_bounded_example = grants_bounded 2 0 instants (omega arith) (omega arith)

abbrev half_full : Bucket
half_full = record { tokens = 500000000; max_tokens = 2 * token; refill_per_sec = 2; last = 0 }

half_full-IsValid : IsValid half_full
half_full-IsValid = omega arith

slept : 10 + wait_for (try_acquire 10 half_full).0 ≤ 300000000
unfolding wait_for try_acquire
slept = omega arith

acquire_returns_example :
    (b' : Bucket) × (waited : Bool) × (acquire (10 ∷ 300000000 ∷ 300000001 ∷ []) half_full
      ≡ some (b', waited))
    × IsValid b'
    × (waited ≡ not (try_acquire 10 half_full).1)
acquire_returns_example =
    acquire_returns 10 300000000 300000001 half_full half_full-IsValid slept (omega arith)

-- Two attempts that fail, one healthy session, one short one, one that fails.
abbrev outcomes : List (Option ℕ)
outcomes = none ∷ none ∷ some 40000 ∷ some 10 ∷ none ∷ []

run_bind_loop-sleeps_example :
    (run_bind_loop "up" 1000 outcomes state).0 ≡ expected_sleeps 0 outcomes
run_bind_loop-sleeps_example = run_bind_loop-sleeps "up" outcomes state

expected_sleeps_exact : expected_sleeps 0 outcomes ≡ 1000 ∷ 2000 ∷ 1000 ∷ 2000 ∷ 4000 ∷ []
expected_sleeps_exact = refl

abbrev polls_from : ℕ → ℕ → List Observed
polls_from zero at = []
polls_from (suc n) at =
    record { alive = false; connect_failed = false; waited = at } ∷ polls_from n (at + 1000)

await_bind_returns_example :
    (ended : Observed × List Observed) × (await_bind (polls_from 17 0) ≡ some ended)
await_bind_returns_example = await_bind_returns (polls_from 17 0) (omega arith) (omega arith)

abbrev refusal : Observed
refusal = record { alive = false; connect_failed = true; waited = 1 }

-- The connect is still under way at the first poll.
abbrev under_way : Observed
under_way = record { alive = false; connect_failed = false; waited = 0 }

-- Two attempts, both refused, one of them at once.
abbrev refusals : List (List Observed)
refusals = (under_way ∷ refusal ∷ []) ∷ (refusal ∷ []) ∷ []

-- A request that fails when the response timer of its bind has just run.
abbrev overdue : Exchange ℕ
overdue = record {
  answer = err esme_rsyserr;
  started = 7;
  finished = 7 + up.response_timer_ms * nanos_per_milli;
  later = empty_state;
}

abbrev smsc : Smsc
smsc = record { ptr = 4; session_id = "b1"; system_id = "smsc"; server_address = "10.0.0.9" }

abbrev risen : State
risen = (on_smsc_bound (listener_of "up" up) script smsc "b1" 100 empty_state).0

client_timer_example :
    (t : BindTarget) × (bind_handle risen "up" ≡ ok t)
    × (t.smsc ≡ smsc)
    × (settle_on_bind t "up" "submit_sm" overdue
        ≡ err (
            send_error (
              into_pyerr
                (by_timer
                  ((client_of "transceiver" up).response_timer * nanos_per_milli)
                  (overdue.finished - overdue.started)
                  (bind_gone overdue.later smsc))
                "submit_sm"
                (on_bind "up"))))
client_timer_example =
    client_timer "up" "transceiver" up script smsc "b1" 100 empty_state "submit_sm" overdue refl
      refl
