-- ===== src/Examples/Runs.antt =====
-- A concrete run: src/runtime.rs.
use siphon_smpp.Common.{◌*◌, ℕ, ◌≡◌, refl, true, Option, none, some, []}
use siphon_smpp.Tlv.{Text}
use siphon_smpp.Runtime.{State, find_esme}
use siphon_smpp.Runtime.Server.{on_esme_bound, on_esme_unbound, on_listen_failed}
use siphon_smpp.Runtime.Steps.{Run, start, followed, esme_bound, esme_unbound, listen_failed}
use siphon_smpp.Runtime.Invariant.{WellFormed}
use siphon_smpp.Runtime.Roster.{roster, roster_after, Run-roster}
use siphon_smpp.Runtime.Startup.{Process, initial_state, nanos_per_milli, spawn, spawn-Run}
use siphon_smpp.Runtime.Listening.{served, down, listen_failed-Run}
use siphon_smpp.Examples.Fixtures.{script, esme, is_success, cfg}

abbrev first : State
first = initial_state true cfg

abbrev bound : State
bound = (on_esme_bound script esme "s1" 9 first).0

no_esme : find_esme first "s1" ≡ none
unfolding find_esme initial_state
no_esme = refl

-- An ESME binds and goes.
run : Run is_success first (on_esme_unbound script "s1" bound).0
run =
    followed first bound (on_esme_unbound script "s1" bound).0
      (followed first first bound (start first) (esme_bound script esme 9 first no_esme))
      (esme_unbound script "s1" bound)

Run-roster_example :
    roster (on_esme_unbound script "s1" bound).0
    ≡ roster_after is_success first (on_esme_unbound script "s1" bound).0 run (roster first)
Run-roster_example = Run-roster is_success first (on_esme_unbound script "s1" bound).0 run

abbrev address : Text → Option ℕ
address host = none

abbrev idle : Process ℕ
idle = record { state = none; tasks = [] }

started : (spawn ℕ address 0 true cfg idle).state ≡ some first
unfolding spawn
started = refl

spawn-Run_example :
    WellFormed cfg.server.max_msg_per_sec
      (cfg.server.response_timer_ms * nanos_per_milli)
      (on_esme_unbound script "s1" bound).0
    × (roster (on_esme_unbound script "s1" bound).0
        ≡ roster_after is_success first (on_esme_unbound script "s1" bound).0 run (λ id. none))
spawn-Run_example =
    spawn-Run ℕ address 0 is_success true cfg idle first (on_esme_unbound script "s1" bound).0 refl
      started run

abbrev failed : State
failed = on_listen_failed "in use" first

-- A second failure, and a session that is gone.
run_down : Run is_success failed (on_esme_unbound script "s1" (on_listen_failed "denied" failed)).0
run_down =
    followed failed (on_listen_failed "denied" failed)
      (on_esme_unbound script "s1" (on_listen_failed "denied" failed)).0
      (followed failed failed (on_listen_failed "denied" failed) (start failed)
        (listen_failed "denied" failed))
      (esme_unbound script "s1" (on_listen_failed "denied" failed))

listen_failed-Run_example :
    served (on_esme_unbound script "s1" (on_listen_failed "denied" failed)).0 ≡ down "in use"
unfolding initial_state
listen_failed-Run_example =
    listen_failed-Run is_success "in use" first
      (on_esme_unbound script "s1" (on_listen_failed "denied" failed)).0 refl run_down
