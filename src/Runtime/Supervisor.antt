-- ===== src/Runtime/Supervisor.antt =====
-- The supervisor of an outbound bind: src/runtime.rs `awaiting_bind`, `run_bind_loop`. Times are in
-- milliseconds. What the supervisor sees at its polls is an `Observed`: the state of the client, the
-- failure flag and the time since the attempt began.
use siphon_smpp.Common.{
  option_map, ℕ, ◌*◌, ◌-◌, String, Bool, true, false, not, ◌&&◌, Option, none, some, List, [], ◌∷◌,
  ltb, leb, min, if◌then◌else◌, str_eq,
}
use siphon_smpp.Runtime.{State, record_metric, bind_reconnect}

pub data BindType : Type 0 where
  tx rx trx : BindType

unfoldable pub bind_type_of : String → BindType
bind_type_of s = if str_eq s "transmitter" then tx else if str_eq s "receiver" then rx else trx

unfoldable pub awaiting_bind : (alive connect_failed : Bool) → (waited deadline : ℕ) → Bool
awaiting_bind alive connect_failed waited deadline =
    not alive && (not connect_failed && ltb waited deadline)

abbrev pub bind_deadline : ℕ
bind_deadline = 15000

abbrev pub healthy_threshold : ℕ
healthy_threshold = 30000

abbrev pub poll_interval : ℕ
poll_interval = 1000

abbrev pub initial_backoff : ℕ
initial_backoff = 1000

abbrev pub max_backoff : ℕ
max_backoff = 60000

pub record Observed : Type 0 where
  pub alive : Bool
  pub connect_failed : Bool
  pub waited : ℕ

-- The wait of phase 1 over the polls of an attempt: the poll that ends it, and the polls after it.
-- `none` when the polls run out before the wait ends.
unfoldable pub await_bind : List Observed → Option (Observed × List Observed)
unfolding awaiting_bind
await_bind [] = none
await_bind (o ∷ polls) =
    let rest = await_bind polls in
    if awaiting_bind o.alive o.connect_failed o.waited bind_deadline then rest else some (o, polls)

-- The hold of phase 2: the first poll at which the session is no longer alive.
unfoldable pub hold : List Observed → Option Observed
hold [] = none
hold (o ∷ polls) = let rest = hold polls in if o.alive then rest else some o

-- How long a session that came up was held; `none` when none came up.
abbrev held_for : Observed → Option Observed → Option (Option ℕ)
held_for up none = none
held_for up (some down) = some (some (down.waited - up.waited))

unfoldable pub attempt : List Observed → Option (Option ℕ)
unfolding await_bind hold
attempt polls = elim (await_bind polls) [
  | none ↦ none
  | some (o, later) ↦ if o.alive then held_for o (hold later) else some none
]

abbrev pub was_healthy : Option ℕ → Bool
was_healthy none = false
was_healthy (some held) = leb healthy_threshold held

abbrev pub bound_at : Option ℕ → Bool
bound_at none = false
bound_at (some held) = true

-- The end of a round: how long to sleep, the next backoff, and the state with the reconnect counted.
pub record Round : Type 0 where
  pub sleep : ℕ
  pub backoff : ℕ
  pub state : State

unfoldable pub after_attempt : String → ℕ → Option ℕ → State → Round
after_attempt name backoff outcome s =
    let backoff = if was_healthy outcome then initial_backoff else backoff in
    record {
      sleep = backoff;
      backoff = min (backoff * 2) max_backoff;
      state = if bound_at outcome then record_metric (bind_reconnect name) s else s;
    }

-- The loop over the outcomes of its attempts: the sleeps between them, in order, and the state.
unfoldable pub run_bind_loop : String → ℕ → List (Option ℕ) → State → List ℕ × State
unfolding after_attempt
run_bind_loop name backoff [] s = ([], s)
run_bind_loop name backoff (outcome ∷ outcomes) s =
    let round = after_attempt name backoff outcome s in
    let (sleeps, s') = run_bind_loop name round.backoff outcomes round.state in
    (round.sleep ∷ sleeps, s')

-- The loop over the polls of its attempts. `none` when the polls of an attempt run out before it is over.
unfoldable pub supervise : String → ℕ → List (List Observed) → State → Option (List ℕ × State)
unfolding attempt after_attempt
supervise name backoff [] s = some ([], s)
supervise name backoff (polls ∷ attempts) s = elim (attempt polls) [
  | none ↦ none
  | some outcome ↦
      let round = after_attempt name backoff outcome s in
      let later = supervise name round.backoff attempts round.state in
      option_map (λ r. (round.sleep ∷ r.0, r.1)) later
]
