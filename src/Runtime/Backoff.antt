-- ===== src/Runtime/Backoff.antt =====
-- How long the supervisor waits: src/runtime.rs `run_bind_loop`.
use siphon_smpp.Common.{
  ℕ, zero, suc, ◌+◌, ◌*◌, ◌^◌, ◌≤◌, ◌<◌, String, true, Option, none, some, List, [], ◌∷◌, ◌≡◌, refl,
  ◌∙◌, ap, arith, min, length, All, if◌then◌else◌, Bool-cases, inl, inr,
}
use siphon_smpp.Runtime.{State, Metric, bind_reconnect, record_metric}
use siphon_smpp.Runtime.Supervisor.{
  Observed, awaiting_bind, bind_deadline, poll_interval, await_bind, run_bind_loop, initial_backoff,
  max_backoff, was_healthy, bound_at,
}

-- Each poll comes at least a poll interval after the one before it.
abbrev pub IsPaced : ℕ → List Observed → Type 0
IsPaced from [] = Unit {0}
IsPaced from (o ∷ polls) = (from ≤ o.waited) × IsPaced (o.waited + poll_interval) polls

abbrev pub InRange : ℕ → Type 0
InRange b = (initial_backoff ≤ b) × (b ≤ max_backoff)

-- The sleep after `k` attempts in a row without a healthy session before this one.
abbrev doubled : ℕ → ℕ
doubled k = min (initial_backoff * 2 ^ k) max_backoff

abbrev pub expected_sleeps : ℕ → List (Option ℕ) → List ℕ
expected_sleeps k [] = []
expected_sleeps k (outcome ∷ outcomes) =
    let k = if was_healthy outcome then 0 else k in doubled k ∷ expected_sleeps (suc k) outcomes

doubled-suc : (k : ℕ) → min (doubled k * 2) max_backoff ≡ doubled (suc k)
doubled-suc k = omega arith

sleeps_from :
    (name : String) (k : ℕ) (outcomes : List (Option ℕ)) (s : State)
    → (run_bind_loop name (doubled k) outcomes s).0 ≡ expected_sleeps k outcomes
unfolding run_bind_loop
sleeps_from name k [] s = refl
sleeps_from name k (outcome ∷ outcomes) s =
    let k' = if was_healthy outcome then 0 else k in
    let s' = if bound_at outcome then record_metric (bind_reconnect name) s else s in
    let restarted : (if was_healthy outcome then initial_backoff else doubled k) ≡ doubled k' =
      elim (Bool-cases (was_healthy outcome)) [ inl h ↦ ground arith | inr h ↦ ground arith ] in
    let rest : (run_bind_loop name (min (doubled k' * 2) max_backoff) outcomes s').0
        ≡ expected_sleeps (suc k') outcomes =
      ap (λ b. (run_bind_loop name b outcomes s').0) (doubled-suc k')
      ∙ sleeps_from name (suc k') outcomes s' in
    cc

-- Whatever the attempts come to, every sleep of the loop is between the initial and the maximal backoff,
-- when the backoff it starts from is.
pub sleeps_range :
    (name : String) (b : ℕ) (outcomes : List (Option ℕ)) (s : State)
    → InRange b
    → All InRange (run_bind_loop name b outcomes s).0
unfolding run_bind_loop
sleeps_range name b [] s h = tt
sleeps_range name b (outcome ∷ outcomes) s h =
    let b' = if was_healthy outcome then initial_backoff else b in
    let h' : InRange b' = elim (Bool-cases (was_healthy outcome)) [
      | inl e ↦ ground arith
      | inr e ↦ ground arith
    ] in
    (
      h',
      sleeps_range name (min (b' * 2) max_backoff) outcomes
          (if bound_at outcome then record_metric (bind_reconnect name) s else s)
          (omega arith, omega arith),
    )

await_bind_ends :
    (k from : ℕ) (polls : List Observed)
    → IsPaced from polls
    → bind_deadline ≤ from + k * poll_interval
    → k < length polls
    → (ended : Observed × List Observed) × (await_bind polls ≡ some ended)
unfolding await_bind
await_bind_ends zero from [] p d l = absurd (omega arith)
await_bind_ends (suc k) from [] p d l = absurd (omega arith)
await_bind_ends zero from (o ∷ polls) p d l = ((o, polls), ground arith)
await_bind_ends (suc k) from (o ∷ polls) p d l =
    let later =
      await_bind_ends k (o.waited + poll_interval) polls p.1 (omega arith) (omega arith) in
    elim (Bool-cases (awaiting_bind o.alive o.connect_failed o.waited bind_deadline)) [
      | inl h ↦ (later.0, ground arith)
      | inr h ↦ ((o, polls), ground arith)
    ]

-- The wait of an attempt ends at one of its first sixteen polls, when its polls are a poll interval apart
-- or more.
pub await_bind_returns :
    (polls : List Observed)
    → IsPaced 0 polls
    → 15 < length polls
    → (ended : Observed × List Observed) × (await_bind polls ≡ some ended)
await_bind_returns polls p l = await_bind_ends 15 0 polls p (omega arith) l

-- The sleeps of the loop, from its initial backoff: each is the initial backoff doubled for every attempt
-- since the last healthy session, up to the maximum, and the initial backoff after a healthy session.
pub run_bind_loop-sleeps :
    (name : String) (outcomes : List (Option ℕ)) (s : State)
    → (run_bind_loop name initial_backoff outcomes s).0 ≡ expected_sleeps 0 outcomes
run_bind_loop-sleeps name outcomes s = sleeps_from name 0 outcomes s

-- The reconnect metrics of one bind, newest first: one for each attempt whose session came up.
abbrev pub reconnects : String → List (Option ℕ) → List Metric → List Metric
reconnects name [] log = log
reconnects name (none ∷ outcomes) log = reconnects name outcomes log
reconnects name (some held ∷ outcomes) log = reconnects name outcomes (bind_reconnect name ∷ log)

-- With metrics on, the loop counts one reconnect for each attempt whose session came up, and changes
-- nothing else of the state.
pub run_bind_loop-metrics :
    (name : String) (backoff : ℕ) (outcomes : List (Option ℕ)) (s : State)
    → s.metrics_enabled ≡ true
    → (run_bind_loop name backoff outcomes s).1
      ≡ record s { metrics = reconnects name outcomes s.metrics }
unfolding run_bind_loop record_metric
run_bind_loop-metrics name backoff [] s on = refl
run_bind_loop-metrics name backoff (none ∷ outcomes) s on =
    run_bind_loop-metrics name (min (backoff * 2) max_backoff) outcomes s on
run_bind_loop-metrics name backoff (some held ∷ outcomes) s on =
    let backoff' = if was_healthy (some held) then initial_backoff else backoff in
    let s' : State = record s { metrics = bind_reconnect name ∷ s.metrics } in
    let counted : record_metric (bind_reconnect name) s ≡ s' = cc in
    ap (λ t. (run_bind_loop name (min (backoff' * 2) max_backoff) outcomes t).1) counted
    ∙ run_bind_loop-metrics name (min (backoff' * 2) max_backoff) outcomes s' on
