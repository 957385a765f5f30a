-- ===== src/Dispatch/Lifecycle.antt =====
-- The handlers of a lifecycle event: src/dispatch.rs `run_session`, `session`.
use mathlib.Core.List.{append_assoc}
use siphon_smpp.Common.{
  ℕ, zero, suc, ◌<◌, String, none, List, [], ◌∷◌, ◌++◌, ◌≡◌, refl, sym, ◌∙◌, ap, retain, length,
  arith,
}
use siphon_smpp.Reply.{Session}
use siphon_smpp.Dispatch.{
  Registration, RegisteredHandler, Engine, Started, done, pending, settle, Happening, settled,
  log_of, SessionStep, finished, awaiting, start_unit, next, after_run, call_log, run_session,
  session_loop, session_event, handlers, key_is, session_kind,
}

module _ (engine : Engine) (session : Session) where
  -- What one handler does: it is called, if it is a coroutine it settles, and a failure is logged.
  abbrev pub events_of : ℕ → Started (Unit {0}) → List Happening
  events_of i (done r) = log_of r
  events_of i (pending r) = settled i ∷ log_of (settle (pending r))

  abbrev pub events : RegisteredHandler → List Happening
  events h =
      call_log engine session (start_unit engine session h).1
      ++ events_of h.id (start_unit engine session h).0

  abbrev pub all_events : List RegisteredHandler → List Happening
  all_events [] = []
  all_events (h ∷ hs) = events h ++ all_events hs

  resume-append :
      (again : List RegisteredHandler → List Happening) (step : SessionStep)
      (front log : List Happening)
      → after_run engine session again (step, front ++ log)
        ≡ front ++ after_run engine session again (step, log)
  resume-append again finished front log = refl
  resume-append again (awaiting i s later) front log = append_assoc front log _

  next_lem :
      (h : RegisteredHandler) (hs : List RegisteredHandler) (rest : SessionStep × List Happening)
      (r : Started (Unit {0}) × List ℕ)
      → after_run engine session all_events rest ≡ all_events hs
      → after_run engine session all_events (next engine session h hs rest r)
        ≡ (call_log engine session r.1 ++ events_of h.id r.0) ++ all_events hs
  next_lem h hs (step, log) (done r, ids) e =
      resume-append all_events step (call_log engine session ids) (log_of r ++ log)
      ∙ ap (λ l. call_log engine session ids ++ l) (resume-append all_events step (log_of r) log)
      ∙ rw e (sym (append_assoc (call_log engine session ids) (log_of r) (all_events hs)))
  next_lem h hs rest (pending r, ids) e =
      sym (append_assoc (call_log engine session ids) (events_of h.id (pending r)) (all_events hs))

  -- What a run did, and what is still to come, make up all that the handlers do.
  run_session_lem :
      (hs : List RegisteredHandler)
      → after_run engine session all_events (run_session engine session hs) ≡ all_events hs
  unfolding run_session
  run_session_lem [] = refl
  run_session_lem (h ∷ hs) =
      next_lem h hs (run_session engine session hs) (start_unit engine session h)
        (run_session_lem hs)

  abbrev Shorter : ℕ → SessionStep → Type 0
  Shorter n finished = Unit {0}
  Shorter n (awaiting i s later) = length later < n

  Shorter-suc : (n : ℕ) (step : SessionStep) → Shorter n step → Shorter (suc n) step
  Shorter-suc n finished h = tt
  Shorter-suc n (awaiting i s later) h = omega arith

  next-Shorter :
      (h : RegisteredHandler) (hs : List RegisteredHandler) (rest : SessionStep × List Happening)
      (r : Started (Unit {0}) × List ℕ)
      → Shorter (length hs) rest.0
      → Shorter (suc (length hs)) (next engine session h hs rest r).0
  next-Shorter h hs rest (done r, ids) s = Shorter-suc (length hs) rest.0 s
  next-Shorter h hs rest (pending r, ids) s = omega arith

  run_session-Shorter :
      (hs : List RegisteredHandler) → Shorter (length hs) (run_session engine session hs).0
  unfolding run_session
  run_session-Shorter [] = tt
  run_session-Shorter (h ∷ hs) =
      next-Shorter h hs (run_session engine session hs) (start_unit engine session h)
        (run_session-Shorter hs)

  after_run-all :
      (again : List RegisteredHandler → List Happening) (n : ℕ) (run : SessionStep × List Happening)
      → Shorter n run.0
      → ((later : List RegisteredHandler) → length later < n → again later ≡ all_events later)
      → after_run engine session again run ≡ after_run engine session all_events run
  after_run-all again n (finished, log) s ih = refl
  after_run-all again n (awaiting i st later, log) s ih =
      ap (λ l. log ++ (settled i ∷ (log_of (settle st) ++ l))) (ih later s)

  session_loop_lem :
      (fuel n : ℕ) (hs : List RegisteredHandler)
      → ((k : ℕ) → engine.job k ≡ none)
      → length hs < fuel
      → session_loop engine session fuel n hs ≡ all_events hs
  unfolding session_loop
  session_loop_lem zero n hs jobs h = absurd (omega arith)
  session_loop_lem (suc fuel) n hs jobs h =
      rw (jobs n, session_loop)
        (after_run-all (session_loop engine session fuel (suc n)) (length hs)
            (run_session engine session hs) (run_session-Shorter hs)
            (λ later shorter. session_loop_lem fuel (suc n) later jobs (omega arith))
          ∙ run_session_lem hs)

  -- As long as the executor takes the jobs, every handler registered for the event runs, once, in
  -- registration order, each one settled before the next is called, whatever the others do: a failure is
  -- logged and stops nothing.
  pub session_event_runs_all :
      (source : List Registration) (event : String)
      → ((k : ℕ) → engine.job k ≡ none)
      → session_event engine session source event
        ≡ all_events (retain (λ h. key_is event h.key) (handlers source session_kind))
  unfolding session_event
  session_event_runs_all source event jobs =
      session_loop_lem
        (suc (length (retain (λ h. key_is event h.key) (handlers source session_kind)))) 0
        (retain (λ h. key_is event h.key) (handlers source session_kind)) jobs (omega arith)
