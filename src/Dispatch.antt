-- ===== src/Dispatch.antt =====
-- Running script handlers: src/dispatch.rs. A handler is a function of its arguments. What Python, the
-- executor and the asyncio pool answer is given by an `Engine`; `called` records which handlers ran.
mod Values
pub mod Delivery
pub mod Choice
pub mod Lifecycle
pub mod Awaiting
pub mod Decorators
pub mod Registering
pub mod Decorated
pub use Values.*
use siphon_smpp.Common.{
  ℕ, zero, suc, String, Bool, true, false, not, Option, none, some, List, [], ◌∷◌, ◌++◌, ◌||◌,
  is_some, if◌then◌else◌, str_eq, find, retain, length, Result, ok, err,
}
use siphon_smpp.Status.{SmppError, esme_rok, esme_rbindfail}
use siphon_smpp.Pdu.{Pdu}
use siphon_smpp.Reply.{PduReply, default_ok, Bind, BindResult, AlertNotification, Session}

abbrev pub pdu_kind : String
pdu_kind = "smpp.on_pdu"

abbrev pub bind_kind : String
bind_kind = "smpp.on_bind"

abbrev pub session_kind : String
session_kind = "smpp.on_session"

unfoldable pub handlers : List Registration → String → List RegisteredHandler
handlers [] kind = []
handlers (r ∷ rs) kind =
    let rest = handlers rs kind in
    if str_eq r.kind kind then elim r.handler [ none ↦ rest | some h ↦ h ∷ rest ] else rest

unfoldable pub settle : {T : Type 0} → Started T → Result DispatchError T
settle (done r) = r
settle (pending (arrived r)) = r
settle (pending dropped) = err loop_dropped
settle (pending timed_out) = err not_settled

unfoldable pub submit_coroutine :
    {T : Type 0} → Fate → (Value → T) → Result DispatchError (Started T)
submit_coroutine (refused e) convert = err (python e)
submit_coroutine (settles v) convert = ok (pending (arrived (ok (convert v))))
submit_coroutine (fails e) convert = ok (pending (arrived (err (python e))))
submit_coroutine drops convert = ok (pending dropped)
submit_coroutine hangs convert = ok (pending timed_out)

abbrev started_or : {T : Type 0} → Result DispatchError (Started T) → Started T
started_or (ok s) = s
started_or (err e) = done (err e)

module _ (engine : Engine) {T : Type 0} (convert : Value → T) where
  abbrev after_call : RegisteredHandler → Result String Value → Started T
  after_call h (err e) = done (err (python e))
  after_call h (ok v) =
      if not h.is_async
      then done (ok (convert v))
      else started_or (submit_coroutine (engine.pool h.id v) convert)

  unfoldable pub invoke : RegisteredHandler → Args → Started T
  unfolding submit_coroutine
  invoke h args = after_call h (h.callable args)

  -- Build the arguments, then call the handler; with the handlers that were called.
  unfoldable pub start : RegisteredHandler → Args → Started T × List ℕ
  unfolding invoke
  start h args = elim (engine.build args) [
    | some e ↦ (done (err (python e)), [])
    | none ↦ (invoke h args, h.id ∷ [])
  ]

abbrev pub key_is : String → Option String → Bool
key_is k none = false
key_is k (some j) = str_eq j k

-- With no key asked for, the first handler of the kind.
unfoldable pub first_matching :
    List Registration → String → Option String → Option RegisteredHandler
unfolding handlers
first_matching source kind none = find (λ h. true) (handlers source kind)
first_matching source kind (some k) = find (λ h. key_is k h.key) (handlers source kind)

-- What the executor gives for an event's one job, and the handlers that it called.
module _ (engine : Engine) {T : Type 0} (convert : Value → T) where
  unfoldable pub run_first :
      Option RegisteredHandler → Args → Result DispatchError (Option (Started T)) × List ℕ
  unfolding start
  run_first handler args = elim (engine.job 0) [
    | some e ↦ (err (job_failure e), [])
    | none ↦ elim handler [
      | none ↦ (ok none, [])
      | some h ↦ let (s, called) = start engine convert h args in (ok (some s), called)
    ]
  ]

unfoldable pub pdu_reply : Value → PduReply
unfolding default_ok
pdu_reply none_value = default_ok
pdu_reply (reply_value r) = r
pdu_reply (bind_value b) = default_ok
pdu_reply (object truth) = default_ok

-- The reason that is logged: a text, or one that a failure is written into.
pub data Reason : Type 0 where
  text : String → Reason
  did_not_run : DispatchError → Reason
  raised : DispatchError → Reason

pub record BindOutcome : Type 0 where
  pub accepted : Bool
  pub status : SmppError
  pub reason : Reason

unfoldable pub reject_bind : Reason → BindOutcome
reject_bind reason = record { accepted = false; status = esme_rbindfail; reason = reason }

abbrev bind_truth : Option Bool → BindOutcome
bind_truth (some true) = record { accepted = true; status = esme_rok; reason = text "" }
bind_truth (some false) = record {
  accepted = false;
  status = esme_rbindfail;
  reason = text "handler returned a non-truthy value";
}
bind_truth none = record {
  accepted = false;
  status = esme_rbindfail;
  reason = text "handler returned a non-truthy value";
}

-- A `PduReply` is an object with no truth value of its own, so Python takes it for true.
unfoldable pub bind_outcome : Value → BindOutcome
unfolding reject_bind
bind_outcome none_value = reject_bind (text "handler returned None")
bind_outcome (bind_value r) = record {
  accepted = r.accepted;
  status = r.status;
  reason = text r.reason;
}
bind_outcome (reply_value r) = bind_truth (some true)
bind_outcome (object truth) = bind_truth truth

module _ (engine : Engine) (source : List Registration) where
  abbrev pdu_result :
      Result DispatchError (Option (Started PduReply)) → Option (Result DispatchError PduReply)
  pdu_result (err e) = some (err e)
  pdu_result (ok none) = none
  pdu_result (ok (some s)) = some (settle s)

  unfoldable pub pdu : String → Pdu → Session → Option (Result DispatchError PduReply) × List ℕ
  unfolding run_first first_matching pdu_reply settle
  pdu command p session =
      let (started, called) =
        run_first engine pdu_reply (first_matching source pdu_kind (some command))
          (pdu_args p session) in
      (pdu_result started, called)

  abbrev alert_result :
      Result DispatchError (Option (Started (Unit {0}))) → Result DispatchError (Unit {0})
  alert_result (err e) = err e
  alert_result (ok none) = ok tt
  alert_result (ok (some s)) = settle s

  unfoldable pub alert : AlertNotification → Session → Result DispatchError (Unit {0}) × List ℕ
  unfolding run_first first_matching settle
  alert a session =
      let (started, called) =
        run_first engine (λ v. tt) (first_matching source pdu_kind (some "alert_notification"))
          (alert_args a session) in
      (alert_result started, called)

  abbrev pub bind_settled : Result DispatchError BindOutcome → BindOutcome
  bind_settled (ok outcome) = outcome
  bind_settled (err e) = reject_bind (raised e)

  abbrev pub bind_result : Result DispatchError (Option (Started BindOutcome)) → BindOutcome
  bind_result (err e) = reject_bind (did_not_run e)
  bind_result (ok none) = reject_bind (text "no @smpp.on_bind handler registered")
  bind_result (ok (some s)) = bind_settled (settle s)

  unfoldable pub bind : Bind → BindOutcome × List ℕ
  unfolding run_first first_matching bind_outcome settle reject_bind
  bind b =
      let (started, called) =
        run_first engine bind_outcome (first_matching source bind_kind none) (bind_args b) in
      (bind_result started, called)

-- What happens while the handlers of a lifecycle event run.
pub data Happening : Type 0 where
  called : ℕ → Happening
  settled : ℕ → Happening
  logged : DispatchError → Happening

abbrev log_of : Result DispatchError (Unit {0}) → List Happening
log_of (ok u) = []
log_of (err e) = logged e ∷ []

pub data SessionStep : Type 0 where
  finished : SessionStep
  awaiting : ℕ → Started (Unit {0}) → List RegisteredHandler → SessionStep

module _ (engine : Engine) (session : Session) where
  abbrev start_unit : RegisteredHandler → Started (Unit {0}) × List ℕ
  start_unit h = start engine (λ v. tt) h (session_args session)

  abbrev call_log : List ℕ → List Happening
  call_log [] = []
  call_log (i ∷ is) = called i ∷ call_log is

  -- One round of `run_session`: a handler that is done makes way for the rest, a coroutine that has to
  -- wait stops the run.
  abbrev next :
      RegisteredHandler
      → List RegisteredHandler
      → SessionStep × List Happening
      → Started (Unit {0}) × List ℕ
      → SessionStep × List Happening
  next h remaining rest (done r, ids) = (rest.0, call_log ids ++ (log_of r ++ rest.1))
  next h remaining rest (pending r, ids) = (awaiting h.id (pending r) remaining, call_log ids)

  -- Run the handlers in order until one is a coroutine that has to wait.
  unfoldable pub run_session : List RegisteredHandler → SessionStep × List Happening
  unfolding start
  run_session [] = (finished, [])
  run_session (h ∷ remaining) =
      let rest = run_session remaining in next h remaining rest (start_unit h)

  -- What the loop of `session` does with a run: go on after the coroutine has settled.
  abbrev after_run :
      (List RegisteredHandler → List Happening) → SessionStep × List Happening → List Happening
  after_run again (finished, log) = log
  after_run again (awaiting i s later, log) =
      log ++ (settled i ∷ (log_of (settle s) ++ again later))

  -- The loop of `session`: `n` counts the executor jobs.
  unfoldable pub session_loop : ℕ → ℕ → List RegisteredHandler → List Happening
  unfolding run_session settle
  session_loop zero n remaining = []
  session_loop (suc fuel) n remaining = elim (engine.job n) [
    | some e ↦ logged (job_failure e) ∷ []
    | none ↦ after_run (session_loop fuel (suc n)) (run_session remaining)
  ]

  -- The handlers of one lifecycle event, in registration order. Each job but the last leaves fewer
  -- handlers, so that one more round than there are handlers is fuel enough.
  unfoldable pub session_event : List Registration → String → List Happening
  unfolding handlers session_loop
  session_event source event =
      let remaining = retain (λ h. key_is event h.key) (handlers source session_kind) in
      session_loop (suc (length remaining)) 0 remaining
