-- ===== src/Runtime/BindThroughput.antt =====
-- How many requests that are paced go out on a bind over a run: src/sends.rs and src/runtime.rs.
use siphon_smpp.Common.{
  ℕ, ◌-◌, ◌+◌, ◌*◌, ◌≤◌, ◌<◌, ◌≡◌, refl, ap, ◌∙◌, String, Bool, true, none, some, List, [], ◌∷◌,
  ◌++◌, str_eq, eq_iff, find, if◌then◌else◌, arith,
}
use siphon_smpp.RateLimiter.{Bucket, token, nanos_per_sec}
use siphon_smpp.RateLimiter
use siphon_smpp.RateLimiter.Ledger.{new-Spends}
use siphon_smpp.Runtime.{State, Script, Esme, Smsc, BindSession, limiter}
use siphon_smpp.Runtime.Responses.{Response}
use siphon_smpp.Runtime.Client.{BindListener, on_smsc_bound}
use siphon_smpp.Runtime.Server.{on_esme_bound, on_esme_unbound}
use siphon_smpp.Runtime.RequestEffects.{on_request-Effect}
use siphon_smpp.Runtime.Kept.{
  on_bind_transmitter-Alike, on_bind_receiver-Alike, on_bind_transceiver-Alike,
  on_listen_failed-Alike, after_attempt-Alike, on_connection_failed-Alike, on_deliver_sm-Alike,
  on_data_sm-Alike, on_alert_notification-Alike,
}
use siphon_smpp.Runtime.Takings.{InTime}
use siphon_smpp.Runtime.BindTurns.{
  called, bind_throttle, bind_throttle_of, Outlives, Held, held, smsc_bound-Held, smsc_unbound-Held,
  turn-Held, Effect-binds,
}
use siphon_smpp.Runtime.Tally.{Tally, Tally-Spends}
use siphon_smpp.Runtime.Steps.{
  Step, esme_bound, esme_unbound, request, bind_transmitter, bind_receiver, bind_transceiver,
  listen_failed, smsc_bound, smsc_unbound, connection_failed, delivery, data_delivery, alert,
  attempt_over, send_turn,
}

esme_bound-binds :
    (script : Script) (esme : Esme) (id : String) (now : ℕ) (s : State)
    → (on_esme_bound script esme id now s).0.binds ≡ s.binds
unfolding on_esme_bound
esme_bound-binds script esme id now s = refl

esme_unbound-binds :
    (script : Script) (id : String) (s : State) → (on_esme_unbound script id s).0.binds ≡ s.binds
unfolding on_esme_unbound
esme_unbound-binds script id s = refl

module _ (is_success : Response → Bool) (name : String) where
  -- The turns on the bind `name` that a step is.
  abbrev pub turns : (s t : State) → Step is_success s t → ℕ
  turns _ _ (send_turn bind target clock s s' found turn) = if str_eq bind name then 1 else 0
  turns _ _ _ = 0

  -- The bind outlives the step, and its limiter sees no clock that runs backwards.
  abbrev pub BindContinues : (s t : State) → Step is_success s t → Type 0
  BindContinues _ _ (smsc_unbound listener script id s) = Outlives id (find (called name) s.binds)
  BindContinues _ _ (send_turn bind target clock s s' found turn) =
      str_eq bind name ≡ true → InTime clock (bind_throttle s name)
  BindContinues _ _ _ = Unit

  -- A run over which the bind lasts, and how many requests had their turn on it.
  abbrev pub Outflow : ℕ → State → State → Type 0
  Outflow = Tally is_success turns BindContinues

  pub step-Held :
      (s t : State) (step : Step is_success s t) (b : Bucket)
      → BindContinues s t step
      → bind_throttle s name ≡ some b
      → Held name s t b (turns s t step)
  step-Held _ _ (esme_bound script esme now s free) b c has =
      held name s _ b (esme_bound-binds script esme esme.session_id now s) has
  step-Held _ _ (esme_unbound script id s) b c has =
      held name s _ b (esme_unbound-binds script id s) has
  step-Held _ _ (request script address id r clock s h e) b c has =
      held name s _ b
        (Effect-binds s h.state (on_request-Effect is_success script address id r clock s h e)) has
  step-Held _ _ (bind_transmitter s) b c has =
      held name s _ b (on_bind_transmitter-Alike s).binds has
  step-Held _ _ (bind_receiver s) b c has = held name s _ b (on_bind_receiver-Alike s).binds has
  step-Held _ _ (bind_transceiver script system_id password address s) b c has =
      held name s _ b (on_bind_transceiver-Alike script system_id password address s).binds has
  step-Held _ _ (listen_failed error s) b c has =
      held name s _ b (on_listen_failed-Alike error s).binds has
  step-Held _ _ (smsc_bound listener script smsc id now s) b c has =
      smsc_bound-Held name listener script id s b has smsc now
  step-Held _ _ (smsc_unbound listener script id s) b c has =
      smsc_unbound-Held name listener script id s b has c
  step-Held _ _ (connection_failed listener s) b c has =
      held name s _ b (on_connection_failed-Alike listener s).binds has
  step-Held _ _ (delivery listener script id address r s) b c has =
      held name s _ b (on_deliver_sm-Alike listener script id address r s).binds has
  step-Held _ _ (data_delivery listener script id address r s) b c has =
      held name s _ b (on_data_sm-Alike listener script id address is_success r s).binds has
  step-Held _ _ (alert listener script id address a s) b c has =
      held name s _ b (on_alert_notification-Alike listener script id address a s).binds has
  step-Held _ _ (attempt_over other backoff outcome s) b c has =
      held name s _ b (after_attempt-Alike other backoff outcome s).binds has
  step-Held _ _ (send_turn bind target clock s s' found turn) b c has =
      turn-Held name bind target clock s s' b found turn c has

pub find-append_last :
    (name : String) (bs : List BindSession) (b : BindSession)
    → find (called name) bs ≡ none
    → called name b ≡ true
    → find (called name) (bs ++ b ∷ []) ≡ some b
find-append_last name [] b free h = ground arith
find-append_last name (x ∷ bs) b free h = ground (arith, find-append_last name bs b)

up_throttle :
    (listener : BindListener) (script : Script) (smsc : Smsc) (id : String) (now : ℕ) (s : State)
    → find (called listener.bind_name) s.binds ≡ none
    → 0 < listener.max_msg_per_sec
    → bind_throttle (on_smsc_bound listener script smsc id now s).0 listener.bind_name
      ≡ some (RateLimiter.new listener.max_msg_per_sec now)
unfolding on_smsc_bound limiter
up_throttle listener script smsc id now s free capped =
    ap bind_throttle_of (
      find-append_last listener.bind_name s.binds _ free
        ((eq_iff listener.bind_name listener.bind_name).1 refl))
    ∙ ground arith

-- From the moment on at which a bind with a cap comes up under a name that is free, over any run in which
-- it lasts, its limiter stays, and the requests that have their turn on it are at most the cap for one
-- second and for the time up to its last use, whatever else happens in the run.
pub Outflow-bounded :
    (is_success : Response → Bool) (listener : BindListener) (script : Script) (smsc : Smsc)
    (id : String) (now n : ℕ) (s t : State)
    → find (called listener.bind_name) s.binds ≡ none
    → 0 < listener.max_msg_per_sec
    → Outflow is_success listener.bind_name n (on_smsc_bound listener script smsc id now s).0 t
    → (b : Bucket) × (bind_throttle t listener.bind_name ≡ some b)
      × (n * token ≤ listener.max_msg_per_sec * (nanos_per_sec + (b.last - now)))
Outflow-bounded is_success listener script smsc id now n s t free capped outflow =
    let name = listener.bind_name in
    let first = up_throttle listener script smsc id now s free capped in
    let (b, has, spends) =
      Tally-Spends is_success (turns is_success name) (BindContinues is_success name)
        (λ s. bind_throttle s name) (step-Held is_success name) n
        (on_smsc_bound listener script smsc id now s).0 t
        (RateLimiter.new listener.max_msg_per_sec now) outflow first in
    (b, has, new-Spends listener.max_msg_per_sec now n b capped spends)
