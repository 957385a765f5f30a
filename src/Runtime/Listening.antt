-- ===== src/Runtime/Listening.antt =====
-- The task that runs the server for ESMEs, when its socket cannot be bound: src/runtime.rs `spawn` and
-- `on_listen_failed`.
use siphon_smpp.Common.{ℕ, ◌≡◌, refl, Bool, String, Option, none, some, List, arith}
use siphon_smpp.RateLimiter.{Bucket}
use siphon_smpp.Runtime.{State, Script, Smsc, Esme, record_metric}
use siphon_smpp.Runtime.Responses.{Response}
use siphon_smpp.Runtime.Server.{on_esme_bound, on_esme_unbound, on_listen_failed}
use siphon_smpp.Runtime.Client.{BindListener, on_smsc_bound, on_smsc_unbound}
use siphon_smpp.Runtime.Effects.{Effect, kept, limited}
use siphon_smpp.Runtime.RequestEffects.{on_request-Effect}
use siphon_smpp.Runtime.Kept.{
  on_bind_transmitter-Alike, on_bind_receiver-Alike, on_bind_transceiver-Alike,
  on_listen_failed-Alike, after_attempt-Alike, on_connection_failed-Alike, on_deliver_sm-Alike,
  on_data_sm-Alike, on_alert_notification-Alike,
}
use siphon_smpp.Runtime.Steps.{
  Step, esme_bound, esme_unbound, request, bind_transmitter, bind_receiver, bind_transceiver,
  listen_failed, smsc_bound, smsc_unbound, connection_failed, delivery, data_delivery, alert,
  attempt_over, send_turn, Run, start, followed,
}
use siphon_smpp.Sends.{pace}

-- What the task does once the server has started: it waits for ever, or reports the failure and ends.
pub data Served : Type 0 where
  listening : Served
  down : String → Served

unfoldable pub served : State → Served
served s = elim s.listen_failure [ none ↦ listening | some error ↦ down error ]

-- A failure that is recorded stays as it is.
abbrev Keeps : String → State → State → Type 0
Keeps error s s' = s.listen_failure ≡ some error → s'.listen_failure ≡ some error

Effect-Keeps : (error : String) (s s' : State) → Effect s s' → Keeps error s s'
Effect-Keeps error s s' (kept a) was = a.failure error was
Effect-Keeps error s s' (limited id b b' e taken a) was = a.failure error was

pace-Keeps :
    (error bind : String) (limiter : Option Bucket) (clock : List ℕ) (s s' : State)
    → pace bind limiter clock s ≡ some s'
    → Keeps error s s'
unfolding pace record_metric
pace-Keeps error bind none clock s s' turn was = ground arith
pace-Keeps error bind (some b) clock s s' turn was = ground arith

esme_bound-Keeps :
    (error : String) (script : Script) (esme : Esme) (id : String) (now : ℕ) (s : State)
    → Keeps error s (on_esme_bound script esme id now s).0
unfolding on_esme_bound
esme_bound-Keeps error script esme id now s was = was

esme_unbound-Keeps :
    (error : String) (script : Script) (id : String) (s : State)
    → Keeps error s (on_esme_unbound script id s).0
unfolding on_esme_unbound
esme_unbound-Keeps error script id s was = was

smsc_bound-Keeps :
    (error : String) (listener : BindListener) (script : Script) (smsc : Smsc) (id : String)
    (now : ℕ) (s : State)
    → Keeps error s (on_smsc_bound listener script smsc id now s).0
unfolding on_smsc_bound
smsc_bound-Keeps error listener script smsc id now s was = was

smsc_unbound-Keeps :
    (error : String) (listener : BindListener) (script : Script) (id : String) (s : State)
    → Keeps error s (on_smsc_unbound listener script id s).0
unfolding on_smsc_unbound
smsc_unbound-Keeps error listener script id s was = was

module _ (is_success : Response → Bool) (error : String) where
  Step-Keeps : (s s' : State) → Step is_success s s' → Keeps error s s'
  Step-Keeps _ _ (esme_bound script esme now s free) =
      esme_bound-Keeps error script esme esme.session_id now s
  Step-Keeps _ _ (esme_unbound script id s) = esme_unbound-Keeps error script id s
  Step-Keeps _ _ (request script address id r clock s h e) =
      Effect-Keeps error s h.state (on_request-Effect is_success script address id r clock s h e)
  Step-Keeps _ _ (bind_transmitter s) = (on_bind_transmitter-Alike s).failure error
  Step-Keeps _ _ (bind_receiver s) = (on_bind_receiver-Alike s).failure error
  Step-Keeps _ _ (bind_transceiver script system_id password address s) =
      (on_bind_transceiver-Alike script system_id password address s).failure error
  Step-Keeps _ _ (listen_failed later s) = (on_listen_failed-Alike later s).failure error
  Step-Keeps _ _ (smsc_bound listener script smsc id now s) =
      smsc_bound-Keeps error listener script smsc id now s
  Step-Keeps _ _ (smsc_unbound listener script id s) = smsc_unbound-Keeps error listener script id s
  Step-Keeps _ _ (connection_failed listener s) =
      (on_connection_failed-Alike listener s).failure error
  Step-Keeps _ _ (delivery listener script id address r s) =
      (on_deliver_sm-Alike listener script id address r s).failure error
  Step-Keeps _ _ (data_delivery listener script id address r s) =
      (on_data_sm-Alike listener script id address is_success r s).failure error
  Step-Keeps _ _ (alert listener script id address a s) =
      (on_alert_notification-Alike listener script id address a s).failure error
  Step-Keeps _ _ (attempt_over name backoff outcome s) =
      (after_attempt-Alike name backoff outcome s).failure error
  Step-Keeps _ _ (send_turn bind target clock s s' found turn) =
      pace-Keeps error bind target.throttle clock s s' turn

  Run-Keeps : (s s' : State) → Run is_success s s' → Keeps error s s'
  Run-Keeps _ _ (start s) was = was
  Run-Keeps _ _ (followed s t u run step) was = Step-Keeps t u step (Run-Keeps s t run was)

  -- When the socket could not be bound and no failure was recorded before, the task reports that error and
  -- ends, whatever happens before it looks, further failures included.
  pub listen_failed-Run :
      (s s' : State)
      → s.listen_failure ≡ none
      → Run is_success (on_listen_failed error s) s'
      → served s' ≡ down error
  unfolding served on_listen_failed
  listen_failed-Run s s' unset run =
      let was = Run-Keeps (on_listen_failed error s) s' run (rw unset refl) in rw was refl
