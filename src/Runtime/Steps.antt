-- ===== src/Runtime/Steps.antt =====
-- The changes of the shared state, one after the other: every call by which src/runtime.rs and
-- src/sends.rs touch `State`.
use siphon_smpp.Common.{ℕ, ◌≡◌, String, Bool, Option, none, some, List, [], ◌∷◌, ok}
use siphon_smpp.Pdu.{DeliverSm, DataSm}
use siphon_smpp.Reply.{AlertNotification}
use siphon_smpp.Runtime.{State, Script, Handled, Esme, Smsc, find_esme}
use siphon_smpp.Runtime.Server.{
  Request, on_request, on_bind_transmitter, on_bind_receiver, on_bind_transceiver, on_listen_failed,
  on_esme_bound, on_esme_unbound,
}
use siphon_smpp.Runtime.Responses.{Response}
use siphon_smpp.Runtime.Client.{
  BindListener, on_connection_failed, on_deliver_sm, on_alert_notification, on_smsc_bound,
  on_smsc_unbound,
}
use siphon_smpp.Runtime.Client
use siphon_smpp.Runtime.Supervisor.{after_attempt, run_bind_loop}
use siphon_smpp.Sends.{BindTarget, bind_handle, pace}

module _ (is_success : Response → Bool) where
  -- One change. The codec gives a session that comes up an id that no bound session has. A send helper
  -- changes the state where it waits for its turn.
  pub data Step : State → State → Type 0 where
    esme_bound :
        (script : Script) (esme : Esme) (now : ℕ) (s : State)
        → find_esme s esme.session_id ≡ none
        → Step s (on_esme_bound script esme esme.session_id now s).0
    esme_unbound :
        (script : Script) (id : String) (s : State) → Step s (on_esme_unbound script id s).0
    request :
        (script : Script) (address id : String) (r : Request) (clock : List ℕ) (s : State)
        (h : Handled Response)
        → on_request is_success script address id r clock s ≡ some h
        → Step s h.state
    bind_transmitter : (s : State) → Step s (on_bind_transmitter s).1
    bind_receiver : (s : State) → Step s (on_bind_receiver s).1
    bind_transceiver :
        (script : Script) (system_id password address : String) (s : State)
        → Step s (on_bind_transceiver script system_id password address s).state
    listen_failed : (error : String) (s : State) → Step s (on_listen_failed error s)
    smsc_bound :
        (listener : BindListener) (script : Script) (smsc : Smsc) (id : String) (now : ℕ)
        (s : State)
        → Step s (on_smsc_bound listener script smsc id now s).0
    smsc_unbound :
        (listener : BindListener) (script : Script) (id : String) (s : State)
        → Step s (on_smsc_unbound listener script id s).0
    connection_failed :
        (listener : BindListener) (s : State) → Step s (on_connection_failed listener s).0
    delivery :
        (listener : BindListener) (script : Script) (id address : String) (r : DeliverSm)
        (s : State)
        → Step s (on_deliver_sm listener script id address r s).state
    data_delivery :
        (listener : BindListener) (script : Script) (id address : String) (r : DataSm) (s : State)
        → Step s (Client.on_data_sm listener script id address is_success r s).state
    alert :
        (listener : BindListener) (script : Script) (id address : String) (a : AlertNotification)
        (s : State)
        → Step s (on_alert_notification listener script id address a s).0
    attempt_over :
        (name : String) (backoff : ℕ) (outcome : Option ℕ) (s : State)
        → Step s (after_attempt name backoff outcome s).state
    send_turn :
        (bind : String) (target : BindTarget) (clock : List ℕ) (s s' : State)
        → bind_handle s bind ≡ ok target
        → pace bind target.throttle clock s ≡ some s'
        → Step s s'

  -- Changes in a row.
  pub data Run : State → State → Type 0 where
    start : (s : State) → Run s s
    followed : (s t u : State) → Run s t → Step t u → Run s u

  -- The loop that keeps a bind up takes one step for each of its attempts.
  pub run_bind_loop-Run :
      (name : String) (backoff : ℕ) (outcomes : List (Option ℕ)) (s t : State)
      → Run s t
      → Run s (run_bind_loop name backoff outcomes t).1
  unfolding run_bind_loop
  run_bind_loop-Run name backoff [] s t run = run
  run_bind_loop-Run name backoff (outcome ∷ outcomes) s t run =
      let round = after_attempt name backoff outcome t in
      run_bind_loop-Run name round.backoff outcomes s round.state
        (followed s t round.state run (attempt_over name backoff outcome t))
