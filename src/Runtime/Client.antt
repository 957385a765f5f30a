-- ===== src/Runtime/Client.antt =====
-- The listener of an outbound bind: src/runtime.rs `impl SmppClientListener for BindListener`.
use siphon_smpp.Common.{
  ℕ, String, Bool, true, not, Option, List, [], ◌∷◌, ◌++◌, if◌then◌else◌, str_eq, find, retain,
  length, option_map, ltb, Result, ok, err,
}
use siphon_smpp.Status.{esme_rok, esme_rsyserr, ◌is◌}
use siphon_smpp.Pdu.{DeliverSm, DataSm, from_deliver, from_data}
use siphon_smpp.Reply.{PduReply, Session, AlertNotification, bind}
use siphon_smpp.Dispatch.{DispatchError, Happening, session_event}
use siphon_smpp.Dispatch
use siphon_smpp.Runtime.{
  State, Script, Handled, Smsc, pdu_handled, dispatch_error, connect_failure, egress, accepted,
  rejected, dispatch_pdu, dispatch_pdu_opt, record_metric, limiter,
}
use siphon_smpp.Runtime.Responses.{
  Response, accept_plain, reject_with, data_result, data_sm_response,
}

-- `connect_failed` is the flag that the supervisor watches.
pub record BindListener : Type 0 where
  pub bind_name : String
  pub max_msg_per_sec : ℕ
  pub response_timer : ℕ
  pub connect_failed : Bool

module _ (listener : BindListener) where
  unfoldable pub on_connection_failed : State → State × BindListener
  on_connection_failed s = (
    record_metric (connect_failure listener.bind_name) s,
    record listener { connect_failed = true },
  )

  unfoldable pub bind_session : String → String → Session
  bind_session session_id server_address = record {
    kind = bind;
    session_id = session_id;
    system_id = listener.bind_name;
    client_addr = server_address;
  }

  abbrev pub deliver_result : Handled (Result DispatchError PduReply) → Handled Response
  deliver_result d = elim d.answer [
    | ok reply ↦
        if reply.command_status is esme_rok
        then record {
          answer = accept_plain;
          state = record_metric (pdu_handled egress "deliver_sm" accepted) d.state;
          called = d.called;
        }
        else record {
          answer = reject_with reply.command_status;
          state = record_metric (pdu_handled egress "deliver_sm" rejected) d.state;
          called = d.called;
        }
    | err e ↦ record {
      answer = reject_with esme_rsyserr;
      state = record_metric (pdu_handled egress "deliver_sm" rejected) d.state;
      called = d.called;
    }
  ]

  module _ (script : Script) (session_id server_address : String) where
    unfoldable pub on_deliver_sm : DeliverSm → State → Handled Response
    unfolding bind_session
    on_deliver_sm request s = deliver_result (
        dispatch_pdu script "deliver_sm" (from_deliver request)
          (bind_session session_id server_address) s)

    unfoldable pub on_data_sm : (Response → Bool) → DataSm → State → Handled Response
    unfolding bind_session data_sm_response
    on_data_sm is_success request s = data_result is_success egress (
        dispatch_pdu_opt script "data_sm" (from_data request)
          (bind_session session_id server_address) s)

    abbrev pub alert_counts : Result DispatchError (Unit {0}) → State → State
    alert_counts (ok u) s = record_metric (pdu_handled egress "alert_notification" accepted) s
    alert_counts (err e) s =
        record_metric (pdu_handled egress "alert_notification" rejected)
          (record_metric (dispatch_error "alert_notification") s)

    unfoldable pub on_alert_notification : AlertNotification → State → State × List ℕ
    unfolding bind_session
    on_alert_notification alert s =
        let (result, called) =
          Dispatch.alert script.engine script.source alert
            (bind_session session_id server_address) in
        (alert_counts result s, called)

  -- The session to which an unbind is sent.
  unfoldable pub on_timeout : State → String → Option Smsc
  on_timeout s session_id =
      option_map (λ t. t.smsc) (find (λ t. str_eq t.smsc.session_id session_id) s.binds)

  unfoldable pub on_smsc_bound : Script → Smsc → String → ℕ → State → State × List Happening
  on_smsc_bound script smsc session_id now s =
      let session : Session = record {
        kind = bind;
        session_id = session_id;
        system_id = listener.bind_name;
        client_addr = smsc.server_address;
      } in
      (
        record s {
          binds =
              s.binds
              ++ record {
                name = listener.bind_name;
                smsc = smsc;
                throttle = limiter listener.max_msg_per_sec now;
                response_timer = listener.response_timer;
              }
                ∷ [];
        },
        session_event script.engine session script.source "bound",
      )

  unfoldable pub on_smsc_unbound : Script → String → State → State × List Happening
  on_smsc_unbound script session_id s =
      let left = retain (λ t. not (str_eq t.smsc.session_id session_id)) s.binds in
      let session : Session = record {
        kind = bind;
        session_id = session_id;
        system_id = listener.bind_name;
        client_addr = "";
      } in
      (
        record s { binds = left },
        if ltb (length left) (length s.binds)
            then session_event script.engine session script.source "unbound"
            else [],
      )
