-- ===== src/Runtime/Server.antt =====
-- The listener for ESMEs that bind to us: src/runtime.rs `impl SmppServerListener for State`.
use siphon_smpp.Common.{
  ℕ, String, Bool, not, Option, none, some, List, [], ◌∷◌, ◌++◌, if◌then◌else◌, str_eq, retain,
  unwrap_or, option_map,
}
use siphon_smpp.Status.{
  esme_rsyserr, esme_rcancelfail, esme_rqueryfail, esme_rreplacefail, esme_rinvsysid,
}
use siphon_smpp.Pdu.{
  SubmitSm, DataSm, CancelSm, QuerySm, ReplaceSm, SubmitSmMulti, from_submit, from_data,
  from_cancel, from_query, from_replace, from_submit_multi,
}
use siphon_smpp.Reply.{Session, Bind, esme_server}
use siphon_smpp.Dispatch.{DispatchError, Happening, session_event}
use siphon_smpp.Dispatch
use siphon_smpp.Runtime.Responses.{
  Response, accept_multi, accept_plain, accept_bind, reject_with, submit_sm_response,
  data_sm_response, submit_result, data_result, opt_in_result, admitted, query_accept,
}
use siphon_smpp.Runtime.{
  State, Script, Handled, Esme, bind_request, inbound, accepted, rejected, admit_inbound,
  esme_session, dispatch_pdu, dispatch_pdu_opt, record_metric, find_esme, limiter,
}

-- `client_address` is that of the connection, `clock` the instants at which the limiter is asked.
module _ (is_success : Response → Bool) (script : Script) (client_address session_id : String) where
  unfoldable pub on_submit_sm : SubmitSm → List ℕ → State → Option (Handled Response)
  unfolding submit_sm_response
  on_submit_sm request clock s = admitted "submit_sm" (admit_inbound s session_id clock) λ s.
      submit_result is_success (
        dispatch_pdu script "submit_sm" (from_submit request)
          (esme_session s session_id client_address) s)

  unfoldable pub on_data_sm : DataSm → List ℕ → State → Option (Handled Response)
  unfolding data_sm_response
  on_data_sm request clock s = admitted "data_sm" (admit_inbound s session_id clock) λ s.
      data_result is_success inbound (
        dispatch_pdu_opt script "data_sm" (from_data request)
          (esme_session s session_id client_address) s)

  unfoldable pub on_submit_sm_multi : SubmitSmMulti → List ℕ → State → Option (Handled Response)
  on_submit_sm_multi request clock s =
      admitted "submit_sm_multi" (admit_inbound s session_id clock) λ s.
        opt_in_result "submit_sm_multi" esme_rsyserr
          (λ reply. accept_multi (unwrap_or reply.message_id ""))
          (dispatch_pdu_opt script "submit_sm_multi" (from_submit_multi request)
            (esme_session s session_id client_address) s)

  unfoldable pub on_cancel_sm : CancelSm → State → Handled Response
  on_cancel_sm request s =
      opt_in_result "cancel_sm" esme_rcancelfail (λ reply. accept_plain)
        (dispatch_pdu_opt script "cancel_sm" (from_cancel request)
          (esme_session s session_id client_address) s)

  unfoldable pub on_query_sm : QuerySm → State → Handled Response
  on_query_sm request s = opt_in_result "query_sm" esme_rqueryfail query_accept (
      dispatch_pdu_opt script "query_sm" (from_query request)
        (esme_session s session_id client_address) s)

  unfoldable pub on_replace_sm : ReplaceSm → State → Handled Response
  on_replace_sm request s =
      opt_in_result "replace_sm" esme_rreplacefail (λ reply. accept_plain)
        (dispatch_pdu_opt script "replace_sm" (from_replace request)
          (esme_session s session_id client_address) s)

-- Any bind but a transceiver is rejected.
unfoldable pub on_bind_transmitter : State → Response × State
on_bind_transmitter s = (reject_with esme_rinvsysid, record_metric (bind_request rejected) s)

unfoldable pub on_bind_receiver : State → Response × State
on_bind_receiver s = (reject_with esme_rinvsysid, record_metric (bind_request rejected) s)

unfoldable pub on_bind_transceiver :
    Script → (system_id password client_addr : String) → State → Handled Response
on_bind_transceiver script system_id password client_addr s =
    let bind : Bind = record {
      system_id = system_id;
      password = password;
      client_addr = client_addr;
    } in
    let (outcome, called) = Dispatch.bind script.engine script.source bind in
    if not outcome.accepted
    then record {
      answer = reject_with outcome.status;
      state = record_metric (bind_request rejected) s;
      called = called;
    }
    else record {
      answer = accept_bind system_id 0x34;
      state = record_metric (bind_request accepted) s;
      called = called;
    }

-- Only the first failure to listen is kept.
unfoldable pub on_listen_failed : String → State → State
on_listen_failed error s = record s {
  listen_failure = elim s.listen_failure [ none ↦ some error | some e ↦ some e ];
}

-- The session to which an unbind is sent.
unfoldable pub on_timeout : State → String → Option Esme
on_timeout s session_id = option_map (λ e. e.esme) (find_esme s session_id)

abbrev bound_esme : State → Esme → ℕ → State
bound_esme s esme now = record s {
  esmes =
      s.esmes
      ++ record {
        esme = esme;
        throttle = limiter s.inbound_max_mps now;
        response_timer = s.inbound_response_timer;
      }
        ∷ [];
}

unfoldable pub on_esme_bound : Script → Esme → String → ℕ → State → State × List Happening
on_esme_bound script esme session_id now s =
    let session : Session = record {
      kind = esme_server;
      session_id = session_id;
      system_id = esme.system_id;
      client_addr = esme.client_address;
    } in
    (bound_esme s esme now, session_event script.engine session script.source "bound")

unfoldable pub on_esme_unbound : Script → String → State → State × List Happening
on_esme_unbound script session_id s =
    let found = option_map (λ e. e.esme) (find_esme s session_id) in
    let session : Session = record {
      kind = esme_server;
      session_id = session_id;
      system_id = unwrap_or (option_map (λ (e : Esme). e.system_id) found) "";
      client_addr = unwrap_or (option_map (λ (e : Esme). e.client_address) found) "";
    } in
    (
      record s { esmes = retain (λ e. not (str_eq e.esme.session_id session_id)) s.esmes },
      session_event script.engine session script.source "unbound",
    )

-- The requests that a bound ESME sends, and the handler of each.
pub data Request : Type 0 where
  submit : SubmitSm → Request
  data_request : DataSm → Request
  submit_multi : SubmitSmMulti → Request
  cancel : CancelSm → Request
  query : QuerySm → Request
  replace : ReplaceSm → Request

module _ (is_success : Response → Bool) (script : Script) (client_address session_id : String) where
  unfoldable pub on_request : Request → List ℕ → State → Option (Handled Response)
  unfolding on_submit_sm on_data_sm on_submit_sm_multi on_cancel_sm on_query_sm on_replace_sm
  on_request (submit r) clock s = on_submit_sm is_success script client_address session_id r clock s
  on_request (data_request r) clock s =
      on_data_sm is_success script client_address session_id r clock s
  on_request (submit_multi r) clock s =
      on_submit_sm_multi is_success script client_address session_id r clock s
  on_request (cancel r) clock s =
      some (on_cancel_sm is_success script client_address session_id r s)
  on_request (query r) clock s = some (on_query_sm is_success script client_address session_id r s)
  on_request (replace r) clock s =
      some (on_replace_sm is_success script client_address session_id r s)
