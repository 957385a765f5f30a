-- ===== src/Runtime/Answers.antt =====
-- What an inbound request is answered, and how it is counted: src/runtime.rs
-- `impl SmppServerListener for State`.
use siphon_smpp.Common.{
  ℕ, String, Bool, Option, none, some, List, [], ◌∷◌, ◌≡◌, refl, ◌∙◌, if◌then◌else◌, unwrap_or,
  Result, ok, err, arith,
}
use siphon_smpp.Status.{
  SmppError, esme_rok, esme_rsyserr, esme_rcancelfail, esme_rqueryfail, esme_rreplacefail,
  esme_rthrottled, ◌is◌,
}
use siphon_smpp.Tlv.{Tlv}
use siphon_smpp.Pdu.{
  Pdu, from_submit, from_data, from_cancel, from_query, from_replace, from_submit_multi,
}
use siphon_smpp.Reply.{PduReply, default_ok}
use siphon_smpp.Dispatch.{DispatchError}
use siphon_smpp.Dispatch
use siphon_smpp.Runtime.{
  State, Script, Handled, inbound, InboundAdmit, proceed, refused, admit_inbound, esme_session,
  dispatch_pdu, dispatch_pdu_opt,
}
use siphon_smpp.Runtime.Server.{
  Request, submit, data_request, submit_multi, cancel, query, replace, on_request,
}
use siphon_smpp.Runtime.Responses.{
  Response, accept_id, accept_multi, accept_query, accept_plain, accept_bind, reject_with, with_tlv,
  with_resp_tlvs, submit_sm_response, data_sm_response, submit_result, data_result, opt_in_result,
  admitted, query_accept, throttled_answer,
}

-- The status that a response refuses with, if it refuses.
abbrev pub verdict_of : Response → Option SmppError
verdict_of (accept_id id) = none
verdict_of (accept_multi id) = none
verdict_of (accept_query id date state error) = none
verdict_of accept_plain = none
verdict_of (accept_bind id version) = none
verdict_of (reject_with e) = some e
verdict_of (with_tlv r t) = verdict_of r

abbrev pub command_of : Request → String
command_of (submit r) = "submit_sm"
command_of (data_request r) = "data_sm"
command_of (submit_multi r) = "submit_sm_multi"
command_of (cancel r) = "cancel_sm"
command_of (query r) = "query_sm"
command_of (replace r) = "replace_sm"

abbrev pub pdu_of : Request → Pdu
pdu_of (submit r) = from_submit r
pdu_of (data_request r) = from_data r
pdu_of (submit_multi r) = from_submit_multi r
pdu_of (cancel r) = from_cancel r
pdu_of (query r) = from_query r
pdu_of (replace r) = from_replace r

-- The status of the refusal that the command itself gives.
abbrev pub refusal : Request → SmppError
refusal (submit r) = esme_rsyserr
refusal (data_request r) = esme_rsyserr
refusal (submit_multi r) = esme_rsyserr
refusal (cancel r) = esme_rcancelfail
refusal (query r) = esme_rqueryfail
refusal (replace r) = esme_rreplacefail

-- Only a `submit_sm` is taken where no handler is registered.
abbrev pub unhandled : Request → Option SmppError
unhandled (submit r) = none
unhandled r = some (refusal r)

-- Cancel, query and replace requests pass no limiter.
abbrev pub admission : State → String → List ℕ → Request → Option (InboundAdmit × State)
admission s session_id clock (submit r) = admit_inbound s session_id clock
admission s session_id clock (data_request r) = admit_inbound s session_id clock
admission s session_id clock (submit_multi r) = admit_inbound s session_id clock
admission s session_id clock r = some (proceed, s)

-- What the specification of a request says: the status decides, and nothing else does.
abbrev pub expected : Request → Option (Result DispatchError PduReply) → Option SmppError
expected r none = unhandled r
expected r (some (err e)) = some (refusal r)
expected r (some (ok reply)) =
    if reply.command_status is esme_rok then none else some reply.command_status

with_resp_tlvs-verdict :
    (resp : Response) (ts : List Tlv) → verdict_of (with_resp_tlvs resp ts) ≡ verdict_of resp
unfolding with_resp_tlvs
with_resp_tlvs-verdict resp [] = refl
with_resp_tlvs-verdict resp (t ∷ ts) = with_resp_tlvs-verdict (with_tlv resp t) ts

module _ (is_success : Response → Bool) (script : Script) (client_address session_id : String) where
  -- What the script's handler for the request gives, and which handlers ran.
  abbrev pub dispatched : Request → State → Option (Result DispatchError PduReply) × List ℕ
  dispatched r s =
      Dispatch.pdu script.engine script.source (command_of r) (pdu_of r)
        (esme_session s session_id client_address)

  abbrev pub opt : Request → State → Handled (Option (Result DispatchError PduReply))
  opt r s =
      dispatch_pdu_opt script (command_of r) (pdu_of r) (esme_session s session_id client_address) s

  abbrev pub handle : Request → State → Handled Response
  handle (submit r) s =
      submit_result is_success (
        dispatch_pdu script "submit_sm" (from_submit r) (esme_session s session_id client_address)
          s)
  handle (data_request r) s = data_result is_success inbound (opt (data_request r) s)
  handle (submit_multi r) s =
      opt_in_result "submit_sm_multi" esme_rsyserr
        (λ reply. accept_multi (unwrap_or reply.message_id "")) (opt (submit_multi r) s)
  handle (cancel r) s =
      opt_in_result "cancel_sm" esme_rcancelfail (λ reply. accept_plain) (opt (cancel r) s)
  handle (query r) s = opt_in_result "query_sm" esme_rqueryfail query_accept (opt (query r) s)
  handle (replace r) s =
      opt_in_result "replace_sm" esme_rreplacefail (λ reply. accept_plain) (opt (replace r) s)

  pub on_request_lem :
      (r : Request) (clock : List ℕ) (s : State)
      → on_request is_success script client_address session_id r clock s
        ≡ admitted (command_of r) (admission s session_id clock r) (handle r)
  unfolding on_request
  on_request_lem (submit r) clock s = refl
  on_request_lem _ clock s = refl

  data_sm_response-verdict :
      (reply : PduReply)
      → verdict_of (data_sm_response reply)
        ≡ (if reply.command_status is esme_rok then none else some reply.command_status)
  unfolding data_sm_response
  data_sm_response-verdict reply =
      with_resp_tlvs-verdict
        (if reply.command_status is esme_rok
          then accept_id (unwrap_or reply.message_id "")
          else reject_with reply.command_status)
        reply.tlvs
      ∙ ground arith

  handle-verdict :
      (r : Request) (s : State) → verdict_of (handle r s).answer ≡ expected r (dispatched r s).0
  unfolding dispatch_pdu_opt dispatch_pdu submit_sm_response default_ok
  handle-verdict (submit r) s = ground arith
  handle-verdict (data_request r) s = grind (arith, data_sm_response-verdict)
  handle-verdict _ s = ground arith

  handle-called : (r : Request) (s : State) → (handle r s).called ≡ (dispatched r s).1
  unfolding dispatch_pdu_opt dispatch_pdu
  handle-called (submit r) s = ground arith
  handle-called _ s = ground arith

  abbrev pub verdict_for : InboundAdmit → Request → State → Option SmppError
  verdict_for proceed r s = expected r (dispatched r s).0
  verdict_for refused r s = some esme_rthrottled

  abbrev pub called_for : InboundAdmit → Request → State → List ℕ
  called_for proceed r s = (dispatched r s).1
  called_for refused r s = []

  -- Every request whose admission is decided gets a response. One that was let through is answered with
  -- the status that the handler chose, whatever else it handed back; where it failed, with the command's
  -- refusal; where none is registered, with an acceptance of a `submit_sm` and a refusal of any other. One
  -- that was refused is answered `ESME_RTHROTTLED`, and no handler runs for it.
  pub on_request-verdict :
      (r : Request) (clock : List ℕ) (a : InboundAdmit) (s s' : State)
      → admission s session_id clock r ≡ some (a, s')
      → (h : Handled Response) × (on_request is_success script client_address session_id r clock s
          ≡ some h)
        × (verdict_of h.answer ≡ verdict_for a r s')
        × (h.called ≡ called_for a r s')
  on_request-verdict r clock proceed s s' e =
      (handle r s', on_request_lem r clock s ∙ rw e, handle-verdict r s', handle-called r s')
  on_request-verdict r clock refused s s' e =
      (throttled_answer (command_of r) s', on_request_lem r clock s ∙ rw e, refl, refl)
