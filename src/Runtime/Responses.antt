-- ===== src/Runtime/Responses.antt =====
-- The responses of the listeners, and how they are counted: src/runtime.rs `submit_sm_response`,
-- `data_sm_response` and the ends of the handlers. A `Response` is the call of the codec that builds the
-- response PDU.
use siphon_smpp.Common.{
  ℕ, String, Bool, Option, none, some, List, [], ◌∷◌, if◌then◌else◌, unwrap_or, Result, ok, err,
}
use siphon_smpp.Status.{SmppError, esme_rok, esme_rsyserr, esme_rthrottled, ◌is◌}
use siphon_smpp.Tlv.{Tlv}
use siphon_smpp.Reply.{PduReply}
use siphon_smpp.Dispatch.{DispatchError}
use siphon_smpp.Runtime.{
  State, Handled, pdu_handled, inbound, accepted, rejected, Label, InboundAdmit, proceed, refused,
  record_metric, Direction,
}

pub data Response : Type 0 where
  accept_id : String → Response
  accept_multi : String → Response
  accept_query : String → String → ℕ → ℕ → Response
  accept_plain : Response
  accept_bind : String → ℕ → Response
  reject_with : SmppError → Response
  with_tlv : Response → Tlv → Response

unfoldable pub with_resp_tlvs : Response → List Tlv → Response
with_resp_tlvs resp [] = resp
with_resp_tlvs resp (t ∷ ts) = with_resp_tlvs (with_tlv resp t) ts

unfoldable pub submit_sm_response : PduReply → Response
submit_sm_response reply =
    if reply.command_status is esme_rok
    then accept_id (unwrap_or reply.message_id "")
    else reject_with reply.command_status

unfoldable pub data_sm_response : PduReply → Response
unfolding with_resp_tlvs
data_sm_response reply =
    let resp =
      if reply.command_status is esme_rok
      then accept_id (unwrap_or reply.message_id "")
      else reject_with reply.command_status in
    with_resp_tlvs resp reply.tlvs

-- Counts a PDU and answers it.
abbrev pub answered :
    Direction
    → String
    → Label
    → Response
    → Handled (Option (Result DispatchError PduReply))
    → Handled Response
answered direction command label response d = record {
  answer = response;
  state = record_metric (pdu_handled direction command label) d.state;
  called = d.called;
}

-- The answer to a reply that is taken or refused by its status alone.
abbrev pub by_status :
    Direction
    → String
    → Response
    → PduReply
    → Handled (Option (Result DispatchError PduReply))
    → Handled Response
by_status direction command response reply d =
    if reply.command_status is esme_rok
    then answered direction command accepted response d
    else answered direction command rejected (reject_with reply.command_status) d

-- `resp.is_success()` is the codec's.
module _ (is_success : Response → Bool) where
  abbrev pub label_of : Response → Label
  label_of resp = if is_success resp then accepted else rejected

  -- The answer to a reply whose response says itself whether it accepts.
  abbrev pub by_response :
      Direction
      → String
      → Response
      → Handled (Option (Result DispatchError PduReply))
      → Handled Response
  by_response direction command response d =
      answered direction command (label_of response) response d

  abbrev pub submit_result : Handled (Result DispatchError PduReply) → Handled Response
  submit_result d = elim d.answer [
    | ok reply ↦ record {
      answer = submit_sm_response reply;
      state =
          record_metric (pdu_handled inbound "submit_sm" (label_of (submit_sm_response reply)))
            d.state;
      called = d.called;
    }
    | err e ↦ record {
      answer = reject_with esme_rsyserr;
      state = record_metric (pdu_handled inbound "submit_sm" rejected) d.state;
      called = d.called;
    }
  ]

  abbrev pub data_result :
      Direction → Handled (Option (Result DispatchError PduReply)) → Handled Response
  data_result direction d = elim d.answer [
    | none ↦ answered direction "data_sm" rejected (reject_with esme_rsyserr) d
    | some r ↦ elim r [
      | ok reply ↦ by_response direction "data_sm" (data_sm_response reply) d
      | err e ↦ answered direction "data_sm" rejected (reject_with esme_rsyserr) d
    ]
  ]

-- The answer of an opt-in command: `refusal` where no handler is registered or it failed.
abbrev pub opt_in_result :
    String
    → SmppError
    → (PduReply → Response)
    → Handled (Option (Result DispatchError PduReply))
    → Handled Response
opt_in_result command refusal accept d = elim d.answer [
  | none ↦ answered inbound command rejected (reject_with refusal) d
  | some r ↦ elim r [
    | ok reply ↦ by_status inbound command (accept reply) reply d
    | err e ↦ answered inbound command rejected (reject_with refusal) d
  ]
]

abbrev pub throttled_answer : String → State → Handled Response
throttled_answer command s = record {
  answer = reject_with esme_rthrottled;
  state = record_metric (pdu_handled inbound command rejected) s;
  called = [];
}

-- Message PDUs pass the session's limiter first; `none` while one still waits for a token.
abbrev pub admitted :
    String → Option (InboundAdmit × State) → (State → Handled Response) → Option (Handled Response)
admitted command none handle = none
admitted command (some (refused, s)) handle = some (throttled_answer command s)
admitted command (some (proceed, s)) handle = some (handle s)

abbrev pub query_accept : PduReply → Response
query_accept reply =
    accept_query (unwrap_or reply.message_id "") reply.final_date (unwrap_or reply.message_state 0)
      reply.error_code
