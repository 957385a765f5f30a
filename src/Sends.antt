-- ===== src/Sends.antt =====
-- What a script sends: src/sends.rs, the results and the steps that the helpers share. A request is
-- kept as the call of the codec that carries it.
mod Requests
pub mod Outbound
pub mod Inbound
pub mod Calls
pub mod Bodies
pub mod Reports
pub mod Turns
pub mod Keywords
pub use Requests.*
use siphon_smpp.Common.{
  ℕ, ◌+◌, String, Bool, true, false, not, Option, none, some, List, [], ◌∷◌, ◌++◌, ◌==◌, leb,
  if◌then◌else◌, str_eq, find, is_empty, is_some, option_map, ok_or, length, Result, ok, err, ◌>>=◌,
}
use siphon_smpp.Status.{SmppError, esme_rok, code, status_name}
use siphon_smpp.Status
use siphon_smpp.Tlv.{Bytes, Tlv, TlvTable, TlvError, PyValue, message_payload, tlvs_from_py}
use siphon_smpp.Pdu.{TlvList, DataSm, CancelSm, QuerySm, DestAddress}
use siphon_smpp.Outcome.{
  Response, query_sm_resp, status, message_id, SendFailure, SendErrorValue, Target, on_bind,
  on_session, into_pyerr, settle,
}
use siphon_smpp.RateLimiter.{Bucket, acquire}
use siphon_smpp.Runtime.{
  State, BindSession, EsmeSession, Smsc, Esme, throttled, egress, record_metric, find_esme,
  bind_gone, esme_gone,
}

abbrev pub short_message_max : ℕ
short_message_max = 254

unfoldable pub check_short_message : String → ℕ → Bool → Result SendError (Unit {0})
check_short_message command len payload_available =
    if leb len short_message_max
    then ok tt
    else err (short_message_too_long command len payload_available)

abbrev pub tlvs_of : TlvTable → Option (List (PyValue × PyValue)) → Result SendError (List Tlv)
tlvs_of table dict = elim (tlvs_from_py table dict) [ ok tlvs ↦ ok tlvs | err e ↦ err (bad_tlvs e) ]

-- A body goes into the `message_payload` parameter, unless there is one already.
unfoldable pub fold_message_payload :
    TlvTable → TlvList → String → Bytes → List Tlv → Result SendError (List Tlv)
fold_message_payload table lookups command short_message tlvs =
    if is_empty short_message
    then ok tlvs
    else if is_some (lookups.message_payload tlvs)
    then err (two_bodies command)
    else ok (tlvs ++ record { tag = table.number message_payload; value = short_message } ∷ [])

-- The body of a `data_sm` is given beside its fields, which are those of `fields`.
unfoldable pub build_data_sm :
    TlvTable → TlvList → DataSm → Bytes → List Tlv → Result SendError DataSm
unfolding fold_message_payload
build_data_sm table lookups fields short_message tlvs = do
  tlvs ← fold_message_payload table lookups "data_sm" short_message tlvs
  ok (record fields { tlvs = tlvs })

pub record SmppResp : Type 0 where
  pub command_status : String
  pub command_status_code : ℕ
  pub message_id : String

pub record QueryResp : Type 0 where
  pub command_status : String
  pub command_status_code : ℕ
  pub message_id : String
  pub message_state : ℕ
  pub final_date : String
  pub error_code : ℕ

-- The fields of a `query_sm_resp`.
pub record QuerySmResp : Type 0 where
  pub command_status : ℕ
  pub message_id : String
  pub message_state : ℕ
  pub final_date : String
  pub error_code : ℕ

unfoldable pub is_ok : SmppResp → Bool
is_ok r = r.command_status_code == code esme_rok

unfoldable pub is_throttled : SmppResp → Bool
unfolding Status.is_throttle
is_throttled r = Status.is_throttle r.command_status_code

module _ (from_command_status : ℕ → SmppError) where
  unfoldable pub from_reply : Response → SmppResp
  unfolding status
  from_reply reply = record {
    command_status = status_name from_command_status (status reply);
    command_status_code = status reply;
    message_id = message_id reply;
  }

  unfoldable pub written : SmppResp
  written = record {
    command_status = status_name from_command_status (code esme_rok);
    command_status_code = code esme_rok;
    message_id = "";
  }

  unfoldable pub query_from_reply : QuerySmResp → QueryResp
  unfolding status
  query_from_reply reply =
      let status = status (
        query_sm_resp reply.command_status reply.message_id reply.message_state reply.final_date
          reply.error_code) in
      record {
        command_status = status_name from_command_status status;
        command_status_code = status;
        message_id = reply.message_id;
        message_state = reply.message_state;
        final_date = reply.final_date;
        error_code = reply.error_code;
      }

pub record BindTarget : Type 0 where
  pub smsc : Smsc
  pub throttle : Option Bucket
  pub response_timer : ℕ

abbrev pub found_bind : String → Option BindSession → Result SendError BindTarget
found_bind bind none = err (bind_not_bound bind)
found_bind bind (some b) =
    ok (record { smsc = b.smsc; throttle = b.throttle; response_timer = b.response_timer })

unfoldable pub bind_handle : State → String → Result SendError BindTarget
bind_handle s bind = found_bind bind (find (λ b. str_eq b.name bind) s.binds)

abbrev found_esme : String → Option EsmeSession → Result SendError (Esme × ℕ)
found_esme session_id none = err (session_not_bound session_id)
found_esme session_id (some e) = ok (e.esme, e.response_timer)

unfoldable pub esme_handle : State → String → Result SendError (Esme × ℕ)
unfolding find_esme
esme_handle s session_id = found_esme session_id (find_esme s session_id)

-- Write the limiter of the first bind with this name back.
unfoldable pub put_bind_throttle : String → Bucket → List BindSession → List BindSession
put_bind_throttle bind limiter [] = []
put_bind_throttle bind limiter (b ∷ bs) =
    if str_eq b.name bind
    then record b { throttle = some limiter } ∷ bs
    else b ∷ put_bind_throttle bind limiter bs

-- `clock` gives the instants at which the limiter is asked; `none` while the request still waits.
unfoldable pub pace : String → Option Bucket → List ℕ → State → Option State
unfolding put_bind_throttle record_metric
pace bind none clock s = some s
pace bind (some limiter) clock s = elim (acquire clock limiter) [
  | none ↦ none
  | some (limiter, waited) ↦
      let s : State = record s { binds = put_bind_throttle bind limiter s.binds } in
      some (if waited then record_metric (throttled egress) s else s)
]

-- What becomes of a request: the answer that the codec's future gives, the instants at which it was
-- started and finished, and the state when it finished.
pub record Exchange (R : Type 0) : Type 0 where
  pub answer : Result SmppError R
  pub started : ℕ
  pub finished : ℕ
  pub later : State

unfoldable pub settle_on_bind :
    {R : Type 0} → BindTarget → String → String → Exchange R → Result SendError R
unfolding settle bind_gone into_pyerr
settle_on_bind target bind command x =
    elim (settle x.answer x.started x.finished target.response_timer
      (bind_gone x.later target.smsc)) [
        | ok r ↦ ok r
        | err failure ↦ err (send_error (into_pyerr failure command (on_bind bind)))
      ]

unfoldable pub settle_on_esme :
    {R : Type 0} → Esme → ℕ → String → String → Exchange R → Result SendError R
unfolding settle esme_gone into_pyerr
settle_on_esme esme response_timer session_id command x =
    elim (settle x.answer x.started x.finished response_timer (esme_gone x.later esme)) [
      | ok r ↦ ok r
      | err failure ↦ err (send_error (into_pyerr failure command (on_session session_id)))
    ]

-- What a call of a helper gives: its result, the requests that it wrote, and the state when it wrote
-- them. `none` stands for a call that still waits for its turn.
pub record Sent (R : Type 0) : Type 0 where
  pub result : Result SendError R
  pub wrote : List Request
  pub state : Option State

unfoldable pub require_state : Option State → Result SendError State
require_state runtime = ok_or runtime not_started

-- A call that fails before it writes leaves everything as it was.
abbrev pub conclude :
    {R : Type 0} → Option State → Result SendError (Option (Sent R)) → Option (Sent R)
conclude runtime (err e) = some (record { result = err e; wrote = []; state = runtime })
conclude runtime (ok sent) = sent

abbrev pub report : {Q R : Type 0} → (Q → R) → Result SendError Q → Request → State → Sent R
report from_reply answer request s = record {
  result = answer >>= λ r. ok (from_reply r);
  wrote = request ∷ [];
  state = some s;
}
