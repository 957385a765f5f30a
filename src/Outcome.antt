-- ===== src/Outcome.antt =====
-- What came back for a request we originated: src/outcome.rs. A `Duration` and an instant are
-- numbers of nanoseconds.
pub mod Classes
use siphon_smpp.Common.{
  ℕ, ◌-◌, String, Bool, true, false, Option, none, some, not, leb, if◌then◌else◌, unwrap_or, Result,
  ok, err,
}
use siphon_smpp.Status.{SmppError, esme_rsyserr, code, debug_name, ◌is◌}

-- The response PDUs of the codec, with the fields that the crate reads: the raw `command_status`,
-- and the id where the PDU carries one.
pub data Response : Type 0 where
  submit_sm_resp : ℕ → Option String → Response
  submit_sm_multi_resp : ℕ → Option String → Response
  query_sm_resp : ℕ → String → ℕ → String → ℕ → Response
  deliver_sm_resp : ℕ → Response
  data_sm_resp : ℕ → Response
  cancel_sm_resp : ℕ → Response
  replace_sm_resp : ℕ → Response

-- The trait `Reply`.
unfoldable pub status : Response → ℕ
status (submit_sm_resp s id) = s
status (submit_sm_multi_resp s id) = s
status (query_sm_resp s id state date error) = s
status (deliver_sm_resp s) = s
status (data_sm_resp s) = s
status (cancel_sm_resp s) = s
status (replace_sm_resp s) = s

unfoldable pub message_id : Response → String
message_id (submit_sm_resp s id) = unwrap_or id ""
message_id (submit_sm_multi_resp s id) = unwrap_or id ""
message_id (query_sm_resp s id state date error) = id
message_id (deliver_sm_resp s) = ""
message_id (data_sm_resp s) = ""
message_id (cancel_sm_resp s) = ""
message_id (replace_sm_resp s) = ""

pub data SendFailure : Type 0 where
  nack : SmppError → SendFailure
  timeout : ℕ → SendFailure
  closed unanswered : SendFailure

unfoldable pub reason : SendFailure → String
reason (nack e) = "nack"
reason (timeout t) = "timeout"
reason closed = "closed"
reason unanswered = "unanswered"

-- What the request was sent on: `bind "name"` or `session "id"` in the message.
pub data Target : Type 0 where
  on_bind on_session : String → Target

-- The exception that a script sees. Its message is put together from the target, the command and
-- the failure, and is kept as these three.
pub record SendErrorValue : Type 0 where
  pub target : Target
  pub failure : SendFailure
  pub reason_attr : String
  pub command : String
  pub command_status : Option (String × ℕ)

abbrev nack_status : SendFailure → Option (String × ℕ)
nack_status (nack e) = some (debug_name e, code e)
nack_status (timeout t) = none
nack_status closed = none
nack_status unanswered = none

unfoldable pub into_pyerr : SendFailure → String → Target → SendErrorValue
unfolding reason
into_pyerr failure command target = record {
  target = target;
  failure = failure;
  reason_attr = reason failure;
  command = command;
  command_status = nack_status failure;
}

unfoldable pub classify : SmppError → ℕ → ℕ → Bool → SendFailure
classify error waited response_timer session_gone =
    if not (error is esme_rsyserr)
    then nack error
    else if leb response_timer waited
    then timeout response_timer
    else if session_gone
    then closed
    else unanswered

-- `send` is what the codec's future gave, at the instant `finished`; `session_gone` is what the
-- registry says then, and is read on a failure only.
unfoldable pub settle {ℓ} :
    {R : Type ℓ}
    → Result SmppError R
    → (started finished response_timer : ℕ) → Bool
    → Result SendFailure R
unfolding classify
settle (ok response) started finished response_timer session_gone = ok response
settle (err error) started finished response_timer session_gone =
    err (classify error (finished - started) response_timer session_gone)
