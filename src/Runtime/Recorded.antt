-- ===== src/Runtime/Recorded.antt =====
-- What admission and dispatch leave in the PDU counter: src/metrics.rs, src/runtime.rs.
use siphon_smpp.Common.{
  ℕ, String, Bool, true, false, none, some, List, [], ◌∷◌, ◌≡◌, ◌≢◌, Result, ok, err, arith,
}
use siphon_smpp.Status.{SmppError, esme_rok}
use siphon_smpp.Pdu.{Pdu}
use siphon_smpp.Reply.{PduReply, Session}
use siphon_smpp.Dispatch.{DispatchError}
use siphon_smpp.Runtime.{
  State, Script, Metric, pdu_handled, throttled, bind_reconnect, dispatch_error, dispatch_duration,
  bind_request, connect_failure, InboundAdmit, admit_inbound, dispatch_pdu, dispatch_pdu_opt,
  record_metric, count_dispatch,
}
use siphon_smpp.Runtime.Responses.{Response}
use siphon_smpp.Runtime.Answers.{verdict_of}

-- The entries of the PDU counter, newest first.
abbrev pub handled : List Metric → List Metric
handled [] = []
handled (pdu_handled d c l ∷ ms) = pdu_handled d c l ∷ handled ms
handled (throttled d ∷ ms) = handled ms
handled (bind_reconnect b ∷ ms) = handled ms
handled (dispatch_error c ∷ ms) = handled ms
handled (dispatch_duration c ∷ ms) = handled ms
handled (bind_request l ∷ ms) = handled ms
handled (connect_failure b ∷ ms) = handled ms

-- The codec's `is_success` tells an acceptance from a refusal that carries an error status.
pub record SuccessLaw (is_success : Response → Bool) : Type 0 where
  pub accepts : (resp : Response) → verdict_of resp ≡ none → is_success resp ≡ true
  pub rejects :
      (resp : Response) (e : SmppError)
      → verdict_of resp ≡ some e
      → e ≢ esme_rok
      → is_success resp ≡ false

-- Neither the store nor what stands in the PDU counter has changed.
abbrev pub SameCounts : State → State → Type 0
SameCounts s t = (t.metrics_enabled ≡ s.metrics_enabled) × (handled t.metrics ≡ handled s.metrics)

count_dispatch-SameCounts :
    (command : String) (r : Result DispatchError PduReply) (s : State)
    → SameCounts s (count_dispatch command r s)
unfolding record_metric
count_dispatch-SameCounts command (ok r) s = ground arith
count_dispatch-SameCounts command (err e) s = ground arith

pub admit_inbound-SameCounts :
    (s s' : State) (session_id : String) (clock : List ℕ) (a : InboundAdmit)
    → admit_inbound s session_id clock ≡ some (a, s')
    → SameCounts s s'
unfolding admit_inbound record_metric
admit_inbound-SameCounts s s' session_id clock a e = ground arith

pub dispatch-SameCounts :
    (script : Script) (command : String) (pdu : Pdu) (session : Session) (s : State)
    → SameCounts s (dispatch_pdu_opt script command pdu session s).state
unfolding dispatch_pdu_opt record_metric
dispatch-SameCounts script command pdu session s = ground arith

pub dispatch_pdu-SameCounts :
    (script : Script) (command : String) (pdu : Pdu) (session : Session) (s : State)
    → SameCounts s (dispatch_pdu script command pdu session s).state
unfolding dispatch_pdu
dispatch_pdu-SameCounts script command pdu session s =
    dispatch-SameCounts script command pdu session s
