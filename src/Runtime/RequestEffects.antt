-- ===== src/Runtime/RequestEffects.antt =====
-- What a request of an ESME changes of the registry: src/runtime.rs, its handlers.
use mathlib.Core.Option.{some-injective}
use siphon_smpp.Common.{
  ℕ, ◌≡◌, refl, subst, String, Bool, Option, none, some, List, Result, arith, unwrap_or,
}
use siphon_smpp.Pdu.{
  Pdu, from_submit, from_data, from_submit_multi, from_cancel, from_query, from_replace,
}
use siphon_smpp.Reply.{PduReply, Session}
use siphon_smpp.Dispatch.{DispatchError}
use siphon_smpp.Runtime.{
  State, Script, Handled, InboundAdmit, proceed, refused, record_metric, admit_inbound,
  dispatch_pdu_opt, dispatch_pdu, esme_session, Direction, inbound,
}
use siphon_smpp.Runtime.Server.{
  Request, submit, data_request, submit_multi, cancel, query, replace, on_request,
}
use siphon_smpp.Runtime.Responses.{
  Response, admitted, submit_result, data_result, opt_in_result, throttled_answer, accept_multi,
  accept_plain, query_accept,
}
use siphon_smpp.Status.{
  SmppError, esme_rsyserr, esme_rcancelfail, esme_rqueryfail, esme_rreplacefail,
}
use siphon_smpp.Runtime.Effects.{
  Alike, Effect, kept, admit_inbound-Effect, Alike-trans, Effect-Alike,
}

dispatch-Alike :
    (script : Script) (command : String) (pdu : Pdu) (session : Session) (s : State)
    → Alike s (dispatch_pdu_opt script command pdu session s).state
unfolding dispatch_pdu_opt record_metric
dispatch-Alike script command pdu session s = record {
  esmes = ground arith;
  binds = ground arith;
  rate = ground arith;
  timer = ground arith;
  failure = λ error was. ground arith;
}

opt_in-Alike :
    (command : String) (refusal : SmppError) (accept : PduReply → Response)
    (d : Handled (Option (Result DispatchError PduReply)))
    → Alike d.state (opt_in_result command refusal accept d).state
unfolding record_metric
opt_in-Alike command refusal accept d = record {
  esmes = ground arith;
  binds = ground arith;
  rate = ground arith;
  timer = ground arith;
  failure = λ error was. ground arith;
}

data-Alike :
    (is_success : Response → Bool) (direction : Direction)
    (d : Handled (Option (Result DispatchError PduReply)))
    → Alike d.state (data_result is_success direction d).state
unfolding record_metric
data-Alike is_success direction d = record {
  esmes = ground arith;
  binds = ground arith;
  rate = ground arith;
  timer = ground arith;
  failure = λ error was. ground arith;
}

submit-Alike :
    (is_success : Response → Bool) (d : Handled (Result DispatchError PduReply))
    → Alike d.state (submit_result is_success d).state
unfolding record_metric
submit-Alike is_success d = record {
  esmes = ground arith;
  binds = ground arith;
  rate = ground arith;
  timer = ground arith;
  failure = λ error was. ground arith;
}

pub throttled-Alike : (command : String) (s : State) → Alike s (throttled_answer command s).state
unfolding record_metric
throttled-Alike command s = record {
  esmes = ground arith;
  binds = ground arith;
  rate = ground arith;
  timer = ground arith;
  failure = λ error was. ground arith;
}

admitted-Effect :
    (command id : String) (clock : List ℕ) (handle : State → Handled Response) (s : State)
    (h : Handled Response)
    → ((t : State) → Alike t (handle t).state)
    → admitted command (admit_inbound s id clock) handle ≡ some h
    → Effect s h.state
admitted-Effect command id clock handle s h alike e = go (admit_inbound s id clock) refl e
  where
    go :
        (o : Option (InboundAdmit × State))
        → admit_inbound s id clock ≡ o
        → admitted command o handle ≡ some h
        → Effect s h.state
    go none p e = cc
    go (some (refused, t)) p e =
        subst (λ h. Effect s h.state) (some-injective _ h e)
          (Effect-Alike s t (throttled_answer command t).state
            (admit_inbound-Effect s t id refused clock p) (throttled-Alike command t))
    go (some (proceed, t)) p e =
        subst (λ h. Effect s h.state) (some-injective _ h e)
          (Effect-Alike s t (handle t).state (admit_inbound-Effect s t id proceed clock p)
            (alike t))

module _ (script : Script) (pdu : Pdu) (session : Session) (s : State) where
  pub opt_in_whole :
      (command : String) (refusal : SmppError) (accept : PduReply → Response)
      → Alike s
          (opt_in_result command refusal accept
            (dispatch_pdu_opt script command pdu session s)).state
  opt_in_whole command refusal accept =
      let d = dispatch_pdu_opt script command pdu session s in
      Alike-trans s d.state (opt_in_result command refusal accept d).state
        (dispatch-Alike script command pdu session s) (opt_in-Alike command refusal accept d)

  pub data_whole :
      (is_success : Response → Bool) (direction : Direction)
      → Alike s
          (data_result is_success direction (dispatch_pdu_opt script "data_sm" pdu session s)).state
  data_whole is_success direction =
      let d = dispatch_pdu_opt script "data_sm" pdu session s in
      Alike-trans s d.state (data_result is_success direction d).state
        (dispatch-Alike script "data_sm" pdu session s) (data-Alike is_success direction d)

  pub dispatch_pdu-Alike :
      (command : String) → Alike s (dispatch_pdu script command pdu session s).state
  unfolding dispatch_pdu
  dispatch_pdu-Alike command = dispatch-Alike script command pdu session s

  pub submit_whole :
      (is_success : Response → Bool)
      → Alike s (submit_result is_success (dispatch_pdu script "submit_sm" pdu session s)).state
  submit_whole is_success =
      let d = dispatch_pdu script "submit_sm" pdu session s in
      Alike-trans s d.state (submit_result is_success d).state (dispatch_pdu-Alike "submit_sm")
        (submit-Alike is_success d)

-- A request of an ESME leaves the sessions alone, or changes the limiter of one.
pub on_request-Effect :
    (is_success : Response → Bool) (script : Script) (address id : String) (r : Request)
    (clock : List ℕ) (s : State) (h : Handled Response)
    → on_request is_success script address id r clock s ≡ some h
    → Effect s h.state
unfolding on_request
on_request-Effect is_success script address id (submit r) clock s h e =
    admitted-Effect "submit_sm" id clock _ s h
      (λ t. submit_whole script (from_submit r) (esme_session t id address) t is_success) e
on_request-Effect is_success script address id (data_request r) clock s h e =
    admitted-Effect "data_sm" id clock _ s h
      (λ t. data_whole script (from_data r) (esme_session t id address) t is_success inbound) e
on_request-Effect is_success script address id (submit_multi r) clock s h e =
    admitted-Effect "submit_sm_multi" id clock _ s h
      (λ t.
        opt_in_whole script (from_submit_multi r) (esme_session t id address) t "submit_sm_multi"
          esme_rsyserr (λ reply. accept_multi (unwrap_or reply.message_id "")))
      e
on_request-Effect is_success script address id (cancel r) clock s h e =
    subst (λ h. Effect s h.state) (some-injective _ h e)
      (kept (
        opt_in_whole script (from_cancel r) (esme_session s id address) s "cancel_sm"
          esme_rcancelfail (λ reply. accept_plain)))
on_request-Effect is_success script address id (query r) clock s h e =
    subst (λ h. Effect s h.state) (some-injective _ h e)
      (kept (
        opt_in_whole script (from_query r) (esme_session s id address) s "query_sm" esme_rqueryfail
          query_accept))
on_request-Effect is_success script address id (replace r) clock s h e =
    subst (λ h. Effect s h.state) (some-injective _ h e)
      (kept (
        opt_in_whole script (from_replace r) (esme_session s id address) s "replace_sm"
          esme_rreplacefail (λ reply. accept_plain)))
