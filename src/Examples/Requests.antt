-- ===== src/Examples/Requests.antt =====
-- A `query_sm` of a bound ESME, a bind, and a session event.
use siphon_smpp.Common.{true, false, none, some, [], ◌∷◌, ◌≡◌, ◌↔◌, refl, if◌then◌else◌, retain}
use siphon_smpp.Status.{SmppError}
use siphon_smpp.Dispatch.{
  Value, RegisteredHandler, handlers, first_matching, key_is, session_kind, bind_kind, bind_args,
  bind, session_event,
}
use siphon_smpp.Dispatch.Choice.{Grants, bind_closed}
use siphon_smpp.Dispatch.Delivery.{Delivers}
use siphon_smpp.Dispatch.Lifecycle.{session_event_runs_all, all_events}
use siphon_smpp.Runtime.{Handled, pdu_handled, inbound, accepted, rejected, proceed}
use siphon_smpp.Runtime.Server.{query, on_request}
use siphon_smpp.Runtime.Responses.{
  Response, reject_with, accept_plain, accept_id, accept_multi, accept_query, accept_bind, with_tlv,
}
use siphon_smpp.Runtime.Answers.{
  verdict_of, verdict_for, called_for, on_request-verdict, handle, on_request_lem,
}
use siphon_smpp.Runtime.Counts.{on_request-counted}
use siphon_smpp.Runtime.Recorded.{handled, SuccessLaw}
use siphon_smpp.Examples.Fixtures.{
  handlers_of, engine, script, session, bind_request, state, query_pdu, is_success,
}

on_request-verdict_example :
    (h : Handled Response) × (on_request is_success script "10.0.0.1" "s1"
        (query query_pdu)
        []
        state
      ≡ some h)
    × (verdict_of h.answer
        ≡ verdict_for is_success script "10.0.0.1" "s1" proceed (query query_pdu) state)
    × (h.called ≡ called_for is_success script "10.0.0.1" "s1" proceed (query query_pdu) state)
on_request-verdict_example =
    on_request-verdict is_success script "10.0.0.1" "s1" (query query_pdu) [] proceed state state
      refl

is_success-accepts : (resp : Response) → verdict_of resp ≡ none → is_success resp ≡ true
is_success-accepts (accept_id id) h = refl
is_success-accepts (accept_multi id) h = refl
is_success-accepts (accept_query id date state error) h = refl
is_success-accepts accept_plain h = refl
is_success-accepts (accept_bind id version) h = refl
is_success-accepts (reject_with e) h = cc
is_success-accepts (with_tlv r t) h = is_success-accepts r h

is_success-rejects :
    (resp : Response) (e : SmppError) → verdict_of resp ≡ some e → is_success resp ≡ false
is_success-rejects (accept_id id) e h = cc
is_success-rejects (accept_multi id) e h = cc
is_success-rejects (accept_query id date state error) e h = cc
is_success-rejects accept_plain e h = cc
is_success-rejects (accept_bind id version) e h = cc
is_success-rejects (reject_with e') e h = refl
is_success-rejects (with_tlv r t) e h = is_success-rejects r e h

is_success_law : SuccessLaw is_success
is_success_law = record {
  accepts = is_success-accepts;
  rejects = λ resp e h n. is_success-rejects resp e h;
}

abbrev answered_query : Handled Response
answered_query = handle is_success script "10.0.0.1" "s1" (query query_pdu) state

on_request-counted_example :
    handled answered_query.state.metrics
    ≡ pdu_handled inbound "query_sm"
        (if is_success answered_query.answer then accepted else rejected)
      ∷ []
on_request-counted_example =
    on_request-counted is_success is_success_law script "10.0.0.1" "s1" (query query_pdu) [] state
      answered_query refl
      (on_request_lem is_success script "10.0.0.1" "s1" (query query_pdu) [] state)

bind_closed_example : ((bind engine handlers_of bind_request).0.accepted ≡ true) ↔ (
    (h : RegisteredHandler) × (v : Value) × (first_matching handlers_of bind_kind none ≡ some h)
    × Delivers engine h (bind_args bind_request) v
    × Grants v)
bind_closed_example = bind_closed engine handlers_of bind_request

session_event_runs_all_example :
    session_event engine session handlers_of "bound"
    ≡ all_events engine session
        (retain (λ h. key_is "bound" h.key) (handlers handlers_of session_kind))
session_event_runs_all_example =
    session_event_runs_all engine session handlers_of "bound" (λ k. refl)
