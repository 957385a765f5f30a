-- ===== src/Runtime/Counts.antt =====
-- How an inbound request is counted: src/metrics.rs `record_pdu` as src/runtime.rs calls it.
use siphon_smpp.Common.{
  ℕ, String, Bool, true, false, Option, none, some, List, [], ◌∷◌, ◌≡◌, ◌≢◌, inl, inr, refl, sym,
  ◌∙◌, ap, subst, if◌then◌else◌, unwrap_or, Result, ok, err, arith, Bool-cases,
}
use siphon_smpp.Status.{
  SmppError, esme_rok, esme_rsyserr, esme_rcancelfail, esme_rqueryfail, esme_rreplacefail,
  esme_rthrottled, ◌is◌,
}
use siphon_smpp.Pdu.{SubmitSm, from_submit}
use siphon_smpp.Reply.{PduReply}
use siphon_smpp.Dispatch.{DispatchError}
use siphon_smpp.Runtime.{
  State, Script, Handled, pdu_handled, inbound, accepted, rejected, Label, InboundAdmit, proceed,
  refused, dispatch_pdu, record_metric, esme_session,
}
use siphon_smpp.Runtime.Server.{
  Request, submit, data_request, submit_multi, cancel, query, replace, on_request,
}
use siphon_smpp.Runtime.Responses.{
  Response, reject_with, accept_multi, accept_plain, submit_result, data_result, opt_in_result,
  answered, label_of, query_accept, data_sm_response, throttled_answer, admitted,
}
use siphon_smpp.Runtime.Answers.{
  verdict_of, command_of, pdu_of, admission, handle, on_request_lem, opt,
}
use siphon_smpp.Runtime.Recorded.{
  handled, SuccessLaw, SameCounts, admit_inbound-SameCounts, dispatch-SameCounts,
  dispatch_pdu-SameCounts,
}

some_eq {ℓ} : {A : Type ℓ} {a b : A} → some a ≡ some b → a ≡ b
some_eq h = cc

is-ne : (e : SmppError) → (e is esme_rok) ≡ false → e ≢ esme_rok
is-ne e h p = ground arith

module _ (is_success : Response → Bool) (law : SuccessLaw is_success) where
  abbrev Counted : String → Handled Response → State → Type 0
  Counted command h s =
      handled h.state.metrics
      ≡ pdu_handled inbound command (label_of is_success h.answer) ∷ handled s.metrics

  answered-Counted :
      (command : String) (label : Label) (response : Response)
      (d : Handled (Option (Result DispatchError PduReply)))
      → label_of is_success response ≡ label
      → d.state.metrics_enabled ≡ true
      → Counted command (answered inbound command label response d) d.state
  unfolding record_metric
  answered-Counted command label response d l on = ground arith

  label_refused : (e : SmppError) → e ≢ esme_rok → label_of is_success (reject_with e) ≡ rejected
  label_refused e ne = rw (law.rejects (reject_with e) e refl ne)

  label_accepted : (resp : Response) → verdict_of resp ≡ none → label_of is_success resp ≡ accepted
  label_accepted resp v = rw (law.accepts resp v)

  opt_in-Counted :
      (command : String) (refusal : SmppError) (accept : PduReply → Response)
      (d : Handled (Option (Result DispatchError PduReply)))
      → refusal ≢ esme_rok
      → ((reply : PduReply) → verdict_of (accept reply) ≡ none)
      → d.state.metrics_enabled ≡ true
      → Counted command (opt_in_result command refusal accept d) d.state
  opt_in-Counted command refusal accept d ne ok_ on = go d.answer refl
    where
      go :
          (o : Option (Result DispatchError PduReply))
          → d.answer ≡ o
          → Counted command (opt_in_result command refusal accept d) d.state
      go none e =
          rw e (
            answered-Counted command rejected (reject_with refusal) d (label_refused refusal ne) on)
      go (some (err x)) e =
          rw e (
            answered-Counted command rejected (reject_with refusal) d (label_refused refusal ne) on)
      go (some (ok reply)) e = elim (Bool-cases (reply.command_status is esme_rok)) [
        | inl good ↦
            rw (e, good)
              (answered-Counted command accepted (accept reply) d
                (label_accepted (accept reply) (ok_ reply)) on)
        | inr bad ↦
            rw (e, bad)
              (answered-Counted command rejected (reject_with reply.command_status) d
                (label_refused reply.command_status (is-ne reply.command_status bad)) on)
      ]

  data-Counted :
      (d : Handled (Option (Result DispatchError PduReply)))
      → d.state.metrics_enabled ≡ true
      → Counted "data_sm" (data_result is_success inbound d) d.state
  data-Counted d on = go d.answer refl
    where
      refused_rsyserr :
          Counted "data_sm"
            (answered inbound "data_sm" rejected (reject_with esme_rsyserr) d)
            d.state
      refused_rsyserr =
          answered-Counted "data_sm" rejected (reject_with esme_rsyserr) d
            (label_refused esme_rsyserr (λ p. cc p)) on

      go :
          (o : Option (Result DispatchError PduReply))
          → d.answer ≡ o
          → Counted "data_sm" (data_result is_success inbound d) d.state
      go none e = rw e refused_rsyserr
      go (some (err x)) e = rw e refused_rsyserr
      go (some (ok reply)) e = rw e (
          answered-Counted "data_sm" (label_of is_success (data_sm_response reply))
            (data_sm_response reply) d refl on)

  submit-Counted :
      (d : Handled (Result DispatchError PduReply))
      → d.state.metrics_enabled ≡ true
      → Counted "submit_sm" (submit_result is_success d) d.state
  unfolding record_metric
  submit-Counted d on = go d.answer refl
    where
      go :
          (o : Result DispatchError PduReply)
          → d.answer ≡ o
          → Counted "submit_sm" (submit_result is_success d) d.state
      go (err x) e = rw (e, on) (rw (label_refused esme_rsyserr (λ p. cc p)))
      go (ok reply) e = rw (e, on)

  recount :
      (command : String) (h : Handled Response) (s s' : State)
      → SameCounts s s'
      → s.metrics_enabled ≡ true
      → (s'.metrics_enabled ≡ true → Counted command h s')
      → Counted command h s
  recount command h s s' same on count =
      count (same.0 ∙ on)
      ∙ ap (λ l. pdu_handled inbound command (label_of is_success h.answer) ∷ l) same.1

  module _ (script : Script) (client_address session_id : String) where
    abbrev run : Request → State → Handled Response
    run = handle is_success script client_address session_id

    abbrev opted : Request → State → Handled (Option (Result DispatchError PduReply))
    opted = opt is_success script client_address session_id

    abbrev submitted : SubmitSm → State → Handled (Result DispatchError PduReply)
    submitted r s =
        dispatch_pdu script "submit_sm" (from_submit r) (esme_session s session_id client_address) s

    opt-Counted :
        (r : Request) (s : State)
        → s.metrics_enabled ≡ true
        → ((opted r s).state.metrics_enabled ≡ true
            → Counted (command_of r) (run r s) (opted r s).state)
        → Counted (command_of r) (run r s) s
    opt-Counted r s on count =
        recount (command_of r) (run r s) s (opted r s).state
          (dispatch-SameCounts script (command_of r) (pdu_of r)
            (esme_session s session_id client_address) s)
          on count

    handle-Counted :
        (r : Request) (s : State) → s.metrics_enabled ≡ true → Counted (command_of r) (run r s) s
    handle-Counted (submit r) s on =
        recount "submit_sm" (run (submit r) s) s (submitted r s).state
          (dispatch_pdu-SameCounts script "submit_sm" (from_submit r)
            (esme_session s session_id client_address) s)
          on (submit-Counted (submitted r s))
    handle-Counted (data_request r) s on =
        opt-Counted (data_request r) s on (data-Counted (opted (data_request r) s))
    handle-Counted (submit_multi r) s on = opt-Counted (submit_multi r) s on (
        opt_in-Counted "submit_sm_multi" esme_rsyserr
          (λ reply. accept_multi (unwrap_or reply.message_id "")) (opted (submit_multi r) s)
          (λ p. cc p) (λ reply. refl))
    handle-Counted (cancel r) s on = opt-Counted (cancel r) s on (
        opt_in-Counted "cancel_sm" esme_rcancelfail (λ reply. accept_plain) (opted (cancel r) s)
          (λ p. cc p) (λ reply. refl))
    handle-Counted (query r) s on = opt-Counted (query r) s on (
        opt_in-Counted "query_sm" esme_rqueryfail query_accept (opted (query r) s) (λ p. cc p)
          (λ reply. refl))
    handle-Counted (replace r) s on = opt-Counted (replace r) s on (
        opt_in-Counted "replace_sm" esme_rreplacefail (λ reply. accept_plain) (opted (replace r) s)
          (λ p. cc p) (λ reply. refl))

    throttled-Counted :
        (command : String) (s : State)
        → s.metrics_enabled ≡ true
        → Counted command (throttled_answer command s) s
    throttled-Counted command s on =
        answered-Counted command rejected (reject_with esme_rthrottled)
          (record { answer = none; state = s; called = [] })
          (label_refused esme_rthrottled (λ p. cc p)) on

    admission-SameCounts :
        (r : Request) (clock : List ℕ) (s s' : State) (a : InboundAdmit)
        → admission s session_id clock r ≡ some (a, s')
        → SameCounts s s'
    admission-SameCounts (submit r) clock s s' a e =
        admit_inbound-SameCounts s s' session_id clock a e
    admission-SameCounts (data_request r) clock s s' a e =
        admit_inbound-SameCounts s s' session_id clock a e
    admission-SameCounts (submit_multi r) clock s s' a e =
        admit_inbound-SameCounts s s' session_id clock a e
    admission-SameCounts _ clock s s' a e = ground arith

    -- Every answered request adds exactly one entry to the PDU counter, under its own command, and the
    -- entry says "accepted" exactly when the response is a success.
    pub on_request-counted :
        (r : Request) (clock : List ℕ) (s : State) (h : Handled Response)
        → s.metrics_enabled ≡ true
        → on_request is_success script client_address session_id r clock s ≡ some h
        → handled h.state.metrics
          ≡ pdu_handled inbound (command_of r) (if is_success h.answer then accepted else rejected)
            ∷ handled s.metrics
    on_request-counted r clock s h on e =
        go (admission s session_id clock r) refl
          (sym (on_request_lem is_success script client_address session_id r clock s) ∙ e)
      where
        go :
            (a : Option (InboundAdmit × State))
            → admission s session_id clock r ≡ a
            → admitted (command_of r) a (run r) ≡ some h
            → Counted (command_of r) h s
        go none p q = cc q
        go (some (refused, s')) p q =
            subst (λ x. Counted (command_of r) x s) (some_eq q)
              (recount (command_of r) (throttled_answer (command_of r) s') s s'
                (admission-SameCounts r clock s s' refused p) on
                (throttled-Counted (command_of r) s'))
        go (some (proceed, s')) p q =
            subst (λ x. Counted (command_of r) x s) (some_eq q)
              (recount (command_of r) (run r s') s s' (admission-SameCounts r clock s s' proceed p)
                on (handle-Counted r s'))
