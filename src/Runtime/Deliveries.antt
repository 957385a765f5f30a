-- ===== src/Runtime/Deliveries.antt =====
-- What a PDU from an SMSC is answered, and how it is counted: src/runtime.rs
-- `impl SmppClientListener for BindListener`.
use siphon_smpp.Common.{
  ℕ, String, true, Option, none, some, List, ◌∷◌, ◌≡◌, if◌then◌else◌, Result, ok, err, arith,
}
use siphon_smpp.Status.{SmppError, esme_rok, esme_rsyserr, ◌is◌}
use siphon_smpp.Pdu.{DeliverSm, from_deliver}
use siphon_smpp.Reply.{PduReply, default_ok}
use siphon_smpp.Dispatch.{DispatchError}
use siphon_smpp.Dispatch
use siphon_smpp.Runtime.{
  State, Script, Label, pdu_handled, egress, accepted, rejected, record_metric, dispatch_pdu,
  dispatch_pdu_opt,
}
use siphon_smpp.Runtime.Answers.{verdict_of}
use siphon_smpp.Runtime.Recorded.{handled}
use siphon_smpp.Runtime.Client.{BindListener, bind_session, on_deliver_sm}

-- A `deliver_sm` for which no handler is registered is accepted.
abbrev pub delivery_verdict : Option (Result DispatchError PduReply) → Option SmppError
delivery_verdict none = none
delivery_verdict (some (err e)) = some esme_rsyserr
delivery_verdict (some (ok reply)) =
    if reply.command_status is esme_rok then none else some reply.command_status

abbrev pub label_for : Option SmppError → Label
label_for none = accepted
label_for (some e) = rejected

module _ (listener : BindListener) (script : Script) (session_id server_address : String) where
  abbrev pub delivered : DeliverSm → Option (Result DispatchError PduReply) × List ℕ
  delivered request =
      Dispatch.pdu script.engine script.source "deliver_sm" (from_deliver request)
        (bind_session listener session_id server_address)

  -- With metrics on, a `deliver_sm` from an SMSC is answered with the status that its handler chose, with
  -- `ESME_RSYSERR` where the handler failed, and with an acceptance where none is registered; it adds one
  -- entry to the PDU counter, which says what the answer does.
  pub on_deliver_sm-verdict :
      (request : DeliverSm) (s : State)
      → s.metrics_enabled ≡ true
      → let h = on_deliver_sm listener script session_id server_address request s in
        let verdict = delivery_verdict (delivered request).0 in
        (verdict_of h.answer ≡ verdict)
        × (h.called ≡ (delivered request).1)
        × (handled h.state.metrics
            ≡ pdu_handled egress "deliver_sm" (label_for verdict) ∷ handled s.metrics)
  unfolding on_deliver_sm bind_session dispatch_pdu dispatch_pdu_opt record_metric default_ok
  on_deliver_sm-verdict request s on = (ground arith, ground arith, ground arith)
