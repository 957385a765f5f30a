-- ===== src/Examples/Replies.antt =====
-- A `deliver_sm` from an SMSC.
use siphon_smpp.Common.{false, ◌∷◌, ◌≡◌, refl}
use siphon_smpp.Runtime.{pdu_handled, egress}
use siphon_smpp.Runtime.Client.{BindListener, on_deliver_sm}
use siphon_smpp.Runtime.Answers.{verdict_of}
use siphon_smpp.Runtime.Recorded.{handled}
use siphon_smpp.Runtime.Deliveries.{delivered, delivery_verdict, label_for, on_deliver_sm-verdict}
use siphon_smpp.Examples.Fixtures.{script, state, delivery}

abbrev listener : BindListener
listener = record {
  bind_name = "up";
  max_msg_per_sec = 0;
  response_timer = 5;
  connect_failed = false;
}

on_deliver_sm-verdict_example :
    let h = on_deliver_sm listener script "s9" "10.0.0.9" delivery state in
    let verdict = delivery_verdict (delivered listener script "s9" "10.0.0.9" delivery).0 in
    (verdict_of h.answer ≡ verdict)
    × (h.called ≡ (delivered listener script "s9" "10.0.0.9" delivery).1)
    × (handled h.state.metrics
        ≡ pdu_handled egress "deliver_sm" (label_for verdict) ∷ handled state.metrics)
on_deliver_sm-verdict_example =
    on_deliver_sm-verdict listener script "s9" "10.0.0.9" delivery state refl
