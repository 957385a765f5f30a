-- ===== src/Examples/Sending.antt =====
-- A `data_sm` and an alert to a bound ESME, and a `data_sm` on a bind with a limiter.
use siphon_smpp.Common.{inr, ◌*◌, none, some, [], ◌∷◌, ◌≡◌, ◌≢◌, refl, All, ok, err}
use siphon_smpp.Status.{status_name}
use siphon_smpp.Tlv.{tlvs_from_py}
use siphon_smpp.Pdu.{DataSm, from_data, body}
use siphon_smpp.Outcome.{Response, data_sm_resp, message_id}
use siphon_smpp.Sends.{
  bind_handle, pace, settle_on_bind, Exchange, Sent, data_sm, build_data_sm, cannot_receive,
  require_state, esme_handle, settle_on_esme, from_reply,
}
use siphon_smpp.RateLimiter.{Bucket, token, acquire, acquire_round}
use siphon_smpp.Runtime.{State, BindSession}
use siphon_smpp.Sends.Outbound.{data_via}
use siphon_smpp.Sends.Turns.{Changes, perform-Changes}
use siphon_smpp.Sends.Inbound.{alert_to, check_can_receive}
use siphon_smpp.Sends.Inbound
use siphon_smpp.Sends.Calls.{
  Call, data_call, data_back, alert, Answer, smpp_resp, Fits, perform, perform-Fits,
  perform-unreachable, IsUnreachable,
}
use siphon_smpp.Sends.Bodies.{build_data_sm-body}
use siphon_smpp.Examples.Fixtures.{
  empty_bucket, from_command_status, table, lookups, data_fields, state,
}

abbrev exchange : Exchange Response
exchange = record { answer = ok (data_sm_resp 0x58); started = 0; finished = 2; later = state }

abbrev call : Call
call = data_back "s1" data_fields (104 ∷ 105 ∷ []) none exchange

abbrev sent : Sent Answer
sent = record {
  result = ok (
      smpp_resp (record {
        command_status = "ESME_RTHROTTLED";
        command_status_code = 0x58;
        message_id = "";
      }));
  wrote =
      data_sm (record data_fields { tlvs = record { tag = 0x0424; value = 104 ∷ 105 ∷ [] } ∷ [] })
      ∷ [];
  state = some state;
}

call_done : perform from_command_status table lookups (some state) call ≡ some sent
unfolding perform Inbound.data_to require_state build_data_sm esme_handle settle_on_esme from_reply
    tlvs_from_py status_name message_id
call_done = refl

perform-Fits_example : All Fits sent.wrote
perform-Fits_example =
    perform-Fits from_command_status table lookups (some state) call sent call_done

abbrev alert_call : Call
alert_call = alert "s1" (record {
  source_addr_ton = 1;
  source_addr_npi = 1;
  source_addr = "4711";
  esme_addr_ton = 1;
  esme_addr_npi = 1;
  esme_addr = "4712";
  ms_availability_status = none;
})

abbrev nothing_sent : Sent Answer
nothing_sent = record {
  result = err (cannot_receive "s1" "alert_notification");
  wrote = [];
  state = some state;
}

alert_done : perform from_command_status table lookups (some state) alert_call ≡ some nothing_sent
unfolding perform alert_to require_state esme_handle check_can_receive
alert_done = refl

unreachable : IsUnreachable state alert_call
unreachable = (inr refl, tt)

perform-unreachable_example :
    (nothing_sent.wrote ≡ [])
    × (nothing_sent.state ≡ some state)
    × ((a : Answer) → nothing_sent.result ≢ ok a)
perform-unreachable_example =
    perform-unreachable from_command_status table lookups (some state) state refl alert_call
      unreachable nothing_sent alert_done

build_data_sm-body_example :
    (pdu : DataSm) × (build_data_sm table lookups data_fields (104 ∷ 105 ∷ []) [] ≡ ok pdu)
    × (body lookups (from_data pdu) ≡ 104 ∷ 105 ∷ [])
build_data_sm-body_example =
    build_data_sm-body table lookups (λ ts. refl) data_fields (104 ∷ 105 ∷ []) [] refl

abbrev answer : Answer
answer =
    smpp_resp
      (record { command_status = "ESME_RTHROTTLED"; command_status_code = 0x58; message_id = "" })

abbrev full_bucket : Bucket
full_bucket = record empty_bucket { tokens = 2 * token }

abbrev bind_entry : BindSession
bind_entry = record {
  name = "up";
  smsc = record { ptr = 2; session_id = "b1"; system_id = "smsc"; server_address = "10.0.0.2" };
  throttle = some full_bucket;
  response_timer = 5;
}

abbrev bind_state : State
bind_state = record state { binds = bind_entry ∷ [] }

-- A token is gone.
abbrev later_state : State
later_state = record state {
  binds = record bind_entry { throttle = some (record full_bucket { tokens = token }) } ∷ [];
}

abbrev paced_call : Call
paced_call = data_call "up" data_fields (104 ∷ 105 ∷ []) none (100 ∷ []) exchange

abbrev paced_sent : Sent Answer
paced_sent = record sent { state = some later_state }

paced_done :
    perform from_command_status table lookups (some bind_state) paced_call ≡ some paced_sent
unfolding perform data_via require_state tlvs_from_py build_data_sm bind_handle pace acquire
    acquire_round settle_on_bind from_reply status_name message_id
paced_done = refl

perform-Changes_example :
    Changes from_command_status table lookups bind_state later_state paced_call paced_sent
perform-Changes_example =
    perform-Changes from_command_status table lookups bind_state later_state paced_call paced_sent
      paced_done refl
