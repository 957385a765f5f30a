-- ===== src/Examples/Fixtures.antt =====
-- The inputs that the examples share.
use siphon_smpp.Common.{
  ℕ, ◌*◌, if◌then◌else◌, Bool, true, false, Option, none, some, List, [], ◌∷◌, ◌==◌, find,
  option_map, ok, code_points,
}
use siphon_smpp.Status.{SmppError, esme_rok, esme_rthrottled, esme_rmsgqful}
use siphon_smpp.Config.Types.{
  ServerConfig, BindConfig, RoutingRule, SmppConfig, negsuc, int, pace, reject,
}
use siphon_smpp.Tlv.{Tlv, TlvTag, TlvTable, message_payload, source_port, user_message_reference}
use siphon_smpp.Pdu.{TlvList, QuerySm, DataSm, DeliverSm}
use siphon_smpp.Reply.{PduReply, Session, Bind, BindResult, esme_server}
use siphon_smpp.RateLimiter.{Bucket, token}
use siphon_smpp.Dispatch.{
  Engine, RegisteredHandler, Registration, none_value, reply_value, bind_value, hangs, pdu_kind,
  bind_kind, session_kind,
}
use siphon_smpp.Runtime.{State, Script, Esme, EsmeSession}
use siphon_smpp.Runtime.Responses.{Response, with_tlv, reject_with}

abbrev pub reply_full : PduReply
reply_full = record {
  command_status = esme_rmsgqful;
  message_id = none;
  message_state = none;
  final_date = "";
  error_code = 0;
  tlvs = [];
}

abbrev pub on_query : RegisteredHandler
on_query = record {
  id = 7;
  callable = λ args. ok (reply_value reply_full);
  is_async = false;
  key = some "query_sm";
}

abbrev pub accepting : BindResult
accepting = record { accepted = true; status = esme_rok; reason = "" }

abbrev pub on_bind : RegisteredHandler
on_bind = record {
  id = 8;
  callable = λ args. ok (bind_value accepting);
  is_async = false;
  key = none;
}

abbrev pub on_session : ℕ → RegisteredHandler
on_session n = record {
  id = n;
  callable = λ args. ok none_value;
  is_async = false;
  key = some "bound";
}

abbrev pub handlers_of : List Registration
handlers_of =
    record { kind = pdu_kind; handler = some on_query }
    ∷ record { kind = bind_kind; handler = some on_bind }
    ∷ record { kind = session_kind; handler = some (on_session 1) }
    ∷ record { kind = session_kind; handler = some (on_session 2) }
    ∷ []

abbrev pub engine : Engine
engine = record { job = λ n. none; build = λ args. none; pool = λ id v. hangs }

abbrev pub script : Script
script = record { engine = engine; source = handlers_of }

abbrev pub session : Session
session = record {
  kind = esme_server;
  session_id = "s1";
  system_id = "esme";
  client_addr = "10.0.0.1";
}

abbrev pub bind_request : Bind
bind_request = record { system_id = "esme"; password = "secret"; client_addr = "10.0.0.1" }

abbrev pub esme : Esme
esme = record {
  ptr = 1;
  session_id = "s1";
  system_id = "esme";
  client_address = "10.0.0.1";
  can_receive = false;
}

-- A limiter with no token left.
abbrev pub empty_bucket : Bucket
empty_bucket = record { tokens = 0; max_tokens = 2 * token; refill_per_sec = 2; last = 100 }

abbrev pub esme_entry : EsmeSession
esme_entry = record { esme = esme; throttle = some empty_bucket; response_timer = 5 }

abbrev pub state : State
state = record {
  binds = [];
  esmes = esme_entry ∷ [];
  inbound_max_mps = 2;
  inbound_throttle_action = reject;
  inbound_response_timer = 5;
  listen_failure = none;
  metrics_enabled = true;
  metrics = [];
}

abbrev pub pacing_state : State
pacing_state = record state { inbound_throttle_action = pace }

abbrev pub empty_state : State
empty_state = record state { esmes = [] }

abbrev pub query_pdu : QuerySm
query_pdu = record {
  message_id = "m1";
  source_addr_ton = 1;
  source_addr_npi = 1;
  source_addr = "4712";
}

abbrev pub is_success : Response → Bool
is_success (with_tlv r t) = is_success r
is_success (reject_with e) = false
is_success _ = true

abbrev pub number : TlvTag → ℕ
number message_payload = 0x0424
number source_port = 0x020A
number user_message_reference = 0x0204
number _ = 0

abbrev pub table : TlvTable
table = record { number = number; all = [] }

abbrev pub payload_of : List Tlv → Option (List ℕ)
payload_of ts = option_map (λ t. t.value) (find (λ t. t.tag == 0x0424) ts)

abbrev pub lookups : TlvList
lookups = record {
  message_payload = payload_of;
  receipted_message_id = λ ts. none;
  message_state = λ ts. none;
  get_tlv_raw = λ tag ts. find (λ t. t.tag == tag) ts;
}

abbrev pub data_fields : DataSm
data_fields = record {
  service_type = "";
  source_addr_ton = 1;
  source_addr_npi = 1;
  source_addr = "4711";
  dest_addr_ton = 1;
  dest_addr_npi = 1;
  destination_addr = "4712";
  esm_class = 0;
  registered_delivery = 0;
  data_coding = 0;
  tlvs = [];
}

abbrev pub from_command_status : ℕ → SmppError
from_command_status n =
    if n == 0x58 then esme_rthrottled else if n == 0x14 then esme_rmsgqful else esme_rok

abbrev pub delivery : DeliverSm
delivery = record {
  service_type = "";
  source_addr_ton = 1;
  source_addr_npi = 1;
  source_addr = "4711";
  dest_addr_ton = 1;
  dest_addr_npi = 1;
  destination_addr = "4712";
  esm_class = 4;
  protocol_id = 0;
  priority_flag = 0;
  schedule_delivery_time = "";
  validity_period = "";
  replace_if_present_flag = 0;
  sm_default_msg_id = 0;
  registered_delivery = 0;
  data_coding = 0;
  sm_length = 2;
  short_message = 104 ∷ 105 ∷ [];
  tlvs = [];
}

-- The port is cut to 16 bits.
abbrev pub up : BindConfig
up = record {
  name = code_points "up";
  host = code_points "smsc.example.net";
  port = 4464;
  system_id = code_points "id";
  password = code_points "secret";
  system_type = [];
  bind_type = code_points "transceiver";
  max_msg_per_sec = 0;
  enquire_link_timer_ms = 30000;
  response_timer_ms = 30000;
  tls = none;
}

abbrev pub server : ServerConfig
server = record {
  bind_address = none;
  port = some 2776;
  session_init_timer_ms = 5000;
  enquire_link_timer_ms = 30000;
  inactivity_timer_ms = 300000;
  response_timer_ms = 30000;
  max_msg_per_sec = 0;
  throttle_action = pace;
  tls = none;
}

abbrev pub rule : RoutingRule
rule = record {
  prefix = code_points "3120";
  chain = code_points "bind:up" ∷ [];
  name = [];
  options = (code_points "cap", int (negsuc 0)) ∷ [];
}

abbrev pub cfg : SmppConfig
cfg = record {
  server = server;
  binds = up ∷ [];
  routing = record { default_chain = []; rules = rule ∷ [] };
  bind_address = none;
  port = none;
}
