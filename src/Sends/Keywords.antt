-- ===== src/Sends/Keywords.antt =====
-- What a script writes when it calls a helper: the signatures of the functions of src/sends.rs. Every
-- argument is a keyword. One that may be left out is an `Option`, whose default stands here.
use siphon_smpp.Common.{ℕ, String, Option, List, [], unwrap_or}
use siphon_smpp.Tlv.{Bytes, PyValue}
use siphon_smpp.Pdu.{DataSm, CancelSm, QuerySm}
use siphon_smpp.Outcome.{Response}
use siphon_smpp.Sends.{Message, MultiMessage, Replacement, Alert, Exchange, QuerySmResp}
use siphon_smpp.Sends.Outbound.{Destinations}
use siphon_smpp.Sends.Calls.{
  Call, submit, submit_multi, data_call, cancel, query, replace, deliver, data_back, alert,
}

-- The options of `submit_via`, `submit_multi_via` and `deliver_to`.
pub record MessageOptions : Type 0 where
  pub source_addr_ton : Option ℕ
  pub source_addr_npi : Option ℕ
  pub dest_addr_ton : Option ℕ
  pub dest_addr_npi : Option ℕ
  pub service_type : Option String
  pub esm_class : Option ℕ
  pub protocol_id : Option ℕ
  pub priority_flag : Option ℕ
  pub schedule_delivery_time : Option String
  pub validity_period : Option String
  pub registered_delivery : Option ℕ
  pub replace_if_present_flag : Option ℕ
  pub data_coding : Option ℕ
  pub sm_default_msg_id : Option ℕ
  pub tlvs : Option (List (PyValue × PyValue))

-- Those of `data_via` and `data_to`.
pub record DataOptions : Type 0 where
  pub short_message : Option Bytes
  pub source_addr_ton : Option ℕ
  pub source_addr_npi : Option ℕ
  pub dest_addr_ton : Option ℕ
  pub dest_addr_npi : Option ℕ
  pub service_type : Option String
  pub esm_class : Option ℕ
  pub registered_delivery : Option ℕ
  pub data_coding : Option ℕ
  pub tlvs : Option (List (PyValue × PyValue))

pub record CancelOptions : Type 0 where
  pub source_addr : Option String
  pub destination_addr : Option String
  pub service_type : Option String
  pub source_addr_ton : Option ℕ
  pub source_addr_npi : Option ℕ
  pub dest_addr_ton : Option ℕ
  pub dest_addr_npi : Option ℕ

pub record QueryOptions : Type 0 where
  pub source_addr : Option String
  pub source_addr_ton : Option ℕ
  pub source_addr_npi : Option ℕ

pub record ReplaceOptions : Type 0 where
  pub source_addr : Option String
  pub source_addr_ton : Option ℕ
  pub source_addr_npi : Option ℕ
  pub schedule_delivery_time : Option String
  pub validity_period : Option String
  pub registered_delivery : Option ℕ
  pub sm_default_msg_id : Option ℕ
  pub short_message : Option Bytes

pub record AlertOptions : Type 0 where
  pub source_addr_ton : Option ℕ
  pub source_addr_npi : Option ℕ
  pub esme_addr_ton : Option ℕ
  pub esme_addr_npi : Option ℕ
  pub ms_availability_status : Option ℕ

unfoldable pub message_of :
    (source_addr destination_addr : String) (short_message : Bytes) → MessageOptions → Message
message_of source_addr destination_addr short_message k = record {
  service_type = unwrap_or k.service_type "";
  source_addr_ton = unwrap_or k.source_addr_ton 1;
  source_addr_npi = unwrap_or k.source_addr_npi 1;
  source_addr = source_addr;
  dest_addr_ton = unwrap_or k.dest_addr_ton 1;
  dest_addr_npi = unwrap_or k.dest_addr_npi 1;
  destination_addr = destination_addr;
  esm_class = unwrap_or k.esm_class 0;
  protocol_id = unwrap_or k.protocol_id 0;
  priority_flag = unwrap_or k.priority_flag 0;
  schedule_delivery_time = unwrap_or k.schedule_delivery_time "";
  validity_period = unwrap_or k.validity_period "";
  registered_delivery = unwrap_or k.registered_delivery 0;
  replace_if_present_flag = unwrap_or k.replace_if_present_flag 0;
  data_coding = unwrap_or k.data_coding 0;
  sm_default_msg_id = unwrap_or k.sm_default_msg_id 0;
  short_message = short_message;
  tlvs = [];
}

unfoldable pub multi_message_of :
    (source_addr : String) (short_message : Bytes) → MessageOptions → MultiMessage
multi_message_of source_addr short_message k = record {
  service_type = unwrap_or k.service_type "";
  source_addr_ton = unwrap_or k.source_addr_ton 1;
  source_addr_npi = unwrap_or k.source_addr_npi 1;
  source_addr = source_addr;
  dest_addresses = [];
  esm_class = unwrap_or k.esm_class 0;
  protocol_id = unwrap_or k.protocol_id 0;
  priority_flag = unwrap_or k.priority_flag 0;
  schedule_delivery_time = unwrap_or k.schedule_delivery_time "";
  validity_period = unwrap_or k.validity_period "";
  registered_delivery = unwrap_or k.registered_delivery 0;
  replace_if_present_flag = unwrap_or k.replace_if_present_flag 0;
  data_coding = unwrap_or k.data_coding 0;
  sm_default_msg_id = unwrap_or k.sm_default_msg_id 0;
  short_message = short_message;
  tlvs = [];
}

-- The destinations share a type of number and a plan.
unfoldable pub destinations_of : List String → MessageOptions → Destinations
destinations_of destinations k = record {
  dest_addr_ton = unwrap_or k.dest_addr_ton 1;
  dest_addr_npi = unwrap_or k.dest_addr_npi 1;
  destinations = destinations;
}

unfoldable pub data_of : (source_addr destination_addr : String) → DataOptions → DataSm
data_of source_addr destination_addr k = record {
  service_type = unwrap_or k.service_type "";
  source_addr_ton = unwrap_or k.source_addr_ton 1;
  source_addr_npi = unwrap_or k.source_addr_npi 1;
  source_addr = source_addr;
  dest_addr_ton = unwrap_or k.dest_addr_ton 1;
  dest_addr_npi = unwrap_or k.dest_addr_npi 1;
  destination_addr = destination_addr;
  esm_class = unwrap_or k.esm_class 0;
  registered_delivery = unwrap_or k.registered_delivery 0;
  data_coding = unwrap_or k.data_coding 0;
  tlvs = [];
}

unfoldable pub cancel_of : (message_id : String) → CancelOptions → CancelSm
cancel_of message_id k = record {
  message_id = message_id;
  service_type = unwrap_or k.service_type "";
  source_addr_ton = unwrap_or k.source_addr_ton 1;
  source_addr_npi = unwrap_or k.source_addr_npi 1;
  source_addr = unwrap_or k.source_addr "";
  dest_addr_ton = unwrap_or k.dest_addr_ton 1;
  dest_addr_npi = unwrap_or k.dest_addr_npi 1;
  destination_addr = unwrap_or k.destination_addr "";
}

unfoldable pub query_of : (message_id : String) → QueryOptions → QuerySm
query_of message_id k = record {
  message_id = message_id;
  source_addr_ton = unwrap_or k.source_addr_ton 1;
  source_addr_npi = unwrap_or k.source_addr_npi 1;
  source_addr = unwrap_or k.source_addr "";
}

unfoldable pub replacement_of : (message_id : String) → ReplaceOptions → Replacement
replacement_of message_id k = record {
  message_id = message_id;
  source_addr_ton = unwrap_or k.source_addr_ton 1;
  source_addr_npi = unwrap_or k.source_addr_npi 1;
  source_addr = unwrap_or k.source_addr "";
  schedule_delivery_time = unwrap_or k.schedule_delivery_time "";
  validity_period = unwrap_or k.validity_period "";
  registered_delivery = unwrap_or k.registered_delivery 0;
  sm_default_msg_id = unwrap_or k.sm_default_msg_id 0;
  short_message = unwrap_or k.short_message [];
}

unfoldable pub alert_of : (source_addr esme_addr : String) → AlertOptions → Alert
alert_of source_addr esme_addr k = record {
  source_addr_ton = unwrap_or k.source_addr_ton 1;
  source_addr_npi = unwrap_or k.source_addr_npi 1;
  source_addr = source_addr;
  esme_addr_ton = unwrap_or k.esme_addr_ton 1;
  esme_addr_npi = unwrap_or k.esme_addr_npi 1;
  esme_addr = esme_addr;
  ms_availability_status = k.ms_availability_status;
}

-- A call as the script writes it: the keywords that it must give, and its options.
pub data Invocation : Type 0 where
  submit_via : (bind source_addr destination_addr : String) → Bytes → MessageOptions → Invocation
  submit_multi_via : (bind source_addr : String) → List String → Bytes → MessageOptions → Invocation
  data_via : (bind source_addr destination_addr : String) → DataOptions → Invocation
  cancel_via : (bind message_id : String) → CancelOptions → Invocation
  query_via : (bind message_id : String) → QueryOptions → Invocation
  replace_via : (bind message_id : String) → ReplaceOptions → Invocation
  deliver_to :
      (session_id source_addr destination_addr : String) → Bytes → MessageOptions → Invocation
  data_to : (session_id source_addr destination_addr : String) → DataOptions → Invocation
  alert_to : (session_id source_addr esme_addr : String) → AlertOptions → Invocation

-- The call that it makes, with the clock of its limiter and its exchange.
module _ (clock : List ℕ) (x : Exchange Response) (queried : Exchange QuerySmResp) where
  unfoldable pub invoke : Invocation → Call
  unfolding message_of multi_message_of destinations_of data_of cancel_of query_of replacement_of
      alert_of
  invoke (submit_via bind source destination body k) =
      submit bind (message_of source destination body k) k.tlvs clock x
  invoke (submit_multi_via bind source destinations body k) =
      submit_multi bind (multi_message_of source body k) (destinations_of destinations k) k.tlvs
        clock x
  invoke (data_via bind source destination k) =
      data_call bind (data_of source destination k) (unwrap_or k.short_message []) k.tlvs clock x
  invoke (cancel_via bind message_id k) = cancel bind (cancel_of message_id k) x
  invoke (query_via bind message_id k) = query bind (query_of message_id k) queried
  invoke (replace_via bind message_id k) = replace bind (replacement_of message_id k) x
  invoke (deliver_to session source destination body k) =
      deliver session (message_of source destination body k) k.tlvs x
  invoke (data_to session source destination k) =
      data_back session (data_of source destination k) (unwrap_or k.short_message []) k.tlvs x
  invoke (alert_to session source esme k) = alert session (alert_of source esme k)
