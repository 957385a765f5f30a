-- ===== src/Pdu.antt =====
-- The PDU that a script sees, and how it is built from each PDU of the codec: src/pyclasses.rs `Pdu`.
mod Codec
pub mod Receipt
pub use Codec.*
use Prim.Native.Nat.{bit_and}
use siphon_smpp.Common.{
  ℕ, String, Bool, not, Option, List, [], map, ◌==◌, unwrap_or, option_map, Result, ok, ◌>>=◌,
}
use siphon_smpp.Tlv.{Bytes, Tlv, TlvTable, TlvError, PyValue, tag_from_py}

pub record Pdu : Type 0 where
  pub command : String
  pub message_id : String
  pub service_type : String
  pub source_addr_ton : ℕ
  pub source_addr_npi : ℕ
  pub source_addr : String
  pub dest_addr_ton : ℕ
  pub dest_addr_npi : ℕ
  pub destination_addr : String
  pub esm_class : ℕ
  pub protocol_id : ℕ
  pub priority_flag : ℕ
  pub schedule_delivery_time : String
  pub validity_period : String
  pub replace_if_present_flag : ℕ
  pub sm_default_msg_id : ℕ
  pub registered_delivery : ℕ
  pub data_coding : ℕ
  pub sm_length : ℕ
  pub destinations : List String
  pub short_message : Bytes
  pub tlvs : List Tlv

unfoldable pub from_submit : SubmitSm → Pdu
from_submit s = record {
  command = "submit_sm";
  message_id = "";
  service_type = s.service_type;
  source_addr_ton = s.source_addr_ton;
  source_addr_npi = s.source_addr_npi;
  source_addr = s.source_addr;
  dest_addr_ton = s.dest_addr_ton;
  dest_addr_npi = s.dest_addr_npi;
  destination_addr = s.destination_addr;
  esm_class = s.esm_class;
  protocol_id = s.protocol_id;
  priority_flag = s.priority_flag;
  schedule_delivery_time = s.schedule_delivery_time;
  validity_period = s.validity_period;
  replace_if_present_flag = s.replace_if_present_flag;
  sm_default_msg_id = s.sm_default_msg_id;
  registered_delivery = s.registered_delivery;
  data_coding = s.data_coding;
  sm_length = s.sm_length;
  destinations = [];
  short_message = s.short_message;
  tlvs = s.tlvs;
}

unfoldable pub from_deliver : DeliverSm → Pdu
from_deliver d = record {
  command = "deliver_sm";
  message_id = "";
  service_type = d.service_type;
  source_addr_ton = d.source_addr_ton;
  source_addr_npi = d.source_addr_npi;
  source_addr = d.source_addr;
  dest_addr_ton = d.dest_addr_ton;
  dest_addr_npi = d.dest_addr_npi;
  destination_addr = d.destination_addr;
  esm_class = d.esm_class;
  protocol_id = d.protocol_id;
  priority_flag = d.priority_flag;
  schedule_delivery_time = d.schedule_delivery_time;
  validity_period = d.validity_period;
  replace_if_present_flag = d.replace_if_present_flag;
  sm_default_msg_id = d.sm_default_msg_id;
  registered_delivery = d.registered_delivery;
  data_coding = d.data_coding;
  sm_length = d.sm_length;
  destinations = [];
  short_message = d.short_message;
  tlvs = d.tlvs;
}

unfoldable pub from_data : DataSm → Pdu
from_data d = record {
  command = "data_sm";
  message_id = "";
  service_type = d.service_type;
  source_addr_ton = d.source_addr_ton;
  source_addr_npi = d.source_addr_npi;
  source_addr = d.source_addr;
  dest_addr_ton = d.dest_addr_ton;
  dest_addr_npi = d.dest_addr_npi;
  destination_addr = d.destination_addr;
  esm_class = d.esm_class;
  protocol_id = 0;
  priority_flag = 0;
  schedule_delivery_time = "";
  validity_period = "";
  replace_if_present_flag = 0;
  sm_default_msg_id = 0;
  registered_delivery = d.registered_delivery;
  data_coding = d.data_coding;
  sm_length = 0;
  destinations = [];
  short_message = [];
  tlvs = d.tlvs;
}

unfoldable pub from_cancel : CancelSm → Pdu
from_cancel c = record {
  command = "cancel_sm";
  message_id = c.message_id;
  service_type = c.service_type;
  source_addr_ton = c.source_addr_ton;
  source_addr_npi = c.source_addr_npi;
  source_addr = c.source_addr;
  dest_addr_ton = c.dest_addr_ton;
  dest_addr_npi = c.dest_addr_npi;
  destination_addr = c.destination_addr;
  esm_class = 0;
  protocol_id = 0;
  priority_flag = 0;
  schedule_delivery_time = "";
  validity_period = "";
  replace_if_present_flag = 0;
  sm_default_msg_id = 0;
  registered_delivery = 0;
  data_coding = 0;
  sm_length = 0;
  destinations = [];
  short_message = [];
  tlvs = [];
}

unfoldable pub from_query : QuerySm → Pdu
from_query q = record {
  command = "query_sm";
  message_id = q.message_id;
  service_type = "";
  source_addr_ton = q.source_addr_ton;
  source_addr_npi = q.source_addr_npi;
  source_addr = q.source_addr;
  dest_addr_ton = 0;
  dest_addr_npi = 0;
  destination_addr = "";
  esm_class = 0;
  protocol_id = 0;
  priority_flag = 0;
  schedule_delivery_time = "";
  validity_period = "";
  replace_if_present_flag = 0;
  sm_default_msg_id = 0;
  registered_delivery = 0;
  data_coding = 0;
  sm_length = 0;
  destinations = [];
  short_message = [];
  tlvs = [];
}

unfoldable pub from_replace : ReplaceSm → Pdu
from_replace r = record {
  command = "replace_sm";
  message_id = r.message_id;
  service_type = "";
  source_addr_ton = r.source_addr_ton;
  source_addr_npi = r.source_addr_npi;
  source_addr = r.source_addr;
  dest_addr_ton = 0;
  dest_addr_npi = 0;
  destination_addr = "";
  esm_class = 0;
  protocol_id = 0;
  priority_flag = 0;
  schedule_delivery_time = r.schedule_delivery_time;
  validity_period = r.validity_period;
  replace_if_present_flag = 0;
  sm_default_msg_id = r.sm_default_msg_id;
  registered_delivery = r.registered_delivery;
  data_coding = 0;
  sm_length = r.sm_length;
  destinations = [];
  short_message = r.short_message;
  tlvs = [];
}

unfoldable pub destination_name : DestAddress → String
destination_name (sme ton npi destination_addr) = destination_addr
destination_name (distribution_list dl_name) = dl_name

unfoldable pub from_submit_multi : SubmitSmMulti → Pdu
from_submit_multi m = record {
  command = "submit_sm_multi";
  message_id = "";
  service_type = m.service_type;
  source_addr_ton = m.source_addr_ton;
  source_addr_npi = m.source_addr_npi;
  source_addr = m.source_addr;
  dest_addr_ton = 0;
  dest_addr_npi = 0;
  destination_addr = "";
  esm_class = m.esm_class;
  protocol_id = m.protocol_id;
  priority_flag = m.priority_flag;
  schedule_delivery_time = m.schedule_delivery_time;
  validity_period = m.validity_period;
  replace_if_present_flag = m.replace_if_present_flag;
  sm_default_msg_id = m.sm_default_msg_id;
  registered_delivery = m.registered_delivery;
  data_coding = m.data_coding;
  sm_length = m.sm_length;
  destinations = map destination_name m.dest_addresses;
  short_message = m.short_message;
  tlvs = m.tlvs;
}

unfoldable pub is_tpdu : Pdu → Bool
is_tpdu p = not (bit_and p.esm_class 0x40 == 0)

unfoldable pub is_dlr : Pdu → Bool
is_dlr p = not (bit_and p.esm_class 0x04 == 0)

module _ (lookups : TlvList) where
  open lookups use {message_payload, get_tlv_raw}

  unfoldable pub body : Pdu → Bytes
  body p = unwrap_or (message_payload p.tlvs) p.short_message

  -- `pdu.tlv(key)`, by name or by number.
  unfoldable pub tlv : TlvTable → Pdu → PyValue → Result TlvError (Option Bytes)
  tlv table p key =
      tag_from_py table key >>= λ tag. ok (option_map (λ t. t.value) (get_tlv_raw tag p.tlvs))
