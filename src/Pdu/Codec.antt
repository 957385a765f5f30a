-- ===== src/Pdu/Codec.antt =====
-- The codec's PDUs, with the fields that the crate reads or sets, and its lookups: smpp34, as
-- src/pyclasses.rs uses it.
use siphon_smpp.Common.{ℕ, String, Option, List}
use siphon_smpp.Tlv.{Bytes, Tlv}

pub record SubmitSm : Type 0 where
  pub service_type : String
  pub source_addr_ton : ℕ
  pub source_addr_npi : ℕ
  pub source_addr : String
  pub dest_addr_ton : ℕ
  pub dest_addr_npi : ℕ
  pub destination_addr : String
  pub esm_class : ℕ
  pub protocol_id : ℕ
  pub priority_flag : ℕ
  pub schedule_delivery_time : String
  pub validity_period : String
  pub replace_if_present_flag : ℕ
  pub sm_default_msg_id : ℕ
  pub registered_delivery : ℕ
  pub data_coding : ℕ
  pub sm_length : ℕ
  pub short_message : Bytes
  pub tlvs : List Tlv

pub record DeliverSm : Type 0 where
  pub service_type : String
  pub source_addr_ton : ℕ
  pub source_addr_npi : ℕ
  pub source_addr : String
  pub dest_addr_ton : ℕ
  pub dest_addr_npi : ℕ
  pub destination_addr : String
  pub esm_class : ℕ
  pub protocol_id : ℕ
  pub priority_flag : ℕ
  pub schedule_delivery_time : String
  pub validity_period : String
  pub replace_if_present_flag : ℕ
  pub sm_default_msg_id : ℕ
  pub registered_delivery : ℕ
  pub data_coding : ℕ
  pub sm_length : ℕ
  pub short_message : Bytes
  pub tlvs : List Tlv

pub record DataSm : Type 0 where
  pub service_type : String
  pub source_addr_ton : ℕ
  pub source_addr_npi : ℕ
  pub source_addr : String
  pub dest_addr_ton : ℕ
  pub dest_addr_npi : ℕ
  pub destination_addr : String
  pub esm_class : ℕ
  pub registered_delivery : ℕ
  pub data_coding : ℕ
  pub tlvs : List Tlv

pub record CancelSm : Type 0 where
  pub message_id : String
  pub service_type : String
  pub source_addr_ton : ℕ
  pub source_addr_npi : ℕ
  pub source_addr : String
  pub dest_addr_ton : ℕ
  pub dest_addr_npi : ℕ
  pub destination_addr : String

pub record QuerySm : Type 0 where
  pub message_id : String
  pub source_addr_ton : ℕ
  pub source_addr_npi : ℕ
  pub source_addr : String

pub record ReplaceSm : Type 0 where
  pub message_id : String
  pub source_addr_ton : ℕ
  pub source_addr_npi : ℕ
  pub source_addr : String
  pub schedule_delivery_time : String
  pub validity_period : String
  pub sm_default_msg_id : ℕ
  pub registered_delivery : ℕ
  pub sm_length : ℕ
  pub short_message : Bytes

pub data DestAddress : Type 0 where
  sme : (dest_addr_ton dest_addr_npi : ℕ) → String → DestAddress
  distribution_list : String → DestAddress

pub record SubmitSmMulti : Type 0 where
  pub service_type : String
  pub source_addr_ton : ℕ
  pub source_addr_npi : ℕ
  pub source_addr : String
  pub dest_addresses : List DestAddress
  pub esm_class : ℕ
  pub protocol_id : ℕ
  pub priority_flag : ℕ
  pub schedule_delivery_time : String
  pub validity_period : String
  pub replace_if_present_flag : ℕ
  pub sm_default_msg_id : ℕ
  pub registered_delivery : ℕ
  pub data_coding : ℕ
  pub sm_length : ℕ
  pub short_message : Bytes
  pub tlvs : List Tlv

-- The lookups of the codec's `TlvList` that the crate uses, each on a list of parameters.
pub record TlvList : Type 0 where
  pub message_payload : List Tlv → Option Bytes
  pub receipted_message_id : List Tlv → Option (List ℕ)
  pub message_state : List Tlv → Option ℕ
  pub get_tlv_raw : ℕ → List Tlv → Option Tlv
