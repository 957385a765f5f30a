-- ===== src/Sends/Requests.antt =====
-- The requests that the helpers send and the errors that they raise: src/sends.rs.
use siphon_smpp.Common.{ℕ, String, Bool, Option, List}
use siphon_smpp.Tlv.{Bytes, Tlv, TlvError}
use siphon_smpp.Pdu.{DataSm, CancelSm, QuerySm, DestAddress}
use siphon_smpp.Outcome.{SendErrorValue}

-- What a helper fails with. `send_error` is `SmppSendError`; the others are raised before a request is
-- written.
pub data SendError : Type 0 where
  not_started : SendError
  short_message_too_long : String → ℕ → Bool → SendError
  two_bodies : String → SendError
  bad_tlvs : TlvError → SendError
  too_many_destinations : ℕ → SendError
  bind_not_bound session_not_bound : String → SendError
  cannot_receive : String → String → SendError
  send_error : SendErrorValue → SendError

-- The fields of a message that the builders of `submit_sm` and `deliver_sm` are given.
pub record Message : Type 0 where
  pub service_type : String
  pub source_addr_ton : ℕ
  pub source_addr_npi : ℕ
  pub source_addr : String
  pub dest_addr_ton : ℕ
  pub dest_addr_npi : ℕ
  pub destination_addr : String
  pub esm_class : ℕ
  pub protocol_id : ℕ
  pub priority_flag : ℕ
  pub schedule_delivery_time : String
  pub validity_period : String
  pub registered_delivery : ℕ
  pub replace_if_present_flag : ℕ
  pub data_coding : ℕ
  pub sm_default_msg_id : ℕ
  pub short_message : Bytes
  pub tlvs : List Tlv

pub record MultiMessage : Type 0 where
  pub service_type : String
  pub source_addr_ton : ℕ
  pub source_addr_npi : ℕ
  pub source_addr : String
  pub dest_addresses : List DestAddress
  pub esm_class : ℕ
  pub protocol_id : ℕ
  pub priority_flag : ℕ
  pub schedule_delivery_time : String
  pub validity_period : String
  pub registered_delivery : ℕ
  pub replace_if_present_flag : ℕ
  pub data_coding : ℕ
  pub sm_default_msg_id : ℕ
  pub short_message : Bytes
  pub tlvs : List Tlv

pub record Replacement : Type 0 where
  pub message_id : String
  pub source_addr_ton : ℕ
  pub source_addr_npi : ℕ
  pub source_addr : String
  pub schedule_delivery_time : String
  pub validity_period : String
  pub registered_delivery : ℕ
  pub sm_default_msg_id : ℕ
  pub short_message : Bytes

pub record Alert : Type 0 where
  pub source_addr_ton : ℕ
  pub source_addr_npi : ℕ
  pub source_addr : String
  pub esme_addr_ton : ℕ
  pub esme_addr_npi : ℕ
  pub esme_addr : String
  pub ms_availability_status : Option ℕ

pub data Request : Type 0 where
  submit_sm : Message → Request
  submit_sm_multi : MultiMessage → Request
  data_sm : DataSm → Request
  cancel_sm : CancelSm → Request
  query_sm : QuerySm → Request
  replace_sm : Replacement → Request
  deliver_sm : Message → Request
  alert_notification : Alert → Request
