-- ===== src/Reply.antt =====
-- What a handler gets beside the PDU and what it returns: src/pyclasses.rs `PduReply`, `Bind`,
-- `BindResult`, `AlertNotification`, `Session`.
pub mod Choice
use siphon_smpp.Common.{
  ℕ, String, Bool, true, false, not, Option, none, some, List, [], ◌&&◌, is_empty, if◌then◌else◌,
  or_else, str_eq, Result, ok, err, ◌>>=◌,
}
use siphon_smpp.Status.{SmppError, esme_rok, parse_smpp_status, StatusError}
use siphon_smpp.Tlv.{Tlv, TlvTable, TlvError, PyValue, tlvs_from_py}
use siphon_smpp.Pdu.{Pdu}

pub record PduReply : Type 0 where
  pub command_status : SmppError
  pub message_id : Option String
  pub message_state : Option ℕ
  pub final_date : String
  pub error_code : ℕ
  pub tlvs : List Tlv

unfoldable pub default_ok : PduReply
default_ok = record {
  command_status = esme_rok;
  message_id = none;
  message_state = none;
  final_date = "";
  error_code = 0;
  tlvs = [];
}

pub data ReplyError : Type 0 where
  bad_status : StatusError → ReplyError
  bad_tlvs : TlvError → ReplyError
  tlvs_not_supported : String → ReplyError

abbrev pub status_or {ℓ} : {A : Type ℓ} → Result StatusError A → Result ReplyError A
status_or (ok a) = ok a
status_or (err e) = err (bad_status e)

abbrev pub tlvs_or {ℓ} : {A : Type ℓ} → Result TlvError A → Result ReplyError A
tlvs_or (ok a) = ok a
tlvs_or (err e) = err (bad_tlvs e)

-- A reply with a status, an id and optional parameters.
abbrev pub with_status : SmppError → Option String → List Tlv → PduReply
with_status cs id tlvs = record {
  command_status = cs;
  message_id = id;
  message_state = none;
  final_date = "";
  error_code = 0;
  tlvs = tlvs;
}

module _ (table : TlvTable) where
  -- `PduReply(...)`, which knows no command.
  unfoldable pub new :
      String → Option String → Option (List (PyValue × PyValue)) → Result ReplyError PduReply
  new command_status message_id tlvs = do
    cs ← status_or (parse_smpp_status command_status)
    tlvs ← tlvs_or (tlvs_from_py table tlvs)
    ok (with_status cs message_id tlvs)

  -- `pdu.reply(...)`.
  unfoldable pub reply :
      Pdu → String → Option String → Option (List (PyValue × PyValue)) → Result ReplyError PduReply
  reply pdu command_status message_id tlvs = do
    cs ← status_or (parse_smpp_status command_status)
    tlvs ← tlvs_or (tlvs_from_py table tlvs)
    if not (is_empty tlvs) && not (str_eq pdu.command "data_sm")
        then err (tlvs_not_supported pdu.command)
        else ok (with_status cs message_id tlvs)

-- `pdu.reply_query(...)`.
unfoldable pub reply_query : Pdu → ℕ → Option String → String → ℕ → PduReply
reply_query pdu message_state message_id final_date error_code = record {
  command_status = esme_rok;
  message_id = or_else message_id (some pdu.message_id);
  message_state = some message_state;
  final_date = final_date;
  error_code = error_code;
  tlvs = [];
}

pub record Bind : Type 0 where
  pub system_id : String
  pub password : String
  pub client_addr : String

pub record BindResult : Type 0 where
  pub accepted : Bool
  pub status : SmppError
  pub reason : String

unfoldable pub accept : Bind → BindResult
accept b = record { accepted = true; status = esme_rok; reason = "" }

unfoldable pub reject : Bind → String → String → Result StatusError BindResult
reject b status reason =
    parse_smpp_status status >>= λ s. ok (record { accepted = false; status = s; reason = reason })

pub record AlertNotification : Type 0 where
  pub source_addr : String
  pub esme_addr : String
  pub ms_availability_status : Option ℕ

pub data SourceKind : Type 0 where
  bind esme_server : SourceKind

pub record Session : Type 0 where
  pub kind : SourceKind
  pub session_id : String
  pub system_id : String
  pub client_addr : String

unfoldable pub kind_name : Session → String
kind_name s = elim s.kind [ bind ↦ "bind" | esme_server ↦ "esme" ]
