-- ===== src/Sends/Inbound.antt =====
-- Sending to an ESME that bound to us, by its session: src/sends.rs `deliver_to`, `data_to`,
-- `alert_to`.
use siphon_smpp.Common.{
  ℕ, String, true, Option, some, List, [], ◌∷◌, if◌then◌else◌, length, Result, ok, err, ◌>>=◌,
}
use siphon_smpp.Status.{SmppError}
use siphon_smpp.Tlv.{Bytes, TlvTable, PyValue}
use siphon_smpp.Pdu.{TlvList, DataSm}
use siphon_smpp.Outcome.{Response}
use siphon_smpp.Runtime.{State, Esme}
use siphon_smpp.Sends.{
  SendError, cannot_receive, Message, Alert, deliver_sm, data_sm, alert_notification,
  check_short_message, tlvs_of, build_data_sm, SmppResp, from_reply, written, esme_handle, Exchange,
  settle_on_esme, Sent, require_state, conclude, report,
}

unfoldable pub check_can_receive : Esme → String → String → Result SendError (Unit {0})
check_can_receive esme session_id command =
    if esme.can_receive then ok tt else err (cannot_receive session_id command)

module _ (from_command_status : ℕ → SmppError) (table : TlvTable) (lookups : TlvList)
    (runtime : Option State) (session_id : String) where
  unfoldable pub deliver_to :
      Message → Option (List (PyValue × PyValue)) → Exchange Response → Option (Sent SmppResp)
  deliver_to m dict x = conclude runtime do
    s ← require_state runtime
    checked ← check_short_message "deliver_sm" (length m.short_message) true
    tlvs ← tlvs_of table dict
    target ← esme_handle s session_id
    receives ← check_can_receive target.0 session_id "deliver_sm"
    ok (
        some (
          report (from_reply from_command_status)
            (settle_on_esme target.0 target.1 session_id "deliver_sm" x)
            (deliver_sm (record m { tlvs = tlvs })) s))

  unfoldable pub data_to :
      DataSm
      → Bytes
      → Option (List (PyValue × PyValue))
      → Exchange Response
      → Option (Sent SmppResp)
  data_to fields short_message dict x = conclude runtime do
    s ← require_state runtime
    tlvs ← tlvs_of table dict
    pdu ← build_data_sm table lookups fields short_message tlvs
    target ← esme_handle s session_id
    ok (
        some (
          report (from_reply from_command_status)
            (settle_on_esme target.0 target.1 session_id "data_sm" x) (data_sm pdu) s))

  -- There is no response to wait for.
  unfoldable pub alert_to : Alert → Option (Sent SmppResp)
  alert_to a = conclude runtime do
    s ← require_state runtime
    target ← esme_handle s session_id
    receives ← check_can_receive target.0 session_id "alert_notification"
    ok (
        some (record {
          result = ok (written from_command_status);
          wrote = alert_notification a ∷ [];
          state = some s;
        }))
