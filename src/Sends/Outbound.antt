-- ===== src/Sends/Outbound.antt =====
-- Sending on an outbound bind, by its name: src/sends.rs `submit_via` to `replace_via`. The arguments
-- of a helper that it passes on as they are come as the record that carries them.
use siphon_smpp.Common.{
  ℕ, String, true, false, Option, some, List, map, ltb, if◌then◌else◌, option_map, length, Result,
  ok, err, ◌>>=◌,
}
use siphon_smpp.Status.{SmppError}
use siphon_smpp.Tlv.{Bytes, TlvTable, PyValue}
use siphon_smpp.Pdu.{TlvList, DataSm, CancelSm, QuerySm, DestAddress, sme}
use siphon_smpp.Outcome.{Response}
use siphon_smpp.Runtime.{State}
use siphon_smpp.Sends.{
  SendError, too_many_destinations, Message, MultiMessage, Replacement, Request, submit_sm,
  submit_sm_multi, data_sm, cancel_sm, query_sm, replace_sm, check_short_message, tlvs_of,
  build_data_sm, SmppResp, QueryResp, QuerySmResp, from_reply, query_from_reply, BindTarget,
  bind_handle, pace, Exchange, settle_on_bind, Sent, require_state, conclude, report,
}

-- The arguments of `submit_multi_via` that are not passed on as they are.
pub record Destinations : Type 0 where
  pub dest_addr_ton : ℕ
  pub dest_addr_npi : ℕ
  pub destinations : List String

abbrev pub dest_addresses : Destinations → List DestAddress
dest_addresses d = map (λ a. sme d.dest_addr_ton d.dest_addr_npi a) d.destinations

unfoldable pub check_destinations : List DestAddress → Result SendError (Unit {0})
check_destinations addresses =
    if ltb 254 (length addresses) then err (too_many_destinations (length addresses)) else ok tt

module _ (from_command_status : ℕ → SmppError) (table : TlvTable) (lookups : TlvList)
    (runtime : Option State) (bind : String) where
  -- The request, sent in its turn on the bind.
  abbrev paced_on_bind :
      String → Request → List ℕ → Exchange Response → State → BindTarget → Option (Sent SmppResp)
  paced_on_bind command request clock x s target =
      option_map
        (report (from_reply from_command_status) (settle_on_bind target bind command x) request)
        (pace bind target.throttle clock s)

  unfoldable pub submit_via :
      Message
      → Option (List (PyValue × PyValue))
      → List ℕ
      → Exchange Response
      → Option (Sent SmppResp)
  submit_via m dict clock x = conclude runtime do
    s ← require_state runtime
    checked ← check_short_message "submit_sm" (length m.short_message) true
    tlvs ← tlvs_of table dict
    target ← bind_handle s bind
    ok (paced_on_bind "submit_sm" (submit_sm (record m { tlvs = tlvs })) clock x s target)

  unfoldable pub submit_multi_via :
      MultiMessage
      → Destinations
      → Option (List (PyValue × PyValue))
      → List ℕ
      → Exchange Response
      → Option (Sent SmppResp)
  submit_multi_via m d dict clock x = conclude runtime do
    s ← require_state runtime
    checked ← check_short_message "submit_sm_multi" (length m.short_message) true
    tlvs ← tlvs_of table dict
    counted ← check_destinations (dest_addresses d)
    target ← bind_handle s bind
    ok (
        paced_on_bind "submit_sm_multi"
          (submit_sm_multi (record m { dest_addresses = dest_addresses d; tlvs = tlvs })) clock x s
          target)

  unfoldable pub data_via :
      DataSm
      → Bytes
      → Option (List (PyValue × PyValue))
      → List ℕ
      → Exchange Response
      → Option (Sent SmppResp)
  data_via fields short_message dict clock x = conclude runtime do
    s ← require_state runtime
    tlvs ← tlvs_of table dict
    pdu ← build_data_sm table lookups fields short_message tlvs
    target ← bind_handle s bind
    ok (paced_on_bind "data_sm" (data_sm pdu) clock x s target)

  unfoldable pub cancel_via : CancelSm → Exchange Response → Option (Sent SmppResp)
  cancel_via c x = conclude runtime do
    s ← require_state runtime
    target ← bind_handle s bind
    ok (
        some (
          report (from_reply from_command_status) (settle_on_bind target bind "cancel_sm" x)
            (cancel_sm c) s))

  unfoldable pub query_via : QuerySm → Exchange QuerySmResp → Option (Sent QueryResp)
  query_via q x = conclude runtime do
    s ← require_state runtime
    target ← bind_handle s bind
    ok (
        some (
          report (query_from_reply from_command_status) (settle_on_bind target bind "query_sm" x)
            (query_sm q) s))

  unfoldable pub replace_via : Replacement → Exchange Response → Option (Sent SmppResp)
  replace_via r x = conclude runtime do
    s ← require_state runtime
    checked ← check_short_message "replace_sm" (length r.short_message) false
    target ← bind_handle s bind
    ok (
        some (
          report (from_reply from_command_status) (settle_on_bind target bind "replace_sm" x)
            (replace_sm r) s))
