-- ===== src/Sends/Reports.antt =====
-- What a send helper says of the response of the peer: src/sends.rs.
use siphon_smpp.Common.{List, ◌∷◌, String, ℕ, Option, none, some, [], Result, ok, err}
use siphon_smpp.Status.{SmppError, status_name}
use siphon_smpp.Outcome.{
  Response, submit_sm_resp, submit_sm_multi_resp, query_sm_resp, deliver_sm_resp, data_sm_resp,
  cancel_sm_resp, replace_sm_resp, status, message_id,
}
use siphon_smpp.Tlv.{TlvTable, Tlv, Bytes, PyValue}
use siphon_smpp.Pdu.{TlvList, DataSm}
use siphon_smpp.Runtime.{State}
use siphon_smpp.Sends.{
  tlvs_of, build_data_sm, Request, submit_sm, submit_sm_multi, data_sm, cancel_sm, query_sm,
  replace_sm, deliver_sm, alert_notification, QuerySmResp,
}
use siphon_smpp.Sends.Outbound.{dest_addresses}
use siphon_smpp.Sends.Calls.{
  Call, submit, submit_multi, data_call, cancel, query, replace, deliver, data_back, alert, Answer,
  smpp_resp, query_resp,
}

module _ (from_command_status : ℕ → SmppError) where
  -- A result with a status and a message id.
  abbrev resp : (status : ℕ) (message_id : String) → Answer
  resp status message_id = smpp_resp (record {
    command_status = status_name from_command_status status;
    command_status_code = status;
    message_id = message_id;
  })

  -- The fields of the peer's response as a script should see them: an id where the response has one.
  abbrev told : Result SmppError Response → Option Answer
  told (err e) = none
  told (ok (submit_sm_resp status none)) = some (resp status "")
  told (ok (submit_sm_resp status (some id))) = some (resp status id)
  told (ok (submit_sm_multi_resp status none)) = some (resp status "")
  told (ok (submit_sm_multi_resp status (some id))) = some (resp status id)
  told (ok (query_sm_resp status id state date error)) = some (resp status id)
  told (ok (deliver_sm_resp status)) = some (resp status "")
  told (ok (data_sm_resp status)) = some (resp status "")
  told (ok (cancel_sm_resp status)) = some (resp status "")
  told (ok (replace_sm_resp status)) = some (resp status "")

  abbrev told_query : Result SmppError QuerySmResp → Option Answer
  told_query (err e) = none
  told_query (ok r) = some (
      query_resp (record {
        command_status = status_name from_command_status r.command_status;
        command_status_code = r.command_status;
        message_id = r.message_id;
        message_state = r.message_state;
        final_date = r.final_date;
        error_code = r.error_code;
      }))

  -- What the peer answers to the request of a call, field by field; an alert has no answer, and its result
  -- has the status 0, which says that it was written.
  abbrev pub heard : Call → Option Answer
  heard (submit bind m dict clock x) = told x.answer
  heard (submit_multi bind m d dict clock x) = told x.answer
  heard (data_call bind fields body dict clock x) = told x.answer
  heard (cancel bind c x) = told x.answer
  heard (query bind q x) = told_query x.answer
  heard (replace bind r x) = told x.answer
  heard (deliver session m dict x) = told x.answer
  heard (data_back session fields body dict x) = told x.answer
  heard (alert session a) = some (resp 0 "")

  -- What the helpers make of the answer.
  abbrev made : {R : Type 0} → (R → Answer) → Result SmppError R → Option Answer
  made f (err e) = none
  made f (ok r) = some (f r)

  module _ (table : TlvTable) (lookups : TlvList) (runtime : Option State) where
    -- The request of a call: its own fields, with the optional parameters that the dict converts to, and
    -- for a `data_sm` its body among these. None when they do not convert.
    abbrev with_tlvs : Option (List (PyValue × PyValue)) → (List Tlv → List Request) → List Request
    with_tlvs dict make = elim (tlvs_of table dict) [ err e ↦ [] | ok tlvs ↦ make tlvs ]

    abbrev with_body : DataSm → Bytes → Option (List (PyValue × PyValue)) → List Request
    with_body fields body dict = with_tlvs dict (λ tlvs.
        elim (build_data_sm table lookups fields body tlvs) [
          | err e ↦ []
          | ok pdu ↦ data_sm pdu ∷ []
        ])

    abbrev pub asked : Call → List Request
    asked (submit bind m dict clock x) =
        with_tlvs dict (λ tlvs. submit_sm (record m { tlvs = tlvs }) ∷ [])
    asked (submit_multi bind m d dict clock x) =
        with_tlvs dict (λ tlvs.
          submit_sm_multi (record m { dest_addresses = dest_addresses d; tlvs = tlvs }) ∷ [])
    asked (data_call bind fields body dict clock x) = with_body fields body dict
    asked (cancel bind c x) = cancel_sm c ∷ []
    asked (query bind q x) = query_sm q ∷ []
    asked (replace bind r x) = replace_sm r ∷ []
    asked (deliver session m dict x) =
        with_tlvs dict (λ tlvs. deliver_sm (record m { tlvs = tlvs }) ∷ [])
    asked (data_back session fields body dict x) = with_body fields body dict
    asked (alert session a) = alert_notification a ∷ []
