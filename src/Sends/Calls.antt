-- ===== src/Sends/Calls.antt =====
-- What every send helper keeps to: src/sends.rs.
use siphon_smpp.Common.{
  ℕ, ◌≤◌, ◌≡◌, ◌≢◌, arith, String, Bool, false, Option, none, some, List, [], ◌∷◌, All, find,
  str_eq, refl, ◌⊎◌, inl, inr, Bool-cases, length, Result, ok, err, ◌>>=◌,
}
use siphon_smpp.Status.{SmppError}
use siphon_smpp.Tlv.{Bytes, TlvTable, PyValue}
use siphon_smpp.Pdu.{TlvList, DataSm, CancelSm, QuerySm}
use siphon_smpp.Outcome.{Response}
use siphon_smpp.Runtime.{State, Esme, BindSession, EsmeSession, find_esme}
use siphon_smpp.Sends.{
  SendError, bind_not_bound, session_not_bound, Message, MultiMessage, Replacement, Alert, Request,
  submit_sm, submit_sm_multi, replace_sm, deliver_sm, check_short_message, bind_handle, esme_handle,
  found_bind, found_esme, SmppResp, QueryResp, QuerySmResp, Exchange, Sent, require_state,
}
use siphon_smpp.Sends.Outbound.{
  Destinations, check_destinations, submit_via, submit_multi_via, data_via, cancel_via, query_via,
  replace_via,
}
use siphon_smpp.Sends.Inbound.{check_can_receive, deliver_to, data_to, alert_to}

-- A request that the codec can encode.
abbrev pub Fits : Request → Type 0
Fits (submit_sm m) = length m.short_message ≤ 254
Fits (submit_sm_multi m) = (length m.short_message ≤ 254) × (length m.dest_addresses ≤ 254)
Fits (replace_sm r) = length r.short_message ≤ 254
Fits (deliver_sm m) = length m.short_message ≤ 254
Fits _ = Unit {0}

-- The helpers' calls, with what each gets from outside: the clock of its limiter and its exchange.
pub data Call : Type 0 where
  submit : String → Message → Option (List (PyValue × PyValue)) → List ℕ → Exchange Response → Call
  submit_multi :
      String
      → MultiMessage
      → Destinations
      → Option (List (PyValue × PyValue))
      → List ℕ
      → Exchange Response
      → Call
  data_call :
      String
      → DataSm
      → Bytes
      → Option (List (PyValue × PyValue))
      → List ℕ
      → Exchange Response
      → Call
  cancel : String → CancelSm → Exchange Response → Call
  query : String → QuerySm → Exchange QuerySmResp → Call
  replace : String → Replacement → Exchange Response → Call
  deliver : String → Message → Option (List (PyValue × PyValue)) → Exchange Response → Call
  data_back : String → DataSm → Bytes → Option (List (PyValue × PyValue)) → Exchange Response → Call
  alert : String → Alert → Call

pub data Answer : Type 0 where
  smpp_resp : SmppResp → Answer
  query_resp : QueryResp → Answer

abbrev answered : {R : Type 0} → (R → Answer) → Option (Sent R) → Option (Sent Answer)
answered f none = none
answered f (some sent) =
    some (record { result = sent.result >>= λ r. ok (f r); wrote = sent.wrote; state = sent.state })

-- What a call finds in place of its target.
abbrev receives : Result SendError (Esme × ℕ) → Bool
receives (err e) = false
receives (ok (esme, response_timer)) = esme.can_receive

abbrev FindsNone : State → Call → Type 0
FindsNone s (submit bind m dict clock x) = bind_handle s bind ≡ err (bind_not_bound bind)
FindsNone s (submit_multi bind m d dict clock x) = bind_handle s bind ≡ err (bind_not_bound bind)
FindsNone s (data_call bind fields body dict clock x) =
    bind_handle s bind ≡ err (bind_not_bound bind)
FindsNone s (cancel bind c x) = bind_handle s bind ≡ err (bind_not_bound bind)
FindsNone s (query bind q x) = bind_handle s bind ≡ err (bind_not_bound bind)
FindsNone s (replace bind r x) = bind_handle s bind ≡ err (bind_not_bound bind)
FindsNone s (deliver session m dict x) = receives (esme_handle s session) ≡ false
FindsNone s (data_back session fields body dict x) =
    esme_handle s session ≡ err (session_not_bound session)
FindsNone s (alert session a) = receives (esme_handle s session) ≡ false

-- No bind of the registry has the name.
abbrev NoBind : State → String → Type 0
NoBind s bind = All (λ b. str_eq b.name bind ≡ false) s.binds

-- No ESME session of the registry has the id, or none with that id can receive.
abbrev NoSession : State → String → Type 0
NoSession s session = All (λ e. str_eq e.esme.session_id session ≡ false) s.esmes

abbrev NoReceiver : State → String → Type 0
NoReceiver s session =
    All (λ e. (str_eq e.esme.session_id session ≡ false) ⊎ (e.esme.can_receive ≡ false)) s.esmes

abbrev pub IsUnreachable : State → Call → Type 0
IsUnreachable s (submit bind m dict clock x) = NoBind s bind
IsUnreachable s (submit_multi bind m d dict clock x) = NoBind s bind
IsUnreachable s (data_call bind fields body dict clock x) = NoBind s bind
IsUnreachable s (cancel bind c x) = NoBind s bind
IsUnreachable s (query bind q x) = NoBind s bind
IsUnreachable s (replace bind r x) = NoBind s bind
IsUnreachable s (deliver session m dict x) = NoReceiver s session
IsUnreachable s (data_back session fields body dict x) = NoSession s session
IsUnreachable s (alert session a) = NoReceiver s session

found_bind-none :
    (bind : String) (bs : List BindSession)
    → All (λ b. str_eq b.name bind ≡ false) bs
    → found_bind bind (find (λ b. str_eq b.name bind) bs) ≡ err (bind_not_bound bind)
found_bind-none bind [] none_ = refl
found_bind-none bind (b ∷ bs) none_ = rw none_.0 (found_bind-none bind bs none_.1)

found_esme-none :
    (session : String) (es : List EsmeSession)
    → All (λ e. str_eq e.esme.session_id session ≡ false) es
    → found_esme session (find (λ e. str_eq e.esme.session_id session) es)
      ≡ err (session_not_bound session)
found_esme-none session [] none_ = refl
found_esme-none session (e ∷ es) none_ = rw none_.0 (found_esme-none session es none_.1)

found_esme-deaf :
    (session : String) (es : List EsmeSession)
    → All (λ e. (str_eq e.esme.session_id session ≡ false) ⊎ (e.esme.can_receive ≡ false)) es
    → receives (found_esme session (find (λ e. str_eq e.esme.session_id session) es)) ≡ false
found_esme-deaf session [] deaf = refl
found_esme-deaf session (e ∷ es) deaf =
    let ih = found_esme-deaf session es deaf.1 in
    elim deaf.0 [
      | inl other ↦ rw other ih
      | inr mute ↦ elim (Bool-cases (str_eq e.esme.session_id session)) [
        | inl same ↦ rw same mute
        | inr other ↦ rw other ih
      ]
    ]

unreachable-FindsNone : (s : State) (call : Call) → IsUnreachable s call → FindsNone s call
unfolding bind_handle esme_handle find_esme
unreachable-FindsNone s (submit bind m dict clock x) u = found_bind-none bind s.binds u
unreachable-FindsNone s (submit_multi bind m d dict clock x) u = found_bind-none bind s.binds u
unreachable-FindsNone s (data_call bind fields body dict clock x) u = found_bind-none bind s.binds u
unreachable-FindsNone s (cancel bind c x) u = found_bind-none bind s.binds u
unreachable-FindsNone s (query bind q x) u = found_bind-none bind s.binds u
unreachable-FindsNone s (replace bind r x) u = found_bind-none bind s.binds u
unreachable-FindsNone s (deliver session m dict x) u = found_esme-deaf session s.esmes u
unreachable-FindsNone s (data_back session fields body dict x) u = found_esme-none session s.esmes u
unreachable-FindsNone s (alert session a) u = found_esme-deaf session s.esmes u

module _ (from_command_status : ℕ → SmppError) (table : TlvTable) (lookups : TlvList)
    (runtime : Option State) where
  unfoldable pub perform : Call → Option (Sent Answer)
  perform (submit bind m dict clock x) =
      answered smpp_resp (submit_via from_command_status table lookups runtime bind m dict clock x)
  perform (submit_multi bind m d dict clock x) =
      answered smpp_resp
        (submit_multi_via from_command_status table lookups runtime bind m d dict clock x)
  perform (data_call bind fields body dict clock x) =
      answered smpp_resp
        (data_via from_command_status table lookups runtime bind fields body dict clock x)
  perform (cancel bind c x) =
      answered smpp_resp (cancel_via from_command_status table lookups runtime bind c x)
  perform (query bind q x) =
      answered query_resp (query_via from_command_status table lookups runtime bind q x)
  perform (replace bind r x) =
      answered smpp_resp (replace_via from_command_status table lookups runtime bind r x)
  perform (deliver session m dict x) =
      answered smpp_resp (deliver_to from_command_status table lookups runtime session m dict x)
  perform (data_back session fields body dict x) =
      answered smpp_resp
        (data_to from_command_status table lookups runtime session fields body dict x)
  perform (alert session a) =
      answered smpp_resp (alert_to from_command_status table lookups runtime session a)

  -- Whatever a script asks for, each request that reaches the codec has a body of at most 254 bytes where
  -- its PDU has a `short_message`, and at most 254 destinations.
  pub perform-Fits :
      (call : Call) (sent : Sent Answer) → perform call ≡ some sent → All Fits sent.wrote
  unfolding perform submit_via submit_multi_via data_via cancel_via query_via replace_via deliver_to
      data_to alert_to check_short_message require_state check_destinations
  perform-Fits (submit bind m dict clock x) sent h = ground arith
  perform-Fits (submit_multi bind m d dict clock x) sent h = ground arith
  perform-Fits (data_call bind fields body dict clock x) sent h = ground arith
  perform-Fits (cancel bind c x) sent h = ground arith
  perform-Fits (query bind q x) sent h = ground arith
  perform-Fits (replace bind r x) sent h = ground arith
  perform-Fits (deliver session m dict x) sent h = ground arith
  perform-Fits (data_back session fields body dict x) sent h = ground arith
  perform-Fits (alert session a) sent h = ground arith

  perform-FindsNone :
      (s : State)
      → runtime ≡ some s
      → (call : Call) → FindsNone s call
      → (sent : Sent Answer) → perform call ≡ some sent
      → (sent.wrote ≡ []) × (sent.state ≡ runtime) × ((a : Answer) → sent.result ≢ ok a)
  unfolding perform submit_via submit_multi_via data_via cancel_via query_via replace_via deliver_to
      data_to alert_to require_state check_can_receive
  perform-FindsNone s r (submit bind m dict clock x) u sent h =
      (ground arith, ground arith, λ a p. ground arith)
  perform-FindsNone s r (submit_multi bind m d dict clock x) u sent h =
      (ground arith, ground arith, λ a p. ground arith)
  perform-FindsNone s r (data_call bind fields body dict clock x) u sent h =
      (ground arith, ground arith, λ a p. ground arith)
  perform-FindsNone s r (cancel bind c x) u sent h =
      (ground arith, ground arith, λ a p. ground arith)
  perform-FindsNone s r (query bind q x) u sent h =
      (ground arith, ground arith, λ a p. ground arith)
  perform-FindsNone s r (replace bind q x) u sent h =
      (ground arith, ground arith, λ a p. ground arith)
  perform-FindsNone s r (deliver session m dict x) u sent h =
      (ground arith, ground arith, λ a p. ground arith)
  perform-FindsNone s r (data_back session fields body dict x) u sent h =
      (ground arith, ground arith, λ a p. ground arith)
  perform-FindsNone s r (alert session a) u sent h =
      (ground arith, ground arith, λ a p. ground arith)

  -- When no bind of the registry has the name that a helper is given, it writes nothing; nor does a helper
  -- whose ESME session is not in the registry, or cannot receive and is sent a `deliver_sm` or an
  -- `alert_notification`. Its result is an error and it leaves the state as it was.
  pub perform-unreachable :
      (s : State)
      → runtime ≡ some s
      → (call : Call) → IsUnreachable s call
      → (sent : Sent Answer) → perform call ≡ some sent
      → (sent.wrote ≡ []) × (sent.state ≡ runtime) × ((a : Answer) → sent.result ≢ ok a)
  perform-unreachable s r call u sent h =
      perform-FindsNone s r call (unreachable-FindsNone s call u) sent h
