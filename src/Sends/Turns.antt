-- ===== src/Sends/Turns.antt =====
-- What a send helper changes of the state: src/sends.rs `pace`.
use siphon_smpp.Common.{
  Result-cases, ℕ, ◌≡◌, inl, inr, ◌⊎◌, arith, String, Bool, Option, some, List, ok, is_empty,
  Bool-cases, Option-cases, ◌≢◌, [], if◌then◌else◌,
}
use siphon_smpp.Status.{SmppError}
use siphon_smpp.Tlv.{Bytes, PyValue, TlvTable}
use siphon_smpp.Pdu.{TlvList, DataSm}
use siphon_smpp.Outcome.{Response as Answered}
use siphon_smpp.RateLimiter.{Bucket, acquire}
use siphon_smpp.Runtime.{State, record_metric, throttled, egress}
use siphon_smpp.Sends.{
  BindTarget, bind_handle, put_bind_throttle, pace, Sent, Message, MultiMessage, Exchange,
  require_state,
}
use siphon_smpp.Sends.Outbound.{
  Destinations, submit_via, submit_multi_via, data_via, cancel_via, query_via, replace_via,
}
use siphon_smpp.Sends.Inbound.{deliver_to, data_to, alert_to}
use siphon_smpp.Sends.Calls.{
  Call, submit, submit_multi, data_call, cancel, query, replace, deliver, data_back, alert, Answer,
  perform,
}

module _ (from_command_status : ℕ → SmppError) (table : TlvTable) (lookups : TlvList)
    (s s' : State) where
  -- The state is as it was; or the bind is in the registry and has a limiter, a request was written, the
  -- limiter let it through at one of the instants of the clock, and all that is new is that limiter in the
  -- entry of the bind, and one entry in the metrics if the request had to wait.
  unfoldable pub Turn : (bind : String) (clock : List ℕ) → Sent Answer → Type 0
  Turn bind clock sent =
      (s ≡ s')
      ⊎ ((target : BindTarget) × (limiter : Bucket) × (limiter' : Bucket) × (waited : Bool)
          × (bind_handle s bind ≡ ok target)
          × (target.throttle ≡ some limiter)
          × (sent.wrote ≢ [])
          × (acquire clock limiter ≡ some (limiter', waited))
          × (s' ≡ (
              let t : State = record s { binds = put_bind_throttle bind limiter' s.binds } in
              if waited then record_metric (throttled egress) t else t)))

  pace-Turn :
      (bind : String) (clock : List ℕ) (sent : Sent Answer) (target : BindTarget)
      → bind_handle s bind ≡ ok target
      → sent.wrote ≢ []
      → pace bind target.throttle clock s ≡ some s'
      → Turn bind clock sent
  unfolding Turn pace
  pace-Turn bind clock sent target found wrote turn = elim (Option-cases target.throttle) [
    | inl free ↦ inl (ground arith)
    | inr (limiter, limited) ↦ elim (Option-cases (acquire clock limiter)) [
      | inl waits ↦ absurd (ground arith)
      | inr ((limiter', waited), granted) ↦
          inr (target, limiter, limiter', waited, found, limited, wrote, granted, ground arith)
    ]
  ]

  -- What a call may do to the state: a turn on its bind where its request is paced, and nothing else.
  unfoldable pub Changes : Call → Sent Answer → Type 0
  unfolding Turn
  Changes (submit bind m dict clock x) sent = Turn bind clock sent
  Changes (submit_multi bind m d dict clock x) sent = Turn bind clock sent
  Changes (data_call bind fields body dict clock x) sent = Turn bind clock sent
  Changes (cancel bind c x) sent = s ≡ s'
  Changes (query bind q x) sent = s ≡ s'
  Changes (replace bind r x) sent = s ≡ s'
  Changes (deliver session m dict x) sent = s ≡ s'
  Changes (data_back session fields body dict x) sent = s ≡ s'
  Changes (alert session a) sent = s ≡ s'

  -- What a call leaves.
  Leaves : Call → Sent Answer → Type 0
  Leaves call sent =
      (perform from_command_status table lookups (some s) call ≡ some sent) × (sent.state ≡ some s')

  submit_via-Turn :
      (bind : String) (m : Message) (dict : Option (List (PyValue × PyValue))) (clock : List ℕ)
      (x : Exchange Answered) (sent : Sent Answer)
      → Leaves (submit bind m dict clock x) sent
      → Turn bind clock sent
  unfolding Leaves Turn perform submit_via require_state
  submit_via-Turn bind m dict clock x sent (h, left) = elim (Result-cases (bind_handle s bind)) [
    | inl (e, missing) ↦ inl (ground arith)
    | inr (target, found) ↦ elim (Bool-cases (is_empty sent.wrote)) [
      | inl quiet ↦ inl (ground arith)
      | inr wrote ↦ pace-Turn bind clock sent target found (λ e. ground arith) (ground arith)
    ]
  ]

  submit_multi_via-Turn :
      (bind : String) (m : MultiMessage) (d : Destinations)
      (dict : Option (List (PyValue × PyValue))) (clock : List ℕ) (x : Exchange Answered)
      (sent : Sent Answer)
      → Leaves (submit_multi bind m d dict clock x) sent
      → Turn bind clock sent
  unfolding Leaves Turn perform submit_multi_via require_state
  submit_multi_via-Turn bind m d dict clock x sent (h, left) =
      elim (Result-cases (bind_handle s bind)) [
        | inl (e, missing) ↦ inl (ground arith)
        | inr (target, found) ↦ elim (Bool-cases (is_empty sent.wrote)) [
          | inl quiet ↦ inl (ground arith)
          | inr wrote ↦ pace-Turn bind clock sent target found (λ e. ground arith) (ground arith)
        ]
      ]

  data_via-Turn :
      (bind : String) (fields : DataSm) (body : Bytes) (dict : Option (List (PyValue × PyValue)))
      (clock : List ℕ) (x : Exchange Answered) (sent : Sent Answer)
      → Leaves (data_call bind fields body dict clock x) sent
      → Turn bind clock sent
  unfolding Leaves Turn perform data_via require_state
  data_via-Turn bind fields body dict clock x sent (h, left) =
      elim (Result-cases (bind_handle s bind)) [
        | inl (e, missing) ↦ inl (ground arith)
        | inr (target, found) ↦ elim (Bool-cases (is_empty sent.wrote)) [
          | inl quiet ↦ inl (ground arith)
          | inr wrote ↦ pace-Turn bind clock sent target found (λ e. ground arith) (ground arith)
        ]
      ]

  -- A call changes the state at most by one turn on its bind, and only if it wrote a request that is
  -- paced: a `submit_sm`, a `submit_sm_multi` or a `data_sm` on a bind that has a limiter. Such a turn takes
  -- its token from that limiter and leaves everything else as it was but for one metric if it waited.
  pub perform-Changes :
      (call : Call) (sent : Sent Answer)
      → perform from_command_status table lookups (some s) call ≡ some sent
      → sent.state ≡ some s'
      → Changes call sent
  unfolding Leaves perform cancel_via query_via replace_via deliver_to data_to alert_to
      require_state Changes
  perform-Changes (submit bind m dict clock x) sent h left =
      submit_via-Turn bind m dict clock x sent (h, left)
  perform-Changes (submit_multi bind m d dict clock x) sent h left =
      submit_multi_via-Turn bind m d dict clock x sent (h, left)
  perform-Changes (data_call bind fields body dict clock x) sent h left =
      data_via-Turn bind fields body dict clock x sent (h, left)
  perform-Changes (cancel bind c x) sent h left = ground arith
  perform-Changes (query bind q x) sent h left = ground arith
  perform-Changes (replace bind r x) sent h left = ground arith
  perform-Changes (deliver session m dict x) sent h left = ground arith
  perform-Changes (data_back session fields body dict x) sent h left = ground arith
  perform-Changes (alert session a) sent h left = ground arith
