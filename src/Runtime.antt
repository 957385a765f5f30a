-- ===== src/Runtime.antt =====
-- The shared state of the runtime and its metrics: src/runtime.rs `State`, src/metrics.rs. Every handle
-- that the source keeps in an `Arc` has an address of its own, `ptr`. A limiter is shared by all who
-- hold it; it is kept in the session's entry and written back there.
pub mod Responses
pub mod Server
pub mod Client
pub mod Answers
pub mod Recorded
pub mod Counts
pub mod Deliveries
pub mod Registry
pub mod Supervisor
pub mod Backoff
pub mod Refusals
pub mod Steps
pub mod Effects
pub mod RequestEffects
pub mod Roster
pub mod Kept
pub mod SessionLimits
pub mod Invariant
pub mod Startup
pub mod Listening
pub mod Authorization
pub mod Passing
pub mod Takings
pub mod Throughput
pub mod BindTurns
pub mod Tally
pub mod BindThroughput
pub mod BindClient
use siphon_smpp.Common.{
  ℕ, suc, ◌+◌, String, Bool, true, false, not, Option, none, some, List, [], ◌∷◌, ◌++◌, ltb, ◌==◌,
  if◌then◌else◌, str_eq, find, any, retain, length, is_some, unwrap_or, option_map, Result, ok, err,
}
use siphon_smpp.Config.Types.{ThrottleAction, pace, reject}
use siphon_smpp.Dispatch.{Engine, Registration, DispatchError}
use siphon_smpp.Dispatch
use siphon_smpp.Pdu.{Pdu}
use siphon_smpp.RateLimiter.{Bucket, acquire, try_acquire}
use siphon_smpp.RateLimiter
use siphon_smpp.Reply.{PduReply, default_ok, Session, esme_server}

pub data Direction : Type 0 where
  inbound egress : Direction

pub data Label : Type 0 where
  accepted rejected : Label

pub data Metric : Type 0 where
  pdu_handled : Direction → String → Label → Metric
  throttled : Direction → Metric
  bind_reconnect : String → Metric
  dispatch_error : String → Metric
  dispatch_duration : String → Metric
  bind_request : Label → Metric
  connect_failure : String → Metric

-- The codec's handle of a bound ESME, and of an SMSC that we are bound to.
pub record Esme : Type 0 where
  pub ptr : ℕ
  pub session_id : String
  pub system_id : String
  pub client_address : String
  pub can_receive : Bool

pub record Smsc : Type 0 where
  pub ptr : ℕ
  pub session_id : String
  pub system_id : String
  pub server_address : String

pub record EsmeSession : Type 0 where
  pub esme : Esme
  pub throttle : Option Bucket
  pub response_timer : ℕ

pub record BindSession : Type 0 where
  pub name : String
  pub smsc : Smsc
  pub throttle : Option Bucket
  pub response_timer : ℕ

-- `metrics` is what was counted, newest first, in a store that `metrics_enabled` says is there.
pub record State : Type 0 where
  pub binds : List BindSession
  pub esmes : List EsmeSession
  pub inbound_max_mps : ℕ
  pub inbound_throttle_action : ThrottleAction
  pub inbound_response_timer : ℕ
  pub listen_failure : Option String
  pub metrics_enabled : Bool
  pub metrics : List Metric

unfoldable pub record_metric : Metric → State → State
record_metric m s = if s.metrics_enabled then record s { metrics = m ∷ s.metrics } else s

unfoldable pub sample_binds : State → ℕ × ℕ
sample_binds s = (length s.binds, length s.esmes)

unfoldable pub bind_gone : State → Smsc → Bool
bind_gone s smsc = not (any (λ b. b.smsc.ptr == smsc.ptr) s.binds)

unfoldable pub esme_gone : State → Esme → Bool
esme_gone s esme = not (any (λ e. e.esme.ptr == esme.ptr) s.esmes)

unfoldable pub find_esme : State → String → Option EsmeSession
find_esme s session_id = find (λ e. str_eq e.esme.session_id session_id) s.esmes

-- The limiter of a new session; a rate of 0 is no limit.
unfoldable pub limiter : (rate now : ℕ) → Option Bucket
limiter rate now = if ltb 0 rate then some (RateLimiter.new rate now) else none

pub data InboundAdmit : Type 0 where
  proceed refused : InboundAdmit

-- Write the limiter of the first session with this id back.
unfoldable pub put_throttle : String → Bucket → List EsmeSession → List EsmeSession
put_throttle session_id b [] = []
put_throttle session_id b (e ∷ es) =
    if str_eq e.esme.session_id session_id
    then record e { throttle = some b } ∷ es
    else e ∷ put_throttle session_id b es

abbrev pub with_throttle : String → Bucket → State → State
with_throttle session_id b s = record s { esmes = put_throttle session_id b s.esmes }

abbrev pub session_throttle : State → String → Option Bucket
session_throttle s session_id = elim (find_esme s session_id) [ none ↦ none | some e ↦ e.throttle ]

abbrev first_reading : List ℕ → Option ℕ
first_reading [] = none
first_reading (now ∷ later) = some now

-- `Pace`: the limiter is waited for, and a wait is counted.
abbrev pace_inbound : String → Option (Bucket × Bool) → State → Option (InboundAdmit × State)
pace_inbound session_id none s = none
pace_inbound session_id (some (b, waited)) s =
    let s = with_throttle session_id b s in
    some (proceed, if waited then record_metric (throttled inbound) s else s)

-- `Reject`: a PDU that finds no token is refused, and counted.
abbrev gate_inbound : String → Bucket × Bool → State → InboundAdmit × State
gate_inbound session_id (b, granted) s =
    let s = with_throttle session_id b s in
    if granted then (proceed, s) else (refused, record_metric (throttled inbound) s)

-- `clock` gives the instants at which the limiter is asked; `none` while a paced PDU still waits.
unfoldable pub admit_inbound : State → String → List ℕ → Option (InboundAdmit × State)
unfolding find_esme record_metric put_throttle
admit_inbound s session_id clock = elim (session_throttle s session_id) [
  | none ↦ some (proceed, s)
  | some limiter ↦ elim s.inbound_throttle_action [
    | pace ↦ pace_inbound session_id (acquire clock limiter) s
    | reject ↦ elim (first_reading clock) [
      | none ↦ none
      | some now ↦ some (gate_inbound session_id (try_acquire now limiter) s)
    ]
  ]
]

unfoldable pub esme_session : State → String → String → Session
unfolding find_esme
esme_session s session_id client_address = record {
  kind = esme_server;
  session_id = session_id;
  system_id = unwrap_or (option_map (λ e. e.esme.system_id) (find_esme s session_id)) "";
  client_addr = client_address;
}

-- The script at the moment of an event: what the interpreter answers, and what is registered.
pub record Script : Type 0 where
  pub engine : Engine
  pub source : List Registration

-- What handling an event leaves: the answer, the state and the script handlers that ran.
pub record Handled (R : Type 0) : Type 0 where
  pub answer : R
  pub state : State
  pub called : List ℕ

abbrev count_dispatch : String → Result DispatchError PduReply → State → State
count_dispatch command (ok r) s = record_metric (dispatch_duration command) s
count_dispatch command (err e) s =
    record_metric (dispatch_error command) (record_metric (dispatch_duration command) s)

unfoldable pub dispatch_pdu_opt :
    Script → String → Pdu → Session → State → Handled (Option (Result DispatchError PduReply))
unfolding record_metric
dispatch_pdu_opt script command pdu session s =
    let (result, called) = Dispatch.pdu script.engine script.source command pdu session in
    record {
      answer = result;
      state = elim result [ none ↦ s | some r ↦ count_dispatch command r s ];
      called = called;
    }

unfoldable pub dispatch_pdu :
    Script → String → Pdu → Session → State → Handled (Result DispatchError PduReply)
unfolding dispatch_pdu_opt
dispatch_pdu script command pdu session s =
    let d = dispatch_pdu_opt script command pdu session s in
    record {
      answer = elim d.answer [ none ↦ ok default_ok | some r ↦ r ];
      state = d.state;
      called = d.called;
    }
