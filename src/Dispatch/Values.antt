-- ===== src/Dispatch/Values.antt =====
-- What dispatch works on: src/dispatch.rs, its handlers, errors and jobs, and what Python, the executor
-- and the asyncio pool answer.
use siphon_smpp.Common.{ℕ, String, Bool, Option, Result}
use siphon_smpp.Pdu.{Pdu}
use siphon_smpp.Reply.{PduReply, Bind, BindResult, AlertNotification, Session}

-- What a handler returns; of any other object only its truth value matters, which may itself raise.
pub data Value : Type 0 where
  none_value : Value
  reply_value : PduReply → Value
  bind_value : BindResult → Value
  object : Option Bool → Value

-- The arguments of one event.
pub data Args : Type 0 where
  pdu_args : Pdu → Session → Args
  alert_args : AlertNotification → Session → Args
  bind_args : Bind → Args
  session_args : Session → Args

pub record RegisteredHandler : Type 0 where
  pub id : ℕ
  pub callable : Args → Result String Value
  pub is_async : Bool
  pub key : Option String

-- An entry of the registry, and the handler that the decorators stored in it, if they made it.
pub record Registration : Type 0 where
  pub kind : String
  pub handler : Option RegisteredHandler

pub data DispatchError : Type 0 where
  python : String → DispatchError
  job_failure : String → DispatchError
  loop_dropped : DispatchError
  not_settled : DispatchError

-- What becomes of a coroutine that is handed to the asyncio pool.
pub data Fate : Type 0 where
  refused : String → Fate
  settles : Value → Fate
  fails : String → Fate
  drops : Fate
  hangs : Fate

-- `job n` is the failure of the `n`-th executor job of an event, `build` that of making its arguments.
pub record Engine : Type 0 where
  pub job : ℕ → Option String
  pub build : Args → Option String
  pub pool : ℕ → Value → Fate

-- The oneshot of a waiting coroutine: its converted result, or how none came.
pub data Receiver (T : Type 0) : Type 0 where
  arrived : Result DispatchError T → Receiver T
  dropped : Receiver T
  timed_out : Receiver T

pub data Started (T : Type 0) : Type 0 where
  done : Result DispatchError T → Started T
  pending : Receiver T → Started T
