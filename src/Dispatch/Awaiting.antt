-- ===== src/Dispatch/Awaiting.antt =====
-- How the result of a coroutine gets back to the event that waits for it: src/dispatch.rs, its
-- `await_handler` on the asyncio loop, `Completion` and `Started::settle`.
use siphon_smpp.Common.{
  ℕ, ◌+◌, ◌≡◌, refl, String, Bool, true, false, not, Option, none, some, List, [], ◌∷◌, leb,
  if◌then◌else◌, Result, ok, err, arith,
}
use siphon_smpp.Dispatch.{
  Value, DispatchError, python, not_settled, Fate, settles, fails, drops, hangs, Receiver, arrived,
  dropped, timed_out, pending, settle, submit_coroutine,
}

-- What Python raises: its text, and whether it is an `Exception`, where a `CancelledError` or a
-- `SystemExit` is not.
pub record Raised : Type 0 where
  pub error : String
  pub is_exception : Bool

-- How the coroutine ends inside the scope of its timeout, and what the scope's exit makes of that: an
-- expired scope gives its `TimeoutError`.
pub data Ending : Type 0 where
  returned : Value → Ending
  raised : (expired : Bool) → Raised → Ending

-- A call of the completion.
pub data Report : Type 0 where
  done : Value → Report
  fail : String → Report

-- What `await_handler` reports, and whether it raises what it caught. `timeout_error` is the text of the
-- `TimeoutError` that it makes.
unfoldable pub await_handler : (timeout_error : String) → Ending → Report × Bool
await_handler timeout_error (returned v) = (done v, false)
await_handler timeout_error (raised expired r) =
    (fail (if expired then timeout_error else r.error), not r.is_exception)

-- The completion's `finish` can be taken once; `sent` is what went into the oneshot.
pub record Completion (T : Type 0) : Type 0 where
  pub armed : Bool
  pub sent : Option (Result DispatchError T)

unfoldable pub new : {T : Type 0} → Completion T
new = record { armed = true; sent = none }

module _ {T : Type 0} (convert : Value → T) where
  abbrev outcome : Report → Result DispatchError T
  outcome (done v) = ok (convert v)
  outcome (fail e) = err (python e)

  unfoldable pub report : Report → Completion T → Completion T
  report r c = if c.armed then record { armed = false; sent = some (outcome r) } else c

-- What happens on the loop, with its instants: a report, or the completion goes unused.
pub data LoopEvent : Type 0 where
  reports : (at : ℕ) → Report → LoopEvent
  gone : (at : ℕ) → LoopEvent

-- In milliseconds.
abbrev pub settle_backstop : ℕ
settle_backstop = 5000

module _ {T : Type 0} (convert : Value → T) where
  abbrev received : Option (Result DispatchError T) → Receiver T → Receiver T
  received none otherwise = otherwise
  received (some r) otherwise = arrived r

  -- What the waiting event reads from the oneshot, until its deadline.
  unfoldable pub receive : (deadline : ℕ) → Completion T → List LoopEvent → Receiver T
  unfolding report
  receive deadline c [] = timed_out
  receive deadline c (reports at r ∷ events) =
      let c = report convert r c in
      let later = receive deadline c events in
      if leb at deadline then received c.sent later else timed_out
  receive deadline c (gone at ∷ events) =
      if leb at deadline then received c.sent dropped else timed_out

-- The coarse view of the same events.
abbrev pub fate_of : (deadline : ℕ) → List LoopEvent → Fate
fate_of deadline [] = hangs
fate_of deadline (reports at (done v) ∷ events) = if leb at deadline then settles v else hangs
fate_of deadline (reports at (fail e) ∷ events) = if leb at deadline then fails e else hangs
fate_of deadline (gone at ∷ events) = if leb at deadline then drops else hangs

-- What a coroutine that ends in this way gives.
abbrev pub verdict :
    {T : Type 0} → (Value → T) → (timeout_error : String) → Ending → Result DispatchError T
verdict convert timeout_error (returned v) = ok (convert v)
verdict convert timeout_error (raised true r) = err (python timeout_error)
verdict convert timeout_error (raised false r) = err (python r.error)

module _ {T : Type 0} (convert : Value → T) where
  -- Whatever happens on the loop, what the event reads is the fate of its coroutine: only the first report
  -- counts.
  pub receive-submit_coroutine :
      (deadline : ℕ) (events : List LoopEvent)
      → submit_coroutine (fate_of deadline events) convert
        ≡ ok (pending (receive convert deadline new events))
  unfolding receive new submit_coroutine
  receive-submit_coroutine deadline [] = refl
  receive-submit_coroutine deadline (reports at (done v) ∷ events) = ground arith
  receive-submit_coroutine deadline (reports at (fail e) ∷ events) = ground arith
  receive-submit_coroutine deadline (gone at ∷ events) = ground arith

  -- A coroutine that ends before the backstop gives its value, its exception, or the timeout if it expired,
  -- whatever is reported after; one that ends later is given up.
  pub await_handler-settle :
      (timeout_error : String) (timeout at : ℕ) (ending : Ending) (later : List LoopEvent)
      → settle (
          pending (
            receive convert
              (timeout + settle_backstop)
              new
              (reports at (await_handler timeout_error ending).0 ∷ later)))
        ≡ (if leb at (timeout + settle_backstop)
            then verdict convert timeout_error ending
            else err not_settled)
  unfolding receive new await_handler settle
  await_handler-settle timeout_error timeout at (returned v) later = ground arith
  await_handler-settle timeout_error timeout at (raised true r) later = ground arith
  await_handler-settle timeout_error timeout at (raised false r) later = ground arith
