-- ===== src/Examples/Messages.antt =====
-- A session and a message that it sends, and a bind and a request on it: src/runtime.rs, src/sends.rs.
use siphon_smpp.Common.{◌+◌, ◌-◌, ◌*◌, ◌≤◌, ◌≡◌, refl, false, ok, none, some, [], ◌∷◌, arith}
use siphon_smpp.RateLimiter.{Bucket, token, nanos_per_sec, try_acquire, acquire, acquire_round}
use siphon_smpp.Runtime.{
  State, Smsc, Handled, proceed, find_esme, session_throttle, with_throttle, admit_inbound, limiter,
}
use siphon_smpp.RateLimiter
use siphon_smpp.Runtime.Server.{data_request, on_request, on_esme_bound}
use siphon_smpp.Runtime.Responses.{Response}
use siphon_smpp.Runtime.Answers.{on_request-verdict}
use siphon_smpp.Runtime.Steps.{request, send_turn}
use siphon_smpp.Runtime.Tally.{began, and_then}
use siphon_smpp.Runtime.Throughput.{Traffic, Traffic-bounded}
use siphon_smpp.Runtime.BindThroughput.{Outflow, Outflow-bounded}
use siphon_smpp.Runtime.BindTurns.{bind_throttle}
use siphon_smpp.Runtime.Client.{BindListener, on_smsc_bound}
use siphon_smpp.Sends.{BindTarget, bind_handle, pace, put_bind_throttle}
use siphon_smpp.Examples.Fixtures.{script, esme, is_success, empty_state, data_fields}

abbrev bound : State
bound = (on_esme_bound script esme "s1" 100 empty_state).0

-- The limiter of the session after its first message.
abbrev one_taken : Bucket
one_taken = (try_acquire 150 (RateLimiter.new 2 100)).0

abbrev asked : State
asked = with_throttle "s1" one_taken bound

let_through : admit_inbound bound "s1" (150 ∷ []) ≡ some (proceed, asked)
unfolding admit_inbound find_esme on_esme_bound limiter try_acquire RateLimiter.new
let_through = refl

answered :
    (h : Handled Response) × (on_request is_success script "10.0.0.1" "s1"
        (data_request data_fields)
        (150 ∷ [])
        bound
      ≡ some h)
answered =
    let (h, e, v, c) =
      on_request-verdict is_success script "10.0.0.1" "s1" (data_request data_fields) (150 ∷ [])
        proceed bound asked let_through in
    (h, e)

one_message : Traffic is_success "s1" 1 bound answered.0.state
unfolding admit_inbound find_esme on_esme_bound limiter try_acquire RateLimiter.new
one_message =
    and_then 0 1 bound bound answered.0.state (began bound)
      (request script "10.0.0.1" "s1" (data_request data_fields) (150 ∷ []) bound answered.0
        answered.1)
      (λ _. (omega arith, tt)) refl

free : find_esme empty_state "s1" ≡ none
unfolding find_esme
free = refl

Traffic-bounded_example :
    (b : Bucket) × (session_throttle answered.0.state "s1" ≡ some b)
    × (1 * token ≤ 2 * (nanos_per_sec + (b.last - 100)))
Traffic-bounded_example =
    Traffic-bounded is_success script esme 100 1 empty_state answered.0.state free (omega arith)
      one_message

abbrev smsc : Smsc
smsc = record { ptr = 4; session_id = "b1"; system_id = "smsc"; server_address = "10.0.0.9" }

abbrev listener : BindListener
listener = record {
  bind_name = "up";
  max_msg_per_sec = 2;
  response_timer = 5;
  connect_failed = false;
}

abbrev up : State
up = (on_smsc_bound listener script smsc "b1" 100 empty_state).0

abbrev target : BindTarget
target = record { smsc = smsc; throttle = some (RateLimiter.new 2 100); response_timer = 5 }

abbrev taken_up : State
taken_up = record up { binds = put_bind_throttle "up" one_taken up.binds }

found : bind_handle up "up" ≡ ok target
unfolding bind_handle on_smsc_bound limiter RateLimiter.new
found = refl

turn : pace "up" target.throttle (150 ∷ []) up ≡ some taken_up
unfolding pace on_smsc_bound limiter try_acquire acquire acquire_round RateLimiter.new
turn = refl

one_request : Outflow is_success "up" 1 up taken_up
unfolding on_smsc_bound limiter RateLimiter.new
one_request =
    and_then 0 1 up up taken_up (began up) (send_turn "up" target (150 ∷ []) up taken_up found turn)
      (λ _. (omega arith, tt)) refl

Outflow-bounded_example :
    (b : Bucket) × (bind_throttle taken_up "up" ≡ some b)
    × (1 * token ≤ 2 * (nanos_per_sec + (b.last - 100)))
Outflow-bounded_example =
    Outflow-bounded is_success listener script smsc "b1" 100 1 empty_state taken_up refl
      (omega arith) one_request
