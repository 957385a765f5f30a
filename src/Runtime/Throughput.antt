-- ===== src/Runtime/Throughput.antt =====
-- How many messages of a session reach the script over a run: src/runtime.rs, its handlers and limiters.
use siphon_smpp.Common.{
  ℕ, ◌+◌, refl, ◌-◌, ◌*◌, ◌≤◌, ◌<◌, ◌≡◌, ap, ◌∙◌, String, Bool, true, false, none, some, str_eq,
  eq_iff, if◌then◌else◌, arith,
}
use siphon_smpp.RateLimiter.{Bucket, token, nanos_per_sec}
use siphon_smpp.RateLimiter
use siphon_smpp.RateLimiter.Ledger.{new-Spends}
use siphon_smpp.Runtime.Tally.{Tally, Tally-Spends}
use siphon_smpp.Runtime.{State, Script, Esme, Smsc, find_esme, session_throttle, limiter}
use siphon_smpp.Runtime.Server.{on_esme_bound}
use siphon_smpp.Runtime.Responses.{Response}
use siphon_smpp.Runtime.Client.{BindListener, on_smsc_bound, on_smsc_unbound}
use siphon_smpp.Runtime.Answers.{admission}
use siphon_smpp.Runtime.Registry.{find-append_new}
use siphon_smpp.Runtime.Kept.{
  on_bind_transmitter-Alike, on_bind_receiver-Alike, on_bind_transceiver-Alike,
  on_listen_failed-Alike, after_attempt-Alike, on_connection_failed-Alike, on_deliver_sm-Alike,
  on_data_sm-Alike, on_alert_notification-Alike,
}
use siphon_smpp.Runtime.SessionLimits.{throttle_of}
use siphon_smpp.Runtime.Roster.{pace-esmes}
use siphon_smpp.Runtime.Steps.{
  Step, esme_bound, esme_unbound, request, bind_transmitter, bind_receiver, bind_transceiver,
  listen_failed, smsc_bound, smsc_unbound, connection_failed, delivery, data_delivery, alert,
  attempt_over, send_turn,
}
use siphon_smpp.Runtime.Takings.{
  messages_of, InTime, Kept, kept, bound-Kept, unbound-Kept, request-Kept,
}

module _ (listener : BindListener) (script : Script) (i : String) (s : State) where
  smsc_bound-esmes :
      (smsc : Smsc) (now : ℕ) → (on_smsc_bound listener script smsc i now s).0.esmes ≡ s.esmes
  unfolding on_smsc_bound
  smsc_bound-esmes smsc now = refl

  smsc_unbound-esmes : (on_smsc_unbound listener script i s).0.esmes ≡ s.esmes
  unfolding on_smsc_unbound
  smsc_unbound-esmes = refl

module _ (is_success : Response → Bool) (id : String) where
  -- The messages of the session `id` that a step brings to the script.
  abbrev pub brought : (s t : State) → Step is_success s t → ℕ
  brought _ _ (request script address other r clock s h e) =
      if str_eq other id then messages_of r (admission s other clock r) else 0
  brought _ _ _ = 0

  -- The session outlives the step, and its limiter sees no clock that runs backwards.
  abbrev pub Continues : (s t : State) → Step is_success s t → Type 0
  Continues _ _ (esme_unbound script other s) = str_eq other id ≡ false
  Continues _ _ (request script address other r clock s h e) =
      str_eq other id ≡ true → InTime clock (session_throttle s id)
  Continues _ _ _ = Unit

  -- A run over which the session lasts, and how many of its messages were let through.
  abbrev pub Traffic : ℕ → State → State → Type 0
  Traffic = Tally is_success brought Continues

  pub step-Kept :
      (s t : State) (step : Step is_success s t) (b : Bucket)
      → Continues s t step
      → session_throttle s id ≡ some b
      → Kept id s t b (brought s t step)
  step-Kept _ _ (esme_bound script esme now s free) b c has =
      bound-Kept id script esme now s b free has
  step-Kept _ _ (esme_unbound script other s) b c has = unbound-Kept id script other s b c has
  step-Kept _ _ (request script address other r clock s h e) b c has =
      request-Kept id is_success script address other r clock s h b e c has
  step-Kept _ _ (bind_transmitter s) b c has = kept id s _ b (on_bind_transmitter-Alike s).esmes has
  step-Kept _ _ (bind_receiver s) b c has = kept id s _ b (on_bind_receiver-Alike s).esmes has
  step-Kept _ _ (bind_transceiver script system_id password address s) b c has =
      kept id s _ b (on_bind_transceiver-Alike script system_id password address s).esmes has
  step-Kept _ _ (listen_failed error s) b c has =
      kept id s _ b (on_listen_failed-Alike error s).esmes has
  step-Kept _ _ (smsc_bound listener script smsc i now s) b c has =
      kept id s _ b (smsc_bound-esmes listener script i s smsc now) has
  step-Kept _ _ (smsc_unbound listener script i s) b c has =
      kept id s _ b (smsc_unbound-esmes listener script i s) has
  step-Kept _ _ (connection_failed listener s) b c has =
      kept id s _ b (on_connection_failed-Alike listener s).esmes has
  step-Kept _ _ (delivery listener script i address r s) b c has =
      kept id s _ b (on_deliver_sm-Alike listener script i address r s).esmes has
  step-Kept _ _ (data_delivery listener script i address r s) b c has =
      kept id s _ b (on_data_sm-Alike listener script i address is_success r s).esmes has
  step-Kept _ _ (alert listener script i address a s) b c has =
      kept id s _ b (on_alert_notification-Alike listener script i address a s).esmes has
  step-Kept _ _ (attempt_over name backoff outcome s) b c has =
      kept id s _ b (after_attempt-Alike name backoff outcome s).esmes has
  step-Kept _ _ (send_turn bind target clock s s' found turn) b c has =
      kept id s s' b (pace-esmes bind target.throttle clock s s' turn) has

bound_throttle :
    (script : Script) (esme : Esme) (now : ℕ) (s : State)
    → find_esme s esme.session_id ≡ none
    → 0 < s.inbound_max_mps
    → session_throttle (on_esme_bound script esme esme.session_id now s).0 esme.session_id
      ≡ some (RateLimiter.new s.inbound_max_mps now)
unfolding find_esme on_esme_bound limiter
bound_throttle script esme now s free capped =
    ap throttle_of (
      find-append_new esme.session_id s.esmes _ free
        ((eq_iff esme.session_id esme.session_id).1 refl))
    ∙ ground arith

-- From the bind of an ESME on, over any run in which its session lasts, its limiter stays, and the
-- messages of the session that it lets through are at most the cap for one second and for the time up to
-- its last use, whatever else happens in the run.
pub Traffic-bounded :
    (is_success : Response → Bool) (script : Script) (esme : Esme) (now n : ℕ) (s t : State)
    → find_esme s esme.session_id ≡ none
    → 0 < s.inbound_max_mps
    → Traffic is_success esme.session_id n (on_esme_bound script esme esme.session_id now s).0 t
    → (b : Bucket) × (session_throttle t esme.session_id ≡ some b)
      × (n * token ≤ s.inbound_max_mps * (nanos_per_sec + (b.last - now)))
Traffic-bounded is_success script esme now n s t free capped traffic =
    let id = esme.session_id in
    let first = bound_throttle script esme now s free capped in
    let (b, has, spends) =
      Tally-Spends is_success (brought is_success id) (Continues is_success id)
        (λ s. session_throttle s id) (step-Kept is_success id) n
        (on_esme_bound script esme id now s).0 t (RateLimiter.new s.inbound_max_mps now) traffic
        first in
    (b, has, new-Spends s.inbound_max_mps now n b capped spends)
