-- ===== src/Runtime/Invariant.antt =====
-- What holds of the sessions of src/runtime.rs `State` over any run: their limiters are those of the
-- settings.
use mathlib.Core.Option.{some-injective}
use siphon_smpp.Common.{
  ℕ, ◌≡◌, sym, ◌∙◌, subst, inl, inr, String, Bool, false, not, Option, none, some, List, str_eq,
  find, All, arith, Option-cases, ok,
}
use siphon_smpp.RateLimiter.{Bucket, acquire}
use siphon_smpp.RateLimiter.Bounds.{IsValid}
use siphon_smpp.Runtime.{
  State, Script, Esme, Smsc, BindSession, find_esme, with_throttle, record_metric, limiter,
}
use siphon_smpp.Runtime.Server.{on_esme_bound, on_esme_unbound}
use siphon_smpp.Runtime.Responses.{Response}
use siphon_smpp.Runtime.Client.{BindListener, on_smsc_bound, on_smsc_unbound}
use siphon_smpp.Runtime.Registry.{named}
use siphon_smpp.Runtime.RequestEffects.{on_request-Effect}
use siphon_smpp.Runtime.Effects.{Alike, Effect, kept, limited, acquire_loop-Taken}
use siphon_smpp.Runtime.Kept.{
  on_bind_transmitter-Alike, on_bind_receiver-Alike, on_bind_transceiver-Alike,
  on_listen_failed-Alike, after_attempt-Alike, on_connection_failed-Alike, on_deliver_sm-Alike,
  on_data_sm-Alike, on_alert_notification-Alike,
}
use siphon_smpp.Sends.{BindTarget, bind_handle, put_bind_throttle, pace}
use siphon_smpp.Runtime.Steps.{
  Step, esme_bound, esme_unbound, request, bind_transmitter, bind_receiver, bind_transceiver,
  listen_failed, smsc_bound, smsc_unbound, connection_failed, delivery, data_delivery, alert,
  attempt_over, send_turn, Run, start, followed,
}
use siphon_smpp.Runtime.SessionLimits.{
  LimiterOf, Limited, Usable, new-LimiterOf, new-Usable, All-append, All-retain, throttle_of,
  All-put_throttle, All-put_bind_throttle, found_bind-Usable,
}

module _ (cap timer : ℕ) where
  -- The settings stand, each ESME session has the limiter and the timer that they say, and each bind's
  -- limiter is usable.
  unfoldable pub WellFormed : State → Type 0
  WellFormed s =
      (s.inbound_max_mps ≡ cap)
      × (s.inbound_response_timer ≡ timer)
      × All (Limited cap timer) s.esmes
      × All (λ b. Usable b.throttle) s.binds

  Alike-WellFormed : (s s' : State) → Alike s s' → WellFormed s → WellFormed s'
  unfolding WellFormed
  Alike-WellFormed s s' a (c, t, es, bs) = (
    a.rate ∙ c,
    a.timer ∙ t,
    subst (All (Limited cap timer)) (sym a.esmes) es,
    subst (All (λ b. Usable b.throttle)) (sym a.binds) bs,
  )

  Effect-WellFormed : (s s' : State) → Effect s s' → WellFormed s → WellFormed s'
  unfolding WellFormed find_esme
  Effect-WellFormed s s' (kept a) w = Alike-WellFormed s s' a w
  Effect-WellFormed s s' (limited id b b' h taken a) (c, t, es, bs) =
      let h' : throttle_of (find (named id) s.esmes) ≡ some b = h in
      Alike-WellFormed (with_throttle id b' s) s' a
        (c, t, All-put_throttle cap timer id b b' s.esmes taken h' es, bs)

  bound-WellFormed :
      (script : Script) (esme : Esme) (id : String) (now : ℕ) (s : State)
      → WellFormed s
      → WellFormed (on_esme_bound script esme id now s).0
  unfolding WellFormed on_esme_bound Limited
  bound-WellFormed script esme id now s (c, t, es, bs) = (
    c,
    t,
    All-append (Limited cap timer) s.esmes _ es (
      subst (λ c. LimiterOf c (limiter s.inbound_max_mps now)) c
          (new-LimiterOf s.inbound_max_mps now),
      t,
    ),
    bs,
  )

  unbound-WellFormed :
      (script : Script) (id : String) (s : State)
      → WellFormed s
      → WellFormed (on_esme_unbound script id s).0
  unfolding WellFormed on_esme_unbound
  unbound-WellFormed script id s (c, t, es, bs) =
      (c, t, All-retain (Limited cap timer) (λ e. not (named id e)) s.esmes es, bs)

  module _ (listener : BindListener) (script : Script) (id : String) (s : State) where
    smsc_bound-WellFormed :
        (smsc : Smsc) (now : ℕ)
        → WellFormed s
        → WellFormed (on_smsc_bound listener script smsc id now s).0
    unfolding WellFormed on_smsc_bound
    smsc_bound-WellFormed smsc now (c, t, es, bs) = (
      c,
      t,
      es,
      All-append (λ (b : BindSession). Usable b.throttle) s.binds _ bs
          (new-Usable listener.max_msg_per_sec now),
    )

    smsc_unbound-WellFormed : WellFormed s → WellFormed (on_smsc_unbound listener script id s).0
    unfolding WellFormed on_smsc_unbound
    smsc_unbound-WellFormed (c, t, es, bs) = (
      c,
      t,
      es,
      All-retain (λ (b : BindSession). Usable b.throttle) (λ t. not (str_eq t.smsc.session_id id))
          s.binds bs,
    )

  paced-WellFormed :
      (bind : String) (b' : Bucket) (s : State)
      → IsValid b'
      → WellFormed s
      → WellFormed (record s { binds = put_bind_throttle bind b' s.binds })
  unfolding WellFormed
  paced-WellFormed bind b' s v (c, t, es, bs) =
      (c, t, es, All-put_bind_throttle bind b' s.binds v bs)

  pace-WellFormed :
      (bind : String) (throttle : Option Bucket) (clock : List ℕ) (s s' : State)
      → Usable throttle
      → pace bind throttle clock s ≡ some s'
      → WellFormed s
      → WellFormed s'
  unfolding pace Usable record_metric acquire
  pace-WellFormed bind none clock s s' u h w = subst WellFormed (some-injective s s' h) w
  pace-WellFormed bind (some b) clock s s' u h w = elim (Option-cases (acquire clock b)) [
    | inl e ↦ absurd (ground arith)
    | inr ((b', waited), e) ↦
        let t : State = record s { binds = put_bind_throttle bind b' s.binds } in
        let a : Alike t s' = record {
          esmes = ground arith;
          binds = ground arith;
          rate = ground arith;
          timer = ground arith;
          failure = λ error was. ground arith;
        } in
        let taken = acquire_loop-Taken clock false waited b b' e in
        Alike-WellFormed t s' a (paced-WellFormed bind b' s (taken.valid u) w)
  ]

  send_turn-WellFormed :
      (bind : String) (target : BindTarget) (clock : List ℕ) (s s' : State)
      → bind_handle s bind ≡ ok target
      → pace bind target.throttle clock s ≡ some s'
      → WellFormed s
      → WellFormed s'
  unfolding bind_handle WellFormed
  send_turn-WellFormed bind target clock s s' found turn w =
      pace-WellFormed bind target.throttle clock s s'
        (found_bind-Usable bind target s.binds w.3 found) turn w

  module _ (is_success : Response → Bool) where
    Step-WellFormed : (s s' : State) → Step is_success s s' → WellFormed s → WellFormed s'
    Step-WellFormed _ _ (esme_bound script esme now s free) w =
        bound-WellFormed script esme esme.session_id now s w
    Step-WellFormed _ _ (esme_unbound script id s) w = unbound-WellFormed script id s w
    Step-WellFormed _ _ (request script address id r clock s h e) w =
        Effect-WellFormed s h.state (on_request-Effect is_success script address id r clock s h e) w
    Step-WellFormed _ _ (bind_transmitter s) w =
        Alike-WellFormed s _ (on_bind_transmitter-Alike s) w
    Step-WellFormed _ _ (bind_receiver s) w = Alike-WellFormed s _ (on_bind_receiver-Alike s) w
    Step-WellFormed _ _ (bind_transceiver script system_id password address s) w =
        Alike-WellFormed s _ (on_bind_transceiver-Alike script system_id password address s) w
    Step-WellFormed _ _ (listen_failed error s) w =
        Alike-WellFormed s _ (on_listen_failed-Alike error s) w
    Step-WellFormed _ _ (smsc_bound listener script smsc id now s) w =
        smsc_bound-WellFormed listener script id s smsc now w
    Step-WellFormed _ _ (smsc_unbound listener script id s) w =
        smsc_unbound-WellFormed listener script id s w
    Step-WellFormed _ _ (connection_failed listener s) w =
        Alike-WellFormed s _ (on_connection_failed-Alike listener s) w
    Step-WellFormed _ _ (delivery listener script id address r s) w =
        Alike-WellFormed s _ (on_deliver_sm-Alike listener script id address r s) w
    Step-WellFormed _ _ (data_delivery listener script id address r s) w =
        Alike-WellFormed s _ (on_data_sm-Alike listener script id address is_success r s) w
    Step-WellFormed _ _ (alert listener script id address a s) w =
        Alike-WellFormed s _ (on_alert_notification-Alike listener script id address a s) w
    Step-WellFormed _ _ (attempt_over name backoff outcome s) w =
        Alike-WellFormed s _ (after_attempt-Alike name backoff outcome s) w
    Step-WellFormed _ _ (send_turn bind target clock s s' found turn) w =
        send_turn-WellFormed bind target clock s s' found turn w

    -- Over any run the settings stand, every session of an ESME has the limiter and the timer that they
    -- say, and every bind's limiter is usable, when the run begins so.
    pub Run-WellFormed : (s s' : State) → Run is_success s s' → WellFormed s → WellFormed s'
    Run-WellFormed _ _ (start s) w = w
    Run-WellFormed _ _ (followed s t u run step) w =
        Step-WellFormed t u step (Run-WellFormed s t run w)
