-- ===== src/Runtime/Passing.antt =====
-- What the admission of a request does to the limiters of the sessions: src/runtime.rs `admit_inbound`
-- and the handlers that ask it.
use mathlib.Core.Option.{some-injective}
use siphon_smpp.Common.{
  ℕ, ◌≤◌, ◌≡◌, refl, sym, ◌∙◌, subst, inl, inr, String, Bool, true, false, Option, none, some, List,
  [], ◌∷◌, str_eq, eq_iff, find, if◌then◌else◌, unwrap_or, arith, Option-cases,
}
use siphon_smpp.Config.Types.{pace, reject}
use siphon_smpp.Pdu.{
  from_submit, from_data, from_submit_multi, from_cancel, from_query, from_replace,
}
use siphon_smpp.RateLimiter.{Bucket, acquire, acquire_loop, try_acquire}
use siphon_smpp.RateLimiter.Bounds.{IsMonotone}
use siphon_smpp.RateLimiter.Ledger.{Spends, acquire_loop-Spends, try_acquire-Spends}
use siphon_smpp.Runtime.{
  State, Script, Handled, EsmeSession, InboundAdmit, proceed, refused, find_esme, put_throttle,
  session_throttle, record_metric, admit_inbound, esme_session, inbound,
}
use siphon_smpp.Runtime.Server.{
  Request, submit, data_request, submit_multi, cancel, query, replace, on_request,
}
use siphon_smpp.Runtime.Responses.{Response, admitted, accept_multi, accept_plain, query_accept}
use siphon_smpp.Runtime.Answers.{admission, command_of, handle, on_request_lem}
use siphon_smpp.Runtime.Registry.{named}
use siphon_smpp.Runtime.Effects.{Alike, ThrottleAction-cases}
use siphon_smpp.Runtime.RequestEffects.{submit_whole, data_whole, opt_in_whole, throttled-Alike}
use siphon_smpp.Runtime.SessionLimits.{throttle_of}
use siphon_smpp.Status.{esme_rsyserr, esme_rcancelfail, esme_rqueryfail, esme_rreplacefail}

put_throttle-same :
    (id : String) (b b' : Bucket) (es : List EsmeSession)
    → throttle_of (find (named id) es) ≡ some b
    → throttle_of (find (named id) (put_throttle id b' es)) ≡ some b'
unfolding put_throttle
put_throttle-same id b b' [] h = cc
put_throttle-same id b b' (e ∷ es) h = ground (arith, put_throttle-same id b b' es)

put_throttle-other :
    (id other : String) (b : Bucket) (es : List EsmeSession)
    → str_eq other id ≡ false
    → find (named id) (put_throttle other b es) ≡ find (named id) es
unfolding put_throttle
put_throttle-other id other b [] d = refl
put_throttle-other id other b (e ∷ es) d =
    let clash : str_eq e.esme.session_id other ≡ true → str_eq e.esme.session_id id ≡ false =
      λ h. subst (λ i. str_eq i id ≡ false) (sym ((eq_iff e.esme.session_id other).0 h)) d in
    ground (arith, put_throttle-other id other b es d)

-- Whether an admission lets its request through.
abbrev pub lets_through : InboundAdmit → ℕ
lets_through proceed = 1
lets_through refused = 0

module _ (s t : State) (id : String) (clock : List ℕ) (a : InboundAdmit) where
  paced-Spends :
      (b b' : Bucket) (waited : Bool)
      → session_throttle s id ≡ some b
      → s.inbound_throttle_action ≡ pace
      → IsMonotone b.last clock
      → acquire_loop clock false b ≡ some (b', waited)
      → admit_inbound s id clock ≡ some (a, t)
      → (session_throttle t id ≡ some b') × Spends (lets_through a) b b'
  unfolding admit_inbound record_metric find_esme acquire
  paced-Spends b b' waited has p m g h =
      let same = put_throttle-same id b b' s.esmes has in
      let through : a ≡ proceed = ground arith in
      (ground arith, rw through (acquire_loop-Spends clock false waited b b' m g))

module _ (s t : State) (id : String) (a : InboundAdmit) where
  gated-Spends :
      (b : Bucket) (now : ℕ) (later : List ℕ)
      → session_throttle s id ≡ some b
      → s.inbound_throttle_action ≡ reject
      → b.last ≤ now
      → admit_inbound s id (now ∷ later) ≡ some (a, t)
      → (session_throttle t id ≡ some (try_acquire now b).0)
        × Spends (lets_through a) b (try_acquire now b).0
  unfolding admit_inbound record_metric find_esme
  gated-Spends b now later has r m h =
      let same = put_throttle-same id b (try_acquire now b).0 s.esmes has in
      let told : (if (try_acquire now b).1 then 1 else 0) ≡ lets_through a = ground arith in
      (ground arith, rw (← told) (try_acquire-Spends now b m))

  -- An admission on a session that has a limiter takes from it one token for each request let through.
  pub admit_inbound-Spends :
      (clock : List ℕ) (b : Bucket)
      → session_throttle s id ≡ some b
      → IsMonotone b.last clock
      → admit_inbound s id clock ≡ some (a, t)
      → (b' : Bucket) × (session_throttle t id ≡ some b') × Spends (lets_through a) b b'
  unfolding admit_inbound acquire
  admit_inbound-Spends clock b has m h = elim (ThrottleAction-cases s.inbound_throttle_action) [
    | inl p ↦ elim (Option-cases (acquire_loop clock false b)) [
      | inl g ↦ absurd (never p g)
      | inr ((b', waited), g) ↦
          let (has', spends) = paced-Spends s t id clock a b b' waited has p m g h in
          (b', has', spends)
    ]
    | inr r ↦ gate clock m r h
  ]
    where
      never : s.inbound_throttle_action ≡ pace → acquire_loop clock false b ≡ none → ⊥
      never p g = ground arith

      gate :
          (clock : List ℕ)
          → IsMonotone b.last clock
          → s.inbound_throttle_action ≡ reject
          → admit_inbound s id clock ≡ some (a, t)
          → (b' : Bucket) × (session_throttle t id ≡ some b') × Spends (lets_through a) b b'
      gate [] m r h = absurd (ground arith)
      gate (now ∷ later) m r h =
          let (has', spends) = gated-Spends b now later has r m.0 h in
          ((try_acquire now b).0, has', spends)

module _ (s t : State) (id : String) (clock : List ℕ) (a : InboundAdmit) where
  pub admit_inbound-other :
      (other : String)
      → str_eq id other ≡ false
      → admit_inbound s id clock ≡ some (a, t)
      → find_esme t other ≡ find_esme s other
  unfolding admit_inbound record_metric find_esme
  admit_inbound-other other d h =
      grind (arith, (λ (b : Bucket). put_throttle-other other id b s.esmes d))

module _ (is_success : Response → Bool) (script : Script) (address id : String) where
  handle-Alike : (r : Request) (s : State) → Alike s (handle is_success script address id r s).state
  handle-Alike (submit r) s =
      submit_whole script (from_submit r) (esme_session s id address) s is_success
  handle-Alike (data_request r) s =
      data_whole script (from_data r) (esme_session s id address) s is_success inbound
  handle-Alike (submit_multi r) s =
      opt_in_whole script (from_submit_multi r) (esme_session s id address) s "submit_sm_multi"
        esme_rsyserr (λ reply. accept_multi (unwrap_or reply.message_id ""))
  handle-Alike (cancel r) s =
      opt_in_whole script (from_cancel r) (esme_session s id address) s "cancel_sm" esme_rcancelfail
        (λ reply. accept_plain)
  handle-Alike (query r) s =
      opt_in_whole script (from_query r) (esme_session s id address) s "query_sm" esme_rqueryfail
        query_accept
  handle-Alike (replace r) s =
      opt_in_whole script (from_replace r) (esme_session s id address) s "replace_sm"
        esme_rreplacefail (λ reply. accept_plain)

  -- Once a request is admitted or refused, the rest of its handling leaves the sessions alone.
  pub on_request-admission :
      (r : Request) (clock : List ℕ) (s : State) (h : Handled Response)
      → on_request is_success script address id r clock s ≡ some h
      → (a : InboundAdmit) × (t : State) × (admission s id clock r ≡ some (a, t)) × Alike t h.state
  on_request-admission r clock s h e =
      go (admission s id clock r) (sym (on_request_lem is_success script address id r clock s) ∙ e)
        refl
    where
      go :
          (o : Option (InboundAdmit × State))
          → admitted (command_of r) o (handle is_success script address id r) ≡ some h
          → admission s id clock r ≡ o
          → (a : InboundAdmit) × (t : State) × (admission s id clock r ≡ some (a, t))
            × Alike t h.state
      go none e q = cc
      go (some (refused, t)) e q = (
        refused,
        t,
        q,
        subst (λ h. Alike t h.state) (some-injective _ h e) (throttled-Alike (command_of r) t),
      )
      go (some (proceed, t)) e q =
          (proceed, t, q, subst (λ h. Alike t h.state) (some-injective _ h e) (handle-Alike r t))
