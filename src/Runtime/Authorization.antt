-- ===== src/Runtime/Authorization.antt =====
-- Which binds of ESMEs are accepted, from the script on: python/smpp.py `on_bind`, src/dispatch.rs `bind`,
-- src/runtime.rs `on_bind_transceiver`.
use siphon_smpp.Common.{
  String, Bool, true, false, Option, none, some, List, [], ◌∷◌, ◌≡◌, ◌↔◌, ◌⊎◌, inl, inr, refl, ap,
  ◌∙◌, subst, map, find, All, Result, ok, err, arith,
}
use siphon_smpp.Status.{SmppError, esme_rok}
use siphon_smpp.Reply.{Bind}
use siphon_smpp.Dispatch.{
  Engine, Value, none_value, reply_value, bind_value, object, Args, RegisteredHandler, Registration,
  handlers, first_matching, bind, bind_args, bind_kind, BindOutcome, Reason, text, raised,
  did_not_run, DispatchError, Started, settle, reject_bind, bind_outcome, bind_settled, bind_result,
  run_first,
}
use siphon_smpp.Dispatch.Choice.{run_first-Delivers}
use siphon_smpp.Dispatch.Delivery.{Delivers, Delivers-start}
use siphon_smpp.Dispatch.Decorators.{Function, Statement, handler}
use siphon_smpp.Dispatch.Registering.{registration_of}
use siphon_smpp.Dispatch.Decorated.{IsDecoration, bind_functions, bind-functions}
use siphon_smpp.Runtime.{State, Script}
use siphon_smpp.Runtime.Responses.{
  Response, accept_id, accept_multi, accept_query, accept_plain, accept_bind, reject_with, with_tlv,
}
use siphon_smpp.Runtime.Server.{on_bind_transceiver}

abbrev pub bind_request : (system_id password address : String) → Bind
bind_request system_id password address = record {
  system_id = system_id;
  password = password;
  client_addr = address;
}

-- The status of a response on the wire: `accept` gives it ESME_ROK, and `reject` the status it is given,
-- which may be ESME_ROK too.
abbrev pub wire_status : Response → SmppError
wire_status (accept_id id) = esme_rok
wire_status (accept_multi id) = esme_rok
wire_status (accept_query id date state error) = esme_rok
wire_status accept_plain = esme_rok
wire_status (accept_bind id version) = esme_rok
wire_status (reject_with e) = e
wire_status (with_tlv r t) = wire_status r

-- The peer is told that its bind as a transceiver succeeded.
abbrev pub Succeeds : Script → (system_id password address : String) → State → Type 0
Succeeds script system_id password address s =
    wire_status (on_bind_transceiver script system_id password address s).answer ≡ esme_rok

-- What a script returns that makes a bind succeed: an acceptance, a true value, or a refusal whose status
-- is ESME_ROK.
abbrev pub Passes : Value → Type 0
Passes none_value = ⊥
Passes (reply_value r) = Unit
Passes (bind_value b) = (b.accepted ≡ true) ⊎ (b.status ≡ esme_rok)
Passes (object truth) = truth ≡ some true

abbrev Ok : BindOutcome → Type 0
Ok o = (o.accepted ≡ true) ⊎ (o.status ≡ esme_rok)

rejected_not-Ok : (reason : Reason) → ¬ (Ok (reject_bind reason))
unfolding reject_bind
rejected_not-Ok reason (inl e) = cc
rejected_not-Ok reason (inr e) = cc

bind_outcome-Passes : (v : Value) → Ok (bind_outcome v) ↔ Passes v
unfolding bind_outcome
bind_outcome-Passes none_value =
    (λ h. absurd (rejected_not-Ok (text "handler returned None") h), λ h. absurd h)
bind_outcome-Passes (reply_value r) = (λ h. tt, λ h. inl refl)
bind_outcome-Passes (bind_value b) = (λ h. h, λ h. h)
bind_outcome-Passes (object none) = (λ h. ground arith, λ h. cc)
bind_outcome-Passes (object (some true)) = (λ h. refl, λ h. inl refl)
bind_outcome-Passes (object (some false)) = (λ h. ground arith, λ h. cc)

module _ (engine : Engine) (source : List Registration) where
  settled-Ok :
      (s : Started BindOutcome) (q : Result DispatchError BindOutcome)
      → settle s ≡ q
      → Ok (bind_settled engine source q)
      → (o : BindOutcome) × (settle s ≡ ok o) × Ok o
  settled-Ok s (err e) p a = absurd (rejected_not-Ok (raised e) a)
  settled-Ok s (ok o) p a = (o, p, a)

  result-Ok :
      (r : Result DispatchError (Option (Started BindOutcome)))
      → Ok (bind_result engine source r)
      → (s : Started BindOutcome) × (o : BindOutcome) × (r ≡ ok (some s)) × (settle s ≡ ok o) × Ok o
  result-Ok (err e) h = absurd (rejected_not-Ok (did_not_run e) h)
  result-Ok (ok none) h = absurd (rejected_not-Ok (text "no @smpp.on_bind handler registered") h)
  result-Ok (ok (some s)) h =
      let (o, settled, a) = settled-Ok s (settle s) refl h in (s, o, refl, settled, a)

  ran-Ok :
      (handler : Option RegisteredHandler) (args : Args) (h : RegisteredHandler) (v : Value)
      → handler ≡ some h
      → Delivers engine h args v
      → Passes v
      → Ok (bind_result engine source (run_first engine bind_outcome handler args).0)
  unfolding run_first
  ran-Ok handler args h v found d p = rw found (
      rw (d.0, run_first)
        (rw (Delivers-start engine bind_outcome h args v d) ((bind_outcome-Passes v).1 p)))

  answer-Ok :
      (system_id password address : String) (s : State)
      → Succeeds (record { engine = engine; source = source }) system_id password address s
        ↔ Ok (bind engine source (bind_request system_id password address)).0
  unfolding on_bind_transceiver
  answer-Ok system_id password address s = (λ h. ground arith, λ h. ground arith)

module _ (co : Function → Bool) (engine : Engine) (script : List Statement) where
  -- What a script that has loaded gives the listener.
  abbrev pub loaded : Script
  loaded = record { engine = engine; source = map (registration_of co) script }

  first_handler :
      (hs : List RegisteredHandler) (fs : List Function) (h : RegisteredHandler)
      → hs ≡ map (λ f. handler f (co f) none) fs
      → find (λ h. true) hs ≡ some h
      → (f : Function) × (later : List Function) × (fs ≡ f ∷ later) × (h ≡ handler f (co f) none)
  first_handler hs [] h whole found = absurd (ground arith)
  first_handler hs (f ∷ fs) h whole found = (f, fs, refl, ground arith)

  first_found :
      All IsDecoration script
      → (f : Function) (later : List Function) → bind_functions script ≡ f ∷ later
      → first_matching loaded.source bind_kind none ≡ some (handler f (co f) none)
  unfolding first_matching
  first_found all f later first =
      ap (find (λ h. true))
        (bind-functions co script all ∙ ap (map (λ f. handler f (co f) none)) first)

  -- With a script that registers with the decorators alone, an ESME that binds as a transceiver is answered
  -- with ESME_ROK exactly when the script has decorated a function with `on_bind` and the first of these
  -- delivers an acceptance, a true value, or a refusal whose own status is ESME_ROK.
  pub bind_transceiver-authorized :
      All IsDecoration script
      → (system_id password address : String) (s : State)
      → Succeeds loaded system_id password address s ↔ (
          (f : Function) × (later : List Function) × (v : Value) × (bind_functions script
            ≡ f ∷ later)
          × Delivers engine
              (handler f (co f) none)
              (bind_args (bind_request system_id password address))
              v
          × Passes v)
  unfolding first_matching bind
  bind_transceiver-authorized all system_id password address s =
      let args = bind_args (bind_request system_id password address) in
      let found = first_matching loaded.source bind_kind none in
      let answer = answer-Ok engine loaded.source system_id password address s in
      (
        λ h.
            let (started, o, ran, settled, fine) =
              result-Ok engine loaded.source (run_first engine bind_outcome found args).0
                (answer.0 h) in
            let (g, v, first, delivers, same, called) =
              run_first-Delivers engine bind_outcome args found started o ran settled in
            let (f, later, decorated, is_handler) =
              first_handler (handlers loaded.source bind_kind) (bind_functions script) g
                (bind-functions co script all) first in
            (
              f,
              later,
              v,
              decorated,
              subst (λ g. Delivers engine g args v) is_handler delivers,
              (bind_outcome-Passes v).0 (subst Ok same fine),
            ),
        λ (f, later, v, first, delivers, passes). answer.1 (
            ran-Ok engine loaded.source found args (handler f (co f) none) v
              (first_found all f later first) delivers passes),
      )
