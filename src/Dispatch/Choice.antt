-- ===== src/Dispatch/Choice.antt =====
-- Which handler an event runs, and what its answer means: src/dispatch.rs `first_matching`, `pdu`, `bind`.
use siphon_smpp.Common.{
  String, true, false, Option, none, some, List, [], ◌∷◌, ◌≡◌, ◌↔◌, refl, sym, ◌∙◌, ap, subst,
  Result, ok, err, arith,
}
use siphon_smpp.Pdu.{Pdu}
use siphon_smpp.Reply.{Bind, Session}
use siphon_smpp.Dispatch.{
  Value, none_value, reply_value, bind_value, object, Args, bind_args, RegisteredHandler,
  Registration, DispatchError, Engine, Started, settle, bind_result, bind_settled, start,
  first_matching, run_first, BindOutcome, bind_outcome, reject_bind, pdu, bind, pdu_kind, bind_kind,
}
use siphon_smpp.Dispatch.Delivery.{Delivers, start-Delivers, Delivers-start, start_called}

module _ (engine : Engine) {T : Type 0} (convert : Value → T) (args : Args) where
  run_first_started :
      (handler : Option RegisteredHandler) (s : Started T)
      → (run_first engine convert handler args).0 ≡ ok (some s)
      → (h : RegisteredHandler) × (handler ≡ some h)
        × (engine.job 0 ≡ none)
        × (s ≡ (start engine convert h args).0)
        × ((run_first engine convert handler args).1 ≡ (start engine convert h args).1)
  unfolding run_first
  run_first_started none s e = ground arith
  run_first_started (some h) s e = (h, refl, ground arith, ground arith, ground arith)

  -- The one handler that ran, when the job started one and it gave a result.
  pub run_first-Delivers :
      (handler : Option RegisteredHandler) (s : Started T) (t : T)
      → (run_first engine convert handler args).0 ≡ ok (some s)
      → settle s ≡ ok t
      → (h : RegisteredHandler) × (v : Value) × (handler ≡ some h)
        × Delivers engine h args v
        × (t ≡ convert v)
        × ((run_first engine convert handler args).1 ≡ h.id ∷ [])
  run_first-Delivers handler s t e q =
      let (h, found, j, same, called) = run_first_started handler s e in
      let (v, d, t_eq) = start-Delivers engine convert h args t j (ap settle (sym same) ∙ q) in
      (h, v, found, d, t_eq, called ∙ start_called engine convert h args d.1)

abbrev pub Grants : Value → Type 0
Grants none_value = ⊥
Grants (reply_value r) = Unit
Grants (bind_value b) = b.accepted ≡ true
Grants (object truth) = truth ≡ some true

bind_outcome-Grants : (v : Value) → ((bind_outcome v).accepted ≡ true) ↔ Grants v
unfolding bind_outcome
bind_outcome-Grants none_value = (λ h. cc, λ h. absurd h)
bind_outcome-Grants (reply_value r) = (λ h. tt, λ h. refl)
bind_outcome-Grants (bind_value b) = (λ h. h, λ h. h)
bind_outcome-Grants (object none) = (λ h. cc, λ h. cc)
bind_outcome-Grants (object (some true)) = (λ h. refl, λ h. refl)
bind_outcome-Grants (object (some false)) = (λ h. cc, λ h. cc)

accepted_inv :
    (engine : Engine) (source : List Registration)
    (r : Result DispatchError (Option (Started BindOutcome)))
    → (bind_result engine source r).accepted ≡ true
    → (s : Started BindOutcome) × (o : BindOutcome) × (r ≡ ok (some s))
      × (settle s ≡ ok o)
      × (o.accepted ≡ true)
unfolding reject_bind
accepted_inv engine source (err e) h = cc h
accepted_inv engine source (ok none) h = cc h
accepted_inv engine source (ok (some s)) h =
    let (o, p, a) = from (settle s) refl h in (s, o, refl, p, a)
  where
    from :
        (q : Result DispatchError BindOutcome)
        → settle s ≡ q
        → (bind_settled engine source q).accepted ≡ true
        → (o : BindOutcome) × (settle s ≡ ok o) × (o.accepted ≡ true)
    from (err e) p a = cc a
    from (ok o) p a = (o, p, a)

granted :
    (engine : Engine) (source : List Registration) (handler : Option RegisteredHandler)
    (args : Args) (h : RegisteredHandler) (v : Value)
    → handler ≡ some h
    → Delivers engine h args v
    → Grants v
    → (bind_result engine source (run_first engine bind_outcome handler args).0).accepted ≡ true
unfolding run_first
granted engine source handler args h v found d g = rw found (
    rw (d.0, run_first)
      (rw (Delivers-start engine bind_outcome h args v d) ((bind_outcome-Grants v).1 g)))

module _ (engine : Engine) (source : List Registration) where
  -- A PDU of a command for which nothing is registered runs nothing and has no result, provided the
  -- executor takes the job; and only then is there no result.
  pub pdu-none :
      (command : String) (p : Pdu) (session : Session)
      → ((pdu engine source command p session).0 ≡ none)
        ↔ ((engine.job 0 ≡ none) × (first_matching source pdu_kind (some command) ≡ none))
  unfolding pdu run_first
  pdu-none command p session = (λ h. ground arith, λ h. ground arith)

  -- A bind is accepted exactly when the first registered `@smpp.on_bind` handler ran and gave an
  -- acceptance: no handler, a job that the executor shed, an exception, a coroutine that did not
  -- settle and a bare return all reject.
  pub bind_closed :
      (b : Bind)
      → ((bind engine source b).0.accepted ≡ true) ↔ (
          (h : RegisteredHandler) × (v : Value) × (first_matching source bind_kind none ≡ some h)
          × Delivers engine h (bind_args b) v
          × Grants v)
  unfolding bind
  bind_closed b = (
    λ accepted.
        let (s, o, started, settled, yes_) =
          accepted_inv engine source (run_first engine bind_outcome handler args).0 accepted in
        let (h, v, found, delivers, same, called) =
          run_first-Delivers engine bind_outcome args handler s o started settled in
        (
          h,
          v,
          found,
          delivers,
          (bind_outcome-Grants v).0 (subst (λ x. x.accepted ≡ true) same yes_),
        ),
    λ (h, v, found, d, g). granted engine source handler args h v found d g,
  )
    where
      handler : Option RegisteredHandler
      handler = first_matching source bind_kind none

      args : Args
      args = bind_args b
