-- ===== src/Dispatch/Delivery.antt =====
-- Which handler is found, and what it delivers: src/dispatch.rs `first_matching`, `invoke`, `submit_coroutine`.
use siphon_smpp.Common.{
  String, true, false, none, some, List, [], ◌∷◌, ◌++◌, ◌≡◌, ◌⊎◌, inl, inr, refl, sym, ap, subst,
  find, All, Result, ok, err, arith, Bool-cases, Option-cases,
}
use siphon_smpp.Dispatch.{
  Value, Args, RegisteredHandler, DispatchError, Fate, refused, settles, fails, drops, hangs, done,
  python, started_or, after_call, Engine, settle, submit_coroutine, invoke, start, key_is,
}

ok_eq {ℓ} : {A : Type ℓ} {a b : A} → ◌≡◌ {A = Result DispatchError A} (ok a) (ok b) → a ≡ b
ok_eq h = cc

pub some_eq {ℓ} : {A : Type ℓ} {a b : A} → some a ≡ some b → a ≡ b
some_eq h = cc

module _ (k : String) where
  -- The handlers before the one that is found are for other keys, and it is for this one.
  abbrev pub FoundIn : List RegisteredHandler → RegisteredHandler → Type 0
  FoundIn hs h =
      (before : List RegisteredHandler) × (after : List RegisteredHandler) × (hs
        ≡ before ++ h ∷ after)
      × All (λ g. key_is k g.key ≡ false) before
      × (key_is k h.key ≡ true)

  pub find-FoundIn :
      (hs : List RegisteredHandler) (h : RegisteredHandler)
      → find (λ g. key_is k g.key) hs ≡ some h
      → FoundIn hs h
  find-FoundIn [] h e = cc
  find-FoundIn (g ∷ hs) h e = elim (Bool-cases (key_is k g.key)) [
    | inl hit ↦
        let same : g ≡ h = some_eq (rw hit at e) in
        ([], hs, ap (λ x. x ∷ hs) same, tt, subst (λ x. key_is k x.key ≡ true) same hit)
    | inr miss ↦
        let (before, after, whole, others, hit) = find-FoundIn hs h (rw miss at e) in
        (g ∷ before, after, ap (◌∷◌ g) whole, (miss, others), hit)
  ]

-- The handler gives the value `v`: it runs, and either returns `v` or is a coroutine that settles
-- with it.
abbrev pub Delivers : Engine → RegisteredHandler → Args → Value → Type 0
Delivers engine h args v =
    (engine.job 0 ≡ none)
    × (engine.build args ≡ none)
    × (w : Value) × (h.callable args ≡ ok w)
    × (((h.is_async ≡ false) × (v ≡ w)) ⊎ ((h.is_async ≡ true) × (engine.pool h.id w ≡ settles v)))

module _ (engine : Engine) {T : Type 0} (convert : Value → T) (h : RegisteredHandler)
    (args : Args) where
  submitted :
      (t : T) (f : Fate)
      → settle (started_or (submit_coroutine f convert)) ≡ ok t
      → (v : Value) × (f ≡ settles v) × (t ≡ convert v)
  unfolding settle submit_coroutine
  submitted t (refused m) e = cc e
  submitted t (settles v) e = (v, refl, cc)
  submitted t (fails m) e = cc e
  submitted t drops e = cc e
  submitted t hangs e = cc e

  done_err : (t : T) (m : String) → settle {T = T} (done (err (python m))) ≡ ok t → ⊥
  unfolding settle
  done_err t m f = cc f

  abbrev Returns : Value → Value → Type 0
  Returns w v =
      ((h.is_async ≡ false) × (v ≡ w)) ⊎ ((h.is_async ≡ true) × (engine.pool h.id w ≡ settles v))

  invoked :
      (t : T) (c : Result String Value)
      → settle (after_call engine convert h c) ≡ ok t
      → (v : Value) × (w : Value) × (c ≡ ok w) × Returns w v × (t ≡ convert v)
  unfolding settle
  invoked t (err m) e = cc e
  invoked t (ok w) e = elim (Bool-cases h.is_async) [
    | inl async ↦
        let (v, fate, t_eq) = submitted t (engine.pool h.id w) (rw async at e) in
        (v, w, refl, inr (async, fate), t_eq)
    | inr sync ↦ (w, w, refl, inl (sync, refl), sym (ok_eq (rw sync at e)))
  ]

  pub start-Delivers :
      (t : T)
      → engine.job 0 ≡ none
      → settle (start engine convert h args).0 ≡ ok t
      → (v : Value) × Delivers engine h args v × (t ≡ convert v)
  unfolding start invoke
  start-Delivers t j e = elim (Option-cases (engine.build args)) [
    | inl b ↦
        let (v, w, c, returns, t_eq) = invoked t (h.callable args) (rw (b, start) at e) in
        (v, (j, b, w, c, returns), t_eq)
    | inr (m, b) ↦ absurd (done_err t m (rw (b, start) at e))
  ]

  pub Delivers-start :
      (v : Value)
      → Delivers engine h args v
      → settle (start engine convert h args).0 ≡ ok (convert v)
  unfolding start invoke submit_coroutine settle
  Delivers-start v (j, b, w, c, d) = ground arith

  pub start_called : engine.build args ≡ none → (start engine convert h args).1 ≡ h.id ∷ []
  unfolding start
  start_called b = rw (b, start)
