-- ===== src/Runtime/Effects.antt =====
-- What an admission changes of the registry: src/runtime.rs, its handlers and `admit_inbound`.
use siphon_smpp.Common.{
  ℕ, ◌≡◌, refl, ◌∙◌, subst, ◌⊎◌, inl, inr, String, Bool, true, false, none, some, List, [], ◌∷◌,
  arith, Option-cases,
}
use siphon_smpp.RateLimiter.{Bucket, acquire, acquire_loop, acquire_round, try_acquire}
use siphon_smpp.RateLimiter.Bounds.{IsValid}
use siphon_smpp.Config.Types.{ThrottleAction, pace, reject}
use siphon_smpp.Runtime.{
  State, InboundAdmit, record_metric, admit_inbound, session_throttle, with_throttle,
}

-- The sessions and the settings are as they were, and so is a listen failure.
pub record Alike (s s' : State) : Type 0 where
  pub esmes : s'.esmes ≡ s.esmes
  pub binds : s'.binds ≡ s.binds
  pub rate : s'.inbound_max_mps ≡ s.inbound_max_mps
  pub timer : s'.inbound_response_timer ≡ s.inbound_response_timer
  pub failure : (error : String) → s.listen_failure ≡ some error → s'.listen_failure ≡ some error

-- A limiter that only time and senders have changed.
pub record Taken (b b' : Bucket) : Type 0 where
  pub rate : b'.refill_per_sec ≡ b.refill_per_sec
  pub valid : IsValid b → IsValid b'

-- A change that leaves the sessions alone, or changes the limiter of one.
pub data Effect (s s' : State) : Type 0 where
  kept : Alike s s' → Effect s s'
  limited :
      (id : String) (b b' : Bucket)
      → session_throttle s id ≡ some b
      → Taken b b'
      → Alike (with_throttle id b' s) s'
      → Effect s s'

acquire_round-Taken : (now : ℕ) (b : Bucket) → Taken b (acquire_round now b).0
unfolding acquire_round
acquire_round-Taken now b = record { rate = ground arith; valid = λ v. ground arith }

try_acquire-Taken : (now : ℕ) (b : Bucket) → Taken b (try_acquire now b).0
unfolding try_acquire
try_acquire-Taken now b = record { rate = ground arith; valid = λ v. ground arith }

pub acquire_loop-Taken :
    (clock : List ℕ) (waited waited' : Bool) (b b' : Bucket)
    → acquire_loop clock waited b ≡ some (b', waited')
    → Taken b b'
unfolding acquire_loop
acquire_loop-Taken [] waited waited' b b' h = cc
acquire_loop-Taken (now ∷ later) waited waited' b b' h =
    let r = acquire_round-Taken now b in
    let ih = acquire_loop-Taken later true waited' (acquire_round now b).0 b' in
    elim (Option-cases (acquire_round now b).1) [
      | inl e ↦ let last : (acquire_round now b).0 ≡ b' = ground arith in subst (Taken b) last r
      | inr (time, e) ↦
          let rest : acquire_loop later true (acquire_round now b).0 ≡ some (b', waited') =
            ground arith in
          let more = ih rest in
          record { rate = more.rate ∙ r.rate; valid = λ v. more.valid (r.valid v) }
    ]

pub ThrottleAction-cases : (a : ThrottleAction) → (a ≡ pace) ⊎ (a ≡ reject)
ThrottleAction-cases pace = inl refl
ThrottleAction-cases reject = inr refl

module _ (s s' : State) (id : String) (a : InboundAdmit) where
  unlimited-Effect :
      (clock : List ℕ)
      → session_throttle s id ≡ none
      → admit_inbound s id clock ≡ some (a, s')
      → Effect s s'
  unfolding admit_inbound
  unlimited-Effect clock e h = kept record {
    esmes = ground arith;
    binds = ground arith;
    rate = ground arith;
    timer = ground arith;
    failure = λ error was. ground arith;
  }

  paced-Effect :
      (clock : List ℕ) (b b' : Bucket) (waited : Bool)
      → session_throttle s id ≡ some b
      → s.inbound_throttle_action ≡ pace
      → acquire clock b ≡ some (b', waited)
      → admit_inbound s id clock ≡ some (a, s')
      → Effect s s'
  unfolding admit_inbound record_metric acquire
  paced-Effect clock b b' waited e p got h =
      limited id b b' e (acquire_loop-Taken clock false waited b b' got) record {
        esmes = ground arith;
        binds = ground arith;
        rate = ground arith;
        timer = ground arith;
        failure = λ error was. ground arith;
      }

  gated-Effect :
      (now : ℕ) (later : List ℕ) (b : Bucket)
      → session_throttle s id ≡ some b
      → s.inbound_throttle_action ≡ reject
      → admit_inbound s id (now ∷ later) ≡ some (a, s')
      → Effect s s'
  unfolding admit_inbound record_metric
  gated-Effect now later b e p h =
      limited id b (try_acquire now b).0 e (try_acquire-Taken now b) record {
        esmes = ground arith;
        binds = ground arith;
        rate = ground arith;
        timer = ground arith;
        failure = λ error was. ground arith;
      }

  pub admit_inbound-Effect :
      (clock : List ℕ) → admit_inbound s id clock ≡ some (a, s') → Effect s s'
  unfolding admit_inbound
  admit_inbound-Effect clock h = elim (Option-cases (session_throttle s id)) [
    | inl e ↦ unlimited-Effect clock e h
    | inr (b, e) ↦ elim (ThrottleAction-cases s.inbound_throttle_action) [
      | inl p ↦ elim (Option-cases (acquire clock b)) [
        | inl g ↦ absurd (ground arith)
        | inr ((b', waited), g) ↦ paced-Effect clock b b' waited e p g h
      ]
      | inr p ↦ gate clock e p h
    ]
  ]
    where
      gate :
          {b : Bucket} (clock : List ℕ)
          → session_throttle s id ≡ some b
          → s.inbound_throttle_action ≡ reject
          → admit_inbound s id clock ≡ some (a, s')
          → Effect s s'
      gate [] e p h = absurd (ground arith)
      gate {b} (now ∷ later) e p h = gated-Effect now later b e p h

pub Alike-trans : (s t u : State) → Alike s t → Alike t u → Alike s u
Alike-trans s t u p q = record {
  esmes = q.esmes ∙ p.esmes;
  binds = q.binds ∙ p.binds;
  rate = q.rate ∙ p.rate;
  timer = q.timer ∙ p.timer;
  failure = λ error h. q.failure error (p.failure error h);
}

pub Effect-Alike : (s t u : State) → Effect s t → Alike t u → Effect s u
Effect-Alike s t u (kept p) q = kept (Alike-trans s t u p q)
Effect-Alike s t u (limited id b b' e taken p) q =
    limited id b b' e taken (Alike-trans (with_throttle id b' s) t u p q)
