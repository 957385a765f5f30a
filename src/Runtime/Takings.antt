-- ===== src/Runtime/Takings.antt =====
-- What each change of the state takes from the limiter of a session: src/runtime.rs, its handlers.
use siphon_smpp.Common.{
  ℕ, refl, if_cases, ◌≡◌, ap, sym, ◌∙◌, subst, inl, inr, String, Bool, true, false, Option, none,
  some, List, str_eq, eq_iff, find, if◌then◌else◌, arith, Bool-cases,
}
use siphon_smpp.RateLimiter.{Bucket}
use siphon_smpp.RateLimiter.Bounds.{IsMonotone}
use siphon_smpp.RateLimiter.Ledger.{Spends, Spends-refl}
use siphon_smpp.Runtime.{
  State, Script, Esme, proceed, admit_inbound, Handled, InboundAdmit, find_esme, session_throttle,
}
use siphon_smpp.Runtime.Server.{
  Request, submit, data_request, submit_multi, cancel, query, replace, on_request, on_esme_bound,
  on_esme_unbound,
}
use siphon_smpp.Runtime.Responses.{Response}
use siphon_smpp.Runtime.Answers.{admission}
use siphon_smpp.Runtime.Registry.{named, find-retain_other, find-append_other}
use siphon_smpp.Runtime.Effects.{Alike}
use siphon_smpp.Runtime.Passing.{
  lets_through, admit_inbound-Spends, admit_inbound-other, on_request-admission,
}
use siphon_smpp.Runtime.SessionLimits.{throttle_of}

-- The messages that a request brings to the script: cancel, query and replace requests bring none.
abbrev pub messages : Request → InboundAdmit → ℕ
messages (submit r) a = lets_through a
messages (data_request r) a = lets_through a
messages (submit_multi r) a = lets_through a
messages r a = 0

abbrev pub messages_of : Request → Option (InboundAdmit × State) → ℕ
messages_of r none = 0
messages_of r (some (a, s)) = messages r a

-- The clock that a limiter reads has not run backwards since the limiter was last asked.
abbrev pub InTime : List ℕ → Option Bucket → Type 0
InTime clock none = Unit {0}
InTime clock (some b) = IsMonotone b.last clock

str_eq_sym : (a b : String) → str_eq a b ≡ false → str_eq b a ≡ false
str_eq_sym a b d = elim (Bool-cases (str_eq b a)) [
  | inl h ↦ let e = (eq_iff a b).1 (sym ((eq_iff b a).0 h)) in cc
  | inr h ↦ h
]

none-ne-some : {b : Bucket} → none ≡ some b → ⊥
none-ne-some h = cc

module _ (id : String) where
  -- A session's limiter is still there, and `n` messages were let through.
  abbrev pub Kept : State → State → Bucket → ℕ → Type 0
  Kept s t b n = (b' : Bucket) × (session_throttle t id ≡ some b') × Spends n b b'

  pub kept :
      (s t : State) (b : Bucket) → t.esmes ≡ s.esmes → session_throttle s id ≡ some b → Kept s t b 0
  unfolding find_esme
  kept s t b same has = (b, ap (λ es. throttle_of (find (named id) es)) same ∙ has, Spends-refl b)

  same_throttle :
      (s t : State) (b : Bucket)
      → find_esme t id ≡ find_esme s id
      → session_throttle s id ≡ some b
      → Kept s t b 0
  same_throttle s t b same has = (b, ap throttle_of same ∙ has, Spends-refl b)

  pub bound-Kept :
      (script : Script) (esme : Esme) (now : ℕ) (s : State) (b : Bucket)
      → find_esme s esme.session_id ≡ none
      → session_throttle s id ≡ some b
      → Kept s (on_esme_bound script esme esme.session_id now s).0 b 0
  unfolding find_esme on_esme_bound
  bound-Kept script esme now s b free has = elim (Bool-cases (str_eq esme.session_id id)) [
    | inl h ↦
        let taken : find_esme s id ≡ none =
          subst (λ i. find_esme s i ≡ none) ((eq_iff esme.session_id id).0 h) free in
        absurd (none-ne-some (sym (ap throttle_of taken) ∙ has))
    | inr d ↦
        same_throttle s (on_esme_bound script esme esme.session_id now s).0 b
          (find-append_other id s.esmes _ d) has
  ]

  pub unbound-Kept :
      (script : Script) (other : String) (s : State) (b : Bucket)
      → str_eq other id ≡ false
      → session_throttle s id ≡ some b
      → Kept s (on_esme_unbound script other s).0 b 0
  unfolding find_esme on_esme_unbound
  unbound-Kept script other s b d has =
      same_throttle s (on_esme_unbound script other s).0 b
        (find-retain_other other id s.esmes (str_eq_sym other id d)) has

  admit-Kept :
      (other : String) (clock : List ℕ) (a : InboundAdmit) (s t : State) (b : Bucket)
      → admit_inbound s other clock ≡ some (a, t)
      → (str_eq other id ≡ true → InTime clock (session_throttle s id))
      → session_throttle s id ≡ some b
      → Kept s t b (if str_eq other id then lets_through a else 0)
  admit-Kept other clock a s t b e c has = elim (Bool-cases (str_eq other id)) [
    | inl h ↦
        let e' = subst (λ i. admit_inbound s i clock ≡ some (a, t)) ((eq_iff other id).0 h) e in
        rw h (admit_inbound-Spends s t id a clock b has (subst (InTime clock) has (c h)) e')
    | inr d ↦ rw d (same_throttle s t b (admit_inbound-other s t other clock a id d e) has)
  ]

  unlimited-Kept :
      (other : String) (a : InboundAdmit) (s t : State) (b : Bucket)
      → ◌≡◌ {A = Option (InboundAdmit × State)} (some (proceed, s)) (some (a, t))
      → session_throttle s id ≡ some b
      → Kept s t b (if str_eq other id then 0 else 0)
  unlimited-Kept other a s t b e has =
      if_cases (Kept s t b) (str_eq other id) (λ _. unchanged) (λ _. unchanged)
    where
      unchanged : Kept s t b 0
      unchanged = subst (λ t. Kept s t b 0) (ground arith) (kept s s b refl has)

  admission-Kept :
      (other : String) (r : Request) (clock : List ℕ) (a : InboundAdmit) (s t : State) (b : Bucket)
      → admission s other clock r ≡ some (a, t)
      → (str_eq other id ≡ true → InTime clock (session_throttle s id))
      → session_throttle s id ≡ some b
      → Kept s t b (if str_eq other id then messages r a else 0)
  admission-Kept other (submit r) clock a s t b e c has = admit-Kept other clock a s t b e c has
  admission-Kept other (data_request r) clock a s t b e c has =
      admit-Kept other clock a s t b e c has
  admission-Kept other (submit_multi r) clock a s t b e c has =
      admit-Kept other clock a s t b e c has
  admission-Kept other (cancel r) clock a s t b e c has = unlimited-Kept other a s t b e has
  admission-Kept other (query r) clock a s t b e c has = unlimited-Kept other a s t b e has
  admission-Kept other (replace r) clock a s t b e c has = unlimited-Kept other a s t b e has

  Alike-Kept : (s t u : State) (b : Bucket) (n : ℕ) → Alike t u → Kept s t b n → Kept s u b n
  unfolding find_esme
  Alike-Kept s t u b n alike (b', has, spends) =
      (b', ap (λ es. throttle_of (find (named id) es)) alike.esmes ∙ has, spends)

  pub request-Kept :
      (is_success : Response → Bool) (script : Script) (address other : String) (r : Request)
      (clock : List ℕ) (s : State) (h : Handled Response) (b : Bucket)
      → on_request is_success script address other r clock s ≡ some h
      → (str_eq other id ≡ true → InTime clock (session_throttle s id))
      → session_throttle s id ≡ some b
      → Kept s h.state b (if str_eq other id then messages_of r (admission s other clock r) else 0)
  request-Kept is_success script address other r clock s h b e c has =
      let (a, t, asked, alike) =
        on_request-admission is_success script address other r clock s h e in
      rw asked (Alike-Kept s t h.state b _ alike (admission-Kept other r clock a s t b asked c has))
