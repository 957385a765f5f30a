-- ===== src/Runtime/SessionLimits.antt =====
-- The limiters of the sessions of src/runtime.rs `State`, and what keeps them as the settings say.
use siphon_smpp.Common.{
  ℕ, ◌<◌, ◌≡◌, ◌∙◌, subst, inl, inr, String, Bool, Option, none, some, List, [], ◌∷◌, ◌++◌, str_eq,
  find, retain, All, if_cases, ltb, arith, Bool-cases, ok,
}
use siphon_smpp.RateLimiter.{Bucket, acquire}
use siphon_smpp.RateLimiter
use siphon_smpp.RateLimiter.Bounds.{IsValid, new-IsValid}
use siphon_smpp.Runtime.{EsmeSession, BindSession, put_throttle, limiter}
use siphon_smpp.Runtime.Registry.{named}
use siphon_smpp.Runtime.Effects.{Taken}
use siphon_smpp.Sends.{BindTarget, found_bind, put_bind_throttle}

-- The limiter of a session under a cap: none for a cap of 0, and else a valid one that refills at the cap.
unfoldable pub LimiterOf : ℕ → Option Bucket → Type 0
LimiterOf cap none = cap ≡ 0
LimiterOf cap (some b) = (0 < cap) × (b.refill_per_sec ≡ cap) × IsValid b

unfoldable pub Limited : (cap timer : ℕ) → EsmeSession → Type 0
Limited cap timer e = LimiterOf cap e.throttle × (e.response_timer ≡ timer)

-- A limiter that is there is valid.
unfoldable pub Usable : Option Bucket → Type 0
Usable none = Unit
Usable (some b) = IsValid b

pub new-LimiterOf : (cap now : ℕ) → LimiterOf cap (limiter cap now)
unfolding LimiterOf limiter RateLimiter.new
new-LimiterOf cap now =
    if_cases (LimiterOf cap) (ltb 0 cap) (λ h. (ground arith, ground arith, new-IsValid cap now))
      (λ h. ground arith)

pub new-Usable : (cap now : ℕ) → Usable (limiter cap now)
unfolding Usable limiter
new-Usable cap now = if_cases Usable (ltb 0 cap) (λ h. new-IsValid cap now) (λ h. tt)

pub All-append :
    {A : Type 0} (P : A → Type 0) (xs : List A) (x : A) → All P xs → P x → All P (xs ++ x ∷ [])
All-append P [] x a p = (p, tt)
All-append P (y ∷ xs) x a p = (a.0, All-append P xs x a.1 p)

pub All-retain :
    {A : Type 0} (P : A → Type 0) (keep : A → Bool) (xs : List A)
    → All P xs
    → All P (retain keep xs)
All-retain P keep [] a = tt
All-retain P keep (x ∷ xs) a =
    if_cases (All P) (keep x) (λ _. (a.0, All-retain P keep xs a.1)) (λ _. All-retain P keep xs a.1)

pub Taken-LimiterOf :
    (cap : ℕ) (b b' : Bucket) → Taken b b' → LimiterOf cap (some b) → LimiterOf cap (some b')
unfolding LimiterOf
Taken-LimiterOf cap b b' t (h, r, v) = (h, t.rate ∙ r, t.valid v)

abbrev pub throttle_of : Option EsmeSession → Option Bucket
throttle_of none = none
throttle_of (some e) = e.throttle

pub All-put_throttle :
    (cap timer : ℕ) (id : String) (b b' : Bucket) (es : List EsmeSession)
    → Taken b b'
    → throttle_of (find (named id) es) ≡ some b
    → All (Limited cap timer) es
    → All (Limited cap timer) (put_throttle id b' es)
unfolding put_throttle Limited
All-put_throttle cap timer id b b' [] t h a = tt
All-put_throttle cap timer id b b' (e ∷ es) t h a =
    if_cases (All (Limited cap timer)) (named id e)
      (λ here.
        let has : e.throttle ≡ some b = ground arith in
        ((Taken-LimiterOf cap b b' t (subst (LimiterOf cap) has a.0.0), a.0.1), a.1))
      (λ there.
        let later : throttle_of (find (named id) es) ≡ some b = ground arith in
        (a.0, All-put_throttle cap timer id b b' es t later a.1))

pub All-put_bind_throttle :
    (bind : String) (b : Bucket) (bs : List BindSession)
    → IsValid b
    → All (λ b. Usable b.throttle) bs
    → All (λ b. Usable b.throttle) (put_bind_throttle bind b bs)
unfolding put_bind_throttle Usable
All-put_bind_throttle bind b [] v a = tt
All-put_bind_throttle bind b (t ∷ bs) v a =
    if_cases (All (λ (b : BindSession). Usable b.throttle)) (str_eq t.name bind) (λ _. (v, a.1))
      (λ _. (a.0, All-put_bind_throttle bind b bs v a.1))

pub found_bind-Usable :
    (bind : String) (target : BindTarget) (bs : List BindSession)
    → All (λ b. Usable b.throttle) bs
    → found_bind bind (find (λ b. str_eq b.name bind) bs) ≡ ok target
    → Usable target.throttle
found_bind-Usable bind target [] a h = cc
found_bind-Usable bind target (t ∷ bs) a h = elim (Bool-cases (str_eq t.name bind)) [
  | inl here ↦ let has : t.throttle ≡ target.throttle = ground arith in subst Usable has a.0
  | inr there ↦
      let later : found_bind bind (find (λ b. str_eq b.name bind) bs) ≡ ok target = ground arith in
      found_bind-Usable bind target bs a.1 later
]
