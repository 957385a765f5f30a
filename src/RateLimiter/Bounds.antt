-- ===== src/RateLimiter/Bounds.antt =====
-- How many tokens a limiter hands out: src/runtime.rs `RateLimiter::try_acquire`.
use siphon_smpp.Common.{
  ℕ, zero, suc, ◌+◌, ◌-◌, ◌*◌, ◌≤◌, ◌<◌, ◌≡◌, ◌∙◌, ap, refl, if◌then◌else◌, replicate, true, false,
  List, [], ◌∷◌, arith,
}
use siphon_smpp.RateLimiter.{Bucket, token, nanos_per_sec, new, try_acquire, grants}

-- A bucket that `new` made, and that only `refill` and takes have changed.
pub record IsValid (b : Bucket) : Type 0 where
  pub capped : b.tokens ≤ b.max_tokens
  pub holds_one : token ≤ b.max_tokens
  pub refills : 0 < b.refill_per_sec

pub new-IsValid : (rate now : ℕ) → IsValid (new rate now)
unfolding new
new-IsValid rate now = omega arith

pub try_acquire-IsValid : (now : ℕ) (b : Bucket) → IsValid b → IsValid (try_acquire now b).0
unfolding try_acquire
try_acquire-IsValid now b v = ground arith

-- The instants do not run backwards from `start`.
abbrev pub IsMonotone : ℕ → List ℕ → Type 0
IsMonotone start [] = Unit {0}
IsMonotone start (t ∷ ts) = (start ≤ t) × IsMonotone t ts

abbrev pub last_instant : ℕ → List ℕ → ℕ
last_instant start [] = start
last_instant start (t ∷ ts) = last_instant t ts

module _ (now : ℕ) (b : Bucket) where
  try_acquire_kept :
      ((try_acquire now b).0.last ≡ now) × ((try_acquire now b).0.refill_per_sec ≡ b.refill_per_sec)
  unfolding try_acquire
  try_acquire_kept = ground arith

  try_acquire_spends :
      (try_acquire now b).0.tokens + (if (try_acquire now b).1 then token else 0)
      ≤ b.tokens + (now - b.last) * b.refill_per_sec
  unfolding try_acquire
  try_acquire_spends = ground arith

pub elapsed_split :
    (r start now end : ℕ)
    → start ≤ now
    → now ≤ end
    → (now - start) * r + (end - now) * r ≡ (end - start) * r
elapsed_split r start now end h k =
    let whole : (now - start) + (end - now) ≡ end - start = omega arith in
    omega (arith, ap (λ (t : ℕ). t * r) whole)

last_instant-le : (ts : List ℕ) (start : ℕ) → IsMonotone start ts → start ≤ last_instant start ts
last_instant-le [] start m = omega arith
last_instant-le (t ∷ ts) start m = omega (arith, last_instant-le ts t m.1)

grants_from :
    (ts : List ℕ) (b : Bucket) (start r : ℕ)
    → b.last ≡ start
    → b.refill_per_sec ≡ r
    → IsMonotone start ts
    → (grants ts b).1 * token + (grants ts b).0.tokens
      ≤ b.tokens + (last_instant start ts - start) * r
unfolding grants
grants_from [] b start r el er m = omega arith
grants_from (now ∷ ts) b start r el er m =
    let (kept_last, kept_rate) = try_acquire_kept now b in
    let rest = grants_from ts (try_acquire now b).0 now r kept_last (kept_rate ∙ er) m.1 in
    let spent = rw (el, er) at (try_acquire_spends now b) in
    let split = elapsed_split r start now (last_instant now ts) m.0 (last_instant-le ts now m.1) in
    ground arith

-- From any state of a limiter, over any instants that do not run backwards, the tokens handed out and
-- those left never exceed the tokens that were there and those that the elapsed time refills.
pub grants_conserve :
    (ts : List ℕ) (b : Bucket)
    → IsMonotone b.last ts
    → (grants ts b).1 * token + (grants ts b).0.tokens
      ≤ b.tokens + (last_instant b.last ts - b.last) * b.refill_per_sec
grants_conserve ts b m = grants_from ts b b.last b.refill_per_sec refl refl m

pub new_fields :
    (rate now : ℕ)
    → 0 < rate
    → ((new rate now).tokens ≡ rate * token)
      × ((new rate now).refill_per_sec ≡ rate)
      × ((new rate now).last ≡ now)
unfolding new
new_fields rate now h = omega arith

-- A limiter for `rate` messages a second lets through at most one second's worth at once and `rate`
-- for each second after: in the billionths of a token, at most `rate * (10^9 + elapsed)`.
pub grants_bounded :
    (rate start : ℕ) (ts : List ℕ)
    → 0 < rate
    → IsMonotone start ts
    → (grants ts (new rate start)).1 * token
      ≤ rate * (nanos_per_sec + (last_instant start ts - start))
grants_bounded rate start ts h m =
    let (et, er, el) = new_fields rate start h in
    omega (arith, grants_from ts (new rate start) start rate el er m, et)

-- An attempt gets a token whenever what was left and what has been refilled make one.
pub try_acquire_refilled :
    (now : ℕ) (b : Bucket)
    → IsValid b
    → token ≤ b.tokens + (now - b.last) * b.refill_per_sec
    → (try_acquire now b).1 ≡ true
unfolding try_acquire
try_acquire_refilled now b v h = ground arith

-- An attempt that comes a token's refill time after the last one is never refused.
pub try_acquire_spaced :
    (now : ℕ) (b : Bucket)
    → IsValid b
    → token ≤ (now - b.last) * b.refill_per_sec
    → (try_acquire now b).1 ≡ true
try_acquire_spaced now b v h = try_acquire_refilled now b v (omega arith)

-- With no time passed since the last attempt, an attempt takes a token that is there.
take_again :
    (now : ℕ) (b : Bucket)
    → b.last ≡ now
    → b.tokens ≤ b.max_tokens
    → token ≤ b.tokens
    → try_acquire now b ≡ (record b { tokens = b.tokens - token; last = now }, true)
unfolding try_acquire
take_again now b e c h = ground (arith, (λ (x y : ℕ) (p : x ≡ y). ap (λ t. t * b.refill_per_sec) p))

take_none : (now : ℕ) (b : Bucket) → b.last ≡ now → b.tokens < token → (try_acquire now b).1 ≡ false
unfolding try_acquire
take_none now b e h = ground arith

burst_from :
    (n now : ℕ) (b : Bucket)
    → b.last ≡ now
    → b.tokens ≤ b.max_tokens
    → b.tokens ≡ n * token
    → ((grants (replicate n now) b).1 ≡ n)
      × ((grants (replicate n now) b).0.tokens ≡ 0)
      × ((grants (replicate n now) b).0.last ≡ now)
unfolding grants
burst_from zero now b l c e = (refl, e, l)
burst_from (suc n) now b l c e =
    let taken = take_again now b l c (omega arith) in
    let b' : Bucket = record b { tokens = b.tokens - token; last = now } in
    let rest = burst_from n now b' refl (omega arith) (omega arith) in ground (arith, taken, rest)

-- A new limiter lets a burst of `rate` attempts through at once, and refuses the next one at the
-- same instant.
pub burst :
    (rate now : ℕ)
    → 0 < rate
    → let r = grants (replicate rate now) (new rate now) in
      (r.1 ≡ rate) × ((try_acquire now r.0).1 ≡ false)
burst rate now h =
    let (et, er, el) = new_fields rate now h in
    let (all, left, at) = burst_from rate now (new rate now) el (new-IsValid rate now).capped et in
    (all, take_none now _ at (omega arith))
