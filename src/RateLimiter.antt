-- ===== src/RateLimiter.antt =====
-- The token bucket: src/runtime.rs `RateLimiter`. Instants are numbers of nanoseconds, and a token is
-- counted in billionths, in which the `f64` of the source is a whole number: one nanosecond refills
-- `refill_per_sec` of them. The rounding of `f64` is not modelled.
pub mod Bounds
pub mod Ledger
pub mod Waits
use siphon_smpp.Common.{
  ℕ, ◌+◌, ◌-◌, ◌*◌, ◌/◌, Bool, true, false, Option, none, some, List, [], ◌∷◌, leb, if◌then◌else◌,
  min, max,
}

abbrev pub nanos_per_sec : ℕ
nanos_per_sec = 1000000000

-- One token, in billionths.
abbrev pub token : ℕ
token = 1000000000

pub record Bucket : Type 0 where
  pub tokens : ℕ
  pub max_tokens : ℕ
  pub refill_per_sec : ℕ
  pub last : ℕ

unfoldable pub new : (rate now : ℕ) → Bucket
new rate now =
    let r = max rate 1 in
    record { tokens = r * token; max_tokens = r * token; refill_per_sec = r; last = now }

-- `duration_since` is 0 where the clock has not advanced.
unfoldable pub refill : ℕ → Bucket → Bucket
refill now b = record b {
  tokens = min (b.tokens + (now - b.last) * b.refill_per_sec) b.max_tokens;
  last = now;
}

unfoldable pub try_acquire : ℕ → Bucket → Bucket × Bool
unfolding refill
try_acquire now b =
    let b' = refill now b in
    if leb token b'.tokens then (record b' { tokens = b'.tokens - token }, true) else (b', false)

-- `Duration::from_secs_f64(deficit / refill_per_sec)`, to the nearest nanosecond.
unfoldable pub wait_for : Bucket → ℕ
wait_for b = (2 * (token - b.tokens) + b.refill_per_sec) / (2 * b.refill_per_sec)

-- One round of the loop of `acquire`: the new bucket, and how long to sleep if no token was there.
unfoldable pub acquire_round : ℕ → Bucket → Bucket × Option ℕ
unfolding refill wait_for
acquire_round now b =
    let b' = refill now b in
    if leb token b'.tokens
    then (record b' { tokens = b'.tokens - token }, none)
    else (b', some (wait_for b'))

-- `acquire`, with the clock's reading at each round; `none` when the readings run out. The result
-- says whether it had to wait.
unfoldable pub acquire_loop : List ℕ → Bool → Bucket → Option (Bucket × Bool)
acquire_loop [] waited b = none
acquire_loop (now ∷ later) waited b =
    let (b', wait) = acquire_round now b in
    elim wait [ none ↦ some (b', waited) | some time ↦ acquire_loop later true b' ]

unfoldable pub acquire : List ℕ → Bucket → Option (Bucket × Bool)
unfolding acquire_loop
acquire clock b = acquire_loop clock false b

-- Attempts at the given instants, in order, and how many got a token.
unfoldable pub grants : List ℕ → Bucket → Bucket × ℕ
grants [] b = (b, 0)
grants (now ∷ later) b =
    let (b', granted) = try_acquire now b in
    let (b'', n) = grants later b' in (b'', if granted then n + 1 else n)
