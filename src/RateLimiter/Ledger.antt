-- ===== src/RateLimiter/Ledger.antt =====
-- What a limiter hands out, against the time that passes: src/runtime.rs `RateLimiter`.
use siphon_smpp.Common.{
  ℕ, ◌+◌, ◌-◌, ◌*◌, ◌≤◌, ◌<◌, ◌≡◌, refl, ◌∙◌, sym, subst, inl, inr, Bool, true, none, some, List,
  [], ◌∷◌, if◌then◌else◌, arith, Option-cases,
}
use siphon_smpp.RateLimiter.{
  Bucket, token, nanos_per_sec, new, try_acquire, acquire_round, acquire_loop,
}
use siphon_smpp.RateLimiter.Bounds.{IsMonotone, elapsed_split, new_fields}

-- From `b` to `b'` at least `n` tokens went out, and no more than were there and have been refilled.
pub record Spends (n : ℕ) (b b' : Bucket) : Type 0 where
  pub ordered : b.last ≤ b'.last
  pub rate : b'.refill_per_sec ≡ b.refill_per_sec
  pub spent : n * token + b'.tokens ≤ b.tokens + (b'.last - b.last) * b.refill_per_sec

pub Spends-refl : (b : Bucket) → Spends 0 b b
Spends-refl b = record { ordered = omega arith; rate = refl; spent = omega arith }

pub Spends-trans : (m n : ℕ) (b c d : Bucket) → Spends m b c → Spends n c d → Spends (m + n) b d
Spends-trans m n b c d p q =
    let later : n * token + d.tokens ≤ c.tokens + (d.last - c.last) * b.refill_per_sec =
      subst (λ r. n * token + d.tokens ≤ c.tokens + (d.last - c.last) * r) p.rate q.spent in
    let first = p.spent in
    let whole = elapsed_split b.refill_per_sec b.last c.last d.last p.ordered q.ordered in
    record {
      ordered = omega (arith, p.ordered, q.ordered);
      rate = q.rate ∙ p.rate;
      spent = omega arith;
    }

pub try_acquire-Spends :
    (now : ℕ) (b : Bucket)
    → b.last ≤ now
    → Spends (if (try_acquire now b).1 then 1 else 0) b (try_acquire now b).0
unfolding try_acquire
try_acquire-Spends now b h = record {
  ordered = ground arith;
  rate = ground arith;
  spent = ground arith;
}

acquire_round-Spends :
    (now : ℕ) (b : Bucket)
    → b.last ≤ now
    → (acquire_round now b).1 ≡ none
    → Spends 1 b (acquire_round now b).0
unfolding acquire_round
acquire_round-Spends now b h e = record {
  ordered = ground arith;
  rate = ground arith;
  spent = ground arith;
}

acquire_round-waits :
    (now time : ℕ) (b : Bucket)
    → b.last ≤ now
    → (acquire_round now b).1 ≡ some time
    → Spends 0 b (acquire_round now b).0 × ((acquire_round now b).0.last ≡ now)
unfolding acquire_round
acquire_round-waits now time b h e =
    (record { ordered = ground arith; rate = ground arith; spent = ground arith }, ground arith)

-- A sender that was held back until its turn has taken one token.
pub acquire_loop-Spends :
    (clock : List ℕ) (waited waited' : Bool) (b b' : Bucket)
    → IsMonotone b.last clock
    → acquire_loop clock waited b ≡ some (b', waited')
    → Spends 1 b b'
unfolding acquire_loop
acquire_loop-Spends [] waited waited' b b' m h = cc
acquire_loop-Spends (now ∷ later) waited waited' b b' m h =
    let ih = acquire_loop-Spends later true waited' (acquire_round now b).0 b' in
    elim (Option-cases (acquire_round now b).1) [
      | inl e ↦
          let last : (acquire_round now b).0 ≡ b' = ground arith in
          subst (Spends 1 b) last (acquire_round-Spends now b m.0 e)
      | inr (time, e) ↦
          let (waits, at) = acquire_round-waits now time b m.0 e in
          let rest : acquire_loop later true (acquire_round now b).0 ≡ some (b', waited') =
            ground arith in
          Spends-trans 0 1 b (acquire_round now b).0 b' waits
            (ih (subst (λ t. IsMonotone t later) (sym at) m.1) rest)
    ]

-- From a new limiter for `rate` messages a second on, no more go out than `rate` at once and `rate` for
-- each second up to its last use.
pub new-Spends :
    (rate now n : ℕ) (b : Bucket)
    → 0 < rate
    → Spends n (new rate now) b
    → n * token ≤ rate * (nanos_per_sec + (b.last - now))
new-Spends rate now n b h spends =
    let (tokens, refills, last) = new_fields rate now h in
    let spent = rw (tokens, refills, last) at (spends.spent) in omega arith
