-- ===== src/Runtime/Tally.antt =====
-- Runs of the program, src/runtime.rs, on which something is counted, and what a count says of a limiter.
use siphon_smpp.Common.{ℕ, ◌+◌, ◌≡◌, Bool, Option, some}
use siphon_smpp.RateLimiter.{Bucket}
use siphon_smpp.RateLimiter.Ledger.{Spends, Spends-refl, Spends-trans}
use siphon_smpp.Runtime.{State}
use siphon_smpp.Runtime.Responses.{Response}
use siphon_smpp.Runtime.Steps.{Step}

module _ (is_success : Response → Bool) (weight : (s t : State) → Step is_success s t → ℕ)
    (Allowed : (s t : State) → Step is_success s t → Type 0) where
  -- A run of allowed steps, and their weights together.
  pub data Tally : ℕ → State → State → Type 0 where
    began : (s : State) → Tally 0 s s
    and_then :
        (n m : ℕ) (s t u : State)
        → Tally n s t
        → (step : Step is_success t u) → Allowed t u step
        → m ≡ n + weight t u step
        → Tally m s u

  -- If each step takes its weight from a limiter, then so does a run.
  module _ (throttle : State → Option Bucket)
      (takes : (s t : State) (step : Step is_success s t) (b : Bucket)
        → Allowed s t step
        → throttle s ≡ some b
        → (b' : Bucket) × (throttle t ≡ some b') × Spends (weight s t step) b b') where
    pub Tally-Spends :
        (n : ℕ) (s t : State) (b : Bucket)
        → Tally n s t
        → throttle s ≡ some b
        → (b' : Bucket) × (throttle t ≡ some b') × Spends n b b'
    Tally-Spends _ _ _ b (began s) has = (b, has, Spends-refl b)
    Tally-Spends _ _ _ b (and_then n m s t u before step allowed total) has =
        let (b', has', first) = Tally-Spends n s t b before has in
        let (b'', has'', next) = takes t u step b' allowed has' in
        (b'', has'', rw total (Spends-trans n (weight t u step) b b' b'' first next))
