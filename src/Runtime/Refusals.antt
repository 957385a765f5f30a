-- ===== src/Runtime/Refusals.antt =====
-- The loop of an outbound bind over the polls of its attempts, and against a peer that refuses every
-- connection: src/runtime.rs `run_bind_loop`.
use siphon_smpp.Common.{
  ℕ, zero, suc, ◌*◌, ◌≡◌, refl, String, true, false, Option, none, some, List, [], ◌∷◌, min, ◌<◌,
  ◌⊎◌, if◌then◌else◌,
}
use siphon_smpp.Runtime.{State}
use siphon_smpp.Runtime.Supervisor.{
  Observed, attempt, after_attempt, supervise, max_backoff, run_bind_loop,
}

-- The peer refuses the connection: the polls see no session, some of them, within the deadline, while the
-- connect is under way, and then one that it failed.
unfoldable pub IsRefused : List Observed → Type 0
IsRefused [] = ⊥
IsRefused (o ∷ polls) =
    (o.alive ≡ false)
    × ((o.connect_failed ≡ true)
        ⊎ ((o.connect_failed ≡ false) × (o.waited < 15000) × IsRefused polls))

-- The first poll that sees that the connection failed, and the polls after it.
abbrev pub first_failed : List Observed → Option (Observed × List Observed)
first_failed [] = none
first_failed (o ∷ polls) = if o.connect_failed then some (o, polls) else first_failed polls

-- `n` sleeps, each twice as long as the one before, up to the maximum.
unfoldable pub doubling : ℕ → ℕ → List ℕ
doubling backoff zero = []
doubling backoff (suc n) = backoff ∷ doubling (min (backoff * 2) max_backoff) n

-- What the attempts come to.
unfoldable pub Outcomes : List (List Observed) → List (Option ℕ) → Type 0
Outcomes [] [] = Unit
Outcomes [] (o ∷ outcomes) = ⊥
Outcomes (polls ∷ attempts) [] = ⊥
Outcomes (polls ∷ attempts) (o ∷ outcomes) = (attempt polls ≡ some o) × Outcomes attempts outcomes

-- The loop over the polls is the loop over what the attempts come to.
pub supervise-run_bind_loop :
    (name : String) (backoff : ℕ) (attempts : List (List Observed)) (outcomes : List (Option ℕ))
    (s : State)
    → Outcomes attempts outcomes
    → supervise name backoff attempts s ≡ some (run_bind_loop name backoff outcomes s)
unfolding supervise run_bind_loop Outcomes
supervise-run_bind_loop name backoff [] [] s h = refl
supervise-run_bind_loop name backoff [] (o ∷ outcomes) s h = elim h [ ]
supervise-run_bind_loop name backoff (polls ∷ attempts) [] s h = elim h [ ]
supervise-run_bind_loop name backoff (polls ∷ attempts) (o ∷ outcomes) s h =
    let round = after_attempt name backoff o s in
    let ih = supervise-run_bind_loop name round.backoff attempts outcomes round.state h.1 in
    rw (h.0, supervise) (rw ih refl)
