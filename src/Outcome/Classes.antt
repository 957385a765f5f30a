-- ===== src/Outcome/Classes.antt =====
-- What each way a request ends means: src/outcome.rs `classify`, `settle`, `into_pyerr`.
use siphon_smpp.Common.{ℕ, ◌≤◌, ◌<◌, ◌≡◌, ◌≢◌, ◌↔◌, refl, String, Bool, true, false, some, arith}
use siphon_smpp.Status.{SmppError, esme_rsyserr, code, debug_name}
use siphon_smpp.Status.Names.{code-injective}
use siphon_smpp.Outcome.{
  SendFailure, nack, timeout, closed, unanswered, Target, classify, into_pyerr,
}

module _ (e : SmppError) (waited timer : ℕ) (gone : Bool) where
  -- A failure is a nack exactly when its status is not `ESME_RSYSERR`, a timeout exactly when it
  -- is and the response timer has run, a close exactly when it came earlier on a session that is
  -- gone, and is given no cause exactly when it came earlier on a session that is still there.
  pub classify_exact :
      ((classify e waited timer gone ≡ nack e) ↔ (e ≢ esme_rsyserr))
      × ((classify e waited timer gone ≡ timeout timer) ↔ (e ≡ esme_rsyserr) × (timer ≤ waited))
      × ((classify e waited timer gone ≡ closed)
          ↔ (e ≡ esme_rsyserr) × (waited < timer) × (gone ≡ true))
      × ((classify e waited timer gone ≡ unanswered)
          ↔ (e ≡ esme_rsyserr) × (waited < timer) × (gone ≡ false))
  unfolding classify
  classify_exact = (
    (λ h p. ground arith, λ h. ground (arith, code-injective e esme_rsyserr)),
    (λ h. ground (arith, code-injective e esme_rsyserr), λ h. ground arith),
    (λ h. ground (arith, code-injective e esme_rsyserr), λ h. ground arith),
    (λ h. ground (arith, code-injective e esme_rsyserr), λ h. ground arith),
  )

-- The exception carries a status exactly when the peer sent a nack, and then the nack's own.
pub into_pyerr-status :
    (f : SendFailure) (command : String) (target : Target) (name : String) (n : ℕ)
    → ((into_pyerr f command target).command_status ≡ some (name, n))
      ↔ ((e : SmppError) × (f ≡ nack e) × (name ≡ debug_name e) × (n ≡ code e))
unfolding into_pyerr
into_pyerr-status (nack e) command target name n =
    (λ h. (e, refl, cc, cc), λ h. let (e', p, q, r) = h in cc)
into_pyerr-status _ command target name n = (λ h. cc, λ h. cc h.1)
