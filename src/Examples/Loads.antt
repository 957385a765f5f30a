-- ===== src/Examples/Loads.antt =====
-- A run of the load harness, and a coroutine: harness/src/main.rs, src/dispatch.rs.
use mathlib.Core.List.Perm
use siphon_smpp.Common.{
  ℕ, ◌+◌, ◌≡◌, String, true, false, List, [], ◌∷◌, leb, if◌then◌else◌, Result, ok, err,
}
use siphon_smpp.Dispatch.{pdu_reply, not_settled, pending, settle}
use siphon_smpp.Dispatch.Awaiting.{
  Ending, raised, reports, gone, receive, await_handler, new, verdict, settle_backstop,
  await_handler-settle,
}
use siphon_smpp.Harness.{no_tally, drive, report}
use siphon_smpp.Harness.Reports.{count_of, report-perm}

abbrev outcomes : List (Result String ℕ)
outcomes = ok 1200 ∷ err "ESME_RSYSERR" ∷ ok 300 ∷ []

abbrev late_first : List (Result String ℕ)
late_first = err "ESME_RSYSERR" ∷ ok 1200 ∷ ok 300 ∷ []

report-perm_example :
    (report (drive outcomes no_tally) ≡ report (drive late_first no_tally))
    × ((reason : String)
        → count_of reason (drive outcomes no_tally).failures
          ≡ count_of reason (drive late_first no_tally).failures)
report-perm_example = report-perm outcomes late_first (Perm.swap _ _ (ok 300 ∷ []))

-- A handler that was cancelled when its time ran out, and a report after it.
abbrev cancelled : Ending
cancelled = raised true (record { error = "CancelledError"; is_exception = false })

await_handler-settle_example :
    settle (
      pending (
        receive pdu_reply
          (30000 + settle_backstop)
          new
          (reports 30004 (await_handler "late" cancelled).0 ∷ gone 30005 ∷ [])))
    ≡ (if leb 30004 (30000 + settle_backstop)
        then verdict pdu_reply "late" cancelled
        else err not_settled)
await_handler-settle_example =
    await_handler-settle pdu_reply "late" 30000 30004 cancelled (gone 30005 ∷ [])
