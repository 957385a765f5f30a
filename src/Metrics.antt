-- ===== src/Metrics.antt =====
-- What the program asks of the metrics store: src/metrics.rs. The store is siphon's; here stand the series
-- that are registered and the calls that record into them.
use siphon_smpp.Common.{ℕ, ◌≡◌, refl, String, some, List, [], ◌∷◌, map, find, str_eq, All}
use siphon_smpp.Runtime.{
  State, Metric, pdu_handled, throttled, bind_reconnect, dispatch_error, dispatch_duration,
  bind_request, connect_failure, Direction, inbound, egress, Label, accepted, rejected,
  sample_binds,
}

pub data Kind : Type 0 where
  gauge counter histogram : Kind

pub record Series : Type 0 where
  pub name : String
  pub kind : Kind
  pub labels : List String

abbrev pub series : String → Kind → List String → Series
series name kind labels = record { name = name; kind = kind; labels = labels }

-- The registrations, in order; the help texts and the buckets are left out.
unfoldable pub register_all : List Series
register_all =
    series "siphon_smpp_binds" gauge ("direction" ∷ "state" ∷ [])
    ∷ series "siphon_smpp_pdus_total" counter ("direction" ∷ "command" ∷ "result" ∷ [])
    ∷ series "siphon_smpp_throttled_total" counter ("direction" ∷ [])
    ∷ series "siphon_smpp_bind_reconnects_total" counter ("bind" ∷ [])
    ∷ series "siphon_smpp_dispatch_errors_total" counter ("command" ∷ [])
    ∷ series "siphon_smpp_dispatch_duration_seconds" histogram ("command" ∷ [])
    ∷ series "siphon_smpp_bind_requests_total" counter ("result" ∷ [])
    ∷ series "siphon_smpp_bind_connect_failures_total" counter ("bind" ∷ [])
    ∷ []

-- A call of the store. A counter is always raised by 1; what a histogram observes is not kept.
pub data StoreCall : Type 0 where
  counter_inc : String → List (String × String) → StoreCall
  histogram_observe : String → List (String × String) → StoreCall
  gauge_set : String → List (String × String) → ℕ → StoreCall

abbrev pub direction_label : Direction → String
direction_label inbound = "inbound"
direction_label egress = "egress"

abbrev pub result_label : Label → String
result_label accepted = "accepted"
result_label rejected = "rejected"

-- `record_pdu` and its kin.
unfoldable pub store_call : Metric → StoreCall
store_call (pdu_handled direction command result) = counter_inc "siphon_smpp_pdus_total" (
    ("direction", direction_label direction)
    ∷ ("command", command)
    ∷ ("result", result_label result)
    ∷ [])
store_call (throttled direction) =
    counter_inc "siphon_smpp_throttled_total" (("direction", direction_label direction) ∷ [])
store_call (bind_reconnect bind) =
    counter_inc "siphon_smpp_bind_reconnects_total" (("bind", bind) ∷ [])
store_call (dispatch_error command) =
    counter_inc "siphon_smpp_dispatch_errors_total" (("command", command) ∷ [])
store_call (dispatch_duration command) =
    histogram_observe "siphon_smpp_dispatch_duration_seconds" (("command", command) ∷ [])
store_call (bind_request result) =
    counter_inc "siphon_smpp_bind_requests_total" (("result", result_label result) ∷ [])
store_call (connect_failure bind) =
    counter_inc "siphon_smpp_bind_connect_failures_total" (("bind", bind) ∷ [])

unfoldable pub set_binds : (egress inbound : ℕ) → List StoreCall
set_binds out inn =
    gauge_set "siphon_smpp_binds" (("direction", direction_label egress) ∷ ("state", "bound") ∷ [])
      out
    ∷ gauge_set "siphon_smpp_binds"
        (("direction", direction_label inbound) ∷ ("state", "bound") ∷ []) inn
    ∷ []

-- One tick of the sampler.
unfoldable pub sample : State → List StoreCall
unfolding sample_binds set_binds
sample s = let (out, inn) = sample_binds s in set_binds out inn

-- The series that a call records into: its name, its kind and the keys of its labels.
abbrev pub series_of : StoreCall → Series
series_of (counter_inc name labels) = series name counter (map (λ l. l.0) labels)
series_of (histogram_observe name labels) = series name histogram (map (λ l. l.0) labels)
series_of (gauge_set name labels value) = series name gauge (map (λ l. l.0) labels)

-- The series registered under the call's name is of the call's kind and has just its label keys.
abbrev pub IsRegistered : StoreCall → Type 0
IsRegistered call =
    find (λ r. str_eq r.name (series_of call).name) register_all ≡ some (series_of call)

store_call-IsRegistered : (m : Metric) → IsRegistered (store_call m)
unfolding store_call register_all
store_call-IsRegistered (pdu_handled direction command result) = refl
store_call-IsRegistered (throttled direction) = refl
store_call-IsRegistered (bind_reconnect bind) = refl
store_call-IsRegistered (dispatch_error command) = refl
store_call-IsRegistered (dispatch_duration command) = refl
store_call-IsRegistered (bind_request result) = refl
store_call-IsRegistered (connect_failure bind) = refl

-- Whatever the program counts or samples goes to a series that is registered, of that kind and with just
-- those label keys.
pub calls-IsRegistered :
    (m : Metric) (s : State) → IsRegistered (store_call m) × All IsRegistered (sample s)
unfolding register_all sample
calls-IsRegistered m s = (store_call-IsRegistered m, (refl, (refl, tt)))
