-- ===== src/Harness.antt =====
-- The load harness: harness/src/main.rs, its mock of an SMSC, what its driver counts and what it reports.
-- Throughput, which is a quotient of floats, and the printed text are left out.
pub mod Ids
pub mod Reports
pub mod Percentiles
use siphon_smpp.Common.{
  ℕ, zero, suc, ◌+◌, ◌++◌, ◌-◌, ◌*◌, ◌/◌, ◌%◌, ◌^◌, min, max, replicate, String, Bool, true, false,
  Option, none, some, List, [], ◌∷◌, ltb, leb, ◌==◌, if◌then◌else◌, str_eq, length, unwrap_or,
  is_empty, get_elem?, Result, ok, err, code_points, ◌&&◌, ◌||◌,
}

-- The arguments of `drive`, with what they are when the command line does not give them.
pub record DriveArgs : Type 0 where
  pub host : String
  pub port : ℕ
  pub system_id : String
  pub password : String
  pub count : ℕ
  pub window : ℕ
  pub source_addr : String
  pub destination_addr : String
  pub body_len : ℕ

abbrev pub default_args : DriveArgs
default_args = record {
  host = "127.0.0.1";
  port = 2775;
  system_id = "load";
  password = "load";
  count = 50000;
  window = 64;
  source_addr = "15550100";
  destination_addr = "15550199";
  body_len = 32;
}

-- The window that the codec's client is given.
unfoldable pub client_window : DriveArgs → ℕ
client_window a = max a.window 8

-- What is sent to warm up, which is not measured.
unfoldable pub warm_up : DriveArgs → ℕ
warm_up a = min a.window a.count

unfoldable pub body : DriveArgs → List ℕ
body a = replicate a.body_len b'x'

-- `serve`: the next message id, in an `AtomicU64`.
pub record MockSmsc : Type 0 where
  pub next_id : ℕ

abbrev pub first_mock : MockSmsc
first_mock = record { next_id = 1 }

abbrev pub digit : ℕ → ℕ
digit d = if ltb d 10 then b'0' + d else b'a' + (d - 10)

-- `format!("{id:x}")`: the digits, the lowest first into what follows; a `u64` has sixteen at most.
unfoldable pub hex_loop : (digits n : ℕ) → List ℕ → List ℕ
hex_loop zero n rest = rest
hex_loop (suc digits) n rest =
    let more = hex_loop digits (n / 16) (digit (n % 16) ∷ rest) in
    if ltb n 16 then digit n ∷ rest else more

unfoldable pub lower_hex : ℕ → List ℕ
unfolding hex_loop
lower_hex n = hex_loop 16 n []

-- The id that a `submit_sm` is accepted with.
unfoldable pub on_submit_sm : MockSmsc → List ℕ × MockSmsc
unfolding lower_hex
on_submit_sm m = (lower_hex m.next_id, record m { next_id = (m.next_id + 1) % 2 ^ 64 })

-- What the driver's tasks have counted.
pub record Tally : Type 0 where
  pub latencies : List ℕ
  pub errors : ℕ
  pub failures : List (String × ℕ)

abbrev pub no_tally : Tally
no_tally = record { latencies = []; errors = 0; failures = [] }

-- `entry(reason).or_insert(0) += 1`.
unfoldable pub add_failure : String → List (String × ℕ) → List (String × ℕ)
add_failure reason [] = (reason, 1) ∷ []
add_failure reason ((r, n) ∷ fs) =
    if str_eq r reason then (r, n + 1) ∷ fs else (r, n) ∷ add_failure reason fs

-- A task ends: with the microseconds that its response took, or with the text of its error.
unfoldable pub task_ends : Result String ℕ → Tally → Tally
unfolding add_failure
task_ends (ok micros) t = record t { latencies = t.latencies ++ micros ∷ [] }
task_ends (err reason) t = record t {
  errors = t.errors + 1;
  failures = add_failure reason t.failures;
}

-- The tasks, in the order in which they end.
unfoldable pub drive : List (Result String ℕ) → Tally → Tally
unfolding task_ends
drive [] t = t
drive (r ∷ rs) t = drive rs (task_ends r t)

unfoldable pub insert_sorted : ℕ → List ℕ → List ℕ
insert_sorted x [] = x ∷ []
insert_sorted x (y ∷ ys) = if leb x y then x ∷ y ∷ ys else y ∷ insert_sorted x ys

-- `sort_unstable`.
unfoldable pub sort : List ℕ → List ℕ
unfolding insert_sorted
sort [] = []
sort (x ∷ xs) = insert_sorted x (sort xs)

-- The latency at `p` permille, whose index is rounded to the nearest.
unfoldable pub percentile : (p : ℕ) → List ℕ → ℕ
percentile p sorted =
    if is_empty sorted
    then 0
    else let last = length sorted - 1 in
      let index = (2 * (p * last) + 1000) / 2000 in unwrap_or (get_elem? sorted (min index last)) 0

pub record Report : Type 0 where
  pub submitted : ℕ
  pub accepted : ℕ
  pub errors : ℕ
  pub p50 : ℕ
  pub p90 : ℕ
  pub p99 : ℕ
  pub p999 : ℕ
  pub exit_code : ℕ

unfoldable pub report : Tally → Report
unfolding sort percentile
report t =
    let accepted = length t.latencies in
    let sorted = sort t.latencies in
    record {
      submitted = accepted + t.errors;
      accepted = accepted;
      errors = t.errors;
      p50 = percentile 500 sorted;
      p90 = percentile 900 sorted;
      p99 = percentile 990 sorted;
      p999 = percentile 999 sorted;
      exit_code = if ltb 0 t.errors then 1 else 0;
    }
