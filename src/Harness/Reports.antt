-- ===== src/Harness/Reports.antt =====
-- The report of the driver: harness/src/main.rs `report` and the tasks of `drive`.
use mathlib.Core.List.{Perm, foldr}
use mathlib.Core.List.Perm
use siphon_smpp.Common.{
  ℕ, suc, ◌+◌, ◌≡◌, refl, ap, sym, ◌∙◌, String, List, [], ◌∷◌, ◌++◌, if◌then◌else◌, str_eq, eq_iff,
  length, Result, ok, err, arith,
}
use siphon_smpp.Harness.{
  Tally, no_tally, add_failure, task_ends, drive, insert_sorted, sort, report,
}

-- The latencies and the number of errors among outcomes.
pub latencies_of : List (Result String ℕ) → List ℕ
latencies_of [] = []
latencies_of (ok micros ∷ rs) = micros ∷ latencies_of rs
latencies_of (err reason ∷ rs) = latencies_of rs

pub errors_of : List (Result String ℕ) → ℕ
errors_of [] = 0
errors_of (ok micros ∷ rs) = errors_of rs
errors_of (err reason ∷ rs) = suc (errors_of rs)

-- How often a reason was counted.
pub count_of : String → List (String × ℕ) → ℕ
count_of reason [] = 0
count_of reason ((r, n) ∷ fs) = if str_eq r reason then n else count_of reason fs

-- How many outcomes have this error.
pub given : String → List (Result String ℕ) → ℕ
given reason [] = 0
given reason (ok micros ∷ rs) = given reason rs
given reason (err r ∷ rs) = (if str_eq r reason then 1 else 0) + given reason rs

pub every_outcome :
    (rs : List (Result String ℕ)) → length (latencies_of rs) + errors_of rs ≡ length rs
unfolding latencies_of errors_of
every_outcome [] = omega arith
every_outcome (ok micros ∷ rs) = omega (arith, every_outcome rs)
every_outcome (err reason ∷ rs) = omega (arith, every_outcome rs)

append_assoc_one : (xs ys : List ℕ) (x : ℕ) → (xs ++ x ∷ []) ++ ys ≡ xs ++ x ∷ ys
append_assoc_one [] ys x = refl
append_assoc_one (z ∷ xs) ys x = ap (◌∷◌ z) (append_assoc_one xs ys x)

append_nil : (xs : List ℕ) → xs ++ [] ≡ xs
append_nil [] = refl
append_nil (x ∷ xs) = ap (◌∷◌ x) (append_nil xs)

pub drive-latencies :
    (rs : List (Result String ℕ)) (t : Tally)
    → (drive rs t).latencies ≡ t.latencies ++ latencies_of rs
unfolding drive latencies_of task_ends
drive-latencies [] t = sym (append_nil t.latencies)
drive-latencies (ok micros ∷ rs) t =
    drive-latencies rs (task_ends (ok micros) t)
    ∙ append_assoc_one t.latencies (latencies_of rs) micros
drive-latencies (err reason ∷ rs) t = drive-latencies rs (task_ends (err reason) t)

pub drive-errors :
    (rs : List (Result String ℕ)) (t : Tally) → (drive rs t).errors ≡ t.errors + errors_of rs
unfolding drive errors_of task_ends
drive-errors [] t = omega arith
drive-errors (ok micros ∷ rs) t = drive-errors rs (task_ends (ok micros) t)
drive-errors (err reason ∷ rs) t = omega (arith, drive-errors rs (task_ends (err reason) t))

count_of-add_failure :
    (reason r : String) (fs : List (String × ℕ))
    → count_of reason (add_failure r fs) ≡ (if str_eq r reason then 1 else 0) + count_of reason fs
unfolding count_of add_failure
count_of-add_failure reason r [] = ground arith
count_of-add_failure reason r ((q, n) ∷ fs) =
    ground (arith, eq_iff q r, eq_iff q reason, eq_iff r reason, count_of-add_failure reason r fs)

drive-failures :
    (reason : String) (rs : List (Result String ℕ)) (t : Tally)
    → count_of reason (drive rs t).failures ≡ count_of reason t.failures + given reason rs
unfolding drive given task_ends
drive-failures reason [] t = omega arith
drive-failures reason (ok micros ∷ rs) t = drive-failures reason rs (task_ends (ok micros) t)
drive-failures reason (err r ∷ rs) t = omega (
  arith,
  drive-failures reason rs (task_ends (err r) t),
  count_of-add_failure reason r t.failures,
)

insert_sorted_comm :
    (x y : ℕ) (l : List ℕ)
    → insert_sorted x (insert_sorted y l) ≡ insert_sorted y (insert_sorted x l)
unfolding insert_sorted
insert_sorted_comm x y [] = ground arith
insert_sorted_comm x y (z ∷ l) = ground (arith, insert_sorted_comm x y l)

numbers_set : IsSet ℕ
numbers_set = hlevel

texts_set : IsSet (List ℕ)
texts_set = hlevel

note : Result String ℕ → List ℕ → List ℕ
note (ok micros) sorted = insert_sorted micros sorted
note (err reason) sorted = sorted

note_comm : (a b : Result String ℕ) (l : List ℕ) → note a (note b l) ≡ note b (note a l)
unfolding note
note_comm (ok x) (ok y) l = insert_sorted_comm x y l
note_comm (ok x) (err r) l = refl
note_comm (err r) (ok y) l = refl
note_comm (err r) (err q) l = refl

sort-latencies_of : (rs : List (Result String ℕ)) → sort (latencies_of rs) ≡ foldr note [] rs
unfolding sort latencies_of note
sort-latencies_of [] = refl
sort-latencies_of (ok micros ∷ rs) = ap (insert_sorted micros) (sort-latencies_of rs)
sort-latencies_of (err reason ∷ rs) = sort-latencies_of rs

sort-perm :
    {rs rs' : List (Result String ℕ)}
    → Perm rs rs'
    → sort (latencies_of rs) ≡ sort (latencies_of rs')
sort-perm {rs} {rs'} p =
    sort-latencies_of rs ∙ Perm.foldr-eq texts_set note note_comm p [] ∙ sym (sort-latencies_of rs')

-- What an outcome adds to a sum.
weigh : (Result String ℕ → ℕ) → List (Result String ℕ) → ℕ
weigh w = foldr (λ r n. w r + n) 0

weigh-perm :
    (w : Result String ℕ → ℕ) {rs rs' : List (Result String ℕ)}
    → Perm rs rs'
    → weigh w rs ≡ weigh w rs'
unfolding weigh
weigh-perm w p = Perm.foldr-eq numbers_set (λ r n. w r + n) (λ a b n. omega arith) p 0

fault : Result String ℕ → ℕ
fault (ok micros) = 0
fault (err reason) = 1

fault_of : String → Result String ℕ → ℕ
fault_of reason (ok micros) = 0
fault_of reason (err r) = if str_eq r reason then 1 else 0

errors_of-weigh : (rs : List (Result String ℕ)) → errors_of rs ≡ weigh fault rs
unfolding errors_of weigh fault
errors_of-weigh [] = refl
errors_of-weigh (ok micros ∷ rs) = omega (arith, errors_of-weigh rs)
errors_of-weigh (err reason ∷ rs) = omega (arith, errors_of-weigh rs)

given-weigh :
    (reason : String) (rs : List (Result String ℕ)) → given reason rs ≡ weigh (fault_of reason) rs
unfolding given weigh fault_of
given-weigh reason [] = refl
given-weigh reason (ok micros ∷ rs) = omega (arith, given-weigh reason rs)
given-weigh reason (err r ∷ rs) = omega (arith, given-weigh reason rs)

took : Result String ℕ → ℕ
took (ok micros) = 1
took (err reason) = 0

length-latencies_of : (rs : List (Result String ℕ)) → length (latencies_of rs) ≡ weigh took rs
unfolding latencies_of weigh took
length-latencies_of [] = refl
length-latencies_of (ok micros ∷ rs) = omega (arith, length-latencies_of rs)
length-latencies_of (err reason ∷ rs) = omega (arith, length-latencies_of rs)

-- A report tells no more of the latencies than how many they are, and what they are in order.
report-same :
    (t t' : Tally)
    → length t.latencies ≡ length t'.latencies
    → t.errors ≡ t'.errors
    → sort t.latencies ≡ sort t'.latencies
    → report t ≡ report t'
unfolding report
report-same t t' l e s = ground arith

module _ (rs rs' : List (Result String ℕ)) (p : Perm rs rs') where
  -- The order in which the tasks end changes nothing of the report, nor how often each error is counted.
  pub report-perm :
      (report (drive rs no_tally) ≡ report (drive rs' no_tally))
      × ((reason : String)
          → count_of reason (drive rs no_tally).failures
            ≡ count_of reason (drive rs' no_tally).failures)
  unfolding count_of
  report-perm = (
    report-same (drive rs no_tally) (drive rs' no_tally)
        (ap length (drive-latencies rs no_tally)
          ∙ length-latencies_of rs
          ∙ weigh-perm took p
          ∙ sym (length-latencies_of rs')
          ∙ sym (ap length (drive-latencies rs' no_tally)))
        (omega (
          arith,
          drive-errors rs no_tally,
          errors_of-weigh rs,
          weigh-perm fault p,
          errors_of-weigh rs',
          drive-errors rs' no_tally,
        ))
        (ap sort (drive-latencies rs no_tally)
          ∙ sort-perm p
          ∙ sym (ap sort (drive-latencies rs' no_tally))),
    λ reason. omega (
      arith,
      drive-failures reason rs no_tally,
      given-weigh reason rs,
      weigh-perm (fault_of reason) p,
      given-weigh reason rs',
      drive-failures reason rs' no_tally,
    ),
  )
