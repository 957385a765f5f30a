-- ===== src/Harness/Percentiles.antt =====
-- The numbers of the report: harness/src/main.rs `report`.
use siphon_smpp.Common.{
  ℕ, zero, suc, ◌+◌, ◌-◌, ◌*◌, ◌/◌, ◌≤◌, ◌<◌, ◌≡◌, ap, inl, inr, String, List, [], ◌∷◌, leb, All,
  length, unwrap_or, get_elem?, Result, arith, Bool-cases,
}
use siphon_smpp.Harness.{no_tally, drive, insert_sorted, sort, percentile, report}
use siphon_smpp.Harness.Reports.{drive-latencies, drive-errors, every_outcome}

abbrev Ascending : List ℕ → Type 0
Ascending [] = Unit
Ascending (x ∷ xs) = All (λ y. x ≤ y) xs × Ascending xs

below_insert :
    (x y : ℕ) (l : List ℕ) → x ≤ y → All (λ z. x ≤ z) l → All (λ z. x ≤ z) (insert_sorted y l)
unfolding insert_sorted
below_insert x y [] h a = (h, tt)
below_insert x y (z ∷ l) h a = elim (Bool-cases (leb y z)) [
  | inl first ↦ rw first (h, a)
  | inr later ↦ rw later (a.0, below_insert x y l h a.1)
]

below-All : (x y : ℕ) (l : List ℕ) → x ≤ y → All (λ z. y ≤ z) l → All (λ z. x ≤ z) l
below-All x y [] h a = tt
below-All x y (z ∷ l) h a = (omega (arith, a.0), below-All x y l h a.1)

insert_sorted-Ascending : (x : ℕ) (l : List ℕ) → Ascending l → Ascending (insert_sorted x l)
unfolding insert_sorted
insert_sorted-Ascending x [] a = (tt, tt)
insert_sorted-Ascending x (y ∷ l) a = elim (Bool-cases (leb x y)) [
  | inl first ↦ let h : x ≤ y = ground arith in rw first ((h, below-All x y l h a.0), a)
  | inr later ↦
      let h : y ≤ x = ground arith in
      rw later (below_insert y x l h a.0, insert_sorted-Ascending x l a.1)
]

sort-Ascending : (l : List ℕ) → Ascending (sort l)
unfolding sort
sort-Ascending [] = tt
sort-Ascending (x ∷ l) = insert_sorted-Ascending x (sort l) (sort-Ascending l)

abbrev at : List ℕ → ℕ → ℕ
at l i = unwrap_or (get_elem? l i) 0

below_at : (x : ℕ) (l : List ℕ) (i : ℕ) → All (λ z. x ≤ z) l → i < length l → x ≤ at l i
below_at x [] i a h = absurd (omega arith)
below_at x (y ∷ l) zero a h = a.0
below_at x (y ∷ l) (suc i) a h = below_at x l i a.1 (omega arith)

at_mono : (l : List ℕ) (i j : ℕ) → Ascending l → i ≤ j → j < length l → at l i ≤ at l j
at_mono [] i j a h k = absurd (omega arith)
at_mono (x ∷ l) zero zero a h k = omega arith
at_mono (x ∷ l) zero (suc j) a h k = below_at x l j a.0 (omega arith)
at_mono (x ∷ l) (suc i) zero a h k = absurd (omega arith)
at_mono (x ∷ l) (suc i) (suc j) a h k = at_mono l i j a.1 (omega arith) (omega arith)

index_mono :
    (p q last : ℕ) → p ≤ q → (2 * (p * last) + 1000) / 2000 ≤ (2 * (q * last) + 1000) / 2000
index_mono p q last h = grind arith

percentile_mono : (p q : ℕ) (l : List ℕ) → Ascending l → p ≤ q → percentile p l ≤ percentile q l
unfolding percentile
percentile_mono p q [] a h = omega arith
percentile_mono p q (x ∷ l) a h =
    let up = index_mono p q (length (x ∷ l) - 1) h in
    at_mono (x ∷ l) _ _ a (omega (arith, up)) (omega arith)

-- The report counts every task that was started, and its percentiles ascend.
pub report_ordered :
    (rs : List (Result String ℕ))
    → let r = report (drive rs no_tally) in
      (r.submitted ≡ length rs) × (r.p50 ≤ r.p90) × (r.p90 ≤ r.p99) × (r.p99 ≤ r.p999)
unfolding report
report_ordered rs =
    let t = drive rs no_tally in
    let sorted = sort-Ascending t.latencies in
    (
      omega (
        arith,
        ap length (drive-latencies rs no_tally),
        drive-errors rs no_tally,
        every_outcome rs,
      ),
      percentile_mono 500 900 (sort t.latencies) sorted (omega arith),
      percentile_mono 900 990 (sort t.latencies) sorted (omega arith),
      percentile_mono 990 999 (sort t.latencies) sorted (omega arith),
    )
