-- ===== src/RateLimiter/Waits.antt =====
-- How long a paced sender waits: src/runtime.rs `RateLimiter::acquire`.
use siphon_smpp.Common.{
  ℕ, ◌+◌, ◌-◌, ◌*◌, ◌≤◌, ◌<◌, ◌≡◌, inl, inr, ap, sym, ◌∙◌, Bool, true, false, none, some, List, [],
  ◌∷◌, arith, not, if◌then◌else◌, Bool-cases,
}
use native.Mathlib.Nat.{div-add-mod, mod-lt}
use siphon_smpp.RateLimiter.{
  Bucket, token, try_acquire, wait_for, acquire_round, acquire_loop, acquire,
}
use siphon_smpp.RateLimiter.Bounds.{IsValid, try_acquire-IsValid, try_acquire_refilled}

-- A round takes a token exactly when `try_acquire` would, with the same bucket left behind, and asks to
-- wait otherwise.
pub acquire_round-try_acquire :
    (now : ℕ) (b : Bucket)
    → acquire_round now b ≡ (
      (try_acquire now b).0,
      if (try_acquire now b).1 then none else some (wait_for (try_acquire now b).0),
    )
unfolding acquire_round try_acquire
acquire_round-try_acquire now b = ground arith

-- After the wait at most half a nanosecond's refill is missing.
wait_for-enough :
    (b : Bucket)
    → 0 < b.refill_per_sec
    → 2 * (token - b.tokens) ≤ 2 * (wait_for b * b.refill_per_sec) + b.refill_per_sec
unfolding wait_for
wait_for-enough b h = omega (
  arith,
  div-add-mod (2 * (token - b.tokens) + b.refill_per_sec) (2 * b.refill_per_sec),
  mod-lt (2 * (token - b.tokens) + b.refill_per_sec) {m = 2 * b.refill_per_sec},
)

-- What the first two rounds leave when they find no token.
missed :
    (now : ℕ) (b : Bucket)
    → IsValid b
    → (try_acquire now b).1 ≡ false
    → let b' = (try_acquire now b).0 in
      IsValid b'
      × (b'.last ≡ now)
      × (b'.refill_per_sec ≡ b.refill_per_sec)
      × (b'.max_tokens ≡ b.max_tokens)
      × (b'.tokens < token)
      × (b'.tokens ≡ b.tokens + (now - b.last) * b.refill_per_sec)
unfolding try_acquire
missed now b v h = ground arith

module _ (now : ℕ) (later : List ℕ) (waited : Bool) (b : Bucket) where
  takes :
      (try_acquire now b).1 ≡ true
      → acquire_loop (now ∷ later) waited b ≡ some ((try_acquire now b).0, waited)
  unfolding acquire_loop acquire_round try_acquire
  takes h = ground arith

  misses :
      (try_acquire now b).1 ≡ false
      → acquire_loop (now ∷ later) waited b ≡ acquire_loop later true (try_acquire now b).0
  unfolding acquire_loop acquire_round try_acquire
  misses h = ground arith

mul_mono : (a b r : ℕ) → a ≤ b → a * r ≤ b * r
mul_mono a b r h = grind arith

third_tokens :
    (w x y r r' d e : ℕ)
    → 2 * (token - x) ≤ 2 * (w * r) + r
    → y ≡ x + d * r
    → r' ≡ r
    → w ≤ d
    → 1 ≤ e
    → token ≤ y + e * r'
third_tokens w x y r r' d e enough hy hr hd he =
    rw hr (omega (arith, mul_mono w d r hd, mul_mono 1 e r he))

-- A bucket that missed a token at `t0`, and again at `t1` after the sleep that it asked for, has one
-- at any later instant.
third_round :
    (t0 t1 t2 : ℕ) (b : Bucket)
    → IsValid b
    → let b0 = (try_acquire t0 b).0 in
      let b1 = (try_acquire t1 b0).0 in
      t0 + wait_for b0 ≤ t1
      → t1 < t2
      → (try_acquire t0 b).1 ≡ false
      → (try_acquire t1 b0).1 ≡ false
      → (try_acquire t2 b1).1 ≡ true
third_round t0 t1 t2 b v slept later m0 m1 =
    let (v0, l0, r0, x0, n0, e0) = missed t0 b v m0 in
    let b0 = (try_acquire t0 b).0 in
    let (v1, l1, r1, x1, n1, e1) = missed t1 b0 v0 m1 in
    let b1 = (try_acquire t1 b0).0 in
    let enough = wait_for-enough b0 v0.refills in
    try_acquire_refilled t2 b1 v1 (
      third_tokens (wait_for b0) b0.tokens b1.tokens b0.refill_per_sec b1.refill_per_sec
        (t1 - b0.last) (t2 - b1.last) enough e1 r1 (omega arith) (omega arith))

second :
    (t0 t1 t2 : ℕ) (b : Bucket)
    → IsValid b
    → t0 + wait_for (try_acquire t0 b).0 ≤ t1
    → t1 < t2
    → (try_acquire t0 b).1 ≡ false
    → (b' : Bucket) × (acquire_loop (t1 ∷ t2 ∷ []) true (try_acquire t0 b).0 ≡ some (b', true))
      × IsValid b'
second t0 t1 t2 b v slept later m0 =
    let b0 = (try_acquire t0 b).0 in
    let v0 = try_acquire-IsValid t0 b v in
    let b1 = (try_acquire t1 b0).0 in
    let v1 = try_acquire-IsValid t1 b0 v0 in
    elim (Bool-cases (try_acquire t1 b0).1) [
      | inl h1 ↦ (b1, takes t1 (t2 ∷ []) true b0 h1, v1)
      | inr m1 ↦ (
        (try_acquire t2 b1).0,
        misses t1 (t2 ∷ []) true b0 m1
            ∙ takes t2 [] true b1 (third_round t0 t1 t2 b v slept later m0 m1),
        try_acquire-IsValid t2 b1 v1,
      )
    ]

-- A lone sender is never left waiting: if each sleep lasts at least as long as asked and the clock
-- moves, the third round at the latest has a token, the limiter is still well formed, and the result
-- says truthfully whether the sender was held back.
pub acquire_returns :
    (t0 t1 t2 : ℕ) (b : Bucket)
    → IsValid b
    → t0 + wait_for (try_acquire t0 b).0 ≤ t1
    → t1 < t2
    → (b' : Bucket) × (waited : Bool) × (acquire (t0 ∷ t1 ∷ t2 ∷ []) b ≡ some (b', waited))
      × IsValid b'
      × (waited ≡ not (try_acquire t0 b).1)
unfolding acquire
acquire_returns t0 t1 t2 b v slept later =
    let b0 = (try_acquire t0 b).0 in
    let v0 = try_acquire-IsValid t0 b v in
    elim (Bool-cases (try_acquire t0 b).1) [
      | inl h0 ↦ (b0, false, takes t0 (t1 ∷ t2 ∷ []) false b h0, v0, ap not (sym h0))
      | inr m0 ↦
          let (b', found, v') = second t0 t1 t2 b v slept later m0 in
          (b', true, misses t0 (t1 ∷ t2 ∷ []) false b m0 ∙ found, v', ap not (sym m0))
    ]
