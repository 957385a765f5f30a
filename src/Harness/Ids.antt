-- ===== src/Harness/Ids.antt =====
-- The ids of the mock SMSC: harness/src/main.rs `MockSmsc`.
use siphon_smpp.Common.{
  ℕ, zero, suc, ◌+◌, ◌-◌, ◌*◌, ◌/◌, ◌%◌, ◌^◌, ◌<◌, ◌≡◌, ◌≢◌, ap, sym, ◌∙◌, inl, inr, List, [], ◌∷◌,
  ltb, if◌then◌else◌, arith, Bool-cases,
}
use siphon_smpp.Harness.{MockSmsc, first_mock, digit, hex_loop, lower_hex, on_submit_sm}

value : ℕ → ℕ
value c = if ltb c b'a' then c - b'0' else c - b'a' + 10

-- A number read from its digits, after what was read.
read : ℕ → List ℕ → ℕ
read n [] = n
read n (c ∷ cs) = read (16 * n + value c) cs

value-digit : (d : ℕ) → d < 16 → value (digit d) ≡ d
unfolding value
value-digit d h = ground arith

-- How many numbers have at most so many digits.
abbrev capacity : ℕ → ℕ
capacity zero = 1
capacity (suc digits) = 16 * capacity digits

read-hex_loop :
    (digits n : ℕ) (rest : List ℕ)
    → n < capacity digits
    → read 0 (hex_loop digits n rest) ≡ read n rest
unfolding hex_loop read
read-hex_loop zero n rest h = ap (λ k. read k rest) (omega arith)
read-hex_loop (suc digits) n rest h = elim (Bool-cases (ltb n 16)) [
  | inl small ↦ rw small (ap (λ k. read k rest) (ground (arith, value-digit n)))
  | inr large ↦
      let low : n % 16 < 16 = omega arith in
      rw large (
        read-hex_loop digits (n / 16) (digit (n % 16) ∷ rest) (omega arith)
        ∙ ap (λ k. read k rest) (omega (arith, value-digit (n % 16) low)))
]

read-lower_hex : (n : ℕ) → n < 2 ^ 64 → read 0 (lower_hex n) ≡ n
unfolding lower_hex read
read-lower_hex n h = read-hex_loop 16 n [] h

-- The mock after so many messages.
unfoldable pub after : ℕ → MockSmsc → MockSmsc
after zero m = m
after (suc n) m = after n (on_submit_sm m).1

after-next_id :
    (n : ℕ) (m : MockSmsc) → m.next_id < 2 ^ 64 → (after n m).next_id ≡ (m.next_id + n) % 2 ^ 64
unfolding after on_submit_sm
after-next_id zero m h = omega arith
after-next_id (suc n) m h =
    omega (arith, after-next_id n (record m { next_id = (m.next_id + 1) % 2 ^ 64 }))

-- Of the first 2^64 messages no two are accepted with the same id.
pub on_submit_sm-distinct :
    (i j : ℕ)
    → i < 2 ^ 64
    → j < 2 ^ 64
    → i ≢ j
    → (on_submit_sm (after i first_mock)).0 ≢ (on_submit_sm (after j first_mock)).0
unfolding on_submit_sm
on_submit_sm-distinct i j hi hj d same =
    let at_i = after-next_id i first_mock (omega arith) in
    let at_j = after-next_id j first_mock (omega arith) in
    let bound_i : (after i first_mock).next_id < 2 ^ 64 = omega arith in
    let bound_j : (after j first_mock).next_id < 2 ^ 64 = omega arith in
    let equal =
      sym (read-lower_hex (after i first_mock).next_id bound_i)
      ∙ ap (read 0) same
      ∙ read-lower_hex (after j first_mock).next_id bound_j in
    d (omega arith)
