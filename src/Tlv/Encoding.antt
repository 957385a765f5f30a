-- ===== src/Tlv/Encoding.antt =====
-- Integer values take their width from the specification: src/tlv.rs `value_to_bytes`.
use siphon_smpp.Common.{
  ℕ, ◌+◌, ◌-◌, ◌*◌, ◌/◌, ◌%◌, ◌^◌, ◌≤◌, ◌<◌, ◌≡◌, ◌⊎◌, inl, inr, Bool, none, some, List, [], ◌∷◌,
  ◌==◌, ltb, find, All, drop, length, ok, err, arith, Bool-cases, Option-cases, subst,
}
use siphon_smpp.Tlv.{
  Bytes, TlvTag, TlvTable, pos, int_widths, int_width, be_bytes, int_to_bytes, max_value, py_int,
  value_to_bytes, value_too_wide,
}

-- A big-endian reading of bytes, independent of the encoder.
abbrev pub from_be : ℕ → Bytes → ℕ
from_be acc [] = acc
from_be acc (b ∷ bs) = from_be (acc * 256 + b) bs

some_eq {ℓ} : {A : Type ℓ} {a b : A} → some a ≡ some b → a ≡ b
some_eq h = cc

find-All {ℓ κ} :
    {A : Type ℓ} (P : A → Type κ) (p : A → Bool) (xs : List A) {x : A}
    → All P xs
    → find p xs ≡ some x
    → P x
find-All P p [] all h = cc
find-All P p (y ∷ ys) {x} all h = elim (Bool-cases (p y)) [
  | inl e ↦ subst P (some_eq (rw e at h)) all.0
  | inr e ↦ find-All P p ys all.1 (rw e at h)
]

abbrev IsWidth : ℕ → Type 0
IsWidth w = (w ≡ 1) ⊎ ((w ≡ 2) ⊎ (w ≡ 4))

int_widths-IsWidth : All (λ (entry : TlvTag × ℕ). IsWidth entry.1) int_widths
int_widths-IsWidth = omega arith

module _ (table : TlvTable) (tag : ℕ) where
  int_width-IsWidth : {w : ℕ} → int_width table tag ≡ some w → IsWidth w
  unfolding int_width
  int_width-IsWidth {w} h =
      from_entry (Option-cases (find (λ entry. table.number entry.0 == tag) int_widths))
    where
      from_entry :
          (find (λ entry. table.number entry.0 == tag) int_widths ≡ none)
            ⊎ ((entry : TlvTag × ℕ) × (find (λ entry. table.number entry.0 == tag) int_widths
                  ≡ some entry))
          → IsWidth w
      from_entry (inl e) = cc e
      from_entry (inr (entry, e)) = subst IsWidth (some_eq (rw e at h)) (
          find-All (λ entry. IsWidth entry.1) (λ entry. table.number entry.0 == tag) int_widths
            int_widths-IsWidth e)

abbrev Encodes : ℕ → ℕ → Bytes → Type 0
Encodes w n bs = (length bs ≡ w) × (from_be 0 bs ≡ n)

last_1 : (n : ℕ) → n < 256 → Encodes 1 n ((n / 1 % 256) ∷ [])
last_1 n h = omega arith

last_2 : (n : ℕ) → n < 65536 → Encodes 2 n ((n / 256 % 256) ∷ (n / 1 % 256) ∷ [])
last_2 n h = omega arith

last_4 :
    (n : ℕ)
    → n < 4294967296
    → Encodes 4 n ((n / 16777216 % 256) ∷ (n / 65536 % 256) ∷ (n / 256 % 256) ∷ (n / 1 % 256) ∷ [])
last_4 n h = omega arith

-- The last `w` of the eight bytes of a number that fits `w` bytes read back as that number.
drop-be_bytes : (w n : ℕ) → IsWidth w → n < 256 ^ w → Encodes w n (drop (8 - w) (be_bytes 8 n))
unfolding be_bytes
drop-be_bytes w n (inl e) h = rw e (last_1 n (rw e at h))
drop-be_bytes w n (inr (inl e)) h = rw e (last_2 n (rw e at h))
drop-be_bytes w n (inr (inr e)) h = rw e (last_4 n (rw e at h))

max_value-width : (w : ℕ) → IsWidth w → max_value w + 1 ≡ 256 ^ w
max_value-width w (inl e) = rw e
max_value-width w (inr (inl e)) = rw e
max_value-width w (inr (inr e)) = rw e

width-lt : (w n : ℕ) → IsWidth w → n < 256 ^ w → n < 2 ^ 64
width-lt w n (inl e) h = let h' = rw e at h in omega arith
width-lt w n (inr (inl e)) h = let h' = rw e at h in omega arith
width-lt w n (inr (inr e)) h = let h' = rw e at h in omega arith

-- For a tag with a width `w` in the specification's table, a value below 2^64 is encoded in exactly `w`
-- bytes, which read back big-endian as the value, when it fits in them, and is refused with the tag, the
-- value and the width when it does not.
pub value_to_bytes-int :
    (table : TlvTable) (tag w n : ℕ)
    → int_width table tag ≡ some w
    → n < 2 ^ 64
    → ((n < 256 ^ w)
        × (bs : Bytes) × (value_to_bytes table tag (py_int (pos n)) ≡ ok bs)
        × (length bs ≡ w)
        × (from_be 0 bs ≡ n))
      ⊎ ((256 ^ w ≤ n) × (value_to_bytes table tag (py_int (pos n)) ≡ err (value_too_wide tag n w)))
unfolding value_to_bytes int_to_bytes
value_to_bytes-int table tag w n typed k =
    let width = int_width-IsWidth table tag typed in
    let top = max_value-width w width in
    elim (Bool-cases (ltb n (256 ^ w))) [
      | inl l ↦
          let h : n < 256 ^ w = ground arith in
          let (len, back) = drop-be_bytes w n width h in
          let small = width-lt w n width h in
          inl (h, drop (8 - w) (be_bytes 8 n), ground arith, len, back)
      | inr g ↦ let h : 256 ^ w ≤ n = ground arith in inr (h, ground arith)
    ]
