-- ===== src/Status/Names.antt =====
-- Names and codes of statuses: src/pyclasses.rs `parse_smpp_status`, src/outcome.rs `status_name`.
use siphon_smpp.Common.{
  ℕ, zero, suc, ◌<◌, ◌-◌, ◌/◌, ◌%◌, ◌^◌, ◌≡◌, ◌↔◌, refl, sym, ap, ◌∙◌, String, Char, Option, none,
  some, List, [], ◌∷◌, All, ◌==◌, ==_iff, Bool-cases, ◌⊎◌, inl, inr, ◌==◌, if◌then◌else◌, eq_iff,
  ok, arith, leb,
}
use Prim.Native.Char
use siphon_smpp.Status.{
  SmppError, esme_rok, code, debug_name, status_table, find_status, parse_smpp_status, nibble, hex,
  hex_digit, status_name,
}

find_status-names :
    (s : String) (e : SmppError) (table : List (String × SmppError))
    → All (λ entry. entry.0 ≡ debug_name entry.1) table
    → find_status s table ≡ ok e
    → s ≡ debug_name e
unfolding find_status
find_status-names s e [] named found = cc
find_status-names s e ((name, e') ∷ rest) named found =
    ground (arith, eq_iff s name, find_status-names s e rest named.1)

status_table-named : All (λ entry. entry.0 ≡ debug_name entry.1) status_table
unfolding debug_name
status_table-named = assumption refl

pub parse-debug_name : (e : SmppError) → parse_smpp_status (debug_name e) ≡ ok e
unfolding parse_smpp_status debug_name
parse-debug_name esme_rok = refl
parse-debug_name _ = refl

-- A spelling is read as a status exactly when it is the name of that status.
pub parse_exact : (s : String) (e : SmppError) → (parse_smpp_status s ≡ ok e) ↔ (s ≡ debug_name e)
unfolding parse_smpp_status
parse_exact s e =
    (find_status-names s e status_table status_table-named, λ h. rw h (parse-debug_name e))

find_code : ℕ → List (String × SmppError) → Option SmppError
find_code n [] = none
find_code n ((name, e) ∷ rest) = if n == code e then some e else find_code n rest

find_code-code : (e : SmppError) → find_code (code e) status_table ≡ some e
unfolding find_code
find_code-code esme_rok = refl
find_code-code _ = refl

some-injective : {a b : SmppError} → some a ≡ some b → a ≡ b
some-injective h = cc

-- No two statuses share a code, so comparing codes compares statuses.
pub code-injective : (a b : SmppError) → code a ≡ code b → a ≡ b
code-injective a b h =
    some-injective
      (sym (find_code-code a) ∙ ap (λ n. find_code n status_table) h ∙ find_code-code b)

ok_injective : {a b : SmppError} → parse_smpp_status (debug_name a) ≡ ok b → a ≡ b
ok_injective {a} h = let g = parse-debug_name a in cc

pub debug_name-injective : (a b : SmppError) → debug_name a ≡ debug_name b → a ≡ b
debug_name-injective a b h = ok_injective (rw h (parse-debug_name b))

digit_value : Char → ℕ
digit_value c = let n = Char.code c in if leb n 57 then n - 48 else n - 55

digit_value-hex_digit : (d : ℕ) → d < 16 → digit_value (hex_digit d) ≡ d
unfolding digit_value
digit_value-hex_digit zero h = refl
digit_value-hex_digit (suc zero) h = refl
digit_value-hex_digit (suc (suc zero)) h = refl
digit_value-hex_digit (suc (suc (suc zero))) h = refl
digit_value-hex_digit (suc (suc (suc (suc zero)))) h = refl
digit_value-hex_digit (suc (suc (suc (suc (suc zero))))) h = refl
digit_value-hex_digit (suc (suc (suc (suc (suc (suc zero)))))) h = refl
digit_value-hex_digit (suc (suc (suc (suc (suc (suc (suc zero))))))) h = refl
digit_value-hex_digit (suc (suc (suc (suc (suc (suc (suc (suc zero)))))))) h = refl
digit_value-hex_digit (suc (suc (suc (suc (suc (suc (suc (suc (suc zero))))))))) h = refl
digit_value-hex_digit (suc (suc (suc (suc (suc (suc (suc (suc (suc (suc zero)))))))))) h = refl
digit_value-hex_digit (suc (suc (suc (suc (suc (suc (suc (suc (suc (suc (suc zero))))))))))) h =
    refl
digit_value-hex_digit (suc (suc (suc (suc (suc (suc (suc (suc (suc (suc (suc (suc zero))))))))))))
      h =
    refl
digit_value-hex_digit
      (suc (suc (suc (suc (suc (suc (suc (suc (suc (suc (suc (suc (suc zero))))))))))))) h =
    refl
digit_value-hex_digit
      (suc (suc (suc (suc (suc (suc (suc (suc (suc (suc (suc (suc (suc (suc zero)))))))))))))) h =
    refl
digit_value-hex_digit
      (suc (suc (suc (suc (suc (suc (suc (suc (suc (suc (suc (suc (suc (suc (suc zero)))))))))))))))
      h =
    refl
digit_value-hex_digit
      (suc
        (suc (suc (suc (suc (suc (suc (suc (suc (suc (suc (suc (suc (suc (suc (suc d))))))))))))))))
      h =
    absurd (omega arith)

-- The `k`-th digits of two texts that agree are equal.
nibble-hex :
    (a b : ℕ)
    → hex a ≡ hex b
    → (hex_digit (nibble 0 a) ≡ hex_digit (nibble 0 b))
      × (hex_digit (nibble 1 a) ≡ hex_digit (nibble 1 b))
      × (hex_digit (nibble 2 a) ≡ hex_digit (nibble 2 b))
      × (hex_digit (nibble 3 a) ≡ hex_digit (nibble 3 b))
      × (hex_digit (nibble 4 a) ≡ hex_digit (nibble 4 b))
      × (hex_digit (nibble 5 a) ≡ hex_digit (nibble 5 b))
      × (hex_digit (nibble 6 a) ≡ hex_digit (nibble 6 b))
      × (hex_digit (nibble 7 a) ≡ hex_digit (nibble 7 b))
unfolding hex
nibble-hex a b h = (cc, cc, cc, cc, cc, cc, cc, cc)

nibble-lt : (k n : ℕ) → nibble k n < 16
unfolding nibble
nibble-lt k n = omega arith

nibble_of_digit :
    (k a b : ℕ) → hex_digit (nibble k a) ≡ hex_digit (nibble k b) → nibble k a ≡ nibble k b
nibble_of_digit k a b h =
    sym (digit_value-hex_digit (nibble k a) (nibble-lt k a))
    ∙ ap digit_value h
    ∙ digit_value-hex_digit (nibble k b) (nibble-lt k b)

halves : (a b : ℕ) → a / 65536 ≡ b / 65536 → a % 65536 ≡ b % 65536 → a ≡ b
halves a b h k = omega arith

low_half :
    (a b : ℕ)
    → nibble 0 a ≡ nibble 0 b
    → nibble 1 a ≡ nibble 1 b
    → nibble 2 a ≡ nibble 2 b
    → nibble 3 a ≡ nibble 3 b
    → a % 65536 ≡ b % 65536
unfolding nibble
low_half a b h i j k = omega arith

high_half :
    (a b : ℕ)
    → a < 2 ^ 32
    → b < 2 ^ 32
    → nibble 4 a ≡ nibble 4 b
    → nibble 5 a ≡ nibble 5 b
    → nibble 6 a ≡ nibble 6 b
    → nibble 7 a ≡ nibble 7 b
    → a / 65536 ≡ b / 65536
unfolding nibble
high_half a b ha hb h i j k = omega arith

hex-injective : (a b : ℕ) → a < 2 ^ 32 → b < 2 ^ 32 → hex a ≡ hex b → a ≡ b
hex-injective a b ha hb h =
    let d = nibble-hex a b h in
    halves a b
      (high_half a b ha hb (nibble_of_digit 4 a b d.4) (nibble_of_digit 5 a b d.5)
        (nibble_of_digit 6 a b d.6) (nibble_of_digit 7 a b d.7))
      (low_half a b (nibble_of_digit 0 a b d.0) (nibble_of_digit 1 a b d.1)
        (nibble_of_digit 2 a b d.2) (nibble_of_digit 3 a b d.3))

debug_name-ne-hex : (e : SmppError) (n : ℕ) → debug_name e ≡ hex n → ⊥
unfolding debug_name hex
debug_name-ne-hex esme_rok n h = cc
debug_name-ne-hex _ n h = cc

module _ (from_command_status : ℕ → SmppError) where
  -- A status is spelt by the name of the status that has its code, or by its own digits.
  status_name_cases :
      (n : ℕ)
      → ((e : SmppError) × (code e ≡ n) × (status_name from_command_status n ≡ debug_name e))
        ⊎ (status_name from_command_status n ≡ hex n)
  unfolding status_name
  status_name_cases n = elim (Bool-cases (code (from_command_status n) == n)) [
    | inl h ↦ inl (from_command_status n, (==_iff _ n).0 h, rw h)
    | inr h ↦ inr (rw h)
  ]

  -- Two 32-bit statuses that read alike are the same status: a value outside Table 5-2 neither
  -- borrows a name nor shares its spelling with another.
  pub status_name-injective :
      (a b : ℕ)
      → a < 2 ^ 32
      → b < 2 ^ 32
      → status_name from_command_status a ≡ status_name from_command_status b
      → a ≡ b
  status_name-injective a b ha hb h = elim (status_name_cases a) [
    | inl (e, p, q) ↦ elim (status_name_cases b) [
      | inl (f, p', q') ↦ sym p ∙ ap code (debug_name-injective e f (sym q ∙ h ∙ q')) ∙ p'
      | inr q' ↦ absurd (debug_name-ne-hex e b (sym q ∙ h ∙ q'))
    ]
    | inr q ↦ elim (status_name_cases b) [
      | inl (f, p', q') ↦ absurd (debug_name-ne-hex f a (sym q' ∙ sym h ∙ q))
      | inr q' ↦ hex-injective a b ha hb (sym q ∙ h ∙ q')
    ]
  ]

  -- Where the codec reads the code of a status back as that status, every status of Table 5-2 is
  -- named by its own name, and a script can hand that name back.
  pub parse-status_name :
      (e : SmppError)
      → from_command_status (code e) ≡ e
      → parse_smpp_status (status_name from_command_status (code e)) ≡ ok e
  unfolding status_name
  parse-status_name e h = rw h (ground (arith, parse-debug_name e))
