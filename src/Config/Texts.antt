-- ===== src/Config/Texts.antt =====
-- Operations of `str` that reading the configuration uses: `find` with the slices on its two sides,
-- `split`, `parse`, `to_lowercase` and `cmp`.
use siphon_smpp.Common.{
  ℕ, ◌+◌, ◌*◌, ◌-◌, Bool, true, false, ◌&&◌, ◌||◌, Option, none, some, List, [], ◌∷◌, leb, ltb,
  ◌==◌, if◌then◌else◌, option_map, any, Result, ok, err,
}
use siphon_smpp.Tlv.{Text, strip_prefix}
use siphon_smpp.Pdu.Receipt.{to_ascii_lowercase}
use siphon_smpp.Config.Types.{ParseIntError, empty, invalid_digit, pos_overflow}

-- What stands before and after the first place where `pat` stands.
abbrev pub split_once : Text → Text → Option (Text × Text)
split_once pat [] = option_map (λ after. ([], after)) (strip_prefix pat [])
split_once pat (c ∷ s) =
    let rest = split_once pat s in
    elim (strip_prefix pat (c ∷ s)) [
      | none ↦ option_map (λ p. (c ∷ p.0, p.1)) rest
      | some after ↦ some ([], after)
    ]

-- `str::split` at a character, which always gives one piece.
abbrev joined : ℕ → List Text → List Text
joined c [] = (c ∷ []) ∷ []
joined c (piece ∷ pieces) = (c ∷ piece) ∷ pieces

unfoldable pub split : ℕ → Text → List Text
split sep [] = [] ∷ []
split sep (c ∷ s) = let rest = split sep s in if c == sep then [] ∷ rest else joined c rest

-- `str::parse` for an unsigned number below `bound`.
unfoldable pub parse_digits : (bound acc : ℕ) → Text → Result ParseIntError ℕ
parse_digits bound acc [] = ok acc
parse_digits bound acc (c ∷ s) =
    let acc = acc * 10 + (c - b'0') in
    let rest = parse_digits bound acc s in
    if leb b'0' c && leb c b'9'
    then if ltb acc bound then rest else err pos_overflow
    else err invalid_digit

abbrev pub parse_after_sign : ℕ → Text → Result ParseIntError ℕ
parse_after_sign bound [] = err invalid_digit
parse_after_sign bound (c ∷ s) = parse_digits bound 0 (c ∷ s)

unfoldable pub parse_unsigned : ℕ → Text → Result ParseIntError ℕ
unfolding parse_digits
parse_unsigned bound [] = err empty
parse_unsigned bound (c ∷ s) =
    if c == b'+' then parse_after_sign bound s else parse_digits bound 0 (c ∷ s)

-- `str::to_lowercase`; what it makes of a text that is not ASCII is left to `unicode_lowercase`.
unfoldable pub to_lowercase : (Text → Text) → Text → Text
unfolding to_ascii_lowercase
to_lowercase unicode_lowercase s =
    if any (λ c. leb 0x80 c) s then unicode_lowercase s else to_ascii_lowercase s

-- The order of `str`, which is that of the code points.
unfoldable pub text_lt : Text → Text → Bool
text_lt s [] = false
text_lt [] (d ∷ t) = true
text_lt (c ∷ s) (d ∷ t) = let rest = text_lt s t in ltb c d || (c == d && rest)
