-- ===== src/Config/Splits.antt =====
-- A text that is split at the first place where a pattern stands (Config/Texts.antt).
use mathlib.Core.List.{append_assoc, tail-eq_of_cons-eq}
use mathlib.Core.Option.{some-injective}
use siphon_smpp.Common.{
  ℕ, ◌≡◌, ◌≢◌, refl, sym, ap, ◌∙◌, subst, ◌⊎◌, inl, inr, Option, none, some, [], ◌∷◌, ◌++◌,
  option_map, arith, Option-cases, ==_iff,
}
use siphon_smpp.Tlv.{Text, strip_prefix}
use siphon_smpp.Config.Texts.{split_once}

-- `pat` stands nowhere in the text.
unfoldable pub Free : (pat s : Text) → Type 0
Free pat s = (x y : Text) → s ≢ x ++ pat ++ y

strip_prefix-append : (p y : Text) → strip_prefix p (p ++ y) ≡ some y
strip_prefix-append [] y = refl
strip_prefix-append (c ∷ p) y =
    let ih = strip_prefix-append p y in let e = (==_iff c c).1 refl in rw e ih

strip_prefix-found : (p s b : Text) → strip_prefix p s ≡ some b → s ≡ p ++ b
strip_prefix-found [] s b h = cc
strip_prefix-found (c ∷ p) [] b h = cc
strip_prefix-found (c ∷ p) (d ∷ s) b h =
    let ih = strip_prefix-found p s b in let iff = ==_iff c d in grind arith

-- `pat` is not empty.
abbrev pub IsNonempty : Text → Type 0
IsNonempty pat = strip_prefix pat [] ≡ none

strip_prefix-eq : (pat s y : Text) → s ≡ pat ++ y → strip_prefix pat s ≡ some y
strip_prefix-eq pat s y e = ap (strip_prefix pat) e ∙ strip_prefix-append pat y

-- A pattern stands at the front of a text, or is looked for after its first character.
split_once-step :
    (pat : Text) (c : ℕ) (s : Text)
    → ((after : Text) × (c ∷ s ≡ pat ++ after) × (split_once pat (c ∷ s) ≡ some ([], after)))
      ⊎ ((strip_prefix pat (c ∷ s) ≡ none)
          × (split_once pat (c ∷ s) ≡ option_map (λ p. (c ∷ p.0, p.1)) (split_once pat s)))
split_once-step pat c s = elim (Option-cases (strip_prefix pat (c ∷ s))) [
  | inl h ↦ inr (h, rw (h, split_once) refl)
  | inr (after, h) ↦ inl (after, strip_prefix-found pat (c ∷ s) after h, rw (h, split_once) refl)
]

pub Free-nil : (pat : Text) → IsNonempty pat → Free pat []
unfolding Free
Free-nil pat ne [] y e = let f = strip_prefix-eq pat [] y e in cc
Free-nil pat ne (d ∷ x) y e = cc

Free-cons :
    (pat : Text) (c : ℕ) (s : Text)
    → ((y : Text) → c ∷ s ≢ pat ++ y)
    → Free pat s
    → Free pat (c ∷ s)
unfolding Free
Free-cons pat c s h f [] y e = h y e
Free-cons pat c s h f (d ∷ x) y e = f x y (tail-eq_of_cons-eq e)

option_map-none : {A B : Type 0} (f : A → B) (o : Option A) → option_map f o ≡ none → o ≡ none
option_map-none f none h = refl
option_map-none f (some a) h = cc

pub split_once-none : (pat s : Text) → IsNonempty pat → split_once pat s ≡ none → Free pat s
split_once-none pat [] ne h = Free-nil pat ne
split_once-none pat (c ∷ s) ne h =
    let ih = split_once-none pat s ne in
    elim (split_once-step pat c s) [
      | inl (after, e, found) ↦ cc
      | inr (miss, later) ↦
          Free-cons pat c s (λ y e. let g = strip_prefix-eq pat (c ∷ s) y e in cc)
            (ih (
              option_map-none {B = Text × Text} (λ p. (c ∷ p.0, p.1)) (split_once pat s)
                (sym later ∙ h)))
    ]

-- The text is what comes before, the pattern, which does not stand in that, and what comes after.
unfoldable pub Splits : (pat s : Text) → Text × Text → Type 0
Splits pat s (before, after) = (s ≡ before ++ pat ++ after) × Free pat before

Splits-cons :
    (pat : Text) (c : ℕ) (s : Text)
    → strip_prefix pat (c ∷ s) ≡ none
    → (p : Text × Text) → Splits pat s p
    → Splits pat (c ∷ s) (c ∷ p.0, p.1)
unfolding Splits
Splits-cons pat c s miss (a, b) (e, f) = (
  ap (λ t. c ∷ t) e,
  Free-cons pat c a
      (λ y g.
        let split : c ∷ s ≡ pat ++ (y ++ (pat ++ b)) =
          ap (λ t. c ∷ t) e
          ∙ ap (λ t. t ++ pat ++ b) g
          ∙ append_assoc (pat ++ y) pat b
          ∙ append_assoc pat y (pat ++ b) in
        let g = strip_prefix-eq pat (c ∷ s) (y ++ (pat ++ b)) split in cc)
      f,
)

split_front : (pat s after : Text) → IsNonempty pat → s ≡ pat ++ after → Splits pat s ([], after)
unfolding Splits
split_front pat s after ne e = (e, Free-nil pat ne)

pub split_once-Splits :
    (pat s : Text) → IsNonempty pat → (p : Text × Text) → split_once pat s ≡ some p → Splits pat s p
split_once-Splits pat [] ne p h = let e = ap (option_map {B = Text × Text} (λ y. ([], y))) ne in cc
split_once-Splits pat (c ∷ s) ne p h =
    let ih = split_once-Splits pat s ne in
    elim (split_once-step pat c s) [
      | inl (after, e, found) ↦
          subst (Splits pat (c ∷ s)) (some-injective _ _ (sym found ∙ h))
            (split_front pat (c ∷ s) after ne e)
      | inr (miss, later) ↦ elim (Option-cases (split_once pat s)) [
        | inl gone ↦
            let later' = later ∙ ap (option_map {B = Text × Text} (λ p. (c ∷ p.0, p.1))) gone in cc
        | inr (q, there) ↦
            let later' = later ∙ ap (option_map {B = Text × Text} (λ p. (c ∷ p.0, p.1))) there in
            subst (Splits pat (c ∷ s)) (some-injective _ _ (sym later' ∙ h))
              (Splits-cons pat c s miss q (ih q there))
      ]
    ]
