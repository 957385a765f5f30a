-- ===== src/Common.antt =====
-- The names that the other modules share: the libraries', passed on, and those of two children.
mod Tests
mod Lists
pub use Tests.*
pub use Lists.*
pub use Prim.Native.Nat.{ℕ, zero, suc, ◌+◌, ◌-◌, ◌*◌, ◌/◌, ◌%◌, ◌^◌, ◌≤◌, ◌<◌, min, max}
pub use Prim.Native.String.{String}
pub use Prim.Native.Char.{Char, code}
pub use mathlib.Core.Path.{◌≡◌, refl, sym, ap, ◌∙◌, subst}
pub use mathlib.Core.Logic.{◌≢◌, ◌↔◌, ◌⊎◌, inl, inr}
pub use mathlib.Core.Bool.{Bool, true, false, not, ◌&&◌, ◌||◌}
pub use mathlib.Core.Option.{Option, none, some}
pub use mathlib.Core.List.{List, [], ◌∷◌, ◌++◌, map}
pub use native.Mathlib.Omega.{arith}
unfoldable pub use text.Mathlib.Text.{◌==◌ as str_eq}
pub use text.Mathlib.TextEquality.{eq_iff}

-- What a fallible call gives: `Result<A, E>`, and its `?`.
pub data Result {ℓ κ} (E : Type ℓ) (T : Type κ) : Type (ℓ ⊔ κ) where
  err : E → Result E T
  ok : T → Result E T

infixl 5 ◌>>=◌
abbrev pub ◌>>=◌ {ℓ κ μ} :
    {E : Type ℓ} {T : Type κ} {U : Type μ} → Result E T → (T → Result E U) → Result E U
err failure >>= next = err failure
ok value >>= next = next value

-- `Option::ok_or`, `Option::unwrap_or`, `Option::or_else`, `Option::map`.
abbrev pub ok_or {ℓ κ} : {E : Type ℓ} {A : Type κ} → Option A → E → Result E A
ok_or none e = err e
ok_or (some a) e = ok a

abbrev pub unwrap_or {ℓ} : {A : Type ℓ} → Option A → A → A
unwrap_or none d = d
unwrap_or (some a) d = a

abbrev pub or_else {ℓ} : {A : Type ℓ} → Option A → Option A → Option A
or_else none o = o
or_else (some a) o = some a

abbrev pub option_map {ℓ κ} : {A : Type ℓ} {B : Type κ} → (A → B) → Option A → Option B
option_map f none = none
option_map f (some a) = some (f a)

abbrev pub is_some {ℓ} : {A : Type ℓ} → Option A → Bool
is_some none = false
is_some (some a) = true

-- A chain of two fallible steps that succeeds: what each of them gave.
pub and_then_steps :
    {E T U : Type 0} (first : Result E T) (next : T → Result E U) {result : U}
    → (first >>= next) ≡ ok result
    → (value : T) × (first ≡ ok value) × (next value ≡ ok result)
and_then_steps (err failure) next whole = cc
and_then_steps (ok value) next whole = (value, refl, whole)

pub Result-cases :
    {E T : Type 0} (r : Result E T) → ((e : E) × (r ≡ err e)) ⊎ ((t : T) × (r ≡ ok t))
Result-cases (err e) = inl (e, refl)
Result-cases (ok t) = inr (t, refl)
