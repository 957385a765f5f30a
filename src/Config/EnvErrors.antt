-- ===== src/Config/EnvErrors.antt =====
-- When the variables of the environment are refused (Config/Environment.antt).
use siphon_smpp.Common.{
  ℕ, ◌≡◌, ◌≢◌, refl, sym, ap, ◌∙◌, subst, ◌⊎◌, inl, inr, Option, none, some, List, [], ◌∷◌, String,
  code_points, Result, ok, err, ◌>>=◌, All, arith, Option-cases, Result-cases,
}
use siphon_smpp.Tlv.{Text}
use siphon_smpp.Config.Types.{
  BindConfig, ConfigError, ParseIntError, env_bind_missing, env_bind_invalid, default_enquire_link,
  default_response,
}
use siphon_smpp.Config.Texts.{parse_unsigned}
use siphon_smpp.Config.Maps.{Map}
use siphon_smpp.Config.Expand.{Environment}
use siphon_smpp.Config.Environment.{
  Fields, nonempty, field, require, parse_u, u64_bound, made_bind, env_bind, push_bind, env_binds,
  group, binds_from_env,
}
use siphon_smpp.Config.Settings.{setting}
use siphon_smpp.Config.EnvBinds.{setting-entries}

-- What is wrong with the settings of a bind, and the error that says so.
pub data Faulty (at : String → Option Text) (name : Text) (e : ConfigError) : Type 0 where
  missing :
      (f : String)
      → nonempty (at f) ≡ none
      → env_bind_missing name (code_points f) ≡ e
      → Faulty at name e
  unread :
      (f : String) (value : Text) (source : ParseIntError)
      → nonempty (at f) ≡ some value
      → parse_unsigned u64_bound value ≡ err source
      → env_bind_invalid name (code_points f) value source ≡ e
      → Faulty at name e

require-Faulty :
    (name : Text) (fields : Fields) (f : String) (e : ConfigError)
    → require name fields f ≡ err e
    → Faulty (field fields) name e
unfolding require
require-Faulty name fields f e h = elim (Option-cases (nonempty (field fields f))) [
  | inl n ↦ missing f n (ground arith)
  | inr (v, s) ↦ absurd (ground arith)
]

parse_u-Faulty :
    (name : Text) (fields : Fields) (f : String) (default : ℕ) (e : ConfigError)
    → parse_u name fields f default ≡ err e
    → Faulty (field fields) name e
unfolding parse_u
parse_u-Faulty name fields f default e h = elim (Option-cases (nonempty (field fields f))) [
  | inl n ↦ absurd (ground arith)
  | inr (v, s) ↦ elim (Result-cases (parse_unsigned u64_bound v)) [
    | inl (source, p) ↦ unread f v source s p (ground arith)
    | inr (n, p) ↦ absurd (ground arith)
  ]
]

-- Six steps of which one fails.
six_fail :
    {E A₁ A₂ A₃ A₄ A₅ A₆ T : Type 0} {P : Type 0} (a₁ : Result E A₁) (a₂ : Result E A₂)
    (a₃ : Result E A₃) (a₄ : Result E A₄) (a₅ : Result E A₅) (a₆ : Result E A₆)
    (f : A₁ → A₂ → A₃ → A₄ → A₅ → A₆ → T) (e : E)
    → (a₁ ≡ err e → P)
    → (a₂ ≡ err e → P)
    → (a₃ ≡ err e → P)
    → (a₄ ≡ err e → P)
    → (a₅ ≡ err e → P)
    → (a₆ ≡ err e → P)
    → (a₁ >>= λ x₁.
        a₂ >>= λ x₂. a₃ >>= λ x₃. a₄ >>= λ x₄. a₅ >>= λ x₅. a₆ >>= λ x₆. ok (f x₁ x₂ x₃ x₄ x₅ x₆))
      ≡ err e
    → P
six_fail (err e') a₂ a₃ a₄ a₅ a₆ f e p₁ p₂ p₃ p₄ p₅ p₆ h = p₁ cc
six_fail (ok x₁) (err e') a₃ a₄ a₅ a₆ f e p₁ p₂ p₃ p₄ p₅ p₆ h = p₂ cc
six_fail (ok x₁) (ok x₂) (err e') a₄ a₅ a₆ f e p₁ p₂ p₃ p₄ p₅ p₆ h = p₃ cc
six_fail (ok x₁) (ok x₂) (ok x₃) (err e') a₅ a₆ f e p₁ p₂ p₃ p₄ p₅ p₆ h = p₄ cc
six_fail (ok x₁) (ok x₂) (ok x₃) (ok x₄) (err e') a₆ f e p₁ p₂ p₃ p₄ p₅ p₆ h = p₅ cc
six_fail (ok x₁) (ok x₂) (ok x₃) (ok x₄) (ok x₅) (err e') f e p₁ p₂ p₃ p₄ p₅ p₆ h = p₆ cc
six_fail (ok x₁) (ok x₂) (ok x₃) (ok x₄) (ok x₅) (ok x₆) f e p₁ p₂ p₃ p₄ p₅ p₆ h = cc

push_bind-err :
    (o : Option Text) (bind : Text → Result ConfigError BindConfig)
    (rest : Result ConfigError (List BindConfig)) (e : ConfigError)
    → push_bind o bind rest ≡ err e
    → (rest ≡ err e) ⊎ ((host : Text) × (o ≡ some host) × (bind host ≡ err e))
push_bind-err none bind rest e h = inl h
push_bind-err (some host) bind rest e h = elim (Result-cases (bind host)) [
  | inl (e', p) ↦ inr (host, refl, ground arith)
  | inr (b, p) ↦ elim (Result-cases rest) [
    | inl (e', q) ↦ inl (ground arith)
    | inr (bs, q) ↦ absurd (ground arith)
  ]
]

module _ (unicode_lowercase : Text → Text) where
  env_bind-Faulty :
      (name host : Text) (fields : Fields) (e : ConfigError)
      → env_bind unicode_lowercase name fields host ≡ err e
      → Faulty (field fields) name e
  unfolding env_bind
  env_bind-Faulty name host fields e h =
      six_fail (parse_u name fields "PORT" 2775) (parse_u name fields "MAX_MPS" 0)
        (require name fields "SYSTEM_ID") (require name fields "PASSWORD")
        (parse_u name fields "ENQUIRE_LINK_MS" default_enquire_link)
        (parse_u name fields "RESPONSE_MS" default_response)
        (made_bind unicode_lowercase name fields host) e (parse_u-Faulty name fields "PORT" 2775 e)
        (parse_u-Faulty name fields "MAX_MPS" 0 e) (require-Faulty name fields "SYSTEM_ID" e)
        (require-Faulty name fields "PASSWORD" e)
        (parse_u-Faulty name fields "ENQUIRE_LINK_MS" default_enquire_link e)
        (parse_u-Faulty name fields "RESPONSE_MS" default_response e) h

  -- An error comes from a bind with a host.
  abbrev Blamed : (at : Text → String → Option Text) → ConfigError → Type 0
  Blamed at e = (name : Text) × (nonempty (at name "HOST") ≢ none) × Faulty (at name) name e

  env_binds-Blamed :
      (at : Text → String → Option Text) (by_name : Map Fields) (e : ConfigError)
      → All (λ entry. (f : String) → field entry.1 f ≡ at entry.0 f) by_name
      → env_binds unicode_lowercase by_name ≡ err e
      → Blamed at e
  unfolding env_binds
  env_binds-Blamed at [] e a h = cc
  env_binds-Blamed at ((name, fields) ∷ by_name) e a h =
      elim (push_bind-err (nonempty (field fields "HOST")) (env_bind unicode_lowercase name fields)
        (env_binds unicode_lowercase by_name) e h) [
          | inl later ↦ env_binds-Blamed at by_name e a.1 later
          | inr (host, hosted, failed) ↦ (
            name,
            λ n. (let c = sym hosted ∙ ap nonempty (a.0 "HOST") ∙ n in cc),
            subst (λ g. Faulty g name e) (λ i f. a.0 f i)
                (env_bind-Faulty name host fields e failed),
          )
        ]

  -- An error in the variables names a bind whose HOST is set and not empty, and a field of it: one that is
  -- missing or empty, or one whose value is not read as a number below 2^64, with that value.
  pub binds_from_env-Faulty :
      (env : Environment) (e : ConfigError)
      → binds_from_env unicode_lowercase env ≡ err e
      → (name : Text) × (nonempty (setting unicode_lowercase env name (code_points "HOST")) ≢ none)
        × Faulty (λ f. setting unicode_lowercase env name (code_points f)) name e
  unfolding binds_from_env
  binds_from_env-Faulty env e h =
      env_binds-Blamed (λ name f. setting unicode_lowercase env name (code_points f))
        (group unicode_lowercase env []) e (setting-entries unicode_lowercase env) h
