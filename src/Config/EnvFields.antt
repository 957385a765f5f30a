-- ===== src/Config/EnvFields.antt =====
-- One bind from the variables of its name (Config/Environment.antt).
use siphon_smpp.Common.{
  true, bytes_eq, unwrap_or, code_points, Bool-cases, ℕ, ◌%◌, ◌≡◌, ◌≢◌, refl, ap, ◌∙◌, subst, ◌⊎◌,
  inl, inr, Option, none, some, [], ◌∷◌, String, Result, ok, err, ◌>>=◌, arith, Option-cases,
}
use siphon_smpp.Tlv.{Text, trim}
use siphon_smpp.Config.Types.{BindConfig, TlsConfig, default_enquire_link, default_response}
use siphon_smpp.Config.Texts.{parse_unsigned, to_lowercase}
use siphon_smpp.Config.Maps.{bytes_eq_iff}
use siphon_smpp.Config.Environment.{
  Fields, nonempty, field, require, parse_u, u64_bound, tls_on, tls_config, made_bind, env_bind,
}

-- A field that must be there, with its value.
abbrev pub IsGiven : Option Text → Text → Type 0
IsGiven o value = (o ≡ some value) × (value ≢ [])

-- The number that a field says, or the default of one that is missing or empty.
abbrev pub IsNumber : Option Text → (default n : ℕ) → Type 0
IsNumber o default n =
    ((nonempty o ≡ none) × (n ≡ default))
    ⊎ ((value : Text) × (o ≡ some value) × (parse_unsigned u64_bound value ≡ ok n))

-- A field as it is, or the default of one that is missing.
abbrev pub IsOr : Option Text → (default value : Text) → Type 0
IsOr o default value = ((o ≡ none) × (value ≡ default)) ⊎ (o ≡ some value)

module _ (unicode_lowercase : Text → Text) where
  -- A value that switches TLS on, in any case and with any white space about it.
  abbrev pub IsOn : Text → Type 0
  IsOn value =
      let v = to_lowercase unicode_lowercase (trim value) in
      (v ≡ code_points "true")
      ⊎ ((v ≡ code_points "1") ⊎ ((v ≡ code_points "yes") ⊎ (v ≡ code_points "on")))

  -- TLS with nothing set when the field is there and switches it on, else none.
  abbrev pub IsTls : Option Text → Option TlsConfig → Type 0
  IsTls o tls =
      ((value : Text) × (o ≡ some value)
        × IsOn value
        × (tls ≡ some record { cert_path = []; key_path = []; ca_path = none }))
      ⊎ (((o ≡ none) ⊎ ((value : Text) × (o ≡ some value) × (¬ IsOn value))) × (tls ≡ none))

  -- The bind has the settings that `at` gives the fields.
  unfoldable pub HasSettings : (at : String → Option Text) → BindConfig → Type 0
  HasSettings at b =
      IsGiven (at "HOST") b.host
      × IsGiven (at "SYSTEM_ID") b.system_id
      × IsGiven (at "PASSWORD") b.password
      × ((port : ℕ) × IsNumber (at "PORT") 2775 port × (b.port ≡ port % 65536))
      × ((rate : ℕ) × IsNumber (at "MAX_MPS") 0 rate × (b.max_msg_per_sec ≡ rate % 4294967296))
      × IsNumber (at "ENQUIRE_LINK_MS") 30000 b.enquire_link_timer_ms
      × IsNumber (at "RESPONSE_MS") 30000 b.response_timer_ms
      × IsOr (at "SYSTEM_TYPE") [] b.system_type
      × IsOr (at "BIND_TYPE") (code_points "transceiver") b.bind_type
      × IsTls (at "TLS") b.tls

IsOr-unwrap_or : (o : Option Text) (default : Text) → IsOr o default (unwrap_or o default)
IsOr-unwrap_or none default = inl (refl, refl)
IsOr-unwrap_or (some value) default = inr refl

module _ (unicode_lowercase : Text → Text) where
  tls_on-IsOn :
      (value : Text) → tls_on unicode_lowercase (some value) ≡ true → IsOn unicode_lowercase value
  unfolding tls_on
  tls_on-IsOn value on =
      let v = to_lowercase unicode_lowercase (trim value) in
      elim (Bool-cases (bytes_eq v (code_points "true"))) [
        | inl e ↦ inl ((bytes_eq_iff v (code_points "true")).0 e)
        | inr n₁ ↦ elim (Bool-cases (bytes_eq v (code_points "1"))) [
          | inl e ↦ inr (inl ((bytes_eq_iff v (code_points "1")).0 e))
          | inr n₂ ↦ elim (Bool-cases (bytes_eq v (code_points "yes"))) [
            | inl e ↦ inr (inr (inl ((bytes_eq_iff v (code_points "yes")).0 e)))
            | inr n₃ ↦ inr (inr (inr ((bytes_eq_iff v (code_points "on")).0 (ground arith))))
          ]
        ]
      ]

  IsOn-tls_on :
      (value : Text) → IsOn unicode_lowercase value → tls_on unicode_lowercase (some value) ≡ true
  unfolding tls_on
  IsOn-tls_on value (inl e) = rw e refl
  IsOn-tls_on value (inr (inl e)) = rw e refl
  IsOn-tls_on value (inr (inr (inl e))) = rw e refl
  IsOn-tls_on value (inr (inr (inr e))) = rw e refl

  IsTls-tls_on :
      (o : Option Text)
      → IsTls unicode_lowercase o (tls_config unicode_lowercase (tls_on unicode_lowercase o))
  unfolding tls_on
  IsTls-tls_on none = inr (inl refl, refl)
  IsTls-tls_on (some value) = elim (Bool-cases (tls_on unicode_lowercase (some value))) [
    | inl on ↦ inl (value, refl, tls_on-IsOn value on, ap (tls_config unicode_lowercase) on)
    | inr off ↦ inr (
      inr (value, refl, λ on. (let yes_ = IsOn-tls_on value on in cc)),
      ap (tls_config unicode_lowercase) off,
    )
  ]

IsGiven-nonempty : (o : Option Text) (value : Text) → nonempty o ≡ some value → IsGiven o value
IsGiven-nonempty none value h = cc
IsGiven-nonempty (some []) value h = cc
IsGiven-nonempty (some (c ∷ s)) value h = (h, λ e. (let g = h ∙ ap some e in cc))

IsGiven-require :
    (name : Text) (fields : Fields) (f : String) (value : Text)
    → require name fields f ≡ ok value
    → IsGiven (field fields f) value
unfolding require
IsGiven-require name fields f value h =
    let r : nonempty (field fields f) ≡ some value = ground arith in
    IsGiven-nonempty (field fields f) value r

IsNumber-parse_u :
    (name : Text) (fields : Fields) (f : String) (default n : ℕ)
    → parse_u name fields f default ≡ ok n
    → IsNumber (field fields f) default n
unfolding parse_u
IsNumber-parse_u name fields f default n h = elim (Option-cases (nonempty (field fields f))) [
  | inl e ↦ inl (e, ground arith)
  | inr (v, e) ↦
      let p : parse_unsigned u64_bound v ≡ ok n = ground arith in
      inr (v, (IsGiven-nonempty (field fields f) v e).0, p)
]

-- Six fallible steps that succeed: what each of them gave.
six_steps :
    {E A₁ A₂ A₃ A₄ A₅ A₆ T : Type 0} (a₁ : Result E A₁) (a₂ : Result E A₂) (a₃ : Result E A₃)
    (a₄ : Result E A₄) (a₅ : Result E A₅) (a₆ : Result E A₆) (f : A₁ → A₂ → A₃ → A₄ → A₅ → A₆ → T)
    (t : T)
    → (a₁ >>= λ x₁.
        a₂ >>= λ x₂. a₃ >>= λ x₃. a₄ >>= λ x₄. a₅ >>= λ x₅. a₆ >>= λ x₆. ok (f x₁ x₂ x₃ x₄ x₅ x₆))
      ≡ ok t
    → (x₁ : A₁) × (x₂ : A₂) × (x₃ : A₃) × (x₄ : A₄) × (x₅ : A₅) × (x₆ : A₆) × (a₁ ≡ ok x₁)
      × (a₂ ≡ ok x₂)
      × (a₃ ≡ ok x₃)
      × (a₄ ≡ ok x₄)
      × (a₅ ≡ ok x₅)
      × (a₆ ≡ ok x₆)
      × (f x₁ x₂ x₃ x₄ x₅ x₆ ≡ t)
six_steps (err e) a₂ a₃ a₄ a₅ a₆ f t h = cc
six_steps (ok x₁) (err e) a₃ a₄ a₅ a₆ f t h = cc
six_steps (ok x₁) (ok x₂) (err e) a₄ a₅ a₆ f t h = cc
six_steps (ok x₁) (ok x₂) (ok x₃) (err e) a₅ a₆ f t h = cc
six_steps (ok x₁) (ok x₂) (ok x₃) (ok x₄) (err e) a₆ f t h = cc
six_steps (ok x₁) (ok x₂) (ok x₃) (ok x₄) (ok x₅) (err e) f t h = cc
six_steps (ok x₁) (ok x₂) (ok x₃) (ok x₄) (ok x₅) (ok x₆) f t h =
    (x₁, x₂, x₃, x₄, x₅, x₆, refl, refl, refl, refl, refl, refl, cc)

module _ (unicode_lowercase : Text → Text) where
  pub env_bind-HasSettings :
      (name host : Text) (fields : Fields) (b : BindConfig)
      → nonempty (field fields "HOST") ≡ some host
      → env_bind unicode_lowercase name fields host ≡ ok b
      → (b.name ≡ name) × HasSettings unicode_lowercase (field fields) b
  unfolding env_bind HasSettings made_bind
  env_bind-HasSettings name host fields b found h =
      let (port, rate, system_id, password, enquire, response, h₁, h₂, h₃, h₄, h₅, h₆, e) =
        six_steps (parse_u name fields "PORT" 2775) (parse_u name fields "MAX_MPS" 0)
          (require name fields "SYSTEM_ID") (require name fields "PASSWORD")
          (parse_u name fields "ENQUIRE_LINK_MS" default_enquire_link)
          (parse_u name fields "RESPONSE_MS" default_response)
          (made_bind unicode_lowercase name fields host) b h in
      subst (λ b. (b.name ≡ name) × HasSettings unicode_lowercase (field fields) b) e
        (
          refl,
          (
            IsGiven-nonempty (field fields "HOST") host found,
            IsGiven-require name fields "SYSTEM_ID" system_id h₃,
            IsGiven-require name fields "PASSWORD" password h₄,
            (port, IsNumber-parse_u name fields "PORT" 2775 port h₁, refl),
            (rate, IsNumber-parse_u name fields "MAX_MPS" 0 rate h₂, refl),
            IsNumber-parse_u name fields "ENQUIRE_LINK_MS" default_enquire_link enquire h₅,
            IsNumber-parse_u name fields "RESPONSE_MS" default_response response h₆,
            IsOr-unwrap_or (field fields "SYSTEM_TYPE") [],
            IsOr-unwrap_or (field fields "BIND_TYPE") (code_points "transceiver"),
            IsTls-tls_on unicode_lowercase (field fields "TLS"),
          ),
        )
