-- ===== src/Config/Environment.antt =====
-- Binds that the environment declares: src/config.rs `binds_from_env`.
use siphon_smpp.Common.{
  ℕ, ◌%◌, ◌^◌, Bool, true, false, ◌||◌, Option, none, some, List, [], ◌∷◌, bytes_eq, option_map,
  unwrap_or, ok_or, String, code_points, Result, ok, err, ◌>>=◌,
}
use siphon_smpp.Tlv.{Text, strip_prefix, trim}
use siphon_smpp.Config.Types.{
  BindConfig, TlsConfig, ConfigError, ParseIntError, env_bind_missing, env_bind_invalid,
  default_enquire_link, default_response,
}
use siphon_smpp.Config.Texts.{split_once, parse_unsigned, to_lowercase}
use siphon_smpp.Config.Maps.{Map, get, upsert}
use siphon_smpp.Config.Expand.{Environment}

-- The fields of one bind, each under what follows its name in the variable's key.
abbrev pub Fields : Type 0
Fields = Map Text

abbrev pub nonempty : Option Text → Option Text
nonempty none = none
nonempty (some []) = none
nonempty (some (c ∷ s)) = some (c ∷ s)

-- `fields.get(f)`.
abbrev pub field : Fields → String → Option Text
field fields f = get (code_points f) fields

unfoldable pub require : (name : Text) → Fields → String → Result ConfigError Text
require name fields f = ok_or (nonempty (field fields f)) (env_bind_missing name (code_points f))

abbrev invalid : (name f value : Text) → Result ParseIntError ℕ → Result ConfigError ℕ
invalid name f value (ok n) = ok n
invalid name f value (err source) = err (env_bind_invalid name f value source)

abbrev pub u64_bound : ℕ
u64_bound = 2 ^ 64

unfoldable pub parse_u : (name : Text) → Fields → String → (default : ℕ) → Result ConfigError ℕ
unfolding parse_unsigned
parse_u name fields f default = elim (nonempty (field fields f)) [
  | none ↦ ok default
  | some v ↦ invalid name (code_points f) v (parse_unsigned u64_bound v)
]

-- A bind without a host is passed over.
abbrev pub push_bind :
    Option Text
    → (Text → Result ConfigError BindConfig)
    → Result ConfigError (List BindConfig)
    → Result ConfigError (List BindConfig)
push_bind none bind rest = rest
push_bind (some host) bind rest = do b ← bind host; out ← rest; ok (b ∷ out)

module _ (unicode_lowercase : Text → Text) where
  abbrev lower : Text → Text
  lower s = to_lowercase unicode_lowercase s

  unfoldable pub tls_on : Option Text → Bool
  unfolding to_lowercase trim
  tls_on none = false
  tls_on (some v) =
      let v = lower (trim v) in
      bytes_eq v (code_points "true")
      || bytes_eq v (code_points "1")
      || bytes_eq v (code_points "yes")
      || bytes_eq v (code_points "on")

  abbrev pub tls_config : Bool → Option TlsConfig
  tls_config false = none
  tls_config true = some record { cert_path = []; key_path = []; ca_path = none }

  -- `BindConfig { .. }` from the values that could fail; a number is narrowed by `as`.
  unfoldable pub made_bind :
      (name : Text)
      → Fields
      → (host : Text) (port rate : ℕ) (system_id password : Text) (enquire_link response : ℕ)
      → BindConfig
  unfolding tls_on
  made_bind name fields host port rate system_id password enquire_link response = record {
    name = name;
    host = host;
    port = port % 2 ^ 16;
    system_id = system_id;
    password = password;
    system_type = unwrap_or (field fields "SYSTEM_TYPE") [];
    bind_type = unwrap_or (field fields "BIND_TYPE") (code_points "transceiver");
    max_msg_per_sec = rate % 2 ^ 32;
    enquire_link_timer_ms = enquire_link;
    response_timer_ms = response;
    tls = tls_config (tls_on (field fields "TLS"));
  }

  -- One round of the loop over the binds, for one that has a host.
  unfoldable pub env_bind : (name : Text) → Fields → (host : Text) → Result ConfigError BindConfig
  unfolding parse_u require made_bind
  env_bind name fields host = do
    port ← parse_u name fields "PORT" 2775
    rate ← parse_u name fields "MAX_MPS" 0
    system_id ← require name fields "SYSTEM_ID"
    password ← require name fields "PASSWORD"
    enquire_link ← parse_u name fields "ENQUIRE_LINK_MS" default_enquire_link
    response ← parse_u name fields "RESPONSE_MS" default_response
    ok (made_bind name fields host port rate system_id password enquire_link response)

  unfoldable pub env_binds : Map Fields → Result ConfigError (List BindConfig)
  unfolding env_bind
  env_binds [] = ok []
  env_binds ((name, fields) ∷ by_name) =
      push_bind (nonempty (field fields "HOST")) (env_bind name fields) (env_binds by_name)

  -- The name and the field of a variable that declares one.
  unfoldable pub bind_variable : Text → Option (Text × Text)
  unfolding to_lowercase
  bind_variable key = elim (strip_prefix (code_points "SMPP_BIND_") key) [
    | none ↦ none
    | some rest ↦ option_map (λ p. (lower p.0, p.1)) (split_once (code_points "_") rest)
  ]

  abbrev pub enter : Option (Text × Text) → (value : Text) → Map Fields → Map Fields
  enter none value by_name = by_name
  enter (some (name, f)) value by_name = upsert [] name (upsert value f (λ _. value)) by_name

  unfoldable pub group : Environment → Map Fields → Map Fields
  unfolding bind_variable
  group [] by_name = by_name
  group ((key, value) ∷ env) by_name = group env (enter (bind_variable key) value by_name)

  unfoldable pub binds_from_env : Environment → Result ConfigError (List BindConfig)
  unfolding env_binds group
  binds_from_env env = env_binds (group env [])
