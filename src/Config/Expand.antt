-- ===== src/Config/Expand.antt =====
-- References to the environment in the text of the configuration: src/config.rs `expand_env_vars`.
use siphon_smpp.Common.{
  ℕ, zero, suc, Option, none, some, List, [], ◌++◌, find, bytes_eq, option_map, or_else, unwrap_or,
  length, code_points,
}
use siphon_smpp.Tlv.{Text}
use siphon_smpp.Config.Texts.{split_once}

-- `std::env::vars`: the variables of the process with their values.
abbrev pub Environment : Type 0
Environment = List (Text × Text)

-- `std::env::var(name).ok()`.
unfoldable pub env_var : Environment → Text → Option Text
env_var env name = option_map (λ v. v.1) (find (λ v. bytes_eq v.0 name) env)

abbrev pub dollar_brace : Text
dollar_brace = code_points "${"

abbrev pub close_brace : Text
close_brace = code_points "}"

abbrev pub name_and_default : Text → Text × Option Text
name_and_default spec = elim (split_once (code_points ":-") spec) [
  | none ↦ (spec, none)
  | some (name, default) ↦ (name, some default)
]

module _ (env : Environment) where
  -- The value that stands in place of `${spec}`.
  unfoldable pub value_of : Text → Text
  unfolding env_var
  value_of spec =
      let (name, default) = name_and_default spec in
      unwrap_or (or_else (env_var env name) default) []

  -- The loop, with `none` when the fuel runs out.
  unfoldable pub expand_loop : ℕ → (out rest : Text) → Option Text
  unfolding value_of
  expand_loop zero out rest = none
  expand_loop (suc fuel) out rest = elim (split_once dollar_brace rest) [
    | none ↦ some (out ++ rest)
    | some (before, after) ↦ elim (split_once close_brace after) [
      | none ↦ expand_loop fuel (out ++ before ++ dollar_brace) after
      | some (spec, later) ↦ expand_loop fuel (out ++ before ++ value_of spec) later
    ]
  ]

  -- Each round uses up a `${` of the text.
  unfoldable pub expand_env_vars : Text → Text
  unfolding expand_loop
  expand_env_vars input = unwrap_or (expand_loop (suc (length input)) [] input) []
