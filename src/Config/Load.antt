-- ===== src/Config/Load.antt =====
-- The configuration from its file and the environment: src/config.rs `SmppConfig::from_file`. What the
-- file system gives is an argument, and `from_yaml` is the parser of the document.
use siphon_smpp.Common.{
  ℕ, ◌^◌, ◌++◌, Option, none, some, List, map, retain, not, is_empty, bytes_eq, if◌then◌else◌,
  code_points, Result, ok, err, ◌>>=◌,
}
use siphon_smpp.Tlv.{Text, trim}
use siphon_smpp.Config.Types.{
  SmppConfig, ThrottleAction, pace, reject, ConfigError, YamlError, ParseIntError, read, parse,
}
use siphon_smpp.Config.Texts.{split, parse_unsigned, to_lowercase}
use siphon_smpp.Config.Expand.{Environment, env_var, expand_env_vars}
use siphon_smpp.Config.Environment.{binds_from_env}

-- The steps of a chain, without the empty ones.
unfoldable pub chain_steps : Text → List Text
unfolding split trim
chain_steps raw = retain (λ s. not (is_empty s)) (map trim (split b',' raw))

abbrev pub with_chain : Option Text → SmppConfig → SmppConfig
with_chain none cfg = cfg
with_chain (some raw) cfg = record cfg {
  routing = record cfg.routing { default_chain = chain_steps raw };
}

abbrev pub set_max_mps : Result ParseIntError ℕ → SmppConfig → SmppConfig
set_max_mps (err e) cfg = cfg
set_max_mps (ok mps) cfg = record cfg { server = record cfg.server { max_msg_per_sec = mps } }

abbrev pub with_max_mps : Option Text → SmppConfig → SmppConfig
with_max_mps none cfg = cfg
with_max_mps (some raw) cfg = set_max_mps (parse_unsigned (2 ^ 32) (trim raw)) cfg

abbrev pub set_action : ThrottleAction → SmppConfig → SmppConfig
set_action action cfg = record cfg { server = record cfg.server { throttle_action = action } }

module _ (unicode_lowercase : Text → Text) (from_yaml : Text → Result YamlError SmppConfig) where
  abbrev pub with_action : Option Text → SmppConfig → SmppConfig
  with_action none cfg = cfg
  with_action (some raw) cfg =
      let v = to_lowercase unicode_lowercase (trim raw) in
      if bytes_eq v (code_points "pace")
      then set_action pace cfg
      else if bytes_eq v (code_points "reject")
      then set_action reject cfg
      else cfg

  -- The variables that override what the file says, in the order in which they are read.
  unfoldable pub overridden : Environment → SmppConfig → SmppConfig
  unfolding env_var chain_steps parse_unsigned to_lowercase trim
  overridden env cfg =
      let cfg = with_chain (env_var env (code_points "SMPP_DEFAULT_CHAIN")) cfg in
      let cfg = with_max_mps (env_var env (code_points "SMPP_SERVER_MAX_MPS")) cfg in
      with_action (env_var env (code_points "SMPP_SERVER_THROTTLE_ACTION")) cfg

  abbrev pub read_file : (path : Text) → Result Text Text → Result ConfigError Text
  read_file path (err source) = err (read path source)
  read_file path (ok raw) = ok raw

  abbrev pub parse_document :
      (path : Text) → Result YamlError SmppConfig → Result ConfigError SmppConfig
  parse_document path (err source) = err (parse path source)
  parse_document path (ok cfg) = ok cfg

  unfoldable pub from_file :
      Environment → (path : Text) → Result Text Text → Result ConfigError SmppConfig
  unfolding overridden
  from_file env path contents = do
    raw ← read_file path contents
    cfg ← parse_document path (from_yaml (expand_env_vars env raw))
    binds ← binds_from_env unicode_lowercase env
    ok (overridden env (record cfg { binds = cfg.binds ++ binds }))
