-- ===== src/Examples/Configs.antt =====
-- Concrete configurations: src/config.rs, src/install.rs, src/metrics.rs.
use siphon_smpp.Common.{
  err, ◌≢◌, ◌≡◌, refl, true, Option, none, some, [], ◌∷◌, suc, any, bytes_eq, All, length,
  code_points, Result, ok,
}
use siphon_smpp.Tlv.{Text}
use siphon_smpp.Config.Types.{ConfigError, env_bind_missing, SmppConfig, OptionValue, YamlError}
use siphon_smpp.Config.Texts.{text_lt}
use siphon_smpp.Config.Maps.{upsert}
use siphon_smpp.Config.Expand.{Environment, expand_env_vars, expand_loop}
use siphon_smpp.Config.Expansion.{Expands, expand_env_vars-Expands}
use siphon_smpp.Config.Environment.{nonempty, binds_from_env}
use siphon_smpp.Config.Settings.{setting}
use siphon_smpp.Config.EnvFields.{HasSettings}
use siphon_smpp.Config.EnvBinds.{NamesAscend, binds_from_env_exact}
use siphon_smpp.Config.EnvErrors.{Faulty, binds_from_env-Faulty}
use siphon_smpp.Config.Load.{from_file}
use siphon_smpp.Install.{build_config_dict, other_secrets, build_config_dict-other_secrets}
use siphon_smpp.Metrics.{IsRegistered, store_call, sample, calls-IsRegistered}
use siphon_smpp.Runtime.{pdu_handled, inbound, accepted}
use siphon_smpp.Examples.Fixtures.{state, up, server, cfg}

abbrev variables : Environment
variables =
    (code_points "SMPP_BIND_UP_HOST", code_points "smsc.example.net")
    ∷ (code_points "SMPP_BIND_UP_PORT", code_points "70000")
    ∷ (code_points "SMPP_BIND_UP_SYSTEM_ID", code_points "id")
    ∷ (code_points "SMPP_BIND_UP_PASSWORD", code_points "secret")
    ∷ (code_points "SMPP_SERVER_MAX_MPS", code_points "200")
    ∷ []

document : Text
document = code_points "host: ${SMPP_BIND_UP_HOST} ${X:-y} ${z"

expand_env_vars-Expands_example :
    (expand_loop variables (suc (length document)) [] document
      ≡ some (expand_env_vars variables document))
    × Expands variables document (expand_env_vars variables document)
expand_env_vars-Expands_example = expand_env_vars-Expands variables document

expanded : expand_env_vars variables document ≡ code_points "host: smsc.example.net y ${z"
unfolding expand_env_vars document
expanded = refl

abbrev same : Text → Text
same s = s

bind_found : binds_from_env same variables ≡ ok (up ∷ [])
unfolding binds_from_env upsert text_lt
bind_found = refl

binds_from_env_exact_example :
    All (λ b. HasSettings same (λ f. setting same variables b.name (code_points f)) b) (up ∷ [])
    × NamesAscend (up ∷ [])
    × ((name host : Text)
        → nonempty (setting same variables name (code_points "HOST")) ≡ some host
        → any (λ b. bytes_eq b.name name) (up ∷ []) ≡ true)
binds_from_env_exact_example = binds_from_env_exact same variables (up ∷ []) bind_found

-- No password is set.
abbrev without_password : Environment
without_password =
    (code_points "SMPP_BIND_UP_HOST", code_points "smsc.example.net")
    ∷ (code_points "SMPP_BIND_UP_SYSTEM_ID", code_points "id")
    ∷ []

abbrev no_password : ConfigError
no_password = env_bind_missing (code_points "up") (code_points "PASSWORD")

bind_refused : binds_from_env same without_password ≡ err no_password
unfolding binds_from_env upsert text_lt
bind_refused = refl

binds_from_env-Faulty_example :
    (name : Text) × (nonempty (setting same without_password name (code_points "HOST")) ≢ none)
    × Faulty (λ f. setting same without_password name (code_points f)) name no_password
binds_from_env-Faulty_example = binds_from_env-Faulty same without_password no_password bind_refused

abbrev parsed : Text → Result YamlError SmppConfig
parsed yaml = ok cfg

-- The rate is that of the environment, and its bind comes after that of the file.
abbrev overridden_cfg : SmppConfig
overridden_cfg = record cfg {
  server = record server { max_msg_per_sec = 200 };
  binds = up ∷ up ∷ [];
}

file_loads :
    from_file same parsed variables (code_points "smpp.yaml") (ok document) ≡ ok overridden_cfg
unfolding from_file binds_from_env upsert text_lt
file_loads = refl

abbrev yaml_of : OptionValue → Option Text
yaml_of v = some (code_points "-1")

build_config_dict-other_secrets_example :
    build_config_dict yaml_of (record cfg {
      server = record cfg.server { tls = none };
      binds = other_secrets yaml_of (λ b. b.host) (λ b. none) cfg.binds;
    })
    ≡ build_config_dict yaml_of cfg
build_config_dict-other_secrets_example =
    build_config_dict-other_secrets yaml_of (λ b. b.host) (λ b. none) none cfg

calls-IsRegistered_example :
    IsRegistered (store_call (pdu_handled inbound "submit_sm" accepted))
    × All IsRegistered (sample state)
calls-IsRegistered_example = calls-IsRegistered (pdu_handled inbound "submit_sm" accepted) state
