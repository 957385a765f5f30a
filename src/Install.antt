-- ===== src/Install.antt =====
-- The configuration as scripts see it: src/install.rs `build_config_dict`. The YAML text of an option's
-- value is serde's, a parameter that is `none` where it fails.
pub mod Readouts
use siphon_smpp.Common.{ℕ, ◌≡◌, refl, ap, Option, List, [], ◌∷◌, unwrap_or, String, code_points}
use siphon_smpp.Tlv.{Text}
use siphon_smpp.Config.Types.{
  SmppConfig, BindConfig, RoutingRule, RoutingConfig, OptionValue, TlsConfig, as_str,
}
use siphon_smpp.Config.Listen.{listen}

-- The Python values of the dict, and a dict's items in the order in which they were set.
mutual
  pub data PyData : Type 0 where
    py_str : Text → PyData
    py_int : ℕ → PyData
    py_list : PyList → PyData
    py_dict : PyDict → PyData

  pub data PyList : Type 0 where
    no_items : PyList
    item : PyData → PyList → PyList

  pub data PyDict : Type 0 where
    no_entries : PyDict
    entry : Text → PyData → PyDict → PyDict

abbrev pub set : String → PyData → PyDict → PyDict
set key value rest = entry (code_points key) value rest

abbrev py_strs : List Text → PyList
py_strs [] = no_items
py_strs (s ∷ ss) = item (py_str s) (py_strs ss)

unfoldable pub server_dict : SmppConfig → PyDict
unfolding listen as_str
server_dict cfg =
    let (host, port) = listen cfg in
    set "bind_address" (py_str host) (
      set "port" (py_int port) (
        set "session_init_timer_ms" (py_int cfg.server.session_init_timer_ms) (
          set "enquire_link_timer_ms" (py_int cfg.server.enquire_link_timer_ms) (
            set "inactivity_timer_ms" (py_int cfg.server.inactivity_timer_ms) (
              set "response_timer_ms" (py_int cfg.server.response_timer_ms) (
                set "max_msg_per_sec" (py_int cfg.server.max_msg_per_sec) (
                  set "throttle_action" (py_str (code_points (as_str cfg.server.throttle_action)))
                    no_entries)))))))

unfoldable pub bind_dict : BindConfig → PyDict
bind_dict bind = set "name" (py_str bind.name) (
    set "host" (py_str bind.host) (
      set "port" (py_int bind.port) (
        set "system_id" (py_str bind.system_id) (
          set "system_type" (py_str bind.system_type) (
            set "bind_type" (py_str bind.bind_type)
              (set "max_msg_per_sec" (py_int bind.max_msg_per_sec) no_entries))))))

unfoldable pub bind_dicts : List BindConfig → PyList
unfolding bind_dict
bind_dicts [] = no_items
bind_dicts (bind ∷ binds) = item (py_dict (bind_dict bind)) (bind_dicts binds)

module _ (to_yaml : OptionValue → Option Text) where
  unfoldable pub options_dict : List (Text × OptionValue) → PyDict
  options_dict [] = no_entries
  options_dict ((k, v) ∷ options) =
      entry k (py_str (unwrap_or (to_yaml v) [])) (options_dict options)

  unfoldable pub rule_dicts : List RoutingRule → PyList
  unfolding options_dict
  rule_dicts [] = no_items
  rule_dicts (rule ∷ rules) =
      item
        (py_dict (
          set "prefix" (py_str rule.prefix) (
            set "name" (py_str rule.name) (
              set "chain" (py_list (py_strs rule.chain))
                (set "options" (py_dict (options_dict rule.options)) no_entries)))))
        (rule_dicts rules)

  unfoldable pub routing_dict : RoutingConfig → PyDict
  unfolding rule_dicts
  routing_dict routing =
      set "default_chain" (py_list (py_strs routing.default_chain))
        (set "rules" (py_list (rule_dicts routing.rules)) no_entries)

  unfoldable pub build_config_dict : SmppConfig → PyDict
  unfolding server_dict bind_dicts routing_dict
  build_config_dict cfg = set "server" (py_dict (server_dict cfg)) (
      set "binds" (py_list (bind_dicts cfg.binds))
        (set "routing" (py_dict (routing_dict cfg.routing)) no_entries))

  -- Other passwords, and other keys for TLS.
  abbrev pub other_secrets :
      (password : BindConfig → Text) (tls : BindConfig → Option TlsConfig)
      → List BindConfig
      → List BindConfig
  other_secrets password tls [] = []
  other_secrets password tls (b ∷ binds) =
      record b { password = password b; tls = tls b } ∷ other_secrets password tls binds

  bind_dicts-other_secrets :
      (password : BindConfig → Text) (tls : BindConfig → Option TlsConfig) (binds : List BindConfig)
      → bind_dicts (other_secrets password tls binds) ≡ bind_dicts binds
  unfolding bind_dicts
  bind_dicts-other_secrets password tls [] = refl
  bind_dicts-other_secrets password tls (b ∷ binds) =
      ap (item (py_dict (bind_dict b))) (bind_dicts-other_secrets password tls binds)

  -- The dict says nothing of the passwords of the binds and of their TLS settings or the server's: with
  -- any others in their place it is the same.
  pub build_config_dict-other_secrets :
      (password : BindConfig → Text) (tls : BindConfig → Option TlsConfig)
      (server_tls : Option TlsConfig) (cfg : SmppConfig)
      → build_config_dict (record cfg {
        server = record cfg.server { tls = server_tls };
        binds = other_secrets password tls cfg.binds;
      })
        ≡ build_config_dict cfg
  unfolding build_config_dict
  build_config_dict-other_secrets password tls server_tls cfg =
      ap
        (λ binds. set "server" (py_dict (server_dict cfg)) (
          set "binds" (py_list binds)
            (set "routing" (py_dict (routing_dict cfg.routing)) no_entries)))
        (bind_dicts-other_secrets password tls cfg.binds)
