-- ===== src/Install/Readouts.antt =====
-- What a script reads of the configuration: python/smpp.py `bind_address`, `config`, `binds` and
-- `routing_rules`. `none` stands for the exception of a key that is missing or of a value of another type.
use siphon_smpp.Common.{
  ℕ, zero, suc, ◌+◌, ◌/◌, ◌%◌, ◌^◌, ◌<◌, ◌≡◌, refl, Option, none, some, [], ◌∷◌, ◌++◌, unwrap_or,
  String, code_points, bytes_eq, ltb, if◌then◌else◌, ok, arith,
}
use siphon_smpp.Tlv.{Text}
use siphon_smpp.Config.Types.{SmppConfig, OptionValue}
use siphon_smpp.Config.Listen.{listen}
use siphon_smpp.Config.Texts.{parse_digits, parse_unsigned}
use siphon_smpp.Install.{
  PyData, py_str, py_int, py_list, py_dict, PyList, no_items, PyDict, no_entries, entry, py_strs,
  server_dict, bind_dicts, rule_dicts, routing_dict, build_config_dict,
}

unfoldable pub get : String → PyDict → Option PyData
get key no_entries = none
get key (entry k v d) =
    let rest = get key d in if bytes_eq k (code_points key) then some v else rest

abbrev pub as_dict : Option PyData → Option PyDict
as_dict (some (py_dict d)) = some d
as_dict other = none

abbrev pub as_list : Option PyData → Option PyList
as_list (some (py_list l)) = some l
as_list other = none

-- The decimal digits of a number, before what stands after it.
unfoldable pub decimal : (fuel n : ℕ) → Text → Text
decimal zero n rest = rest
decimal (suc fuel) n rest =
    let more = decimal fuel (n / 10) ((b'0' + n % 10) ∷ rest) in
    if ltb n 10 then (b'0' + n) ∷ rest else more

-- What an f-string writes for a text or a number.
unfoldable pub format : Option PyData → Option Text
unfolding decimal
format (some (py_str t)) = some t
format (some (py_int n)) = some (decimal (suc n) n [])
format other = none

abbrev with_colon : Option Text → Option Text → Option Text
with_colon (some host) (some port) = some (host ++ b':' ∷ port)
with_colon host port = none

unfoldable pub bind_address : PyDict → Option Text
unfolding get format
bind_address config = elim (as_dict (get "server" config)) [
  | none ↦ none
  | some s ↦ with_colon (format (get "bind_address" s)) (format (get "port" s))
]

unfoldable pub binds : PyDict → Option PyList
unfolding get
binds config = as_list (some (unwrap_or (get "binds" config) (py_list no_items)))

unfoldable pub routing_rules : PyDict → Option (PyData × PyData)
unfolding get
routing_rules config =
    elim (as_dict (some (unwrap_or (get "routing" config) (py_dict no_entries)))) [
      | none ↦ none
      | some r ↦ some (
        unwrap_or (get "default_chain" r) (py_list no_items),
        unwrap_or (get "rules" r) (py_list no_items),
      )
    ]

parse_unsigned-decimal :
    (bound fuel n : ℕ) (rest : Text)
    → n < fuel
    → n < bound
    → parse_unsigned bound (decimal fuel n rest) ≡ parse_digits bound n rest
unfolding decimal parse_unsigned parse_digits
parse_unsigned-decimal bound zero n rest h b = absurd (omega arith)
parse_unsigned-decimal bound (suc fuel) n rest h b =
    ground (arith, parse_unsigned-decimal bound fuel (n / 10) ((b'0' + n % 10) ∷ rest))

module _ (to_yaml : OptionValue → Option Text) (cfg : SmppConfig) where
  -- A script reads the host and the port that the server listens on, the port in digits that read back
  -- as it, the dicts of the binds, and the default chain with the dicts of the rules.
  pub readouts :
      (listen cfg).1 < 2 ^ 16
      → (port : Text) × (bind_address (build_config_dict to_yaml cfg)
          ≡ some ((listen cfg).0 ++ b':' ∷ port))
        × (parse_unsigned (2 ^ 16) port ≡ ok (listen cfg).1)
        × (binds (build_config_dict to_yaml cfg) ≡ some (bind_dicts cfg.binds))
        × (routing_rules (build_config_dict to_yaml cfg)
            ≡ some (
              py_list (py_strs cfg.routing.default_chain),
              py_list (rule_dicts to_yaml cfg.routing.rules),
            ))
  unfolding bind_address binds routing_rules format build_config_dict server_dict routing_dict
      parse_digits
  readouts h = (
    decimal (suc (listen cfg).1) (listen cfg).1 [],
    refl,
    parse_unsigned-decimal (2 ^ 16) (suc (listen cfg).1) (listen cfg).1 [] (omega arith) h,
    refl,
    refl,
  )
