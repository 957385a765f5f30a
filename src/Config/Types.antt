-- ===== src/Config/Types.antt =====
-- The configuration's types and their defaults: src/config.rs.
use siphon_smpp.Common.{ℕ, Bool, String, Option, List}
use siphon_smpp.Tlv.{Text}

pub data ThrottleAction : Type 0 where
  pace reject : ThrottleAction

unfoldable pub as_str : ThrottleAction → String
as_str pace = "pace"
as_str reject = "reject"

-- `i64`: `negsuc n` is -(n + 1).
pub data ℤ : Type 0 where
  pos : ℕ → ℤ
  negsuc : ℕ → ℤ

-- An `f64` is the number that its 64 bits are.
mutual
  pub data OptionValue : Type 0 where
    null : OptionValue
    bool : Bool → OptionValue
    int : ℤ → OptionValue
    uint : ℕ → OptionValue
    float : ℕ → OptionValue
    string : Text → OptionValue
    seq : OptionValues → OptionValue
    map : OptionEntries → OptionValue

  pub data OptionValues : Type 0 where
    no_items : OptionValues
    item : OptionValue → OptionValues → OptionValues

  pub data OptionEntries : Type 0 where
    no_entries : OptionEntries
    entry : OptionValue → OptionValue → OptionEntries → OptionEntries

pub record TlsConfig : Type 0 where
  pub cert_path : Text
  pub key_path : Text
  pub ca_path : Option Text

pub record ServerConfig : Type 0 where
  pub bind_address : Option Text
  pub port : Option ℕ
  pub session_init_timer_ms : ℕ
  pub enquire_link_timer_ms : ℕ
  pub inactivity_timer_ms : ℕ
  pub response_timer_ms : ℕ
  pub max_msg_per_sec : ℕ
  pub throttle_action : ThrottleAction
  pub tls : Option TlsConfig

pub record BindConfig : Type 0 where
  pub name : Text
  pub host : Text
  pub port : ℕ
  pub system_id : Text
  pub password : Text
  pub system_type : Text
  pub bind_type : Text
  pub max_msg_per_sec : ℕ
  pub enquire_link_timer_ms : ℕ
  pub response_timer_ms : ℕ
  pub tls : Option TlsConfig

-- `options` is a `BTreeMap`: its entries by ascending key.
pub record RoutingRule : Type 0 where
  pub prefix : Text
  pub chain : List Text
  pub name : Text
  pub options : List (Text × OptionValue)

pub record RoutingConfig : Type 0 where
  pub default_chain : List Text
  pub rules : List RoutingRule

pub record SmppConfig : Type 0 where
  pub server : ServerConfig
  pub binds : List BindConfig
  pub routing : RoutingConfig
  pub bind_address : Option Text
  pub port : Option ℕ

abbrev pub default_enquire_link : ℕ
default_enquire_link = 30000

abbrev pub default_response : ℕ
default_response = 30000

-- `ParseIntError`'s kinds for an unsigned number.
pub data ParseIntError : Type 0 where
  empty invalid_digit pos_overflow : ParseIntError

-- Where the parser stopped in the document and what it said.
pub record YamlError : Type 0 where
  pub key_path : Text
  pub source : Text

pub data ConfigError : Type 0 where
  read : (path source : Text) → ConfigError
  parse : (path : Text) (source : YamlError) → ConfigError
  env_bind_missing : (bind field : Text) → ConfigError
  env_bind_invalid : (bind field value : Text) (source : ParseIntError) → ConfigError
