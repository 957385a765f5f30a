-- ===== src/Runtime/Startup.antt =====
-- Starting the runtime: src/runtime.rs `spawn`. Addresses are the standard library's: their type and
-- their parser are parameters. The metrics store is there when `metrics_enabled` says so.
use siphon_smpp.Common.{
  ℕ, ◌*◌, ◌≡◌, refl, sym, ap, ◌∙◌, subst, Bool, Option, none, some, List, [], ◌∷◌, ◌++◌, map,
  unwrap_or, Option-cases, inl, inr, if◌then◌else◌,
}
use mathlib.Core.Option.{some-injective}
use siphon_smpp.Tlv.{Text}
use siphon_smpp.Config.Types.{SmppConfig, BindConfig}
use siphon_smpp.Config.Listen.{listen}
use siphon_smpp.Runtime.{State}
use siphon_smpp.Runtime.Responses.{Response}
use siphon_smpp.Runtime.Steps.{Run}
use siphon_smpp.Runtime.Invariant.{WellFormed, Run-WellFormed}
use siphon_smpp.Runtime.Roster.{roster, roster_after, Run-roster}

abbrev pub nanos_per_milli : ℕ
nanos_per_milli = 1000000

unfoldable pub initial_state : (metrics_enabled : Bool) → SmppConfig → State
initial_state metrics_enabled cfg = record {
  binds = [];
  esmes = [];
  inbound_max_mps = cfg.server.max_msg_per_sec;
  inbound_throttle_action = cfg.server.throttle_action;
  inbound_response_timer = cfg.server.response_timer_ms * nanos_per_milli;
  listen_failure = none;
  metrics_enabled = metrics_enabled;
  metrics = [];
}

initial-WellFormed :
    (on : Bool) (cfg : SmppConfig)
    → WellFormed cfg.server.max_msg_per_sec
        (cfg.server.response_timer_ms * nanos_per_milli)
        (initial_state on cfg)
unfolding initial_state WellFormed
initial-WellFormed on cfg = (refl, refl, tt, tt)

initial-roster : (on : Bool) (cfg : SmppConfig) → roster (initial_state on cfg) ≡ (λ id. none)
unfolding initial_state roster
initial-roster on cfg = refl

module _ (Addr : Type 0) where
  -- The arguments of the codec's server.
  pub record Server : Type 0 where
    pub listen_addr : Addr
    pub port : ℕ
    pub session_init : ℕ
    pub enquire_link : ℕ
    pub inactivity : ℕ
    pub response : ℕ
    pub window : ℕ

  pub data Task : Type 0 where
    sample_metrics : Task
    serve : Server → Task
    supervise : BindConfig → Task

  -- What runs in the process: the state in its cell, and the tasks in the order in which they start.
  pub record Process : Type 0 where
    pub state : Option State
    pub tasks : List Task

  module _ (parse_addr : Text → Option Addr) (unspecified : Addr) where
    unfoldable pub server_of : SmppConfig → Server
    unfolding listen
    server_of cfg =
        let (host, port) = listen cfg in
        record {
          listen_addr = unwrap_or (parse_addr host) unspecified;
          port = port;
          session_init = cfg.server.session_init_timer_ms;
          enquire_link = cfg.server.enquire_link_timer_ms;
          inactivity = cfg.server.inactivity_timer_ms;
          response = cfg.server.response_timer_ms;
          window = 1500;
        }

    abbrev first_tasks : Bool → SmppConfig → List Task
    first_tasks metrics_enabled cfg =
        (if metrics_enabled then sample_metrics ∷ [] else [])
        ++ serve (server_of cfg) ∷ []
        ++ map supervise cfg.binds

    -- The cell takes one state; a second call starts nothing.
    abbrev set_once : Option State → Bool → SmppConfig → Process → Process
    set_once (some s) metrics_enabled cfg p = p
    set_once none metrics_enabled cfg p = record {
      state = some (initial_state metrics_enabled cfg);
      tasks = p.tasks ++ first_tasks metrics_enabled cfg;
    }

    unfoldable pub spawn : (metrics_enabled : Bool) → SmppConfig → Process → Process
    unfolding initial_state server_of
    spawn metrics_enabled cfg p = set_once p.state metrics_enabled cfg p

    spawn_settled :
        (on : Bool) (cfg : SmppConfig) (p : Process) (s : State)
        → p.state ≡ some s
        → spawn on cfg p ≡ p
    unfolding spawn
    spawn_settled on cfg p s e = ap (λ o. set_once o on cfg p) e

    spawn_first :
        (on : Bool) (cfg : SmppConfig) (p : Process)
        → p.state ≡ none
        → (spawn on cfg p).state ≡ some (initial_state on cfg)
    unfolding spawn
    spawn_first on cfg p e = ap (λ o. (set_once o on cfg p).state) e

    -- A second call changes nothing.
    pub spawn-spawn :
        (on on' : Bool) (cfg cfg' : SmppConfig) (p : Process)
        → spawn on' cfg' (spawn on cfg p) ≡ spawn on cfg p
    spawn-spawn on on' cfg cfg' p = elim (Option-cases p.state) [
      | inl e ↦
          spawn_settled on' cfg' (spawn on cfg p) (initial_state on cfg) (spawn_first on cfg p e)
      | inr (s, e) ↦
          spawn_settled on' cfg' (spawn on cfg p) s
            (ap (λ (p : Process). p.state) (spawn_settled on cfg p s e) ∙ e)
    ]

    -- From the start on, whatever happens, the cap and the timer for ESMEs are those of the
    -- configuration, the limiter and the timer of each ESME session are the ones that they say, and the
    -- limiter of each bind is usable; and the bound ESMEs, as a map from session ids, are what the changes
    -- since the start make of none.
    pub spawn-Run :
        (is_success : Response → Bool) (on : Bool) (cfg : SmppConfig) (p : Process) (s s' : State)
        → p.state ≡ none
        → (spawn on cfg p).state ≡ some s
        → (run : Run is_success s s')
        → WellFormed cfg.server.max_msg_per_sec (cfg.server.response_timer_ms * nanos_per_milli) s'
          × (roster s' ≡ roster_after is_success s s' run (λ id. none))
    spawn-Run is_success on cfg p s s' empty started run =
        let first : initial_state on cfg ≡ s =
          some-injective (initial_state on cfg) s (sym (spawn_first on cfg p empty) ∙ started) in
        (
          Run-WellFormed cfg.server.max_msg_per_sec (cfg.server.response_timer_ms * nanos_per_milli)
              is_success s s' run
              (subst
                (WellFormed cfg.server.max_msg_per_sec
                  (cfg.server.response_timer_ms * nanos_per_milli))
                first (initial-WellFormed on cfg)),
          Run-roster is_success s s' run
              ∙ ap (roster_after is_success s s' run)
                  (ap roster (sym first) ∙ initial-roster on cfg),
        )
