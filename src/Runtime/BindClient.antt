-- ===== src/Runtime/BindClient.antt =====
-- The client of an outbound bind and its listener: src/runtime.rs `run_bind_loop`. `name` is the name of
-- the bind as a native string, and `bind_type` its type.
use siphon_smpp.Common.{
  ℕ, ◌*◌, ◌-◌, ◌≡◌, refl, ap, String, Bool, none, [], leb, if◌then◌else◌, false, is_some, find,
  eq_iff, ok, err,
}
use siphon_smpp.Tlv.{Text}
use siphon_smpp.Config.Types.{BindConfig}
use siphon_smpp.Status.{esme_rsyserr}
use siphon_smpp.Outcome.{
  SendFailure, timeout, closed, unanswered, on_bind, into_pyerr, classify, settle,
}
use siphon_smpp.Runtime.{State, Script, Smsc, limiter, bind_gone}
use siphon_smpp.Runtime.Client.{BindListener, on_smsc_bound}
use siphon_smpp.Runtime.Supervisor.{BindType, bind_type_of}
use siphon_smpp.Runtime.Startup.{nanos_per_milli}
use siphon_smpp.Runtime.BindTurns.{called}
use siphon_smpp.Runtime.BindThroughput.{find-append_last}
use siphon_smpp.Sends.{BindTarget, bind_handle, found_bind, Exchange, settle_on_bind, send_error}

-- What the constructor of the codec's client is given, in its order and without the listener. An argument
-- that the source gives as a bare literal is called by its place.
pub record ClientArgs : Type 0 where
  pub host : Text
  pub port : ℕ
  pub use_tls : Bool
  pub bind_type : BindType
  pub system_id : Text
  pub password : Text
  pub system_type : Text
  pub argument_8 : ℕ
  pub argument_9 : ℕ
  pub argument_10 : Text
  pub argument_12 : ℕ
  pub enquire_link_timer : ℕ
  pub argument_14 : ℕ
  pub response_timer : ℕ
  pub argument_16 : ℕ
  pub argument_17 : ℕ

unfoldable pub client_of : (bind_type : String) → BindConfig → ClientArgs
unfolding bind_type_of
client_of bind_type cfg = record {
  host = cfg.host;
  port = cfg.port;
  use_tls = is_some cfg.tls;
  bind_type = bind_type_of bind_type;
  system_id = cfg.system_id;
  password = cfg.password;
  system_type = cfg.system_type;
  argument_8 = 1;
  argument_9 = 1;
  argument_10 = [];
  argument_12 = 5000;
  enquire_link_timer = cfg.enquire_link_timer_ms;
  argument_14 = 60000;
  response_timer = cfg.response_timer_ms;
  argument_16 = 1500;
  argument_17 = 20;
}

unfoldable pub listener_of : (name : String) → BindConfig → BindListener
listener_of name cfg = record {
  bind_name = name;
  max_msg_per_sec = cfg.max_msg_per_sec;
  response_timer = cfg.response_timer_ms * nanos_per_milli;
  connect_failed = false;
}

-- What a request without an answer of its own is told to be, by the timer that its client runs.
abbrev pub by_timer : (timer waited : ℕ) (gone : Bool) → SendFailure
by_timer timer waited gone =
    if leb timer waited then timeout timer else if gone then closed else unanswered

module _ (name bind_type : String) (cfg : BindConfig) (script : Script) (smsc : Smsc) (id : String)
    (now : ℕ) (s : State) where
  abbrev up : State
  up = (on_smsc_bound (listener_of name cfg) script smsc id now s).0

  abbrev target : BindTarget
  target = record {
    smsc = smsc;
    throttle = limiter cfg.max_msg_per_sec now;
    response_timer = cfg.response_timer_ms * nanos_per_milli;
  }

  up-bind_handle : find (called name) s.binds ≡ none → bind_handle up name ≡ ok target
  unfolding bind_handle on_smsc_bound listener_of
  up-bind_handle free =
      ap (found_bind name) (find-append_last name s.binds _ free ((eq_iff name name).1 refl))

  settle_timer :
      {R : Type 0} (command : String) (x : Exchange R)
      → x.answer ≡ err esme_rsyserr
      → settle_on_bind target name command x
        ≡ err (
            send_error (
              into_pyerr
                (by_timer
                  ((client_of bind_type cfg).response_timer * nanos_per_milli)
                  (x.finished - x.started)
                  (bind_gone x.later smsc))
                command
                (on_bind name)))
  unfolding settle_on_bind settle classify client_of
  settle_timer command x e = rw e refl

  -- A bind that comes up under a free name is found by it, and a request on it that the codec gives no
  -- answer is a timeout exactly when the response timer of its client has run, and else a close or without
  -- a cause, as the registry says.
  pub client_timer :
      {R : Type 0} (command : String) (x : Exchange R)
      → find (called name) s.binds ≡ none
      → x.answer ≡ err esme_rsyserr
      → (t : BindTarget) × (bind_handle up name ≡ ok t)
        × (t.smsc ≡ smsc)
        × (settle_on_bind t name command x
            ≡ err (
                send_error (
                  into_pyerr
                    (by_timer
                      ((client_of bind_type cfg).response_timer * nanos_per_milli)
                      (x.finished - x.started)
                      (bind_gone x.later smsc))
                    command
                    (on_bind name))))
  client_timer command x free e = (target, up-bind_handle free, refl, settle_timer command x e)
