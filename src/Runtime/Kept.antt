-- ===== src/Runtime/Kept.antt =====
-- The changes of the state that leave the sessions alone: src/runtime.rs, the handlers of bind requests,
-- failures and deliveries, and the bind loop.
use siphon_smpp.Common.{ℕ, refl, String, Bool, Option, Result, ok, err, arith}
use siphon_smpp.Pdu.{DeliverSm, DataSm, from_deliver, from_data}
use siphon_smpp.Reply.{AlertNotification, PduReply}
use siphon_smpp.Dispatch.{DispatchError}
use siphon_smpp.Dispatch
use siphon_smpp.Runtime.{State, Script, Handled, record_metric, dispatch_pdu, egress}
use siphon_smpp.Runtime.Server.{
  on_bind_transmitter, on_bind_receiver, on_bind_transceiver, on_listen_failed,
}
use siphon_smpp.Runtime.Responses.{Response}
use siphon_smpp.Runtime.Client.{
  BindListener, on_connection_failed, on_deliver_sm, on_alert_notification, bind_session,
  deliver_result, alert_counts,
}
use siphon_smpp.Runtime.Client
use siphon_smpp.Runtime.Supervisor.{after_attempt}
use siphon_smpp.Runtime.RequestEffects.{dispatch_pdu-Alike, data_whole}
use siphon_smpp.Runtime.Effects.{Alike, Alike-trans}

pub on_bind_transmitter-Alike : (s : State) → Alike s (on_bind_transmitter s).1
unfolding on_bind_transmitter record_metric
on_bind_transmitter-Alike s = record {
  esmes = ground arith;
  binds = ground arith;
  rate = ground arith;
  timer = ground arith;
  failure = λ error was. ground arith;
}

pub on_bind_receiver-Alike : (s : State) → Alike s (on_bind_receiver s).1
unfolding on_bind_receiver record_metric
on_bind_receiver-Alike s = record {
  esmes = ground arith;
  binds = ground arith;
  rate = ground arith;
  timer = ground arith;
  failure = λ error was. ground arith;
}

pub on_bind_transceiver-Alike :
    (script : Script) (system_id password address : String) (s : State)
    → Alike s (on_bind_transceiver script system_id password address s).state
unfolding on_bind_transceiver record_metric
on_bind_transceiver-Alike script system_id password address s = record {
  esmes = ground arith;
  binds = ground arith;
  rate = ground arith;
  timer = ground arith;
  failure = λ error was. ground arith;
}

pub on_listen_failed-Alike : (error : String) (s : State) → Alike s (on_listen_failed error s)
unfolding on_listen_failed
on_listen_failed-Alike error s = record {
  esmes = refl;
  binds = refl;
  rate = refl;
  timer = refl;
  failure = λ e was. ground arith;
}

pub after_attempt-Alike :
    (name : String) (backoff : ℕ) (outcome : Option ℕ) (s : State)
    → Alike s (after_attempt name backoff outcome s).state
unfolding after_attempt record_metric
after_attempt-Alike name backoff outcome s = record {
  esmes = ground arith;
  binds = ground arith;
  rate = ground arith;
  timer = ground arith;
  failure = λ error was. ground arith;
}

module _ (listener : BindListener) where
  pub on_connection_failed-Alike : (s : State) → Alike s (on_connection_failed listener s).0
  unfolding on_connection_failed record_metric
  on_connection_failed-Alike s = record {
    esmes = ground arith;
    binds = ground arith;
    rate = ground arith;
    timer = ground arith;
    failure = λ error was. ground arith;
  }

  module _ (script : Script) (id address : String) where
    deliver_result-Alike :
        (d : Handled (Result DispatchError PduReply))
        → Alike d.state (deliver_result listener d).state
    unfolding record_metric
    deliver_result-Alike d = record {
      esmes = ground arith;
      binds = ground arith;
      rate = ground arith;
      timer = ground arith;
      failure = λ error was. ground arith;
    }

    pub on_deliver_sm-Alike :
        (r : DeliverSm) (s : State) → Alike s (on_deliver_sm listener script id address r s).state
    unfolding on_deliver_sm
    on_deliver_sm-Alike r s =
        let session = bind_session listener id address in
        let d = dispatch_pdu script "deliver_sm" (from_deliver r) session s in
        Alike-trans s d.state _ (dispatch_pdu-Alike script (from_deliver r) session s "deliver_sm")
          (deliver_result-Alike d)

    pub on_data_sm-Alike :
        (is_success : Response → Bool) (r : DataSm) (s : State)
        → Alike s (Client.on_data_sm listener script id address is_success r s).state
    unfolding Client.on_data_sm
    on_data_sm-Alike is_success r s =
        data_whole script (from_data r) (bind_session listener id address) s is_success egress

    alert_counts-Alike :
        (r : Result DispatchError (Unit {0})) (s : State)
        → Alike s (alert_counts listener script id address r s)
    unfolding record_metric
    alert_counts-Alike (ok u) s = record {
      esmes = ground arith;
      binds = ground arith;
      rate = ground arith;
      timer = ground arith;
      failure = λ error was. ground arith;
    }
    alert_counts-Alike (err e) s = record {
      esmes = ground arith;
      binds = ground arith;
      rate = ground arith;
      timer = ground arith;
      failure = λ error was. ground arith;
    }

    pub on_alert_notification-Alike :
        (a : AlertNotification) (s : State)
        → Alike s (on_alert_notification listener script id address a s).0
    unfolding on_alert_notification
    on_alert_notification-Alike a s =
        alert_counts-Alike
          (Dispatch.alert script.engine script.source a (bind_session listener id address)).0 s
