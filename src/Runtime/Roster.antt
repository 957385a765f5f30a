-- ===== src/Runtime/Roster.antt =====
-- What the registry of src/runtime.rs promises of the bound ESMEs: a map from session ids, which ESMEs
-- join and leave and which nothing else changes.
use siphon_smpp.Common.{
  ℕ, ◌≡◌, refl, sym, ap, ◌∙◌, subst, inl, inr, String, Bool, not, Option, none, some, List, [], ◌∷◌,
  ◌++◌, str_eq, eq_iff, find, retain, option_map, if◌then◌else◌, arith, Bool-cases,
}
use siphon_smpp.RateLimiter.{Bucket}
use siphon_smpp.Runtime.{
  State, Script, Esme, Smsc, EsmeSession, find_esme, put_throttle, record_metric, limiter,
}
use siphon_smpp.Runtime.Server.{on_esme_bound, on_esme_unbound}
use siphon_smpp.Runtime.Responses.{Response}
use siphon_smpp.Runtime.Registry.{
  named, str_eq_distinct, find-retain_same, find-retain_other, find-append_other, find-append_new,
}
use siphon_smpp.Runtime.RequestEffects.{on_request-Effect}
use siphon_smpp.Runtime.Effects.{Alike, Effect, kept, limited}
use siphon_smpp.Runtime.Kept.{
  on_bind_transmitter-Alike, on_bind_receiver-Alike, on_bind_transceiver-Alike,
  on_listen_failed-Alike, after_attempt-Alike, on_connection_failed-Alike, on_deliver_sm-Alike,
  on_data_sm-Alike, on_alert_notification-Alike,
}
use siphon_smpp.Runtime.Client.{BindListener, on_smsc_bound, on_smsc_unbound}
use siphon_smpp.Sends.{pace}
use siphon_smpp.Runtime.Steps.{
  Step, esme_bound, esme_unbound, request, bind_transmitter, bind_receiver, bind_transceiver,
  listen_failed, smsc_bound, smsc_unbound, connection_failed, delivery, data_delivery, alert,
  attempt_over, send_turn, Run, start, followed,
}

-- The bound ESME of each session id.
abbrev pub Roster : Type 0
Roster = String → Option Esme

abbrev pub joined : Esme → Roster → Roster
joined esme r id = if str_eq esme.session_id id then some esme else r id

abbrev pub without : String → Roster → Roster
without left r id = if str_eq left id then none else r id

abbrev view : List EsmeSession → Roster
view es id = option_map (λ e. e.esme) (find (named id) es)

unfoldable pub roster : State → Roster
roster s = view s.esmes

view-put_throttle :
    (id other : String) (b : Bucket) (es : List EsmeSession)
    → view (put_throttle id b es) other ≡ view es other
unfolding put_throttle
view-put_throttle id other b [] = refl
view-put_throttle id other b (e ∷ es) = let ih = view-put_throttle id other b es in ground arith

option_map-none : {A B : Type 0} (f : A → B) (o : Option A) → option_map f o ≡ none → o ≡ none
option_map-none f none h = refl
option_map-none f (some a) h = cc

view-append :
    (es : List EsmeSession) (e : EsmeSession) (id : String)
    → view es e.esme.session_id ≡ none
    → view (es ++ e ∷ []) id ≡ joined e.esme (view es) id
view-append es e id n = elim (Bool-cases (str_eq e.esme.session_id id)) [
  | inl h ↦
      let same = (eq_iff e.esme.session_id id).0 h in
      let free = subst (λ i. view es i ≡ none) same n in
      let unnamed = option_map-none (λ (e : EsmeSession). e.esme) (find (named id) es) free in
      rw (find-append_new id es e unnamed h) (rw h refl)
  | inr h ↦ rw h (ap (option_map {B = Esme} (λ e. e.esme)) (find-append_other id es e h))
]

view-retain :
    (es : List EsmeSession) (left id : String)
    → view (retain (λ e. not (named left e)) es) id ≡ without left (view es) id
view-retain es left id = elim (Bool-cases (str_eq left id)) [
  | inl h ↦
      let same = (eq_iff left id).0 h in
      let gone =
        subst (λ i. find (named i) (retain (λ e. not (named left e)) es) ≡ none) same
          (find-retain_same left es) in
      rw h (ap (option_map {B = Esme} (λ e. e.esme)) gone)
  | inr h ↦
      let other = str_eq_distinct id left (λ e. (let b = (eq_iff left id).1 (sym e) in cc)) in
      rw h (ap (option_map {B = Esme} (λ e. e.esme)) (find-retain_other left id es other))
]

Alike-roster : (s s' : State) → Alike s s' → roster s' ≡ roster s
unfolding roster
Alike-roster s s' a = ap view a.esmes

Effect-roster : (s s' : State) → Effect s s' → roster s' ≡ roster s
unfolding roster
Effect-roster s s' (kept a) = Alike-roster s s' a
Effect-roster s s' (limited id b b' e taken a) =
    ap view a.esmes ∙ (λ i other. view-put_throttle id other b' s.esmes i)

esmes-roster : (s s' : State) → s'.esmes ≡ s.esmes → roster s' ≡ roster s
unfolding roster
esmes-roster s s' e = ap view e

smsc_bound-roster :
    (listener : BindListener) (script : Script) (smsc : Smsc) (id : String) (now : ℕ) (s : State)
    → roster (on_smsc_bound listener script smsc id now s).0 ≡ roster s
unfolding roster on_smsc_bound
smsc_bound-roster listener script smsc id now s = refl

smsc_unbound-roster :
    (listener : BindListener) (script : Script) (id : String) (s : State)
    → roster (on_smsc_unbound listener script id s).0 ≡ roster s
unfolding roster on_smsc_unbound
smsc_unbound-roster listener script id s = refl

bound-roster :
    (script : Script) (esme : Esme) (now : ℕ) (s : State)
    → find_esme s esme.session_id ≡ none
    → roster (on_esme_bound script esme esme.session_id now s).0 ≡ joined esme (roster s)
unfolding on_esme_bound roster find_esme
bound-roster script esme now s free =
    let e : EsmeSession = record {
      esme = esme;
      throttle = limiter s.inbound_max_mps now;
      response_timer = s.inbound_response_timer;
    } in
    λ i id. view-append s.esmes e id (ap (option_map {B = Esme} (λ e. e.esme)) free) i

unbound-roster :
    (script : Script) (id : String) (s : State)
    → roster (on_esme_unbound script id s).0 ≡ without id (roster s)
unfolding on_esme_unbound roster
unbound-roster script id s = λ i other. view-retain s.esmes id other i

pub pace-esmes :
    (bind : String) (throttle : Option Bucket) (clock : List ℕ) (s s' : State)
    → pace bind throttle clock s ≡ some s'
    → s'.esmes ≡ s.esmes
unfolding pace record_metric
pace-esmes bind throttle clock s s' h = ground arith

module _ (is_success : Response → Bool) where
  -- What a change does to the map: an ESME that binds joins, one that unbinds leaves, nothing else counts.
  abbrev pub changed : (s s' : State) → Step is_success s s' → Roster → Roster
  changed _ _ (esme_bound script esme now s free) r = joined esme r
  changed _ _ (esme_unbound script id s) r = without id r
  changed _ _ (request script address id q clock s h e) r = r
  changed _ _ (bind_transmitter s) r = r
  changed _ _ (bind_receiver s) r = r
  changed _ _ (bind_transceiver script system_id password address s) r = r
  changed _ _ (listen_failed error s) r = r
  changed _ _ (smsc_bound listener script smsc id now s) r = r
  changed _ _ (smsc_unbound listener script id s) r = r
  changed _ _ (connection_failed listener s) r = r
  changed _ _ (delivery listener script id address d s) r = r
  changed _ _ (data_delivery listener script id address d s) r = r
  changed _ _ (alert listener script id address a s) r = r
  changed _ _ (attempt_over name backoff outcome s) r = r
  changed _ _ (send_turn bind target clock s s' found turn) r = r

  -- The map after a run from a given one: what its changes make of it, in their order.
  abbrev pub roster_after : (s s' : State) → Run is_success s s' → Roster → Roster
  roster_after _ _ (start s) r = r
  roster_after _ _ (followed s t u run step) r = changed t u step (roster_after s t run r)

  Step-roster :
      (s s' : State) (step : Step is_success s s') → roster s' ≡ changed s s' step (roster s)
  Step-roster _ _ (esme_bound script esme now s free) = bound-roster script esme now s free
  Step-roster _ _ (esme_unbound script id s) = unbound-roster script id s
  Step-roster _ _ (request script address id r clock s h e) =
      Effect-roster s h.state (on_request-Effect is_success script address id r clock s h e)
  Step-roster _ _ (bind_transmitter s) = Alike-roster s _ (on_bind_transmitter-Alike s)
  Step-roster _ _ (bind_receiver s) = Alike-roster s _ (on_bind_receiver-Alike s)
  Step-roster _ _ (bind_transceiver script system_id password address s) =
      Alike-roster s _ (on_bind_transceiver-Alike script system_id password address s)
  Step-roster _ _ (listen_failed error s) = Alike-roster s _ (on_listen_failed-Alike error s)
  Step-roster _ _ (smsc_bound listener script smsc id now s) =
      smsc_bound-roster listener script smsc id now s
  Step-roster _ _ (smsc_unbound listener script id s) = smsc_unbound-roster listener script id s
  Step-roster _ _ (connection_failed listener s) =
      Alike-roster s _ (on_connection_failed-Alike listener s)
  Step-roster _ _ (delivery listener script id address r s) =
      Alike-roster s _ (on_deliver_sm-Alike listener script id address r s)
  Step-roster _ _ (data_delivery listener script id address r s) =
      Alike-roster s _ (on_data_sm-Alike listener script id address is_success r s)
  Step-roster _ _ (alert listener script id address a s) =
      Alike-roster s _ (on_alert_notification-Alike listener script id address a s)
  Step-roster _ _ (attempt_over name backoff outcome s) =
      Alike-roster s _ (after_attempt-Alike name backoff outcome s)
  Step-roster _ _ (send_turn bind target clock s s' found turn) =
      esmes-roster s s' (pace-esmes bind target.throttle clock s s' turn)

  -- After any run of the program the bound ESMEs, as a map from session ids, are those at its start with
  -- each ESME that bound since added under its id, each id that unbound removed, in the order in which it
  -- happened, and nothing else changed.
  pub Run-roster :
      (s s' : State) (run : Run is_success s s') → roster s' ≡ roster_after s s' run (roster s)
  Run-roster _ _ (start s) = refl
  Run-roster _ _ (followed s t u run step) =
      Step-roster t u step ∙ ap (changed t u step) (Run-roster s t run)
