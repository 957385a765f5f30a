-- ===== src/Runtime/Registry.antt =====
-- The registry of bound ESMEs: src/runtime.rs `on_esme_bound`, `on_esme_unbound`, `esme_gone`,
-- `admit_inbound`.
use siphon_smpp.Common.{
  ℕ, ◌≡◌, ◌≢◌, ◌↔◌, refl, ap, sym, ◌∙◌, inl, inr, arith, String, Bool, true, false, not, Bool-cases,
  none, some, List, [], ◌∷◌, ◌++◌, ◌==◌, ==_iff, str_eq, eq_iff, find, any, retain,
}
use siphon_smpp.Config.Types.{pace, reject}
use siphon_smpp.RateLimiter.{Bucket, try_acquire}
use siphon_smpp.Runtime.{
  State, Script, Esme, EsmeSession, find_esme, esme_gone, limiter, refused, session_throttle,
  with_throttle, record_metric, throttled, inbound, admit_inbound,
}
use siphon_smpp.Runtime.Server.{on_esme_bound, on_esme_unbound}

abbrev pub named : String → EsmeSession → Bool
named id e = str_eq e.esme.session_id id

pub find-retain_same :
    (id : String) (es : List EsmeSession)
    → find (named id) (retain (λ e. not (named id e)) es) ≡ none
find-retain_same id [] = refl
find-retain_same id (e ∷ es) = elim (Bool-cases (named id e)) [
  | inl h ↦ ground (arith, find-retain_same id es)
  | inr h ↦ ground (arith, find-retain_same id es)
]

str_eq_trans : (a b c : String) → str_eq a b ≡ true → str_eq a c ≡ true → str_eq c b ≡ true
str_eq_trans a b c p q = (eq_iff c b).1 (sym ((eq_iff a c).0 q) ∙ (eq_iff a b).0 p)

pub find-retain_other :
    (id other : String) (es : List EsmeSession)
    → str_eq other id ≡ false
    → find (named other) (retain (λ e. not (named id e)) es) ≡ find (named other) es
find-retain_other id other [] d = refl
find-retain_other id other (e ∷ es) d = elim (Bool-cases (named id e)) [
  | inl h ↦ elim (Bool-cases (named other e)) [
    | inl g ↦ absurd (ground (arith, str_eq_trans e.esme.session_id id other h g))
    | inr g ↦ ground (arith, find-retain_other id other es d)
  ]
  | inr h ↦ ground (arith, find-retain_other id other es d)
]

pub find-append_other :
    (other : String) (es : List EsmeSession) (e : EsmeSession)
    → named other e ≡ false
    → find (named other) (es ++ e ∷ []) ≡ find (named other) es
find-append_other other [] e d = ground arith
find-append_other other (e' ∷ es) e d = ground (arith, find-append_other other es e d)

pub find-append_new :
    (id : String) (es : List EsmeSession) (e : EsmeSession)
    → find (named id) es ≡ none
    → named id e ≡ true
    → find (named id) (es ++ e ∷ []) ≡ some e
find-append_new id [] e n d = ground arith
find-append_new id (e' ∷ es) e n d = elim (Bool-cases (named id e')) [
  | inl g ↦ ground arith
  | inr g ↦ ground (arith, find-append_new id es e (ground arith) d)
]

pub str_eq_distinct : (a b : String) → a ≢ b → str_eq a b ≡ false
str_eq_distinct a b d = elim (Bool-cases (str_eq a b)) [
  | inl h ↦ absurd (d ((eq_iff a b).0 h))
  | inr h ↦ h
]

any-append_new :
    (ptr : ℕ) (es : List EsmeSession) (e : EsmeSession)
    → (e.esme.ptr == ptr) ≡ true
    → any (λ e. e.esme.ptr == ptr) (es ++ e ∷ []) ≡ true
any-append_new ptr [] e h = ground arith
any-append_new ptr (e' ∷ es) e h = ground (arith, any-append_new ptr es e h)

-- After an ESME unbinds, its session id finds no session, and every other id finds what it found before.
pub on_esme_unbound-find_esme :
    (script : Script) (id other : String) (s : State)
    → other ≢ id
    → (find_esme (on_esme_unbound script id s).0 id ≡ none)
      × (find_esme (on_esme_unbound script id s).0 other ≡ find_esme s other)
unfolding on_esme_unbound find_esme
on_esme_unbound-find_esme script id other s d =
    (find-retain_same id s.esmes, find-retain_other id other s.esmes (str_eq_distinct other id d))

-- After an ESME binds with an id that no session has, its id finds it, with the limiter and the response
-- timer of the settings, its handle is not gone, and every other id finds what it found before.
pub on_esme_bound-find_esme :
    (script : Script) (esme : Esme) (now : ℕ) (other : String) (s : State)
    → find_esme s esme.session_id ≡ none
    → other ≢ esme.session_id
    → (find_esme (on_esme_bound script esme esme.session_id now s).0 esme.session_id
        ≡ some (record {
          esme = esme;
          throttle = limiter s.inbound_max_mps now;
          response_timer = s.inbound_response_timer;
        }))
      × (find_esme (on_esme_bound script esme esme.session_id now s).0 other ≡ find_esme s other)
      × (esme_gone (on_esme_bound script esme esme.session_id now s).0 esme ≡ false)
unfolding on_esme_bound find_esme esme_gone
on_esme_bound-find_esme script esme now other s f d =
    let e : EsmeSession = record {
      esme = esme;
      throttle = limiter s.inbound_max_mps now;
      response_timer = s.inbound_response_timer;
    } in
    (
      find-append_new esme.session_id s.esmes e f ((eq_iff esme.session_id esme.session_id).1 refl),
      find-append_other other s.esmes e (str_eq_distinct esme.session_id other (λ p. d (sym p))),
      ap not (any-append_new esme.ptr s.esmes e ((==_iff esme.ptr esme.ptr).1 refl)),
    )

-- A PDU is never refused when the settings say to pace.
pub admit_inbound-pace :
    (s s' : State) (id : String) (clock : List ℕ)
    → s.inbound_throttle_action ≡ pace
    → admit_inbound s id clock ≢ some (refused, s')
unfolding admit_inbound
admit_inbound-pace s s' id clock p h = ground arith

-- When the settings say to reject, a PDU of a session that has a limiter is refused exactly when the
-- limiter has no token for it.
pub admit_inbound-reject :
    (s : State) (id : String) (b : Bucket) (now : ℕ) (later : List ℕ)
    → session_throttle s id ≡ some b
    → s.inbound_throttle_action ≡ reject
    → ((s' : State) × (admit_inbound s id (now ∷ later) ≡ some (refused, s')))
      ↔ ((try_acquire now b).1 ≡ false)
unfolding admit_inbound
admit_inbound-reject s id b now later t r = (
  λ h. let (s', g) = h in ground arith,
  λ h. (record_metric (throttled inbound) (with_throttle id (try_acquire now b).0 s), ground arith),
)
