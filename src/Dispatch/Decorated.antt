-- ===== src/Dispatch/Decorated.antt =====
-- Which functions of a script the dispatcher runs: python/smpp.py and `ScriptHandle::handlers` of
-- src/dispatch.rs.
use siphon_smpp.Common.{
  String, Bool, none, some, List, [], ◌∷◌, ◌≡◌, refl, ap, ◌∙◌, map, retain, str_eq, eq_iff,
  if◌then◌else◌, All, ok, ◌>>=◌, Bool-cases, inl, inr,
}
use siphon_smpp.Dispatch.{RegisteredHandler, handlers, key_is, pdu_kind, bind_kind, session_kind}
use siphon_smpp.Dispatch.Decorators.{
  Function, PyKey, no_key, text_key, other_key, ScriptRegistry, handler, new, key_of, Statement,
  decorate_bind, decorate_pdu, decorate_session, direct, register, on_bind, on_pdu, on_session, run,
  load, source_handlers,
}
use siphon_smpp.Dispatch.Registering.{registration_of, load-handlers}

-- The functions of a script that are decorated for binds, for a command, and for an event, in its order.
abbrev pub bind_functions : List Statement → List Function
bind_functions [] = []
bind_functions (decorate_bind f ∷ script) = f ∷ bind_functions script
bind_functions (decorate_pdu command f ∷ script) = bind_functions script
bind_functions (decorate_session event f ∷ script) = bind_functions script
bind_functions (direct kind filter f is_async options ∷ script) = bind_functions script

abbrev pub pdu_functions : String → List Statement → List Function
pdu_functions k [] = []
pdu_functions k (decorate_bind f ∷ script) = pdu_functions k script
pdu_functions k (decorate_pdu no_key f ∷ script) = pdu_functions k script
pdu_functions k (decorate_pdu (text_key command) f ∷ script) =
    if str_eq command k then f ∷ pdu_functions k script else pdu_functions k script
pdu_functions k (decorate_pdu other_key f ∷ script) = pdu_functions k script
pdu_functions k (decorate_session event f ∷ script) = pdu_functions k script
pdu_functions k (direct kind filter f is_async options ∷ script) = pdu_functions k script

abbrev pub session_functions : String → List Statement → List Function
session_functions k [] = []
session_functions k (decorate_bind f ∷ script) = session_functions k script
session_functions k (decorate_pdu command f ∷ script) = session_functions k script
session_functions k (decorate_session no_key f ∷ script) = session_functions k script
session_functions k (decorate_session (text_key event) f ∷ script) =
    if str_eq event k then f ∷ session_functions k script else session_functions k script
session_functions k (decorate_session other_key f ∷ script) = session_functions k script
session_functions k (direct kind filter f is_async options ∷ script) = session_functions k script

-- The statement is a decorator, and it is given a text for a key or nothing.
abbrev pub HasKey : PyKey → Type 0
HasKey no_key = Unit
HasKey (text_key k) = Unit
HasKey other_key = ⊥

abbrev pub IsDecoration : Statement → Type 0
IsDecoration (decorate_bind f) = Unit
IsDecoration (decorate_pdu command f) = HasKey command
IsDecoration (decorate_session event f) = HasKey event
IsDecoration (direct kind filter f is_async options) = ⊥

module _ (co : Function → Bool) where
  pub bind-functions :
      (script : List Statement)
      → All IsDecoration script
      → handlers (map (registration_of co) script) bind_kind
        ≡ map (λ f. handler f (co f) none) (bind_functions script)
  unfolding handlers
  bind-functions [] all = refl
  bind-functions (decorate_bind f ∷ script) all =
      ap (◌∷◌ (handler f (co f) none)) (bind-functions script all.1)
  bind-functions (decorate_pdu command f ∷ script) all = bind-functions script all.1
  bind-functions (decorate_session event f ∷ script) all = bind-functions script all.1
  bind-functions (direct kind filter f is_async options ∷ script) all = absurd all.0

  keyed :
      (k j : String) (f : Function) (hs : List RegisteredHandler) (fs : List Function)
      → retain (λ h. key_is k h.key) hs ≡ map (λ f. handler f (co f) (some k)) fs
      → retain (λ h. key_is k h.key) (handler f (co f) (some j) ∷ hs)
        ≡ map (λ f. handler f (co f) (some k)) (if str_eq j k then f ∷ fs else fs)
  keyed k j f hs fs rest = elim (Bool-cases (str_eq j k)) [
    | inl hit ↦ let same : j ≡ k = (eq_iff j k).0 hit in rw hit (cc)
    | inr miss ↦ rw (miss) rest
  ]

  pdu-functions :
      (k : String) (script : List Statement)
      → All IsDecoration script
      → retain (λ h. key_is k h.key) (handlers (map (registration_of co) script) pdu_kind)
        ≡ map (λ f. handler f (co f) (some k)) (pdu_functions k script)
  unfolding handlers
  pdu-functions k [] all = refl
  pdu-functions k (decorate_bind f ∷ script) all = pdu-functions k script all.1
  pdu-functions k (decorate_pdu no_key f ∷ script) all = pdu-functions k script all.1
  pdu-functions k (decorate_pdu (text_key j) f ∷ script) all =
      keyed k j f (handlers (map (registration_of co) script) pdu_kind) (pdu_functions k script)
        (pdu-functions k script all.1)
  pdu-functions k (decorate_pdu other_key f ∷ script) all = absurd all.0
  pdu-functions k (decorate_session event f ∷ script) all = pdu-functions k script all.1
  pdu-functions k (direct kind filter f is_async options ∷ script) all = absurd all.0

  session-functions :
      (k : String) (script : List Statement)
      → All IsDecoration script
      → retain (λ h. key_is k h.key) (handlers (map (registration_of co) script) session_kind)
        ≡ map (λ f. handler f (co f) (some k)) (session_functions k script)
  unfolding handlers
  session-functions k [] all = refl
  session-functions k (decorate_bind f ∷ script) all = session-functions k script all.1
  session-functions k (decorate_pdu command f ∷ script) all = session-functions k script all.1
  session-functions k (decorate_session no_key f ∷ script) all = session-functions k script all.1
  session-functions k (decorate_session (text_key j) f ∷ script) all =
      keyed k j f (handlers (map (registration_of co) script) session_kind)
        (session_functions k script) (session-functions k script all.1)
  session-functions k (decorate_session other_key f ∷ script) all = absurd all.0
  session-functions k (direct kind filter f is_async options ∷ script) all = absurd all.0

  module _ (registry : ScriptRegistry) where
    run-IsDecoration :
        (statement : Statement) (entries : registry.Entries)
        → IsDecoration statement
        → (f : Function) × (entries' : registry.Entries) × (run registry co statement entries
            ≡ ok (f, entries'))
    unfolding run on_bind on_pdu on_session register new key_of
    run-IsDecoration (decorate_bind f) entries d = (f, _, refl)
    run-IsDecoration (decorate_pdu no_key f) entries d = (f, _, refl)
    run-IsDecoration (decorate_pdu (text_key k) f) entries d = (f, _, refl)
    run-IsDecoration (decorate_pdu other_key f) entries d = absurd d
    run-IsDecoration (decorate_session no_key f) entries d = (f, _, refl)
    run-IsDecoration (decorate_session (text_key k) f) entries d = (f, _, refl)
    run-IsDecoration (decorate_session other_key f) entries d = absurd d
    run-IsDecoration (direct kind filter f is_async options) entries d = absurd d

    load-IsDecoration :
        (script : List Statement) (entries : registry.Entries)
        → All IsDecoration script
        → (entries' : registry.Entries) × (load registry co script entries ≡ ok entries')
    unfolding load
    load-IsDecoration [] entries all = (entries, refl)
    load-IsDecoration (statement ∷ script) entries all =
        let (f, next, first) = run-IsDecoration statement entries all.0 in
        let (entries', rest) = load-IsDecoration script next all.1 in
        (entries', ap (λ r. r >>= λ (f, entries). load registry co script entries) first ∙ rest)

    -- A script that registers with the decorators alone, and gives them texts or nothing, loads; the
    -- dispatcher then finds its `on_bind` functions, its `on_pdu` functions for a command and its
    -- `on_session` functions for an event, each set in the order of the script.
    pub decorated_handlers :
        (k : String) (script : List Statement)
        → All IsDecoration script
        → (entries : registry.Entries) × (load registry co script registry.empty ≡ ok entries)
          × (source_handlers registry entries bind_kind
              ≡ map (λ f. handler f (co f) none) (bind_functions script))
          × (retain (λ h. key_is k h.key) (source_handlers registry entries pdu_kind)
              ≡ map (λ f. handler f (co f) (some k)) (pdu_functions k script))
          × (retain (λ h. key_is k h.key) (source_handlers registry entries session_kind)
              ≡ map (λ f. handler f (co f) (some k)) (session_functions k script))
    decorated_handlers k script all =
        let (entries, loaded) = load-IsDecoration script registry.empty all in
        let found = λ (kind : String). load-handlers co registry kind script entries loaded in
        (
          entries,
          loaded,
          found bind_kind ∙ bind-functions script all,
          ap (retain (λ h. key_is k h.key)) (found pdu_kind) ∙ pdu-functions k script all,
          ap (retain (λ h. key_is k h.key)) (found session_kind) ∙ session-functions k script all,
        )
