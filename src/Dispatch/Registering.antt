-- ===== src/Dispatch/Registering.antt =====
-- What the decorators of a script give the dispatcher: python/smpp.py and `ScriptHandle::handlers` of
-- src/dispatch.rs.
use siphon_smpp.Common.{
  String, Bool, Option, none, some, List, [], ◌∷◌, ◌++◌, ◌≡◌, refl, sym, ap, ◌∙◌, map, str_eq,
  eq_iff, if◌then◌else◌, subst, unwrap_or, Result, ok, err, ◌>>=◌, and_then_steps, arith,
}
use mathlib.Core.List.{append_assoc, append-nil}
use siphon_smpp.Dispatch.{Registration, handlers, pdu_kind, bind_kind, session_kind}
use siphon_smpp.Dispatch.Decorators.{
  Function, PyKey, no_key, text_key, other_key, Entry, key_entry, handler_entry, Options,
  handler_option, get_item, set_item, ScriptRegistry, PyError, handler, new, key_of, registered,
  Statement, decorate_bind, decorate_pdu, decorate_session, direct, register, on_bind, on_pdu,
  on_session, run, load, filter_map, source_handlers, cast, from_registrations, fixed_handlers,
}

abbrev pub text_of : PyKey → Option String
text_of no_key = none
text_of (text_key k) = some k
text_of other_key = none

get_item-set_item :
    (options : Options) (k : String) (e : Entry) → get_item (set_item options k e) k ≡ some e
unfolding get_item set_item
get_item-set_item [] k e = rw ((eq_iff k k).1 refl) refl
get_item-set_item ((j, f) ∷ options) k e = ground (arith, get_item-set_item options k e)

filter_map_append :
    {A B : Type 0} (f : A → Option B) (xs ys : List A)
    → filter_map f (xs ++ ys) ≡ filter_map f xs ++ filter_map f ys
unfolding filter_map
filter_map_append f [] ys = refl
filter_map_append f (x ∷ xs) ys = ground (arith, filter_map_append f xs ys)

module _ (iscoroutinefunction : Function → Bool) where
  -- The entry of the registry that a statement makes, as the dispatcher reads it.
  abbrev pub registration_of : Statement → Registration
  registration_of (decorate_bind f) = record {
    kind = bind_kind;
    handler = some (handler f (iscoroutinefunction f) none);
  }
  registration_of (decorate_pdu command f) = record {
    kind = pdu_kind;
    handler = some (handler f (iscoroutinefunction f) (text_of command));
  }
  registration_of (decorate_session event f) = record {
    kind = session_kind;
    handler = some (handler f (iscoroutinefunction f) (text_of event));
  }
  registration_of (direct kind filter f is_async options) = record {
    kind = kind;
    handler = registered (some options);
  }

  module _ (registry : ScriptRegistry) (kind : String) where
    one_entry :
        (k : String) (options : Options)
        → filter_map (λ o. registered (some o)) (if str_eq k kind then options ∷ [] else [])
          ≡ handlers (record { kind = k; handler = registered (some options) } ∷ []) kind
    unfolding filter_map handlers
    one_entry k options = ground arith

    source_handlers-register :
        (k : String) (filter : PyKey) (f : Function) (is_async : Bool) (options : Options)
        (entries : registry.Entries)
        → source_handlers registry (registry.register k filter f is_async options entries) kind
          ≡ source_handlers registry entries kind
            ++ handlers (record { kind = k; handler = registered (some options) } ∷ []) kind
    unfolding source_handlers
    source_handlers-register k filter f is_async options entries =
        ap (filter_map (λ o. registered (some o)))
          (registry.handlers_for-register k kind filter f is_async options entries)
        ∙ filter_map_append (λ o. registered (some o)) (registry.handlers_for entries kind) _
        ∙ ap (◌++◌ (source_handlers registry entries kind)) (one_entry k options)

    -- What a registration that does not raise adds to the handlers of a kind.
    abbrev Adds : registry.Entries → registry.Entries → Registration → Type 0
    Adds entries entries' r =
        source_handlers registry entries' kind
        ≡ source_handlers registry entries kind ++ handlers (r ∷ []) kind

    keyed_register :
        (k : String) (filter : PyKey) (f : Function) (key : Option String) (options : Options)
        (entries : registry.Entries)
        → Adds entries
            (registry.register k filter f
              (iscoroutinefunction f)
              (set_item options handler_option
                (handler_entry (handler f (iscoroutinefunction f) key)))
              entries)
            (record { kind = k; handler = some (handler f (iscoroutinefunction f) key) })
    unfolding registered
    keyed_register k filter f key options entries =
        let h : Entry = handler_entry (handler f (iscoroutinefunction f) key) in
        source_handlers-register k filter f (iscoroutinefunction f)
          (set_item options handler_option h) entries
        ∙ ap
            (λ o.
              source_handlers registry entries kind
              ++ handlers (record { kind = k; handler = cast o } ∷ []) kind)
            (get_item-set_item options handler_option h)

    ok_eq {ℓ} : {A : Type ℓ} {a b : A} → ◌≡◌ {A = Result PyError A} (ok a) (ok b) → a ≡ b
    ok_eq h = cc

    register-Adds :
        (k : String) (filter : PyKey) (f : Function) (key : PyKey) (options : Option Options)
        (entries entries' : registry.Entries)
        → register registry iscoroutinefunction k filter f key options entries ≡ ok entries'
        → Adds entries entries'
            (record { kind = k; handler = some (handler f (iscoroutinefunction f) (text_of key)) })
    unfolding register new key_of
    register-Adds k filter f no_key options entries entries' e =
        subst
          (λ x.
            Adds entries x
              (record { kind = k; handler = some (handler f (iscoroutinefunction f) none) }))
          (ok_eq e) (keyed_register k filter f none (unwrap_or options []) entries)
    register-Adds k filter f (text_key t) options entries entries' e =
        subst
          (λ x.
            Adds entries x
              (record { kind = k; handler = some (handler f (iscoroutinefunction f) (some t)) }))
          (ok_eq e) (keyed_register k filter f (some t) (unwrap_or options []) entries)
    register-Adds k filter f other_key options entries entries' e = cc e

    registered_first :
        (r : Result PyError registry.Entries) (g f : Function) (entries' : registry.Entries)
        → ◌>>=◌ {U = Function × registry.Entries} r (λ entries. ok (g, entries)) ≡ ok (f, entries')
        → r ≡ ok entries'
    registered_first (err m) g f entries' e = cc e
    registered_first (ok entries) g f entries' e = cc e

    run-Adds :
        (statement : Statement) (entries entries' : registry.Entries) (f : Function)
        → run registry iscoroutinefunction statement entries ≡ ok (f, entries')
        → Adds entries entries' (registration_of statement)
    unfolding run on_bind on_pdu on_session
    run-Adds (decorate_bind g) entries entries' f e =
        register-Adds bind_kind no_key g no_key none entries entries'
          (registered_first _ g f entries' e)
    run-Adds (decorate_pdu command g) entries entries' f e =
        register-Adds pdu_kind no_key g command (some (("command", key_entry command) ∷ [])) entries
          entries' (registered_first _ g f entries' e)
    run-Adds (decorate_session event g) entries entries' f e =
        register-Adds session_kind event g event (some (("event", key_entry event) ∷ [])) entries
          entries' (registered_first _ g f entries' e)
    run-Adds (direct k filter g is_async options) entries entries' f e =
        subst (λ x. Adds entries x (registration_of (direct k filter g is_async options)))
          (ap (λ (p : Function × registry.Entries). p.1) (ok_eq e))
          (source_handlers-register k filter g is_async options entries)

    handlers_cons :
        (r : Registration) (rs : List Registration)
        → handlers (r ∷ rs) kind ≡ handlers (r ∷ []) kind ++ handlers rs kind
    unfolding handlers
    handlers_cons r rs = ground arith

    load-handlers_from :
        (script : List Statement) (entries entries' : registry.Entries)
        → load registry iscoroutinefunction script entries ≡ ok entries'
        → source_handlers registry entries' kind
          ≡ source_handlers registry entries kind ++ handlers (map registration_of script) kind
    unfolding load handlers
    load-handlers_from [] entries entries' e =
        ap (λ x. source_handlers registry x kind) (sym (ok_eq e))
        ∙ sym (append-nil (source_handlers registry entries kind))
    load-handlers_from (statement ∷ script) entries entries' e =
        let ((f, next), first, rest) =
          and_then_steps (run registry iscoroutinefunction statement entries) _ e in
        load-handlers_from script next entries' rest
        ∙ ap (λ hs. hs ++ handlers (map registration_of script) kind)
            (run-Adds statement entries next f first)
        ∙ append_assoc (source_handlers registry entries kind)
            (handlers (registration_of statement ∷ []) kind)
            (handlers (map registration_of script) kind)
        ∙ ap (◌++◌ (source_handlers registry entries kind))
            (sym (handlers_cons (registration_of statement) (map registration_of script)))

    -- A script that loads into the empty registry gives the dispatcher, for each kind, the handlers of
    -- its statements in their order.
    pub load-handlers :
        (script : List Statement) (entries : registry.Entries)
        → load registry iscoroutinefunction script registry.empty ≡ ok entries
        → source_handlers registry entries kind ≡ handlers (map registration_of script) kind
    unfolding source_handlers filter_map
    load-handlers script entries e =
        load-handlers_from script registry.empty entries e
        ∙ ap
            (λ options.
              filter_map (λ o. registered (some o)) options
              ++ handlers (map registration_of script) kind)
            (registry.handlers_for-empty kind)

-- The fixed set of handlers that the benchmarks use has the handlers that a registry with the same entries
-- gives.
from_registrations-handlers :
    (items : List (String × Option Options)) (kind : String)
    → fixed_handlers (from_registrations items) kind
      ≡ handlers
          (map (λ (k, options). record { kind = k; handler = registered options }) items)
          kind
unfolding fixed_handlers from_registrations handlers
from_registrations-handlers [] kind = refl
from_registrations-handlers ((k, options) ∷ items) kind =
    ground (arith, from_registrations-handlers items kind)
