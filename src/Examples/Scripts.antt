-- ===== src/Examples/Scripts.antt =====
-- A script with decorators, and a registry that keeps a list: python/smpp.py, src/dispatch.rs.
use siphon_smpp.Common.{
  String, Bool, true, some, none, ℕ, List, [], ◌∷◌, ◌++◌, ◌≡◌, ◌↔◌, All, refl, map, retain, str_eq,
  ok, if◌then◌else◌, arith,
}
use siphon_smpp.Dispatch.{Value, bind_args, none_value, key_is, pdu_kind, bind_kind, session_kind}
use siphon_smpp.Dispatch.Decorators.{
  Function, text_key, no_key, Options, ScriptRegistry, Statement, decorate_bind, decorate_pdu,
  decorate_session, handler, load, source_handlers,
}
use siphon_smpp.Dispatch.Decorated.{
  IsDecoration, bind_functions, pdu_functions, session_functions, decorated_handlers,
}
use siphon_smpp.Dispatch.Delivery.{Delivers}
use siphon_smpp.Runtime.Authorization.{
  loaded, bind_request, Passes, Succeeds, bind_transceiver-authorized,
}
use siphon_smpp.Examples.Fixtures.{engine, state}

abbrev Rows : Type 0
Rows = List (String × Options)

abbrev rows_of : Rows → String → List Options
rows_of [] kind = []
rows_of ((k, options) ∷ rows) kind =
    if str_eq k kind then options ∷ rows_of rows kind else rows_of rows kind

rows_of_append :
    (rows : Rows) (k kind : String) (options : Options)
    → rows_of (rows ++ (k, options) ∷ []) kind
      ≡ rows_of rows kind ++ (if str_eq k kind then options ∷ [] else [])
rows_of_append [] k kind options = refl
rows_of_append ((j, o) ∷ rows) k kind options = ground (arith, rows_of_append rows k kind options)

abbrev registry : ScriptRegistry
registry = record {
  Entries = Rows;
  empty = [];
  register = λ kind filter f is_async options rows. rows ++ (kind, options) ∷ [];
  handlers_for = rows_of;
  handlers_for-empty = λ kind. refl;
  handlers_for-register =
      λ k kind filter f is_async options rows. rows_of_append rows k kind options;
}

abbrev function : ℕ → Function
function id = record { id = id; callable = λ args. ok none_value }

abbrev is_coroutine : Function → Bool
is_coroutine f = true

abbrev decorated : List Statement
decorated =
    decorate_bind (function 1)
    ∷ decorate_pdu (text_key "submit_sm") (function 2)
    ∷ decorate_pdu (text_key "data_sm") (function 2)
    ∷ decorate_session (text_key "bound") (function 3)
    ∷ decorate_pdu (text_key "submit_sm") (function 4)
    ∷ decorate_pdu no_key (function 5)
    ∷ []

decorated-IsDecoration : All IsDecoration decorated
decorated-IsDecoration = (tt, (tt, (tt, (tt, (tt, (tt, tt))))))

decorated_handlers_example :
    (entries : Rows) × (load registry is_coroutine decorated registry.empty ≡ ok entries)
    × (source_handlers registry entries bind_kind
        ≡ map (λ f. handler f (is_coroutine f) none) (bind_functions decorated))
    × (retain (λ h. key_is "submit_sm" h.key) (source_handlers registry entries pdu_kind)
        ≡ map
            (λ f. handler f (is_coroutine f) (some "submit_sm"))
            (pdu_functions "submit_sm" decorated))
    × (retain (λ h. key_is "submit_sm" h.key) (source_handlers registry entries session_kind)
        ≡ map
            (λ f. handler f (is_coroutine f) (some "submit_sm"))
            (session_functions "submit_sm" decorated))
decorated_handlers_example =
    decorated_handlers is_coroutine registry "submit_sm" decorated decorated-IsDecoration

submit_functions : pdu_functions "submit_sm" decorated ≡ function 2 ∷ function 4 ∷ []
submit_functions = refl

bind_transceiver-authorized_example :
    Succeeds (loaded is_coroutine engine decorated) "acme" "secret" "10.0.0.7" state ↔ (
      (f : Function) × (later : List Function) × (v : Value) × (bind_functions decorated
        ≡ f ∷ later)
      × Delivers engine
          (handler f (is_coroutine f) none)
          (bind_args (bind_request "acme" "secret" "10.0.0.7"))
          v
      × Passes v)
bind_transceiver-authorized_example =
    bind_transceiver-authorized is_coroutine engine decorated decorated-IsDecoration "acme" "secret"
      "10.0.0.7" state
