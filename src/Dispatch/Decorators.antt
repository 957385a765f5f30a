-- ===== src/Dispatch/Decorators.antt =====
-- From the decorators of a script to the handlers that are dispatched into: python/smpp.py, and `registered`,
-- `ScriptHandle::handlers` and `bench_support` of src/dispatch.rs. siphon's registry is a parameter, an
-- `ScriptRegistry`, and so is what asyncio takes for a coroutine function.
use siphon_smpp.Common.{
  ℕ, String, Bool, Option, none, some, List, [], ◌∷◌, ◌++◌, ◌≡◌, str_eq, if◌then◌else◌, unwrap_or,
  Result, ok, err, ◌>>=◌,
}
use siphon_smpp.Dispatch.{Value, Args, RegisteredHandler, pdu_kind, bind_kind, session_kind}

-- A function of a script, by its identity and what a call of it gives.
pub record Function : Type 0 where
  pub id : ℕ
  pub callable : Args → Result String Value

-- What a script gives as the command or the event of a decorator.
pub data PyKey : Type 0 where
  no_key : PyKey
  text_key : String → PyKey
  other_key : PyKey

pub data Entry : Type 0 where
  key_entry : PyKey → Entry
  handler_entry : RegisteredHandler → Entry
  other_entry : Entry

-- A dict of options, in its order.
abbrev pub Options : Type 0
Options = List (String × Entry)

abbrev pub handler_option : String
handler_option = "_handler"

-- `dict.get` and `dict.__setitem__`.
unfoldable pub get_item : Options → String → Option Entry
get_item [] k = none
get_item ((j, e) ∷ options) k = if str_eq j k then some e else get_item options k

unfoldable pub set_item : Options → String → Entry → Options
set_item [] k e = (k, e) ∷ []
set_item ((j, f) ∷ options) k e =
    let rest = set_item options k e in if str_eq j k then (j, e) ∷ options else (j, f) ∷ rest

-- siphon's registry: it keeps what is registered, and gives what was registered under a kind in the order
-- of registration.
pub record ScriptRegistry : Type 1 where
  pub Entries : Type 0
  pub empty : Entries
  pub register : String → PyKey → Function → Bool → Options → Entries → Entries
  pub handlers_for : Entries → String → List Options
  pub handlers_for-empty : (kind : String) → handlers_for empty kind ≡ []
  pub handlers_for-register :
      (k kind : String) (filter : PyKey) (f : Function) (is_async : Bool) (options : Options)
      (entries : Entries)
      → handlers_for (register k filter f is_async options entries) kind
        ≡ handlers_for entries kind ++ (if str_eq k kind then options ∷ [] else [])

-- What Python raises when a key is neither a `str` nor `None`.
pub data PyError : Type 0 where
  type_error : PyError

unfoldable pub key_of : PyKey → Result PyError (Option String)
key_of no_key = ok none
key_of (text_key k) = ok (some k)
key_of other_key = err type_error

abbrev pub handler : Function → Bool → Option String → RegisteredHandler
handler f is_async key = record { id = f.id; callable = f.callable; is_async = is_async; key = key }

unfoldable pub new : Function → Bool → PyKey → Result PyError RegisteredHandler
unfolding key_of
new f is_async key = key_of key >>= λ key. ok (handler f is_async key)

abbrev pub cast : Option Entry → Option RegisteredHandler
cast none = none
cast (some (key_entry k)) = none
cast (some (handler_entry h)) = some h
cast (some other_entry) = none

unfoldable pub registered : Option Options → Option RegisteredHandler
unfolding get_item
registered none = none
registered (some options) = cast (get_item options handler_option)

-- A statement of a script that registers a function: with a decorator, or with the registry itself.
pub data Statement : Type 0 where
  decorate_bind : Function → Statement
  decorate_pdu : (command : PyKey) → Function → Statement
  decorate_session : (event : PyKey) → Function → Statement
  direct : String → PyKey → Function → Bool → Options → Statement

module _ (registry : ScriptRegistry) (iscoroutinefunction : Function → Bool) where
  unfoldable pub register :
      String
      → PyKey
      → Function
      → PyKey
      → Option Options
      → registry.Entries
      → Result PyError registry.Entries
  unfolding new set_item
  register kind filter f key options entries =
      let is_async = iscoroutinefunction f in
      new f is_async key >>= λ h. ok (
        registry.register kind filter f is_async
          (set_item (unwrap_or options []) handler_option (handler_entry h)) entries)

  unfoldable pub on_bind :
      Function → registry.Entries → Result PyError (Function × registry.Entries)
  unfolding register
  on_bind f entries = register bind_kind no_key f no_key none entries >>= λ entries. ok (f, entries)

  unfoldable pub on_pdu :
      PyKey → Function → registry.Entries → Result PyError (Function × registry.Entries)
  unfolding register
  on_pdu command f entries =
      register pdu_kind no_key f command (some (("command", key_entry command) ∷ [])) entries
      >>= λ entries. ok (f, entries)

  unfoldable pub on_session :
      PyKey → Function → registry.Entries → Result PyError (Function × registry.Entries)
  unfolding register
  on_session event f entries =
      register session_kind event f event (some (("event", key_entry event) ∷ [])) entries
      >>= λ entries. ok (f, entries)

  unfoldable pub run : Statement → registry.Entries → Result PyError (Function × registry.Entries)
  unfolding on_bind on_pdu on_session
  run (decorate_bind f) entries = on_bind f entries
  run (decorate_pdu command f) entries = on_pdu command f entries
  run (decorate_session event f) entries = on_session event f entries
  run (direct kind filter f is_async options) entries =
      ok (f, registry.register kind filter f is_async options entries)

  -- The statements of a script in order; one that raises ends it.
  unfoldable pub load : List Statement → registry.Entries → Result PyError registry.Entries
  unfolding run
  load [] entries = ok entries
  load (statement ∷ script) entries = run statement entries >>= λ (f, entries). load script entries

unfoldable pub filter_map {ℓ κ} : {A : Type ℓ} {B : Type κ} → (A → Option B) → List A → List B
filter_map f [] = []
filter_map f (x ∷ xs) = let rest = filter_map f xs in elim (f x) [ none ↦ rest | some y ↦ y ∷ rest ]

-- `HandlerSource::handlers` of a `ScriptHandle`.
unfoldable pub source_handlers :
    (registry : ScriptRegistry) → registry.Entries → String → List RegisteredHandler
unfolding registered filter_map
source_handlers registry entries kind =
    filter_map (λ options. registered (some options)) (registry.handlers_for entries kind)

-- The fixed set of handlers of the benchmarks: what the decorators gave, and its handlers of a kind.
unfoldable pub from_registrations :
    List (String × Option Options) → List (String × RegisteredHandler)
unfolding registered
from_registrations [] = []
from_registrations ((kind, options) ∷ items) =
    let rest = from_registrations items in
    elim (registered options) [ none ↦ rest | some h ↦ (kind, h) ∷ rest ]

unfoldable pub fixed_handlers : List (String × RegisteredHandler) → String → List RegisteredHandler
fixed_handlers [] kind = []
fixed_handlers ((k, h) ∷ rows) kind =
    let rest = fixed_handlers rows kind in if str_eq k kind then h ∷ rest else rest
