-- ===== src/Lib.antt =====
-- A verification library for siphon-smpp, the SMPP 3.4 transport that siphon scripts drive.
--
-- The program accepts binds of ESMEs (as an SMSC) and holds outbound binds to SMSCs (as an ESME). Each PDU
-- that a peer sends goes to the script handler registered for its command, and the handler's reply becomes
-- the response; scripts send requests of their own through helpers. A token bucket limits each session.
-- Status.antt (src/outcome.rs `status_name`, `TABLE_5_2`, src/pyclasses.rs `parse_smpp_status`): the
--   statuses of SMPP 3.4 Table 5-2, their codes and names; proofs in Status/Names.antt.
-- Outcome.antt (src/outcome.rs): what came back for a request that we sent; Outcome/Classes.antt.
-- RateLimiter.antt (src/runtime.rs `RateLimiter`): RateLimiter/Bounds.antt, RateLimiter/Waits.antt,
--   RateLimiter/Ledger.antt.
-- Tlv.antt (src/tlv.rs): optional parameters; Tlv/Encoding.antt (integers), Tlv/Keys.antt (the dict).
-- Pdu.antt, Pdu/Codec.antt (the codec's PDUs), Pdu/Receipt.antt (delivery receipts, with
--   Pdu/Receipt/Needles.antt, Pdu/Receipt/Sorting.antt, Pdu/Receipt/Slices.antt, Pdu/Receipt/Presence.antt), Reply.antt
--   (src/pyclasses.rs): the objects that scripts see; Reply/Choice.antt.
-- Dispatch.antt (src/dispatch.rs): which handler an event runs and what its result means;
--   Dispatch/Values.antt (handlers and the engine), Dispatch/Awaiting.antt (coroutines),
--   Dispatch/Delivery.antt, Dispatch/Choice.antt, Dispatch/Lifecycle.antt. Dispatch/Decorators.antt
--   (python/smpp.py) is how the decorators of a script fill siphon's registry, and how the dispatcher
--   reads it; its proofs are in Dispatch/Registering.antt and Dispatch/Decorated.antt.
-- Runtime.antt (src/runtime.rs `State`, src/metrics.rs): the shared state, admission and dispatch.
--   Runtime/Server.antt is the listener for ESMEs (its responses in Runtime/Responses.antt),
--   Runtime/Client.antt that of an outbound bind, Runtime/BindClient.antt what a bind gives its client,
--   Runtime/Supervisor.antt the loop that keeps a bind up, Runtime/Startup.antt `spawn`,
--   Runtime/Listening.antt how its server task ends, Runtime/Authorization.antt which binds are accepted.
--   Runtime/Steps.antt has every change of the state as a step, and runs of them. Proofs:
--   Runtime/Answers.antt (the answer to each request), Runtime/Recorded.antt and Runtime/Counts.antt (its
--   metric), Runtime/Deliveries.antt (a delivery), Runtime/Registry.antt (sessions and admission),
--   Runtime/Backoff.antt (the waits of the loop), Runtime/Refusals.antt (its attempts),
--   Runtime/Roster.antt (the registry as a map from session ids), Runtime/Invariant.antt with
--   Runtime/SessionLimits.antt (limiters over a run); what each step changes stands in
--   Runtime/Effects.antt, Runtime/RequestEffects.antt and Runtime/Kept.antt. What goes through over a run
--   is counted (Runtime/Tally.antt) for a session in Runtime/Throughput.antt, by Runtime/Passing.antt and
--   Runtime/Takings.antt, and for a bind in Runtime/BindThroughput.antt, by Runtime/BindTurns.antt.
-- Metrics.antt (src/metrics.rs): the series and the calls of the store.
-- Sends.antt (src/sends.rs), with Sends/Requests.antt (what is sent), Sends/Outbound.antt (on a bind) and
--   Sends/Inbound.antt (to an ESME): the helpers that send; Sends/Keywords.antt (their keywords and
--   defaults); Sends/Calls.antt, Sends/Bodies.antt,
--   Sends/Reports.antt (what a result says) and Sends/Turns.antt (what a call changes).
-- Config.antt (src/config.rs): Config/Types.antt (the settings), Config/Options.antt (values of options),
--   Config/Listen.antt, Config/Expand.antt (`expand_env_vars`), Config/Environment.antt
--   (`binds_from_env`), Config/Load.antt (`from_file`). Config/Texts.antt and Config/Maps.antt are the
--   operations of `str` and `BTreeMap` that it uses. Proofs: Config/Splits.antt, Config/Expansion.antt
--   (expansion), Config/Settings.antt, Config/EnvFields.antt, Config/EnvBinds.antt and
--   Config/EnvErrors.antt (the binds and the errors).
-- Install.antt (src/install.rs `build_config_dict`): the configuration as scripts see it;
--   Install/Readouts.antt (python/smpp.py) what they read of it.
-- Harness.antt (harness/src/main.rs): the load harness; Harness/Ids.antt (the ids of its mock SMSC),
--   Harness/Reports.antt and Harness/Percentiles.antt (what the driver counts and reports).
-- Common.antt: the names that all parts share.
-- Examples.antt: concrete inputs for the theorems.
--
-- How the code is read. A Rust `String` that is only compared is a native string; a text that is looked
-- into is a list of code points, and bytes are a list of numbers. The limiter's tokens are whole billionths
-- of a token, where the source has an f64: its rounding is not modelled, and a wait is rounded to the
-- nearest nanosecond. Durations are nanoseconds in Outcome and RateLimiter, milliseconds in
-- Runtime/Supervisor.antt. A response is the calls of the codec that make it, and so is a request that is
-- sent; `accept` gives a response the status ESME_ROK and `reject` the status that it is given. A limiter shared through an `Arc` is kept in its session's entry and written back there. An
-- operation that waits is given the instants at which it runs again, and gives `none` when they run out;
-- the loop over session handlers has fuel, one more than there are handlers, which each round uses one of;
-- that of `expand_env_vars` has one more than the text has characters, of which each round uses up two.
-- Concurrency is explicit: a request that is awaited reads the registry as it is when it finishes. A
-- wait for a limiter is one step of a run, whose clock gives every instant at which it asks.
--
-- What is outside the repository is a parameter: the codec's reading of a status (`from_command_status`),
-- its tag numbers and lookups (`TlvTable`, `TlvList`), whether it takes a response for a success
-- (`is_success`, with `SuccessLaw`), the decoding of a receipt's bytes (`from_utf8_lossy`),
-- Python, the executor and the asyncio pool (`Engine`), siphon's registry (`ScriptRegistry`) and what
-- asyncio takes for a coroutine function (`iscoroutinefunction`), the parser of the YAML document (`from_yaml`) and
-- the YAML text of an option (`to_yaml`), addresses and their parser, and what `to_lowercase` makes of a
-- text that is not ASCII (`unicode_lowercase`). The environment is the list of its variables, all Unicode;
-- so is every text that Python gives, and the error of a `str` with a lone surrogate is left out.
--
-- Not modelled: the YAML parser and printer (an option value is read from and written to the calls of
-- serde, not to text), the metrics store and its exposition, the namespace and the task glue,
-- Python's own objects (`__repr__`, getters of one parameter), logging, and network I/O.
pub mod Common
pub mod Status
pub mod Outcome
pub mod RateLimiter
pub mod Tlv
pub mod Pdu
pub mod Reply
pub mod Dispatch
pub mod Config
pub mod Install
pub mod Metrics
pub mod Runtime
pub mod Sends
pub mod Harness
pub mod Examples
