-- ===== src/Lib.antt =====
-- langgraph-lens: detectors and interventions around the nodes, tool calls, checkpoints and memory
-- writes of a LangGraph graph. A detector reads a state, a call or a blob and returns detections; an
-- intervention turns them, or its own state, into a decision; the orchestrator `Lens` asks the
-- interventions in a fixed order, merges their decisions, inspects the call, and writes the event to
-- the log, to the buffer of its thread and to the alerts.
--
-- Files and the code they model, with paths from the repository's root:
--   Value, Json, Message   states and messages: `json.dumps`, and the helpers at the end of
--                          src/langgraph_lens/lens.py (`_stringify_state`, `_extract_user_intent`)
--   Time, Runtime          clock, random tokens, digests, Unicode tables, environment: parameters
--   Text, Regex            Python's text operations; `re` with backtracking on a syntax tree, and
--                          in Regex/Accepts what an expression accepts, without backtracking
--   Event, Decision        events.py (`Event`, `write_event`), interventions/decisions.py (`merge`,
--                          `with_audit_headers`)
--   Window, Breaker        interventions/circuit_breaker.py: the deques, `evaluate_request`,
--                          `record_response`, `record_attack_signal`
--   RateLimiter            interventions/rate_limiter.py: `evaluate` as refill and charge of a bucket
--   Args, Tool             detectors/tool.py, with the call window of each thread
--   Comms                  detectors/comms.py, with the last node of each thread
--   Metrics, Tracing       metrics.py: the counters of a detection, as a list of samples, and the
--                          start of the server; otel.py: the spans of the emitted events
--   Topology               integrations/topology.py: `extract_topology`, `_dedupe`; in
--                          Topology/Compiled the graph objects that it is meant for
--   Detector/*             detectors/memory.py, sql_injection.py, attack_surface.py, checkpoint.py,
--                          goal_hijack.py, pii.py, supply_chain.py: functions without state
--   Intervention/*         interventions/tool_allowlist.py, goal_guard.py, checkpoint_protector.py,
--                          pii_redactor.py, audit.py
--   Alerts                 alerts.py: the cooldown of each detector, the posts, and the exception of a
--                          post that ends the loop
--   Lens, Lens/*           lens.py: the record of all tables; Lens/Inspect the methods `inspect_*`,
--                          Lens/Scan `scan_*`, Lens/Decide the methods `decide_*`, with their end
--                          in Lens/Outcome (a method's keywords are a record, such as `ToolCall`);
--                          Lens/Safe goes through all methods, Lens/Safe/History in any order,
--                          and Lens/Logged through all of them and all detectors, for the shape
--                          of the log that Event/Schema describes
--   Config                 config.py: the defaults, and where a configuration comes from
--   Middleware, Middleware/*
--                          middleware.py: the hooks of `LensCallback` and `wrap_node`
--   Integrations, Integrations/*
--                          integrations/checkpoint.py, store.py: Integrations/Saver the wrapped
--                          methods of a saver, Store those of a store, Classes the walk over the
--                          classes, Installed single instances, Global the global installation
--   Cli                    cli.py: the commands and their exit codes
--   Test/*                 the definitions and theorems at small inputs
-- Each record of configuration stands beside the component that reads it (config.py). Files under a
-- component's folder prove its laws and are named for them.
--
-- State and errors. A method takes the state and returns it changed, in the order of the source's
-- calls; an exception is a result `none`. `decide_node` may end with two: that of `copy.deepcopy` in
-- the redactor, for which `Runtime.copies` says which states can be copied, and that of a mark in a
-- state whose `__lens__` is no dictionary. A post of an alert may raise what alerts.py does not
-- drop, for which `Runtime.post_raises` stands: it ends the loop over the detectors and the rest of
-- `_emit`. `alerts.raised` says from then on that there was one. `on_tool_start` follows the first into
-- `_safe` and `_safe_or_raise`; the other methods go on in the model, which is the program's there
-- only as long as `alerts.raised` is false. Each reading of the clock is an argument of a
-- component's operation, and the orchestrator reads the next entry of an arbitrary sequence, so that
-- nothing holds only because the clock moves on. An event that was emitted and later extended by
-- `decide_node` and its siblings is extended in the buffer too, which holds the same object.
--
-- Numbers. Times are whole microseconds, configured floats exact fractions; the limiter's
-- token numbers are whole billionths of a token, and a balance counts billionths of a token times
-- microseconds, so that every refill is a whole number. Rounding of floats is not modelled. The
-- repetition in a regular expression makes at most as many rounds as the text has characters left,
-- which is enough since a round without progress is cut off as in Python; the decimal printing of a
-- number recurses on the number itself.
--
-- The walk over the classes below a saver's base runs on fuel: one more than the number of subclass
-- entries of all classes, which is enough since every entry goes onto the stack at most once.
--
-- What is third-party is a parameter: the node function, the saver and the store are any functions on
-- a world that they may change; Python's table of classes, the configuration file, the file system and
-- the answer of the metrics server are arguments. An asynchronous method of a saver is a function that
-- may change the lenses too, since other tasks run while it is awaited.
--
-- Not modelled: loading and validation of a configuration (pydantic), how metrics are served
-- (prometheus_client) and spans sent (OpenTelemetry), what LangChain does with a registered handler,
-- the parser of the command line's arguments, two lenses that are one object in a saver and
-- globally, the text of bytes or negative numbers inside a state, lower case that depends on the
-- neighbours of a character (the final sigma), and characters such as a superscript two, which
-- `isdigit` takes and `int` refuses, in a custom card pattern. The benchmarks, tests and examples
-- are no part of the running library.
pub mod Prelude
pub mod Value
pub mod Time
pub mod Runtime
pub mod Json
pub mod Text
pub mod Decision
pub mod Event
pub mod Window
pub mod Breaker
pub mod Regex
pub mod Args
pub mod RateLimiter
pub mod Tool
pub mod Test
pub mod Message
pub mod Comms
pub mod Metrics
pub mod Topology
pub mod Alerts
pub mod Tracing
pub mod Detector
pub mod Intervention
pub mod Lens
pub mod Config
pub mod Middleware
pub mod Cli
pub mod Integrations
