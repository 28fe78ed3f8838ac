-- ===== src/Lens.antt =====
-- lens.py: the orchestrator. Its state is that of the components it owns and its own tables; each
-- method takes the state and returns it changed, in the order of the calls of the source. The clock
-- is read at `ticks_read` and a random token taken at `tokens_read`, both counted up with every
-- component that may read them. What is sent to Prometheus and to OpenTelemetry is kept as a list.
pub mod Inspect
pub mod Scan
pub mod Decide
pub mod Outcome
pub mod Emit
pub mod Refusal
pub mod Verdict
pub mod Secrecy
pub mod Server
pub mod Logged
pub mod Safe
pub mod Probe
pub mod Nodes
pub mod NodeVerdict
pub mod Quiet
use langgraph_lens.Prelude.{
  ℕ, ◌+◌, ◌-◌, String, ◌<>◌, Bool, true, false, not, ◌&&◌, ◌||◌, Option, none, some, List, [], ◌∷◌,
  ◌++◌, drop, length, if◌then◌else◌, string_eq, pair_eq, option_eq, ◌==◌,
}
use langgraph_lens.Prelude.Dict.{Dict, get, put}
use langgraph_lens.Runtime.{Runtime}
use langgraph_lens.Value.{Value, text, Fields}
use langgraph_lens.Event.{Detection, Event, EventKind, Output, write_event, attack_surface_scan}
use langgraph_lens.Alerts
use langgraph_lens.Alerts.{Hook, AlertSender, AlertsConfig, calm, maybe_send}
use langgraph_lens.Metrics.{Sample, Exporter, record_all, maybe_start_server}
use langgraph_lens.Tracing
use langgraph_lens.Tracing.{OtelConfig, OtelBridge, export}
use langgraph_lens.Tool.{ToolConfig, ToolDetector}
use langgraph_lens.Comms.{CommsConfig, CommsDetector, Edges}
use langgraph_lens.Breaker
use langgraph_lens.Breaker.{Breaker, CircuitBreakerConfig}
use langgraph_lens.RateLimiter.{Limiter, RateLimitConfig}
use langgraph_lens.Detector.AttackSurface.{AttackSurfaceConfig}
use langgraph_lens.Detector.Checkpoint.{CheckpointConfig}
use langgraph_lens.Detector.Memory.{MemoryConfig}
use langgraph_lens.Detector.SqlInjection.{SqlInjectionConfig}
use langgraph_lens.Detector.GoalHijack.{GoalHijackConfig}
use langgraph_lens.Detector.Pii.{PiiConfig}
use langgraph_lens.Detector.SupplyChain.{SupplyChainConfig}
use langgraph_lens.Intervention.ToolAllowlist.{ToolAllowlistConfig}
use langgraph_lens.Intervention.CheckpointProtector.{CheckpointProtectorConfig}
use langgraph_lens.Intervention.GoalGuard.{GoalGuardConfig}
use langgraph_lens.Intervention.PiiRedactor.{PiiRedactionConfig}
use langgraph_lens.Intervention.Audit.{AuditSignalingConfig}

-- `LoggingConfig` of config.py; its `format` is not read.
pub record LoggingConfig : Type 0 where
  pub enabled : Bool
  pub destination : String
  pub file_path : String
  pub include_match_text : Bool

-- `Tier2Config` of config.py
pub record Tier2Config : Type 0 where
  pub pii_redaction : PiiRedactionConfig
  pub tool_allowlist : ToolAllowlistConfig
  pub checkpoint_protector : CheckpointProtectorConfig
  pub goal_guard : GoalGuardConfig
  pub rate_limit : RateLimitConfig
  pub circuit_breaker : CircuitBreakerConfig
  pub audit_signaling : AuditSignalingConfig

-- `PrometheusConfig` of config.py
pub record PrometheusConfig : Type 0 where
  pub enabled : Bool
  pub port : ℕ
  pub bind_address : String

-- `LensConfig` of config.py
pub record LensConfig : Type 0 where
  pub attack_surface : AttackSurfaceConfig
  pub checkpoint : CheckpointConfig
  pub supply_chain : SupplyChainConfig
  pub tool : ToolConfig
  pub memory : MemoryConfig
  pub pii : PiiConfig
  pub goal_hijack : GoalHijackConfig
  pub comms : CommsConfig
  pub sql_injection : SqlInjectionConfig
  pub prometheus : PrometheusConfig
  pub logging : LoggingConfig
  pub alerts : AlertsConfig
  pub otel : OtelConfig
  pub tier2 : Tier2Config

pub record Lens : Type 0 where
  pub config : LensConfig
  pub tool : ToolDetector
  pub comms : CommsDetector
  pub alerts : AlertSender
  pub otel : OtelBridge
  pub rate_limiter : Limiter
  pub circuit_breaker : Breaker
  pub correlation_pairs : Dict (Option String × Option String) String
  pub thread_events : Dict String (List Event)
  pub thread_user_intent : Dict String String
  pub thread_initial_state_size : Dict String ℕ
  pub declared_edges : Option Edges
  pub attack_surface_scanned : Bool
  pub output : Output
  pub samples : List Sample
  pub ticks_read : ℕ
  pub tokens_read : ℕ

-- The object that `Lens(config)` makes
abbrev pub init : Runtime → LensConfig → Lens
init rt config = record {
  config = config;
  tool = record { config = config.tool; enum_windows = [] };
  comms = record { config = config.comms; last_node = [] };
  alerts = Alerts.init config.alerts;
  otel = Tracing.init rt.otel_installed config.otel;
  rate_limiter = record { config = config.tier2.rate_limit; buckets = [] };
  circuit_breaker = Breaker.init config.tier2.circuit_breaker;
  correlation_pairs = [];
  thread_events = [];
  thread_user_intent = [];
  thread_initial_state_size = [];
  declared_edges = none;
  attack_surface_scanned = false;
  output = record { file = []; stderr = [] };
  samples = [];
  ticks_read = 0;
  tokens_read = 0;
}

-- `Lens(config)`, with the metrics server that it may start
unfoldable pub construct : Runtime → LensConfig → Exporter → Lens × Exporter
construct rt config x =
    let c = config.prometheus in
    (init rt config, if c.enabled then maybe_start_server rt c.port c.bind_address x else x)

-- `attach_graph`, on the edges that were read from the graph: none leave the old ones.
unfoldable pub attach_graph : Edges → Lens → Lens
attach_graph [] l = l
attach_graph (e ∷ edges) l = record l { declared_edges = some (e ∷ edges) }

-- `_MAX_EVENTS_PER_THREAD`
abbrev pub max_events_per_thread : ℕ
max_events_per_thread = 256

-- `append` to a deque with that `maxlen`
unfoldable pub append_event : Event → List Event → List Event
append_event e es = let all = es ++ e ∷ [] in drop (length all - max_events_per_thread) all

abbrev pub events_of : Option (List Event) → List Event
events_of none = []
events_of (some es) = es

-- `events_for_thread`
unfoldable pub events_for_thread : String → Lens → List Event
events_for_thread thread l = events_of (get thread l.thread_events)

-- The name, if it is there and not empty.
unfoldable pub named : Option String → Option String
named none = none
named (some s) = if s == "" then none else some s

-- The events of a thread with one more.
unfoldable pub buffer_event :
    Option String → Event → Dict String (List Event) → Dict String (List Event)
buffer_event thread_id e d = elim (named thread_id) [
  | none ↦ d
  | some t ↦ put t (append_event e (events_of (get t d))) d
]

-- `if event.detections: self.alerts.maybe_send(event)`
unfoldable pub alerted : Hook → ℕ → Event → List Detection → AlertSender → AlertSender
alerted hook now e [] a = calm a
alerted hook now e (d ∷ ds) a = maybe_send hook now e a

-- `_emit`; on an exception of `maybe_send` nothing is exported. The exception is not followed into the
-- caller, but `alerts.raised` says from then on that there was one.
unfoldable pub emit : Runtime → Event → Lens → Lens
emit rt e l =
    let c = l.config.logging in
    let written =
      write_event rt.opens c.destination (some c.file_path) c.include_match_text e l.output in
    let a = alerted rt.post_raises (rt.clock l.ticks_read) e e.detections l.alerts in
    record l {
      output = if c.enabled then written else l.output;
      thread_events = buffer_event e.thread_id e l.thread_events;
      samples = l.samples ++ record_all rt e.detections;
      alerts = record a { raised = l.alerts.raised || a.raised };
      otel = if l.config.otel.enabled && not a.raised then export e l.otel else l.otel;
      ticks_read = l.ticks_read + 1;
    }

-- `_correlation_for`
unfoldable pub correlation_for : Runtime → Option String → Option String → Lens → String × Lens
correlation_for rt run_id thread_id l = elim (get (run_id, thread_id) l.correlation_pairs) [
  | some cid ↦ (cid, l)
  | none ↦
      let cid = rt.token_hex l.tokens_read in
      (
        cid,
        record l {
          correlation_pairs = put (run_id, thread_id) cid l.correlation_pairs;
          tokens_read = l.tokens_read + 1;
        },
      )
]

-- An event with the next reading of the clock.
abbrev pub new_event :
    Runtime → EventKind → String → Option String → Option String → List Detection → Lens → Event
new_event rt kind cid run_id thread_id ds l = record {
  event = kind;
  correlation_id = cid;
  detections = ds;
  run_id = run_id;
  thread_id = thread_id;
  node = none;
  checkpoint_id = none;
  state_hash = none;
  timestamp = rt.clock l.ticks_read;
}

abbrev pub tick : Lens → Lens
tick l = record l { ticks_read = l.ticks_read + 1 }

-- Samples of the orchestrator's own.
abbrev pub measure : List Sample → Lens → Lens
measure ss l = record l { samples = l.samples ++ ss }
