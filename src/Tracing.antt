-- ===== src/Tracing.antt =====
-- otel.py: the bridge to OpenTelemetry, whose packages may be missing. A span that was ended is kept
-- with what was set on it, in the order of the calls; how it is sent is the library's.
use langgraph_lens.Prelude.{
  String, ◌<>◌, Bool, Option, none, some, List, [], ◌∷◌, ◌++◌, map, if◌then◌else◌, string_eq, ◌==◌,
}
use langgraph_lens.Event.{Detection, Event, kind_value, severity_value}

-- `OtelConfig` of config.py; the two flags `export_traces` and `export_metrics` are not read.
pub record OtelConfig : Type 0 where
  pub enabled : Bool
  pub endpoint : String
  pub service_name : String

-- The provider behind a tracer: the name of the service, and where its spans go.
pub record Tracer : Type 0 where
  pub service_name : String
  pub endpoint : String

-- `span.add_event(name, attributes=...)`
pub record SpanEvent : Type 0 where
  pub name : String
  pub attributes : List (String × String)

pub record Span : Type 0 where
  pub name : String
  pub attributes : List (String × String)
  pub events : List SpanEvent

-- `spans` are those that were ended, the last one first.
pub record OtelBridge : Type 0 where
  pub config : OtelConfig
  pub tracer : Option Tracer
  pub spans : List Span

-- `OtelBridge(config)` with `_init`; `installed` says whether the imports succeed.
abbrev pub init : Bool → OtelConfig → OtelBridge
init installed c = record {
  config = c;
  tracer =
      if c.enabled
      then if installed
        then some (record { service_name = c.service_name; endpoint = c.endpoint })
        else none
      else none;
  spans = [];
}

-- `if v: span.set_attribute(key, v)`
abbrev pub span_attribute : String → Option String → List (String × String)
span_attribute key none = []
span_attribute key (some v) = if v == "" then [] else (key, v) ∷ []

unfoldable pub span_event : Detection → SpanEvent
span_event d = record {
  name = d.detector <> "." <> d.rule;
  attributes =
      ("detector", d.detector) ∷ ("rule", d.rule) ∷ ("severity", severity_value d.severity) ∷ [];
}

unfoldable pub span_of : Event → Span
span_of e = record {
  name = kind_value e.event;
  attributes =
      ("langgraph.correlation_id", e.correlation_id)
      ∷ (span_attribute "langgraph.run_id" e.run_id
          ++ (span_attribute "langgraph.thread_id" e.thread_id
              ++ span_attribute "langgraph.node" e.node));
  events = map span_event e.detections;
}

-- `export`
unfoldable pub export : Event → OtelBridge → OtelBridge
export e b = elim b.tracer [ none ↦ b | some t ↦ record b { spans = span_of e ∷ b.spans } ]
