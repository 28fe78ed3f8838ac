-- ===== src/Metrics.antt =====
-- metrics.py: which counters a detection increments. What is sent to prometheus_client is kept as a
-- list, in the order of the calls; an observed duration is kept without its value.
use langgraph_lens.Prelude.{
  ℕ, String, Bool, true, Option, none, some, List, [], ◌∷◌, ◌++◌, if◌then◌else◌, string_eq, ◌==◌,
}
use langgraph_lens.Prelude.Dict.{Dict, get}
use langgraph_lens.Runtime.{Runtime}
use langgraph_lens.Value.{Value}
use langgraph_lens.Event.{Detection}
use langgraph_lens.Message.{str}

-- `COUNTER.labels(...).inc()`, `GAUGE.set(v)` and `HISTOGRAM.labels(stage).observe(...)`
pub data Sample : Type 0 where
  increment : String → List String → Sample
  set_gauge : String → ℕ → Sample
  observe : String → String → Sample

-- The counters with the one label `rule`, by the detector.
abbrev pub rule_counters : Dict String String
rule_counters =
    ("attack_surface", "langgraph_lens_attack_surface_detections_total")
    ∷ ("checkpoint", "langgraph_lens_checkpoint_detections_total")
    ∷ ("supply_chain", "langgraph_lens_supply_chain_detections_total")
    ∷ ("tool", "langgraph_lens_tool_detections_total")
    ∷ ("memory", "langgraph_lens_memory_detections_total")
    ∷ ("goal_hijack", "langgraph_lens_goal_hijack_detections_total")
    ∷ ("comms", "langgraph_lens_comms_detections_total")
    ∷ ("sql_injection", "langgraph_lens_sql_injection_detections_total")
    ∷ []

-- `det.extra.get(key, default)` as a label
abbrev label : Runtime → Option Value → String → String
label rt none default = default
label rt (some v) default = str rt v

-- `record_detection`: a detector without a counter is passed over.
unfoldable pub record_detection : Runtime → Detection → List Sample
record_detection rt d =
    if d.detector == "pii"
    then increment "langgraph_lens_pii_detections_total"
        (label rt (get "type" d.extra) d.rule ∷ label rt (get "direction" d.extra) "unknown" ∷ [])
      ∷ []
    else elim (get d.detector rule_counters) [
      | none ↦ []
      | some counter ↦ increment counter (d.rule ∷ []) ∷ []
    ]

-- The metrics server of the process: `_server_started`, and the ports and addresses on which
-- `start_http_server` was asked to listen, the last one first.
pub record Exporter : Type 0 where
  pub started : Bool
  pub binds : List (ℕ × String)

-- `maybe_start_server`: an `OSError` of the library is dropped, and the server counts as started.
unfoldable pub maybe_start_server : Runtime → ℕ → String → Exporter → Exporter
maybe_start_server rt port bind_address x =
    if x.started
    then x
    else if rt.env_set "PROMETHEUS_MULTIPROC_DIR"
    then record x { started = true }
    else record { started = true; binds = (port, bind_address) ∷ x.binds }

unfoldable pub record_all : Runtime → List Detection → List Sample
record_all rt [] = []
record_all rt (d ∷ ds) = record_detection rt d ++ record_all rt ds
