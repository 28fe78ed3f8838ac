-- ===== src/Event.antt =====
-- events.py: detections, events and the dictionaries that are written to the log.
pub mod Log
pub mod Schema
use langgraph_lens.Prelude.{
  ℕ, String, Bool, true, false, Option, none, some, List, [], ◌∷◌, map, if◌then◌else◌, string_eq,
  ◌==◌, ◌&&◌, not,
}
use langgraph_lens.Prelude.Dict.{Dict, put, pop}
use langgraph_lens.Value.{Value, text, int}

pub data EventKind : Type 0 where
  node_inspected checkpoint_inspected tool_call_inspected memory_inspected : EventKind
  prompt_scan attack_surface_scan sql_inspected : EventKind

pub data Severity : Type 0 where
  low medium high critical : Severity

-- `severity.value`
abbrev pub severity_value : Severity → String
severity_value low = "low"
severity_value medium = "medium"
severity_value high = "high"
severity_value critical = "critical"

pub record Detection : Type 0 where
  pub detector : String
  pub rule : String
  pub severity : Severity
  pub extra : Dict String Value

-- `{**base, **extra}`
abbrev pub update : Dict String Value → Dict String Value → Dict String Value
update base [] = base
update base ((k, v) ∷ extra) = update (put k v base) extra

-- The entries of `Detection.to_dict` that are not the detection's extras.
abbrev pub base_entries : Detection → Dict String Value
base_entries d =
    ("detector", text d.detector)
    ∷ ("rule", text d.rule)
    ∷ ("severity", text (severity_value d.severity))
    ∷ []

-- `Detection.to_dict`
unfoldable pub detection_to_dict : Bool → Detection → Dict String Value
detection_to_dict include_match_text d =
    update (base_entries d) (if include_match_text then d.extra else pop "match" d.extra)

pub record Event : Type 0 where
  pub event : EventKind
  pub correlation_id : String
  pub detections : List Detection
  pub run_id : Option String
  pub thread_id : Option String
  pub node : Option String
  pub checkpoint_id : Option String
  pub state_hash : Option String
  pub timestamp : ℕ

-- `event.value`
abbrev pub kind_value : EventKind → String
kind_value node_inspected = "node_inspected"
kind_value checkpoint_inspected = "checkpoint_inspected"
kind_value tool_call_inspected = "tool_call_inspected"
kind_value memory_inspected = "memory_inspected"
kind_value prompt_scan = "prompt_scan"
kind_value attack_surface_scan = "attack_surface_scan"
kind_value sql_inspected = "sql_inspected"

-- The dictionary of `Event.to_dict`. Its values are of two kinds: the list of detections, and the
-- plain values.
pub record EventDict : Type 0 where
  pub plain : Dict String Value
  pub detections : List (Dict String Value)

-- `if v is not None: out[k] = v`
abbrev pub put_present : String → Option String → Dict String Value → Dict String Value
put_present k none d = d
put_present k (some v) d = put k (text v) d

-- `Event.to_dict`
unfoldable pub event_to_dict : Bool → Event → EventDict
event_to_dict include_match_text e = record {
  plain = put_present "state_hash" e.state_hash (
      put_present "checkpoint_id" e.checkpoint_id (
        put_present "node" e.node (
          put_present "thread_id" e.thread_id (
            put_present "run_id" e.run_id (
              ("event", text (kind_value e.event))
              ∷ ("correlation_id", text e.correlation_id)
              ∷ ("timestamp", int e.timestamp)
              ∷ [])))));
  detections = map (detection_to_dict include_match_text) e.detections;
}

-- What `write_event` has appended to files and printed to stderr, the last line first.
pub record Output : Type 0 where
  pub file : List (String × EventDict)
  pub stderr : List EventDict

-- The path that `write_event` tries to append to: a file destination with a path that is not empty.
abbrev pub log_file : String → Option String → Option String
log_file destination none = none
log_file destination (some path) =
    if destination == "file" && not (path == "") then some path else none

-- `write_event`; `opens` says whether a path can be appended to.
unfoldable pub write_event :
    (String → Bool) → String → Option String → Bool → Event → Output → Output
write_event opens destination file_path include_match_text e out =
    let line = event_to_dict include_match_text e in
    let printed : Output = record out { stderr = line ∷ out.stderr } in
    elim (log_file destination file_path) [
      | none ↦ printed
      | some path ↦ if opens path then record out { file = (path, line) ∷ out.file } else printed
    ]
