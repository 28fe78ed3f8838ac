-- ===== src/Event/Schema.antt =====
-- events.py: the shape of the dictionaries that are written to the log, one for each event. The
-- detections are those of the detectors whose names are listed here.
pub mod Written
use langgraph_lens.Prelude.{
  String, ◌≡◌, refl, Bool, true, false, ◌&&◌, Option, none, some, List, [], ◌∷◌, ◌++◌, map, arith,
  contains, All, if◌then◌else◌, string_eq, ◌==◌,
}
use langgraph_lens.Prelude.Dict.{Dict, get, put, pop, get-put, get-pop}
use langgraph_lens.Value.{Value, int, float, text}
use langgraph_lens.Event.{
  EventKind, node_inspected, checkpoint_inspected, tool_call_inspected, memory_inspected,
  prompt_scan, attack_surface_scan, sql_inspected, Severity, low, medium, high, critical, Detection,
  Event, EventDict, severity_value, kind_value, base_entries, put_present, detection_to_dict,
  event_to_dict,
}
use langgraph_lens.Event.Log.{get-update_absent}

abbrev pub is_text : Option Value → Bool
is_text (some (text s)) = true
is_text o = false

abbrev pub is_number : Option Value → Bool
is_number (some (int n)) = true
is_number (some (float x)) = true
is_number o = false

-- The entry is missing or a text.
abbrev pub is_text_or_missing : Option Value → Bool
is_text_or_missing none = true
is_text_or_missing o = is_text o

-- The entry is one of some texts.
abbrev pub is_one_of : List String → Option Value → Bool
is_one_of names (some (text s)) = contains names s
is_one_of names o = false

abbrev pub detector_names : List String
detector_names =
    "attack_surface" ∷ "checkpoint" ∷ "comms" ∷ "goal_hijack" ∷ "memory" ∷ "pii" ∷ "sql_injection"
    ∷ "supply_chain" ∷ "tool" ∷ []

abbrev pub severity_names : List String
severity_names = "low" ∷ "medium" ∷ "high" ∷ "critical" ∷ []

abbrev pub kind_names : List String
kind_names =
    "node_inspected" ∷ "checkpoint_inspected" ∷ "tool_call_inspected" ∷ "memory_inspected"
    ∷ "prompt_scan" ∷ "attack_surface_scan" ∷ "sql_inspected" ∷ []

-- The keys that are there in every line, and those that may be.
abbrev pub line_keys : List String
line_keys =
    "event" ∷ "correlation_id" ∷ "timestamp" ∷ "run_id" ∷ "thread_id" ∷ "node" ∷ "checkpoint_id"
    ∷ "state_hash" ∷ []

-- Every key is one of some names.
abbrev pub has_only : List String → Dict String Value → Bool
has_only names [] = true
has_only names ((k, v) ∷ d) = contains names k && has_only names d

-- The dictionary of a detection: a detector, a rule and a severity, whatever else there is.
abbrev pub IsFinding : Dict String Value → Type 0
IsFinding d =
    (is_one_of detector_names (get "detector" d) ≡ true)
    × (is_text (get "rule" d) ≡ true)
    × (is_one_of severity_names (get "severity" d) ≡ true)

-- The plain entries of a line: kind, correlation id and time, five texts that may be missing, and
-- nothing else.
abbrev pub IsHead : Dict String Value → Type 0
IsHead d =
    (is_one_of kind_names (get "event" d) ≡ true)
    × (is_text (get "correlation_id" d) ≡ true)
    × (is_number (get "timestamp" d) ≡ true)
    × (is_text_or_missing (get "run_id" d) ≡ true)
    × (is_text_or_missing (get "thread_id" d) ≡ true)
    × (is_text_or_missing (get "node" d) ≡ true)
    × (is_text_or_missing (get "checkpoint_id" d) ≡ true)
    × (is_text_or_missing (get "state_hash" d) ≡ true)
    × (has_only line_keys d ≡ true)

abbrev pub IsLine : EventDict → Type 0
IsLine line = IsHead line.plain × All IsFinding line.detections

abbrev pub is_missing : Option Value → Bool
is_missing none = true
is_missing (some v) = false

-- The detection has a detector's name, and its extras have no key of its own fields.
abbrev pub is_clean : Detection → Bool
is_clean d =
    contains detector_names d.detector
    && (is_missing (get "detector" d.extra)
        && (is_missing (get "rule" d.extra) && is_missing (get "severity" d.extra)))

-- So are all of the detections.
pub data Clean : List Detection → Type 0 where
  no_more : Clean []
  also : {d : Detection} {ds : List Detection} → is_clean d ≡ true → Clean ds → Clean (d ∷ ds)

pub Clean-append : {xs ys : List Detection} → Clean xs → Clean ys → Clean (xs ++ ys)
Clean-append no_more k = k
Clean-append (also h hs) k = also h (Clean-append hs k)

pub Clean-if :
    (b : Bool) {xs ys : List Detection} → Clean xs → Clean ys → Clean (if b then xs else ys)
Clean-if true h k = h
Clean-if false h k = k

pub Clean-if_fst {ℓ} :
    {A : Type ℓ} (b : Bool) (x y : List Detection × A)
    → Clean x.0
    → Clean y.0
    → Clean (if b then x else y).0
Clean-if_fst true x y h k = h
Clean-if_fst false x y h k = k
