-- ===== src/Tool.antt =====
-- detectors/tool.py: the signals of a tool call. `scan` returns the detections in the order of the
-- source and the detector with the window of the thread brought up to date.
pub mod Patterns
pub mod Enumeration
use langgraph_lens.Prelude.{
  ℕ, String, Bool, true, false, not, ◌&&◌, Option, none, some, List, [], ◌∷◌, ◌++◌, map, ltb, leb,
  length, contains, if◌then◌else◌, string_eq, ◌==◌,
}
use langgraph_lens.Prelude.Dict.{Dict, get, put}
use langgraph_lens.Time.{ticks}
use langgraph_lens.Text.{text_length, sorted_set}
use langgraph_lens.Value.{Value, text, int, list, texts}
use langgraph_lens.Event.{Severity, low, medium, high, Detection}
use langgraph_lens.Runtime.{Runtime}
use langgraph_lens.Args.{Args, stringify_args}
use langgraph_lens.Window.{push}
use langgraph_lens.Regex.{search_any}
use Patterns.{shell_metachar_patterns, ssrf_patterns}

-- `ToolConfig` of config.py
pub record ToolConfig : Type 0 where
  pub enabled : Bool
  pub rules : List String
  pub enumeration_window_seconds : ℕ
  pub enumeration_threshold : ℕ
  pub max_arg_bytes : ℕ

pub record ToolDetector : Type 0 where
  pub config : ToolConfig
  pub enum_windows : Dict String (List (ℕ × String))

-- `"..." in rules`
abbrev pub has_rule : ToolConfig → String → Bool
has_rule c rule = contains c.rules rule

abbrev pub detect : String → Severity → Dict String Value → Detection
detect rule severity extra = record {
  detector = "tool";
  rule = rule;
  severity = severity;
  extra = extra;
}

-- `allowed_tools is not None and tool not in allowed_tools`
abbrev pub is_outside : String → Option (List String) → Bool
is_outside tool none = false
is_outside tool (some allowed) = not (contains allowed tool)

abbrev pub listed : Option (List String) → List String
listed none = []
listed (some allowed) = allowed

unfoldable pub scan_allowlist : ToolConfig → String → Option (List String) → List Detection
scan_allowlist c tool allowed =
    if has_rule c "out_of_allowlist" && is_outside tool allowed
    then detect "out_of_allowlist" high
        (("tool", text tool) ∷ ("allowed", list (texts (sorted_set (listed allowed)))) ∷ [])
      ∷ []
    else []

-- `self._enum_windows[thread_id]`, which makes an empty window for a new thread
abbrev pub window_of : String → Dict String (List (ℕ × String)) → List (ℕ × String)
window_of thread d = elim (get thread d) [ none ↦ [] | some w ↦ w ]

-- `{t for _, t in window}`, in order
unfoldable pub distinct_tools : List (ℕ × String) → List String
distinct_tools w = sorted_set (map (λ (t, tool). tool) w)

unfoldable pub enumeration_signal : ToolConfig → List (ℕ × String) → List Detection
unfolding distinct_tools
enumeration_signal c w =
    if leb c.enumeration_threshold (length (distinct_tools w))
    then detect "enumeration" medium (
        ("distinct_tools", list (texts (distinct_tools w)))
        ∷ ("window_seconds", int c.enumeration_window_seconds)
        ∷ [])
      ∷ []
    else []

-- The thread whose window is kept: the rule is on and the thread has a name.
unfoldable pub tracked : ToolConfig → Option String → Option String
tracked c none = none
tracked c (some thread) =
    if has_rule c "enumeration" && not (thread == "") then some thread else none

unfoldable pub scan_enumeration :
    ℕ → String → Option String → ToolDetector → List Detection × ToolDetector
scan_enumeration now tool thread_id t = elim (tracked t.config thread_id) [
  | none ↦ ([], t)
  | some thread ↦
      let w =
        push (ticks t.config.enumeration_window_seconds) now tool
          (window_of thread t.enum_windows) in
      (enumeration_signal t.config w, record t { enum_windows = put thread w t.enum_windows })
]

unfoldable pub scan_oversized : ToolConfig → String → String → List Detection
scan_oversized c tool arg_text =
    if has_rule c "oversized_args" && ltb c.max_arg_bytes (text_length arg_text)
    then detect "oversized_args" low (
        ("tool", text tool)
        ∷ ("bytes", int (text_length arg_text))
        ∷ ("max_bytes", int c.max_arg_bytes)
        ∷ [])
      ∷ []
    else []

-- The two loops over patterns: the first that matches gives the detection.
abbrev pub matches_of : String → String → Option String → List Detection
matches_of rule tool none = []
matches_of rule tool (some m) = detect rule high (("tool", text tool) ∷ ("match", text m) ∷ []) ∷ []

unfoldable pub scan_shell : Runtime → ToolConfig → String → String → List Detection
unfolding shell_metachar_patterns
scan_shell rt c tool arg_text =
    if has_rule c "shell_metachar"
    then matches_of "shell_metachar" tool (search_any (shell_metachar_patterns rt.unicode) arg_text)
    else []

unfoldable pub scan_ssrf : ToolConfig → String → String → List Detection
unfolding ssrf_patterns
scan_ssrf c tool arg_text =
    if has_rule c "ssrf_pattern"
    then matches_of "ssrf_pattern" tool (search_any ssrf_patterns arg_text)
    else []

-- The detections that need no state, behind the enumeration's.
unfoldable pub scan_text : Runtime → ToolConfig → String → String → List Detection
scan_text rt c tool arg_text =
    scan_oversized c tool arg_text ++ (scan_shell rt c tool arg_text ++ scan_ssrf c tool arg_text)

unfoldable pub scan :
    Runtime
    → ℕ
    → String
    → Args
    → Option (List String)
    → Option String
    → ToolDetector
    → List Detection × ToolDetector
scan rt now tool args allowed_tools thread_id t =
    let (swept, t') = scan_enumeration now tool thread_id t in
    if not t.config.enabled then ([], t) else (
      scan_allowlist t.config tool allowed_tools
          ++ (swept ++ scan_text rt t.config tool (stringify_args rt.float_repr args)),
      t',
    )
