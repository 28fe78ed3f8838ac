-- ===== src/Comms.antt =====
-- detectors/comms.py: the traversal of a graph against its declared edges. `scan` returns the
-- detections and the detector with the last node of the thread.
pub mod Walk
use langgraph_lens.Prelude.{
  ℕ, ◌*◌, String, Bool, false, not, ◌&&◌, ◌||◌, Option, none, some, List, [], ◌∷◌, ◌++◌, leb, ltb,
  contains, if◌then◌else◌, string_eq, ◌==◌,
}
use langgraph_lens.Prelude.Dict.{Dict, get, put}
use langgraph_lens.Time.{Fraction}
use langgraph_lens.Runtime.{Runtime}
use langgraph_lens.Value.{Value, text, int, float, dict, object, Fields, lookup}
use langgraph_lens.Event.{Severity, medium, high, Detection}
use langgraph_lens.Message.{is_truthy, text_of, items_of, state_size}

-- `CommsConfig` of config.py
pub record CommsConfig : Type 0 where
  pub enabled : Bool
  pub rules : List String
  pub state_growth_multiplier : Fraction

pub record CommsDetector : Type 0 where
  pub config : CommsConfig
  pub last_node : Dict String String

-- `list[tuple[str, str]]`
abbrev pub Edges : Type 0
Edges = List (String × String)

abbrev pub detect : String → Severity → List (String × Value) → List Detection
detect rule severity extra =
    record { detector = "comms"; rule = rule; severity = severity; extra = extra } ∷ []

-- `(previous, node) in declared_edges`
unfoldable pub has_edge : String → String → Edges → Bool
has_edge a b [] = false
has_edge a b ((x, y) ∷ edges) = ((x == a) && (y == b)) || has_edge a b edges

-- `any(target == dst for _, dst in declared_edges)`
unfoldable pub is_target : String → Edges → Bool
is_target t [] = false
is_target t ((x, y) ∷ edges) = (t == y) || is_target t edges

unfoldable pub edge_hit : String → Edges → Option String → List Detection
edge_hit node edges none = []
edge_hit node edges (some previous) =
    if has_edge previous node edges
    then []
    else detect "undeclared_edge" high (("from", text previous) ∷ ("to", text node) ∷ [])

-- The rule on edges; only with declared edges and a named thread.
unfoldable pub scan_edge :
    String → Option Edges → Option String → CommsDetector → List Detection × CommsDetector
scan_edge node (some edges) (some thread) t =
    if contains t.config.rules "undeclared_edge" && not (thread == "")
    then (
      edge_hit node edges (get thread t.last_node),
      record t { last_node = put thread node t.last_node },
    )
    else ([], t)
scan_edge node _ _ t = ([], t)

unfoldable pub scan_recursion : CommsConfig → Option ℕ → Option ℕ → List Detection
scan_recursion c (some limit) (some depth) =
    if contains c.rules "recursion_exceeded" && leb limit depth
    then detect "recursion_exceeded" medium
        (("recursion_depth", int depth) ∷ ("recursion_limit", int limit) ∷ [])
    else []
scan_recursion c _ _ = []

-- `getattr(s, "node", None) or (s.get("node") if isinstance(s, dict) else None)`, if it is a text
unfoldable pub target_of : Value → List String
target_of (dict fs) = elim (text_of (lookup "node" fs)) [ none ↦ [] | some s ↦ s ∷ [] ]
target_of (object r fs) = elim (text_of (lookup "node" fs)) [
  | none ↦ []
  | some s ↦ if s == "" then [] else s ∷ []
]
target_of v = []

unfoldable pub targets_of : List Value → List String
targets_of [] = []
targets_of (v ∷ vs) = target_of v ++ targets_of vs

-- `state.get("__pregel_send__") or state.get("sends")`
unfoldable pub sends_of : Fields → Option Value
sends_of state = elim (lookup "__pregel_send__" state) [
  | none ↦ lookup "sends" state
  | some v ↦ if is_truthy v then some v else lookup "sends" state
]

-- `_send_targets`
unfoldable pub send_targets : Fields → List String
send_targets state = targets_of (items_of (sends_of state))

unfoldable pub target_hits : String → Edges → List String → List Detection
target_hits node edges [] = []
target_hits node edges (t ∷ ts) =
    let rest = target_hits node edges ts in
    if is_target t edges
    then rest
    else detect "send_to_undeclared_target" high (("node", text node) ∷ ("target", text t) ∷ [])
      ++ rest

unfoldable pub scan_sends : CommsConfig → String → Fields → Option Edges → List Detection
scan_sends c node state none = []
scan_sends c node state (some edges) =
    if contains c.rules "send_to_undeclared_target"
    then target_hits node edges (send_targets state)
    else []

-- `current >= initial_state_size * state_growth_multiplier`
abbrev pub has_grown : Fraction → ℕ → ℕ → Bool
has_grown m initial current = leb (initial * m.num) (current * m.den)

unfoldable pub scan_growth : Runtime → CommsConfig → Fields → Option ℕ → List Detection
scan_growth rt c state none = []
scan_growth rt c state (some initial) =
    let current = state_size rt state in
    if contains c.rules "oversized_state_growth"
      && (ltb 0 initial && has_grown c.state_growth_multiplier initial current)
    then detect "oversized_state_growth" medium (
        ("initial_bytes", int initial)
        ∷ ("current_bytes", int current)
        ∷ ("multiplier", float c.state_growth_multiplier)
        ∷ [])
    else []

-- What is known of the run besides its state.
pub record Traversal : Type 0 where
  pub declared_edges : Option Edges
  pub recursion_limit : Option ℕ
  pub recursion_depth : Option ℕ
  pub initial_state_size : Option ℕ
  pub thread_id : Option String

unfoldable pub scan :
    Runtime → String → Fields → Traversal → CommsDetector → List Detection × CommsDetector
scan rt node state r t =
    let (moved, t') = scan_edge node r.declared_edges r.thread_id t in
    if not t.config.enabled then ([], t) else (
      moved
          ++ (scan_recursion t.config r.recursion_limit r.recursion_depth
              ++ (scan_sends t.config node state r.declared_edges
                  ++ scan_growth rt t.config state r.initial_state_size)),
      t',
    )
