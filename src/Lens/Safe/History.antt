-- ===== src/Lens/Safe/History.antt =====
-- lens.py: the public methods of the orchestrator, in any order.
use langgraph_lens.Prelude.{
  ◌≤◌, String, ◌≡◌, refl, Bool, true, false, Option, List, [], ◌∷◌, length, arith, string_eq, ◌==◌,
  subst,
}
use langgraph_lens.Prelude.Dict.{get}
use langgraph_lens.Runtime.{Runtime}
use langgraph_lens.Time.{ticks}
use langgraph_lens.Value.{Value, Fields}
use langgraph_lens.Alerts.Cooldown.{spaced, recorded}
use langgraph_lens.Breaker.Invariant.{Reach-Inv, start}
use langgraph_lens.Detector.AttackSurface.{RuntimeInfo}
use langgraph_lens.Detector.SupplyChain.{FileSystem}
use langgraph_lens.Comms.{Edges}
use langgraph_lens.Lens
use langgraph_lens.Lens.{Lens, LensConfig, attach_graph, events_for_thread}
use langgraph_lens.Lens.Inspect.{
  NodeCall, CheckpointCall, ToolCall, inspect_node, inspect_checkpoint, inspect_tool_call,
  inspect_memory_write,
}
use langgraph_lens.Lens.Scan.{scan_attack_surface, scan_prompt}
use langgraph_lens.Lens.Decide.{
  decide_node, decide_tool_call, decide_checkpoint, record_upstream_result,
}
use langgraph_lens.Lens.Safe.{Safe}
use langgraph_lens.Lens.Safe.Methods.{
  Safe-scan_attack_surface, Safe-scan_prompt, Safe-inspect_node, Safe-inspect_checkpoint,
  Safe-inspect_tool_call, Safe-inspect_memory_write,
}
use langgraph_lens.Lens.Safe.Decisions.{
  Safe-decide_node, Safe-decide_tool_call, Safe-end_checkpoint, Safe-record_upstream_result,
  Safe-attach_graph,
}

-- A call of a method, with its arguments.
pub data Operation : Type 0 where
  attach : Edges → Operation
  scan_surface : RuntimeInfo → Operation
  load_prompt : FileSystem → String → Operation
  look_at_node decide_on_node : NodeCall → Fields → Operation
  look_at_checkpoint decide_on_checkpoint : CheckpointCall → Operation
  look_at_tool_call : ToolCall → Option (List String) → Operation
  decide_on_tool_call : ToolCall → Option String → Operation
  look_at_memory : String → Value → Option String → Option String → Option String → Operation
  upstream_result : Bool → Operation

-- The state that a call leaves.
unfoldable pub perform : Runtime → Operation → Lens → Lens
perform rt (attach edges) l = attach_graph edges l
perform rt (scan_surface info) l = (scan_attack_surface rt info l).1
perform rt (load_prompt fs path) l = (scan_prompt rt fs path l).1
perform rt (look_at_node q state) l = (inspect_node rt q state l).1
perform rt (decide_on_node q state) l = (decide_node rt q state l).1
perform rt (look_at_checkpoint q) l = (inspect_checkpoint rt q l).1
perform rt (decide_on_checkpoint q) l = (decide_checkpoint rt q l).1
perform rt (look_at_tool_call q allowed) l = (inspect_tool_call rt q allowed l).1
perform rt (decide_on_tool_call q tenant) l = (decide_tool_call rt q tenant l).2
perform rt (look_at_memory key value owner run_id thread_id) l =
    (inspect_memory_write rt key value owner run_id thread_id l).1
perform rt (upstream_result error) l = record_upstream_result rt error l

unfoldable pub performs : Runtime → List Operation → Lens → Lens
performs rt [] l = l
performs rt (o ∷ os) l = performs rt os (perform rt o l)

Safe-perform :
    (c : LensConfig) (rt : Runtime) (o : Operation) (l : Lens) → Safe c l → Safe c (perform rt o l)
unfolding perform decide_checkpoint
Safe-perform c rt (attach edges) l h = Safe-attach_graph c rt edges l h
Safe-perform c rt (scan_surface info) l h = Safe-scan_attack_surface c rt info l h
Safe-perform c rt (load_prompt fs path) l h = Safe-scan_prompt c rt fs path l h
Safe-perform c rt (look_at_node q state) l h = Safe-inspect_node c rt q state l h
Safe-perform c rt (decide_on_node q state) l h = Safe-decide_node c rt q state l h
Safe-perform c rt (look_at_checkpoint q) l h = Safe-inspect_checkpoint c rt q l h
Safe-perform c rt (decide_on_checkpoint q) l h = Safe-end_checkpoint c rt q l _ h
Safe-perform c rt (look_at_tool_call q allowed) l h = Safe-inspect_tool_call c rt q allowed l h
Safe-perform c rt (decide_on_tool_call q tenant) l h = Safe-decide_tool_call c rt q tenant l h
Safe-perform c rt (look_at_memory key value owner run_id thread_id) l h =
    Safe-inspect_memory_write c rt key value owner run_id thread_id l h
Safe-perform c rt (upstream_result error) l h = Safe-record_upstream_result c rt error l h

Safe-performs :
    (c : LensConfig) (rt : Runtime) (os : List Operation) (l : Lens)
    → Safe c l
    → Safe c (performs rt os l)
unfolding performs
Safe-performs c rt [] l h = h
Safe-performs c rt (o ∷ os) l h = Safe-performs c rt os (perform rt o l) (Safe-perform c rt o l h)

Safe-init : (c : LensConfig) (rt : Runtime) → Safe c (Lens.init rt c)
unfolding spaced recorded events_for_thread get
Safe-init c rt = (Reach-Inv start, (refl, (refl, refl)), λ thread named. omega arith)

-- Whatever methods of a new orchestrator are called, in whatever order and however its clock reads: at
-- most one probe of the breaker is in flight, any two alerts about one detector were sent at least the
-- cooldown apart, and the buffer of a named thread holds at most 256 events.
pub performs-Safe :
    (rt : Runtime) (c : LensConfig) (os : List Operation) (thread : String)
    → (thread == "") ≡ false
    → let l = performs rt os (Lens.init rt c) in
      (l.circuit_breaker.half_open_probes_inflight ≤ 1)
      × (spaced (ticks c.alerts.cooldown_seconds) l.alerts.posts ≡ true)
      × (length (events_for_thread thread l) ≤ 256)
performs-Safe rt c os thread named =
    let l = performs rt os (Lens.init rt c) in
    let (probes, (same, (apart, recent)), short) =
      Safe-performs c rt os (Lens.init rt c) (Safe-init c rt) in
    (
      probes.one_probe,
      subst (λ a. spaced (ticks a.cooldown_seconds) l.alerts.posts ≡ true) same apart,
      short thread named,
    )
