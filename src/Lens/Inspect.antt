-- ===== src/Lens/Inspect.antt =====
-- lens.py: the inspection methods. Each takes the thread's and run's names as the source's keywords.
use langgraph_lens.Prelude.{
  ℕ, String, Bool, not, ◌&&◌, Option, none, some, List, [], ◌∷◌, ◌++◌, map, if◌then◌else◌,
  string_eq, ◌==◌,
}
use langgraph_lens.Prelude.Dict.{get, put, setdefault}
use langgraph_lens.Runtime.{Runtime}
use langgraph_lens.Value.{Value, Fields, end, lookup}
use langgraph_lens.Event.{
  Detection, Event, node_inspected, checkpoint_inspected, tool_call_inspected, memory_inspected,
}
use langgraph_lens.Args.{Args}
use langgraph_lens.Metrics.{Sample, increment, observe}
use langgraph_lens.Tool
use langgraph_lens.Comms
use langgraph_lens.Comms.{Edges}
use langgraph_lens.Message.{stringify_state, extract_user_intent, state_size, hash_state, text_of}
use langgraph_lens.Detector.Checkpoint
use langgraph_lens.Detector.Checkpoint.{CheckpointConfig, Blob, raw, decoded}
use langgraph_lens.Detector.Memory
use langgraph_lens.Detector.SqlInjection
use langgraph_lens.Detector.SqlInjection.{SqlInjectionConfig}
use langgraph_lens.Detector.GoalHijack
use langgraph_lens.Detector.Pii
use langgraph_lens.Detector.Pii.{PiiConfig, Direction, ingress, at_checkpoint}
use langgraph_lens.Intervention.CheckpointProtector.{or_empty}
use langgraph_lens.Intervention.CheckpointProtector
use langgraph_lens.Lens.{Lens, emit, correlation_for, new_event, named, tick, measure}
use langgraph_lens.Lens.Scan.{tagged, auto_scan}

-- What is kept of the first state of a thread: the intent, once there is one, and the size.
unfoldable pub remember_intent : Runtime → Option String → Fields → Lens → Lens
remember_intent rt thread_id state l = elim (named thread_id) [
  | none ↦ l
  | some t ↦ elim (get t l.thread_user_intent) [
    | some i ↦ l
    | none ↦ elim (extract_user_intent rt state) [
      | none ↦ l
      | some i ↦ record l { thread_user_intent = put t i l.thread_user_intent }
    ]
  ]
]

unfoldable pub remember_size : Runtime → Option String → Fields → Lens → Lens
remember_size rt thread_id state l = elim (named thread_id) [
  | none ↦ l
  | some t ↦ record l {
    thread_initial_state_size = setdefault t (state_size rt state) l.thread_initial_state_size;
  }
]

-- `.get(thread_id or "")`
abbrev or_blank : Option String → String
or_blank none = ""
or_blank (some t) = t

-- `declared_edges`, or the attached ones
abbrev pub edges_or : Option Edges → Option Edges → Option Edges
edges_or none attached = attached
edges_or (some edges) attached = some edges

-- The keywords of `inspect_node` and `decide_node`.
pub record NodeCall : Type 0 where
  pub node : String
  pub run_id : Option String
  pub thread_id : Option String
  pub declared_edges : Option Edges
  pub recursion_limit : Option ℕ
  pub recursion_depth : Option ℕ

-- The texts of the state, scanned for personal data unless there are none.
abbrev pub pii_of : Runtime → PiiConfig → Bool → Direction → String → List Detection
pii_of rt c on direction body = if on && not (body == "") then Pii.scan rt c body direction else []

-- `goal_hijack.scan`, for a named thread
abbrev pub goal_of : Runtime → Option String → Fields → Lens → List Detection
goal_of rt thread_id state l = elim (named thread_id) as (λ _. List Detection) [
  | none ↦ []
  | some t ↦ GoalHijack.scan rt l.config.goal_hijack state (get t l.thread_user_intent)
]

abbrev duration : String → Sample
duration stage = observe "langgraph_lens_inspection_duration_seconds" stage

-- What `inspect_node` measures.
abbrev pub node_samples : List Sample
node_samples = duration "node_ingress" ∷ increment "langgraph_lens_nodes_inspected_total" [] ∷ []

-- The part of `inspect_node` behind the tables: the detections, the event and its emission.
unfoldable pub observe_node : Runtime → NodeCall → Fields → String → Lens → Event × Lens
observe_node rt q state cid l =
    let edges = edges_or q.declared_edges l.declared_edges in
    let personal =
      pii_of rt l.config.pii l.config.pii.scan_ingress ingress (stringify_state rt state) in
    let goals = goal_of rt q.thread_id state l in
    let (moves, comms) =
      Comms.scan rt q.node state
        (record {
          declared_edges = edges;
          recursion_limit = q.recursion_limit;
          recursion_depth = q.recursion_depth;
          initial_state_size = get (or_blank q.thread_id) l.thread_initial_state_size;
          thread_id = q.thread_id;
        })
        l.comms in
    let e : Event =
      record (new_event rt node_inspected cid q.run_id q.thread_id (personal ++ (goals ++ moves))
        l) { node = some q.node; state_hash = some (hash_state rt state) } in
    (e, emit rt e (tick (measure node_samples (record l { comms = comms }))))

-- `inspect_node`
unfoldable pub inspect_node : Runtime → NodeCall → Fields → Lens → Event × Lens
inspect_node rt q state l =
    let (cid, l1) = correlation_for rt q.run_id q.thread_id l in
    let l2 = remember_intent rt q.thread_id state (auto_scan rt l1) in
    observe_node rt q state cid (remember_size rt q.thread_id state l2)

-- The keywords of `inspect_checkpoint` and `decide_checkpoint`.
pub record CheckpointCall : Type 0 where
  pub blob : Blob
  pub metadata : Option Fields
  pub run_id : Option String
  pub thread_id : Option String
  pub checkpoint_id : Option String
  pub direction : CheckpointProtector.Direction

-- Whether checkpoints of a direction are scanned.
abbrev pub scans : CheckpointConfig → CheckpointProtector.Direction → Bool
scans c CheckpointProtector.write_direction = c.scan_on_write
scans c CheckpointProtector.read_direction = c.scan_on_read

-- `_stringify_state(blob if isinstance(blob, dict) else {})`
abbrev blob_text : Runtime → Blob → String
blob_text rt (raw b) = stringify_state rt end
blob_text rt (decoded fs) = stringify_state rt fs

-- The fields of the metadata that are texts, scanned for SQL injection.
unfoldable pub metadata_hits : Runtime → SqlInjectionConfig → Fields → List String → List Detection
metadata_hits rt c metadata [] = []
metadata_hits rt c metadata (f ∷ fs) = elim (text_of (lookup f metadata)) [
  | none ↦ metadata_hits rt c metadata fs
  | some v ↦ SqlInjection.scan rt.unicode c f v ++ metadata_hits rt c metadata fs
]

unfoldable pub checkpoint_detections : Runtime → CheckpointCall → Lens → List Detection
checkpoint_detections rt q l =
    Checkpoint.scan rt l.config.checkpoint q.blob q.thread_id
    ++ (pii_of rt l.config.pii l.config.pii.scan_checkpoints at_checkpoint (blob_text rt q.blob)
        ++ metadata_hits rt l.config.sql_injection (or_empty q.metadata)
            l.config.sql_injection.fields)

abbrev checkpoint_counted : Sample
checkpoint_counted = increment "langgraph_lens_checkpoints_inspected_total" []

-- `inspect_checkpoint`: a direction that is not scanned gives an event that is not emitted.
unfoldable pub inspect_checkpoint : Runtime → CheckpointCall → Lens → Event × Lens
inspect_checkpoint rt q l =
    let (cid, l1) = correlation_for rt q.run_id q.thread_id l in
    let event_of : List Detection → Event = λ ds.
      record (new_event rt checkpoint_inspected cid q.run_id q.thread_id ds l1) {
        checkpoint_id = q.checkpoint_id;
      } in
    let e = event_of (checkpoint_detections rt q l1) in
    if scans l1.config.checkpoint q.direction
    then (e, emit rt e (tick (measure (duration "checkpoint" ∷ checkpoint_counted ∷ []) l1)))
    else (event_of [], tick (measure (checkpoint_counted ∷ []) l1))

-- The keywords of `inspect_tool_call` and `decide_tool_call`.
pub record ToolCall : Type 0 where
  pub tool : String
  pub args : Args
  pub run_id : Option String
  pub thread_id : Option String

-- `inspect_tool_call`
unfoldable pub inspect_tool_call : Runtime → ToolCall → Option (List String) → Lens → Event × Lens
inspect_tool_call rt q allowed_tools l =
    let (cid, l1) = correlation_for rt q.run_id q.thread_id l in
    let (ds, tool) =
      Tool.scan rt (rt.clock l1.ticks_read) q.tool q.args allowed_tools q.thread_id l1.tool in
    let l2 = tick (record l1 { tool = tool }) in
    let e =
      new_event rt tool_call_inspected cid q.run_id q.thread_id (map (tagged "tool" q.tool) ds)
        l2 in
    (e, emit rt e (tick (measure (duration "tool" ∷ []) l2)))

-- `inspect_memory_write`
unfoldable pub inspect_memory_write :
    Runtime → String → Value → Option String → Option String → Option String → Lens → Event × Lens
inspect_memory_write rt key value owner run_id thread_id l =
    let (cid, l1) = correlation_for rt run_id thread_id l in
    let ds = Memory.scan rt l1.config.memory key value owner in
    let e = new_event rt memory_inspected cid run_id thread_id (map (tagged "key" key) ds) l1 in
    (e, emit rt e (tick (measure (duration "memory" ∷ []) l1)))
