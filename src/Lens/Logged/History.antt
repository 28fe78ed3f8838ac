-- ===== src/Lens/Logged/History.antt =====
-- lens.py: the log that the public methods of the orchestrator write, called in any order.
use langgraph_lens.Prelude.{List, [], ◌∷◌, All}
use langgraph_lens.Runtime.{Runtime}
use langgraph_lens.Event.Schema.{IsLine}
use langgraph_lens.Lens
use langgraph_lens.Lens.{Lens, LensConfig}
use langgraph_lens.Lens.Safe.History.{
  Operation, attach, scan_surface, load_prompt, look_at_node, decide_on_node, look_at_checkpoint,
  decide_on_checkpoint, look_at_tool_call, decide_on_tool_call, look_at_memory, upstream_result,
  perform, performs,
}
use langgraph_lens.Lens.Logged.{Regular}
use langgraph_lens.Lens.Logged.Methods.{
  Regular-scan_attack_surface, Regular-scan_prompt, Regular-inspect_node,
  Regular-inspect_checkpoint, Regular-inspect_tool_call, Regular-inspect_memory_write,
}
use langgraph_lens.Lens.Logged.Decisions.{
  Regular-decide_node, Regular-decide_tool_call, Regular-decide_checkpoint,
  Regular-record_upstream_result, Regular-attach_graph,
}

Regular-perform :
    (rt : Runtime) (o : Operation) (l : Lens) → Regular l.output → Regular (perform rt o l).output
unfolding perform
Regular-perform rt (attach edges) l h = Regular-attach_graph edges l h
Regular-perform rt (scan_surface info) l h = Regular-scan_attack_surface rt info l h
Regular-perform rt (load_prompt fs path) l h = Regular-scan_prompt rt fs path l h
Regular-perform rt (look_at_node q state) l h = Regular-inspect_node rt q state l h
Regular-perform rt (decide_on_node q state) l h = Regular-decide_node rt q state l h
Regular-perform rt (look_at_checkpoint q) l h = Regular-inspect_checkpoint rt q l h
Regular-perform rt (decide_on_checkpoint q) l h = Regular-decide_checkpoint rt q l h
Regular-perform rt (look_at_tool_call q allowed) l h = Regular-inspect_tool_call rt q allowed l h
Regular-perform rt (decide_on_tool_call q tenant) l h = Regular-decide_tool_call rt q tenant l h
Regular-perform rt (look_at_memory key value owner run_id thread_id) l h =
    Regular-inspect_memory_write rt key value owner run_id thread_id l h
Regular-perform rt (upstream_result error) l h = Regular-record_upstream_result rt error l h

Regular-performs :
    (rt : Runtime) (os : List Operation) (l : Lens)
    → Regular l.output
    → Regular (performs rt os l).output
unfolding performs
Regular-performs rt [] l h = h
Regular-performs rt (o ∷ os) l h =
    Regular-performs rt os (perform rt o l) (Regular-perform rt o l h)

-- Whatever methods of a new orchestrator are called and in whatever order, every line that was written
-- to a file or to stderr has the shape of a log line: one of the kinds of event, a correlation id, a
-- time, at most five further texts, and detections that each keep the name of a detector, a rule and
-- one of the four severities, whatever their extras are.
pub performs-IsLine :
    (rt : Runtime) (c : LensConfig) (os : List Operation)
    → let out = (performs rt os (Lens.init rt c)).output in
      All (λ (path, line). IsLine line) out.file × All IsLine out.stderr
performs-IsLine rt c os = Regular-performs rt os (Lens.init rt c) (tt, tt)
