-- ===== src/Lens/Logged/Decisions.antt =====
-- lens.py: what the decisions of the orchestrator write to the log.
use langgraph_lens.Prelude.{
  Bool-cases, inl, inr, String, ◌≡◌, refl, Bool, Option, none, some, List, [], ◌∷◌, arith,
  string_eq,
}
use langgraph_lens.Runtime.{Runtime}
use langgraph_lens.Value.{Fields}
use langgraph_lens.Event.{Detection}
use langgraph_lens.Decision.{LensDecision}
use langgraph_lens.Breaker.{record_attack_signal}
use langgraph_lens.Comms.{Edges}
use langgraph_lens.Lens.{Lens, tick, attach_graph}
use langgraph_lens.Lens.Inspect.{
  NodeCall, CheckpointCall, ToolCall, inspect_node, inspect_checkpoint, inspect_tool_call, scans,
}
use langgraph_lens.Lens.Outcome.{extend_buffer}
use langgraph_lens.Lens.Decide.{
  Partial, signal_attacks, ask_breaker, ask_goal_guard, ask_redactor, forwarded, copy_fails,
  decide_node, ask_allowlist, ask_limiter, intervene, decide_tool_call, end_checkpoint,
  decide_checkpoint, record_upstream_result,
}
use langgraph_lens.Lens.Logged.{Regular}
use langgraph_lens.Lens.Logged.Methods.{
  Regular-same, Regular-either, Regular-inspect_node, Regular-inspect_checkpoint,
  Regular-inspect_tool_call,
}

module _ (rt : Runtime) where
  output-signal_attacks :
      (ds : List Detection) (l : Lens) → (signal_attacks rt ds l).output ≡ l.output
  unfolding signal_attacks
  output-signal_attacks [] l = refl
  output-signal_attacks (d ∷ ds) l =
      let b = record_attack_signal (rt.clock l.ticks_read) d.severity l.circuit_breaker in
      output-signal_attacks ds (tick (record l { circuit_breaker = b }))

  output-ask_goal_guard :
      (q : NodeCall) (state : Fields) (p : Partial) (l : Lens)
      → (ask_goal_guard rt q state p l).1.output ≡ l.output
  unfolding ask_goal_guard
  output-ask_goal_guard q state p l = grind (arith, output-signal_attacks)

  output-ask_allowlist :
      (q : ToolCall) (p : Partial) (l : Lens) → (ask_allowlist rt q p l).1.output ≡ l.output
  unfolding ask_allowlist
  output-ask_allowlist q p l = grind (arith, output-signal_attacks)

  output-ask_limiter :
      (q : ToolCall) (tenant : Option String) (p : Partial) (l : Lens)
      → (ask_limiter rt q tenant p l).1.output ≡ l.output
  unfolding ask_limiter
  output-ask_limiter q tenant p l = ground arith

  output-extend_buffer :
      (thread_id : Option String) (ds : List Detection) (l : Lens)
      → (extend_buffer thread_id ds l).output ≡ l.output
  unfolding extend_buffer
  output-extend_buffer thread_id ds l = ground arith

  pub Regular-decide_node :
      (q : NodeCall) (state : Fields) (l : Lens)
      → Regular l.output
      → Regular (decide_node rt q state l).1.output
  unfolding decide_node ask_breaker
  Regular-decide_node q state l h =
      let (p1, l1) = ask_breaker rt l in
      let (p2, l2) = ask_goal_guard rt q state p1 l1 in
      let p = ask_redactor rt state p2 l2 in
      let h2 = Regular-same l1 l2 (output-ask_goal_guard q state p1 l1) h in
      let l3 = (inspect_node rt q (forwarded p.decision state) l2).1 in
      let h3 = Regular-inspect_node rt q (forwarded p.decision state) l2 h2 in
      let h4 =
        Regular-same l3 (extend_buffer q.thread_id p.extra l3)
          (output-extend_buffer q.thread_id p.extra l3) h3 in
      elim (Bool-cases (copy_fails rt state p2 l2)) [
        | inl raises ↦ rw raises h2
        | inr goes_on ↦ rw goes_on h4
      ]

  pub Regular-decide_tool_call :
      (q : ToolCall) (tenant : Option String) (l : Lens)
      → Regular l.output
      → Regular (decide_tool_call rt q tenant l).2.output
  unfolding decide_tool_call intervene ask_breaker
  Regular-decide_tool_call q tenant l h =
      let (p1, l1) = ask_breaker rt l in
      let (p2, l2) = ask_allowlist rt q p1 l1 in
      let (p3, l3) = ask_limiter rt q tenant p2 l2 in
      let h2 = Regular-same l1 l2 (output-ask_allowlist q p1 l1) h in
      let h3 = Regular-same l2 l3 (output-ask_limiter q tenant p2 l2) h2 in
      let l4 = (inspect_tool_call rt q none l3).1 in
      Regular-same l4 (extend_buffer q.thread_id p3.extra l4)
        (output-extend_buffer q.thread_id p3.extra l4) (Regular-inspect_tool_call rt q none l3 h3)

  Regular-end_checkpoint :
      (q : CheckpointCall) (l : Lens) (o : Option (LensDecision × List Detection))
      → Regular l.output
      → Regular (end_checkpoint rt q l o).1.output
  unfolding end_checkpoint
  Regular-end_checkpoint q l none h = h
  Regular-end_checkpoint q l (some (d, ds)) h =
      let l1 = signal_attacks rt ds l in
      let h1 = Regular-same l l1 (output-signal_attacks ds l) h in
      let l2 = (inspect_checkpoint rt q l1).1 in
      let h2 = Regular-inspect_checkpoint rt q l1 h1 in
      Regular-either (scans l.config.checkpoint q.direction) (extend_buffer q.thread_id ds l2) l2
        (Regular-same l2 (extend_buffer q.thread_id ds l2) (output-extend_buffer q.thread_id ds l2)
          h2)
        h2

  pub Regular-decide_checkpoint :
      (q : CheckpointCall) (l : Lens)
      → Regular l.output
      → Regular (decide_checkpoint rt q l).1.output
  unfolding decide_checkpoint
  Regular-decide_checkpoint q l h = Regular-end_checkpoint q l _ h

  pub Regular-record_upstream_result :
      (error : Bool) (l : Lens)
      → Regular l.output
      → Regular (record_upstream_result rt error l).output
  unfolding record_upstream_result
  Regular-record_upstream_result error l h = h

pub Regular-attach_graph :
    (edges : Edges) (l : Lens) → Regular l.output → Regular (attach_graph edges l).output
unfolding attach_graph
Regular-attach_graph [] l h = h
Regular-attach_graph (e ∷ edges) l h = h
