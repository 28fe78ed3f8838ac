-- ===== src/Lens/Safe/Decisions.antt =====
-- lens.py: the methods of the orchestrator that decide, one by one.
use langgraph_lens.Prelude.{
  Bool-cases, inl, inr, String, Bool, Option, none, some, List, [], ◌∷◌, string_eq, if◌then◌else◌,
}
use langgraph_lens.Runtime.{Runtime}
use langgraph_lens.Value.{Fields}
use langgraph_lens.Event.{Detection}
use langgraph_lens.Decision.{LensDecision, pass, is_terminal, merge}
use langgraph_lens.Breaker.Invariant.{after, request, response, attack, after-Inv}
use langgraph_lens.Breaker.{record_attack_signal}
use langgraph_lens.Comms.{Edges}
use langgraph_lens.Prelude.Dict.{get}
use langgraph_lens.Intervention.GoalGuard
use langgraph_lens.Lens.{Lens, LensConfig, tick, named, attach_graph, events_for_thread}
use langgraph_lens.Lens.Inspect.{
  NodeCall, CheckpointCall, ToolCall, inspect_node, inspect_checkpoint, inspect_tool_call, scans,
}
use langgraph_lens.Lens.Decide.{
  Partial, add, signal_attacks, ask_breaker, ask_goal_guard, ask_redactor, forwarded, copy_fails,
  decide_node, ask_allowlist, ask_limiter, intervene, decide_tool_call, end_checkpoint,
  record_upstream_result,
}
use langgraph_lens.Lens.Outcome.{extend_buffer, report}
use langgraph_lens.Lens.Safe.{Safe, Safe-either, Safe-if, Safe-extend_buffer}
use langgraph_lens.Lens.Safe.Methods.{
  Safe-inspect_node, Safe-inspect_checkpoint, Safe-inspect_tool_call,
}

module _ (c : LensConfig) (rt : Runtime) where
  Safe-signal_attacks :
      (ds : List Detection) (l : Lens) → Safe c l → Safe c (signal_attacks rt ds l)
  unfolding signal_attacks after events_for_thread
  Safe-signal_attacks [] l h = h
  Safe-signal_attacks (d ∷ ds) l (probes, kept, short) =
      let now = rt.clock l.ticks_read in
      let b = record_attack_signal now d.severity l.circuit_breaker in
      let probed =
        after-Inv c.tier2.circuit_breaker l.circuit_breaker (attack now d.severity) probes in
      Safe-signal_attacks ds (tick (record l { circuit_breaker = b })) (probed, kept, short)

  Safe-ask_breaker : (l : Lens) → Safe c l → Safe c (ask_breaker rt l).1
  unfolding ask_breaker after events_for_thread
  Safe-ask_breaker l (probes, kept, short) = (
    after-Inv c.tier2.circuit_breaker l.circuit_breaker (request (rt.clock l.ticks_read)) probes,
    kept,
    short,
  )

  Safe-ask_limiter :
      (q : ToolCall) (tenant : Option String) (p : Partial) (l : Lens)
      → Safe c l
      → Safe c (ask_limiter rt q tenant p l).1
  unfolding ask_limiter events_for_thread
  Safe-ask_limiter q tenant p l h = Safe-if c _ _ _ h h

  Safe-ask_allowlist :
      (q : ToolCall) (p : Partial) (l : Lens) → Safe c l → Safe c (ask_allowlist rt q p l).1
  unfolding ask_allowlist events_for_thread
  Safe-ask_allowlist q p l h = Safe-if c _ _ _ h (Safe-signal_attacks _ _ h)

  Safe-report :
      (d : LensDecision) (ds : List Detection) (l : Lens) → Safe c l → Safe c (report rt d ds l)
  unfolding events_for_thread
  Safe-report d ds l h = h

  pub Safe-decide_tool_call :
      (q : ToolCall) (tenant : Option String) (l : Lens)
      → Safe c l
      → Safe c (decide_tool_call rt q tenant l).2
  unfolding decide_tool_call intervene
  Safe-decide_tool_call q tenant l h =
      let (p1, l1) = ask_breaker rt l in
      let (p2, l2) = ask_allowlist rt q p1 l1 in
      let (p3, l3) = ask_limiter rt q tenant p2 l2 in
      let h2 = Safe-ask_allowlist q p1 l1 (Safe-ask_breaker l h) in
      let h3 = Safe-ask_limiter q tenant p2 l2 h2 in
      let l4 = (inspect_tool_call rt q none l3).1 in
      Safe-report p3.decision p3.extra (extend_buffer q.thread_id p3.extra l4)
        (Safe-extend_buffer c q.thread_id p3.extra l4 (Safe-inspect_tool_call c rt q none l3 h3))

  Safe-ask_goal_guard :
      (q : NodeCall) (state : Fields) (p : Partial) (l : Lens)
      → Safe c l
      → Safe c (ask_goal_guard rt q state p l).1
  unfolding ask_goal_guard
  Safe-ask_goal_guard q state p l h =
      elim (named q.thread_id)
        as (λ o.
          Safe c
            (elim o as (λ x. Partial × Lens) [
              | none ↦ (p, l)
              | some t ↦
                  let (d, ds) =
                    GoalGuard.evaluate rt l.config.tier2.goal_guard l.config.goal_hijack state
                      (get t l.thread_user_intent) in
                  if is_terminal p.decision then (p, l) else (add p (d, ds), signal_attacks rt ds l)
            ]).1) [
              | none ↦ h
              | some t ↦ Safe-if c (is_terminal p.decision) _ _ h (Safe-signal_attacks _ l h)
            ]

  pub Safe-decide_node :
      (q : NodeCall) (state : Fields) (l : Lens) → Safe c l → Safe c (decide_node rt q state l).1
  unfolding decide_node
  Safe-decide_node q state l h =
      let (p1, l1) = ask_breaker rt l in
      let (p2, l2) = ask_goal_guard rt q state p1 l1 in
      let p = ask_redactor rt state p2 l2 in
      let l3 = (inspect_node rt q (forwarded p.decision state) l2).1 in
      let h2 = Safe-ask_goal_guard q state p1 l1 (Safe-ask_breaker l h) in
      let h3 = Safe-inspect_node c rt q (forwarded p.decision state) l2 h2 in
      let h4 =
        Safe-report p.decision p.extra (extend_buffer q.thread_id p.extra l3)
          (Safe-extend_buffer c q.thread_id p.extra l3 h3) in
      elim (Bool-cases (copy_fails rt state p2 l2)) [
        | inl raises ↦ rw raises h2
        | inr goes_on ↦ rw goes_on h4
      ]

  pub Safe-end_checkpoint :
      (q : CheckpointCall) (l : Lens) (o : Option (LensDecision × List Detection))
      → Safe c l
      → Safe c (end_checkpoint rt q l o).1
  unfolding end_checkpoint
  Safe-end_checkpoint q l none h = h
  Safe-end_checkpoint q l (some (d, ds)) h =
      let l1 = (inspect_checkpoint rt q (signal_attacks rt ds l)).1 in
      let h1 =
        Safe-inspect_checkpoint c rt q (signal_attacks rt ds l) (Safe-signal_attacks ds l h) in
      let emitted = scans l.config.checkpoint q.direction in
      let l2 = if emitted then extend_buffer q.thread_id ds l1 else l1 in
      Safe-report (merge pass d) ds l2 (
        Safe-either c emitted (extend_buffer q.thread_id ds l1) l1
          (Safe-extend_buffer c q.thread_id ds l1 h1) h1)

  pub Safe-record_upstream_result :
      (error : Bool) (l : Lens) → Safe c l → Safe c (record_upstream_result rt error l)
  unfolding record_upstream_result after events_for_thread
  Safe-record_upstream_result error l (probes, kept, short) = (
    after-Inv c.tier2.circuit_breaker l.circuit_breaker (response (rt.clock l.ticks_read) error)
        probes,
    kept,
    short,
  )

  pub Safe-attach_graph : (edges : Edges) (l : Lens) → Safe c l → Safe c (attach_graph edges l)
  unfolding attach_graph events_for_thread
  Safe-attach_graph [] l h = h
  Safe-attach_graph (e ∷ edges) l h = h
