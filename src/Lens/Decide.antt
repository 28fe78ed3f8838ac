-- ===== src/Lens/Decide.antt =====
-- lens.py: the decision methods, which run the interventions before the inspection. An exception is
-- a result `none`; the state of the orchestrator is kept as it was when it was raised.
use langgraph_lens.Prelude.{
  String, Bool, not, ◌&&◌, Option, none, some, List, [], ◌∷◌, ◌++◌, if◌then◌else◌, string_eq,
}
use langgraph_lens.Prelude.Dict.{get}
use langgraph_lens.Runtime.{Runtime}
use langgraph_lens.Value.{Fields, end, field}
use langgraph_lens.Event.{Detection, Event}
use langgraph_lens.Decision.{LensDecision, pass, merge, is_terminal}
use langgraph_lens.Breaker.{evaluate_request, record_attack_signal, record_response}
use langgraph_lens.RateLimiter
use langgraph_lens.Intervention.ToolAllowlist
use langgraph_lens.Intervention.CheckpointProtector
use langgraph_lens.Intervention.GoalGuard
use langgraph_lens.Intervention.PiiRedactor
use langgraph_lens.Intervention.Audit
use langgraph_lens.Lens.{Lens, named, tick, measure}
use langgraph_lens.Lens.Inspect.{
  NodeCall, CheckpointCall, ToolCall, scans, inspect_node, inspect_checkpoint, inspect_tool_call,
}
use langgraph_lens.Lens.Outcome.{extend, extend_buffer, circuit_gauge, report}

-- `for d in dets: self.circuit_breaker.record_attack_signal(d.severity)`
unfoldable pub signal_attacks : Runtime → List Detection → Lens → Lens
signal_attacks rt [] l = l
signal_attacks rt (d ∷ ds) l = signal_attacks rt ds (
    tick (record l {
      circuit_breaker = record_attack_signal (rt.clock l.ticks_read) d.severity l.circuit_breaker;
    }))

-- A decision so far, with the detections of the interventions.
pub record Partial : Type 0 where
  pub decision : LensDecision
  pub extra : List Detection

abbrev pub add : Partial → LensDecision × List Detection → Partial
add p (d, ds) = record { decision = merge p.decision d; extra = p.extra ++ ds }

-- The first step of `decide_node` and `decide_tool_call`
unfoldable pub ask_breaker : Runtime → Lens → Partial × Lens
ask_breaker rt l =
    let (d, ds, b) = evaluate_request (rt.clock l.ticks_read) l.circuit_breaker in
    (add (record { decision = pass; extra = [] }) (d, ds), tick (record l { circuit_breaker = b }))

-- The goal guard, for a named thread, and its attack signals
unfoldable pub ask_goal_guard : Runtime → NodeCall → Fields → Partial → Lens → Partial × Lens
ask_goal_guard rt q state p l = elim (named q.thread_id) [
  | none ↦ (p, l)
  | some t ↦
      let (d, ds) =
        GoalGuard.evaluate rt l.config.tier2.goal_guard l.config.goal_hijack state
          (get t l.thread_user_intent) in
      if is_terminal p.decision then (p, l) else (add p (d, ds), signal_attacks rt ds l)
]

unfoldable pub ask_redactor : Runtime → Fields → Partial → Lens → Partial
ask_redactor rt state p l =
    if is_terminal p.decision
    then p
    else add p (PiiRedactor.evaluate rt l.config.tier2.pii_redaction state)

-- `copy.deepcopy(state)` of the redactor raises.
unfoldable pub copy_fails : Runtime → Fields → Partial → Lens → Bool
copy_fails rt state p l =
    not (is_terminal p.decision) && l.config.tier2.pii_redaction.enabled && not (rt.copies state)

-- `decision.modified_state or state`
abbrev pub forwarded : LensDecision → Fields → Fields
forwarded d state = elim d.modified_state [
  | none ↦ state
  | some end ↦ state
  | some (field k v fs) ↦ field k v fs
]

pub record NodeResult : Type 0 where
  pub decision : LensDecision
  pub event : Event
  -- the caller's state, as it is left
  pub state : Fields

-- Where the mark of the audit goes: into the rewritten state, or into the caller's.
unfoldable pub finish_node : Runtime → LensDecision → Event → Fields → Lens → Option NodeResult
finish_node rt d e state l =
    let c = l.config.tier2.audit_signaling in
    elim (Audit.stamp_state c (forwarded d state) d) [
      | none ↦ none
      | some marked ↦ elim d.modified_state [
        | none ↦ some (record { decision = Audit.stamp c d; event = e; state = marked })
        | some end ↦ some (record { decision = Audit.stamp c d; event = e; state = marked })
        | some (field k v fs) ↦ some (record {
          decision = Audit.stamp c (record d { modified_state = some marked });
          event = e;
          state = state;
        })
      ]
    ]

-- `decide_node`; a state that cannot be copied, or cannot be marked, ends it with an exception.
unfoldable pub decide_node : Runtime → NodeCall → Fields → Lens → Option NodeResult × Lens
decide_node rt q state l =
    let (p1, l1) = ask_breaker rt l in
    let (p2, l2) = ask_goal_guard rt q state p1 l1 in
    let p = ask_redactor rt state p2 l2 in
    let (e, l3) = inspect_node rt q (forwarded p.decision state) l2 in
    let l4 = report rt p.decision p.extra (extend_buffer q.thread_id p.extra l3) in
    if copy_fails rt state p2 l2
    then (none, l2)
    else (finish_node rt p.decision (extend p.extra e) state l4, l4)

-- The allow-list and its attack signals
unfoldable pub ask_allowlist : Runtime → ToolCall → Partial → Lens → Partial × Lens
ask_allowlist rt q p l =
    let (d, ds, tool) =
      ToolAllowlist.evaluate rt (rt.clock l.ticks_read) l.config.tier2.tool_allowlist q.tool q.args
        q.thread_id l.tool in
    if is_terminal p.decision
    then (p, l)
    else (add p (d, ds), signal_attacks rt ds (tick (record l { tool = tool })))

unfoldable pub ask_limiter : Runtime → ToolCall → Option String → Partial → Lens → Partial × Lens
ask_limiter rt q tenant p l =
    let (d, ds, limiter) =
      RateLimiter.evaluate rt.float_repr (rt.clock l.ticks_read) q.tool q.args q.thread_id tenant
        l.rate_limiter in
    if is_terminal p.decision
    then (p, l)
    else (add p (d, ds), tick (record l { rate_limiter = limiter }))

-- The interventions of `decide_tool_call`, in order
unfoldable pub intervene : Runtime → ToolCall → Option String → Lens → Partial × Lens
intervene rt q tenant l =
    let (p1, l1) = ask_breaker rt l in
    let (p2, l2) = ask_allowlist rt q p1 l1 in ask_limiter rt q tenant p2 l2

-- `decide_tool_call`
unfoldable pub decide_tool_call :
    Runtime → ToolCall → Option String → Lens → LensDecision × Event × Lens
decide_tool_call rt q tenant l =
    let (p, l1) = intervene rt q tenant l in
    let (e, l2) = inspect_tool_call rt q none l1 in
    (
      Audit.stamp l2.config.tier2.audit_signaling p.decision,
      extend p.extra e,
      report rt p.decision p.extra (extend_buffer q.thread_id p.extra l2),
    )

-- The end of `decide_checkpoint`, behind the intervention. An event that was not emitted is in no
-- buffer.
unfoldable pub end_checkpoint :
    Runtime
    → CheckpointCall
    → Lens
    → Option (LensDecision × List Detection)
    → Option (LensDecision × Event) × Lens
end_checkpoint rt q l none = (none, l)
end_checkpoint rt q l (some (d, ds)) =
    let (e, l1) = inspect_checkpoint rt q (signal_attacks rt ds l) in
    let emitted = scans l.config.checkpoint q.direction in
    (
      some (Audit.stamp l.config.tier2.audit_signaling (merge pass d), extend ds e),
      report rt (merge pass d) ds (if emitted then extend_buffer q.thread_id ds l1 else l1),
    )

-- `decide_checkpoint`
unfoldable pub decide_checkpoint :
    Runtime → CheckpointCall → Lens → Option (LensDecision × Event) × Lens
decide_checkpoint rt q l = end_checkpoint rt q l (
    CheckpointProtector.evaluate rt l.config.tier2.checkpoint_protector l.config.checkpoint q.blob
      q.metadata q.direction q.thread_id)

-- `record_upstream_result`
unfoldable pub record_upstream_result : Runtime → Bool → Lens → Lens
record_upstream_result rt error l =
    let b = record_response (rt.clock l.ticks_read) error l.circuit_breaker in
    let l1 = tick (record l { circuit_breaker = b }) in measure (circuit_gauge l1) l1
