-- ===== src/Lens/Nodes.antt =====
-- `decide_node`: a refusal by the breaker, and every intervention off.
use langgraph_lens.Prelude.{◌+◌, ◌≡◌, refl, ap, ◌∙◌, true, false, none, some, List, [], arith}
use langgraph_lens.Runtime.{Runtime}
use langgraph_lens.Value.{Fields, lookup}
use langgraph_lens.Event.{Event, Detection}
use langgraph_lens.Message.{hash_state}
use langgraph_lens.Decision.{LensDecision, pass, block, merge, is_terminal, with_audit_headers}
use langgraph_lens.Breaker.{evaluate_request}
use langgraph_lens.Breaker.Gate.{admits}
use langgraph_lens.Intervention.Audit.{stamp, stamp_state}
use langgraph_lens.Intervention.GoalGuard
use langgraph_lens.Intervention.PiiRedactor
use langgraph_lens.Lens.{Lens, emit, correlation_for}
use langgraph_lens.Lens.Inspect.{
  NodeCall, inspect_node, observe_node, remember_intent, remember_size,
}
use langgraph_lens.Lens.Scan.{auto_scan, scan_attack_surface}
use langgraph_lens.Lens.Refusal.{terminal-ask_breaker, action-stamp}
use langgraph_lens.Lens.Decide.{
  Partial, NodeResult, ask_breaker, ask_goal_guard, ask_redactor, forwarded, finish_node,
  copy_fails, decide_node, signal_attacks,
}
use langgraph_lens.Lens.Outcome.{extend, report, extend_buffer}

pub guard_passed_by :
    (rt : Runtime) (q : NodeCall) (state : Fields) (p : Partial) (l : Lens)
    → is_terminal p.decision ≡ true
    → ask_goal_guard rt q state p l ≡ (p, l)
unfolding ask_goal_guard
guard_passed_by rt q state p l refused = ground (arith, refused)

redactor_passed_by :
    (rt : Runtime) (state : Fields) (p : Partial) (l : Lens)
    → is_terminal p.decision ≡ true
    → ask_redactor rt state p l ≡ p
unfolding ask_redactor
redactor_passed_by rt state p l refused = ground (arith, refused)

unrewritten : (rt : Runtime) (l : Lens) → (ask_breaker rt l).0.decision.modified_state ≡ none
unfolding ask_breaker merge evaluate_request
unrewritten rt l = ground arith

finish_unmarked :
    (rt : Runtime) (d : LensDecision) (e : Event) (state : Fields) (l : Lens)
    → l.config.tier2.audit_signaling.stamp_state ≡ false
    → d.modified_state ≡ none
    → finish_node rt d e state l
      ≡ some
          (record { decision = stamp l.config.tier2.audit_signaling d; event = e; state = state })
unfolding finish_node stamp_state lookup stamp with_audit_headers
finish_unmarked rt d e state l plain same = simp same (ground (arith, plain, same))

forwarded_same :
    (d : LensDecision) (state : Fields) → d.modified_state ≡ none → forwarded d state ≡ state
forwarded_same d state e = ground (arith, e)

copy_passed_by :
    (rt : Runtime) (state : Fields) (p : Partial) (l : Lens)
    → is_terminal p.decision ≡ true
    → copy_fails rt state p l ≡ false
unfolding copy_fails
copy_passed_by rt state p l stopped = ground (arith, stopped)

decide_node_refused :
    (rt : Runtime) (q : NodeCall) (state : Fields) (l : Lens)
    → is_terminal (ask_breaker rt l).0.decision ≡ true
    → let (p, l1) = ask_breaker rt l in
      let (e, l2) = inspect_node rt q state l1 in
      let l3 = report rt p.decision p.extra (extend_buffer q.thread_id p.extra l2) in
      decide_node rt q state l ≡ (finish_node rt p.decision (extend p.extra e) state l3, l3)
unfolding decide_node
decide_node_refused rt q state l stopped =
    let (p, l1) = ask_breaker rt l in
    rw
      (
        guard_passed_by rt q state p l1 stopped,
        copy_passed_by rt state p l1 stopped,
        redactor_passed_by rt state p l1 stopped,
        forwarded_same p.decision state (unrewritten rt l),
      )
      refl

hash-inspect_node :
    (rt : Runtime) (q : NodeCall) (state : Fields) (l : Lens)
    → (inspect_node rt q state l).0.state_hash ≡ some (hash_state rt state)
unfolding inspect_node observe_node
hash-inspect_node rt q state l = refl

pub kept_config :
    (rt : Runtime) (q : NodeCall) (state : Fields) (ds : List Detection) (l : Lens)
    → (extend_buffer q.thread_id ds (inspect_node rt q state l).1).config ≡ l.config
unfolding extend_buffer inspect_node observe_node emit correlation_for auto_scan scan_attack_surface
    remember_intent remember_size
kept_config rt q state ds l = ground arith

-- A node that the breaker does not admit is blocked, whatever the goal guard and the redactor would
-- say: with no mark in the state asked for, the result is a decision to block, the caller's state is
-- as it was, and the event is that of the state itself, not of a rewritten one.
pub decide_node_blocked :
    (rt : Runtime) (q : NodeCall) (state : Fields) (l : Lens)
    → admits (rt.clock l.ticks_read) l.circuit_breaker ≡ false
    → l.config.tier2.audit_signaling.stamp_state ≡ false
    → (r : NodeResult) × ((decide_node rt q state l).0 ≡ some r)
      × (r.decision.action ≡ block)
      × (r.state ≡ state)
      × (r.event.state_hash ≡ some (hash_state rt state))
decide_node_blocked rt q state l refused plain =
    let (p, l1) = ask_breaker rt l in
    let stopped : is_terminal p.decision ≡ true =
      ground (arith, refused, terminal-ask_breaker rt l) in
    let (e, l2) = inspect_node rt q state l1 in
    let l3 = report rt p.decision p.extra (extend_buffer q.thread_id p.extra l2) in
    let same = decide_node_refused rt q state l stopped in
    let asked_config : l1.config ≡ l.config = unfold ask_breaker in refl in
    let config = kept_config rt q state p.extra l1 ∙ asked_config in
    let unmarked : l3.config.tier2.audit_signaling.stamp_state ≡ false = rw config plain in
    (
      record {
        decision = stamp l3.config.tier2.audit_signaling p.decision;
        event = extend p.extra e;
        state = state;
      },
      rw same
          (finish_unmarked rt p.decision (extend p.extra e) state l3 unmarked (unrewritten rt l)),
      action-stamp _ p.decision ∙ ground (arith, stopped),
      refl,
      hash-inspect_node rt q state l1,
    )

abbrev start : Partial
start = record { decision = pass; extra = [] }

breaker_off :
    (rt : Runtime) (l : Lens)
    → l.circuit_breaker.config.enabled ≡ false
    → ask_breaker rt l ≡ (start, record l { ticks_read = l.ticks_read + 1 })
unfolding ask_breaker merge evaluate_request
breaker_off rt l off = simp off

guard_off :
    (rt : Runtime) (q : NodeCall) (state : Fields) (l : Lens)
    → l.config.tier2.goal_guard.enabled ≡ false
    → ask_goal_guard rt q state start l ≡ (start, l)
unfolding ask_goal_guard merge signal_attacks GoalGuard.evaluate
guard_off rt q state l off = ground (arith, off)

redactor_off :
    (rt : Runtime) (state : Fields) (l : Lens)
    → l.config.tier2.pii_redaction.enabled ≡ false
    → ask_redactor rt state start l ≡ start
unfolding ask_redactor merge PiiRedactor.evaluate
redactor_off rt state l off = simp off

copy_off :
    (rt : Runtime) (state : Fields) (p : Partial) (l : Lens)
    → l.config.tier2.pii_redaction.enabled ≡ false
    → copy_fails rt state p l ≡ false
unfolding copy_fails
copy_off rt state p l off = ground (arith, off)

finish_off :
    (rt : Runtime) (e : Event) (state : Fields) (l : Lens)
    → l.config.tier2.audit_signaling.enabled ≡ false
    → finish_node rt pass e state l ≡ some (record { decision = pass; event = e; state = state })
unfolding finish_node stamp_state stamp
finish_off rt e state l off = ground (arith, off)

-- With the breaker, the goal guard, the redactor and the audit off, which is the default,
-- `decide_node` is `inspect_node`: the decision is to allow, the state is the caller's, and the
-- event is that of the inspection, to which nothing is added.
pub decide_node_off :
    (rt : Runtime) (q : NodeCall) (state : Fields) (l : Lens)
    → l.circuit_breaker.config.enabled ≡ false
    → l.config.tier2.goal_guard.enabled ≡ false
    → l.config.tier2.pii_redaction.enabled ≡ false
    → l.config.tier2.audit_signaling.enabled ≡ false
    → let (e, l') = inspect_node rt q state (record l { ticks_read = l.ticks_read + 1 }) in
      decide_node rt q state l ≡ (
        some (record { decision = pass; event = extend [] e; state = state }),
        report rt pass [] (extend_buffer q.thread_id [] l'),
      )
decide_node_off rt q state l breaker guard redactor audit =
    let l1 : Lens = record l { ticks_read = l.ticks_read + 1 } in
    let (e, l') = inspect_node rt q state l1 in
    let l3 = report rt pass [] (extend_buffer q.thread_id [] l') in
    let config : l3.config ≡ l.config = kept_config rt q state [] l1 in
    let unaudited : l3.config.tier2.audit_signaling.enabled ≡ false = rw config audit in
    unfold decide_node in
    rw
      (
        breaker_off rt l breaker,
        guard_off rt q state l1 guard,
        copy_off rt state start l1 redactor,
        redactor_off rt state l1 redactor,
      )
      (ap (λ r. (r, l3)) (finish_off rt (extend [] e) state l3 unaudited))
