-- ===== src/Lens/NodeVerdict.antt =====
-- lens.py: the action of `decide_node`, from what its three interventions find.
use langgraph_lens.Prelude.{
  String, ◌≡◌, refl, ap, sym, ◌∙◌, Bool, true, false, not, ◌&&◌, ◌||◌, Option, none, some, List, [],
  ◌∷◌, arith, if◌then◌else◌, string_eq, Bool-cases, Option-cases, inl, inr,
}
use langgraph_lens.Prelude.Dict.{get}
use langgraph_lens.Runtime.{Runtime}
use langgraph_lens.Text.{sorted_set, insert_sorted}
use langgraph_lens.Value.{Fields, end, field}
use langgraph_lens.Event.{Event, Detection}
use langgraph_lens.Decision.{is_block, Action, allow, redact, block, LensDecision, merge, is_empty}
use langgraph_lens.Breaker.{record_attack_signal}
use langgraph_lens.Breaker.Gate.{admits}
use langgraph_lens.Detector.GoalHijack
use langgraph_lens.Intervention.Verdict.{
  is_enforced, caught, is_terminal-conclude, is_empty-triggers,
}
use langgraph_lens.Intervention.{matching, triggers}
use langgraph_lens.Intervention.GoalGuard
use langgraph_lens.Intervention.GoalGuard.{GoalGuardConfig, judge}
use langgraph_lens.Intervention.PiiRedactor
use langgraph_lens.Intervention.PiiRedactor.{
  PiiRedactionConfig, RedactionMode, redact_mode, block_mode, scrub, scrub_fields, compiled, decide,
}
use langgraph_lens.Intervention.Audit.{stamp, stamp_state}
use langgraph_lens.Lens.{Lens, LensConfig, named, tick}
use langgraph_lens.Lens.Inspect.{NodeCall, inspect_node}
use langgraph_lens.Lens.Refusal.{action-stamp}
use langgraph_lens.Lens.Verdict.{action-ask_breaker, action-conclude}
use langgraph_lens.Lens.Nodes.{kept_config, guard_passed_by}
use langgraph_lens.Lens.Decide.{
  Partial, NodeResult, ask_breaker, ask_goal_guard, ask_redactor, forwarded, finish_node,
  copy_fails, decide_node, signal_attacks,
}
use langgraph_lens.Lens.Quiet.{IsQuiet, raised-decide_node}
use langgraph_lens.Lens.Outcome.{extend, report, extend_buffer}

-- The goal guard blocks: it is enabled and enforced, the intent of the user is known, and the goal
-- hijack detector reports one of the configured rules on the state.
abbrev pub guard_blocks : Runtime → Fields → Option String → LensConfig → Bool
guard_blocks rt state none config = false
guard_blocks rt state (some intent) config =
    let c = config.tier2.goal_guard in
    c.enabled
    && (is_enforced c.mode
        && caught c.block_on_rules (GoalHijack.scan rt config.goal_hijack state (some intent)))

-- What is remembered of the user's intent, for a named thread.
abbrev pub intent_of : NodeCall → Lens → Option String
intent_of q l = elim (named q.thread_id) [ none ↦ none | some t ↦ get t l.thread_user_intent ]

-- What the mode of the redactor makes of a hit.
abbrev pub hit_action : RedactionMode → Action
hit_action redact_mode = redact
hit_action block_mode = block

-- The action of the redactor: pass what is off or without a hit.
abbrev pub redaction : Runtime → Fields → PiiRedactionConfig → Action
redaction rt state c =
    if c.enabled && not (is_empty (scrub_fields (scrub rt (compiled rt c)) state).1)
    then hit_action c.mode
    else allow

insert_sorted_some : (x : String) (xs : List String) → is_empty (insert_sorted x xs) ≡ false
unfolding insert_sorted
insert_sorted_some x [] = refl
insert_sorted_some x (y ∷ ys) = ground arith

is_empty-sorted_set : (xs : List String) → is_empty (sorted_set xs) ≡ is_empty xs
unfolding sorted_set
is_empty-sorted_set [] = refl
is_empty-sorted_set (x ∷ xs) = insert_sorted_some x (sorted_set xs)

action-decide :
    (m : RedactionMode) (modified : Fields) (ts : List String)
    → (decide m modified ts).0.action ≡ (if is_empty ts then allow else hit_action m)
unfolding decide
action-decide m modified [] = refl
action-decide redact_mode modified (t ∷ ts) = refl
action-decide block_mode modified (t ∷ ts) = refl

action-redactor :
    (rt : Runtime) (state : Fields) (c : PiiRedactionConfig)
    → (PiiRedactor.evaluate rt c state).0.action ≡ redaction rt state c
unfolding PiiRedactor.evaluate
action-redactor rt state c =
    let (modified, hits) = scrub_fields (scrub rt (compiled rt c)) state in
    ground (arith, action-decide c.mode modified (sorted_set hits), is_empty-sorted_set hits)

action-judge :
    (c : GoalGuardConfig) (found : List Detection)
    → (judge c found).0.action
      ≡ (if is_enforced c.mode && caught c.block_on_rules found then block else allow)
unfolding judge
action-judge c found =
    let ds = matching c.block_on_rules found in
    let ts = triggers "goal_guard." ds in
    ground (
      arith,
      action-conclude c.mode "goal_hijack" 403 ts ds,
      is_terminal-conclude c.mode "goal_hijack" 403 ts ds,
      is_empty-triggers "goal_guard." c.block_on_rules found,
    )

action-guard :
    (rt : Runtime) (state : Fields) (intent : Option String) (l : Lens)
    → (GoalGuard.evaluate rt l.config.tier2.goal_guard l.config.goal_hijack state intent).0.action
      ≡ (if guard_blocks rt state intent l.config then block else allow)
unfolding GoalGuard.evaluate
action-guard rt state none l = refl
action-guard rt state (some intent) l = ground (
  arith,
  action-judge l.config.tier2.goal_guard
      (GoalHijack.scan rt l.config.goal_hijack state (some intent)),
)

config-signal_attacks :
    (rt : Runtime) (ds : List Detection) (l : Lens) → (signal_attacks rt ds l).config ≡ l.config
unfolding signal_attacks
config-signal_attacks rt [] l = refl
config-signal_attacks rt (d ∷ ds) l =
    let signal = record_attack_signal (rt.clock l.ticks_read) d.severity l.circuit_breaker in
    config-signal_attacks rt ds (tick (record l { circuit_breaker = signal }))

guarded :
    (rt : Runtime) (q : NodeCall) (state : Fields) (p : Partial) (l : Lens)
    → p.decision.action ≡ allow
    → let (p', l') = ask_goal_guard rt q state p l in
      (p'.decision.action
        ≡ (if guard_blocks rt state (intent_of q l) l.config then block else allow))
      × (l'.config ≡ l.config)
unfolding ask_goal_guard merge
guarded rt q state p l h = elim (Option-cases (named q.thread_id)) [
  | inl unnamed ↦ (ground (arith, unnamed, h), ground (arith, unnamed))
  | inr (t, there) ↦
      let intent = get t l.thread_user_intent in
      let ds =
        (GoalGuard.evaluate rt l.config.tier2.goal_guard l.config.goal_hijack state intent).1 in
      (
        ground (arith, there, h, action-guard rt state intent l),
        ground (arith, there, h, config-signal_attacks rt ds l),
      )
]

redacted :
    (rt : Runtime) (state : Fields) (p : Partial) (l : Lens) (blocked : Bool)
    → p.decision.action ≡ (if blocked then block else allow)
    → (ask_redactor rt state p l).decision.action
      ≡ (if blocked then block else redaction rt state l.config.tier2.pii_redaction)
unfolding ask_redactor merge
redacted rt state p l true h = ground (arith, h)
redacted rt state p l false h =
    ground (arith, h, action-redactor rt state l.config.tier2.pii_redaction)

finish_plain :
    (rt : Runtime) (d : LensDecision) (e : Event) (state : Fields) (l : Lens)
    → l.config.tier2.audit_signaling.stamp_state ≡ false
    → (r : NodeResult) × (finish_node rt d e state l ≡ some r) × (r.decision.action ≡ d.action)
unfolding finish_node stamp_state
finish_plain rt d e state l plain =
    let c = l.config.tier2.audit_signaling in
    elim (Option-cases d.modified_state) [
      | inl same ↦ (
        record { decision = stamp c d; event = e; state = state },
        ground (arith, plain, same),
        action-stamp c d,
      )
      | inr (end, empty) ↦ (
        record { decision = stamp c d; event = e; state = state },
        ground (arith, plain, empty),
        action-stamp c d,
      )
      | inr (field k v fs, full) ↦
          let rewritten = record d { modified_state = some (field k v fs) } in
          (
            record { decision = stamp c rewritten; event = e; state = state },
            ground (arith, plain, full),
            action-stamp c rewritten,
          )
    ]

-- The decision of the three interventions, before the inspection
node_decided :
    (rt : Runtime) (q : NodeCall) (state : Fields) (l : Lens)
    → let (p1, l1) = ask_breaker rt l in
      let (p2, l2) = ask_goal_guard rt q state p1 l1 in
      ((ask_redactor rt state p2 l2).decision.action ≡ (
        if not (admits (rt.clock l.ticks_read) l.circuit_breaker)
          || guard_blocks rt state (intent_of q l) l.config
        then block
        else redaction rt state l.config.tier2.pii_redaction))
      × (l2.config ≡ l.config)
unfolding ask_breaker
node_decided rt q state l =
    let (p1, l1) = ask_breaker rt l in
    let (p2, l2) = ask_goal_guard rt q state p1 l1 in
    elim (Bool-cases (admits (rt.clock l.ticks_read) l.circuit_breaker)) [
      | inl on ↦
          let passed : p1.decision.action ≡ allow = ground (arith, on, action-ask_breaker rt l) in
          let (verdict, same) = guarded rt q state p1 l1 passed in
          let last =
            redacted rt state p2 l2 (guard_blocks rt state (intent_of q l) l.config) verdict in
          (ground (arith, on, last, same), same)
      | inr off ↦
          let refused : p1.decision.action ≡ block = ground (arith, off, action-ask_breaker rt l) in
          let kept = guard_passed_by rt q state p1 l1 (ap is_block refused) in
          let stays : p2.decision.action ≡ block = ap (λ o. o.0.decision.action) kept ∙ refused in
          let last = redacted rt state p2 l2 true stays in
          (ground (arith, off, last), ap (λ o. o.1.config) kept)
    ]

copied :
    (rt : Runtime) (state : Fields) (p : Partial) (l : Lens)
    → (l.config.tier2.pii_redaction.enabled ≡ true → rt.copies state ≡ true)
    → copy_fails rt state p l ≡ false
unfolding copy_fails
copied rt state p l copy = elim (Bool-cases l.config.tier2.pii_redaction.enabled) [
  | inl on ↦ ground (arith, on, copy on)
  | inr off ↦ ground (arith, off)
]

-- If no mark in the state is asked for, an enabled redactor can copy the state, and no post to the web
-- hook raises more than the source drops, `decide_node` ends without an exception, of its own or of an
-- alert. Its action is to block if the breaker does not admit the call, or if the goal guard, enabled
-- and enforced, knows the user's intent and finds one of its rules on the state. Otherwise it is to
-- pass, if the redactor is off or has no hit in the state, and what the redactor's mode says of a hit
-- if not.
pub decide_node_action :
    (rt : Runtime) (q : NodeCall) (state : Fields) (l : Lens)
    → l.config.tier2.audit_signaling.stamp_state ≡ false
    → (l.config.tier2.pii_redaction.enabled ≡ true → rt.copies state ≡ true)
    → IsQuiet rt.post_raises
    → (r : NodeResult) × ((decide_node rt q state l).0 ≡ some r)
      × ((decide_node rt q state l).1.alerts.raised ≡ l.alerts.raised)
      × (r.decision.action ≡ (
          if not (admits (rt.clock l.ticks_read) l.circuit_breaker)
            || guard_blocks rt state (intent_of q l) l.config
          then block
          else redaction rt state l.config.tier2.pii_redaction))
unfolding decide_node
decide_node_action rt q state l plain copy quiet =
    let (p1, l1) = ask_breaker rt l in
    let (p2, l2) = ask_goal_guard rt q state p1 l1 in
    let p = ask_redactor rt state p2 l2 in
    let (decided, same) = node_decided rt q state l in
    let (e, l3) = inspect_node rt q (forwarded p.decision state) l2 in
    let l4 = report rt p.decision p.extra (extend_buffer q.thread_id p.extra l3) in
    let config = kept_config rt q (forwarded p.decision state) p.extra l2 ∙ same in
    let unmarked : l4.config.tier2.audit_signaling.stamp_state ≡ false =
      ap (λ c. c.tier2.audit_signaling.stamp_state) config ∙ plain in
    let (r, ends, action) = finish_plain rt p.decision (extend p.extra e) state l4 unmarked in
    let goes_on =
      copied rt state p2 l2
        (λ on. copy (ap (λ c. c.tier2.pii_redaction.enabled) (sym same) ∙ on)) in
    (r, rw goes_on ends, raised-decide_node rt quiet q state l, action ∙ decided)
