-- ===== src/Lens/Probe.antt =====
-- A probe of the breaker that another intervention refuses.
use langgraph_lens.Prelude.{ℕ, ◌≡◌, ◌∙◌, Bool, true, false, not, ◌&&◌, Option, String, arith}
use langgraph_lens.Runtime.{Runtime}
use langgraph_lens.Decision.{block, merge, is_terminal}
use langgraph_lens.Breaker.{Breaker, half_open, open_state, evaluate_request}
use langgraph_lens.Breaker.Gate.{admits}
use langgraph_lens.Tool
use langgraph_lens.Tool.{is_outside}
use langgraph_lens.Intervention.Verdict.{is_enforced, caught}
use langgraph_lens.Intervention.ToolAllowlist.Blocks.{evaluate_blocks, evaluate_quiet}
use langgraph_lens.Lens.{Lens}
use langgraph_lens.Lens.Inspect.{ToolCall}
use langgraph_lens.Lens.Refusal.{terminal-ask_breaker, asked, inspected, action-stamp}
use langgraph_lens.Lens.Decide.{
  Partial, ask_breaker, ask_allowlist, ask_limiter, intervene, decide_tool_call, signal_attacks,
}

probe_admitted :
    (now : ℕ) (b : Breaker)
    → b.config.enabled ≡ true
    → b.state ≡ open_state
    → admits now b ≡ true
    → ((evaluate_request now b).2.state ≡ half_open)
      × ((evaluate_request now b).2.half_open_probes_inflight ≡ 1)
unfolding evaluate_request
probe_admitted now b on shut over = ground arith

-- A tool call that is outside the allow-list, without a finding that is acted on.
abbrev pub only_outside : Runtime → ToolCall → Lens → Bool
only_outside rt q l =
    let c = l.config.tier2.tool_allowlist in
    c.enabled
    && (is_enforced c.mode
        && (is_outside q.tool c.allowed_tools
            && not (
                caught c.block_on_rules
                  (Tool.scan rt (rt.clock l.ticks_read) q.tool q.args c.allowed_tools q.thread_id
                    l.tool).0)))

refused_by_list :
    (rt : Runtime) (q : ToolCall) (p : Partial) (l : Lens)
    → is_terminal p.decision ≡ false
    → only_outside rt q l ≡ true
    → (is_terminal (ask_allowlist rt q p l).0.decision ≡ true)
      × ((ask_allowlist rt q p l).1.circuit_breaker ≡ l.circuit_breaker)
unfolding ask_allowlist merge signal_attacks
refused_by_list rt q p l running outside =
    let c = l.config.tier2.tool_allowlist in
    let now = rt.clock l.ticks_read in
    ground (
      arith,
      running,
      outside,
      evaluate_blocks rt now c q.tool q.args q.thread_id l.tool,
      evaluate_quiet rt now c q.tool q.args q.thread_id l.tool,
    )

limiter_passed_by :
    (rt : Runtime) (q : ToolCall) (tenant : Option String) (p : Partial) (l : Lens)
    → is_terminal p.decision ≡ true
    → ask_limiter rt q tenant p l ≡ (p, l)
unfolding ask_limiter
limiter_passed_by rt q tenant p l refused = ground (arith, refused)

-- A tool call that comes to an open breaker when the cooldown is over is its probe. If the
-- allow-list then refuses the call for its name only, the call is blocked, and the breaker is left
-- half-open with that probe in flight, although no outcome of it can come.
pub probe_lost :
    (rt : Runtime) (q : ToolCall) (tenant : Option String) (l : Lens)
    → l.circuit_breaker.config.enabled ≡ true
    → l.circuit_breaker.state ≡ open_state
    → admits (rt.clock l.ticks_read) l.circuit_breaker ≡ true
    → only_outside rt q (ask_breaker rt l).1 ≡ true
    → let (d, e, l') = decide_tool_call rt q tenant l in
      (d.action ≡ block)
      × (l'.circuit_breaker.state ≡ half_open)
      × (l'.circuit_breaker.half_open_probes_inflight ≡ 1)
unfolding decide_tool_call intervene
probe_lost rt q tenant l on shut over outside =
    let (p1, l1) = ask_breaker rt l in
    let running : is_terminal p1.decision ≡ false =
      ground (arith, terminal-ask_breaker rt l, over) in
    let (p2, l2) = ask_allowlist rt q p1 l1 in
    let stopped = refused_by_list rt q p1 l1 running outside in
    let kept = (inspected rt q p2.extra l2).1 ∙ stopped.1 ∙ (asked rt l).1 in
    let probing = probe_admitted (rt.clock l.ticks_read) l.circuit_breaker on shut over in
    rw (limiter_passed_by rt q tenant p2 l2 stopped.0)
      (action-stamp _ p2.decision ∙ ground (arith, stopped.0), rw kept probing.0, rw kept probing.1)
