-- ===== src/Lens/Refusal.antt =====
-- The interventions of a tool call: a refusal by the breaker, and every intervention off.
use langgraph_lens.Prelude.{◌+◌, ◌≡◌, refl, false, not, Option, none, String, List, [], arith}
use langgraph_lens.Runtime.{Runtime}
use langgraph_lens.Decision.{LensDecision, pass, merge, is_terminal}
use langgraph_lens.Breaker.{evaluate_request}
use langgraph_lens.Breaker.Gate.{admits, evaluate_request-admits}
use langgraph_lens.Decision.{with_audit_headers}
use langgraph_lens.Event.{Detection}
use langgraph_lens.Intervention.ToolAllowlist
use langgraph_lens.Intervention.Audit.{AuditSignalingConfig, stamp}
use langgraph_lens.RateLimiter
use langgraph_lens.Lens.{Lens, emit, correlation_for}
use langgraph_lens.Lens.Inspect.{ToolCall, inspect_tool_call}
use langgraph_lens.Lens.Decide.{ask_breaker, ask_allowlist, ask_limiter, intervene, signal_attacks}
use langgraph_lens.Lens.Outcome.{extend_buffer}

pub terminal-ask_breaker :
    (rt : Runtime) (l : Lens)
    → is_terminal (ask_breaker rt l).0.decision
      ≡ not (admits (rt.clock l.ticks_read) l.circuit_breaker)
unfolding ask_breaker merge
terminal-ask_breaker rt l =
    ground (arith, (evaluate_request-admits (rt.clock l.ticks_read) l.circuit_breaker).0)

pub intervene_refused :
    (rt : Runtime) (q : ToolCall) (tenant : Option String) (l : Lens)
    → admits (rt.clock l.ticks_read) l.circuit_breaker ≡ false
    → intervene rt q tenant l ≡ ask_breaker rt l
unfolding intervene ask_allowlist ask_limiter
intervene_refused rt q tenant l refused = ground (arith, refused, terminal-ask_breaker rt l)

pub action-stamp : (c : AuditSignalingConfig) (d : LensDecision) → (stamp c d).action ≡ d.action
unfolding stamp with_audit_headers
action-stamp c d = ground arith

-- What the inspection of a tool call leaves alone.
pub inspected :
    (rt : Runtime) (q : ToolCall) (ds : List Detection) (l : Lens)
    → let l' = extend_buffer q.thread_id ds (inspect_tool_call rt q none l).1 in
      (l'.rate_limiter ≡ l.rate_limiter) × (l'.circuit_breaker ≡ l.circuit_breaker)
unfolding extend_buffer inspect_tool_call emit correlation_for
inspected rt q ds l = ground arith

pub asked :
    (rt : Runtime) (l : Lens)
    → ((ask_breaker rt l).1.rate_limiter ≡ l.rate_limiter)
      × ((ask_breaker rt l).1.circuit_breaker
          ≡ (evaluate_request (rt.clock l.ticks_read) l.circuit_breaker).2)
unfolding ask_breaker
asked rt l = (refl, refl)

-- With the breaker, the allow-list and the rate limiter off, the interventions pass every tool call
-- without a detection and change nothing but the count of clock readings.
pub intervene_off :
    (rt : Runtime) (q : ToolCall) (tenant : Option String) (l : Lens)
    → l.circuit_breaker.config.enabled ≡ false
    → l.config.tier2.tool_allowlist.enabled ≡ false
    → l.rate_limiter.config.enabled ≡ false
    → intervene rt q tenant l
      ≡ (record { decision = pass; extra = [] }, record l { ticks_read = l.ticks_read + 1 + 1 + 1 })
unfolding intervene ask_breaker ask_allowlist ask_limiter merge signal_attacks
    ToolAllowlist.evaluate evaluate_request RateLimiter.evaluate
intervene_off rt q tenant l breaker list limiter = simp (breaker, list, limiter)
