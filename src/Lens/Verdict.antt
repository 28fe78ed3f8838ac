-- ===== src/Lens/Verdict.antt =====
-- lens.py: the action of `decide_tool_call`, from what its three interventions find.
use langgraph_lens.Prelude.{
  ℕ, ◌+◌, ◌*◌, String, ◌≡◌, refl, Bool, not, ◌&&◌, ◌||◌, Option, List, [], ◌∷◌, length, arith,
  if◌then◌else◌, string_eq,
}
use langgraph_lens.Prelude.Dict.{get}
use langgraph_lens.Runtime.{Runtime}
use langgraph_lens.Args.{stringify_args}
use langgraph_lens.Event.{Detection}
use langgraph_lens.Decision.{Action, allow, throttle, block, merge, is_terminal}
use langgraph_lens.Breaker.Gate.{admits, evaluate_request-admits}
use langgraph_lens.RateLimiter
use langgraph_lens.RateLimiter.{
  Limiter, Mode, block_mode, throttle_mode, make_key, cost, refilled, affords, one_token, refusal,
}
use langgraph_lens.Tool
use langgraph_lens.Tool.{is_outside}
use langgraph_lens.Intervention.{conclude, PolicyMode, enforce_mode, log_mode}
use langgraph_lens.Intervention.Verdict.{is_enforced, caught}
use langgraph_lens.Intervention.ToolAllowlist
use langgraph_lens.Lens.{Lens}
use langgraph_lens.Lens.Inspect.{ToolCall}
use langgraph_lens.Lens.Decide.{ask_breaker}

-- The allow-list blocks the call: it is enabled and enforced, and the tool is outside the list or the
-- tool detector reports one of the configured rules.
abbrev pub list_blocks : Runtime → ToolCall → ℕ → Lens → Bool
list_blocks rt q now l =
    let c = l.config.tier2.tool_allowlist in
    c.enabled
    && (is_enforced c.mode
        && (is_outside q.tool c.allowed_tools
            || caught c.block_on_rules
                (Tool.scan rt now q.tool q.args c.allowed_tools q.thread_id l.tool).0))

-- What the allow-list reports; each of these reads the clock once more.
abbrev pub list_hits : Runtime → ToolCall → ℕ → Lens → List Detection
list_hits rt q now l =
    (ToolAllowlist.evaluate rt now l.config.tier2.tool_allowlist q.tool q.args q.thread_id l.tool).1

-- What the mode of the rate limiter makes of a refusal.
abbrev pub refused_action : Mode → Action
refused_action block_mode = block
refused_action throttle_mode = throttle

-- The action of an enabled limiter: pass what the refilled bucket of the key covers.
abbrev pub limited : Runtime → ToolCall → Option String → ℕ → Limiter → Action
limited rt q tenant now l =
    let bucket =
      refilled l.config now (get (make_key l.config q.tool q.thread_id tenant) l.buckets) in
    let price = cost l.config (stringify_args rt.float_repr q.args) * one_token in
    if not l.config.enabled || affords bucket price then allow else refused_action l.config.mode

pub action-conclude :
    (m : PolicyMode) (reason : String) (status : ℕ) (ts : List String) (ds : List Detection)
    → let d = (conclude m reason status ts ds).0 in
      d.action ≡ (if is_terminal d then block else allow)
unfolding conclude
action-conclude enforce_mode reason status [] ds = refl
action-conclude enforce_mode reason status (t ∷ ts) ds = refl
action-conclude log_mode reason status [] ds = refl
action-conclude log_mode reason status (t ∷ ts) ds = refl

pub action-ask_breaker :
    (rt : Runtime) (l : Lens)
    → (ask_breaker rt l).0.decision.action
      ≡ (if admits (rt.clock l.ticks_read) l.circuit_breaker then allow else block)
unfolding ask_breaker merge
action-ask_breaker rt l =
    ground (arith, (evaluate_request-admits (rt.clock l.ticks_read) l.circuit_breaker).0)

-- The time at which the limiter is asked: behind the breaker and the allow-list.
abbrev pub limiter_time : Runtime → ToolCall → Lens → ℕ
limiter_time rt q l =
    rt.clock (l.ticks_read + 1 + 1 + length (list_hits rt q (rt.clock (l.ticks_read + 1)) l))
