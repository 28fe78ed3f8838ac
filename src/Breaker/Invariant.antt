-- ===== src/Breaker/Invariant.antt =====
-- The breaker under any sequence of calls: reachable states and the probes in flight.
use langgraph_lens.Prelude.{ℕ, ◌≤◌, ◌≡◌, refl, Bool, arith}
use langgraph_lens.Event.{Severity}
use langgraph_lens.Breaker.{
  Breaker, CircuitBreakerConfig, closed, init, evaluate_request, record_response,
  record_attack_signal,
}

-- A call of one of the three public methods, with its reading of the clock.
pub data Call : Type 0 where
  request : ℕ → Call
  response : ℕ → Bool → Call
  attack : ℕ → Severity → Call

unfoldable pub after : Breaker → Call → Breaker
after b (request now) = (evaluate_request now b).2
after b (response now error) = record_response now error b
after b (attack now severity) = record_attack_signal now severity b

pub data Reach (config : CircuitBreakerConfig) : Breaker → Type 0 where
  start : Reach config (init config)
  next : {b : Breaker} → Reach config b → (c : Call) → Reach config (after b c)

pub record Inv (config : CircuitBreakerConfig) (b : Breaker) : Type 0 where
  pub same_config : b.config ≡ config
  pub one_probe : b.half_open_probes_inflight ≤ 1
  pub none_closed : b.state ≡ closed → b.half_open_probes_inflight ≡ 0

pub after-Inv :
    (config : CircuitBreakerConfig) (b : Breaker) (c : Call) → Inv config b → Inv config (after b c)
unfolding after evaluate_request record_response record_attack_signal
after-Inv config b (request now) h = ground arith
after-Inv config b (response now error) h = ground arith
after-Inv config b (attack now severity) h = ground arith

-- In every state that calls can reach, whatever the clock says, at most one probe is in flight, and
-- none while the breaker is closed.
pub Reach-Inv : {config : CircuitBreakerConfig} {b : Breaker} → Reach config b → Inv config b
Reach-Inv start = record { same_config = refl; one_probe = omega arith; none_closed = λ e. refl }
Reach-Inv (next {b} r c) = after-Inv _ b c (Reach-Inv r)
