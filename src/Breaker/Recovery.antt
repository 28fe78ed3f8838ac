-- ===== src/Breaker/Recovery.antt =====
-- How an open breaker comes back: the probe behind the cooldown, and what its outcome does.
use langgraph_lens.Prelude.{ℕ, ◌+◌, ◌≤◌, ◌≡◌, leb, Bool, true, false, arith, if◌then◌else◌}
use langgraph_lens.Time.{ticks}
use langgraph_lens.Decision.{allow}
use langgraph_lens.Breaker.{Breaker, closed, open_state, evaluate_request, record_response}
use langgraph_lens.Breaker.Gate.{admits}

-- An enabled open breaker whose cooldown is over admits a probe. If the probe's outcome is a success,
-- recorded at whatever time, the breaker is closed and admits every request from then on until an
-- error or an attack is recorded; if it is an error, the breaker is open, from that time on, and admits
-- again exactly when a whole cooldown from then is over.
pub probe_settles :
    (now later : ℕ) (error : Bool) (b : Breaker)
    → b.config.enabled ≡ true
    → b.state ≡ open_state
    → b.opened_at + ticks b.config.cooldown_seconds ≤ now
    → let (d, ds, b1) = evaluate_request now b in
      let b2 = record_response later error b1 in
      (d.action ≡ allow)
      × (b2.state ≡ (if error then open_state else closed))
      × ((t : ℕ)
          → admits t b2 ≡ (if error then leb (later + ticks b.config.cooldown_seconds) t else true))
unfolding evaluate_request record_response
probe_settles now later true b on is_open over = (
  ground (arith, on, is_open, over),
  ground (arith, on, is_open, over),
  λ t. ground (arith, on, is_open, over),
)
probe_settles now later false b on is_open over = (
  ground (arith, on, is_open, over),
  ground (arith, on, is_open, over),
  λ t. ground (arith, on, is_open, over),
)
