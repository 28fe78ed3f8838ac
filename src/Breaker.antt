-- ===== src/Breaker.antt =====
-- interventions/circuit_breaker.py: the three-state breaker. Each method takes the reading of the
-- clock that it makes.
pub mod Invariant
pub mod History
pub mod Gate
pub mod Recovery
use langgraph_lens.Prelude.{
  ℕ, ◌+◌, ◌-◌, ◌*◌, String, Bool, true, false, not, ◌&&◌, ◌||◌, none, some, List, [], ◌∷◌, ltb, leb,
  length, count, if◌then◌else◌,
}
use langgraph_lens.Time.{Fraction, ticks}
use langgraph_lens.Event.{Severity, low, medium, high, critical, Detection}
use langgraph_lens.Decision.{LensDecision, block, pass}
use langgraph_lens.Window.{gc, push}

-- `CircuitBreakerConfig` of config.py. The threshold is the fraction that its float stands for.
pub record CircuitBreakerConfig : Type 0 where
  pub enabled : Bool
  pub window_seconds : ℕ
  pub min_samples : ℕ
  pub error_rate_threshold : Fraction
  pub cooldown_seconds : ℕ
  pub fail_closed_on_attack : Bool
  pub fail_closed_min_severity : Severity
  pub fail_closed_attack_window_seconds : ℕ
  pub fail_closed_min_attack_signals : ℕ

pub data State : Type 0 where
  closed half_open open_state : State

-- `state_value`
abbrev pub state_value : State → ℕ
state_value closed = 0
state_value half_open = 1
state_value open_state = 2

abbrev pub severity_rank : Severity → ℕ
severity_rank low = 0
severity_rank medium = 1
severity_rank high = 2
severity_rank critical = 3

pub record Breaker : Type 0 where
  pub config : CircuitBreakerConfig
  pub state : State
  pub opened_at : ℕ
  pub calls : List (ℕ × Bool)
  pub attacks : List (ℕ × Severity)
  pub half_open_probes_inflight : ℕ

abbrev pub init : CircuitBreakerConfig → Breaker
init config = record {
  config = config;
  state = closed;
  opened_at = 0;
  calls = [];
  attacks = [];
  half_open_probes_inflight = 0;
}

abbrev pub is_open : State → Bool
is_open open_state = true
is_open _ = false

abbrev pub is_half_open : State → Bool
is_half_open half_open = true
is_half_open _ = false

abbrev pub is_closed : State → Bool
is_closed closed = true
is_closed _ = false

-- `_open`, `_close`
abbrev pub open_at : ℕ → Breaker → Breaker
open_at now b = record b { state = open_state; opened_at = now }

abbrev pub close : Breaker → Breaker
close b = record b { state = closed; half_open_probes_inflight = 0 }

-- `_maybe_transition_from_open`
unfoldable pub maybe_transition_from_open : ℕ → Breaker → Breaker
maybe_transition_from_open now b =
    if is_open b.state && leb (b.opened_at + ticks b.config.cooldown_seconds) now
    then record b { state = half_open; half_open_probes_inflight = 0 }
    else b

abbrev pub open_detection : Detection
open_detection = record { detector = "circuit_breaker"; rule = "open"; severity = high; extra = [] }

-- The decision while open: `retry_after` is what is left of the cooldown, at least 0.
abbrev pub open_decision : ℕ → Breaker → LensDecision
open_decision now b = record pass {
  action = block;
  reason = some "circuit_open";
  triggered_by = "circuit_breaker.open" ∷ [];
  status_code = some 503;
  retry_after =
      some (record { num = b.opened_at + ticks b.config.cooldown_seconds - now; den = 1 });
}

abbrev pub half_open_decision : LensDecision
half_open_decision = record pass {
  action = block;
  reason = some "circuit_half_open";
  triggered_by = "circuit_breaker.half_open" ∷ [];
  status_code = some 503;
}

-- `evaluate_request`, after the transition
unfoldable pub gate : ℕ → Breaker → LensDecision × List Detection × Breaker
gate now b =
    if is_open b.state
    then (open_decision now b, open_detection ∷ [], b)
    else if is_half_open b.state && ltb 0 b.half_open_probes_inflight
    then (half_open_decision, [], b)
    else if is_half_open b.state
    then (pass, [], record b { half_open_probes_inflight = b.half_open_probes_inflight + 1 })
    else (pass, [], b)

unfoldable pub evaluate_request : ℕ → Breaker → LensDecision × List Detection × Breaker
unfolding gate maybe_transition_from_open
evaluate_request now b =
    if not b.config.enabled then (pass, [], b) else gate now (maybe_transition_from_open now b)

-- `_gc`, `_gc_attacks`
abbrev pub gc_calls : ℕ → Breaker → Breaker
gc_calls now b = record b { calls = gc (ticks b.config.window_seconds) now b.calls }

-- `e` of an entry of `_calls`
abbrev pub is_error : ℕ × Bool → Bool
is_error (t, e) = e

-- `rate >= error_rate_threshold`, multiplied out; the list is not empty where this is asked.
abbrev pub rate_reached : Fraction → List (ℕ × Bool) → Bool
rate_reached threshold calls =
    leb (threshold.num * length calls) (count is_error calls * threshold.den)

-- `_should_trip`
unfoldable pub should_trip : ℕ → Breaker → Bool × Breaker
should_trip now b =
    let c = gc_calls now b in
    (
      not (ltb (length c.calls) c.config.min_samples)
          && rate_reached c.config.error_rate_threshold c.calls,
      c,
    )

-- `record_response`, after the append and the first `_gc`
unfoldable pub settle : ℕ → Bool → Breaker → Breaker
unfolding should_trip
settle now error b =
    if is_half_open b.state
    then (let p = record b { half_open_probes_inflight = b.half_open_probes_inflight - 1 } in
        if error then open_at now p else close p)
    else if is_closed b.state
    then (let (trip, c) = should_trip now b in if trip then open_at now c else c)
    else b

unfoldable pub record_response : ℕ → Bool → Breaker → Breaker
unfolding settle push
record_response now error b =
    if not b.config.enabled
    then b
    else settle now error
        (record b { calls = push (ticks b.config.window_seconds) now error b.calls })

-- `_SEVERITY_RANK[s] >= _rank(threshold)`
abbrev pub is_strong : Severity → ℕ × Severity → Bool
is_strong threshold (t, s) = leb (severity_rank threshold) (severity_rank s)

unfoldable pub record_attack_signal : ℕ → Severity → Breaker → Breaker
unfolding push
record_attack_signal now severity b =
    let threshold = b.config.fail_closed_min_severity in
    let c = record b {
      attacks = push (ticks b.config.fail_closed_attack_window_seconds) now severity b.attacks;
    } in
    if not b.config.enabled || not b.config.fail_closed_on_attack
    then b
    else if ltb (severity_rank severity) (severity_rank threshold)
    then c
    else if leb b.config.fail_closed_min_attack_signals (count (is_strong threshold) c.attacks)
    then open_at now c
    else c
