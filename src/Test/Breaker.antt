-- ===== src/Test/Breaker.antt =====
-- The circuit breaker at small inputs.
use langgraph_lens.Prelude.{◌<◌, ◌≡◌, refl, true, some, [], ◌∷◌, arith, All}
use langgraph_lens.Time.{ticks}
use langgraph_lens.Event.{high, critical}
use langgraph_lens.Decision.{block, allow}
use langgraph_lens.Window.{recent}
use langgraph_lens.Window.Laws.{IsWindow, empty-IsWindow}
use langgraph_lens.Breaker.{
  Breaker, CircuitBreakerConfig, half_open, open_state, init, evaluate_request, record_response,
  record_attack_signal,
}
use langgraph_lens.Breaker.History.{
  errors_among, at_least, severe_among, record_response_refines, record_attack_signal_refines,
}
use langgraph_lens.Breaker.Gate.{
  evaluate_request-admits, retry_after_exact, requests, requests_while_probing,
}

abbrev pub config : CircuitBreakerConfig
config = record {
  enabled = true;
  window_seconds = 60;
  min_samples = 1;
  error_rate_threshold = record { num = 1; den = 2 };
  cooldown_seconds = 30;
  fail_closed_on_attack = true;
  fail_closed_min_severity = high;
  fail_closed_attack_window_seconds = 60;
  fail_closed_min_attack_signals = 1;
}

abbrev pub fresh : Breaker
fresh = init config

abbrev pub opened : Breaker
opened = record fresh { state = open_state; opened_at = 5 }

abbrev probing : Breaker
probing = record fresh { state = half_open; half_open_probes_inflight = 1 }

record_response_refines_example :
    IsWindow (ticks 60) (record_response 7 true fresh).calls 7 ((7, true) ∷ [])
    × ((record_response 7 true fresh).state ≡ open_state)
unfolding recent errors_among
record_response_refines_example =
    record_response_refines fresh 3 7 true [] refl (empty-IsWindow _ 3) (omega arith)

record_attack_signal_refines_example :
    IsWindow (ticks 60) (record_attack_signal 7 critical fresh).attacks 7 ((7, critical) ∷ [])
    × ((record_attack_signal 7 critical fresh).state ≡ open_state)
unfolding recent at_least severe_among
record_attack_signal_refines_example =
    record_attack_signal_refines fresh 3 7 critical [] refl refl (empty-IsWindow _ 3) (omega arith)

evaluate_request-admits_example :
    ((evaluate_request 6 opened).0.action ≡ block)
    × ((evaluate_request 6 opened).0.status_code ≡ some 503)
evaluate_request-admits_example = evaluate_request-admits 6 opened

retry_after_exact_example :
    (0 < 29999999) × ((evaluate_request 30000005 (evaluate_request 6 opened).2).0.action ≡ allow)
unfolding evaluate_request
retry_after_exact_example =
    retry_after_exact 6 30000005 29999999 opened refl refl (omega arith) refl

requests_while_probing_example :
    All (λ d. d.action ≡ block) (requests (9 ∷ 90000000 ∷ []) probing).0
    × ((requests (9 ∷ 90000000 ∷ []) probing).1 ≡ probing)
requests_while_probing_example =
    requests_while_probing (9 ∷ 90000000 ∷ []) probing refl refl (omega arith)
