-- ===== src/Breaker/Gate.antt =====
-- `evaluate_request`: which requests pass, the length of a refusal, and a probe in flight.
use langgraph_lens.Prelude.{
  ℕ, ◌+◌, ◌≤◌, ◌<◌, ◌≡◌, refl, Bool, true, not, ◌||◌, some, none, List, [], ◌∷◌, arith, leb, eqb,
  if◌then◌else◌, All,
}
use langgraph_lens.Time.{ticks}
use langgraph_lens.Decision.{LensDecision, allow, block}
use langgraph_lens.Breaker.{Breaker, closed, half_open, open_state, evaluate_request, is_open}

-- The requests that the breaker lets pass: all while it is disabled or closed, while open those
-- that come when the cooldown is over, while half-open those that find no probe in flight.
abbrev pub admits : ℕ → Breaker → Bool
admits now b = not b.config.enabled || elim b.state [
  | closed ↦ true
  | half_open ↦ eqb b.half_open_probes_inflight 0
  | open_state ↦ leb (b.opened_at + ticks b.config.cooldown_seconds) now
]

-- A request passes exactly if it is admitted; any other is refused with status 503.
pub evaluate_request-admits :
    (now : ℕ) (b : Breaker)
    → let d = (evaluate_request now b).0 in
      (d.action ≡ (if admits now b then allow else block))
      × (d.status_code ≡ (if admits now b then none else some 503))
unfolding evaluate_request
evaluate_request-admits now b = ground arith

-- An enabled open breaker refuses with an exact `retry_after`: if it refuses at `now`, a request at
-- `later`, not earlier, passes exactly if the promised time is over by then.
pub retry_after_exact :
    (now later r : ℕ) (b : Breaker)
    → b.config.enabled ≡ true
    → b.state ≡ open_state
    → now ≤ later
    → (evaluate_request now b).0.retry_after ≡ some (record { num = r; den = 1 })
    → (0 < r)
      × ((evaluate_request later (evaluate_request now b).2).0.action
          ≡ (if leb (now + r) later then allow else block))
unfolding evaluate_request
retry_after_exact now later r b on is_open h e = ground arith

-- The requests of a list of times, one after the other.
pub requests : List ℕ → Breaker → List LensDecision × Breaker
requests [] b = ([], b)
requests (now ∷ times) b =
    let (d, dets, c) = evaluate_request now b in let (ds, e) = requests times c in (d ∷ ds, e)

refused_while_probing :
    (now : ℕ) (b : Breaker)
    → b.config.enabled ≡ true
    → b.state ≡ half_open
    → 0 < b.half_open_probes_inflight
    → ((evaluate_request now b).0.action ≡ block) × ((evaluate_request now b).2 ≡ b)
unfolding evaluate_request
refused_while_probing now b on half probing = ground arith

-- While an enabled breaker is half-open with a probe in flight, every request is refused and
-- changes nothing, however much time passes: only the recording of an outcome or of an attack
-- signal moves the breaker.
pub requests_while_probing :
    (times : List ℕ) (b : Breaker)
    → b.config.enabled ≡ true
    → b.state ≡ half_open
    → 0 < b.half_open_probes_inflight
    → All (λ d. d.action ≡ block) (requests times b).0 × ((requests times b).1 ≡ b)
unfolding requests
requests_while_probing [] b on half probing = (tt, refl)
requests_while_probing (now ∷ times) b on half probing =
    let (blocked, same) = refused_while_probing now b on half probing in
    rw same
      (let (rest, end) = requests_while_probing times b on half probing in ((blocked, rest), end))
