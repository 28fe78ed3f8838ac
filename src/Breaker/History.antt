-- ===== src/Breaker/History.antt =====
-- The breaker against the history of all outcomes and attack signals, of which its two deques are
-- windows.
use langgraph_lens.Prelude.{
  ℕ, ◌+◌, ◌*◌, ◌≤◌, ◌≡◌, refl, Bool, true, false, ◌&&◌, List, [], ◌∷◌, ◌++◌, arith, leb, length,
  count, if◌then◌else◌,
}
use langgraph_lens.Time.{ticks}
use langgraph_lens.Event.{Severity, low, medium, high, critical}
use langgraph_lens.Window.{gc, push, recent}
use langgraph_lens.Window.Laws.{IsWindow, push-IsWindow, gc-IsWindow}
use langgraph_lens.Breaker.{
  Breaker, State, closed, half_open, open_state, record_response, record_attack_signal, is_strong,
  is_error, severity_rank,
}

-- The number of errors among the outcomes.
unfoldable pub errors_among : List (ℕ × Bool) → ℕ
errors_among [] = 0
errors_among ((t, true) ∷ h) = 1 + errors_among h
errors_among ((t, false) ∷ h) = errors_among h

count-errors_among : (h : List (ℕ × Bool)) → count is_error h ≡ errors_among h
unfolding errors_among
count-errors_among [] = refl
count-errors_among ((t, true) ∷ h) = ground (arith, count-errors_among h)
count-errors_among ((t, false) ∷ h) = ground (arith, count-errors_among h)

-- What a closed breaker with the outcomes `h` has to open on at `now`: the window holds enough
-- samples, and the errors over the samples are at least the threshold.
abbrev pub trips : Breaker → ℕ → List (ℕ × Bool) → Bool
trips b now h =
    let w = recent (ticks b.config.window_seconds) now h in
    let threshold = b.config.error_rate_threshold in
    leb b.config.min_samples (length w)
    && leb (threshold.num * length w) (errors_among w * threshold.den)

-- The state after an outcome `error`, where `trip` says whether a closed breaker opens.
abbrev pub responded : State → Bool → Bool → State
responded closed error trip = if trip then open_state else closed
responded half_open error trip = if error then open_state else closed
responded open_state error trip = open_state

module _ (b : Breaker) (last now : ℕ) (error : Bool) (h : List (ℕ × Bool))
    (on : b.config.enabled ≡ true) (w : IsWindow (ticks b.config.window_seconds) b.calls last h)
    (later : last ≤ now) where
  pushed :
      IsWindow
        (ticks b.config.window_seconds)
        (push (ticks b.config.window_seconds) now error b.calls)
        now
        (h ++ (now, error) ∷ [])
  pushed = push-IsWindow (ticks b.config.window_seconds) last now error b.calls h w later

  collected_again :
      gc
        (ticks b.config.window_seconds)
        now
        (push (ticks b.config.window_seconds) now error b.calls)
      ≡ push (ticks b.config.window_seconds) now error b.calls
  collected_again = gc-IsWindow (ticks b.config.window_seconds) now _ _ pushed

  calls-record_response :
      (record_response now error b).calls ≡ push (ticks b.config.window_seconds) now error b.calls
  unfolding record_response
  calls-record_response = ground (arith, collected_again)

  state-record_response :
      (record_response now error b).state
      ≡ responded b.state error (trips b now (h ++ (now, error) ∷ []))
  unfolding record_response
  state-record_response =
      let samples = recent (ticks b.config.window_seconds) now (h ++ (now, error) ∷ []) in
      ground (arith, collected_again, pushed.is_recent_part, count-errors_among samples)

  -- On a clock that is not set back, an outcome recorded on an enabled breaker leaves the deque the
  -- window of the history of outcomes, and moves the state: a closed breaker opens exactly if that
  -- window, the new outcome included, holds at least `min_samples` outcomes and the share of errors
  -- among them is at least the threshold; a half-open one closes on a success and opens on an error;
  -- an open one stays open.
  pub record_response_refines :
      IsWindow
        (ticks b.config.window_seconds)
        (record_response now error b).calls
        now
        (h ++ (now, error) ∷ [])
      × ((record_response now error b).state
          ≡ responded b.state error (trips b now (h ++ (now, error) ∷ [])))
  record_response_refines = (rw calls-record_response pushed, state-record_response)

-- A severity is the given one or a higher one.
unfoldable pub at_least : Severity → Severity → Bool
at_least low s = true
at_least medium low = false
at_least medium medium = true
at_least medium high = true
at_least medium critical = true
at_least high low = false
at_least high medium = false
at_least high high = true
at_least high critical = true
at_least critical low = false
at_least critical medium = false
at_least critical high = false
at_least critical critical = true

at_least-severity_rank : (t s : Severity) → leb (severity_rank t) (severity_rank s) ≡ at_least t s
unfolding at_least
at_least-severity_rank low low = refl
at_least-severity_rank low medium = refl
at_least-severity_rank low high = refl
at_least-severity_rank low critical = refl
at_least-severity_rank medium low = refl
at_least-severity_rank medium medium = refl
at_least-severity_rank medium high = refl
at_least-severity_rank medium critical = refl
at_least-severity_rank high low = refl
at_least-severity_rank high medium = refl
at_least-severity_rank high high = refl
at_least-severity_rank high critical = refl
at_least-severity_rank critical low = refl
at_least-severity_rank critical medium = refl
at_least-severity_rank critical high = refl
at_least-severity_rank critical critical = refl

-- The number of signals that are severe enough.
unfoldable pub severe_among : Severity → List (ℕ × Severity) → ℕ
severe_among t [] = 0
severe_among t ((at, s) ∷ h) = if at_least t s then 1 + severe_among t h else severe_among t h

count-severe_among :
    (t : Severity) (h : List (ℕ × Severity)) → count (is_strong t) h ≡ severe_among t h
unfolding severe_among
count-severe_among t [] = refl
count-severe_among t ((at, s) ∷ h) =
    ground (arith, at_least-severity_rank t s, count-severe_among t h)

-- What an attack signal has to open a breaker on.
abbrev pub alarms : Breaker → ℕ → Severity → List (ℕ × Severity) → Bool
alarms b now severity h =
    let threshold = b.config.fail_closed_min_severity in
    at_least threshold severity
    && leb b.config.fail_closed_min_attack_signals
        (severe_among threshold (recent (ticks b.config.fail_closed_attack_window_seconds) now h))

module _ (b : Breaker) (last now : ℕ) (severity : Severity) (h : List (ℕ × Severity))
    (on : b.config.enabled ≡ true) (guarded : b.config.fail_closed_on_attack ≡ true)
    (w : IsWindow (ticks b.config.fail_closed_attack_window_seconds) b.attacks last h)
    (later : last ≤ now) where
  signalled :
      IsWindow
        (ticks b.config.fail_closed_attack_window_seconds)
        (push (ticks b.config.fail_closed_attack_window_seconds) now severity b.attacks)
        now
        (h ++ (now, severity) ∷ [])
  signalled =
      push-IsWindow (ticks b.config.fail_closed_attack_window_seconds) last now severity b.attacks h
        w later

  attacks-record_attack_signal :
      (record_attack_signal now severity b).attacks
      ≡ push (ticks b.config.fail_closed_attack_window_seconds) now severity b.attacks
  unfolding record_attack_signal
  attacks-record_attack_signal = ground arith

  state-record_attack_signal :
      (record_attack_signal now severity b).state
      ≡ (if alarms b now severity (h ++ (now, severity) ∷ []) then open_state else b.state)
  unfolding record_attack_signal
  state-record_attack_signal =
      let threshold = b.config.fail_closed_min_severity in
      let signals =
        recent (ticks b.config.fail_closed_attack_window_seconds) now (h ++ (now, severity) ∷ []) in
      ground (
        arith,
        signalled.is_recent_part,
        at_least-severity_rank threshold severity,
        count-severe_among threshold signals,
      )

  -- On a clock that is not set back, an attack signal on an enabled breaker with
  -- `fail_closed_on_attack` leaves the deque the window of all signals, and opens the breaker exactly
  -- if the new signal itself is at least of the configured severity and the window, the new signal
  -- included, holds at least the configured number of signals that are; otherwise the state stays as
  -- it was.
  pub record_attack_signal_refines :
      IsWindow
        (ticks b.config.fail_closed_attack_window_seconds)
        (record_attack_signal now severity b).attacks
        now
        (h ++ (now, severity) ∷ [])
      × ((record_attack_signal now severity b).state
          ≡ (if alarms b now severity (h ++ (now, severity) ∷ []) then open_state else b.state))
  record_attack_signal_refines =
      (rw attacks-record_attack_signal signalled, state-record_attack_signal)
