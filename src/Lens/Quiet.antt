-- ===== src/Lens/Quiet.antt =====
-- lens.py, `_emit`: with a web hook to which no post raises more than the source drops, no exception of
-- an alert leaves `_emit` within `decide_node`.
use langgraph_lens.Prelude.{
  ℕ, String, ◌≡◌, refl, ◌∙◌, false, Option, List, [], ◌∷◌, arith, Bool-cases, inl, inr,
}
use langgraph_lens.Runtime.{Runtime}
use langgraph_lens.Value.{Fields}
use langgraph_lens.Event.{Event, Detection}
use langgraph_lens.Alerts.{Hook, AlertSender, calm, send, send_kinds, maybe_send, relevant}
use langgraph_lens.Lens.{Lens, alerted, emit, correlation_for}
use langgraph_lens.Lens.Scan.{auto_scan, scan_attack_surface}
use langgraph_lens.Lens.Outcome.{extend_buffer}
use langgraph_lens.Lens.Inspect.{
  NodeCall, remember_intent, remember_size, observe_node, inspect_node,
}
use langgraph_lens.Lens.Decide.{
  Partial, signal_attacks, ask_breaker, ask_goal_guard, ask_redactor, forwarded, copy_fails,
  decide_node,
}

-- No post raises but what the source drops.
abbrev pub IsQuiet : Hook → Type 0
IsQuiet hook = (webhook body : String) (now : ℕ) → hook webhook body now ≡ false

raised-send_kinds :
    (hook : Hook) (now : ℕ) (e : Event) (kinds : List String) (a : AlertSender)
    → IsQuiet hook
    → a.raised ≡ false
    → (send_kinds hook now e kinds a).raised ≡ false
unfolding send_kinds send
raised-send_kinds hook now e [] a quiet h = h
raised-send_kinds hook now e (kind ∷ kinds) a quiet h =
    let a' = send hook now e kind a in
    let next : a'.raised ≡ false = quiet _ _ now in
    ground (
      arith,
      h,
      next,
      raised-send_kinds hook now e kinds a quiet h,
      raised-send_kinds hook now e kinds a' quiet next,
    )

raised-alerted :
    (hook : Hook) (now : ℕ) (e : Event) (ds : List Detection) (a : AlertSender)
    → IsQuiet hook
    → (alerted hook now e ds a).raised ≡ false
unfolding alerted maybe_send
raised-alerted hook now e [] a quiet = refl
raised-alerted hook now e (d ∷ ds) a quiet =
    ground (arith, raised-send_kinds hook now e (relevant a.config e) (calm a) quiet refl)

module _ (rt : Runtime) (quiet : IsQuiet rt.post_raises) where
  raised-emit : (e : Event) (l : Lens) → (emit rt e l).alerts.raised ≡ l.alerts.raised
  unfolding emit
  raised-emit e l =
      ground
        (arith, raised-alerted rt.post_raises (rt.clock l.ticks_read) e e.detections l.alerts quiet)

  raised-auto_scan : (l : Lens) → (auto_scan rt l).alerts.raised ≡ l.alerts.raised
  unfolding auto_scan scan_attack_surface
  raised-auto_scan l = elim (Bool-cases l.attack_surface_scanned) [
    | inl done ↦ rw done refl
    | inr first ↦ rw first (raised-emit _ _)
  ]

  raised-remembered :
      (thread_id : Option String) (state : Fields) (l : Lens)
      → (remember_size rt thread_id state (remember_intent rt thread_id state l)).alerts.raised
        ≡ l.alerts.raised
  unfolding remember_size remember_intent
  raised-remembered thread_id state l = ground arith

  raised-correlation_for :
      (run_id thread_id : Option String) (l : Lens)
      → (correlation_for rt run_id thread_id l).1.alerts.raised ≡ l.alerts.raised
  unfolding correlation_for
  raised-correlation_for run_id thread_id l = ground arith

  raised-inspect_node :
      (q : NodeCall) (state : Fields) (l : Lens)
      → (inspect_node rt q state l).1.alerts.raised ≡ l.alerts.raised
  unfolding inspect_node observe_node
  raised-inspect_node q state l =
      let l1 = (correlation_for rt q.run_id q.thread_id l).1 in
      raised-emit _ _
      ∙ (raised-remembered q.thread_id state (auto_scan rt l1)
          ∙ (raised-auto_scan l1 ∙ raised-correlation_for q.run_id q.thread_id l))

  raised-signal_attacks :
      (ds : List Detection) (l : Lens) → (signal_attacks rt ds l).alerts.raised ≡ l.alerts.raised
  unfolding signal_attacks
  raised-signal_attacks [] l = refl
  raised-signal_attacks (d ∷ ds) l = raised-signal_attacks ds _

  raised-ask_goal_guard :
      (q : NodeCall) (state : Fields) (p : Partial) (l : Lens)
      → (ask_goal_guard rt q state p l).1.alerts.raised ≡ l.alerts.raised
  unfolding ask_goal_guard
  raised-ask_goal_guard q state p l = grind (arith, raised-signal_attacks)

  raised-extend_buffer :
      (thread_id : Option String) (ds : List Detection) (l : Lens)
      → (extend_buffer thread_id ds l).alerts.raised ≡ l.alerts.raised
  unfolding extend_buffer
  raised-extend_buffer thread_id ds l = ground arith

  pub raised-decide_node :
      (q : NodeCall) (state : Fields) (l : Lens)
      → (decide_node rt q state l).1.alerts.raised ≡ l.alerts.raised
  unfolding decide_node ask_breaker
  raised-decide_node q state l =
      let (p1, l1) = ask_breaker rt l in
      let (p2, l2) = ask_goal_guard rt q state p1 l1 in
      let p = ask_redactor rt state p2 l2 in
      let l3 = (inspect_node rt q (forwarded p.decision state) l2).1 in
      let asked = raised-ask_goal_guard q state p1 l1 in
      let inspected = raised-inspect_node q (forwarded p.decision state) l2 in
      elim (Bool-cases (copy_fails rt state p2 l2)) [
        | inl raises ↦ rw raises asked
        | inr goes_on ↦
            rw goes_on (raised-extend_buffer q.thread_id p.extra l3 ∙ (inspected ∙ asked))
      ]
