-- ===== src/Test/Nodes.antt =====
-- Nodes, templates and probes at small inputs.
use langgraph_lens.Prelude.{
  ℕ, ◌≤◌, length, ◌≡◌, ◌↔◌, refl, true, false, none, some, String, [], ◌∷◌, arith, string_eq,
  option_eq, ◌==◌, All,
}
use langgraph_lens.Prelude.Dict.{get}
use langgraph_lens.Text.{text_length}
use langgraph_lens.Value.{text, Fields, field, end}
use langgraph_lens.Decision.{allow, redact, merge}
use langgraph_lens.Intervention.GoalGuard
use langgraph_lens.Breaker.{closed, evaluate_request, record_response}
use langgraph_lens.Breaker.Gate.{admits}
use langgraph_lens.Breaker.Recovery.{probe_settles}
use langgraph_lens.Regex.{match_at, match_here, take_text}
use langgraph_lens.Regex.Segments.{
  substitute, segments, segments_from, match_length, advancing_length,
}
use langgraph_lens.Detector.Pii.{compile_all, compile_custom}
use langgraph_lens.Detector.Checkpoint.Opcodes.{reports}
use langgraph_lens.Detector.SupplyChain.{SupplyChainConfig, FileSystem, scan_path}
use langgraph_lens.Detector.SupplyChain.Reach.{IsRead, IsInjected, scan_path-IsInjected}
use langgraph_lens.Intervention.PiiRedactor
use langgraph_lens.Time.{ticks}
use langgraph_lens.Alerts.Cooldown.{spaced}
use langgraph_lens.Lens
use langgraph_lens.Lens.{Lens, LensConfig, named, events_for_thread}
use langgraph_lens.Event.{write_event}
use langgraph_lens.Lens.Scan.{environment_info, scan_attack_surface}
use langgraph_lens.Lens.Safe.History.{
  performs, perform, scan_surface, decide_on_node, upstream_result, performs-Safe,
}
use langgraph_lens.Event.Schema.{IsLine}
use langgraph_lens.Lens.Logged.History.{performs-IsLine}
use langgraph_lens.Runtime.{Runtime}
use langgraph_lens.Lens.Decide.{
  NodeResult, decide_node, ask_breaker, ask_goal_guard, copy_fails, signal_attacks,
}
use langgraph_lens.Lens.NodeVerdict.{decide_node_action}
use langgraph_lens.Test.Breaker.{opened}
use langgraph_lens.Test.Detectors.{runtime}
use langgraph_lens.Test.Lens.{idle, agent, anywhere}

-- Only the redactor is on, with a pattern that matches everywhere.
abbrev redacting : Lens
redacting = record idle {
  config = record idle.config { tier2 = record idle.config.tier2 { pii_redaction = anywhere } };
}

abbrev letter : Fields
letter = field "input" (text "a") end

decide_node_action_example :
    (r : NodeResult) × ((decide_node runtime agent letter redacting).0 ≡ some r)
    × ((decide_node runtime agent letter redacting).1.alerts.raised ≡ false)
    × (r.decision.action ≡ redact)
unfolding PiiRedactor.scrub_fields PiiRedactor.scrub_value string_eq PiiRedactor.scrub
    PiiRedactor.compiled compile_all compile_custom PiiRedactor.compile_customs substitute segments
    segments_from match_length advancing_length match_here match_at take_text text_length
    PiiRedactor.replacement named get
decide_node_action_example =
    decide_node_action runtime agent letter redacting refl (λ on. refl) (λ webhook body now. refl)

-- A process in which no state can be copied: the redactor ends `decide_node` with an exception.
abbrev uncopied : Runtime
uncopied = record runtime { copies = λ fs. false }

copy_raises : (decide_node uncopied agent letter redacting).0 ≡ none
unfolding decide_node ask_breaker ask_goal_guard copy_fails evaluate_request string_eq named get
    merge GoalGuard.evaluate signal_attacks
copy_raises = refl

probe_settles_example :
    let (d, ds, b1) = evaluate_request 40000000 opened in
    let b2 = record_response 41000000 false b1 in
    (d.action ≡ allow) × (b2.state ≡ closed) × ((t : ℕ) → admits t b2 ≡ true)
probe_settles_example = probe_settles 40000000 41000000 false opened refl refl (omega arith)

-- A directory with one template.
abbrev disk : FileSystem
disk = record {
  path_text = λ p. p;
  is_file = λ p. p == "t.txt";
  is_dir = λ p. p == "d";
  rglob = λ p. "t.txt" ∷ [];
  suffix = λ p. ".txt";
  read_text = λ p. some "{{ x.__class__ }}";
}

abbrev chain : SupplyChainConfig
chain = record { enabled = true; rules = "jinja_ssti" ∷ [] }

scan_path-IsInjected_example :
    (reports "jinja_ssti" (scan_path runtime.unicode disk chain "d") ≡ true)
    ↔ ((p : String) × IsRead disk "d" p × IsInjected runtime.unicode disk p)
scan_path-IsInjected_example =
    scan_path-IsInjected runtime.unicode disk chain "d" refl (unfold string_eq in refl)

performs-Safe_example :
    let l =
      performs runtime
        (decide_on_node agent letter ∷ upstream_result true ∷ decide_on_node agent letter ∷ [])
        (Lens.init runtime redacting.config) in
    (l.circuit_breaker.half_open_probes_inflight ≤ 1)
    × (spaced (ticks 300) l.alerts.posts ≡ true)
    × (length (events_for_thread "t" l) ≤ 256)
performs-Safe_example =
    performs-Safe runtime redacting.config
      (decide_on_node agent letter ∷ upstream_result true ∷ decide_on_node agent letter ∷ []) "t"
      (unfold string_eq in refl)

-- The orchestrator with its log on, which goes to stderr here: no path can be opened.
abbrev logged : LensConfig
logged = record redacting.config {
  logging = record {
    enabled = true;
    destination = "stderr";
    file_path = "";
    include_match_text = true;
  };
}

-- The scan of the environment writes its line.
one_line :
    length
      (performs runtime
        (scan_surface (environment_info runtime) ∷ [])
        (Lens.init runtime logged)).output.stderr
    ≡ 1
unfolding performs perform scan_attack_surface Lens.emit write_event string_eq
one_line = refl

performs-IsLine_example :
    let out =
      (performs runtime
        (scan_surface (environment_info runtime) ∷ decide_on_node agent letter ∷ [])
        (Lens.init runtime logged)).output in
    All (λ (path, line). IsLine line) out.file × All IsLine out.stderr
performs-IsLine_example =
    performs-IsLine runtime logged
      (scan_surface (environment_info runtime) ∷ decide_on_node agent letter ∷ [])
