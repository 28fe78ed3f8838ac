-- ===== src/Test/Lens.antt =====
-- The orchestrator and the interventions at small inputs.
use langgraph_lens.Prelude.{
  ℕ, ◌≡◌, refl, true, false, none, some, String, List, [], ◌∷◌, arith, string_eq, option_eq,
  pair_eq,
}
use langgraph_lens.Prelude.Dict.{get}
use langgraph_lens.Runtime.{Runtime}
use langgraph_lens.Value.{text, list, object, cons, nil, Fields, field, end, assign}
use langgraph_lens.Args.{str_args}
use langgraph_lens.Event.{Detection}
use langgraph_lens.Decision.{LensDecision, pass, block, is_terminal}
use langgraph_lens.Breaker.{half_open, evaluate_request}
use langgraph_lens.RateLimiter.{throttle_mode}
use langgraph_lens.Tool
use langgraph_lens.Detector.Checkpoint
use langgraph_lens.Detector.Checkpoint.{raw, decoded}
use langgraph_lens.Detector.Pii.{compile_all, compile_custom}
use langgraph_lens.Text.{sorted_set, insert_sorted, text_length}
use langgraph_lens.Regex.{match_at, match_here, take_text}
use langgraph_lens.Regex.Segments.{
  substitute, segments, segments_from, match_length, advancing_length,
}
use langgraph_lens.Intervention.{enforce_mode}
use langgraph_lens.Intervention.ToolAllowlist.{ToolAllowlistConfig}
use langgraph_lens.Intervention.CheckpointProtector
use langgraph_lens.Intervention.CheckpointProtector.{
  CheckpointProtectorConfig, read_direction, is_ascii, hmac_key, sign,
}
use langgraph_lens.Intervention.CheckpointProtector.Signing.{evaluate_signed}
use langgraph_lens.Intervention.PiiRedactor
use langgraph_lens.Intervention.PiiRedactor.{PiiRedactionConfig, redact_mode}
use langgraph_lens.Intervention.PiiRedactor.Kept.{evaluate_objects}
use langgraph_lens.Lens
use langgraph_lens.Lens.{Lens, LensConfig, events_for_thread, correlation_for}
use langgraph_lens.Lens.Inspect.{ToolCall}
use langgraph_lens.Lens.Emit.{emits, emits_refine}
use langgraph_lens.Lens.Decide.{ask_breaker, decide_tool_call}
use langgraph_lens.Lens.Inspect.{NodeCall}
use langgraph_lens.Lens.Probe.{probe_lost}
use langgraph_lens.Test.Breaker.{
  config as breaker_config, fresh as fresh_breaker, opened as open_breaker,
}
use langgraph_lens.Test.Event.{event as node_event}
use langgraph_lens.Test.Detectors.{runtime, config as checkpoint_config}

abbrev runtime_of_keys : Runtime
runtime_of_keys = record runtime { hmac_hex = λ key blob. "k" }

abbrev allowlist : ToolAllowlistConfig
allowlist = record {
  enabled = true;
  mode = enforce_mode;
  allowed_tools = some ("search" ∷ []);
  block_on_rules = [];
}

abbrev protector : CheckpointProtectorConfig
protector = record {
  enabled = true;
  mode = enforce_mode;
  block_on_rules = "unsafe_pickle_opcode" ∷ [];
  require_hmac = true;
  signing_key = "k";
}

abbrev redaction : PiiRedactionConfig
redaction = record { enabled = true; mode = redact_mode; patterns = []; custom_patterns = [] }

-- Every detector off.
abbrev pub config : LensConfig
config = record {
  attack_surface = record { enabled = false; rules = [] };
  checkpoint = checkpoint_config;
  supply_chain = record { enabled = false; rules = [] };
  tool = record {
    enabled = false;
    rules = [];
    enumeration_window_seconds = 60;
    enumeration_threshold = 8;
    max_arg_bytes = 1000;
  };
  memory = record { enabled = false; rules = []; max_entry_bytes = 1000 };
  pii = record {
    enabled = false;
    scan_ingress = false;
    scan_egress = false;
    scan_checkpoints = false;
    patterns = [];
    custom_patterns = [];
  };
  goal_hijack = record {
    enabled = false;
    rules = [];
    user_intent_similarity_threshold = record { num = 35; den = 100 };
    watch_substrings = [];
  };
  comms = record {
    enabled = false;
    rules = [];
    state_growth_multiplier = record { num = 10; den = 1 };
  };
  sql_injection = record { enabled = false; rules = []; fields = [] };
  prometheus = record { enabled = false; port = 9092; bind_address = "127.0.0.1" };
  logging = record {
    enabled = false;
    destination = "stderr";
    file_path = "";
    include_match_text = false;
  };
  alerts = record { enabled = false; slack_webhook = ""; cooldown_seconds = 300; alert_on = [] };
  otel = record { enabled = false; endpoint = ""; service_name = "" };
  tier2 = record {
    pii_redaction = redaction;
    tool_allowlist = allowlist;
    checkpoint_protector = protector;
    goal_guard = record { enabled = false; mode = enforce_mode; block_on_rules = [] };
    rate_limit = record {
      enabled = false;
      mode = throttle_mode;
      capacity = 60;
      refill_per_second = 1;
      size_divisor = 1000;
      key_by_tenant = true;
      key_by_thread = true;
      key_by_tool = false;
    };
    circuit_breaker = breaker_config;
    audit_signaling = record {
      enabled = false;
      triggered_header = "X-T";
      reason_header = "X-R";
      action_header = "X-A";
      stamp_state = false;
    };
  };
}

abbrev pub fresh : Lens
fresh = Lens.init runtime config

-- The breaker is open since tick 5; the clock below reads the number of the reading.
abbrev pub shut : Lens
shut = record fresh { circuit_breaker = open_breaker }

-- The same at a reading behind the cooldown.
abbrev rested : Lens
rested = record shut { ticks_read = 40000000 }

abbrev pub shell : ToolCall
shell = record { tool = "shell"; args = str_args "ls"; run_id = none; thread_id = some "t" }

-- Everything off.
abbrev pub idle : Lens
idle = record fresh {
  config = record config {
    tier2 = record config.tier2 { tool_allowlist = record allowlist { enabled = false } };
  };
  circuit_breaker = record fresh_breaker { config = record breaker_config { enabled = false } };
}

emits_refine_example :
    events_for_thread "t" (emits runtime (node_event ∷ node_event ∷ []) fresh)
    ≡ node_event ∷ node_event ∷ []
unfolding events_for_thread get string_eq option_eq
emits_refine_example =
    emits_refine runtime (node_event ∷ node_event ∷ []) fresh "t" refl (omega arith)

probe_lost_example :
    let (d, e, l) = decide_tool_call runtime shell none rested in
    (d.action ≡ block)
    × (l.circuit_breaker.state ≡ half_open)
    × (l.circuit_breaker.half_open_probes_inflight ≡ 1)
probe_lost_example =
    probe_lost runtime shell none rested refl refl refl
      (unfold ask_breaker evaluate_request string_eq Tool.scan in refl)

-- The digest of these tests is one letter.
plain_key : (key : String) (blob : List ℕ) → is_ascii (runtime_of_keys.hmac_hex key blob) ≡ true
unfolding is_ascii
plain_key key blob = refl

evaluate_signed_example :
    (d : LensDecision × List Detection) × (CheckpointProtector.evaluate runtime_of_keys protector
        checkpoint_config
        (raw (1 ∷ []))
        (some (field "lens_hmac" (text "k") end))
        read_direction
        none
      ≡ some d)
    × (is_terminal d.0 ≡ false)
unfolding string_eq assign Checkpoint.scan Checkpoint.scan_blob Checkpoint.scan_thread
    Checkpoint.scan_size Checkpoint.scan_opcodes Checkpoint.scan_kind Checkpoint.looks_like_pickle
evaluate_signed_example =
    evaluate_signed runtime_of_keys protector checkpoint_config refl refl plain_key (1 ∷ [])
      (1 ∷ []) "k" end none (unfold sign in refl)

evaluate_objects_example :
    PiiRedactor.evaluate runtime redaction
      (field "messages" (list (cons (object "ssn 123-45-6789" end) nil)) end)
    ≡ (pass, [])
evaluate_objects_example =
    evaluate_objects runtime redaction (cons (object "ssn 123-45-6789" end) nil) refl

-- A pattern that the runtime of the tests compiles to the empty expression.
abbrev pub anywhere : PiiRedactionConfig
anywhere = record redaction {
  custom_patterns = record { type_name = none; name = none; regex = some "x*" } ∷ [];
}

abbrev marked : Fields
marked = field "input" (text "[REDACTED:custom]a[REDACTED:custom]") end

rewritten :
    (PiiRedactor.evaluate runtime anywhere (field "input" (text "a") end)).0.modified_state
    ≡ some marked
unfolding PiiRedactor.evaluate PiiRedactor.decide sorted_set insert_sorted PiiRedactor.scrub_fields
    PiiRedactor.scrub_value string_eq PiiRedactor.scrub PiiRedactor.compiled compile_all
    compile_custom PiiRedactor.compile_customs substitute segments segments_from match_length
    advancing_length match_here match_at take_text text_length PiiRedactor.replacement
rewritten = refl

abbrev pub agent : NodeCall
agent = record {
  node = "agent";
  run_id = none;
  thread_id = some "t";
  declared_edges = none;
  recursion_limit = none;
  recursion_depth = none;
}

abbrev question : Fields
question = field "input" (text "hello") end

abbrev pub silent : Lens
silent = record idle {
  config = record idle.config {
    tier2 = record idle.config.tier2 { pii_redaction = record redaction { enabled = false } };
  };
}
