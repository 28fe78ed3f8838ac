-- ===== src/Config.antt =====
-- config.py: the defaults, and where a configuration comes from. Reading a file is third-party (yaml
-- and pydantic): `none` is an exception.
use langgraph_lens.Prelude.{
  ◌*◌, String, true, false, ◌&&◌, Option, none, some, [], ◌∷◌, map, if◌then◌else◌, string_eq, ◌==◌,
}
use langgraph_lens.Event.{high}
use langgraph_lens.Breaker.{CircuitBreakerConfig}
use langgraph_lens.RateLimiter.{RateLimitConfig, throttle_mode}
use langgraph_lens.Detector.Pii.{PiiPattern, PiiConfig}
use langgraph_lens.Intervention.{enforce_mode}
use langgraph_lens.Intervention.CheckpointProtector.{CheckpointProtectorConfig}
use langgraph_lens.Intervention.PiiRedactor.{redact_mode}
use langgraph_lens.Lens.{LensConfig, Tier2Config}

abbrev builtin_type : String → PiiPattern
builtin_type t = record { type_name = some t; name = none; regex = none }

-- `PIIConfig()`
abbrev pub default_pii : PiiConfig
default_pii = record {
  enabled = true;
  scan_ingress = true;
  scan_egress = true;
  scan_checkpoints = true;
  patterns =
      map builtin_type
        ("ssn" ∷ "credit_card" ∷ "phone_us" ∷ "phone_intl" ∷ "email" ∷ "ip_address" ∷ []);
  custom_patterns = [];
}

-- `RateLimitConfig()`, in billionths of a token
abbrev pub default_rate_limit : RateLimitConfig
default_rate_limit = record {
  enabled = false;
  mode = throttle_mode;
  capacity = 60 * 1000000000;
  refill_per_second = 1000000000;
  size_divisor = 1000;
  key_by_tenant = true;
  key_by_thread = true;
  key_by_tool = false;
}

-- `CircuitBreakerConfig()`
abbrev pub default_circuit_breaker : CircuitBreakerConfig
default_circuit_breaker = record {
  enabled = false;
  window_seconds = 30;
  min_samples = 20;
  error_rate_threshold = record { num = 1; den = 2 };
  cooldown_seconds = 30;
  fail_closed_on_attack = false;
  fail_closed_min_severity = high;
  fail_closed_attack_window_seconds = 60;
  fail_closed_min_attack_signals = 5;
}

-- `Tier2Config()`
abbrev pub default_tier2 : Tier2Config
default_tier2 = record {
  pii_redaction = record {
    enabled = false;
    mode = redact_mode;
    patterns =
        map builtin_type
          ("ssn" ∷ "credit_card" ∷ "email" ∷ "phone_us" ∷ "phone_intl" ∷ "ip_address" ∷ []);
    custom_patterns = [];
  };
  tool_allowlist = record {
    enabled = false;
    mode = enforce_mode;
    allowed_tools = none;
    block_on_rules = "shell_metachar" ∷ "ssrf_pattern" ∷ "oversized_args" ∷ [];
  };
  checkpoint_protector = record {
    enabled = false;
    mode = enforce_mode;
    block_on_rules = "unsafe_pickle_opcode" ∷ [];
    require_hmac = false;
    signing_key = "";
  };
  goal_guard = record {
    enabled = false;
    mode = enforce_mode;
    block_on_rules = "system_prompt_drift" ∷ "tool_call_drift" ∷ [];
  };
  rate_limit = default_rate_limit;
  circuit_breaker = default_circuit_breaker;
  audit_signaling = record {
    enabled = false;
    triggered_header = "X-Lens-Triggered";
    reason_header = "X-Lens-Reason";
    action_header = "X-Lens-Action";
    stamp_state = false;
  };
}

-- `LensConfig.default`
abbrev pub default_config : LensConfig
default_config = record {
  attack_surface = record {
    enabled = true;
    rules =
        "pickle_checkpoint_backend" ∷ "unsigned_prompt_registry" ∷ "jinja2_template_format"
        ∷ "permissive_recursion_limit" ∷ "server_without_auth" ∷ [];
  };
  checkpoint = record {
    enabled = true;
    scan_on_write = true;
    scan_on_read = true;
    rules =
        "unsafe_pickle_opcode" ∷ "unknown_serializer_kind" ∷ "missing_thread_id" ∷ "schema_drift"
        ∷ "oversized_blob" ∷ [];
    max_blob_bytes = 10 * 1024 * 1024;
  };
  supply_chain = record {
    enabled = true;
    rules = "jinja_ssti" ∷ "path_traversal" ∷ "unsafe_chat_template" ∷ "unsigned_hub_pull" ∷ [];
  };
  tool = record {
    enabled = true;
    rules =
        "shell_metachar" ∷ "ssrf_pattern" ∷ "out_of_allowlist" ∷ "enumeration" ∷ "oversized_args"
        ∷ [];
    enumeration_window_seconds = 30;
    enumeration_threshold = 8;
    max_arg_bytes = 65536;
  };
  memory = record {
    enabled = true;
    rules = "system_prompt_override" ∷ "oversized_entry" ∷ "cross_tenant_key" ∷ [];
    max_entry_bytes = 32768;
  };
  pii = default_pii;
  goal_hijack = record {
    enabled = true;
    rules = "system_prompt_drift" ∷ "tool_call_drift" ∷ "off_topic_subgoal" ∷ [];
    user_intent_similarity_threshold = record { num = 35; den = 100 };
    watch_substrings =
        "transfer funds" ∷ "send money" ∷ "delete account" ∷ "exfiltrate" ∷ "curl http"
        ∷ "wget http" ∷ [];
  };
  comms = record {
    enabled = true;
    rules =
        "undeclared_edge" ∷ "recursion_exceeded" ∷ "send_to_undeclared_target"
        ∷ "oversized_state_growth" ∷ [];
    state_growth_multiplier = record { num = 10; den = 1 };
  };
  sql_injection = record {
    enabled = true;
    rules = "union_select" ∷ "comment_terminator" ∷ "stacked_query" ∷ "metadata_escape" ∷ [];
    fields = "thread_id" ∷ "checkpoint_ns" ∷ "checkpoint_id" ∷ [];
  };
  prometheus = record { enabled = true; port = 9092; bind_address = "127.0.0.1" };
  logging = record {
    enabled = true;
    destination = "stderr";
    file_path = "/var/log/langgraph-lens.jsonl";
    include_match_text = false;
  };
  alerts = record {
    enabled = false;
    slack_webhook = "";
    cooldown_seconds = 300;
    alert_on = "supply_chain" ∷ "attack_surface" ∷ "checkpoint" ∷ "goal_hijack" ∷ [];
  };
  otel = record {
    enabled = false;
    endpoint = "http://localhost:4318";
    service_name = "langgraph-agent";
  };
  tier2 = default_tier2;
}

-- `_hmac_requires_key`: a protector that would verify with an empty key is refused.
unfoldable pub hmac_requires_key : CheckpointProtectorConfig → Option CheckpointProtectorConfig
hmac_requires_key c = if c.require_hmac && (c.signing_key == "") then none else some c

-- `LensConfig.from_env`, on the variable `LANGGRAPH_LENS_CONFIG`
unfoldable pub from_env : (String → Option LensConfig) → Option String → Option LensConfig
from_env from_yaml none = some default_config
from_env from_yaml (some path) = if path == "" then some default_config else from_yaml path
