-- ===== src/Args.antt =====
-- The arguments of a tool call, `dict[str, Any] | str`, and the text that is measured and scanned:
-- `_stringify_args` of detectors/tool.py and `_safe_json` of interventions/rate_limiter.py. The
-- values of a model's dict are all accepted by `json.dumps`, so its `repr` fallback is not reached.
use langgraph_lens.Prelude.{String}
use langgraph_lens.Time.{Fraction}
use langgraph_lens.Json.{json_dumps}
use langgraph_lens.Value.{dict, Fields}

pub data Args : Type 0 where
  str_args : String → Args
  dict_args : Fields → Args

unfoldable pub stringify_args : (Fraction → String) → Args → String
stringify_args float_repr (str_args s) = s
stringify_args float_repr (dict_args fs) = json_dumps float_repr (dict fs)
