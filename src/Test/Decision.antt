-- ===== src/Test/Decision.antt =====
-- Decisions at small inputs.
use mathlib.Core.List.{Perm}
use langgraph_lens.Prelude.{◌≡◌, some, [], ◌∷◌, string_eq}
use langgraph_lens.Value.{end, field, text}
use langgraph_lens.Decision.{block, throttle, redact, LensDecision, pass}
use langgraph_lens.Decision.Merge.{verdict}
use langgraph_lens.Decision.Chain.{IsFirst, merges, merges-IsFirst}

abbrev redacted : LensDecision
redacted = record pass {
  action = redact;
  reason = some "pii_redacted";
  triggered_by = "pii.email" ∷ [];
  modified_state = some (field "input" (text "[EMAIL]") end);
}

abbrev throttled : LensDecision
throttled = record pass {
  action = throttle;
  reason = some "rate_limited";
  triggered_by = "rate_limit.bucket_empty" ∷ [];
}

abbrev blocked : LensDecision
blocked = record pass {
  action = block;
  triggered_by = "tool.blocklist" ∷ [];
  status_code = some 403;
}

merges-IsFirst_example :
    (w : LensDecision) × IsFirst w (redacted ∷ throttled ∷ blocked ∷ [])
    × (verdict (merges redacted (throttled ∷ blocked ∷ [])) ≡ verdict w)
    × Perm
        (merges redacted (throttled ∷ blocked ∷ [])).triggered_by
        ("pii.email" ∷ "rate_limit.bucket_empty" ∷ "tool.blocklist" ∷ [])
merges-IsFirst_example = merges-IsFirst redacted (throttled ∷ blocked ∷ [])
