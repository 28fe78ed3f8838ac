-- ===== src/Intervention/Audit.antt =====
-- interventions/audit.py: the audit headers of a decision, and its mark in the state.
use langgraph_lens.Prelude.{String, Bool, true, not, ◌||◌, Option, none, some, if◌then◌else◌}
use langgraph_lens.Value.{Value, null, bool, text, list, dict, texts, Fields, end, lookup, assign}
use langgraph_lens.Decision.{LensDecision, action_name, is_empty, with_audit_headers}

-- `AuditSignalingConfig` of config.py
pub record AuditSignalingConfig : Type 0 where
  pub enabled : Bool
  pub triggered_header : String
  pub reason_header : String
  pub action_header : String
  pub stamp_state : Bool

unfoldable pub stamp : AuditSignalingConfig → LensDecision → LensDecision
stamp c d =
    if not c.enabled
    then d
    else with_audit_headers c.triggered_header c.reason_header c.action_header d

abbrev optional_text : Option String → Value
optional_text none = null
optional_text (some s) = text s

-- The dictionary given to `update`.
abbrev pub mark : LensDecision → Fields → Fields
mark d fs = assign "triggered_by" (list (texts d.triggered_by)) (
    assign "reason" (optional_text d.reason)
      (assign "action" (text (action_name d.action)) (assign "triggered" (bool true) fs)))

-- `state.setdefault("__lens__", {})`: the dictionary that is there, or a new one. `none` is the
-- `AttributeError` of `update` on a value that is no dictionary.
abbrev pub lens_entry : Option Value → Option Fields
lens_entry none = some end
lens_entry (some (dict fs)) = some fs
lens_entry (some v) = none

-- `stamp_state`: the state as it is left
unfoldable pub stamp_state : AuditSignalingConfig → Fields → LensDecision → Option Fields
stamp_state c state d =
    if not c.enabled || not c.stamp_state || is_empty d.triggered_by
    then some state
    else elim (lens_entry (lookup "__lens__" state)) [
      | none ↦ none
      | some fs ↦ some (assign "__lens__" (dict (mark d fs)) state)
    ]
