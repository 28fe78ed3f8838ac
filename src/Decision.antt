-- ===== src/Decision.antt =====
-- interventions/decisions.py: what an intervention wants the caller to do, and how two such
-- decisions combine. The source updates one of the two objects in place and returns it; the other
-- is not read again, so the model returns the new record.
pub mod Merge
pub mod Chain
pub mod Headers
use langgraph_lens.Prelude.{
  ℕ, String, Bool, true, false, ◌&&◌, Option, none, some, List, [], ◌∷◌, ◌++◌, leb, if◌then◌else◌,
  string_eq,
}
use langgraph_lens.Prelude.Dict.{Dict, setdefault}
use langgraph_lens.Text.{join, sorted_set, decimal}
use langgraph_lens.Time.{Fraction, whole_seconds}
use langgraph_lens.Value.{Fields}

pub data Action : Type 0 where
  allow redact throttle block : Action

abbrev pub is_block : Action → Bool
is_block block = true
is_block _ = false

abbrev pub is_allow : Action → Bool
is_allow allow = true
is_allow _ = false

abbrev pub action_name : Action → String
action_name allow = "allow"
action_name redact = "redact"
action_name throttle = "throttle"
action_name block = "block"

-- `rank` of `merge`
abbrev pub rank : Action → ℕ
rank allow = 0
rank redact = 1
rank throttle = 2
rank block = 3

pub record LensDecision : Type 0 where
  pub action : Action
  pub reason : Option String
  pub triggered_by : List String
  pub modified_state : Option Fields
  pub headers : Dict String String
  pub status_code : Option ℕ
  pub retry_after : Option Fraction

-- `LensDecision()`
abbrev pub pass : LensDecision
pass = record {
  action = allow;
  reason = none;
  triggered_by = [];
  modified_state = none;
  headers = [];
  status_code = none;
  retry_after = none;
}

abbrev pub is_terminal : LensDecision → Bool
is_terminal d = is_block d.action

abbrev pub or_else {ℓ} : {A : Type ℓ} → Option A → Option A → Option A
or_else none o = o
or_else (some a) o = some a

-- `winner.triggered_by.extend(loser.triggered_by)` and the state that is carried over
abbrev pub absorb : LensDecision → LensDecision → LensDecision
absorb winner loser = record winner {
  triggered_by = winner.triggered_by ++ loser.triggered_by;
  modified_state = or_else winner.modified_state loser.modified_state;
}

unfoldable pub merge : LensDecision → LensDecision → LensDecision
merge self other =
    if is_terminal self
    then record self { triggered_by = self.triggered_by ++ other.triggered_by }
    else if is_terminal other
    then record other {
      triggered_by = self.triggered_by ++ other.triggered_by;
      modified_state = or_else other.modified_state self.modified_state;
    }
    else if leb (rank other.action) (rank self.action)
    then absorb self other
    else absorb other self

abbrev pub is_empty {ℓ} : {A : Type ℓ} → List A → Bool
is_empty [] = true
is_empty (x ∷ xs) = false

-- The `Retry-After` header, where a duration is set.
abbrev pub retry_header : Option Fraction → Dict String String → Dict String String
retry_header none h = h
retry_header (some d) h = setdefault "Retry-After" (decimal (whole_seconds d)) h

-- The `X-Lens-Reason` header, where something was triggered.
abbrev pub reason_entry : String → List String → Dict String String → Dict String String
reason_entry reason_header [] h = h
reason_entry reason_header (t ∷ ts) h = setdefault reason_header (join "," (sorted_set (t ∷ ts))) h

-- The `setdefault` calls of `with_audit_headers`, on the headers `h` of the decision `d`.
unfoldable pub stamp_headers :
    String → String → String → LensDecision → Dict String String → Dict String String
stamp_headers triggered_header reason_header action_header d h =
    let stamped =
      setdefault action_header (action_name d.action) (setdefault triggered_header "true" h) in
    retry_header d.retry_after (reason_entry reason_header d.triggered_by stamped)

unfoldable pub with_audit_headers : String → String → String → LensDecision → LensDecision
with_audit_headers triggered_header reason_header action_header d =
    if is_empty d.triggered_by && is_allow d.action then d else record d {
      headers = stamp_headers triggered_header reason_header action_header d d.headers;
    }
