-- ===== src/Intervention.antt =====
-- The interventions of src/langgraph_lens/interventions that turn the detections of a detector into
-- a decision, and what they share: the selection of the detections to act on, and the decision in
-- either mode. Each is a child module.
pub mod ToolAllowlist
pub mod CheckpointProtector
pub mod GoalGuard
pub mod PiiRedactor
pub mod Audit
pub mod Verdict
use langgraph_lens.Prelude.{
  ℕ, String, ◌<>◌, Bool, some, List, [], ◌∷◌, map, keep, contains, string_eq,
}
use langgraph_lens.Event.{Detection}
use langgraph_lens.Decision.{LensDecision, pass, block}

-- `Literal["block", "log"]`, and `Literal["enforce", "log"]`
pub data PolicyMode : Type 0 where
  enforce_mode log_mode : PolicyMode

-- The detections with `d.rule in block_on_rules`, in order.
unfoldable pub matching : List String → List Detection → List Detection
matching block_on_rules ds = keep (λ d. contains block_on_rules d.rule) ds

-- What is appended to `triggered` for them.
unfoldable pub triggers : String → List Detection → List String
triggers prefix ds = map (λ d. prefix <> d.rule) ds

-- The end of `evaluate`: nothing triggered, log mode, or a terminal decision.
unfoldable pub conclude :
    PolicyMode → String → ℕ → List String → List Detection → LensDecision × List Detection
conclude mode reason status [] ds = (pass, [])
conclude log_mode reason status (t ∷ ts) ds = (record pass { triggered_by = t ∷ ts }, ds)
conclude enforce_mode reason status (t ∷ ts) ds = (
  record pass {
    action = block;
    reason = some reason;
    triggered_by = t ∷ ts;
    status_code = some status;
  },
  ds,
)
