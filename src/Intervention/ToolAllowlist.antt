-- ===== src/Intervention/ToolAllowlist.antt =====
-- interventions/tool_allowlist.py: a tool call outside the list, or with a misuse signal of the tool
-- detector. The detector is the one that `Lens` owns, so its windows come back changed.
pub mod Blocks
use langgraph_lens.Prelude.{
  ℕ, String, Bool, true, false, not, Option, none, some, List, [], ◌∷◌, ◌++◌, if◌then◌else◌,
}
use langgraph_lens.Runtime.{Runtime}
use langgraph_lens.Event.{Detection}
use langgraph_lens.Decision.{LensDecision, pass}
use langgraph_lens.Args.{Args}
use langgraph_lens.Tool
use langgraph_lens.Tool.{ToolDetector, is_outside}
use langgraph_lens.Intervention.{PolicyMode, matching, triggers, conclude}

-- `ToolAllowlistConfig` of config.py
pub record ToolAllowlistConfig : Type 0 where
  pub enabled : Bool
  pub mode : PolicyMode
  pub allowed_tools : Option (List String)
  pub block_on_rules : List String

-- The trigger of the list itself.
unfoldable pub list_trigger : ToolAllowlistConfig → String → List String
list_trigger c tool =
    if is_outside tool c.allowed_tools then "tool_allowlist.out_of_allowlist" ∷ [] else []

-- `evaluate`, behind the guard: the decision on what the detector found
unfoldable pub judge : ToolAllowlistConfig → String → List Detection → LensDecision × List Detection
judge c tool found =
    let ds = matching c.block_on_rules found in
    conclude c.mode "tool_blocked" 403 (list_trigger c tool ++ triggers "tool_allowlist." ds) ds

unfoldable pub evaluate :
    Runtime
    → ℕ
    → ToolAllowlistConfig
    → String
    → Args
    → Option String
    → ToolDetector
    → LensDecision × List Detection × ToolDetector
evaluate rt now c tool args thread_id t =
    let (found, t') = Tool.scan rt now tool args c.allowed_tools thread_id t in
    let (d, ds) = judge c tool found in if not c.enabled then (pass, [], t) else (d, ds, t')
