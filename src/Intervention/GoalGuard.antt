-- ===== src/Intervention/GoalGuard.antt =====
-- interventions/goal_guard.py: the decision on what the goal hijack detector finds.
use langgraph_lens.Prelude.{String, Bool, not, Option, none, some, List, [], if◌then◌else◌}
use langgraph_lens.Runtime.{Runtime}
use langgraph_lens.Value.{Fields}
use langgraph_lens.Event.{Detection}
use langgraph_lens.Decision.{LensDecision, pass}
use langgraph_lens.Detector.GoalHijack
use langgraph_lens.Detector.GoalHijack.{GoalHijackConfig}
use langgraph_lens.Intervention.{PolicyMode, matching, triggers, conclude}

-- `GoalGuardConfig` of config.py
pub record GoalGuardConfig : Type 0 where
  pub enabled : Bool
  pub mode : PolicyMode
  pub block_on_rules : List String

unfoldable pub judge : GoalGuardConfig → List Detection → LensDecision × List Detection
judge c found =
    let ds = matching c.block_on_rules found in
    conclude c.mode "goal_hijack" 403 (triggers "goal_guard." ds) ds

unfoldable pub evaluate :
    Runtime
    → GoalGuardConfig
    → GoalHijackConfig
    → Fields
    → Option String
    → LensDecision × List Detection
evaluate rt c detector state none = (pass, [])
evaluate rt c detector state (some intent) =
    if not c.enabled then (pass, []) else judge c (GoalHijack.scan rt detector state (some intent))
