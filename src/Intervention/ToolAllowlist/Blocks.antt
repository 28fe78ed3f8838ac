-- ===== src/Intervention/ToolAllowlist/Blocks.antt =====
-- Which tool calls the allow-list blocks.
use langgraph_lens.Prelude.{ℕ, String, ◌≡◌, ◌∙◌, false, not, ◌&&◌, ◌||◌, Option, List, [], arith}
use langgraph_lens.Runtime.{Runtime}
use langgraph_lens.Event.{Detection}
use langgraph_lens.Decision.{is_terminal, is_empty}
use langgraph_lens.Args.{Args}
use langgraph_lens.Tool
use langgraph_lens.Tool.{ToolDetector, is_outside}
use langgraph_lens.Intervention.{matching, triggers, conclude}
use langgraph_lens.Intervention.Verdict.{
  is_enforced, caught, is_terminal-conclude, is_empty-append, is_empty-triggers, matching_none,
}
use langgraph_lens.Intervention.ToolAllowlist.{ToolAllowlistConfig, list_trigger, judge, evaluate}

is_empty-list_trigger :
    (c : ToolAllowlistConfig) (tool : String)
    → is_empty (list_trigger c tool) ≡ not (is_outside tool c.allowed_tools)
unfolding list_trigger
is_empty-list_trigger c tool = ground arith

is_terminal-judge :
    (c : ToolAllowlistConfig) (tool : String) (found : List Detection)
    → is_terminal (judge c tool found).0
      ≡ (is_enforced c.mode && (is_outside tool c.allowed_tools || caught c.block_on_rules found))
unfolding judge
is_terminal-judge c tool found =
    is_terminal-conclude c.mode _ _ _ _
    ∙ rw
        (
          is_empty-append (list_trigger c tool)
              (triggers "tool_allowlist." (matching c.block_on_rules found)),
          is_empty-list_trigger c tool,
          is_empty-triggers "tool_allowlist." c.block_on_rules found,
        )
        (ground arith)

-- The intervention blocks a call exactly if it is enabled and enforced, and the tool is outside the
-- list or the tool detector, given the same list, reports one of the configured rules on the call.
pub evaluate_blocks :
    (rt : Runtime) (now : ℕ) (c : ToolAllowlistConfig) (tool : String) (args : Args)
    (thread_id : Option String) (t : ToolDetector)
    → is_terminal (evaluate rt now c tool args thread_id t).0 ≡ (
        c.enabled
        && (is_enforced c.mode
            && (is_outside tool c.allowed_tools
                || caught c.block_on_rules
                    (Tool.scan rt now tool args c.allowed_tools thread_id t).0)))
unfolding evaluate
evaluate_blocks rt now c tool args thread_id t =
    let found = (Tool.scan rt now tool args c.allowed_tools thread_id t).0 in
    ground (arith, is_terminal-judge c tool found)

-- Without a finding, nothing but the decision comes from the list.
pub evaluate_quiet :
    (rt : Runtime) (now : ℕ) (c : ToolAllowlistConfig) (tool : String) (args : Args)
    (thread_id : Option String) (t : ToolDetector)
    → caught c.block_on_rules (Tool.scan rt now tool args c.allowed_tools thread_id t).0 ≡ false
    → (evaluate rt now c tool args thread_id t).1 ≡ []
unfolding evaluate judge conclude
evaluate_quiet rt now c tool args thread_id t e = ground (
  arith,
  matching_none c.block_on_rules (Tool.scan rt now tool args c.allowed_tools thread_id t).0 e,
)
