-- ===== src/Middleware/Callback.antt =====
-- middleware.py: `LensCallback`. A hook takes its arguments and the `Lens` and returns how it ends,
-- with the `Lens` as it is left. The metadata among the keyword arguments is a dictionary.
use langgraph_lens.Prelude.{
  String, Bool, true, false, not, ◌&&◌, ◌||◌, Option, none, some, List, [], ◌∷◌, if◌then◌else◌,
}
use langgraph_lens.Runtime.{Runtime}
use langgraph_lens.Text.{join}
use langgraph_lens.Value.{Value, null, text, dict, Fields, field, end, lookup}
use langgraph_lens.Event.{prompt_scan}
use langgraph_lens.Message.{str}
use langgraph_lens.Args.{Args, str_args, dict_args}
use langgraph_lens.Decision.{LensDecision, is_terminal}
use langgraph_lens.Detector.SupplyChain
use langgraph_lens.Intervention.CheckpointProtector.{or_empty}
use langgraph_lens.Lens.{Lens, Tier2Config, emit, new_event, tick}
use langgraph_lens.Lens.Inspect.{NodeCall, ToolCall, inspect_node, inspect_tool_call}
use langgraph_lens.Lens.Scan.{fresh_id, take_token}
use langgraph_lens.Lens.Decide.{decide_tool_call}
use langgraph_lens.Middleware.{
  Ending, returned, blocked, failed, safe, safe_or_raise, stringify, as_state, metadata_of,
  node_name, thread_id_from, recursion_limit_from, recursion_depth_from,
}

-- `LensCallback`, without the `Lens`
pub record Callback : Type 0 where
  pub enforce_blocks : Bool
  pub tool_allowlist : Option (List String)

-- `LensCallback(lens, enforce_blocks=enforce_blocks)`
abbrev pub init : Bool → Callback
init enforce_blocks = record { enforce_blocks = enforce_blocks; tool_allowlist = none }

-- `set_tool_allowlist`
unfoldable pub set_tool_allowlist : List String → Callback → Callback
set_tool_allowlist tools cb = record cb { tool_allowlist = some tools }

-- `any_enabled` of `Tier2Config`
unfoldable pub any_enabled : Tier2Config → Bool
any_enabled c =
    c.pii_redaction.enabled || c.tool_allowlist.enabled || c.checkpoint_protector.enabled
    || c.goal_guard.enabled || c.rate_limit.enabled || c.circuit_breaker.enabled

-- `"langgraph_node" in metadata`
abbrev is_node : Option Value → Bool
is_node none = false
is_node (some v) = true

-- `on_chain_start`: only a chain that LangGraph marks as a node is inspected.
unfoldable pub on_chain_start :
    Runtime → Option Fields → Value → Value → Option Fields → Fields → Lens → Ending × Lens
on_chain_start rt serialized inputs run_id metadata kwargs l =
    let (e, l') =
      inspect_node rt
        (record {
          node = node_name rt serialized kwargs metadata;
          run_id = stringify rt run_id;
          thread_id = thread_id_from metadata kwargs;
          declared_edges = none;
          recursion_limit = recursion_limit_from metadata kwargs;
          recursion_depth = recursion_depth_from kwargs;
        })
        (as_state inputs) l in
    if is_node (lookup "langgraph_node" (or_empty metadata))
    then (safe returned, l')
    else (returned, l)

-- The keywords of an inspection that knows no edges and no recursion.
abbrev pub plain_call : String → Option String → Option String → NodeCall
plain_call node run_id thread_id = record {
  node = node;
  run_id = run_id;
  thread_id = thread_id;
  declared_edges = none;
  recursion_limit = none;
  recursion_depth = none;
}

-- `on_chain_end`: the end of the outermost chain, whose outputs are a dictionary
unfoldable pub on_chain_end : Runtime → Value → Value → Value → Fields → Lens → Ending × Lens
on_chain_end rt (dict outputs) run_id null kwargs l =
    let thread_id = thread_id_from (metadata_of (lookup "metadata" kwargs)) kwargs in
    let (e, l') = inspect_node rt (plain_call "<exit>" (stringify rt run_id) thread_id) outputs l in
    if l.config.pii.scan_egress then (safe returned, l') else (returned, l)
on_chain_end rt outputs run_id parent_run_id kwargs l = (returned, l)

-- `(serialized or {}).get("name", "<unknown>")`; a name is a text.
abbrev tool_name : Runtime → Option Value → String
tool_name rt none = "<unknown>"
tool_name rt (some v) = str rt v

-- `inputs if isinstance(inputs, dict) else input_str`
abbrev tool_args : Value → String → Args
tool_args (dict fs) input_str = dict_args fs
tool_args v input_str = str_args input_str

-- The call that a tool's start is.
unfoldable pub call_of :
    Runtime → Option Fields → String → Value → Option Fields → Value → Fields → ToolCall
call_of rt serialized input_str run_id metadata inputs kwargs = record {
  tool = tool_name rt (lookup "name" (or_empty serialized));
  args = tool_args inputs input_str;
  run_id = stringify rt run_id;
  thread_id = thread_id_from metadata kwargs;
}

-- `raise LensBlockedError(decision)`, if the decision is terminal
abbrev pub raise_terminal : LensDecision → Ending
raise_terminal d = if is_terminal d then blocked d else returned

-- An exception of an alert has left `_emit` between two states of the orchestrator.
abbrev pub escaped : Lens → Lens → Bool
escaped l l' = not l.alerts.raised && l'.alerts.raised

-- The code that is handed to `_safe` or `_safe_or_raise`: an exception of an alert ends it before it
-- comes to its own end.
abbrev pub run_safely : Lens → Lens → Ending → Ending
run_safely l l' e = if escaped l l' then failed else e

-- `on_tool_start`, on the call
unfoldable pub on_tool_start : Runtime → Callback → ToolCall → Lens → Ending × Lens
on_tool_start rt cb q l =
    let (d, e, decided) = decide_tool_call rt q none l in
    let (f, inspected) = inspect_tool_call rt q cb.tool_allowlist l in
    if cb.enforce_blocks && any_enabled l.config.tier2
    then (safe_or_raise (run_safely l decided (raise_terminal d)), decided)
    else (safe (run_safely l inspected returned), inspected)

-- `_scan_rendered_prompt`
unfoldable pub scan_rendered_prompt : Runtime → String → Option String → Option String → Lens → Lens
scan_rendered_prompt rt prompt run_id thread_id l =
    elim (SupplyChain.scan_text rt.unicode l.config.supply_chain prompt "<rendered-prompt>") [
      | [] ↦ l
      | d ∷ ds ↦
          let e = new_event rt prompt_scan (fresh_id rt "llm-" l) run_id thread_id (d ∷ ds) l in
          emit rt e (tick (take_token l))
    ]

-- `on_llm_start`
unfoldable pub on_llm_start : Runtime → List String → Value → Fields → Lens → Ending × Lens
on_llm_start rt prompts run_id kwargs l =
    let joined = join "\n" prompts in
    let thread_id = thread_id_from (metadata_of (lookup "metadata" kwargs)) kwargs in
    let run = stringify rt run_id in
    let (e, l') =
      inspect_node rt (plain_call "<llm>" run thread_id) (field "prompt" (text joined) end)
        (scan_rendered_prompt rt joined run thread_id l) in
    (safe returned, l')
