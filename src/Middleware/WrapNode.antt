-- ===== src/Middleware/WrapNode.antt =====
-- middleware.py: `wrap_node`. The node function is third-party: any function on a Python value and a
-- world that it may change.
pub mod Laws
use langgraph_lens.Prelude.{
  String, Bool, true, false, not, Option, none, some, List, [], ◌∷◌, if◌then◌else◌, string_eq, ◌==◌,
}
use langgraph_lens.Runtime.{Runtime}
use langgraph_lens.Value.{Value, text, dict, Fields, end, lookup}
use langgraph_lens.Message.{text_of}
use langgraph_lens.Decision.{LensDecision, is_terminal}
use langgraph_lens.Lens.{Lens, named}
use langgraph_lens.Lens.Inspect.{NodeCall}
use langgraph_lens.Lens.Decide.{NodeResult, decide_node}
use langgraph_lens.Middleware.{Run, ran, stopped, broken, as_state, fields_of, metadata_of}
use langgraph_lens.Middleware.Callback.{plain_call}

abbrev has_configurable : Option Value → Bool
has_configurable none = false
has_configurable (some v) = true

-- The first positional argument that is a dictionary with the key "configurable".
unfoldable pub config_among : List Value → Option Fields
config_among [] = none
config_among (dict fs ∷ args) =
    let rest = config_among args in
    if has_configurable (lookup "configurable" fs) then some fs else rest
config_among (v ∷ args) = config_among args

abbrev or_else : Option Fields → Option Fields → Option Fields
or_else none o = o
or_else (some fs) o = some fs

abbrev or_none : Option Fields → Fields
or_none none = end
or_none (some fs) = fs

-- The thread of a call: from the keyword `config`, a positional argument, or the context variable.
unfoldable pub thread_of : Option Value → List Value → Option Fields → Option String
thread_of keyword args context =
    let config = or_else (metadata_of keyword) (or_else (config_among args) context) in
    text_of (lookup "thread_id" (fields_of (lookup "configurable" (or_none config))))

-- The caller's state, with what was put into it.
abbrev left_as : Value → Fields → Value
left_as (dict fs) marked = dict marked
left_as v marked = v

-- The state that the node gets: the rewritten one, or the caller's own with its audit mark.
unfoldable pub passed_on : Value → NodeResult → Value
passed_on state r = elim r.decision.modified_state [
  | none ↦ left_as state r.state
  | some fs ↦ dict fs
]

module _ {ℓ κ} {W : Type ℓ} {R : Type κ} (rt : Runtime) (node : String)
    (body : Value → W → R × W) where
  unfoldable pub run_node : Value → W → Lens → Run R × W × Lens
  run_node state w l = let (out, w') = body state w in (ran out, w', l)

  -- The end of `_wrapped`, behind the decision
  unfoldable pub end_wrapped : Value → W → Option NodeResult × Lens → Run R × W × Lens
  unfolding run_node
  end_wrapped state w (none, l) = (broken, w, l)
  end_wrapped state w (some r, l) =
      if is_terminal r.decision
      then (stopped r.decision, w, l)
      else run_node (passed_on state r) w l

  -- `_wrapped`
  unfoldable pub wrapped : Option String → Value → W → Lens → Run R × W × Lens
  wrapped thread_id state w l =
      end_wrapped state w (decide_node rt (plain_call node none thread_id) (as_state state) l)

-- A node function, with its name, and with or without the attribute `__lens_wrapped__`.
pub data NodeFunction {ℓ κ} (W : Type ℓ) (R : Type κ) : Type (ℓ ⊔ κ) where
  plain : String → (Value → W → R × W) → NodeFunction W R
  lens_wrapped : String → (Value → W → R × W) → NodeFunction W R

-- `node or fn.__name__`
abbrev node_or : Option String → String → String
node_or none name = name
node_or (some given) name = given

-- `wrap_node`
unfoldable pub wrap_node {ℓ κ} :
    {W : Type ℓ} {R : Type κ} → Option String → NodeFunction W R → NodeFunction W R
wrap_node given (plain name body) = lens_wrapped (node_or (named given) name) body
wrap_node given (lens_wrapped name body) = lens_wrapped name body

-- A call with the keyword `config`, the positional arguments behind the state, and the context
-- variable
unfoldable pub call_node {ℓ κ} :
    {W : Type ℓ} {R : Type κ}
    → Runtime
    → NodeFunction W R
    → Option Value
    → List Value
    → Option Fields
    → Value
    → W
    → Lens
    → Run R × W × Lens
call_node rt (plain name body) keyword args context state w l = run_node rt name body state w l
call_node rt (lens_wrapped node body) keyword args context state w l =
    wrapped rt node body (thread_of keyword args context) state w l
