-- ===== src/Middleware.antt =====
-- middleware.py: what the callback handler reads from its arguments, and how it treats an exception.
-- The arguments that LangChain passes are dictionaries of Python values.
pub mod Callback
pub mod Enforce
pub mod WrapNode
use langgraph_lens.Prelude.{
  ℕ, String, Bool, true, false, Option, none, some, List, [], ◌∷◌, if◌then◌else◌, string_eq, ◌==◌,
}
use langgraph_lens.Runtime.{Runtime}
use langgraph_lens.Value.{
  Value, null, bool, int, text, list, dict, Items, cons, nil, Fields, end, field, lookup,
}
use langgraph_lens.Message.{str, text_of}
use langgraph_lens.Decision.{LensDecision}
use langgraph_lens.Intervention.CheckpointProtector.{or_empty}

-- How a call ends: it returns, raises `LensBlockedError`, or raises another exception.
pub data Ending : Type 0 where
  returned : Ending
  blocked : LensDecision → Ending
  failed : Ending

-- How a wrapped call ends: with the result of the call, with `LensBlockedError`, or with the
-- exception of an audit mark that cannot be set or a key that cannot be used.
pub data Run {κ} (R : Type κ) : Type κ where
  ran : R → Run R
  stopped : LensDecision → Run R
  broken : Run R

-- `_safe`: every exception is printed and dropped.
unfoldable pub safe : Ending → Ending
safe e = returned

-- `_safe_or_raise`: only `LensBlockedError` is passed on.
unfoldable pub safe_or_raise : Ending → Ending
safe_or_raise (blocked d) = blocked d
safe_or_raise e = returned

-- `_stringify`
unfoldable pub stringify : Runtime → Value → Option String
stringify rt null = none
stringify rt v = some (str rt v)

-- `inputs if isinstance(inputs, dict) else {"input": inputs}`
unfoldable pub as_state : Value → Fields
as_state (dict fs) = fs
as_state v = field "input" v end

-- `v if isinstance(v, int) else None`; a Boolean is an `int` too.
unfoldable pub int_of : Option Value → Option ℕ
int_of (some (int n)) = some n
int_of (some (bool b)) = some (if b then 1 else 0)
int_of _ = none

abbrev first_some {ℓ} : {A : Type ℓ} → Option A → Option A → Option A
first_some none o = o
first_some (some a) o = some a

-- `x or {}`, then the dictionary that it is
abbrev pub fields_of : Option Value → Fields
fields_of (some (dict fs)) = fs
fields_of _ = end

abbrev pub metadata_of : Option Value → Option Fields
metadata_of (some (dict fs)) = some fs
metadata_of _ = none

last_of : Items → Option Value
last_of nil = none
last_of (cons v nil) = some v
last_of (cons v (cons w vs)) = last_of (cons w vs)

-- `str(serialized["id"][-1])`, of a list that is not empty
unfoldable pub last_text : Runtime → Option Value → Option String
unfolding last_of
last_text rt (some (list vs)) = elim (last_of vs) [ none ↦ none | some v ↦ some (str rt v) ]
last_text rt _ = none

abbrev or_name : String → Option String → String
or_name default none = default
or_name default (some s) = s

-- `_node_name`
unfoldable pub node_name : Runtime → Option Fields → Fields → Option Fields → String
node_name rt serialized kwargs metadata = or_name "<unknown>" (
    first_some (text_of (lookup "langgraph_node" (or_empty metadata))) (
      first_some (text_of (lookup "name" (or_empty serialized))) (
        first_some (last_text rt (lookup "id" (or_empty serialized)))
          (text_of (lookup "name" kwargs)))))

-- `_thread_id_from`
unfoldable pub thread_id_from : Option Fields → Fields → Option String
thread_id_from metadata kwargs = first_some (text_of (lookup "thread_id" (or_empty metadata))) (
    first_some (text_of (lookup "langgraph_thread_id" (or_empty metadata)))
      (text_of (lookup "thread_id" (fields_of (lookup "configurable" kwargs)))))

-- `_recursion_limit_from`
unfoldable pub recursion_limit_from : Option Fields → Fields → Option ℕ
recursion_limit_from metadata kwargs =
    first_some (int_of (lookup "recursion_limit" (or_empty metadata)))
      (int_of (lookup "recursion_limit" kwargs))

-- `_recursion_depth_from`
unfoldable pub recursion_depth_from : Fields → Option ℕ
recursion_depth_from kwargs = int_of (lookup "recursion_depth" kwargs)
