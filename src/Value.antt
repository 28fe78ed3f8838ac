-- ===== src/Value.antt =====
-- The Python values that a LangGraph state, a tool's arguments and a checkpoint hold
-- (`dict[str, Any]` in src/langgraph_lens). `object` is a value with attributes and no `get`, such
-- as a `BaseMessage` or a `Send`: its `str(o)`, and the attributes that `getattr` reads. A text of
-- bytes inside a state is such an object; negative numbers do not occur.
use langgraph_lens.Prelude.{ℕ, String, Bool, Option, none, some, List, [], ◌∷◌}
use langgraph_lens.Prelude.{◌==◌, string_eq, if◌then◌else◌}
use langgraph_lens.Time.{Fraction}

mutual
  pub data Value : Type 0 where
    null : Value
    bool : Bool → Value
    int : ℕ → Value
    float : Fraction → Value
    text : String → Value
    list : Items → Value
    dict : Fields → Value
    object : String → Fields → Value

  pub data Items : Type 0 where
    nil : Items
    cons : Value → Items → Items

  pub data Fields : Type 0 where
    end : Fields
    field : String → Value → Fields → Fields

-- `d.get(k)` and `getattr(o, k, None)`
unfoldable pub lookup : String → Fields → Option Value
lookup k end = none
lookup k (field j v fs) = if k == j then some v else lookup k fs

-- `d[k] = v`
unfoldable pub assign : String → Value → Fields → Fields
assign k v end = field k v end
assign k v (field j w fs) = if k == j then field j v fs else field j w (assign k v fs)

pub to_list : Items → List Value
to_list nil = []
to_list (cons v vs) = v ∷ to_list vs

-- A list of texts.
unfoldable pub texts : List String → Items
texts [] = nil
texts (s ∷ ss) = cons (text s) (texts ss)

-- `d.keys()`
unfoldable pub keys : Fields → List String
keys end = []
keys (field k v fs) = k ∷ keys fs
