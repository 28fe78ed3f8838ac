-- ===== src/Integrations/Store.antt =====
-- integrations/store.py: the wrapper of a store's `put`. The method is third-party: any function on
-- a world, which holds what was stored.
use langgraph_lens.Prelude.{String, ◌<>◌, Option, none, some, List, [], ◌∷◌, ◌++◌}
use langgraph_lens.Runtime.{Runtime}
use langgraph_lens.Text.{join}
use langgraph_lens.Value.{Value, list, Items, cons, nil}
use langgraph_lens.Message.{str}
use langgraph_lens.Lens.{Lens}
use langgraph_lens.Lens.Inspect.{inspect_memory_write}
use langgraph_lens.Integrations.{Lenses, active, keep_lens}

-- `[str(p) for p in namespace]`
unfoldable pub parts : Runtime → Items → List String
parts rt nil = []
parts rt (cons v vs) = str rt v ∷ parts rt vs

-- `_key_for`; a tuple is a list here.
unfoldable pub key_for : Runtime → Value → String → String
key_for rt (list vs) key = join "/" (parts rt vs ++ key ∷ [])
key_for rt v key = str rt v <> "/" <> key

-- The lens looks at the write, if there is one.
unfoldable pub watch : Runtime → String → Value → Lenses → Option Lens → Lenses
watch rt key value s none = s
watch rt key value s (some l) =
    let (e, l') = inspect_memory_write rt key value none none none l in keep_lens l' s

-- `put`
unfoldable pub store_put {ℓ κ} :
    {W : Type ℓ} {R : Type κ}
    → (Value → String → Value → W → R × W)
    → Runtime
    → Value
    → String
    → Value
    → W
    → Lenses
    → R × W × Lenses
store_put original rt namespace key value w s =
    let (out, w') = original namespace key value w in
    (out, w', watch rt (key_for rt namespace key) value s (active s))

-- `aput`: the write is looked at before the original is awaited, during which other tasks may change
-- the lenses.
unfoldable pub store_aput {ℓ κ} :
    {W : Type ℓ} {R : Type κ}
    → (Value → String → Value → W × Lenses → R × W × Lenses)
    → Runtime
    → Value
    → String
    → Value
    → W
    → Lenses
    → R × W × Lenses
store_aput original rt namespace key value w s =
    original namespace key value (w, watch rt (key_for rt namespace key) value s (active s))
