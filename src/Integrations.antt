-- ===== src/Integrations.antt =====
-- integrations/: the wrappers of checkpoint savers and of stores, and the lens that they use.
pub mod Saver
pub mod Store
pub mod Classes
pub mod Installed
pub mod Global
use langgraph_lens.Prelude.{String, Option, none, some, List, [], ◌∷◌}
use langgraph_lens.Value.{Value, dict, Fields, lookup}
use langgraph_lens.Message.{text_of}
use langgraph_lens.Lens.{Lens}
use langgraph_lens.Middleware.{fields_of}

-- The lens of an instance, `_lens`, and the global one, `_GLOBAL_LENS`.
pub record Lenses : Type 0 where
  pub own : Option Lens
  pub global : Option Lens

-- `getattr(self, "_lens", None)`, or the global one
unfoldable pub active : Lenses → Option Lens
active s = elim s.own [ none ↦ s.global | some l ↦ some l ]

-- The lens in use, as a call leaves it.
unfoldable pub keep_lens : Lens → Lenses → Lenses
keep_lens l s = elim s.own [
  | none ↦ record s { global = some l }
  | some old ↦ record s { own = some l }
]

-- `_resolve_lens`
unfoldable pub resolve_lens : Option Lens → Option Lens → Option Lens
resolve_lens (some l) global = some l
resolve_lens none global = global

-- `_thread_id_from_config`
unfoldable pub thread_id_from_config : Value → Option String
thread_id_from_config (dict fs) =
    text_of (lookup "thread_id" (fields_of (lookup "configurable" fs)))
thread_id_from_config v = none

-- `_checkpoint_id_from_config`
unfoldable pub checkpoint_id_from_config : Value → Option String
checkpoint_id_from_config (dict fs) =
    text_of (lookup "checkpoint_id" (fields_of (lookup "configurable" fs)))
checkpoint_id_from_config v = none
