-- ===== src/Integrations/Classes.antt =====
-- integrations/checkpoint.py and integrations/store.py: the classes below a base class, and which of
-- them have their methods wrapped. A class is a number. The table of the classes is Python's: it
-- gives `__subclasses__()` and `__mro__`, where a class is the first in its own.
pub mod Walk
pub mod Flags
pub mod Heirs
use langgraph_lens.Prelude.{
  ℕ, zero, suc, ◌+◌, Bool, true, false, not, ◌&&◌, ◌||◌, Option, none, some, List, [], ◌∷◌, ◌++◌,
  contains, length, if◌then◌else◌, nat_eq, ◌==◌,
}
use langgraph_lens.Lens.{Lens}
use langgraph_lens.Integrations.{resolve_lens}

pub record ClassTable : Type 0 where
  -- the classes that there are
  pub classes : List ℕ
  pub subclasses : ℕ → List ℕ
  pub mro : ℕ → List ℕ

-- The classes that have the flag themselves, the last one first: these are the classes whose methods
-- were replaced by wrappers. And whether the hook on the base is installed.
pub record Patches : Type 0 where
  pub patched : List ℕ
  pub hooked : Bool

-- Some class of the list has the flag.
abbrev pub any_patched : List ℕ → List ℕ → Bool
any_patched ps [] = false
any_patched ps (c ∷ cs) = contains ps c || any_patched ps cs

-- `getattr(cls, _LENS_PROTECTED_FLAG, False)`, which looks along the `__mro__`
unfoldable pub is_flagged : ClassTable → List ℕ → ℕ → Bool
is_flagged t ps c = any_patched ps (t.mro c)

-- The state of the loop. The top of the stack is the head of the list.
pub record Round : Type 0 where
  pub stack : List ℕ
  pub seen : List ℕ
  pub patched : List ℕ
  pub count : ℕ

-- `_patch_in_place`, of a class that is not the base and has no flag yet
unfoldable pub patch : ClassTable → ℕ → ℕ → Round → Round
patch t base c r =
    if (c == base) || is_flagged t r.patched c
    then r
    else record r { patched = c ∷ r.patched; count = suc r.count }

-- `stack.extend(subclasses)`
unfoldable pub extended : List ℕ → List ℕ → List ℕ
extended [] stack = stack
extended (c ∷ cs) stack = extended cs (c ∷ stack)

-- The body of the loop, behind `cls = stack.pop()`
unfoldable pub round : ClassTable → ℕ → ℕ → List ℕ → Round → Round
round t base c rest r =
    if contains r.seen c
    then record r { stack = rest }
    else patch t base c (record r { stack = extended (t.subclasses c) rest; seen = c ∷ r.seen })

-- The loop, on fuel; `none` if it does not suffice.
unfoldable pub walk : ClassTable → ℕ → ℕ → Round → Option Round
walk t base zero r = elim r.stack [ [] ↦ some r | c ∷ rest ↦ none ]
walk t base (suc fuel) r = elim r.stack [
  | [] ↦ some r
  | c ∷ rest ↦ walk t base fuel (round t base c rest r)
]

-- The number of subclass entries of the classes that are not seen yet.
unfoldable pub unseen : ClassTable → List ℕ → List ℕ → ℕ
unseen t seen [] = 0
unseen t seen (c ∷ cs) = (if contains seen c then 0 else length (t.subclasses c)) + unseen t seen cs

-- The fuel for the walk from the base.
abbrev pub enough : ClassTable → ℕ
enough t = 1 + unseen t [] t.classes

abbrev pub start : ℕ → List ℕ → Round
start base ps = record { stack = base ∷ []; seen = []; patched = ps; count = 0 }

-- The end of an installation: the hook is installed, or was.
abbrev pub finished : Option Round → Option (ℕ × Patches)
finished none = none
finished (some r) = some (r.count, record { patched = r.patched; hooked = true })

-- Without a lens nothing is done.
abbrev pub with_lens : Option Lens → Patches → Option (ℕ × Patches) → Option (ℕ × Patches)
with_lens none ps installed = some (0, ps)
with_lens (some l) ps installed = installed

-- `install_saver_auto_protection`, and `install_store_auto_protection`, with the setting of
-- `LANGGRAPH_LENS_AUTO_PROTECT` and the base class, if it can be imported
unfoldable pub install :
    Bool → Option Lens → Option Lens → Option ℕ → ClassTable → Patches → Option (ℕ × Patches)
install opted_out lens global none t ps = some (0, ps)
install opted_out lens global (some base) t ps =
    if opted_out
    then some (0, ps)
    else with_lens (resolve_lens lens global) ps
        (finished (walk t base (enough t) (start base ps.patched)))

-- `_install_subclass_hook`: what happens to a class that is made later
unfoldable pub define_class : ClassTable → ℕ → Patches → Patches
define_class t c ps =
    if ps.hooked && not (is_flagged t ps.patched c)
    then record ps { patched = c ∷ ps.patched }
    else ps
