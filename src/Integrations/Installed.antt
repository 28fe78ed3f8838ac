-- ===== src/Integrations/Installed.antt =====
-- integrations/checkpoint.py, integrations/store.py: an instance that is wrapped by itself. Stores
-- have nearly the same code as savers, with a flag and a base class of their own.
use langgraph_lens.Prelude.{
  ℕ, ◌+◌, Bool, true, false, [], Option, none, some, ◌∷◌, if◌then◌else◌, nat_eq,
}
use langgraph_lens.Prelude.Dict.{Dict, get, put}
use langgraph_lens.Lens.{Lens}
use langgraph_lens.Integrations.{resolve_lens}
use langgraph_lens.Integrations.Classes.{ClassTable, Patches, is_flagged, install}

-- The protected subclasses that were made: how many, and those that are remembered at a class.
pub record Built : Type 0 where
  pub made : ℕ
  pub cached : Dict ℕ ℕ

-- `_build_protected_class`: the number of the subclass; `takes` is whether a class takes a new attribute.
unfoldable pub build_protected_class : (ℕ → Bool) → ℕ → Built → ℕ × Built
build_protected_class takes c b = elim (get c b.cached) [
  | some p ↦ (p, b)
  | none ↦ (
    b.made,
    record b { made = b.made + 1; cached = if takes c then put c b.made b.cached else b.cached },
  )
]

-- A saver or a store: the class it was made of, the protected subclass that it was exchanged for, and
-- its `_lens`.
pub record Instance : Type 0 where
  pub class : ℕ
  pub exchanged : Option ℕ
  pub lens : Option Lens

-- `is_saver_protected`, `is_store_protected`: the protected subclass has the flag.
unfoldable pub is_protected : ClassTable → Patches → Instance → Bool
is_protected t ps i = elim i.exchanged [ some p ↦ true | none ↦ is_flagged t ps.patched i.class ]

-- `protect_saver`, `protect_store`; `slotted` is whether Python refuses to exchange the class of such
-- an instance, which it does behind the making of the subclass.
unfoldable pub protect :
    ClassTable
    → (ℕ → Bool)
    → Bool
    → Option Lens
    → Option Lens
    → Instance
    → Patches
    → Built
    → Instance × Patches × Built
protect t takes slotted lens global i ps b =
    let (p, b') = build_protected_class takes i.class b in
    elim (resolve_lens lens global) [
      | none ↦ (i, ps, b)
      | some l ↦
          if is_protected t ps i
          then (i, ps, b)
          else if slotted
          then (i, record ps { patched = i.class ∷ ps.patched }, b')
          else (record i { exchanged = some p; lens = some l }, ps, b')
    ]

-- The same of integrations/store.py, on the classes of stores; it remembers no subclass.
abbrev pub protect_store :
    ClassTable
    → Bool
    → Option Lens
    → Option Lens
    → Instance
    → Patches
    → ℕ
    → Instance × Patches × Built
protect_store t slotted lens global i ps made =
    protect t (λ c. false) slotted lens global i ps (record { made = made; cached = [] })

-- The same code of integrations/store.py, on the classes of stores.
abbrev pub install_store_auto_protection :
    Bool → Option Lens → Option Lens → Option ℕ → ClassTable → Patches → Option (ℕ × Patches)
install_store_auto_protection = install
