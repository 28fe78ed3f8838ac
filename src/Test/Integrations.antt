-- ===== src/Test/Integrations.antt =====
-- The wrappers of savers and of tools, and the walk over the classes, at small inputs.
use langgraph_lens.Prelude.{
  ℕ, zero, suc, ◌≡◌, ◌≢◌, refl, true, false, none, some, String, List, [], ◌∷◌, arith, contains,
  nat_eq, ◌==◌, ◌||◌,
}
use langgraph_lens.Value.{Value, end}
use langgraph_lens.Detector.Checkpoint
use langgraph_lens.Detector.Checkpoint.{Blob, decoded}
use langgraph_lens.Prelude.Dict
use langgraph_lens.Tool
use langgraph_lens.Middleware.Callback.{Callback}
use langgraph_lens.Integrations.{Lenses, resolve_lens}
use langgraph_lens.Integrations.Saver.{Loaded, checkpoint_tuple}
use langgraph_lens.Integrations.Classes.{
  ClassTable, Patches, is_flagged, install, walk, round, patch, extended, unseen,
}
use langgraph_lens.Integrations.Classes.Walk.{IsClosed}
use langgraph_lens.Integrations.Classes.Flags.{here, down, install_flags}
use langgraph_lens.Integrations.Classes.Heirs.{IsHeir, heir_unwrapped}
use langgraph_lens.Test.Lens.{fresh}

-- A store of the checkpoints that were put, and the last of them.
abbrev put : Value → Blob → Value → List Blob → ℕ × List Blob
put config checkpoint metadata saved = (7, checkpoint ∷ saved)

abbrev get : Value → List Blob → Loaded × List Blob
get config saved = (checkpoint_tuple (some (decoded end)) none, saved)

abbrev enforcing : Callback
enforcing = record { enforce_blocks = true; tool_allowlist = none }

abbrev lenses : Lenses
lenses = record { own = none; global = some fresh }

abbrev stream : List ℕ
stream = 0x80 ∷ 4 ∷ b'c' ∷ b'.' ∷ []

abbrev below : ℕ → List ℕ
below zero = 1 ∷ []
below (suc zero) = 2 ∷ []
below (suc (suc n)) = []

abbrev ancestors : ℕ → List ℕ
ancestors zero = 0 ∷ []
ancestors (suc zero) = 1 ∷ 0 ∷ []
ancestors (suc (suc n)) = suc (suc n) ∷ 1 ∷ 0 ∷ []

-- The base 0, a saver class 1 below it, and a class 2 below that.
abbrev chain : ClassTable
chain = record { classes = 0 ∷ 1 ∷ 2 ∷ []; subclasses = below; mro = ancestors }

abbrev no_patches : Patches
no_patches = record { patched = []; hooked = false }

own_mro : (c : ℕ) → contains (chain.mro c) c ≡ true
unfolding nat_eq
own_mro zero = refl
own_mro (suc zero) = refl
own_mro (suc (suc n)) = ground arith

chain-IsClosed : IsClosed chain
unfolding nat_eq
chain-IsClosed zero h = (refl, tt)
chain-IsClosed (suc zero) h = (refl, tt)
chain-IsClosed (suc (suc n)) h = tt

install_flags_example :
    (n : ℕ) × (ps : Patches) × (install false (some fresh) none (some 0) chain no_patches
      ≡ some (n, ps))
    × (ps.hooked ≡ true)
    × ((◌==◌ {A = ℕ} 2 0 || is_flagged chain ps.patched 2) ≡ true)
unfolding nat_eq
install_flags_example =
    install_flags chain 0 2 (some fresh) none fresh no_patches chain-IsClosed refl own_mro
      (unfold resolve_lens in refl) (down 1 2 (down 0 1 here refl) refl)

abbrev wrapped_classes : List ℕ
wrapped_classes = 1 ∷ []

heir_apart : (p : ℕ) → contains (chain.subclasses p) 2 ≡ true → p ≢ 0
heir_apart zero listed = ground (arith, listed)
heir_apart (suc p) listed = omega arith

heir_within :
    (p q : ℕ)
    → contains (chain.subclasses p) 2 ≡ true
    → contains (chain.mro p) q ≡ true
    → contains (chain.mro 2) q ≡ true
heir_within zero q listed within = ground (arith, listed)
heir_within (suc zero) q listed within = ground (arith, within)
heir_within (suc (suc n)) q listed within = ground (arith, listed)

heir : IsHeir chain 0 2
heir = (omega arith, heir_apart, heir_within)

heir_unwrapped_example : contains wrapped_classes 2 ≡ false
unfolding nat_eq
heir_unwrapped_example =
    heir_unwrapped chain 0 2 own_mro heir (some fresh) none 1 no_patches
      (record { patched = wrapped_classes; hooked = true }) refl
      (unfold resolve_lens install walk round patch is_flagged extended unseen nat_eq in refl)

-- A node that counts its runs.
abbrev node : Value → ℕ → String × ℕ
node state runs = ("done", suc runs)
