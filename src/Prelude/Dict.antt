-- ===== src/Prelude/Dict.antt =====
-- Python dicts in insertion order. Proofs elsewhere go by the laws; only tests unfold these.
use mathlib.Core.Path.{◌≡◌, refl}
use mathlib.Core.Logic.{◌≢◌}
use mathlib.Core.Option.{Option, none, some}
use mathlib.Core.List.{List, [], ◌∷◌}
use native.Mathlib.Omega.{arith}
use langgraph_lens.Prelude.Equality.{Eq, ◌==◌}
use langgraph_lens.Prelude.Tests.{if◌then◌else◌, Option-cases}
use mathlib.Core.Logic.{inl, inr}

abbrev pub Dict {ℓ κ} : Type ℓ → Type κ → Type (ℓ ⊔ κ)
Dict K V = List (K × V)

module _ {ℓ κ} {K : Type ℓ} {V : Type κ} ⦃e : Eq K⦄ where
  -- `d.get(k)`
  unfoldable pub get : K → Dict K V → Option V
  get k [] = none
  get k ((j, v) ∷ d) = if k == j then some v else get k d

  -- `d[k] = v`
  unfoldable pub put : K → V → Dict K V → Dict K V
  put k v [] = (k, v) ∷ []
  put k v ((j, w) ∷ d) = if k == j then (j, v) ∷ d else (j, w) ∷ put k v d

  -- `d.pop(k, None)`
  unfoldable pub pop : K → Dict K V → Dict K V
  pop k [] = []
  pop k ((j, w) ∷ d) = let rest = pop k d in if k == j then rest else (j, w) ∷ rest

  pub get-put :
      (j k : K) (v : V) (d : Dict K V) → get j (put k v d) ≡ (if j == k then some v else get j d)
  unfolding get put
  get-put j k v [] = refl
  get-put j k v ((i, w) ∷ d) = ground (arith, get-put j k v d)

  pub get-pop : (j k : K) (d : Dict K V) → get j (pop k d) ≡ (if j == k then none else get j d)
  unfolding get pop
  get-pop j k [] = ground arith
  get-pop j k ((i, w) ∷ d) = ground (arith, get-pop j k d)

  -- `d.setdefault(k, v)`
  unfoldable pub setdefault : K → V → Dict K V → Dict K V
  setdefault k v d = elim (get k d) [ none ↦ put k v d | some _ ↦ d ]

  pub get-setdefault :
      (j k : K) (v : V) (d : Dict K V)
      → get j (setdefault k v d)
        ≡ elim (get j d) [ some w ↦ some w | none ↦ (if j == k then some v else none) ]
  unfolding setdefault
  get-setdefault j k v d = ground (arith, get-put j k v d)

  -- A key that is there keeps its value, so a second call changes nothing.
  pub setdefault_present :
      (k : K) (v w : V) (d : Dict K V) → get k d ≡ some w → setdefault k v d ≡ d
  unfolding setdefault
  setdefault_present k v w d h = ground arith

  -- The key is there.
  abbrev pub Has : K → Dict K V → Type κ
  Has k d = (w : V) × (get k d ≡ some w)

  pub Has-setdefault_self : (k : K) (v : V) (d : Dict K V) → Has k (setdefault k v d)
  Has-setdefault_self k v d = elim (Option-cases (get k d)) [
    | inl e ↦ (v, rw get-setdefault (ground arith))
    | inr (w, e) ↦ (w, rw get-setdefault (rw e))
  ]

  pub Has-setdefault : (k j : K) (v : V) (d : Dict K V) → Has k d → Has k (setdefault j v d)
  Has-setdefault k j v d (w, e) = (w, rw get-setdefault (rw e))

  pub setdefault-Has : (k : K) (v : V) (d : Dict K V) → Has k d → setdefault k v d ≡ d
  setdefault-Has k v d (w, e) = setdefault_present k v w d e

  pub get-setdefault_kept :
      (k j : K) (v w : V) (d : Dict K V) → get k d ≡ some w → get k (setdefault j v d) ≡ some w
  get-setdefault_kept k j v w d e = rw get-setdefault (rw e)

  pub get-setdefault_self :
      (k : K) (v : V) (d : Dict K V) → get k d ≡ none → get k (setdefault k v d) ≡ some v
  unfolding setdefault
  get-setdefault_self k v d e = ground (arith, get-put k k v d)

  pub get-setdefault_ne :
      (k j : K) (v : V) (d : Dict K V) → k ≢ j → get k (setdefault j v d) ≡ get k d
  unfolding setdefault
  get-setdefault_ne k j v d h = ground (arith, get-put k j v d)
