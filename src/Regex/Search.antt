-- ===== src/Regex/Search.antt =====
-- `search` against what an expression accepts: at some place of the text.
use Prim.Native.Char.{code}
use langgraph_lens.Prelude.{
  ℕ, ◌≡◌, ◌⊎◌, ◌↔◌, inl, inr, refl, String, Option, none, some, List, [], ◌∷◌, Option-cases, arith,
}
use langgraph_lens.Regex.{Regex, Cursor, match_here, matched, search_from, search_text, search_any}
use langgraph_lens.Regex.Accepts.{Accepts}
use langgraph_lens.Regex.Semantics.{Sound-match_at, Complete-match_at}

-- A match begins at the cursor.
abbrev pub Begins : Regex → Option ℕ → String → Type 0
Begins r before s =
    let c : Cursor = record { before = before; rest = s } in (d : Cursor) × Accepts r c d

-- A match begins at some place of the text, the end included.
abbrev pub Occurs : Regex → Option ℕ → String → Type 0
Occurs r before String.[] = Begins r before String.[]
Occurs r before (String.◌∷◌ x s) = Begins r before (String.◌∷◌ x s) ⊎ Occurs r (some (code x)) s

module _ (r : Regex) where
  match_here-Begins :
      (before : Option ℕ) (s t : String)
      → match_here r (record { before = before; rest = s }) ≡ some t
      → Begins r before s
  unfolding match_here
  match_here-Begins before s t h =
      let (d, a, last) =
        Sound-match_at r (λ d. some d.rest) (record { before = before; rest = s }) t h in
      (d, a)

  Begins-match_here :
      (before : Option ℕ) (s : String)
      → Begins r before s
      → (t : String) × (match_here r (record { before = before; rest = s }) ≡ some t)
  unfolding match_here
  Begins-match_here before s (d, a) =
      Complete-match_at r (λ e. some e.rest) (record { before = before; rest = s }) d d.rest a refl

  search_from-Occurs :
      (before : Option ℕ) (s m : String) → search_from r before s ≡ some m → Occurs r before s
  unfolding search_from
  search_from-Occurs before String.[] m h =
      elim (Option-cases (match_here r (record { before = before; rest = String.[] }))) [
        | inl fails ↦ ground (arith, fails, h)
        | inr (t, goes) ↦ match_here-Begins before String.[] t goes
      ]
  search_from-Occurs before (String.◌∷◌ x s) m h =
      elim (Option-cases (match_here r (record { before = before; rest = String.◌∷◌ x s }))) [
        | inl fails ↦ inr (search_from-Occurs (some (code x)) s m (ground (arith, fails, h)))
        | inr (t, goes) ↦ inl (match_here-Begins before (String.◌∷◌ x s) t goes)
      ]

  Occurs-search_from :
      (before : Option ℕ) (s : String)
      → Occurs r before s
      → (m : String) × (search_from r before s ≡ some m)
  unfolding search_from
  Occurs-search_from before String.[] b =
      let (t, goes) = Begins-match_here before String.[] b in ("", ground (arith, goes))
  Occurs-search_from before (String.◌∷◌ x s) (inl b) =
      let (t, goes) = Begins-match_here before (String.◌∷◌ x s) b in
      (matched (String.◌∷◌ x s) t, ground (arith, goes))
  Occurs-search_from before (String.◌∷◌ x s) (inr later) =
      elim (Option-cases (match_here r (record { before = before; rest = String.◌∷◌ x s }))) [
        | inl fails ↦
            let (m, goes) = Occurs-search_from (some (code x)) s later in
            (m, ground (arith, fails, goes))
        | inr (t, goes) ↦ (matched (String.◌∷◌ x s) t, ground (arith, goes))
      ]

  -- The search finds something exactly if a match begins at some place of the text.
  pub search_text-Occurs :
      (s : String) → ((m : String) × (search_text r s ≡ some m)) ↔ Occurs r none s
  unfolding search_text
  search_text-Occurs s = (λ (m, h). search_from-Occurs none s m h, Occurs-search_from none s)

-- Some expression of the list occurs.
abbrev pub OccursAny : List Regex → String → Type 0
OccursAny [] s = ⊥
OccursAny (r ∷ rs) s = Occurs r none s ⊎ OccursAny rs s

search_any-OccursAny : (rs : List Regex) (s m : String) → search_any rs s ≡ some m → OccursAny rs s
unfolding search_any
search_any-OccursAny [] s m h = ground (arith, h)
search_any-OccursAny (r ∷ rs) s m h = elim (Option-cases (search_text r s)) [
  | inl fails ↦ inr (search_any-OccursAny rs s m (ground (arith, fails, h)))
  | inr (t, goes) ↦ inl ((search_text-Occurs r s).0 (t, goes))
]

OccursAny-search_any :
    (rs : List Regex) (s : String) → OccursAny rs s → (m : String) × (search_any rs s ≡ some m)
unfolding search_any
OccursAny-search_any [] s never = elim never [ ]
OccursAny-search_any (r ∷ rs) s (inl o) =
    let (m, goes) = (search_text-Occurs r s).1 o in (m, ground (arith, goes))
OccursAny-search_any (r ∷ rs) s (inr later) = elim (Option-cases (search_text r s)) [
  | inl fails ↦ let (m, goes) = OccursAny-search_any rs s later in (m, ground (arith, fails, goes))
  | inr (t, goes) ↦ (t, ground (arith, goes))
]

-- The first match of a list of expressions is there exactly if some expression occurs.
pub search_any_lem :
    (rs : List Regex) (s : String) → ((m : String) × (search_any rs s ≡ some m)) ↔ OccursAny rs s
search_any_lem rs s = (λ (m, h). search_any-OccursAny rs s m h, OccursAny-search_any rs s)
