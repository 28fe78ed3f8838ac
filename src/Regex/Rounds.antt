-- ===== src/Regex/Rounds.antt =====
-- The rounds of a repetition, against any number of rounds of a relation.
use langgraph_lens.Prelude.{
  ℕ, zero, suc, ◌-◌, ◌≤◌, ◌<◌, ◌≡◌, inl, inr, sym, ap, ◌∙◌, subst, String, true, false, Option,
  none, some, Option-cases, ltb, lt→ltb, arith,
}
use langgraph_lens.Text.{text_length}
use langgraph_lens.Regex.{Cursor, Next, rounds}
use langgraph_lens.Regex.Accepts.{Repeated, done, more, Advances}

-- What a matcher `one` returns with what follows comes from a match of `A`, and the other way round
-- something is returned wherever `A` matches and what follows returns something.
abbrev pub Sound : (Next → Next) → (Cursor → Cursor → Type 0) → Type 0
Sound one A =
    (next : Next) (c : Cursor) (t : String)
    → one next c ≡ some t
    → (d : Cursor) × A c d × (next d ≡ some t)

abbrev pub Complete : (Next → Next) → (Cursor → Cursor → Type 0) → Type 0
Complete one A =
    (next : Next) (c d : Cursor) (t : String)
    → A c d
    → next d ≡ some t
    → (u : String) × (one next c ≡ some u)

-- What follows one round that consumes something.
abbrev again : (Next → Next) → ℕ → Next → Cursor → Next
again one fuel next c d = elim (ltb (text_length d.rest) (text_length c.rest)) [
  | true ↦ rounds one fuel next d
  | false ↦ none
]

-- The first result, if there is one.
abbrev first : Option String → Option String → Option String
first (some s) o = some s
first none o = o

rounds-suc :
    (one : Next → Next) (fuel : ℕ) (next : Next) (c : Cursor)
    → rounds one (suc fuel) next c ≡ first (one (again one fuel next c) c) (next c)
unfolding rounds
rounds-suc one fuel next c = ground arith

again-some :
    (one : Next → Next) (fuel : ℕ) (next : Next) (c d : Cursor) (t : String)
    → again one fuel next c d ≡ some t
    → rounds one fuel next d ≡ some t
again-some one fuel next c d t h = ground (arith, h)

again_less :
    (one : Next → Next) (fuel : ℕ) (next : Next) (c d : Cursor)
    → text_length d.rest < text_length c.rest
    → again one fuel next c d ≡ rounds one fuel next d
again_less one fuel next c d less =
    ground (arith, less, lt→ltb (text_length d.rest) (text_length c.rest) less)

module _ (one : Next → Next) (A : Cursor → Cursor → Type 0) where
  pub Sound-rounds : Sound one A → (fuel : ℕ) → Sound (rounds one fuel) (Repeated A)
  unfolding rounds
  Sound-rounds sound zero next c t h = (c, done, h)
  Sound-rounds sound (suc fuel) next c t h =
      let k = again one fuel next c in
      let tried : first (one k c) (next c) ≡ some t = sym (rounds-suc one fuel next c) ∙ h in
      elim (Option-cases (one k c)) [
        | inl stops ↦ (c, done, ground (arith, stops, tried))
        | inr (u, goes) ↦
            let same : u ≡ t = ground (arith, goes, tried) in
            let (d, a, on) = sound k c t (goes ∙ ap some same) in
            let (e, rest, last) =
              Sound-rounds sound fuel next d t (again-some one fuel next c d t on) in
            (e, more a rest, last)
      ]

  pub Complete-rounds :
      Complete one A
      → ((c d : Cursor) → A c d → Advances c d)
      → (fuel : ℕ) (next : Next) (c d : Cursor) (t : String) → text_length c.rest ≤ fuel
      → Repeated A c d
      → next d ≡ some t
      → (u : String) × (rounds one fuel next c ≡ some u)
  unfolding rounds
  Complete-rounds complete onward zero next c _ t fits done h = (t, h)
  Complete-rounds complete onward (suc fuel) next c _ t fits done h =
      let k = again one fuel next c in
      elim (Option-cases (one k c)) [
        | inl stops ↦ (t, rounds-suc one fuel next c ∙ ground (arith, stops, h))
        | inr (u, goes) ↦ (u, rounds-suc one fuel next c ∙ ground (arith, goes))
      ]
  Complete-rounds complete onward fuel next c e t fits (more {d} a rest) h = elim (onward c d a) [
    | inl same ↦
        let less = ap (λ (k : Cursor). text_length k.rest) same in
        subst (λ x. (u : String) × (rounds one fuel next x ≡ some u)) same
          (Complete-rounds complete onward fuel next d e t (omega (arith, fits, less)) rest h)
    | inr less ↦
        let f : ℕ = fuel - 1 in
        let (u, on) =
          Complete-rounds complete onward f next d e t (omega (arith, fits, less)) rest h in
        let (v, goes) =
          complete (again one f next c) c d u a (again_less one f next c d less ∙ on) in
        let full : fuel ≡ suc f = omega (arith, fits, less) in
        subst (λ x. (y : String) × (rounds one x next c ≡ some y)) (sym full)
          (v, rounds-suc one f next c ∙ ground (arith, goes))
  ]
