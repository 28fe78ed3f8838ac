-- ===== src/Integrations/Classes/Heirs.antt =====
-- Classes that reach the base only through another class below it.
use langgraph_lens.Prelude.{
  ℕ, zero, suc, ◌≡◌, ◌≢◌, refl, sym, ap, ◌∙◌, subst, true, false, Option, none, some, List, [], ◌∷◌,
  arith, contains, Bool-cases, inl, inr, nat_eq,
}
use langgraph_lens.Lens.{Lens}
use langgraph_lens.Integrations.{resolve_lens}
use langgraph_lens.Integrations.Classes.{
  ClassTable, Patches, Round, any_patched, is_flagged, patch, round, walk, install, start, enough,
  with_lens, finished,
}
use langgraph_lens.Integrations.Classes.Walk.{
  round_again, round_new, walk_stop, walk_step, walk_stuck,
}
use langgraph_lens.Integrations.Classes.Flags.{flagged_round, new_flagged, contains-extended}

any_patched_at :
    (ps ds : List ℕ) (q : ℕ)
    → contains ps q ≡ true
    → contains ds q ≡ true
    → any_patched ps ds ≡ true
any_patched_at ps [] q marked there = ground (arith, there)
any_patched_at ps (d ∷ ds) q marked there = elim (nat_eq.dec q d) [
  | yes same ↦ let here = subst (λ x. contains ps x ≡ true) same marked in ground (arith, here)
  | no differ ↦ ground (arith, there, differ, any_patched_at ps ds q marked)
]

any_patched_within :
    (ps cs ds : List ℕ)
    → ((q : ℕ) → contains cs q ≡ true → contains ds q ≡ true)
    → any_patched ps cs ≡ true
    → any_patched ps ds ≡ true
any_patched_within ps [] ds sub h = ground (arith, h)
any_patched_within ps (c ∷ cs) ds sub h = elim (Bool-cases (contains ps c)) [
  | inl marked ↦ any_patched_at ps ds c marked (sub c (ground arith))
  | inr bare ↦
      any_patched_within ps cs ds (λ q there. sub q (ground (arith, there)))
        (ground (arith, h, bare))
]

-- `c` is not below the base itself, only below classes that have all their own `__mro__` in its.
abbrev pub IsHeir : ClassTable → ℕ → ℕ → Type 0
IsHeir t base c =
    (c ≢ base)
    × ((p : ℕ) → contains (t.subclasses p) c ≡ true → p ≢ base)
    × ((p q : ℕ)
        → contains (t.subclasses p) c ≡ true
        → contains (t.mro p) q ≡ true
        → contains (t.mro c) q ≡ true)

module _ (t : ClassTable) (base c : ℕ) (self : (b : ℕ) → contains (t.mro b) b ≡ true)
    (heir : IsHeir t base c) where
  -- What holds of `c` before each round.
  pub record IsSpared (r : Round) (stack : List ℕ) : Type 0 where
    pub flagged : contains stack c ≡ true → is_flagged t r.patched c ≡ true
    pub bare : contains r.patched c ≡ false

  kept_bare :
      (b : ℕ) (rest : List ℕ) (r : Round)
      → IsSpared r (b ∷ rest)
      → contains (round t base b rest r).patched c ≡ false
  unfolding round patch
  kept_bare b rest r h = elim (nat_eq.dec b c) [
    | yes same ↦
        let marked : is_flagged t r.patched b ≡ true =
          subst (λ x. is_flagged t r.patched x ≡ true) (sym same)
            (h.flagged (ground (arith, same))) in
        ground (arith, h.bare, marked)
    | no differ ↦ ground (arith, h.bare, differ)
  ]

  kept_flag :
      (b : ℕ) (rest : List ℕ) (r : Round)
      → contains r.seen b ≡ false
      → IsSpared r (b ∷ rest)
      → let next = round t base b rest r in
        contains next.stack c ≡ true → is_flagged t next.patched c ≡ true
  unfolding is_flagged
  kept_flag b rest r new h there =
      let next = round t base b rest r in
      elim (Bool-cases (contains (t.subclasses b) c)) [
        | inl below ↦
            any_patched_within next.patched (t.mro b) (t.mro c) (λ q. heir.2 b q below)
              (new_flagged t base b rest r (self b) new (heir.1 b below))
        | inr apart ↦
            let listed = ap (λ s. contains s c) (round_new t base b rest r new).0 in
            let left : contains rest c ≡ true =
              ground (arith, there, listed, apart, contains-extended (t.subclasses b) rest c) in
            flagged_round t base b rest r c (h.flagged (ground (arith, left)))
      ]

  IsSpared-round :
      (b : ℕ) (rest : List ℕ) (r : Round)
      → IsSpared r (b ∷ rest)
      → let next = round t base b rest r in IsSpared next next.stack
  IsSpared-round b rest r h = elim (Bool-cases (contains r.seen b)) [
    | inl again ↦
        rw (round_again t base b rest r again)
          (record { flagged = λ there. h.flagged (ground (arith, there)); bare = h.bare })
    | inr new ↦ record { flagged = kept_flag b rest r new h; bare = kept_bare b rest r h }
  ]

  IsSpared-walk :
      (fuel : ℕ) (stack : List ℕ) (r r' : Round)
      → r.stack ≡ stack
      → IsSpared r stack
      → walk t base fuel r ≡ some r'
      → contains r'.patched c ≡ false
  IsSpared-walk fuel [] r r' e h done =
      let both : some r ≡ some r' = sym (walk_stop t base fuel r e) ∙ done in
      let same : r ≡ r' = cc in subst (λ x. contains x.patched c ≡ false) same h.bare
  IsSpared-walk zero (b ∷ rest) r r' e h done =
      let stuck : none ≡ some r' = sym (walk_stuck t base b rest r e) ∙ done in
      ground (arith, stuck)
  IsSpared-walk (suc fuel) (b ∷ rest) r r' e h done =
      let next = round t base b rest r in
      IsSpared-walk fuel next.stack next r' refl (IsSpared-round b rest r h)
        (sym (walk_step t base fuel b rest r e) ∙ done)

  bare_end :
      (n : ℕ) (ps ps' : Patches) (o : Option Lens) (w : Option Round)
      → contains ps.patched c ≡ false
      → ((r : Round) → w ≡ some r → contains r.patched c ≡ false)
      → with_lens o ps (finished w) ≡ some (n, ps')
      → contains ps'.patched c ≡ false
  bare_end n ps ps' none w bare walked done =
      let same : ps ≡ ps' = cc in subst (λ x. contains x.patched c ≡ false) same bare
  bare_end n ps ps' (some l) none bare walked done = ground (arith, done)
  bare_end n ps ps' (some l) (some r) bare walked done =
      let same : record { patched = r.patched; hooked = true } ≡ ps' = cc in
      subst (λ x. contains x.patched c ≡ false) same (walked r refl)

  -- In a table where a class is in its own `__mro__`: a class that is below the base only through
  -- other classes, not itself, whose `__mro__` holds those of the classes that it is directly below,
  -- and that was not wrapped before, is not wrapped by an installation, whether its methods are its
  -- own or not.
  pub heir_unwrapped :
      (lens global : Option Lens) (n : ℕ) (ps ps' : Patches)
      → contains ps.patched c ≡ false
      → install false lens global (some base) t ps ≡ some (n, ps')
      → contains ps'.patched c ≡ false
  unfolding install
  heir_unwrapped lens global n ps ps' bare done =
      bare_end n ps ps' (resolve_lens lens global) _ bare
        (λ r.
          IsSpared-walk (enough t) (base ∷ []) (start base ps.patched) r refl
            (record { flagged = λ there. ground (arith, there, heir.0); bare = bare }))
        done
