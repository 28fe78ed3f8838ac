-- ===== src/Integrations/Classes/Walk.antt =====
-- The loop over the classes, its rounds and its measure.
use langgraph_lens.Prelude.{
  ℕ, zero, suc, ◌+◌, ◌≤◌, ◌≡◌, refl, ap, ◌∙◌, subst, true, false, Option, none, some, List, [], ◌∷◌,
  arith, contains, length, All, Bool-cases, inl, inr, nat_eq,
}
use langgraph_lens.Integrations.Classes.{ClassTable, Round, patch, extended, round, walk, unseen}

-- Every class that the table gives is among its classes.
abbrev pub IsClosed : ClassTable → Type 0
IsClosed t =
    (c : ℕ) → contains t.classes c ≡ true → All (λ d. contains t.classes d ≡ true) (t.subclasses c)

abbrev pub Known : ClassTable → List ℕ → Type 0
Known t cs = All (λ d. contains t.classes d ≡ true) cs

length-extended : (cs stack : List ℕ) → length (extended cs stack) ≡ length cs + length stack
unfolding extended
length-extended [] stack = omega arith
length-extended (c ∷ cs) stack = omega (arith, length-extended cs (c ∷ stack))

Known-extended :
    (t : ClassTable) (cs stack : List ℕ) → Known t cs → Known t stack → Known t (extended cs stack)
unfolding extended
Known-extended t [] stack hc hs = hs
Known-extended t (c ∷ cs) stack hc hs = Known-extended t cs (c ∷ stack) hc.1 (hc.0, hs)

unseen_less :
    (t : ClassTable) (c : ℕ) (seen cs : List ℕ) → unseen t (c ∷ seen) cs ≤ unseen t seen cs
unfolding unseen
unseen_less t c seen [] = omega arith
unseen_less t c seen (d ∷ cs) = ground (arith, unseen_less t c seen cs)

unseen_seen :
    (t : ClassTable) (c : ℕ) (seen cs : List ℕ)
    → contains cs c ≡ true
    → contains seen c ≡ false
    → unseen t (c ∷ seen) cs + length (t.subclasses c) ≤ unseen t seen cs
unfolding unseen
unseen_seen t c seen [] there new = ground arith
unseen_seen t c seen (d ∷ cs) there new = elim (nat_eq.dec c d) [
  | yes same ↦
      subst (λ x. unseen t (c ∷ seen) (x ∷ cs) + length (t.subclasses c) ≤ unseen t seen (x ∷ cs))
        same (ground (arith, new, unseen_less t c seen cs))
  | no differ ↦ ground (arith, there, new, differ, unseen_seen t c seen cs)
]

-- A round at a class that was seen, and at one that was not.
pub round_again :
    (t : ClassTable) (base c : ℕ) (rest : List ℕ) (r : Round)
    → contains r.seen c ≡ true
    → round t base c rest r ≡ record r { stack = rest }
unfolding round
round_again t base c rest r again = simp again

pub round_new :
    (t : ClassTable) (base c : ℕ) (rest : List ℕ) (r : Round)
    → contains r.seen c ≡ false
    → ((round t base c rest r).stack ≡ extended (t.subclasses c) rest)
      × ((round t base c rest r).seen ≡ c ∷ r.seen)
unfolding round patch
round_new t base c rest r new = (ground (arith, new), ground (arith, new))

pub walk_stop :
    (t : ClassTable) (base fuel : ℕ) (r : Round) → r.stack ≡ [] → walk t base fuel r ≡ some r
unfolding walk
walk_stop t base zero r e =
    ap (λ s. elim s as (λ _. Option Round) [ [] ↦ some r | c ∷ rest ↦ none ]) e
walk_stop t base (suc fuel) r e =
    ap
      (λ s. elim s as (λ _. Option Round) [
        | [] ↦ some r
        | c ∷ rest ↦ walk t base fuel (round t base c rest r)
      ])
      e

pub walk_stuck :
    (t : ClassTable) (base c : ℕ) (rest : List ℕ) (r : Round)
    → r.stack ≡ c ∷ rest
    → walk t base 0 r ≡ none
unfolding walk
walk_stuck t base c rest r e =
    ap (λ s. elim s as (λ _. Option Round) [ [] ↦ some r | b ∷ bs ↦ none ]) e

pub walk_step :
    (t : ClassTable) (base fuel c : ℕ) (rest : List ℕ) (r : Round)
    → r.stack ≡ c ∷ rest
    → walk t base (suc fuel) r ≡ walk t base fuel (round t base c rest r)
unfolding walk
walk_step t base fuel c rest r e =
    ap
      (λ s. elim s as (λ _. Option Round) [
        | [] ↦ some r
        | b ∷ bs ↦ walk t base fuel (round t base b bs r)
      ])
      e

module _ (t : ClassTable) (base : ℕ) (closed : IsClosed t) where
  Known-round :
      (c : ℕ) (rest : List ℕ) (r : Round)
      → Known t (c ∷ rest)
      → Known t (round t base c rest r).stack
  Known-round c rest r known = elim (Bool-cases (contains r.seen c)) [
    | inl again ↦ rw (round_again t base c rest r again) known.1
    | inr new ↦
        rw ((round_new t base c rest r new).0)
          (Known-extended t (t.subclasses c) rest (closed c known.0) known.1)
  ]

  measure_round :
      (c : ℕ) (rest : List ℕ) (r : Round)
      → contains t.classes c ≡ true
      → suc (length (round t base c rest r).stack + unseen t (round t base c rest r).seen t.classes)
        ≤ suc (length rest) + unseen t r.seen t.classes
  measure_round c rest r here = elim (Bool-cases (contains r.seen c)) [
    | inl again ↦ rw (round_again t base c rest r again) (omega arith)
    | inr new ↦
        rw ((round_new t base c rest r new).0, (round_new t base c rest r new).1)
          (omega (
            arith,
            length-extended (t.subclasses c) rest,
            unseen_seen t c r.seen t.classes here new,
          ))
  ]

  pub walk_ends_at :
      (fuel : ℕ) (stack : List ℕ) (r : Round)
      → r.stack ≡ stack
      → Known t stack
      → length stack + unseen t r.seen t.classes ≤ fuel
      → (r' : Round) × (walk t base fuel r ≡ some r')
  walk_ends_at fuel [] r e known fits = (r, walk_stop t base fuel r e)
  walk_ends_at zero (c ∷ rest) r e known fits = ground (arith, fits)
  walk_ends_at (suc fuel) (c ∷ rest) r e known fits =
      let next = round t base c rest r in
      let (r', done) =
        walk_ends_at fuel next.stack next refl (Known-round c rest r known)
          (omega (arith, fits, measure_round c rest r known.0)) in
      (r', walk_step t base fuel c rest r e ∙ done)
