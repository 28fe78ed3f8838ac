-- ===== src/Integrations/Classes/Flags.antt =====
-- Which classes the walk leaves with the flag, and which of them it wraps.
use langgraph_lens.Prelude.{
  ℕ, zero, suc, ◌≡◌, ◌≢◌, sym, refl, ap, ◌∙◌, subst, Bool, true, false, ◌||◌, Option, none, some,
  List, [], ◌∷◌, arith, contains, Bool-cases, inl, inr, nat_eq, ◌==◌,
}
use langgraph_lens.Lens.{Lens}
use langgraph_lens.Integrations.{resolve_lens}
use langgraph_lens.Integrations.Classes.{
  ClassTable, Patches, Round, any_patched, is_flagged, patch, extended, round, walk, install, start,
  enough, with_lens, finished,
}
use langgraph_lens.Integrations.Classes.Walk.{
  IsClosed, round_again, round_new, walk_stop, walk_step, walk_stuck, walk_ends_at,
}

-- The classes below the base, however far, and the base.
pub data Below (t : ClassTable) (base : ℕ) : ℕ → Type 0 where
  here : Below t base base
  down : (c d : ℕ) → Below t base c → contains (t.subclasses c) d ≡ true → Below t base d

pub any_patched_more :
    (p : ℕ) (ps cs : List ℕ) → any_patched ps cs ≡ true → any_patched (p ∷ ps) cs ≡ true
any_patched_more p ps [] h = h
any_patched_more p ps (c ∷ cs) h = ground (arith, h, any_patched_more p ps cs)

any_patched_member :
    (c : ℕ) (ps cs : List ℕ) → contains cs c ≡ true → any_patched (c ∷ ps) cs ≡ true
any_patched_member c ps [] h = ground (arith, h)
any_patched_member c ps (d ∷ cs) h = ground (arith, h, any_patched_member c ps cs)

pub flagged_round :
    (t : ClassTable) (base c : ℕ) (rest : List ℕ) (r : Round) (d : ℕ)
    → is_flagged t r.patched d ≡ true
    → is_flagged t (round t base c rest r).patched d ≡ true
unfolding round patch is_flagged
flagged_round t base c rest r d h = ground (arith, h, any_patched_more c r.patched (t.mro d) h)

patched_round :
    (t : ClassTable) (base c : ℕ) (rest : List ℕ) (r : Round) (d : ℕ)
    → is_flagged t r.patched d ≡ true
    → contains r.patched d ≡ false
    → contains (round t base c rest r).patched d ≡ false
unfolding round patch
patched_round t base c rest r d flagged bare = elim (nat_eq.dec c d) [
  | yes same ↦ ground (arith, bare, subst (λ x. is_flagged t r.patched x ≡ true) (sym same) flagged)
  | no differ ↦ ground (arith, bare, differ)
]

pub new_flagged :
    (t : ClassTable) (base c : ℕ) (rest : List ℕ) (r : Round)
    → contains (t.mro c) c ≡ true
    → contains r.seen c ≡ false
    → c ≢ base
    → is_flagged t (round t base c rest r).patched c ≡ true
unfolding round patch is_flagged
new_flagged t base c rest r self new differ =
    ground (arith, new, differ, any_patched_member c r.patched (t.mro c) self)

pub contains-extended :
    (cs stack : List ℕ) (d : ℕ)
    → contains (extended cs stack) d ≡ (contains cs d || contains stack d)
unfolding extended
contains-extended [] stack d = refl
contains-extended (c ∷ cs) stack d = ground (arith, contains-extended cs (c ∷ stack) d)

-- A class that is seen, or on the stack and to be seen.
abbrev pub reached : Round → List ℕ → ℕ → Bool
reached r stack d = contains r.seen d || contains stack d

module _ (t : ClassTable) (base : ℕ) (self : (c : ℕ) → contains (t.mro c) c ≡ true) where
  -- What holds of the loop before each round: what was seen has the flag, except the base, and has
  -- its subclasses reached.
  pub record IsSwept (r : Round) (stack : List ℕ) : Type 0 where
    pub flagged : (c : ℕ) → contains r.seen c ≡ true → c ≢ base → is_flagged t r.patched c ≡ true
    pub followed :
        (c d : ℕ)
        → contains r.seen c ≡ true
        → contains (t.subclasses c) d ≡ true
        → reached r stack d ≡ true
    pub started : reached r stack base ≡ true

  reached_again :
      (c : ℕ) (rest : List ℕ) (r : Round) (d : ℕ)
      → contains r.seen c ≡ true
      → reached r (c ∷ rest) d ≡ true
      → reached r rest d ≡ true
  reached_again c rest r d again h = elim (nat_eq.dec c d) [
    | yes same ↦ subst (λ x. reached r rest x ≡ true) same (ground (arith, again))
    | no differ ↦ ground (arith, h, differ)
  ]

  reached_new :
      (c : ℕ) (rest : List ℕ) (r : Round) (d : ℕ)
      → contains r.seen c ≡ false
      → reached r (c ∷ rest) d ≡ true
      → let next = round t base c rest r in reached next next.stack d ≡ true
  reached_new c rest r d new h =
      rw ((round_new t base c rest r new).0, (round_new t base c rest r new).1)
        (ground (arith, h, contains-extended (t.subclasses c) rest d))

  seen_before :
      (c : ℕ) (rest : List ℕ) (r : Round) (b : ℕ)
      → contains r.seen c ≡ false
      → contains (round t base c rest r).seen b ≡ true
      → c ≢ b
      → contains r.seen b ≡ true
  seen_before c rest r b new seen differ =
      ground (arith, seen, differ, ap (λ s. contains s b) (round_new t base c rest r new).1)

  IsSwept-again :
      (c : ℕ) (rest : List ℕ) (r : Round)
      → contains r.seen c ≡ true
      → IsSwept r (c ∷ rest)
      → IsSwept (record r { stack = rest }) rest
  IsSwept-again c rest r again h = record {
    flagged = h.flagged;
    followed = λ b d seen below. reached_again c rest r d again (h.followed b d seen below);
    started = reached_again c rest r base again h.started;
  }

  IsSwept-new :
      (c : ℕ) (rest : List ℕ) (r : Round)
      → contains r.seen c ≡ false
      → IsSwept r (c ∷ rest)
      → let next = round t base c rest r in IsSwept next next.stack
  IsSwept-new c rest r new h = record {
    flagged = λ b seen other. elim (nat_eq.dec c b) [
      | yes same ↦
          subst (λ x. is_flagged t (round t base c rest r).patched x ≡ true) same
            (new_flagged t base c rest r (self c) new (λ e. other (sym same ∙ e)))
      | no differ ↦
          flagged_round t base c rest r b
            (h.flagged b (seen_before c rest r b new seen differ) other)
    ];
    followed = λ b d seen below. elim (nat_eq.dec c b) [
      | yes same ↦
          let listed = subst (λ x. contains (t.subclasses x) d ≡ true) (sym same) below in
          rw ((round_new t base c rest r new).0)
            (ground (arith, listed, contains-extended (t.subclasses c) rest d))
      | no differ ↦
          reached_new c rest r d new (h.followed b d (seen_before c rest r b new seen differ) below)
    ];
    started = reached_new c rest r base new h.started;
  }

  IsSwept-round :
      (c : ℕ) (rest : List ℕ) (r : Round)
      → IsSwept r (c ∷ rest)
      → let next = round t base c rest r in IsSwept next next.stack
  IsSwept-round c rest r h = elim (Bool-cases (contains r.seen c)) [
    | inl again ↦ rw (round_again t base c rest r again) (IsSwept-again c rest r again h)
    | inr new ↦ IsSwept-new c rest r new h
  ]

  IsSwept-walk :
      (fuel : ℕ) (stack : List ℕ) (r r' : Round)
      → r.stack ≡ stack
      → IsSwept r stack
      → walk t base fuel r ≡ some r'
      → IsSwept r' []
  IsSwept-walk fuel [] r r' e h done =
      let both : some r ≡ some r' = sym (walk_stop t base fuel r e) ∙ done in
      let same : r ≡ r' = cc in subst (λ x. IsSwept x []) same h
  IsSwept-walk zero (c ∷ rest) r r' e h done =
      let stuck : none ≡ some r' = sym (walk_stuck t base c rest r e) ∙ done in
      ground (arith, stuck)
  IsSwept-walk (suc fuel) (c ∷ rest) r r' e h done =
      let next = round t base c rest r in
      IsSwept-walk fuel next.stack next r' refl (IsSwept-round c rest r h)
        (sym (walk_step t base fuel c rest r e) ∙ done)

  Below-seen : (r : Round) (c : ℕ) → IsSwept r [] → Below t base c → contains r.seen c ≡ true
  Below-seen r _ h here = ground (arith, h.started)
  Below-seen r _ h (down b c below listed) =
      ground (arith, h.followed b c (Below-seen r b h below) listed)

-- An installation that is not opted out, with a lens and a base class, ends within its fuel, in any
-- table of classes that is closed under subclasses and in which a class is in its own `__mro__`. It
-- then has installed the hook, and every class below the base, at any depth, has the flag, unless it
-- is the base itself.
pub install_flags :
    (t : ClassTable) (base c : ℕ) (lens global : Option Lens) (l : Lens) (ps : Patches)
    → IsClosed t
    → contains t.classes base ≡ true
    → ((c : ℕ) → contains (t.mro c) c ≡ true)
    → resolve_lens lens global ≡ some l
    → Below t base c
    → (n : ℕ) × (ps' : Patches) × (install false lens global (some base) t ps ≡ some (n, ps'))
      × (ps'.hooked ≡ true)
      × (((c == base) || is_flagged t ps'.patched c) ≡ true)
unfolding install
install_flags t base c lens global l ps closed known self resolved below =
    let (r, done) =
      walk_ends_at t base closed (enough t) (base ∷ []) (start base ps.patched) refl (known, tt)
        (omega arith) in
    let swept =
      IsSwept-walk t base self (enough t) (base ∷ []) (start base ps.patched) r refl
        (record {
          flagged = λ b seen other. ground (arith, seen);
          followed = λ b d seen listed. ground (arith, seen);
          started = ground arith;
        })
        done in
    (
      r.count,
      record { patched = r.patched; hooked = true },
      ap (λ o. with_lens o ps (finished (walk t base (enough t) (start base ps.patched)))) resolved
          ∙ ap finished done,
      refl,
      elim (nat_eq.dec c base) [
        | yes same ↦ ground (arith, same)
        | no other ↦
            let flag = swept.flagged c (Below-seen t base self r c swept below) other in
            ground (arith, flag)
      ],
    )
